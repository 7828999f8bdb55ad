-- ===== src/ChainTests/Requests/Settling.antt =====
-- statement-transport.ts: the states of the tracker that a connection can reach.
use mathlib.Core.Path.{subst}
use polkadot_pop_e2e.Common.{
  ℕ, ◌≡◌, ◌≢◌, refl, false, Option, none, some, List, [], ◌∷◌, ◌++◌, Bool-cases, inl, inr, starts,
}
use polkadot_pop_e2e.ChainTests.Requests.{
  Sent, add_sent, add_all, is_answer, without_answer, resolved, Tracker, Event, sends, receives,
  settles, times_out, step, has_number, with_number, is_empty,
}

pub data Reaches : Tracker → Type 0 where
  begins : Reaches (record { waiting = []; on_settled = [] })
  steps : {t t' : Tracker} (e : Event) → Reaches t → (step t e).0 ≡ t' → Reaches t'

abbrev IsQuiet : Tracker → Type 0
IsQuiet t = t.waiting ≡ [] → t.on_settled ≡ []

empty_lem : (ns : List ℕ) → is_empty ns ≡ false → ns ≢ []
empty_lem [] h e = cc
empty_lem (n ∷ ns) h e = cc

append-nonempty : (ns : List ℕ) (n : ℕ) → ns ++ n ∷ [] ≢ []
append-nonempty [] n e = cc
append-nonempty (m ∷ ns) n e = cc

with_number-nonempty : (n : ℕ) (set : List ℕ) → with_number n set ≡ [] → set ≡ []
with_number-nonempty n set = elim (Bool-cases (has_number n set)) [
  | inl has ↦ rw has (λ e. e)
  | inr lacks ↦ rw lacks (λ e. absurd (append-nonempty set n e))
]

add_sent-nonempty :
    (waiting : List ℕ) (message : Sent) → add_sent waiting message ≡ [] → waiting ≡ []
add_sent-nonempty waiting message = by_id message.id
  where
    by_id :
        (id : Option ℕ)
        → add_sent waiting (record { id = id; method = message.method }) ≡ []
        → waiting ≡ []
    by_id none = λ e. e
    by_id (some id) = elim (Bool-cases (starts "statement_" message.method)) [
      | inl statement ↦ rw statement (with_number-nonempty id waiting)
      | inr other ↦ rw other (λ e. e)
    ]

add_all-nonempty :
    (waiting : List ℕ) (replies : List Sent) → add_all waiting replies ≡ [] → waiting ≡ []
add_all-nonempty waiting [] e = e
add_all-nonempty waiting (message ∷ rest) e =
    add_sent-nonempty waiting message (add_all-nonempty (add_sent waiting message) rest e)

resolved-IsQuiet : (t : Tracker) → IsQuiet (resolved t).0
resolved-IsQuiet t = elim (Bool-cases (is_empty t.waiting)) [
  | inl quiet ↦ rw quiet (λ e. refl)
  | inr busy ↦ rw busy (λ e. absurd (empty_lem t.waiting busy e))
]

step-IsQuiet : (t : Tracker) (e : Event) → IsQuiet t → IsQuiet (step t e).0
unfolding step
step-IsQuiet t (sends message) h = λ e. h (add_sent-nonempty t.waiting message e)
step-IsQuiet t (receives id replies) h = elim (Bool-cases (is_answer id t.waiting)) [
  | inl answer ↦
      rw answer
        (resolved-IsQuiet (record t { waiting = add_all (without_answer id t.waiting) replies }))
  | inr other ↦ rw other (λ e. h (add_all-nonempty t.waiting replies e))
]
step-IsQuiet t (settles call) h = elim (Bool-cases (is_empty t.waiting)) [
  | inl quiet ↦ rw quiet h
  | inr busy ↦ rw busy (λ e. absurd (empty_lem t.waiting busy e))
]
step-IsQuiet t (times_out call) h = elim (Bool-cases (has_number call t.on_settled)) [
  | inl here ↦ rw here (λ e. rw (h e) refl)
  | inr gone ↦ rw gone h
]

-- Whatever was sent, received, awaited and timed out before: when no statement request waits for its
-- answer, no call of `settled` is still pending.
pub Reaches-settled : (t : Tracker) → Reaches t → t.waiting ≡ [] → t.on_settled ≡ []
Reaches-settled t begins = λ e. refl
Reaches-settled t (steps {t = before} event reached same) =
    subst IsQuiet same (step-IsQuiet before event (Reaches-settled before reached))
