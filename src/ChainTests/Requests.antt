-- ===== src/ChainTests/Requests.antt =====
-- packages/chain-tests/src/lib/statement-transport.ts, `trackStatementRequests`: which statement
-- requests wait for an answer, and who waits for there to be none.
pub mod Settling
use Prim.Native.String
use polkadot_pop_e2e.Common.{
  ℕ, String, Bool, true, false, not, ◌&&◌, Option, none, some, List, [], ◌∷◌, ◌++◌, keep, any, eqb,
  if◌then◌else◌, starts,
}

-- `waiting`, and the pending calls of `settled` by number.
pub record Tracker : Type 0 where
  pub waiting : List ℕ
  pub on_settled : List ℕ

-- A message that is sent. One without an id has none.
pub record Sent : Type 0 where
  pub id : Option ℕ
  pub method : String

-- What happens on the connection: a message is sent, or one is received, with what its handler sends
-- before it returns; `settled` is called, or the timer of such a call ends.
pub data Event : Type 0 where
  sends : Sent → Event
  receives : (id : Option ℕ) → (replies : List Sent) → Event
  settles : (call : ℕ) → Event
  times_out : (call : ℕ) → Event

abbrev pub without_number : ℕ → List ℕ → List ℕ
without_number n = keep (λ k. not (eqb k n))

abbrev pub has_number : ℕ → List ℕ → Bool
has_number n = any (λ k. eqb k n)

-- `Set.add`
abbrev pub with_number : ℕ → List ℕ → List ℕ
with_number n set = if has_number n set then set else set ++ n ∷ []

abbrev pub is_empty : List ℕ → Bool
is_empty [] = true
is_empty (n ∷ rest) = false

-- `if ("id" in message && message.method.startsWith("statement_")) waiting.add(message.id)`
abbrev pub add_sent : List ℕ → Sent → List ℕ
add_sent waiting message = by_id message.id
  where
    by_id : Option ℕ → List ℕ
    by_id none = waiting
    by_id (some id) = if starts "statement_" message.method then with_number id waiting else waiting

abbrev pub add_all : List ℕ → List Sent → List ℕ
add_all waiting [] = waiting
add_all waiting (message ∷ rest) = add_all (add_sent waiting message) rest

-- `"id" in message && waiting.delete(message.id)`
abbrev pub is_answer : Option ℕ → List ℕ → Bool
is_answer none waiting = false
is_answer (some id) waiting = has_number id waiting

abbrev pub without_answer : Option ℕ → List ℕ → List ℕ
without_answer none waiting = waiting
without_answer (some id) waiting = without_number id waiting

-- After an answer, everyone who waits is resolved when no request is left.
abbrev pub resolved : Tracker → Tracker × List ℕ
resolved t = if is_empty t.waiting then (record t { on_settled = [] }, t.on_settled) else (t, [])

-- The tracker after an event, and the calls of `settled` that it resolves.
unfoldable pub step : Tracker → Event → Tracker × List ℕ
step t (sends message) = (record t { waiting = add_sent t.waiting message }, [])
step t (receives id replies) =
    if is_answer id t.waiting
    then resolved (record t { waiting = add_all (without_answer id t.waiting) replies })
    else (record t { waiting = add_all t.waiting replies }, [])
step t (settles call) =
    if is_empty t.waiting
    then (t, call ∷ [])
    else (record t { on_settled = with_number call t.on_settled }, [])
step t (times_out call) =
    if has_number call t.on_settled
    then (record t { on_settled = without_number call t.on_settled }, call ∷ [])
    else (t, [])
