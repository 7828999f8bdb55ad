-- ===== src/ChainTests/Probes/Race.antt =====
-- rpc-node-fingerprint.mjs, `followAndAwaitInitialized`: the order of the answer and of the event
-- `initialized` on the socket.
use polkadot_pop_e2e.Common.{
  ℕ, ◌≡◌, refl, ◌⊎◌, inl, inr, arith, String, true, false, Option, none, some, List, [], ◌∷◌, ◌==◌,
  eqb, includes, All, Any, Bool-cases, eq_refl,
}
use polkadot_pop_e2e.ChainTests.Probes.{
  initialized, stop, other, unparsable, refusal, answer, follow_event, unrelated, Outcome, resolved,
  Follow, start_follow, Happening, message, init_timeout, follow_and_await,
}

-- What does not stop the wait of request `id` for subscription `sub`: fresh timeout, fresh refusal, no
-- `stop` of the subscription, and fresh answer with another one.
abbrev pub IsCalm : ℕ → String → Happening → Type 0
IsCalm id sub init_timeout = ⊥
IsCalm id sub (message (refusal to error)) = eqb to id ≡ false
IsCalm id sub (message (answer to result)) = eqb to id ≡ true → result ≡ sub
IsCalm id sub (message (follow_event subscription stop)) = (subscription == sub) ≡ false
IsCalm id sub (message _) = Unit

abbrev pub IsAnswer : ℕ → String → Happening → Type 0
IsAnswer id sub event = event ≡ message (answer id sub)

abbrev pub IsInitialized : String → Happening → Type 0
IsInitialized sub event = event ≡ message (follow_event sub initialized)

abbrev follow_at : Option String → List String → Option Outcome → Follow
follow_at sub started settled = record {
  sub_id = sub;
  initialized_by_sub = started;
  settled = settled;
}

module _ (id : ℕ) where
  settled_stays :
      (sub : Option String) (started : List String) (outcome : Outcome) (events : List Happening)
      → (follow_and_await id (follow_at sub started (some outcome)) events).settled ≡ some outcome
  unfolding follow_and_await
  settled_stays sub started outcome [] = refl
  settled_stays sub started outcome (event ∷ events) = settled_stays sub started outcome events

  later :
      (P : Happening → Type 0) (event : Happening) (events : List Happening)
      → (P event → ⊥)
      → Any P (event ∷ events)
      → Any P events
  later P event events differs (inl p) = absurd (differs p)
  later P event events differs (inr h) = h

  module _ (sub : String) where
    still :
        (started : List String) (event : Happening) (events : List Happening)
        → (IsInitialized sub event → ⊥)
        → (includes started sub ≡ true) ⊎ Any (IsInitialized sub) (event ∷ events)
        → (includes started sub ≡ true) ⊎ Any (IsInitialized sub) events
    still started event events differs (inl there) = inl there
    still started event events differs (inr come) =
        inr (later (IsInitialized sub) event events differs come)

    to_come :
        (started : List String) (event : Happening) (events : List Happening)
        → includes started sub ≡ false
        → (IsInitialized sub event → ⊥)
        → (includes started sub ≡ true) ⊎ Any (IsInitialized sub) (event ∷ events)
        → Any (IsInitialized sub) events
    to_come started event events absent differs (inl there) = cc
    to_come started event events absent differs (inr come) =
        later (IsInitialized sub) event events differs come

    other_event :
        (s : String)
        → (s == sub) ≡ false
        → IsInitialized sub (message (follow_event s initialized))
        → ⊥
    other_event s differs e = let same : s ≡ sub = cc in absurd (ground (arith, eq_refl s))

    other_answer :
        (to : ℕ) (result : String)
        → eqb to id ≡ false
        → IsAnswer id sub (message (answer to result))
        → ⊥
    other_answer to result foreign e = let same : to ≡ id = cc in absurd (ground arith)

    -- The subscription is known, and its event is still to come.
    resolves_answered :
        (started : List String) (events : List Happening)
        → includes started sub ≡ false
        → Any (IsInitialized sub) events
        → All (IsCalm id sub) events
        → (follow_and_await id (follow_at (some sub) started none) events).settled
          ≡ some (resolved sub)
    unfolding follow_and_await
    resolves_answered started [] fresh come calm = absurd come
    resolves_answered started (init_timeout ∷ events) fresh come calm = absurd calm.0
    resolves_answered started (message unparsable ∷ events) fresh come calm =
        resolves_answered started events fresh (later (IsInitialized sub) _ events (λ e. cc) come)
          calm.1
    resolves_answered started (message unrelated ∷ events) fresh come calm =
        resolves_answered started events fresh (later (IsInitialized sub) _ events (λ e. cc) come)
          calm.1
    resolves_answered started (message (refusal to error) ∷ events) fresh come calm =
        rw (calm.0, follow_and_await)
          (resolves_answered started events fresh
            (later (IsInitialized sub) _ events (λ e. cc) come) calm.1)
    resolves_answered started (message (answer to result) ∷ events) fresh come calm =
        let rest =
          resolves_answered started events fresh (later (IsInitialized sub) _ events (λ e. cc) come)
            calm.1 in
        elim (Bool-cases (eqb to id)) [
          | inl mine ↦ rw (mine, calm.0 mine, fresh, follow_and_await) rest
          | inr foreign ↦ rw (foreign, follow_and_await) rest
        ]
    resolves_answered started (message (follow_event s initialized) ∷ events) fresh come calm =
        elim (Bool-cases (s == sub)) [
          | inl same ↦
              rw (same, follow_and_await)
                (settled_stays (some sub) (s ∷ started) (resolved sub) events)
          | inr differs ↦
              rw (differs, fresh, follow_and_await)
                (resolves_answered (s ∷ started) events (rw (differs, fresh) refl)
                  (later (IsInitialized sub) _ events (other_event s differs) come) calm.1)
        ]
    resolves_answered started (message (follow_event s stop) ∷ events) fresh come calm =
        rw (calm.0, follow_and_await)
          (resolves_answered started events fresh
            (later (IsInitialized sub) _ events (λ e. cc) come) calm.1)
    resolves_answered started (message (follow_event s other) ∷ events) fresh come calm =
        resolves_answered started events fresh (later (IsInitialized sub) _ events (λ e. cc) come)
          calm.1

    -- The subscription is still to come, and its event is there or to come.
    resolves_unanswered :
        (started : List String) (events : List Happening)
        → Any (IsAnswer id sub) events
        → (includes started sub ≡ true) ⊎ Any (IsInitialized sub) events
        → All (IsCalm id sub) events
        → (follow_and_await id (follow_at none started none) events).settled ≡ some (resolved sub)
    unfolding follow_and_await
    resolves_unanswered started [] answers come calm = absurd answers
    resolves_unanswered started (init_timeout ∷ events) answers come calm = absurd calm.0
    resolves_unanswered started (message unparsable ∷ events) answers come calm =
        resolves_unanswered started events (later (IsAnswer id sub) _ events (λ e. cc) answers)
          (still _ _ events (λ e. cc) come) calm.1
    resolves_unanswered started (message unrelated ∷ events) answers come calm =
        resolves_unanswered started events (later (IsAnswer id sub) _ events (λ e. cc) answers)
          (still _ _ events (λ e. cc) come) calm.1
    resolves_unanswered started (message (refusal to error) ∷ events) answers come calm =
        rw (calm.0, follow_and_await)
          (resolves_unanswered started events (later (IsAnswer id sub) _ events (λ e. cc) answers)
            (still _ _ events (λ e. cc) come) calm.1)
    resolves_unanswered started (message (answer to result) ∷ events) answers come calm =
        elim (Bool-cases (eqb to id)) [
          | inl mine ↦ elim (Bool-cases (includes started sub)) [
            | inl there ↦
                rw (mine, calm.0 mine, there, follow_and_await)
                  (settled_stays (some sub) started (resolved sub) events)
            | inr absent ↦
                rw (mine, calm.0 mine, absent, follow_and_await)
                  (resolves_answered started events absent
                    (to_come _ _ events absent (λ e. cc) come) calm.1)
          ]
          | inr foreign ↦
              rw (foreign, follow_and_await)
                (resolves_unanswered started events
                  (later (IsAnswer id sub) _ events (other_answer to result foreign) answers)
                  (still _ _ events (λ e. cc) come) calm.1)
        ]
    resolves_unanswered started (message (follow_event s initialized) ∷ events) answers come calm =
        resolves_unanswered (s ∷ started) events
          (later (IsAnswer id sub) _ events (λ e. cc) answers)
          (elim (Bool-cases (s == sub)) [
            | inl same ↦ inl (rw same refl)
            | inr differs ↦ rw differs (still _ _ events (other_event s differs) come)
          ])
          calm.1
    resolves_unanswered started (message (follow_event s stop) ∷ events) answers come calm =
        resolves_unanswered started events (later (IsAnswer id sub) _ events (λ e. cc) answers)
          (still _ _ events (λ e. cc) come) calm.1
    resolves_unanswered started (message (follow_event s other) ∷ events) answers come calm =
        resolves_unanswered started events (later (IsAnswer id sub) _ events (λ e. cc) answers)
          (still _ _ events (λ e. cc) come) calm.1

-- A follow whose request is answered with a subscription, and whose subscription's event
-- `initialized` arrives, resolves with that subscription, in whatever order the two stand among the
-- messages of the socket: provided that the time does not end, the request is not refused, its
-- answers name one subscription only, and no `stop` of that subscription arrives.
pub follow_and_await-resolves :
    (id : ℕ) (sub : String) (events : List Happening)
    → Any (IsAnswer id sub) events
    → Any (IsInitialized sub) events
    → All (IsCalm id sub) events
    → (follow_and_await id start_follow events).settled ≡ some (resolved sub)
follow_and_await-resolves id sub events answers come calm =
    resolves_unanswered id sub [] events answers (inr come) calm
