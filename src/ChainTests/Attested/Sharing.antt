-- ===== src/ChainTests/Attested/Sharing.antt =====
-- attested-fixture.ts, `ensureAttested`: the calls and failures of one module context in any order, and
-- how often the account is attested. The run's files share a context, as `isolate: false` of
-- vitest.config.ts sets it.
use mathlib.Core.Path.{subst}
use polkadot_pop_e2e.Common.{◌⊎◌, ℕ, suc, ◌≤◌, ◌≡◌, refl, ap, arith, none, some, inl, inr}
use polkadot_pop_e2e.ChainTests.Task.{Failure}
use polkadot_pop_e2e.ChainTests.Attested.{
  Shared, fresh_run, fails_with, joins, ensure_attested, cascade_of, on_failure,
}

-- A step in a module context: a call, or the failure of the attempt in flight.
pub data Step : Shared → Shared → Type 0 where
  calls : {s s' : Shared} → (ensure_attested s).1 ≡ s' → Step s s'
  attempt_fails :
      {s s' : Shared} (attempt : ℕ) (e : Failure)
      → s.inflight ≡ some attempt
      → on_failure e s ≡ s'
      → Step s s'

pub data Reaches : Shared → Type 0 where
  begins : Reaches fresh_run
  steps : {s s' : Shared} → Reaches s → Step s s' → Reaches s'

-- The attempt in flight is the only one, and a failure is kept only after it ended.
data IsPhase : Shared → Type 0 where
  idle : {s : Shared} → s.inflight ≡ none → s.cached_failure ≡ none → s.started ≡ 0 → IsPhase s
  flying : {s : Shared} → s.inflight ≡ some 0 → s.cached_failure ≡ none → s.started ≡ 1 → IsPhase s
  failed :
      {s : Shared} (e : Failure)
      → s.inflight ≡ none
      → s.cached_failure ≡ some e
      → s.started ≡ 1
      → IsPhase s

call-IsPhase : (s : Shared) → IsPhase s → IsPhase (ensure_attested s).1
unfolding ensure_attested
call-IsPhase s (idle e f g) = rw (f, e) (flying (ap some g) refl (ap suc g))
call-IsPhase s (flying e f g) = rw (f, e) (flying refl refl g)
call-IsPhase s (failed x e f g) = rw f (failed x e refl g)

failure-IsPhase :
    (s : Shared) (attempt : ℕ) (x : Failure)
    → s.inflight ≡ some attempt
    → IsPhase s
    → IsPhase (on_failure x s)
unfolding on_failure
failure-IsPhase s attempt x flight (idle e f g) = absurd (cc)
failure-IsPhase s attempt x flight (flying e f g) = failed (cascade_of x) refl refl g
failure-IsPhase s attempt x flight (failed y e f g) = absurd (cc)

Reaches-IsPhase : (s : Shared) → Reaches s → IsPhase s
Reaches-IsPhase s begins = idle refl refl refl
Reaches-IsPhase s (steps {s = r} h (calls e)) =
    subst IsPhase e (call-IsPhase r (Reaches-IsPhase r h))
Reaches-IsPhase s (steps {s = r} h (attempt_fails attempt x flight e)) =
    subst IsPhase e (failure-IsPhase r attempt x flight (Reaches-IsPhase r h))

-- In every state of one module context, which the files of a run share under `isolate: false`, at
-- most one attempt was started, and when one was, a call does not start another: it joins the attempt in flight, or it fails with the failure that is kept.
pub ensure_attested-once :
    (s : Shared)
    → Reaches s
    → (s.started ≤ 1)
      × (1 ≤ s.started
          → ((ensure_attested s).0 ≡ joins 0)
            ⊎ ((e : Failure) × (s.cached_failure ≡ some e)
                × ((ensure_attested s).0 ≡ fails_with e)))
unfolding ensure_attested
ensure_attested-once s reached = by_phase (Reaches-IsPhase s reached)
  where
    by_phase :
        IsPhase s
        → (s.started ≤ 1)
          × (1 ≤ s.started
              → ((ensure_attested s).0 ≡ joins 0)
                ⊎ ((e : Failure) × (s.cached_failure ≡ some e)
                    × ((ensure_attested s).0 ≡ fails_with e)))
    by_phase (idle e f g) = (omega (arith, g), λ h. absurd (omega (arith, g, h)))
    by_phase (flying e f g) = (omega (arith, g), λ h. inl (rw (f, e) refl))
    by_phase (failed x e f g) = (omega (arith, g), λ h. inr (x, f, rw f refl))
