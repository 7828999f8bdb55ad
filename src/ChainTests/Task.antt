-- ===== src/ChainTests/Task.antt =====
-- Asynchronous code in sequence: a task runs in a world that has a clock and counts the awaited
-- calls, and it returns a value or throws. What an awaited call answers, how long it takes and
-- whether it is rejected is the network's choice, by the number of the call.
pub mod Rules
use polkadot_pop_e2e.Common.{
  ℕ, suc, ◌+◌, String, Option, none, some, Bool, true, false, Result, ok, err, if◌then◌else◌, List,
}

-- `now` is `Date.now()`, in milliseconds.
pub record World : Type 0 where
  pub now : ℕ
  pub calls : ℕ

-- The classes of a timeout's report, in the order of `formatInclusionTimeout`.
pub data Verdict : Type 0 where
  chain_slow builder_stuck not_picked_up never_registered ambiguous : Verdict

-- `last_status` is the field of `RingInclusionTimeout`. `out_of_fuel` is the model's own: a loop
-- that was not given enough rounds.
pub data Failure : Type 0 where
  rejected : String → Failure
  thrown : String → Failure
  inclusion_timeout : (verdict : Option Verdict) (last_status : Option String) → Failure
  out_of_fuel : Failure

pub record Network : Type 0 where
  pub latency : ℕ → ℕ
  pub rejection : ℕ → Option String

abbrev pub Task {ℓ} : Type ℓ → Type ℓ
Task A = World → Result Failure A × World

abbrev pub pure {ℓ} : {A : Type ℓ} → A → Task A
pure a w = (ok a, w)

abbrev pub throw {ℓ} : {A : Type ℓ} → Failure → Task A
throw e w = (err e, w)

abbrev pub continue {ℓ κ} :
    {A : Type ℓ} {B : Type κ} → Result Failure A × World → (A → Task B) → Result Failure B × World
continue (ok a, w) f = f a w
continue (err e, w) f = (err e, w)

infixl 5 ◌>>=◌ ◌>>◌
abbrev pub ◌>>=◌ {ℓ κ} : {A : Type ℓ} {B : Type κ} → Task A → (A → Task B) → Task B
◌>>=◌ m f w = continue (m w) f

abbrev pub ◌>>◌ {ℓ κ} : {A : Type ℓ} {B : Type κ} → Task A → Task B → Task B
m >> k = m >>= λ _. k

-- `Date.now()`
unfoldable pub date_now : Task ℕ
date_now w = (ok w.now, w)

module _ (network : Network) where
  abbrev after_call : ℕ → World → World
  after_call ms w = record { now = w.now + ms + network.latency w.calls; calls = suc w.calls }

  abbrev answer_or_reject {ℓ} : {A : Type ℓ} → Option String → A → Result Failure A
  answer_or_reject none a = ok a
  answer_or_reject (some message) a = err (rejected message)

  -- An awaited call, with its answer by the call's number.
  unfoldable pub remote {ℓ} : {A : Type ℓ} → (ℕ → A) → Task A
  remote answer w = (answer_or_reject (network.rejection w.calls) (answer w.calls), after_call 0 w)

  -- `await new Promise((r) => setTimeout(r, ms))`: at least `ms`.
  unfoldable pub sleep : ℕ → Task (Unit {0})
  sleep ms w = (ok tt, after_call ms w)
