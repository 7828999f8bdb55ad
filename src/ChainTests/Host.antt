-- ===== src/ChainTests/Host.antt =====
-- packages/chain-tests/src/lib/truapi-host.ts: the claim of PGAS through the command line tool. What a
-- run of the tool prints, or how it fails, is its answer by the number of the call.
pub mod Attempts
use Prim.Native.String
use polkadot_pop_e2e.Common.{
  ℕ, zero, suc, ◌+◌, ◌-◌, String, Bool, true, false, not, ◌||◌, List, ltb, leb, eqb, if◌then◌else◌,
  Result, ok, err, mentions,
}
use polkadot_pop_e2e.ChainTests.Task.{
  Failure, thrown, out_of_fuel, Network, Task, pure, throw, continue, ◌>>=◌, remote, date_now,
}
use polkadot_pop_e2e.ChainTests.Claims.{message_of, attempt_of}

pub data CliRun : Type 0 where
  prints : (stdout : String) → CliRun
  exits : (killed : Bool) → (output : String) → CliRun

-- `pinned` is the settled promise of `assertPinnedVersion`. A run is chosen by the command and its
-- timeout.
pub record Host : Type 0 where
  pub network : Network
  pub pinned : Result Failure (Unit {0})
  pub has_preset : Bool
  pub run : (command : String) → (timeout_ms : ℕ) → ℕ → CliRun

abbrev pub pgas_attempts : ℕ
pgas_attempts = 3

-- `/Asset Hub (pruned|has not imported) ring/`
unfoldable pub is_ring_revision_lag : Failure → Bool
is_ring_revision_lag e =
    mentions "Asset Hub pruned ring" (message_of e)
    || mentions "Asset Hub has not imported ring" (message_of e)

module _ (host : Host) where
  settled : Result Failure (Unit {0}) → Task (Unit {0})
  settled (ok u) = pure u
  settled (err e) = throw e

  abbrev stdout_of : (command : String) → CliRun → Task String
  stdout_of command (prints stdout) = pure stdout
  stdout_of command (exits true output) = throw (
      thrown (
        String.◌++◌ "[truapi-host] "
          (String.◌++◌ command (String.◌++◌ " failed (killed): " output))))
  stdout_of command (exits false output) =
      throw (
        thrown
          (String.◌++◌ "[truapi-host] " (String.◌++◌ command (String.◌++◌ " failed: " output))))

  unfoldable pub run_command : (command : String) → (timeout_ms : ℕ) → Task String
  unfolding remote
  run_command command timeout_ms = do
    outcome ← remote host.network (host.run command timeout_ms)
    stdout_of command outcome

  unfoldable pub truapi_host : (command : String) → (timeout_ms : ℕ) → Task String
  unfolding settled run_command
  truapi_host command timeout_ms = do
    pinned ← settled host.pinned
    if host.has_preset
        then run_command command timeout_ms
        else throw
            (thrown "[truapi-host-setup] truapi-host doesn't have a CLI preset for the network")

  settle_pgas : (attempt : ℕ) → Task String → Result Failure String → Task String
  unfolding is_ring_revision_lag
  settle_pgas attempt again (ok stdout) = pure stdout
  settle_pgas attempt again (err e) =
      if eqb attempt pgas_attempts || not (is_ring_revision_lag e) then throw e else again

  -- The loop from `attempt` on, on fuel: it has no bound but the test in `settle_pgas`.
  unfoldable pub pgas_from : (fuel attempt deadline : ℕ) → Task String
  unfolding truapi_host settle_pgas
  pgas_from zero attempt deadline = throw out_of_fuel
  pgas_from (suc fuel) attempt deadline = do
    now ← date_now
    let more = do
      outcome ← attempt_of (truapi_host "pgas-check" (deadline - now))
      settle_pgas attempt (pgas_from fuel (attempt + 1) deadline) outcome
    if leb deadline now
        then throw (thrown "[truapi-host] pgas-check: no time left before the deadline")
        else more

  unfoldable pub claim_pgas : (fuel deadline : ℕ) → Task String
  unfolding pgas_from
  claim_pgas fuel deadline = pgas_from fuel 1 deadline
