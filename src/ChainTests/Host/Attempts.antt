-- ===== src/ChainTests/Host/Attempts.antt =====
-- truapi-host.ts, `claimPgas`: how often the tool is run.
use polkadot_pop_e2e.Common.{ℕ, ◌+◌, ◌≤◌}
use polkadot_pop_e2e.ChainTests.Task.{World, Task}
use polkadot_pop_e2e.ChainTests.Host.{Host}

-- At most so many awaited calls.
abbrev pub Uses : {A : Type 0} → Task A → ℕ → Type 0
Uses m n = (w : World) → (m w).1.calls ≤ w.calls + n
