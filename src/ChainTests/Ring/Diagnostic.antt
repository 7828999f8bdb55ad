-- ===== src/ChainTests/Ring/Diagnostic.antt =====
-- ring.ts: the snapshots of a ring around a wait, and the verdict of a timeout. The two reads that
-- the source starts together are made one after the other; the text around the verdict is left out.
pub mod Verdicts
use polkadot_pop_e2e.Common.{
  ℕ, suc, ◌+◌, ◌*◌, ◌/◌, String, Bool, true, false, Option, none, some, List, [], ◌∷◌,
  if◌then◌else◌, ltb, eqb, ◌==◌, ◌&&◌,
}
use polkadot_pop_e2e.ChainTests.Task.{
  Task, Verdict, chain_slow, builder_stuck, not_picked_up, never_registered, ambiguous, pure,
  continue, ◌>>=◌,
}
use polkadot_pop_e2e.ChainTests.Ring.{
  Collection, MembersState, Block, People, get_finalized_block, read,
}

pub record RingDiagnostic : Type 0 where
  pub block_number : ℕ
  pub ring_zero_revision : Option ℕ
  pub onboarding_count : ℕ
  pub included_count : ℕ

-- The loop over `allMembers`: the entries of the type.
abbrev pub count_type : String → List (Option String) → ℕ
count_type type [] = 0
count_type type (none ∷ rest) = count_type type rest
count_type type (some t ∷ rest) =
    if t == type then suc (count_type type rest) else count_type type rest

unfoldable pub capture_ring_diagnostic : People → Collection → Task RingDiagnostic
unfolding get_finalized_block read
capture_ring_diagnostic p collection = do
  fin ← get_finalized_block p
  root ← read p collection (some fin.hash) (λ m. m.revision 0)
  members ← read p collection (some fin.hash) (λ m. m.entry_types)
  pure (record {
    block_number = fin.number;
    ring_zero_revision = root;
    onboarding_count = count_type "Onboarding" members;
    included_count = count_type "Included" members;
  })

-- `Math.round(secs / 6)`
abbrev pub expected_blocks : (timeout_ms : ℕ) → ℕ
expected_blocks timeout_ms = (timeout_ms + 3000) / 6000

-- `revDelta === 0`, and `revDelta != null && revDelta > 0`.
abbrev pub is_unchanged : Option ℕ → Option ℕ → Bool
is_unchanged (some a) (some b) = eqb a b
is_unchanged _ _ = false

abbrev pub is_advanced : Option ℕ → Option ℕ → Bool
is_advanced (some a) (some b) = ltb a b
is_advanced _ _ = false

abbrev pub is_tag : Option String → String → Bool
is_tag none tag = false
is_tag (some last) tag = last == tag

-- `lastTag === "missing" || lastTag == null`
abbrev pub is_missing : Option String → Bool
is_missing none = true
is_missing (some last) = last == "missing"

unfoldable pub classify : ℕ → Option String → RingDiagnostic → RingDiagnostic → Verdict
classify timeout_ms last_tag start end =
    if ltb (2 * end.block_number) (expected_blocks timeout_ms + 2 * start.block_number)
    then chain_slow
    else if is_unchanged start.ring_zero_revision end.ring_zero_revision
    then builder_stuck
    else if is_advanced start.ring_zero_revision end.ring_zero_revision
        && is_tag last_tag "Onboarding"
    then not_picked_up
    else if is_missing last_tag
    then never_registered
    else ambiguous

-- `if (startSnap && endSnap)`
unfoldable pub verdict_of :
    ℕ → Option String → Option RingDiagnostic → Option RingDiagnostic → Option Verdict
unfolding classify
verdict_of timeout_ms last_tag (some start) (some end) =
    some (classify timeout_ms last_tag start end)
verdict_of timeout_ms last_tag start end = none
