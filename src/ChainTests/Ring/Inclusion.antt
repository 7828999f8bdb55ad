-- ===== src/ChainTests/Ring/Inclusion.antt =====
-- ring.ts, `waitForInclusion`: the poll that waits until a member's key is in the root of its ring.
-- Logging is left out; the tags that decide what is logged are kept, as the timeout reports the
-- last one.
pub mod Stable
pub mod Deadline
use polkadot_pop_e2e.Common.{
  ℕ, zero, suc, ◌+◌, ◌-◌, ◌/◌, String, Bool, true, false, Option, none, some, List, [], ◌∷◌, ◌++◌,
  includes, ltb, ◌==◌, if◌then◌else◌,
}
use polkadot_pop_e2e.ChainTests.Task.{
  Network, Task, World, inclusion_timeout, out_of_fuel, pure, throw, continue, ◌>>=◌, ◌>>◌, sleep,
  date_now,
}
use polkadot_pop_e2e.ChainTests.Ring.Diagnostic.{
  RingDiagnostic, capture_ring_diagnostic, verdict_of,
}
use polkadot_pop_e2e.ChainTests.Ring.{
  Collection, Position, MemberStatus, included_at, other_status, MembersState, Block, People, Pin,
  get_finalized_block, read, keys_or_empty, is_in_root,
}

pub record MemberLocation : Type 0 where
  pub place : Position
  pub at : String

-- `opts`, with its defaults filled in, and `ownKeyHex`.
pub record Wait : Type 0 where
  pub people : People
  pub collection : Collection
  pub own_key : String
  pub has_client : Bool
  pub timeout_ms : ℕ
  pub poll_ms : ℕ

pub record Progress : Type 0 where
  pub last_tag : Option String
  pub status_log : List (ℕ × String)

pub data Round : Type 0 where
  found : MemberLocation → Round
  again : Progress → Round

abbrev pub stability_wait_ms : ℕ
stability_wait_ms = 18000

-- `status?.type ?? "missing"`
abbrev pub tag_of : Option MemberStatus → String
tag_of none = "missing"
tag_of (some (included_at place)) = "Included"
tag_of (some (other_status type)) = type

abbrev pub same_tag : Option String → String → Bool
same_tag none tag = false
same_tag (some last) tag = last == tag

abbrev pub with_tag : Progress → String → Progress
with_tag s tag = record s { last_tag = some tag }

module _ (opts : Wait) where
  open opts use {people, collection, own_key, poll_ms}

  -- `(page ?? []).some((k) => k === ownKeyHex) && (await isInRoot(…))`
  unfoldable pub is_listed : Position → Pin → Option (List String) → Task Bool
  unfolding is_in_root
  is_listed place pin page =
      if includes (keys_or_empty page) own_key
      then is_in_root people collection place.ring_index pin place.ring_page place.ring_position
      else pure false

  unfoldable pub poll_again : Progress → Task Round
  unfolding sleep
  poll_again s = do sleep people.network poll_ms; pure (again s)

  -- `!stillInRing || !root2`, or the location.
  settle : Progress → Position → (hash : String) → (still_in_ring : Bool) → Option ℕ → Task Round
  unfolding poll_again
  settle s place hash true (some revision) = pure (found (record { place = place; at = hash }))
  settle s place hash still_in_ring root = poll_again (with_tag s "ring-unstable")

  -- The second look, at a later finalized block.
  unfoldable pub recheck : Progress → Position → Task Round
  unfolding get_finalized_block read is_listed settle sleep
  recheck s place = do
    sleep people.network stability_wait_ms
    fin2 ← get_finalized_block people
    root2 ← read people collection (some fin2.hash) (λ m. m.revision place.ring_index)
    page2 ←
        read people collection (some fin2.hash) (λ m. m.ring_keys place.ring_index place.ring_page)
    still_in_ring ← is_listed place (some fin2.hash) page2
    settle s place fin2.hash still_in_ring root2

  decide_listed : Progress → Position → Pin → (in_ring : Bool) → Task Round
  unfolding recheck poll_again
  decide_listed s place (some hash) true = recheck s place
  decide_listed s place none true = pure (found (record { place = place; at = "" }))
  decide_listed s place pin false = poll_again (with_tag s "ring-pending")

  unfoldable pub check_included : Progress → Position → Pin → Task Round
  unfolding read is_listed decide_listed
  check_included s place pin = do
    page ← read people collection pin (λ m. m.ring_keys place.ring_index place.ring_page)
    in_ring ← is_listed place pin page
    decide_listed s place pin in_ring

  -- A tag other than the last one is remembered and put on the log.
  abbrev note_tag : Progress → String → ℕ → Progress
  note_tag s tag waited_ms = if same_tag s.last_tag tag then s else record {
    last_tag = some tag;
    status_log = s.status_log ++ ((waited_ms + 500) / 1000, tag) ∷ [];
  }

  unfoldable pub check_status : Progress → (started_at : ℕ) → Pin → Option MemberStatus → Task Round
  unfolding check_included poll_again
  check_status s started_at pin (some (included_at place)) = check_included s place pin
  check_status s started_at pin status = do
    now ← date_now
    poll_again (note_tag s (tag_of status) (now - started_at))

  unfoldable pub pin_read : Task Pin
  unfolding get_finalized_block
  pin_read =
      if opts.has_client
      then (do fin ← get_finalized_block people; pure (some fin.hash))
      else pure none

  -- The body of the loop.
  unfoldable pub round : Progress → (started_at : ℕ) → Task Round
  unfolding pin_read read check_status
  round s started_at = do
    pin ← pin_read
    status ← read people collection pin (λ m. m.member own_key)
    check_status s started_at pin status

  -- `peopleClient ? await captureRingDiagnostic(…) : null`
  unfoldable pub snapshot_if_client : Task (Option RingDiagnostic)
  unfolding capture_ring_diagnostic
  snapshot_if_client =
      if opts.has_client
      then (do snap ← capture_ring_diagnostic people collection; pure (some snap))
      else pure none

  unfoldable pub time_out : Option RingDiagnostic → Progress → Task MemberLocation
  unfolding snapshot_if_client verdict_of
  time_out start s = do
    end ← snapshot_if_client
    throw (inclusion_timeout (verdict_of opts.timeout_ms s.last_tag start end) s.last_tag)

  -- What the loop does with the outcome of a round.
  abbrev next_round : Round → (Progress → Task MemberLocation) → Task MemberLocation
  next_round (found location) next = pure location
  next_round (again s) next = next s

  -- `while (Date.now() - startedAt < timeoutMs)`, and the timeout behind the loop.
  unfoldable pub wait_from :
      (fuel : ℕ) → Option RingDiagnostic → Progress → (started_at : ℕ) → Task MemberLocation
  unfolding round time_out
  wait_from zero start s started_at = throw out_of_fuel
  wait_from (suc fuel) start s started_at = do
    now ← date_now
    let more = do
      outcome ← round s started_at
      next_round outcome (λ s'. wait_from fuel start s' started_at)
    if ltb (now - started_at) opts.timeout_ms then more else time_out start s

  unfoldable pub wait_for_inclusion : (fuel : ℕ) → Task MemberLocation
  unfolding wait_from snapshot_if_client
  wait_for_inclusion fuel = do
    started_at ← date_now
    start ← snapshot_if_client
    wait_from fuel start (record { last_tag = none; status_log = [] }) started_at
