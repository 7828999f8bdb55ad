-- ===== src/ChainTests/Tests/Rings.antt =====
-- ring.ts on the small chain.
use polkadot_pop_e2e.Common.{
  ℕ, zero, suc, ◌≤◌, ◌≡◌, ◌≢◌, refl, arith, some, List, [], ◌∷◌, map, take, get_elem?, err,
}
use polkadot_pop_e2e.ChainTests.Bytes.{Bytes}
use polkadot_pop_e2e.ChainTests.Task.{out_of_fuel, date_now}
use polkadot_pop_e2e.ChainTests.Ring.{people, fetch_ring_members, encode_members}
use polkadot_pop_e2e.ChainTests.Ring.Encoding.{encode_members_lem, concatenated}
use polkadot_pop_e2e.ChainTests.Ring.Members.{
  EndsAfter, keys_from, fetch_ring_members-Ensures, fetch_ring_members-Completes, keys_of,
}
use polkadot_pop_e2e.ChainTests.Ring.Placement.{fetch_ring_members-placed, index_of}
use polkadot_pop_e2e.ChainTests.Ring.Diagnostic.{RingDiagnostic, classify}
use polkadot_pop_e2e.ChainTests.Ring.Diagnostic.Verdicts.{Says, classify_lem}
use polkadot_pop_e2e.ChainTests.Ring.Inclusion.{wait_for_inclusion}
use polkadot_pop_e2e.ChainTests.Ring.Inclusion.Stable.{IsSettled, wait_for_inclusion-IsSettled}
use polkadot_pop_e2e.ChainTests.Ring.Inclusion.Deadline.{wait_for_inclusion-Completes}
use polkadot_pop_e2e.ChainTests.Tests.{chain, codec, state, start, place, opts, location}

encode_members_lem_example :
    encode_members codec ((1 ∷ []) ∷ (2 ∷ 3 ∷ []) ∷ [])
    ≡ some (2 ∷ concatenated ((1 ∷ []) ∷ (2 ∷ 3 ∷ []) ∷ []))
encode_members_lem_example = encode_members_lem codec ((1 ∷ []) ∷ (2 ∷ 3 ∷ []) ∷ [])

fetch_ring_members-Ensures_example :
    (n : ℕ) × EndsAfter state 0 0 n
    × ((171 ∷ []) ∷ [] ≡ take 1 (map codec.from_hex (keys_from state 0 0 n)))
unfolding fetch_ring_members
fetch_ring_members-Ensures_example =
    fetch_ring_members-Ensures chain codec people 0 "h" 2 start
      (fetch_ring_members chain codec people 0 (some "h") 2 start).1 ((171 ∷ []) ∷ []) refl

fetch_ring_members-Completes_example :
    (fetch_ring_members chain codec people 0 (some "h") 2 start).0 ≢ err out_of_fuel
fetch_ring_members-Completes_example =
    fetch_ring_members-Completes chain codec people 0 "h" 1 2 refl (omega arith) start

abbrev one_key : List Bytes
one_key = (171 ∷ []) ∷ []

fetch_ring_members-placed_example : get_elem? one_key (index_of state place) ≡ some (171 ∷ [])
unfolding fetch_ring_members
fetch_ring_members-placed_example =
    fetch_ring_members-placed chain codec people "h" 2 place "k" filled refl (omega arith) start
      (fetch_ring_members chain codec people 0 (some "h") 2 start).1 ((171 ∷ []) ∷ []) refl
  where
    filled : (i : ℕ) → i ≤ 0 → keys_of state 0 i ≢ []
    filled zero h = λ e. cc
    filled (suc i) h = absurd (omega arith)

abbrev before : RingDiagnostic
before = record {
  block_number = 100;
  ring_zero_revision = some 7;
  onboarding_count = 1;
  included_count = 1;
}

abbrev after : RingDiagnostic
after = record {
  block_number = 110;
  ring_zero_revision = some 7;
  onboarding_count = 1;
  included_count = 1;
}

classify_lem_example :
    Says 300000 (some "Onboarding") before after (classify 300000 (some "Onboarding") before after)
classify_lem_example = classify_lem 300000 (some "Onboarding") before after

wait_for_inclusion-IsSettled_example : IsSettled opts location
unfolding wait_for_inclusion date_now
wait_for_inclusion-IsSettled_example =
    wait_for_inclusion-IsSettled opts refl 1 start (wait_for_inclusion opts 1 start).1 location refl

wait_for_inclusion-Completes_example : (wait_for_inclusion opts 300001 start).0 ≢ err out_of_fuel
wait_for_inclusion-Completes_example =
    wait_for_inclusion-Completes opts 300001 (omega arith) (omega arith) start
