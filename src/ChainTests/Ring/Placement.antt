-- ===== src/ChainTests/Ring/Placement.antt =====
-- ring.ts: the index that `isInRoot` tests, in the list of members that a proof is made of.
use polkadot_pop_e2e.Common.{
  ℕ, zero, suc, ◌+◌, ◌<◌, ◌≤◌, ◌≡◌, ◌≢◌, ◌∙◌, arith, some, [], length, get_elem?, get_elem?-take,
  get_elem?-append_left, get_elem?-append_right, get_elem?-map, String,
}
use native.Mathlib.Decide.{dec_lt}
use polkadot_pop_e2e.ChainTests.Task.Rules.{Ensures}
use polkadot_pop_e2e.ChainTests.Ring.{
  Collection, People, MembersState, Codec, Position, fetch_ring_members,
}
use polkadot_pop_e2e.ChainTests.Ring.Members.{
  keys_of, keys_from, count_from, EndsAfter, fetch_ring_members-Ensures,
}

-- The index of a place in the ring, over all pages.
abbrev pub index_of : MembersState → Position → ℕ
index_of s place = place.ring_position + count_from s place.ring_index 0 place.ring_page

get_elem?-keys_from :
    (s : MembersState) (ring page n k j : ℕ) {key : String}
    → k < n
    → get_elem? (keys_of s ring (page + k)) j ≡ some key
    → get_elem? (keys_from s ring page n) (j + count_from s ring page k) ≡ some key
get_elem?-keys_from s ring page zero k j h e = absurd (omega arith)
get_elem?-keys_from s ring page (suc n) zero j h e =
    let here : page + 0 ≡ page = omega arith in
    let same : j + 0 ≡ j = omega arith in rw same (get_elem?-append_left _ _ j (rw here at e))
get_elem?-keys_from s ring page (suc n) (suc k) j h e =
    let shift : page + suc k ≡ page + 1 + k = omega arith in
    let later = length (keys_of s ring page) in
    let regroup : j + (later + count_from s ring (page + 1) k)
        ≡ later + (j + count_from s ring (page + 1) k) =
      omega arith in
    rw regroup (
      get_elem?-append_right (keys_of s ring page) _ _
      ∙ get_elem?-keys_from s ring (page + 1) n k j (omega arith) (rw shift at e))

-- A page with a key behind filled pages comes before the end.
page-lt-end :
    (s : MembersState) (ring n k : ℕ)
    → EndsAfter s ring 0 n
    → ((i : ℕ) → i ≤ k → keys_of s ring i ≢ [])
    → k < n
page-lt-end s ring n k ends filled = elim (dec_lt k n) [
  | yes h ↦ h
  | no h ↦
      let zero_add : 0 + n ≡ n = omega arith in
      absurd (filled n (omega arith) (rw zero_add at ends.ended))
]

-- If the pages of a ring up to a member's page are filled, the member's key stands at its place and
-- the place is in the root, then the members read at that block have the key at the place's index:
-- the proof is made over a list that the key is part of.
pub fetch_ring_members-placed :
    (p : People) (codec : Codec) (collection : Collection) (hash : String) (fuel : ℕ)
    (place : Position) (key : String)
    → ((i : ℕ) → i ≤ place.ring_page → keys_of (p.state_at hash collection) place.ring_index i ≢ [])
    → get_elem?
        (keys_of (p.state_at hash collection) place.ring_index place.ring_page)
        place.ring_position
      ≡ some key
    → index_of (p.state_at hash collection) place
      < (p.state_at hash collection).included place.ring_index
    → Ensures (fetch_ring_members p codec collection place.ring_index (some hash) fuel) (λ found.
      get_elem? found (index_of (p.state_at hash collection) place) ≡ some (codec.from_hex key))
fetch_ring_members-placed p codec collection hash fuel place key filled at_place inside w w' found
      e =
    let s = p.state_at hash collection in
    let ring = place.ring_index in
    let (n, ends, same) =
      fetch_ring_members-Ensures p codec collection ring hash fuel w w' found e in
    let zero_add : 0 + place.ring_page ≡ place.ring_page = omega arith in
    rw same (
      get_elem?-take (s.included ring) (index_of s place) _ inside
      ∙ get_elem?-map codec.from_hex (keys_from s ring 0 n) (index_of s place) (
          get_elem?-keys_from s ring 0 n place.ring_page place.ring_position
            (page-lt-end s ring n place.ring_page ends filled) (rw zero_add at_place)))
