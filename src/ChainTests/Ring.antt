-- ===== src/ChainTests/Ring.antt =====
-- packages/chain-tests/src/lib/ring.ts: reads of the rings of the People chain, and the encoding
-- of their members.
pub mod Encoding
pub mod Members
pub mod Placement
pub mod Diagnostic
pub mod Inclusion
use mathlib.Core.Option
use polkadot_pop_e2e.Common.{
  ℕ, zero, suc, ◌+◌, String, Bool, true, false, Option, none, some, List, [], ◌∷◌, ◌++◌, map,
  length, take, ltb,
}
use polkadot_pop_e2e.ChainTests.Bytes.{Bytes, zeroed, write_at}
use polkadot_pop_e2e.ChainTests.Task.{
  Network, Task, out_of_fuel, thrown, pure, throw, continue, ◌>>=◌, ◌>>◌, remote,
}

pub data Collection : Type 0 where
  people lite_people : Collection

-- A member's place: its ring, and its page and position in it.
pub record Position : Type 0 where
  pub ring_index : ℕ
  pub ring_page : ℕ
  pub ring_position : ℕ

-- The value of `Members.Members`: `Included` carries the position.
pub data MemberStatus : Type 0 where
  included_at : Position → MemberStatus
  other_status : (type : String) → MemberStatus

-- The storage of the Members pallet for one collection, at one block. `none` is `undefined`.
pub record MembersState : Type 0 where
  pub ring_keys : (ring_index page : ℕ) → Option (List String)
  pub included : (ring_index : ℕ) → ℕ
  pub member : (key : String) → Option MemberStatus
  pub revision : (ring_index : ℕ) → Option ℕ
  pub entry_types : List (Option String)

pub record Block : Type 0 where
  pub number : ℕ
  pub hash : String

-- The People chain behind its RPC: the block that a `getFinalizedBlock` answers by the number of
-- the call, the state at a block, and the state that a read at the head sees.
pub record People : Type 0 where
  pub network : Network
  pub finalized : ℕ → Block
  pub state_at : String → Collection → MembersState
  pub head : ℕ → Collection → MembersState

-- What the packages encode: `Binary.fromHex` and SCALE's `compact.enc`.
pub record Codec : Type 0 where
  pub from_hex : String → Bytes
  pub compact_enc : ℕ → Bytes

-- Where a read is pinned: `{ at }`, or nothing for a read at the head.
abbrev pub Pin : Type 0
Pin = Option String

abbrev pub state_seen : People → Collection → Pin → ℕ → MembersState
state_seen p collection none n = p.head n collection
state_seen p collection (some hash) n = p.state_at hash collection

module _ (p : People) where
  unfoldable pub get_finalized_block : Task Block
  unfolding remote
  get_finalized_block = remote p.network p.finalized

  unfoldable pub read : {A : Type 0} → Collection → Pin → (MembersState → A) → Task A
  unfolding remote
  read collection pin field = remote p.network (λ n. field (state_seen p collection pin n))

-- `keys ?? []`
abbrev pub keys_or_empty : Option (List String) → List String
keys_or_empty none = []
keys_or_empty (some keys) = keys

-- What the loop does with the keys of a page: an empty page ends it.
abbrev pub add_page :
    Codec → List String → List Bytes → (List Bytes → Task (List Bytes)) → Task (List Bytes)
add_page codec [] members next = pure members
add_page codec (k ∷ ks) members next = next (members ++ map codec.from_hex (k ∷ ks))

module _ (p : People) (codec : Codec) (collection : Collection) (ring_index : ℕ) (pin : Pin) where
  -- The loop over the pages, from `page` on.
  unfoldable pub fetch_pages : (fuel page : ℕ) (members : List Bytes) → Task (List Bytes)
  unfolding read
  fetch_pages zero page members = throw out_of_fuel
  fetch_pages (suc fuel) page members = do
    page_keys ← read p collection pin (λ s. s.ring_keys ring_index page)
    add_page codec (keys_or_empty page_keys) members (fetch_pages fuel (page + 1))

  unfoldable pub fetch_ring_members : (fuel : ℕ) → Task (List Bytes)
  unfolding fetch_pages
  fetch_ring_members fuel = do
    included ← read p collection pin (λ s. s.included ring_index)
    members ← fetch_pages fuel 0 []
    pure (take included members)

module _ (p : People) (collection : Collection) (ring_index : ℕ) (pin : Pin) where
  -- The loop of `isInRoot`: the keys of `left` pages from `page` on are added to `index`.
  unfoldable pub add_pages : (left page index : ℕ) → Task ℕ
  unfolding read
  add_pages zero page index = pure index
  add_pages (suc left) page index = do
    keys ← read p collection pin (λ s. s.ring_keys ring_index page)
    add_pages left (page + 1) (index + length (keys_or_empty keys))

  unfoldable pub is_in_root : (ring_page ring_position : ℕ) → Task Bool
  unfolding add_pages
  is_in_root ring_page ring_position = do
    index ← add_pages ring_page 0 ring_position
    included ← read p collection pin (λ s. s.included ring_index)
    pure (ltb index included)

abbrev pub total_length : List Bytes → ℕ
total_length [] = 0
total_length (m ∷ ms) = length m + total_length ms

-- The loop that copies the members behind one another.
unfoldable pub write_members : Bytes → (offset : ℕ) → List Bytes → Option Bytes
unfolding write_at Option.bind
write_members total offset [] = some total
write_members total offset (m ∷ ms) =
    Option.bind (write_at total offset m) (λ total'. write_members total' (offset + length m) ms)

unfoldable pub encode_members : Codec → List Bytes → Option Bytes
unfolding write_members Option.bind
encode_members codec members =
    let len_prefix = codec.compact_enc (length members) in
    Option.bind (write_at (zeroed (length len_prefix + total_length members)) 0 len_prefix)
      (λ total. write_members total (length len_prefix) members)

pub record RingSnapshot : Type 0 where
  pub at : String
  pub ring_index : ℕ
  pub revision_index : ℕ
  pub encoded_members : Bytes
  pub member_count : ℕ

-- `encodeMembers` in a task: its RangeError is thrown.
abbrev encoded : Option Bytes → Task Bytes
encoded none = throw (thrown "RangeError: offset is out of bounds")
encoded (some bytes) = pure bytes

unfoldable pub take_ring_snapshot : People → Codec → (fuel ring_index : ℕ) → Task RingSnapshot
unfolding get_finalized_block read fetch_ring_members encode_members
take_ring_snapshot p codec fuel ring_index = do
  fin ← get_finalized_block p
  root ← read p lite_people (some fin.hash) (λ s. s.revision ring_index)
  member_keys ← fetch_ring_members p codec lite_people ring_index (some fin.hash) fuel
  bytes ← encoded (encode_members codec member_keys)
  pure (record {
    at = fin.hash;
    ring_index = ring_index;
    revision_index = Option.get_or root 0;
    encoded_members = bytes;
    member_count = length member_keys;
  })
