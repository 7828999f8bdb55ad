-- ===== src/ChainTests/Ring/Members.antt =====
-- ring.ts: what the paged reads return, when they are pinned to one block, and when they end.
use native.Mathlib.Decide.{ℕ_discrete}
use mathlib.Core.List.{append_assoc, append-nil, map-append}
use polkadot_pop_e2e.Common.{
  ℕ, zero, suc, ◌+◌, ◌<◌, ◌≤◌, ◌≡◌, ◌≢◌, refl, sym, ap, ◌∙◌, arith, Option, some, List, [], ◌∷◌,
  ◌++◌, map, length, take, ltb, String,
}
use polkadot_pop_e2e.ChainTests.Bytes.{Bytes}
use polkadot_pop_e2e.ChainTests.Task.{Task, out_of_fuel}
use polkadot_pop_e2e.ChainTests.Task.Rules.{
  Ensures, Ensures-bind, Ensures-pure, Ensures-throw, Ensures-remote, Completes, Completes-bind,
  Completes-bind_of, Completes-pure, Completes-remote,
}
use polkadot_pop_e2e.ChainTests.Ring.{
  Collection, People, MembersState, Codec, Pin, keys_or_empty, add_page, read, fetch_pages,
  fetch_ring_members, add_pages, is_in_root,
}

abbrev pub keys_of : MembersState → (ring_index page : ℕ) → List String
keys_of s ring_index page = keys_or_empty (s.ring_keys ring_index page)

-- The keys of `n` pages from `page` on, and their number.
abbrev pub keys_from : MembersState → (ring_index page n : ℕ) → List String
keys_from s ring_index page zero = []
keys_from s ring_index page (suc n) =
    keys_of s ring_index page ++ keys_from s ring_index (page + 1) n

abbrev pub count_from : MembersState → (ring_index page n : ℕ) → ℕ
count_from s ring_index page zero = 0
count_from s ring_index page (suc n) =
    length (keys_of s ring_index page) + count_from s ring_index (page + 1) n

-- The first `n` pages from `page` on are not empty, and the next one is.
pub record EndsAfter (s : MembersState) (ring_index page n : ℕ) : Type 0 where
  pub filled : (k : ℕ) → k < n → keys_of s ring_index (page + k) ≢ []
  pub ended : keys_of s ring_index (page + n) ≡ []

-- A read that is pinned sees the state at the block.
pub read-Ensures :
    (p : People) {A : Type 0} (collection : Collection) (hash : String) (field : MembersState → A)
    → Ensures (read p collection (some hash) field) (λ a. a ≡ field (p.state_at hash collection))
unfolding read
read-Ensures p collection hash field w w' a e =
    (Ensures-remote p.network (λ n. field (p.state_at hash collection)) w w' a e).1

pub read-Completes :
    (p : People) {A : Type 0} (collection : Collection) (pin : Pin) (field : MembersState → A)
    → Completes (read p collection pin field)
unfolding read
read-Completes p collection pin field = Completes-remote p.network _

module _ (p : People) (codec : Codec) (collection : Collection) (ring_index : ℕ)
    (hash : String) where
  abbrev s : MembersState
  s = p.state_at hash collection

  abbrev Fetched : (page : ℕ) → List Bytes → List Bytes → Type 0
  Fetched page members found =
      (n : ℕ) × EndsAfter s ring_index page n
      × (found ≡ members ++ map codec.from_hex (keys_from s ring_index page n))

  Fetched-more :
      (page : ℕ) (members : List Bytes) (k : String) (ks : List String) (found : List Bytes)
      → keys_of s ring_index page ≡ k ∷ ks
      → Fetched (page + 1) (members ++ map codec.from_hex (k ∷ ks)) found
      → Fetched page members found
  Fetched-more page members k ks found e (n, ends, result) = (
    suc n,
    record {
      filled = filled_from;
      ended = let shift : page + suc n ≡ page + 1 + n = omega arith in rw shift ends.ended;
    },
    result
        ∙ append_assoc members _ _
        ∙ rw e (
            ap (λ l. members ++ l)
              (sym (map-append codec.from_hex (k ∷ ks) (keys_from s ring_index (page + 1) n)))),
  )
    where
      filled_from : (i : ℕ) → i < suc n → keys_of s ring_index (page + i) ≢ []
      filled_from zero h = let here : page + 0 ≡ page = omega arith in rw here (rw e (λ c. cc))
      filled_from (suc i) h =
          let shift : page + suc i ≡ page + 1 + i = omega arith in
          rw shift (ends.filled i (omega arith))

  Fetched-end :
      (page : ℕ) (members : List Bytes)
      → keys_of s ring_index page ≡ []
      → Fetched page members members
  Fetched-end page members e = (
    0,
    record {
      filled = λ k h. elim h [ ];
      ended = let here : page + 0 ≡ page = omega arith in rw here e;
    },
    sym (append-nil members),
  )

  add_page-Ensures :
      (page : ℕ) (members : List Bytes) (keys : List String) (next : List Bytes → Task (List Bytes))
      → keys_of s ring_index page ≡ keys
      → ((more : List Bytes) → Ensures (next more) (Fetched (page + 1) more))
      → Ensures (add_page codec keys members next) (Fetched page members)
  add_page-Ensures page members [] next e h =
      Ensures-pure (Fetched page members) members (Fetched-end page members e)
  add_page-Ensures page members (k ∷ ks) next e h = λ w w' found returned.
      Fetched-more page members k ks found e
        (h (members ++ map codec.from_hex (k ∷ ks)) w w' found returned)

  fetch_pages-Ensures :
      (fuel page : ℕ) (members : List Bytes)
      → Ensures
          (fetch_pages p codec collection ring_index (some hash) fuel page members)
          (Fetched page members)
  unfolding fetch_pages
  fetch_pages-Ensures zero page members = Ensures-throw (Fetched page members) out_of_fuel
  fetch_pages-Ensures (suc fuel) page members =
      Ensures-bind (read p collection (some hash) (λ s. s.ring_keys ring_index page)) _
        (read-Ensures p collection hash (λ s. s.ring_keys ring_index page))
        λ keys same.
          add_page-Ensures page members (keys_or_empty keys) _ (ap keys_or_empty (sym same))
            (fetch_pages-Ensures fuel (page + 1))

  -- Pinned to a block, the members are those of the pages up to the first empty one, in order,
  -- and of these only as many as the ring's root includes.
  pub fetch_ring_members-Ensures :
      (fuel : ℕ)
      → Ensures (fetch_ring_members p codec collection ring_index (some hash) fuel) (λ found.
        (n : ℕ) × EndsAfter s ring_index 0 n
        × (found ≡ take (s.included ring_index) (map codec.from_hex (keys_from s ring_index 0 n))))
  unfolding fetch_ring_members
  fetch_ring_members-Ensures fuel =
      Ensures-bind (read p collection (some hash) (λ s. s.included ring_index)) _
        (read-Ensures p collection hash (λ s. s.included ring_index))
        λ included same.
          Ensures-bind (fetch_pages p codec collection ring_index (some hash) fuel 0 []) _
            (fetch_pages-Ensures fuel 0 [])
            λ members (n, ends, e).
              Ensures-pure _ (take included members) (n, ends, rw (same, e) refl)

  add_page-Completes :
      (keys : List String) (members : List Bytes) (next : List Bytes → Task (List Bytes))
      → (keys ≢ [] → (more : List Bytes) → Completes (next more))
      → Completes (add_page codec keys members next)
  add_page-Completes [] members next h = Completes-pure members
  add_page-Completes (k ∷ ks) members next h = h (λ e. cc) _

  fetch_pages-Completes :
      (last fuel page : ℕ) (members : List Bytes)
      → keys_of s ring_index last ≡ []
      → page ≤ last
      → last < page + fuel
      → Completes (fetch_pages p codec collection ring_index (some hash) fuel page members)
  unfolding fetch_pages
  fetch_pages-Completes last zero page members e h k = absurd (omega arith)
  fetch_pages-Completes last (suc fuel) page members e h k =
      Completes-bind_of (read p collection (some hash) (λ s. s.ring_keys ring_index page)) _
        (read-Completes p collection (some hash) (λ s. s.ring_keys ring_index page))
        (read-Ensures p collection hash (λ s. s.ring_keys ring_index page))
        λ keys same. add_page-Completes (keys_or_empty keys) members _ λ filled more.
          fetch_pages-Completes last fuel (page + 1) more e (next_le keys same filled) (omega arith)
    where
      next_le :
          (keys : Option (List String))
          → keys ≡ s.ring_keys ring_index page
          → keys_or_empty keys ≢ []
          → page + 1 ≤ last
      next_le keys same filled = elim (ℕ_discrete page last) [
        | yes here ↦ absurd (filled (ap keys_or_empty same ∙ rw here e))
        | no other ↦ omega arith
      ]

  -- With more fuel than the number of an empty page, the loop over the pages comes to its end.
  pub fetch_ring_members-Completes :
      (last fuel : ℕ)
      → keys_of s ring_index last ≡ []
      → last < fuel
      → Completes (fetch_ring_members p codec collection ring_index (some hash) fuel)
  unfolding fetch_ring_members
  fetch_ring_members-Completes last fuel e h =
      Completes-bind (read p collection (some hash) (λ s. s.included ring_index)) _
        (read-Completes p collection (some hash) (λ s. s.included ring_index))
        λ included.
          Completes-bind (fetch_pages p codec collection ring_index (some hash) fuel 0 []) _
            (fetch_pages-Completes last fuel 0 [] e (omega arith) (omega arith))
            λ members. Completes-pure _

module _ (p : People) (collection : Collection) (ring_index : ℕ) (hash : String) where
  abbrev there : MembersState
  there = p.state_at hash collection

  add_pages-Ensures :
      (left page index : ℕ)
      → Ensures
          (add_pages p collection ring_index (some hash) left page index)
          (λ i. i ≡ index + count_from there ring_index page left)
  unfolding add_pages
  add_pages-Ensures zero page index = Ensures-pure _ index (omega arith)
  add_pages-Ensures (suc left) page index =
      Ensures-bind (read p collection (some hash) (λ s. s.ring_keys ring_index page)) _
        (read-Ensures p collection hash (λ s. s.ring_keys ring_index page))
        λ keys same w w' i e. omega (
          arith,
          add_pages-Ensures left (page + 1) (index + length (keys_or_empty keys)) w w' i e,
          ap (λ k. length (keys_or_empty k)) same,
        )

  pub is_in_root-Ensures :
      (ring_page ring_position : ℕ)
      → Ensures (is_in_root p collection ring_index (some hash) ring_page ring_position) (λ inside.
        inside
        ≡ ltb (ring_position + count_from there ring_index 0 ring_page) (there.included ring_index))
  unfolding is_in_root
  is_in_root-Ensures ring_page ring_position =
      Ensures-bind (add_pages p collection ring_index (some hash) ring_page 0 ring_position) _
        (add_pages-Ensures ring_page 0 ring_position)
        λ index counted.
          Ensures-bind (read p collection (some hash) (λ s. s.included ring_index)) _
            (read-Ensures p collection hash (λ s. s.included ring_index))
            λ included same. Ensures-pure _ (ltb index included) (rw (counted, same) refl)

module _ (p : People) (collection : Collection) (ring_index : ℕ) where
  add_pages-Completes :
      (pin : Pin) (left page index : ℕ)
      → Completes (add_pages p collection ring_index pin left page index)
  unfolding add_pages
  add_pages-Completes pin zero page index = Completes-pure index
  add_pages-Completes pin (suc left) page index =
      Completes-bind (read p collection pin (λ s. s.ring_keys ring_index page)) _
        (read-Completes p collection pin (λ s. s.ring_keys ring_index page))
        λ keys. add_pages-Completes pin left (page + 1) _

  pub is_in_root-Completes :
      (pin : Pin) (ring_page ring_position : ℕ)
      → Completes (is_in_root p collection ring_index pin ring_page ring_position)
  unfolding is_in_root
  is_in_root-Completes pin ring_page ring_position =
      Completes-bind (add_pages p collection ring_index pin ring_page 0 ring_position) _
        (add_pages-Completes pin ring_page 0 ring_position)
        λ index.
          Completes-bind (read p collection pin (λ s. s.included ring_index)) _
            (read-Completes p collection pin (λ s. s.included ring_index))
            λ included. Completes-pure _
