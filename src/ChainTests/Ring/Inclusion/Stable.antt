-- ===== src/ChainTests/Ring/Inclusion/Stable.antt =====
-- ring.ts, `waitForInclusion`: what holds of the location that it returns, at the block that it
-- returns with it.
use mathlib.Core.Bool.{and-eq-true_iff}
use polkadot_pop_e2e.Common.{
  ℕ, zero, suc, ◌-◌, ◌<◌, ◌≡◌, ◌≢◌, refl, sym, ◌∙◌, String, Bool, true, false, ◌&&◌, Option, some,
  none, List, includes, ltb, ltb→lt, Bool-cases, inl, inr,
}
use polkadot_pop_e2e.ChainTests.Task.{Task, out_of_fuel, sleep, date_now}
use polkadot_pop_e2e.ChainTests.Task.Rules.{
  Ensures, Ensures-bind, Ensures-pure, Ensures-throw, Ensures-any,
}
use polkadot_pop_e2e.ChainTests.Ring.{
  Position, MemberStatus, included_at, get_finalized_block, read, keys_or_empty,
}
use polkadot_pop_e2e.ChainTests.Ring.Members.{keys_of, read-Ensures, is_in_root-Ensures}
use polkadot_pop_e2e.ChainTests.Ring.Placement.{index_of}
use polkadot_pop_e2e.ChainTests.Ring.Diagnostic.{RingDiagnostic}
use polkadot_pop_e2e.ChainTests.Ring.Inclusion.{
  MemberLocation, Wait, Progress, Round, found, again, stability_wait_ms, is_listed, poll_again,
  settle, recheck, decide_listed, check_included, check_status, pin_read, round, snapshot_if_client,
  next_round, wait_from, wait_for_inclusion,
}

module _ (opts : Wait) where
  open opts use {people, collection, own_key}

  -- The key is on its page and below the number of keys in the root, and the root is there.
  pub record IsSettled (location : MemberLocation) : Type 0 where
    pub listed :
        includes
          (keys_of
            (people.state_at location.at collection)
            location.place.ring_index
            location.place.ring_page)
          own_key
        ≡ true
    pub in_root :
        index_of (people.state_at location.at collection) location.place
        < (people.state_at location.at collection).included location.place.ring_index
    pub has_root :
        (people.state_at location.at collection).revision location.place.ring_index ≢ none

  abbrev Settles : Round → Type 0
  Settles (found location) = IsSettled location
  Settles (again s) = Unit

  -- The outcome of the double test at a block.
  abbrev listed_at : Position → String → Bool
  listed_at place hash =
      let s = people.state_at hash collection in
      includes (keys_of s place.ring_index place.ring_page) own_key
      && ltb (index_of s place) (s.included place.ring_index)

  is_listed-Ensures :
      (place : Position) (hash : String) (page : Option (List String))
      → page ≡ (people.state_at hash collection).ring_keys place.ring_index place.ring_page
      → Ensures (is_listed opts place (some hash) page) (λ b. b ≡ listed_at place hash)
  unfolding is_listed
  is_listed-Ensures place hash page e = elim (Bool-cases (includes (keys_or_empty page) own_key)) [
    | inl here ↦ rw here (λ w w' b h.
        is_in_root-Ensures people collection place.ring_index hash place.ring_page
          place.ring_position w w' b h
        ∙ rw (← e) (rw here refl))
    | inr absent ↦ rw absent (Ensures-pure _ false (rw (← e) (rw absent refl)))
  ]

  Settles-again :
      (m : Task Round) → Ensures m (λ r. (s : Progress) × (r ≡ again s)) → Ensures m Settles
  Settles-again m h w w' r e = let (s, same) = h w w' r e in rw same tt

  poll_again-Ensures : (s : Progress) → Ensures (poll_again opts s) Settles
  unfolding poll_again
  poll_again-Ensures s =
      Ensures-bind (sleep people.network opts.poll_ms) _ (Ensures-any _)
        λ a _. Ensures-pure Settles (again s) tt

  settle-Ensures :
      (s : Progress) (place : Position) (hash : String) (still : Bool) (root : Option ℕ)
      → still ≡ listed_at place hash
      → root ≡ (people.state_at hash collection).revision place.ring_index
      → Ensures (settle opts s place hash still root) Settles
  unfolding settle
  settle-Ensures s place hash true (some revision) listed rooted = Ensures-pure Settles _ (record {
    listed = ((and-eq-true_iff _ _).0 (sym listed)).0;
    in_root = ltb→lt _ _ ((and-eq-true_iff _ _).0 (sym listed)).1;
    has_root = λ e. cc;
  })
  settle-Ensures s place hash still root listed rooted = poll_again-Ensures _

  recheck-Ensures : (s : Progress) (place : Position) → Ensures (recheck opts s place) Settles
  unfolding recheck
  recheck-Ensures s place =
      Ensures-bind (sleep people.network stability_wait_ms) _ (Ensures-any _) λ a _.
        Ensures-bind (get_finalized_block people) _ (Ensures-any _) λ fin2 _.
          Ensures-bind (read people collection (some fin2.hash) (λ m. m.revision place.ring_index))
            _ (read-Ensures people collection fin2.hash (λ m. m.revision place.ring_index))
            λ root2 rooted.
              Ensures-bind
                (read people collection (some fin2.hash)
                  (λ m. m.ring_keys place.ring_index place.ring_page))
                _
                (read-Ensures people collection fin2.hash
                  (λ m. m.ring_keys place.ring_index place.ring_page))
                λ page2 same.
                  Ensures-bind (is_listed opts place (some fin2.hash) page2) _
                    (is_listed-Ensures place fin2.hash page2 same)
                    λ still listed. settle-Ensures s place fin2.hash still root2 listed rooted

  decide_listed-Ensures :
      (s : Progress) (place : Position) (hash : String) (in_ring : Bool)
      → Ensures (decide_listed opts s place (some hash) in_ring) Settles
  unfolding decide_listed
  decide_listed-Ensures s place hash true = recheck-Ensures s place
  decide_listed-Ensures s place hash false = poll_again-Ensures _

  check_status-Ensures :
      (s : Progress) (started_at : ℕ) (hash : String) (status : Option MemberStatus)
      → Ensures (check_status opts s started_at (some hash) status) Settles
  unfolding check_status check_included
  check_status-Ensures s started_at hash (some (included_at place)) =
      Ensures-bind
        (read people collection (some hash) (λ m. m.ring_keys place.ring_index place.ring_page)) _
        (Ensures-any _)
        λ page _.
          Ensures-bind (is_listed opts place (some hash) page) _ (Ensures-any _)
            λ in_ring _. decide_listed-Ensures s place hash in_ring
  check_status-Ensures s started_at hash status =
      Ensures-bind date_now _ (Ensures-any date_now) λ now _. poll_again-Ensures _

  module _ (client : opts.has_client ≡ true) where
    round-Ensures : (s : Progress) (started_at : ℕ) → Ensures (round opts s started_at) Settles
    unfolding round
    round-Ensures s started_at = Ensures-bind (pin_read opts) _ pinned λ pin (hash, same). rw same (
        Ensures-bind (read people collection (some hash) (λ m. m.member own_key)) _ (Ensures-any _)
          λ status _. check_status-Ensures s started_at hash status)
      where
        pinned : Ensures (pin_read opts) (λ pin. (hash : String) × (pin ≡ some hash))
        pinned =
            rw (client, pin_read)
              (Ensures-bind (get_finalized_block people) _ (Ensures-any _)
                λ fin _. Ensures-pure _ (some fin.hash) (fin.hash, refl))

    next_round-Ensures :
        (outcome : Round) (next : Progress → Task MemberLocation)
        → Settles outcome
        → ((s : Progress) → Ensures (next s) IsSettled)
        → Ensures (next_round opts outcome next) IsSettled
    next_round-Ensures (found location) next h k = Ensures-pure IsSettled location h
    next_round-Ensures (again s) next h k = k s

    wait_from-Ensures :
        (fuel : ℕ) (start : Option RingDiagnostic) (s : Progress) (started_at : ℕ)
        → Ensures (wait_from opts fuel start s started_at) IsSettled
    unfolding wait_from
    wait_from-Ensures zero start s started_at = Ensures-throw IsSettled out_of_fuel
    wait_from-Ensures (suc fuel) start s started_at =
        Ensures-bind date_now _ (Ensures-any date_now) λ now _.
          elim (Bool-cases (ltb (now - started_at) opts.timeout_ms)) [
            | inl more ↦ rw more (
                Ensures-bind (round opts s started_at) _ (round-Ensures s started_at)
                  λ outcome settled.
                    next_round-Ensures outcome _ settled
                      λ s'. wait_from-Ensures fuel start s' started_at)
            | inr late ↦ rw late (
                Ensures-bind (snapshot_if_client opts) _ (Ensures-any _)
                  λ end _. Ensures-throw IsSettled _)
          ]

    -- With a client, the location returned is confirmed at the block returned with it: there the key
    -- is on its page, its index is below the number of keys that the root includes, and the ring has
    -- a root.
    pub wait_for_inclusion-IsSettled : (fuel : ℕ) → Ensures (wait_for_inclusion opts fuel) IsSettled
    unfolding wait_for_inclusion
    wait_for_inclusion-IsSettled fuel =
        Ensures-bind date_now _ (Ensures-any date_now) λ started_at _.
          Ensures-bind (snapshot_if_client opts) _ (Ensures-any _)
            λ start _. wait_from-Ensures fuel start _ started_at
