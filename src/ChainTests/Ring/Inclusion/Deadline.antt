-- ===== src/ChainTests/Ring/Inclusion/Deadline.antt =====
-- ring.ts, `waitForInclusion`: the time that its rounds take, and its end.
use polkadot_pop_e2e.Common.{
  ℕ, zero, suc, ◌+◌, ◌-◌, ◌<◌, ◌≤◌, ◌≡◌, ◌≢◌, refl, arith, String, Bool, true, false, Option, some,
  none, ltb, ltb→lt, Bool-cases, List, inl, inr, includes, err,
}
use polkadot_pop_e2e.ChainTests.Task.{Task, World, out_of_fuel, pure, ◌>>=◌, sleep, date_now}
use polkadot_pop_e2e.ChainTests.Task.Rules.{
  Spends, Spends-bind, Spends-pure, Spends-sleep, Spends-date_now, Spends-remote, Completes,
  Completes-bind, Completes-pure, Completes-sleep, Completes-date_now, Completes-throw,
  Completes-remote, continue-ne,
}
use polkadot_pop_e2e.ChainTests.Ring.{
  Position, MemberStatus, included_at, Pin, MembersState, Collection, People, get_finalized_block,
  read, keys_or_empty, add_pages, is_in_root,
}
use polkadot_pop_e2e.ChainTests.Ring.Members.{read-Completes, is_in_root-Completes}
use polkadot_pop_e2e.ChainTests.Ring.Diagnostic.{RingDiagnostic, capture_ring_diagnostic}
use polkadot_pop_e2e.ChainTests.Ring.Inclusion.{
  MemberLocation, Wait, Progress, Round, found, again, stability_wait_ms, is_listed, poll_again,
  settle, recheck, decide_listed, check_included, check_status, pin_read, round, time_out,
  snapshot_if_client, next_round, wait_from, wait_for_inclusion,
}

module _ (p : People) where
  read-Spends :
      {A : Type 0} (collection : Collection) (pin : Pin) (field : MembersState → A)
      → Spends (read p collection pin field) (λ a. 0)
  unfolding read
  read-Spends collection pin field = Spends-remote p.network _

  block-Spends : Spends (get_finalized_block p) (λ a. 0)
  unfolding get_finalized_block
  block-Spends = Spends-remote p.network p.finalized

  block-Completes : Completes (get_finalized_block p)
  unfolding get_finalized_block
  block-Completes = Completes-remote p.network p.finalized

module _ (opts : Wait) where
  open opts use {people, collection, own_key, poll_ms}

  -- Both measures of a task that yields a round: it ends, and it takes a poll unless it is done.
  abbrev cost : Round → ℕ
  cost (found location) = 0
  cost (again s) = poll_ms

  record IsRound (m : Task Round) : Type 0 where
    spends : Spends m cost
    completes : Completes m

  IsRound-bind :
      {A : Type 0} (m : Task A) (f : A → Task Round)
      → Spends m (λ a. 0)
      → Completes m
      → ((a : A) → IsRound (f a))
      → IsRound (m >>= f)
  IsRound-bind m f s c k = record {
    spends = Spends-bind cost m f s (λ a. (k a).spends);
    completes = Completes-bind m f c (λ a. (k a).completes);
  }

  poll_again-IsRound : (s : Progress) → IsRound (poll_again opts s)
  unfolding poll_again
  poll_again-IsRound s = record { spends = λ w w' a e. ground arith; completes = λ w e. cc }

  found-IsRound : (location : MemberLocation) → IsRound (pure (found location))
  found-IsRound location = record {
    spends = λ w w' a e. ground arith;
    completes = Completes-pure (found location);
  }

  is_listed-Spends :
      (place : Position) (pin : Pin) (page : Option (List String))
      → Spends (is_listed opts place pin page) (λ a. 0)
  unfolding is_listed is_in_root
  is_listed-Spends place pin page = elim (Bool-cases (includes (keys_or_empty page) own_key)) [
    | inl here ↦ rw here (
        Spends-bind (λ a. 0)
          (add_pages people collection place.ring_index pin place.ring_page 0 place.ring_position) _
          (add_pages-Spends place.ring_page 0 place.ring_position)
          λ index.
            Spends-bind (λ a. 0) (read people collection pin (λ m. m.included place.ring_index)) _
              (read-Spends people collection pin (λ m. m.included place.ring_index))
              λ included. Spends-pure _)
    | inr absent ↦ rw absent (Spends-pure false)
  ]
    where
      add_pages-Spends :
          (left page index : ℕ)
          → Spends (add_pages people collection place.ring_index pin left page index) (λ a. 0)
      add_pages-Spends zero page index = Spends-pure index
      add_pages-Spends (suc left) page index =
          Spends-bind (λ a. 0) (read people collection pin (λ m. m.ring_keys place.ring_index page))
            _ (read-Spends people collection pin (λ m. m.ring_keys place.ring_index page))
            λ keys. add_pages-Spends left (page + 1) _

  is_listed-Completes :
      (place : Position) (pin : Pin) (page : Option (List String))
      → Completes (is_listed opts place pin page)
  unfolding is_listed
  is_listed-Completes place pin page = elim (Bool-cases (includes (keys_or_empty page) own_key)) [
    | inl here ↦ rw here (
        is_in_root-Completes people collection place.ring_index pin place.ring_page
          place.ring_position)
    | inr absent ↦ rw absent (Completes-pure false)
  ]

  settle-IsRound :
      (s : Progress) (place : Position) (hash : String) (still : Bool) (root : Option ℕ)
      → IsRound (settle opts s place hash still root)
  unfolding settle
  settle-IsRound s place hash true (some revision) = found-IsRound _
  settle-IsRound s place hash still root = poll_again-IsRound _

  read-IsRound :
      {A : Type 0} (pin : Pin) (field : MembersState → A) (f : A → Task Round)
      → ((a : A) → IsRound (f a))
      → IsRound (read people collection pin field >>= f)
  read-IsRound pin field f =
      IsRound-bind (read people collection pin field) f (read-Spends people collection pin field)
        (read-Completes people collection pin field)

  sleep-Spends_at_least : (ms : ℕ) → Spends (sleep people.network ms) (λ a. 0)
  sleep-Spends_at_least ms w w' a e = omega (arith, Spends-sleep people.network ms w w' a e)

  listed-IsRound :
      (place : Position) (pin : Pin) (page : Option (List String)) (f : Bool → Task Round)
      → ((b : Bool) → IsRound (f b))
      → IsRound (is_listed opts place pin page >>= f)
  listed-IsRound place pin page f =
      IsRound-bind (is_listed opts place pin page) f (is_listed-Spends place pin page)
        (is_listed-Completes place pin page)

  recheck-IsRound : (s : Progress) (place : Position) → IsRound (recheck opts s place)
  unfolding recheck
  recheck-IsRound s place =
      IsRound-bind (sleep people.network stability_wait_ms) _
        (sleep-Spends_at_least stability_wait_ms) (Completes-sleep people.network stability_wait_ms)
        λ a.
          IsRound-bind (get_finalized_block people) _ (block-Spends people) (block-Completes people)
            λ fin2.
              read-IsRound (some fin2.hash) (λ m. m.revision place.ring_index) _
                λ root2.
                  read-IsRound (some fin2.hash) (λ m. m.ring_keys place.ring_index place.ring_page)
                    _
                    λ page2.
                      listed-IsRound place (some fin2.hash) page2 _
                        λ still. settle-IsRound s place fin2.hash still root2

  decide_listed-IsRound :
      (s : Progress) (place : Position) (pin : Pin) (in_ring : Bool)
      → IsRound (decide_listed opts s place pin in_ring)
  unfolding decide_listed
  decide_listed-IsRound s place (some hash) true = recheck-IsRound s place
  decide_listed-IsRound s place none true = found-IsRound _
  decide_listed-IsRound s place pin false = poll_again-IsRound _

  check_status-IsRound :
      (s : Progress) (started_at : ℕ) (pin : Pin) (status : Option MemberStatus)
      → IsRound (check_status opts s started_at pin status)
  unfolding check_status check_included
  check_status-IsRound s started_at pin (some (included_at place)) =
      read-IsRound pin (λ m. m.ring_keys place.ring_index place.ring_page) _
        λ page. listed-IsRound place pin page _ λ in_ring. decide_listed-IsRound s place pin in_ring
  check_status-IsRound s started_at pin status =
      IsRound-bind date_now _ Spends-date_now Completes-date_now λ now. poll_again-IsRound _

  pin_read-Spends : Spends (pin_read opts) (λ a. 0)
  unfolding pin_read
  pin_read-Spends = elim (Bool-cases opts.has_client) [
    | inl client ↦ rw client (
        Spends-bind (λ a. 0) (get_finalized_block people) _ (block-Spends people)
          λ fin. Spends-pure _)
    | inr head ↦ rw head (Spends-pure _)
  ]

  pin_read-Completes : Completes (pin_read opts)
  unfolding pin_read
  pin_read-Completes = elim (Bool-cases opts.has_client) [
    | inl client ↦ rw client (
        Completes-bind (get_finalized_block people) _ (block-Completes people)
          λ fin. Completes-pure _)
    | inr head ↦ rw head (Completes-pure _)
  ]

  round-IsRound : (s : Progress) (started_at : ℕ) → IsRound (round opts s started_at)
  unfolding round
  round-IsRound s started_at =
      IsRound-bind (pin_read opts) _ pin_read-Spends pin_read-Completes λ pin.
        read-IsRound pin (λ m. m.member own_key) _
          λ status. check_status-IsRound s started_at pin status

  snapshot-Completes : Completes (snapshot_if_client opts)
  unfolding snapshot_if_client capture_ring_diagnostic
  snapshot-Completes = elim (Bool-cases opts.has_client) [
    | inl client ↦ rw client (
        Completes-bind (capture_ring_diagnostic people collection) _ captured
          λ snap. Completes-pure _)
    | inr head ↦ rw head (Completes-pure _)
  ]
    where
      captured : Completes (capture_ring_diagnostic people collection)
      captured = Completes-bind (get_finalized_block people) _ (block-Completes people) λ fin.
          Completes-bind (read people collection (some fin.hash) (λ m. m.revision 0)) _
            (read-Completes people collection (some fin.hash) (λ m. m.revision 0))
            λ root.
              Completes-bind (read people collection (some fin.hash) (λ m. m.entry_types)) _
                (read-Completes people collection (some fin.hash) (λ m. m.entry_types))
                λ members. Completes-pure _

  snapshot-Spends : Spends (snapshot_if_client opts) (λ a. 0)
  unfolding snapshot_if_client capture_ring_diagnostic
  snapshot-Spends = elim (Bool-cases opts.has_client) [
    | inl client ↦ rw client (
        Spends-bind (λ a. 0) (capture_ring_diagnostic people collection) _ captured
          λ snap. Spends-pure _)
    | inr head ↦ rw head (Spends-pure _)
  ]
    where
      captured : Spends (capture_ring_diagnostic people collection) (λ a. 0)
      captured =
          Spends-bind (λ a. 0) (get_finalized_block people) _ (block-Spends people)
            λ fin.
              Spends-bind (λ a. 0) (read people collection (some fin.hash) (λ m. m.revision 0)) _
                (read-Spends people collection (some fin.hash) (λ m. m.revision 0))
                λ root.
                  Spends-bind (λ a. 0) (read people collection (some fin.hash) (λ m. m.entry_types))
                    _ (read-Spends people collection (some fin.hash) (λ m. m.entry_types))
                    λ members. Spends-pure _

  time_out-Completes :
      (start : Option RingDiagnostic) (s : Progress) → Completes (time_out opts start s)
  unfolding time_out
  time_out-Completes start s =
      Completes-bind (snapshot_if_client opts) _ snapshot-Completes
        λ end. Completes-throw _ (λ e. cc)

  next_round-ne :
      (outcome : Round) (next : Progress → Task MemberLocation) (w : World)
      → ((s : Progress) → outcome ≡ again s → (next s w).0 ≢ err out_of_fuel)
      → (next_round opts outcome next w).0 ≢ err out_of_fuel
  next_round-ne (found location) next w h = λ e. cc
  next_round-ne (again s) next w h = h s refl

  module _ (poll : 0 < poll_ms) (start : Option RingDiagnostic) (started_at : ℕ) where
    wait_from-ne :
        (fuel : ℕ) (s : Progress) (w : World)
        → started_at ≤ w.now
        → opts.timeout_ms + started_at < fuel + w.now
        → 0 < fuel
        → (wait_from opts fuel start s started_at w).0 ≢ err out_of_fuel
    unfolding wait_from date_now
    wait_from-ne zero s w h enough k = absurd (omega arith)
    wait_from-ne (suc fuel) s w h enough k =
        elim (Bool-cases (ltb (w.now - started_at) opts.timeout_ms)) [
          | inl more ↦ rw more (
              continue-ne (round opts s started_at w) _ ((round-IsRound s started_at).completes w)
                λ outcome w₁ e. next_round-ne outcome _ w₁ λ s' same.
                  let spent = (round-IsRound s started_at).spends w w₁ outcome e in
                  let paid : w.now + poll_ms ≤ w₁.now = paid_of outcome s' w w₁ same spent in
                  let early = ltb→lt _ _ more in
                  wait_from-ne fuel s' w₁ (omega arith) (omega arith) (omega arith))
          | inr late ↦ rw late (time_out-Completes start s w)
        ]
      where
        paid_of :
            (outcome : Round) (s' : Progress) (w w₁ : World)
            → outcome ≡ again s'
            → w.now + cost outcome ≤ w₁.now
            → w.now + poll_ms ≤ w₁.now
        paid_of (found location) s' w w₁ e h = absurd (cc)
        paid_of (again s) s' w w₁ e h = h

  -- When a poll takes time and the fuel is above the timeout, the loop ends by itself: with a
  -- location, with the timeout's error or with the failure of a call.
  pub wait_for_inclusion-Completes :
      (fuel : ℕ) → 0 < poll_ms → opts.timeout_ms < fuel → Completes (wait_for_inclusion opts fuel)
  unfolding wait_for_inclusion date_now
  wait_for_inclusion-Completes fuel poll enough w =
      continue-ne (snapshot_if_client opts w) _ (snapshot-Completes w) λ start w₁ e.
        wait_from-ne poll start w.now fuel _ w₁
          (let spent = snapshot-Spends w w₁ start e in omega arith)
          (let spent = snapshot-Spends w w₁ start e in omega arith) (omega arith)
