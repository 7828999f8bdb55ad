-- ===== src/ChainTests/Attested/Searching.antt =====
-- attested-fixture.ts, `waitForSearchable`: when it returns, and its end.
use polkadot_pop_e2e.Common.{
  ℕ, zero, suc, ◌+◌, ◌-◌, ◌*◌, ◌<◌, ◌≤◌, ◌≡◌, ◌≢◌, sym, ap, ◌∙◌, arith, String, Bool, true, ltb,
  ltb→lt, Bool-cases, inl, inr, Result, ok, err,
}
use polkadot_pop_e2e.ChainTests.Task.{World, Failure, out_of_fuel, Task, remote, sleep, date_now}
use polkadot_pop_e2e.ChainTests.Task.Rules.{
  Ensures, Ensures-bind, Ensures-pure, Ensures-throw, Ensures-any, Ensures-remote, Completes,
  continue-ne,
}
use polkadot_pop_e2e.ChainTests.Claims.{attempt_of}
use polkadot_pop_e2e.ChainTests.Attested.{
  Fixture, search_timeout_ms, search_poll_interval_ms, lists, found_in, after_search,
  search_username, search_from, wait_for_searchable,
}

module _ (f : Fixture) (username : String) where
  -- The search listed the name in the answer to some call.
  abbrev pub IsListed : Type 0
  IsListed = (call : ℕ) × (lists f username (f.search call) ≡ true)

  search_username-Ensures :
      Ensures
        (search_username f username)
        (λ found. (call : ℕ) × (found ≡ lists f username (f.search call)))
  unfolding search_username
  search_username-Ensures =
      Ensures-bind (remote f.network f.search) _ (Ensures-remote f.network f.search)
        λ answer (call, same). Ensures-pure _ _ (call, ap (lists f username) same)

  attempt-Ensures :
      Ensures
        (attempt_of (search_username f username))
        (λ outcome. found_in f outcome ≡ true → IsListed)
  attempt-Ensures w w' outcome e = go outcome (cc)
    where
      go :
          (o : Result Failure Bool)
          → search_username f username w ≡ (o, w')
          → found_in f o ≡ true
          → IsListed
      go (ok found) same is_found =
          let (call, here) = search_username-Ensures w w' found same in (call, sym here ∙ is_found)
      go (err x) same is_found = absurd (cc)

  after_search-Ensures :
      (outcome : Result Failure Bool) (again : Task (Unit {0}))
      → (found_in f outcome ≡ true → IsListed)
      → Ensures again (λ u. IsListed)
      → Ensures (after_search f outcome again) (λ u. IsListed)
  unfolding after_search
  after_search-Ensures outcome again listed h = elim (Bool-cases (found_in f outcome)) [
    | inl found ↦ rw found (Ensures-pure _ _ (listed found))
    | inr missing ↦
        rw missing
          (Ensures-bind (sleep f.network search_poll_interval_ms) _ (Ensures-any _) λ a _. h)
  ]

  search_from-Ensures :
      (fuel start : ℕ) → Ensures (search_from f fuel username start) (λ u. IsListed)
  unfolding search_from
  search_from-Ensures zero start = Ensures-throw _ _
  search_from-Ensures (suc fuel) start = Ensures-bind date_now _ (Ensures-any date_now) λ now _.
      elim (Bool-cases (ltb (now - start) search_timeout_ms)) [
        | inr late ↦ rw late (Ensures-throw _ _)
        | inl early ↦ rw early (
            Ensures-bind (attempt_of (search_username f username)) _ attempt-Ensures
              λ outcome listed.
                after_search-Ensures outcome _ listed (search_from-Ensures fuel start))
      ]

  -- The wait returns only after the search has listed the name.
  pub wait_for_searchable-IsListed :
      (fuel : ℕ) → Ensures (wait_for_searchable f fuel username) (λ u. IsListed)
  unfolding wait_for_searchable
  wait_for_searchable-IsListed fuel =
      Ensures-bind date_now _ (Ensures-any date_now) λ start _. search_from-Ensures fuel start

  attempt-later :
      (w w' : World) (outcome : Result Failure Bool)
      → attempt_of (search_username f username) w ≡ (ok outcome, w')
      → w.now ≤ w'.now
  unfolding search_username remote
  attempt-later w w' outcome e = ground arith

  after_search-ne :
      (outcome : Result Failure Bool) (again : Task (Unit {0})) (w : World)
      → ((w' : World) → w.now + 5000 ≤ w'.now → (again w').0 ≢ err out_of_fuel)
      → (after_search f outcome again w).0 ≢ err out_of_fuel
  unfolding after_search sleep
  after_search-ne outcome again w h = elim (Bool-cases (found_in f outcome)) [
    | inl found ↦ rw found (λ e. cc)
    | inr missing ↦ rw missing (h _ (omega arith))
  ]

  search_from-ne :
      (fuel start : ℕ) (w : World)
      → start ≤ w.now
      → 245000 + start ≤ 5000 * fuel + w.now
      → 0 < fuel
      → (search_from f fuel username start w).0 ≢ err out_of_fuel
  unfolding search_from date_now
  search_from-ne zero start w h enough k = absurd (omega arith)
  search_from-ne (suc fuel) start w h enough k =
      elim (Bool-cases (ltb (w.now - start) search_timeout_ms)) [
        | inr late ↦ rw late (λ e. cc)
        | inl early ↦ rw early (
            continue-ne (attempt_of (search_username f username) w)
              (λ outcome. after_search f outcome (search_from f fuel username start)) (λ e. cc)
              λ outcome w₁ e.
                after_search-ne outcome (search_from f fuel username start) w₁ λ w₂ slept.
                  let first = attempt-later w w₁ outcome e in
                  let in_time = ltb→lt _ _ early in
                  search_from-ne fuel start w₂ (omega arith) (omega arith) (omega arith))
      ]

  -- Forty-nine rounds are enough for the loop to end, with the name found or with the timeout's
  -- error.
  pub wait_for_searchable-Completes :
      (fuel : ℕ) → 48 < fuel → Completes (wait_for_searchable f fuel username)
  unfolding wait_for_searchable date_now
  wait_for_searchable-Completes fuel h w =
      search_from-ne fuel w.now w (omega arith) (omega arith) (omega arith)
