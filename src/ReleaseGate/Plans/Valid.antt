-- ===== src/ReleaseGate/Plans/Valid.antt =====
-- release-map.mjs, `validateManifest`: what a manifest that passes pins.
use polkadot_pop_e2e.Common.{
  ok-injective, All-both, Any-map, Any-for_each, includes→Any, ◌≡◌, sym, ◌∙◌, String, true, some,
  List, ◌==◌, All, Any, All-map, ok, ◌>>=◌, for_each, require, Done, bind-eq-ok, require-ok,
  require-eq-ok, demand-eq-ok, for_each-ok, for_each-each, Object, field, keys, or_empty, includes,
  unique, is_set, eq_iff, All-of_unique, Any-of_unique,
}
use polkadot_pop_e2e.ReleaseGate.Chains.{Chain, chains}
use polkadot_pop_e2e.ReleaseGate.Services.{services}
use polkadot_pop_e2e.ReleaseGate.Pins.{Manifest}
use polkadot_pop_e2e.ReleaseGate.Plans.Pinned.{
  IsPinned, IsBinary, IsService, Runs, check_chain-Runs, entry-IsPinned, check_binary-IsBinary,
  check_service-IsService,
}
use polkadot_pop_e2e.ReleaseGate.Plans.{
  plan_chain, runtime_plan, check_binary, check_service, binary_plan, check_chain, check_slots,
  names_some, validate_pins, validate_manifest, PlanEntry, unknown_network, no_chains, no_tests,
  unknown_slot, unpinned_slot, type_error,
}

-- What `validateManifest` promises of a manifest.
pub record IsValid (m : Manifest) : Type 0 where
  pub known : Object Chain
  pub is_known : field chains m.network ≡ some known
  pub is_fork : m.base ≡ "fork"
  pub has_chains : names_some m.chains ≡ true
  pub has_tests : names_some m.tests ≡ true
  pub pinned_chains : All (IsPinned known) (or_empty m.chains)
  -- Each slot that a chain of the manifest runs is pinned, and only those are.
  pub pinned_slots :
      All
        (λ entry.
          (node : String) × Runs known node entry
          × (is_set (field (or_empty m.binaries) node) ≡ true))
        (or_empty m.chains)
  pub needed_slots :
      All (λ slot. Any (Runs known slot) (or_empty m.chains)) (keys (or_empty m.binaries))
  pub allowed_binaries : All IsBinary (or_empty m.binaries)
  pub allowed_services : All (IsService m.network) (or_empty m.services)

module _ (m : Manifest) (known : Object Chain)
    (is_known : field chains m.network ≡ some known) where
  runtime_plan-planned :
      {planned : List PlanEntry}
      → runtime_plan m ≡ ok planned
      → All
          (λ entry. (p : PlanEntry) × (plan_chain (field chains m.network) entry ≡ ok p))
          (or_empty m.chains)
  unfolding runtime_plan
  runtime_plan-planned h =
      let (entries, there, a) = demand-eq-ok m.chains type_error _ h in
      rw there (for_each-each (plan_chain (field chains m.network)) entries a)

  binary_plan-allowed :
      {names : List String}
      → binary_plan m ≡ ok names
      → All IsBinary (or_empty m.binaries) × All (IsService m.network) (or_empty m.services)
  unfolding binary_plan
  binary_plan-allowed h =
      let (_, first, a) = bind-eq-ok (for_each check_binary (or_empty m.binaries)) _ h in
      let (_, second, b) =
        bind-eq-ok (for_each (check_service (field services m.network)) (or_empty m.services)) _
          a in
      (
        All-map _ _ (λ entry k. check_binary-IsBinary entry k.1) _
            (for_each-each check_binary _ first),
        All-map _ _ (λ entry k. check_service-IsService m.network entry k.1) _
            (for_each-each (check_service (field services m.network)) _ second),
      )

module _ (m : Manifest) where
  check_slots-facts :
      (slots : List String) {d : Done}
      → check_slots m slots ≡ ok d
      → All (λ slot. includes slots slot ≡ true) (keys (or_empty m.binaries))
        × All (λ slot. is_set (field (or_empty m.binaries) slot) ≡ true) slots
  check_slots-facts slots h =
      let (_, first, a) =
        bind-eq-ok
          (for_each (λ slot. require (includes slots slot) (unknown_slot slot))
            (keys (or_empty m.binaries)))
          _ h in
      let (_, second, b) =
        bind-eq-ok
          (for_each
            (λ slot. require (is_set (field (or_empty m.binaries) slot)) (unpinned_slot slot))
            slots)
          _ a in
      (
        All-map _ _ (λ slot k. require-ok _ _ k.1) _ (for_each-each _ _ first),
        All-map _ _ (λ slot k. require-ok _ _ k.1) _ (for_each-each _ _ second),
      )

  module _ (known : Object Chain) (nodes : List String) where
    abbrev slots : List String
    slots = unique (λ a b. a == b) nodes

    slots-pinned :
        for_each (check_chain known) (or_empty m.chains) ≡ ok nodes
        → All (λ slot. is_set (field (or_empty m.binaries) slot) ≡ true) slots
        → All
            (λ entry.
              (node : String) × Runs known node entry
              × (is_set (field (or_empty m.binaries) node) ≡ true))
            (or_empty m.chains)
    slots-pinned h k =
        All-map _ _ (λ entry r. (r.0, (check_chain-Runs known entry r.1).0, r.2)) _
          (for_each-ok _ (check_chain known) _ h
            (All-of_unique (λ a b. a == b) (λ a b. (eq_iff a b).0) _ nodes k))

    slots-needed :
        for_each (check_chain known) (or_empty m.chains) ≡ ok nodes
        → (slot : String) → includes slots slot ≡ true
        → Any (Runs known slot) (or_empty m.chains)
    slots-needed h slot k =
        Any-map _ (Runs known slot)
          (λ entry r.
            let runs = (check_chain-Runs known entry r.1).0 in (runs.0, runs.1, runs.2 ∙ r.2))
          _
          (Any-for_each (λ node. node ≡ slot) (check_chain known) _ h
            (Any-of_unique (λ a b. a == b) (λ a b. (eq_iff a b).0) _ nodes
              (includes→Any slots slot k)))

-- A manifest that `validateManifest` accepts is returned as it is, and it is valid: its network is
-- known and its base a fork; it names chains and tests; every chain is one of the network's and pins
-- no binary but a runtime, whose source is a file, a named artifact or a release of a repository
-- that the map allows for the chain; the slots that these chains run are pinned and no others, each
-- to a release of one of the slot's repositories; and its services are the network's, each pinned to
-- a release of one of the service's repositories.
pub validate_manifest-IsValid :
    (m : Manifest) {result : Manifest} → validate_manifest m ≡ ok result → (result ≡ m) × IsValid m
unfolding validate_manifest
validate_manifest-IsValid m {result = result} h =
    let (known, is_known, a) =
      demand-eq-ok (field chains m.network) (unknown_network m.network) _ h in
    let (base, b) =
      require-eq-ok _ _ (require (names_some m.chains) no_chains >>= λ _. validate_pins m known)
        a in
    let (has_chains, c) = require-eq-ok _ _ (validate_pins m known) b in
    let (nodes, runs, d) = bind-eq-ok (for_each (check_chain known) (or_empty m.chains)) _ c in
    let (_, slots, e) = bind-eq-ok (check_slots m (unique (λ a b. a == b) nodes)) _ d in
    let (has_tests, f) =
      require-eq-ok (names_some m.tests) no_tests
        (runtime_plan m >>= λ _. binary_plan m >>= λ _. ok m) e in
    let (_, planned, g) = bind-eq-ok (runtime_plan m) (λ _. binary_plan m >>= λ _. ok m) f in
    let (_, allowed, last) = bind-eq-ok (binary_plan m) (λ _. ok m) g in
    let (known_slots, set_slots) = check_slots-facts m (unique (λ a b. a == b) nodes) slots in
    let (binaries, services_of) = binary_plan-allowed m known is_known allowed in
    (
      sym (ok-injective last),
      record {
        known = known;
        is_known = is_known;
        is_fork = (eq_iff m.base "fork").0 base;
        has_chains = has_chains;
        has_tests = has_tests;
        pinned_chains =
            All-map _ _
              (λ entry k. entry-IsPinned known (field chains m.network) entry is_known k.0.1 k.1.1)
              _
              (All-both _ _ _ (for_each-each (check_chain known) _ runs)
                (runtime_plan-planned m known is_known planned));
        pinned_slots = slots-pinned m known nodes runs set_slots;
        needed_slots = All-map _ _ (λ slot k. slots-needed m known nodes runs slot k) _ known_slots;
        allowed_binaries = binaries;
        allowed_services = services_of;
      },
    )
