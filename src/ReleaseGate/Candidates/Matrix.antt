-- ===== src/ReleaseGate/Candidates/Matrix.antt =====
-- release-map.mjs, `candidateMatrix`: which manifests a run tests, and which of them decides.
use polkadot_pop_e2e.Common.{
  ◌≡◌, ◌≢◌, ◌↔◌, refl, ap, ◌∙◌, inl, inr, arith, String, Bool, true, false, not, ◌&&◌, ◌||◌, some,
  List, [], ◌∷◌, map, ◌==◌, if◌then◌else◌, Object, or_empty, Bool-cases, eq_iff,
}
use polkadot_pop_e2e.ReleaseGate.Pins.{Manifest}
use polkadot_pop_e2e.ReleaseGate.Candidates.{
  same_pairs, same_binary_dim, same_runtime_dim, runtime_dim, chain_names, Candidate, Finished,
  finish, target_candidate, binaries_only, runtimes_only, is_new, candidate_matrix,
}

-- The pins of binaries and services, as one dimension of a manifest.
abbrev pub builds_of : Manifest → Object String × Object String
builds_of m = (or_empty m.binaries, or_empty m.services)

same_pairs_iff : (a b : Object String) → (same_pairs a b ≡ true) ↔ (a ≡ b)
same_pairs_iff [] [] = ground arith
same_pairs_iff ((k, x) ∷ a) ((l, y) ∷ b) =
    ground (arith, same_pairs_iff a b, eq_iff k l, eq_iff x y)
same_pairs_iff [] ((l, y) ∷ b) = ground arith
same_pairs_iff ((k, x) ∷ a) [] = ground arith

same_pairs_refl : (a : Object String) → same_pairs a a ≡ true
same_pairs_refl a = (same_pairs_iff a a).1 refl

same_pairs_comm : (a b : Object String) → same_pairs a b ≡ same_pairs b a
same_pairs_comm a b = ground (arith, same_pairs_iff a b, same_pairs_iff b a)

module _ (base head : Manifest) where
  is_new-binaries_only :
      is_new base head (binaries_only base head)
      ≡ (not (same_runtime_dim base head) && not (same_binary_dim base head))
  is_new-binaries_only = ground (
    arith,
    same_pairs_refl (or_empty head.binaries),
    same_pairs_refl (or_empty head.services),
    same_pairs_refl (runtime_dim base),
    same_pairs_comm (or_empty head.binaries) (or_empty base.binaries),
    same_pairs_comm (or_empty head.services) (or_empty base.services),
  )

  is_new-runtimes_only :
      is_new base head (runtimes_only base head)
      ≡ (not (same_binary_dim base head) && not (same_runtime_dim base head))
  is_new-runtimes_only = ground (
    arith,
    same_pairs_refl (or_empty base.binaries),
    same_pairs_refl (or_empty base.services),
    same_pairs_refl (runtime_dim head),
    same_pairs_comm (runtime_dim head) (runtime_dim base),
  )

  -- The two cross terms, where they are tested, or the target alone.
  abbrev expected : Bool → Bool → Bool → List Candidate
  expected true false false =
      target_candidate head ∷ binaries_only base head ∷ runtimes_only base head ∷ []
  expected _ _ _ = target_candidate head ∷ []

  -- The matrix by its five tests.
  abbrev by_tests : Bool → Bool → Bool → Bool → Bool → List Finished
  by_tests names builds runtimes first second =
      if not names || builds && runtimes
      then finish base (target_candidate head) ∷ []
      else map (finish base) (
          target_candidate head
          ∷ (if first
              then binaries_only base head ∷ (if second then runtimes_only base head ∷ [] else [])
              else if second
              then runtimes_only base head ∷ []
              else []))

  by_tests-expected :
      (names builds runtimes : Bool)
      → by_tests names builds runtimes (not runtimes && not builds) (not builds && not runtimes)
        ≡ map (finish base) (expected names builds runtimes)
  by_tests-expected false builds runtimes = refl
  by_tests-expected true true true = refl
  by_tests-expected true true false = refl
  by_tests-expected true false true = refl
  by_tests-expected true false false = refl

  candidate_matrix-expected :
      candidate_matrix (some base) head
      ≡ map (finish base) (
          expected
            (chain_names base == chain_names head)
            (same_binary_dim base head)
            (same_runtime_dim base head))
  unfolding candidate_matrix
  candidate_matrix-expected =
      let names = chain_names base == chain_names head in
      let builds = same_binary_dim base head in
      let runtimes = same_runtime_dim base head in
      let second = is_new base head (runtimes_only base head) in
      ap (λ u. by_tests names builds runtimes u second) is_new-binaries_only
      ∙ ap (λ v. by_tests names builds runtimes (not runtimes && not builds) v) is_new-runtimes_only
      ∙ by_tests-expected names builds runtimes

  -- Both dimensions differ as they are written, under the same chains.
  pub record Splits : Type 0 where
    pub same_chains : chain_names base ≡ chain_names head
    pub builds_move : builds_of base ≢ builds_of head
    pub runtimes_move : runtime_dim base ≢ runtime_dim head

  same_builds_iff : (same_binary_dim base head ≡ true) ↔ (builds_of base ≡ builds_of head)
  same_builds_iff = ground (
    arith,
    same_pairs_iff (or_empty base.binaries) (or_empty head.binaries),
    same_pairs_iff (or_empty base.services) (or_empty head.services),
  )

  splits-tests :
      Splits
      → ((chain_names base == chain_names head) ≡ true)
        × (same_binary_dim base head ≡ false)
        × (same_runtime_dim base head ≡ false)
  splits-tests s = (
    (eq_iff (chain_names base) (chain_names head)).1 s.same_chains,
    ground (arith, same_builds_iff, s.builds_move),
    ground (arith, same_pairs_iff (runtime_dim base) (runtime_dim head), s.runtimes_move),
  )

  expected_whole :
      (Splits → ⊥)
      → expected
          (chain_names base == chain_names head)
          (same_binary_dim base head)
          (same_runtime_dim base head)
        ≡ target_candidate head ∷ []
  expected_whole whole = elim (Bool-cases (chain_names base == chain_names head)) [
    | inr n ↦ rw n refl
    | inl n ↦ elim (Bool-cases (same_binary_dim base head)) [
      | inl b ↦ rw (n, b) refl
      | inr b ↦ elim (Bool-cases (same_runtime_dim base head)) [
        | inl r ↦ rw (n, b, r) refl
        | inr r ↦ absurd (
            whole (record {
              same_chains = (eq_iff (chain_names base) (chain_names head)).0 n;
              builds_move = λ e. ground (arith, same_builds_iff);
              runtimes_move =
                  λ e. ground (arith, same_pairs_iff (runtime_dim base) (runtime_dim head));
            }))
      ]
    ]
  ]

  abbrev Matrix : List Candidate → Type 0
  Matrix candidates = candidate_matrix (some base) head ≡ map (finish base) candidates

  -- Against a base, the matrix is the target, which decides, and, where the chains are the same and
  -- both the binaries or services and the runtimes differ as they are written, the two informational
  -- cross terms: the new binaries with the base's chains, and the base's binaries and services with
  -- the new chains. Otherwise it is the target alone. The target is steady exactly when both
  -- dimensions are the base's, with their keys in the same order: pins that are only listed in
  -- another order count as a difference.
  pub candidate_matrix_lem :
      (Splits
        → Matrix (target_candidate head ∷ binaries_only base head ∷ runtimes_only base head ∷ []))
      × ((Splits → ⊥) → Matrix (target_candidate head ∷ []))
      × (((finish base (target_candidate head)).steady ≡ true)
          ↔ (builds_of base ≡ builds_of head) × (runtime_dim base ≡ runtime_dim head))
  candidate_matrix_lem = (
    λ splits.
        let tests = splits-tests splits in
        rw (tests.0, tests.1, tests.2) at candidate_matrix-expected,
    λ whole. candidate_matrix-expected ∙ ap (map (finish base)) (expected_whole whole),
    ground (arith, same_builds_iff, same_pairs_iff (runtime_dim base) (runtime_dim head)),
  )
