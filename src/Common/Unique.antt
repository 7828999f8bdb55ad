-- ===== src/Common/Unique.antt =====
-- What holds of the elements of `new Set(list)` holds of the list's, and the other way round.
use mathlib.Core.Path.{◌≡◌}
use mathlib.Core.Logic.{inl, inr}
use mathlib.Core.Bool.{Bool, true}
use mathlib.Core.List.{List, [], ◌∷◌}
use polkadot_pop_e2e.Common.Branching.{Bool-cases}
use polkadot_pop_e2e.Common.Lists.{All, Any, Any-All, contains, unique_from, unique, includes}
use Prim.Native.String.{String}
use text.Mathlib.Text.{◌==◌}
use text.Mathlib.TextEquality.{eq_iff}

-- `unique` against the list that it is made from, for a test that decides equality.
module _ {A : Type 0} (eq : A → A → Bool) (sound : (x y : A) → eq x y ≡ true → x ≡ y) where
  contains→Any : (xs : List A) (a : A) → contains eq xs a ≡ true → Any (λ x. x ≡ a) xs
  contains→Any [] a h = cc
  contains→Any (x ∷ xs) a h = elim (Bool-cases (eq x a)) [
    | inl e ↦ inl (sound x a e)
    | inr e ↦ inr (contains→Any xs a (rw e at h))
  ]

  All-of_unique_from :
      (P : A → Type 0) (seen xs : List A) → All P seen → All P (unique_from eq seen xs) → All P xs
  All-of_unique_from P seen [] k h = tt
  All-of_unique_from P seen (x ∷ xs) k h = elim (Bool-cases (contains eq seen x)) [
    | inl e ↦ (
      Any-All (λ y. y ≡ x) P seen (contains→Any seen x e) k (λ y same p. rw same at p),
      All-of_unique_from P seen xs k (rw e at h),
    )
    | inr e ↦
        let parts = rw e at h in (parts.0, All-of_unique_from P (x ∷ seen) xs (parts.0, k) parts.1)
  ]

  pub All-of_unique : (P : A → Type 0) (xs : List A) → All P (unique eq xs) → All P xs
  All-of_unique P xs h = All-of_unique_from P [] xs tt h

  Any-of_unique_from :
      (P : A → Type 0) (seen xs : List A) → Any P (unique_from eq seen xs) → Any P xs
  Any-of_unique_from P seen [] h = h
  Any-of_unique_from P seen (x ∷ xs) h = elim (Bool-cases (contains eq seen x)) [
    | inl e ↦ inr (Any-of_unique_from P seen xs (rw e at h))
    | inr e ↦ elim (rw e at h) [
      | inl p ↦ inl p
      | inr k ↦ inr (Any-of_unique_from P (x ∷ seen) xs k)
    ]
  ]

  pub Any-of_unique : (P : A → Type 0) (xs : List A) → Any P (unique eq xs) → Any P xs
  Any-of_unique P xs h = Any-of_unique_from P [] xs h

pub includes→Any : (xs : List String) (s : String) → includes xs s ≡ true → Any (λ x. x ≡ s) xs
includes→Any [] s h = cc
includes→Any (x ∷ xs) s h = elim (Bool-cases (x == s)) [
  | inl e ↦ inl ((eq_iff x s).0 e)
  | inr e ↦ inr (includes→Any xs s (rw e at h))
]
