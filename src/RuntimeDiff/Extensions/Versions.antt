-- ===== src/RuntimeDiff/Extensions/Versions.antt =====
-- extensions.ts: the versions of the rows.
use polkadot_pop_e2e.Common.{
  ℕ, ◌<◌, Bool, true, false, not, ◌&&◌, ◌||◌, ◌≡◌, refl, ◌∙◌, arith, Option, none, some, List, [],
  ◌∷◌, ◌++◌, map, leb, eqb, All, unique_from, unique, contains, insert, sort, IsSorted,
  sort-IsSorted, IsTotalOrder, Bool-cases, inl, inr,
}
use polkadot_pop_e2e.RuntimeDiff.Papi.{Papi}
use polkadot_pop_e2e.RuntimeDiff.Extensions.{
  Extension, PipelineRow, UnifiedMetadata, versions_of, pipeline_at, row_of, row_at, diff_pipelines,
}

abbrev has : List ℕ → ℕ → Bool
has = contains eqb

abbrev Distinct : List ℕ → Type 0
Distinct [] = Unit
Distinct (x ∷ xs) = (has xs x ≡ false) × Distinct xs

has-append : (xs ys : List ℕ) (v : ℕ) → has (xs ++ ys) v ≡ (has xs v || has ys v)
has-append [] ys v = refl
has-append (x ∷ xs) ys v = ground (arith, has-append xs ys v)

has-unique_from :
    (seen xs : List ℕ) (v : ℕ) → has (unique_from eqb seen xs) v ≡ (not (has seen v) && has xs v)
has-unique_from seen [] v = ground arith
has-unique_from seen (x ∷ xs) v =
    ground (arith, has-unique_from seen xs v, has-unique_from (x ∷ seen) xs v)

has_equal : (xs : List ℕ) (v w : ℕ) → eqb v w ≡ true → has xs v ≡ has xs w
has_equal xs v w h = let e : v ≡ w = ground arith in rw e refl

unique_from-Distinct : (seen xs : List ℕ) → Distinct (unique_from eqb seen xs)
unique_from-Distinct seen [] = tt
unique_from-Distinct seen (x ∷ xs) = elim (Bool-cases (has seen x)) [
  | inl old ↦ rw old (unique_from-Distinct seen xs)
  | inr new ↦
      rw new (ground (arith, has-unique_from (x ∷ seen) xs x), unique_from-Distinct (x ∷ seen) xs)
]

has-insert : (x : ℕ) (xs : List ℕ) (v : ℕ) → has (insert leb x xs) v ≡ (eqb x v || has xs v)
has-insert x [] v = refl
has-insert x (y ∷ ys) v = ground (arith, has-insert x ys v)

insert-Distinct :
    (x : ℕ) (xs : List ℕ) → has xs x ≡ false → Distinct xs → Distinct (insert leb x xs)
insert-Distinct x [] h d = (refl, tt)
insert-Distinct x (y ∷ ys) h d = elim (Bool-cases (leb x y)) [
  | inl e ↦ rw e (h, d)
  | inr e ↦ rw e (ground (arith, has-insert x ys y, d.0), insert-Distinct x ys (ground arith) d.1)
]

has-sort : (xs : List ℕ) (v : ℕ) → has (sort leb xs) v ≡ has xs v
has-sort [] v = refl
has-sort (x ∷ xs) v = ground (arith, has-insert x (sort leb xs) v, has-sort xs v)

sort-Distinct : (xs : List ℕ) → Distinct xs → Distinct (sort leb xs)
sort-Distinct [] d = tt
sort-Distinct (x ∷ xs) d =
    insert-Distinct x (sort leb xs) (has-sort xs x ∙ d.0) (sort-Distinct xs d.1)

abbrev pub IsAscending : List ℕ → Type 0
IsAscending [] = Unit
IsAscending (x ∷ xs) = All (λ y. x < y) xs × IsAscending xs

All-lt :
    (x : ℕ) (xs : List ℕ) → has xs x ≡ false → All (λ y. leb x y ≡ true) xs → All (λ y. x < y) xs
All-lt x [] h k = tt
All-lt x (y ∷ ys) h k = (ground (arith, k.0), All-lt x ys (ground arith) k.1)

IsAscending-of : (xs : List ℕ) → Distinct xs → IsSorted leb xs → IsAscending xs
IsAscending-of [] d s = tt
IsAscending-of (x ∷ xs) d s = (All-lt x xs d.0 s.0, IsAscending-of xs d.1 s.1)

leb-order : IsTotalOrder leb
leb-order = record { total = λ x y h. ground arith; trans = λ x y z h k. ground arith }

module _ (papi : Papi) (live candidate : UnifiedMetadata papi) where
  row_at-version : (version : ℕ) → (row_at papi live candidate version).version ≡ version
  unfolding row_at
  row_at-version version =
      by_side (pipeline_at version live.extensions_by_version)
        (pipeline_at version candidate.extensions_by_version)
    where
      by_side :
          (before after : Option (List Extension))
          → (row_of papi live candidate version before after).version ≡ version
      by_side none after = refl
      by_side (some before) none = refl
      by_side (some before) (some after) = refl

  row_versions :
      (vs : List ℕ)
      → map (λ (r : PipelineRow). r.version) (map (row_at papi live candidate) vs) ≡ vs
  row_versions [] = refl
  row_versions (v ∷ vs) = cc (row_at-version v, row_versions vs)

-- The rows stand in strictly ascending order of their versions, and there is a row for a version
-- exactly when one of the two runtimes has a pipeline of that version.
pub diff_pipelines-versions :
    (papi : Papi) (live candidate : UnifiedMetadata papi)
    → IsAscending (map (λ r. r.version) (diff_pipelines papi live candidate).versions)
      × ((v : ℕ)
          → contains eqb (map (λ r. r.version) (diff_pipelines papi live candidate).versions) v ≡ (
              contains eqb (versions_of live.extensions_by_version) v
              || contains eqb (versions_of candidate.extensions_by_version) v))
unfolding diff_pipelines
diff_pipelines-versions papi live candidate = rw (row_versions papi live candidate _) (
  IsAscending-of _ (sort-Distinct _ (unique_from-Distinct [] listed))
      (sort-IsSorted leb leb-order (unique eqb listed)),
  λ v.
      has-sort (unique eqb listed) v
      ∙ (has-unique_from [] listed v ∙ has-append (versions_of live.extensions_by_version) _ v),
)
  where
    listed : List ℕ
    listed = versions_of live.extensions_by_version ++ versions_of candidate.extensions_by_version
