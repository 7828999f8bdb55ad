-- ===== src/RuntimeDiff/Extensions/Summary.antt =====
-- extensions.ts: when the summary reads "No change.".
use mathlib.Core.Bool.{false≢true}
use mathlib.Core.List.{append-eq-nil_iff}
use polkadot_pop_e2e.Common.{
  ℕ, String, Bool, true, false, not, ◌&&◌, ◌||◌, ◌≡◌, refl, sym, ap, ◌∙◌, ◌↔◌, arith, Option, none,
  some, List, [], ◌∷◌, map, keep-All, any, includes, All, All-map, All-of, All-false→any,
  All-map_of, All-both, flat_map,
}
use polkadot_pop_e2e.RuntimeDiff.Papi.{CompatibilityLevel, identical, Papi}
use polkadot_pop_e2e.RuntimeDiff.Entries.{is_breaking}
use polkadot_pop_e2e.RuntimeDiff.Extensions.{
  Extension, same, changed, PipelineRow, Moved, ids, without, shared, is_nonempty, UnifiedMetadata,
  empty_in, levels, compare_row, row_of, row_at, rows, pipeline_at, new_or_gone, add_route,
  routes_from, version_part, pipeline_summary, diff_pipelines,
}

-- A changed row says what changed.
abbrev has_reason : PipelineRow → Bool
has_reason r = is_nonempty r.added || is_nonempty r.removed || r.reordered || is_nonempty r.retyped

abbrev HasReason : PipelineRow → Type 0
HasReason r = r.status ≡ changed → has_reason r ≡ true

any-includes_nil :
    (xs : List String) (test : Extension → Bool) (list : List Extension)
    → is_nonempty xs ≡ false
    → any (λ e. includes xs e.identifier && test e) list ≡ false
any-includes_nil [] test list h =
    All-false→any _ list (All-of (λ e. (false && test e) ≡ false) (λ e. refl) list)
any-includes_nil (x ∷ xs) test list h = cc

any_of_empty {ℓ} :
    {A : Type ℓ} (p : A → Bool) (f : A → String) (xs : List A)
    → is_nonempty (map f xs) ≡ false
    → any p xs ≡ false
any_of_empty p f [] h = refl
any_of_empty p f (x ∷ xs) h = cc

module _ (papi : Papi) (live candidate : UnifiedMetadata papi) where
  compare_row-HasReason :
      (version : ℕ) (before after : List Extension)
      → HasReason (compare_row papi live candidate version before after)
  unfolding compare_row
  compare_row-HasReason version before after = ground (
    arith,
    any-includes_nil (without (ids after) (ids before))
        (λ (e : Extension). not (empty_in papi candidate e)) after,
    any-includes_nil (without (ids before) (ids after))
        (λ (e : Extension). not (empty_in papi live e)) before,
    any_of_empty (λ (l : String × CompatibilityLevel). is_breaking papi identical l.1)
        (λ (l : String × CompatibilityLevel). l.0)
        (levels papi live candidate before after (shared (ids before) (ids after))),
  )

  row_of-HasReason :
      (version : ℕ) (before after : Option (List Extension))
      → HasReason (row_of papi live candidate version before after)
  unfolding row_of
  row_of-HasReason version none after = λ e. cc
  row_of-HasReason version (some before) none = λ e. cc
  row_of-HasReason version (some before) (some after) = compare_row-HasReason version before after

  row_at-HasReason : (version : ℕ) → HasReason (row_at papi live candidate version)
  unfolding row_at
  row_at-HasReason version =
      row_of-HasReason version (pipeline_at version live.extensions_by_version)
        (pipeline_at version candidate.extensions_by_version)

  rows-HasReason : All HasReason (rows papi live candidate)
  unfolding rows
  rows-HasReason =
      All-map_of (row_at papi live candidate) HasReason _
        (All-of (λ v. HasReason (row_at papi live candidate v)) row_at-HasReason _)

add_route-cons :
    (routes : List (List ℕ × List ℕ × List String)) (m : Moved)
    → is_nonempty (add_route routes m) ≡ true
unfolding add_route
add_route-cons [] m = refl
add_route-cons ((from, to, list) ∷ rest) m = ground arith

routes_from-cons :
    (routes : List (List ℕ × List ℕ × List String)) (ms : List Moved)
    → is_nonempty routes ≡ true
    → is_nonempty (routes_from routes ms) ≡ true
unfolding routes_from
routes_from-cons routes [] h = h
routes_from-cons routes (m ∷ ms) h =
    routes_from-cons (add_route routes m) ms (add_route-cons routes m)

routes-nil : (ms : List Moved) → routes_from [] ms ≡ [] → ms ≡ []
unfolding routes_from
routes-nil [] h = refl
routes-nil (m ∷ ms) h =
    let more = routes_from-cons (add_route [] m) ms (add_route-cons [] m) in
    absurd (false≢true (ap is_nonempty (sym h) ∙ more))

without-nil : (xs : List String) → without xs [] ≡ xs
without-nil xs = keep-All (λ id. not (includes [] id)) xs (All-of _ (λ id. refl) xs)

version_part-changed :
    (r : PipelineRow)
    → r.status ≡ changed
    → has_reason r ≡ true
    → is_nonempty (version_part [] r) ≡ true
unfolding version_part
version_part-changed r s h = ground (arith, without-nil r.added, without-nil r.removed)

-- What the summary says of one row, where no extension moved.
row_silent :
    (r : PipelineRow) → HasReason r → new_or_gone r ≡ [] → version_part [] r ≡ [] → r.status ≡ same
unfolding new_or_gone
row_silent r reason a b = ground (arith, version_part-changed r, reason)

row_says : (r : PipelineRow) → r.status ≡ same → (new_or_gone r ≡ []) × (version_part [] r ≡ [])
unfolding new_or_gone version_part
row_says r h = ground arith

module _ {A B : Type 0} (f : A → List B) where
  flat_map-nil : (xs : List A) → flat_map f xs ≡ [] → All (λ x. f x ≡ []) xs
  flat_map-nil [] h = tt
  flat_map-nil (x ∷ xs) h = let both = append-eq-nil_iff.0 h in (both.0, flat_map-nil xs both.1)

  flat_map_silent : (xs : List A) → All (λ x. f x ≡ []) xs → flat_map f xs ≡ []
  flat_map_silent [] h = refl
  flat_map_silent (x ∷ xs) h = append-eq-nil_iff.1 (h.0, flat_map_silent xs h.1)

map-nil {ℓ κ} : {A : Type ℓ} {B : Type κ} (f : A → B) (xs : List A) → map f xs ≡ [] → xs ≡ []
map-nil f [] h = refl
map-nil f (x ∷ xs) h = cc

pipeline_summary-nil_iff :
    (rs : List PipelineRow) (moved : List Moved)
    → All HasReason rs
    → (pipeline_summary rs moved ≡ []) ↔ (All (λ r. r.status ≡ same) rs × (moved ≡ []))
unfolding pipeline_summary
pipeline_summary-nil_iff rs moved reasons = (
  λ h.
      let parts = append-eq-nil_iff.0 h in
      let rest = append-eq-nil_iff.0 parts.1 in
      let none_moved = routes-nil moved (map-nil _ _ rest.0) in
      (
        All-map _ (λ r. r.status ≡ same) (λ r f. row_silent r f.0 f.1.0 f.1.1) rs
            (All-both HasReason _ rs reasons (
              All-both _ _ rs (flat_map-nil new_or_gone rs parts.0)
                (flat_map-nil (version_part []) rs (rw none_moved at rest.1)))),
        none_moved,
      ),
  λ (unchanged, none_moved).
      let says =
        All-map _ (λ r. (new_or_gone r ≡ []) × (version_part [] r ≡ [])) row_says rs unchanged in
      append-eq-nil_iff.1 (
        flat_map_silent new_or_gone rs (All-map _ (λ r. new_or_gone r ≡ []) (λ r f. f.0) rs says),
        rw none_moved (
            flat_map_silent (version_part []) rs
              (All-map _ (λ r. version_part [] r ≡ []) (λ r f. f.1) rs says)),
      ),
)

-- The summary of two runtimes has no sentence, and so reads "No change.", exactly when every
-- version of a pipeline counts as the same and no extension moved between versions.
pub diff_pipelines-no_change_iff :
    (papi : Papi) (live candidate : UnifiedMetadata papi)
    → ((diff_pipelines papi live candidate).summary ≡ []) ↔ (
        All (λ r. r.status ≡ same) (diff_pipelines papi live candidate).versions
        × ((diff_pipelines papi live candidate).moved ≡ []))
unfolding diff_pipelines
diff_pipelines-no_change_iff papi live candidate =
    pipeline_summary-nil_iff (rows papi live candidate) _ (rows-HasReason papi live candidate)
