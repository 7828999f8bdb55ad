-- ===== src/RuntimeDiff/Extensions/Pipelines.antt =====
-- extensions.ts: when a pipeline counts as the same, and when its change is breaking.
use polkadot_pop_e2e.Common.{
  ℕ, String, Bool, true, false, not, ◌&&◌, ◌≡◌, refl, sym, ◌∙◌, ◌≢◌, ◌↔◌, arith, List, [], ◌∷◌, map,
  any, includes, All, All-map, All-of_keep, All-keep_of, All-map_of, All-of_map, keep-All,
  keep_none, keep-nil→All, any-false→All, All-false→any, includes_self, includes-keep, All-both,
}
use mathlib.Core.Bool.{false≢true}
use polkadot_pop_e2e.RuntimeDiff.Papi.{CompatibilityLevel, incompatible, identical, Papi}
use polkadot_pop_e2e.RuntimeDiff.Entries.{same_level, is_breaking}
use polkadot_pop_e2e.RuntimeDiff.Extensions.{
  Extension, same, ids, without, shared, is_nonempty, UnifiedMetadata, empty_in, type_level,
  counterpart, levels, compare_row,
}
use polkadot_pop_e2e.RuntimeDiff.Extensions.Joined.{IsPlain, is_reordered_iff}

is_nonempty-false {ℓ} : {A : Type ℓ} (xs : List A) → is_nonempty xs ≡ false → xs ≡ []
is_nonempty-false [] h = refl
is_nonempty-false (x ∷ xs) h = cc

without-nil→shared : (a b : List String) → without a b ≡ [] → shared a b ≡ a
without-nil→shared a b e =
    keep-All (λ id. includes b id) a
      (All-map (λ id. not (includes b id) ≡ false) (λ id. includes b id ≡ true)
        (λ id h. ground arith) a (keep-nil→All (λ id. not (includes b id)) a e))

shared_self : (a : List String) → shared a a ≡ a
shared_self a = keep-All (λ id. includes a id) a (includes_self a)

without_self : (a : List String) → without a a ≡ []
without_self a =
    keep_none (λ id. not (includes a id)) a
      (All-map (λ id. includes a id ≡ true) (λ id. not (includes a id) ≡ false)
        (λ id h. ground arith) a (includes_self a))

same_level-eq : (a b : CompatibilityLevel) → (same_level a b ≡ true) ↔ (a ≡ b)
same_level-eq incompatible b = ground arith
same_level-eq a b = ground arith

module _ (papi : Papi) (live candidate : UnifiedMetadata papi) where
  abbrev pub level_of : List Extension → Extension → CompatibilityLevel
  level_of after e = type_level papi live candidate e (counterpart after e)

  -- A test on the levels found is a test on the common extensions that are not identical.
  levels-All :
      (P : CompatibilityLevel → Type 0) (before after : List Extension) (common : List String)
      → All (λ l. P l.1) (levels papi live candidate before after common)
        ↔ All
            (λ e.
              includes common e.identifier ≡ true
              → level_of after e ≢ identical
              → P (level_of after e))
            before
  unfolding levels
  levels-All P before after common = (
    λ h.
        All-map
          (λ e.
            includes common e.identifier ≡ true
            → not_identical (pair e) ≡ true
            → P (level_of after e))
          _ (λ e f c d. f c (not_identical-of _ d)) before
          (All-of_keep (λ e. includes common e.identifier) _ before
            (All-of_map pair (λ l. not_identical l ≡ true → P l.1) _
              (All-of_keep not_identical (λ l. P l.1) _ h))),
    λ h.
        All-keep_of not_identical (λ l. P l.1) _
          (All-map_of pair (λ l. not_identical l ≡ true → P l.1) _
            (All-keep_of (λ e. includes common e.identifier) _ before
              (All-map _
                (λ e.
                  includes common e.identifier ≡ true
                  → not_identical (pair e) ≡ true
                  → P (level_of after e))
                (λ e f c d. f c (not_identical→ne _ d)) before h))),
  )
    where
      pair : Extension → String × CompatibilityLevel
      pair e = (e.identifier, level_of after e)

      not_identical : String × CompatibilityLevel → Bool
      not_identical l = not (same_level l.1 identical)

      not_identical-of :
          (l : CompatibilityLevel) → l ≢ identical → not (same_level l identical) ≡ true
      not_identical-of l d = ground (arith, d, same_level-eq l identical)

      not_identical→ne :
          (l : CompatibilityLevel) → not (same_level l identical) ≡ true → l ≢ identical
      not_identical→ne l d = ground (arith, same_level-eq l identical)

  ids-listed : (list : List Extension) → All (λ e. includes (ids list) e.identifier ≡ true) list
  ids-listed list =
      All-of_map (λ (e : Extension). e.identifier) (λ id. includes (ids list) id ≡ true) list
        (includes_self (ids list))

  -- The test of an added or removed extension, over the list that has it.
  lone_iff :
      (meta : UnifiedMetadata papi) (list : List Extension) (others : List String)
      → (any
            (λ e. includes (without (ids list) others) e.identifier && not (empty_in papi meta e))
            list
          ≡ false)
        ↔ All (λ e. includes others e.identifier ≡ false → empty_in papi meta e ≡ true) list
  lone_iff meta list others = (
    λ h.
        All-map _ (λ e. includes others e.identifier ≡ false → empty_in papi meta e ≡ true)
          (λ e f absent. ground (
            arith,
            f.0,
            f.1,
            includes-keep (λ id. not (includes others id)) (ids list) e.identifier,
          ))
          list
          (All-both (λ e. includes (ids list) e.identifier ≡ true) _ list (ids-listed list)
            (any-false→All lone list h)),
    λ h. All-false→any lone list (
        All-map _ (λ e. lone e ≡ false)
          (λ e f. ground (
            arith,
            f.0,
            f.1,
            includes-keep (λ id. not (includes others id)) (ids list) e.identifier,
          ))
          list
          (All-both (λ e. includes (ids list) e.identifier ≡ true) _ list (ids-listed list) h)),
  )
    where
      lone : Extension → Bool
      lone e = includes (without (ids list) others) e.identifier && not (empty_in papi meta e)

  breaking_level_iff :
      (l : CompatibilityLevel)
      → (is_breaking papi identical l ≡ false)
        ↔ ((l ≢ incompatible) × (l ≢ CompatibilityLevel.partial))
  unfolding is_breaking
  breaking_level_iff incompatible =
      ground (
        arith, papi.incompatible-lt-partial, papi.partial-lt-backwards, papi.backwards-lt-identical,
      )
  breaking_level_iff l =
      ground (
        arith, papi.incompatible-lt-partial, papi.partial-lt-backwards, papi.backwards-lt-identical,
      )

  -- What keeps a signer built for the live pipeline valid on the candidate's.
  pub record IsCompatible (before after : List Extension) : Type 0 where
    pub added_empty :
        All
          (λ e. includes (ids before) e.identifier ≡ false → empty_in papi candidate e ≡ true)
          after
    pub removed_empty :
        All (λ e. includes (ids after) e.identifier ≡ false → empty_in papi live e ≡ true) before
    pub in_order : shared (ids before) (ids after) ≡ shared (ids after) (ids before)
    pub types_accepted :
        All
          (λ e.
            includes (ids after) e.identifier ≡ true
            → (level_of after e ≢ incompatible) × (level_of after e ≢ CompatibilityLevel.partial))
          before

  accepted_iff :
      (l : CompatibilityLevel)
      → (l ≢ identical → is_breaking papi identical l ≡ false)
        ↔ ((l ≢ incompatible) × (l ≢ CompatibilityLevel.partial))
  accepted_iff identical = ((λ h. ((λ e. cc), λ e. cc)), λ h n. absurd (n refl))
  accepted_iff incompatible = (
    (λ h. (breaking_level_iff incompatible).0 (h (λ e. cc))),
    λ h n. (breaking_level_iff incompatible).1 h,
  )
  accepted_iff l =
      ((λ h. (breaking_level_iff _).0 (h (λ e. cc))), λ h n. (breaking_level_iff _).1 h)

  -- Both sides list every extension that the test of types looks at.
  common_of :
      (before after : List Extension) (e : Extension)
      → includes (ids before) e.identifier ≡ true
      → includes (shared (ids before) (ids after)) e.identifier ≡ includes (ids after) e.identifier
  common_of before after e h =
      ground (arith, includes-keep (λ id. includes (ids after) id) (ids before) e.identifier)

  types_iff :
      (before after : List Extension)
      → (any
            (λ l. is_breaking papi identical l.1)
            (levels papi live candidate before after (shared (ids before) (ids after)))
          ≡ false)
        ↔ All
            (λ e.
              includes (ids after) e.identifier ≡ true
              → (level_of after e ≢ incompatible) × (level_of after e ≢ CompatibilityLevel.partial))
            before
  types_iff before after = (
    λ h.
        All-map _ accepted
          (λ e f c. (accepted_iff (level_of after e)).0 (f.1 (common_of before after e f.0 ∙ c)))
          before
          (All-both _ tested before (ids-listed before)
            ((levels-All no_break before after common).0 (any-false→All breaks found h))),
    λ h. All-false→any breaks found (
        (levels-All no_break before after common).1 (
          All-map _ tested
            (λ e f c.
              (accepted_iff (level_of after e)).1 (f.1 (sym (common_of before after e f.0) ∙ c)))
            before (All-both _ accepted before (ids-listed before) h))),
  )
    where
      common : List String
      common = shared (ids before) (ids after)

      found : List (String × CompatibilityLevel)
      found = levels papi live candidate before after common

      breaks : String × CompatibilityLevel → Bool
      breaks l = is_breaking papi identical l.1

      no_break : CompatibilityLevel → Type 0
      no_break l = is_breaking papi identical l ≡ false

      accepted : Extension → Type 0
      accepted e =
          includes (ids after) e.identifier ≡ true
          → (level_of after e ≢ incompatible) × (level_of after e ≢ CompatibilityLevel.partial)

      tested : Extension → Type 0
      tested e =
          includes common e.identifier ≡ true
          → level_of after e ≢ identical
          → no_break (level_of after e)

  -- Between two versions of a pipeline whose identifiers are not empty and have no comma, the
  -- change is not breaking exactly when every added and every removed extension is empty, the
  -- common ones keep their order, and none changes its type below backwards compatible.
  pub compare_row-breaking_iff :
      (version : ℕ) (before after : List Extension)
      → All IsPlain (ids before)
      → All IsPlain (ids after)
      → ((compare_row papi live candidate version before after).breaking ≡ false)
        ↔ IsCompatible before after
  unfolding compare_row
  compare_row-breaking_iff version before after h k =
      let added = lone_iff candidate after (ids before) in
      let removed = lone_iff live before (ids after) in
      let order = is_reordered_iff (ids before) (ids after) h k in
      let types = types_iff before after in
      (
        (λ e. record {
          added_empty = added.0 (ground arith);
          removed_empty = removed.0 (ground arith);
          in_order = order.0 (ground arith);
          types_accepted = types.0 (ground arith);
        }),
        λ c. ground (
          arith,
          added.1 c.added_empty,
          removed.1 c.removed_empty,
          order.1 c.in_order,
          types.1 c.types_accepted,
        ),
      )

  identical-of : (l : CompatibilityLevel) → ¬ (l ≢ identical) → l ≡ identical
  identical-of identical h = refl
  identical-of incompatible h = absurd (h (λ e. cc))
  identical-of l h = absurd (h (λ e. cc))

  levels-nil_iff :
      (before after : List Extension)
      → ids before ≡ ids after
      → (levels papi live candidate before after (shared (ids before) (ids after)) ≡ [])
        ↔ All (λ e. level_of after e ≡ identical) before
  levels-nil_iff before after e = (
    λ h.
        All-map _ (λ x. level_of after x ≡ identical)
          (λ x f. identical-of _ (λ n. f.1 (listed x f.0) n)) before
          (All-both _ _ before (ids-listed before)
            ((levels-All (λ l. ⊥) before after _).0 (rw h tt))),
    λ h. All-⊥ _ (
        (levels-All (λ l. ⊥) before after _).1
          (All-map (λ x. level_of after x ≡ identical) _ (λ x same c n. n same) before h)),
  )
    where
      listed :
          (x : Extension)
          → includes (ids before) x.identifier ≡ true
          → includes (shared (ids before) (ids after)) x.identifier ≡ true
      listed x h = common_of before after x h ∙ rw (← e) h

      All-⊥ : {A : Type 0} (xs : List A) → All (λ x. ⊥) xs → xs ≡ []
      All-⊥ [] h = refl
      All-⊥ (x ∷ xs) h = absurd h.0

  equal-IsCompatible :
      (before after : List Extension)
      → ids before ≡ ids after
      → All (λ e. level_of after e ≡ identical) before
      → IsCompatible before after
  equal-IsCompatible before after e h = record {
    added_empty =
        All-map (λ x. includes (ids after) x.identifier ≡ true) _
          (λ x c absent. absurd (false≢true (sym absent ∙ rw e c))) after (ids-listed after);
    removed_empty =
        All-map (λ x. includes (ids before) x.identifier ≡ true) _
          (λ x c absent. absurd (false≢true (sym absent ∙ rw (← e) c))) before (ids-listed before);
    in_order = rw e refl;
    types_accepted =
        All-map (λ x. level_of after x ≡ identical) _ (λ x same c. rw same ((λ d. cc), λ d. cc))
          before h;
  }

  -- Two versions of a pipeline with such identifiers count as the same exactly when they list the
  -- same identifiers in the same order and every extension has an identical type.
  pub compare_row-same_iff :
      (version : ℕ) (before after : List Extension)
      → All IsPlain (ids before)
      → All IsPlain (ids after)
      → ((compare_row papi live candidate version before after).status ≡ same)
        ↔ ((ids before ≡ ids after) × All (λ e. level_of after e ≡ identical) before)
  unfolding compare_row
  compare_row-same_iff version before after h k = (
    λ s.
        let none_added : without (ids after) (ids before) ≡ [] =
          is_nonempty-false _ (ground arith) in
        let none_removed : without (ids before) (ids after) ≡ [] =
          is_nonempty-false _ (ground arith) in
        let in_order = (is_reordered_iff (ids before) (ids after) h k).0 (ground arith) in
        let same_ids : ids before ≡ ids after =
          sym (without-nil→shared _ _ none_removed)
          ∙ (in_order ∙ without-nil→shared _ _ none_added) in
        let none_retyped = is_nonempty-false _ (ground arith) in
        (same_ids, (levels-nil_iff before after same_ids).0 (map-nil _ none_retyped)),
    λ (same_ids, identical_types). ground (
      arith,
      (compare_row-breaking_iff version before after h k).1
          (equal-IsCompatible before after same_ids identical_types),
      (levels-nil_iff before after same_ids).1 identical_types,
      without_equal (ids before) (ids after) same_ids,
      without_equal (ids after) (ids before) (sym same_ids),
    ),
  )
    where
      without_equal : (a b : List String) → a ≡ b → without a b ≡ []
      without_equal a b e = rw e (without_self b)

      map-nil : (xs : List (String × CompatibilityLevel)) → map (λ l. l.0) xs ≡ [] → xs ≡ []
      map-nil [] h = refl
      map-nil (x ∷ xs) h = cc
