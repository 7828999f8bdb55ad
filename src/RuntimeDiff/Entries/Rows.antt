-- ===== src/RuntimeDiff/Entries/Rows.antt =====
-- entries.ts: which rows `diffEntries` reports, and in which order.
use polkadot_pop_e2e.Common.{
  ◌<◌, true, false, ◌≡◌, refl, ◌≢◌, ◌⊎◌, inl, inr, ◌↔◌, arith, String, Option, none, some, List, [],
  ◌∷◌, All, Any, All-flat_map, Any-flat_map, All-of, All-sort, Any-sort, All-map, IsSorted,
  sort-IsSorted, IsTotalOrder, includes, Bool-cases, Option-cases, All-self, flat_map, Perm,
  sort-perm,
}
use polkadot_pop_e2e.RuntimeDiff.Papi.{incompatible, identical, Papi, Collation}
use polkadot_pop_e2e.RuntimeDiff.Entries.{
  breaking, Kind, storage, tx, events, constants, view_fns, apis, kinds, removed, ChangePath,
  EntryDiff, Ctx, DescriptorCtx, rank, selector_of, sdk_level, row_le, diff_entries, changed_paths,
  paths_between, change_of, graded, row_for, unsorted_rows, both_missing,
}
use polkadot_pop_e2e.RuntimeDiff.Entries.Severities.{severity_of_iff}

module _ (papi : Papi) where
  open papi use {EntryPoint, are_compatible}

  -- The order of the report, without the comparator's arithmetic.
  abbrev pub Precedes : Collation → EntryDiff → EntryDiff → Type 0
  Precedes collation x y =
      (rank x.severity < rank y.severity)
      ⊎ (x.severity ≡ y.severity)
        × (((x.sdk_ref ≡ true) × (y.sdk_ref ≡ false))
            ⊎ (x.sdk_ref ≡ y.sdk_ref) × (collation.locale_le x.selector y.selector ≡ true))

  row_le→Precedes :
      (collation : Collation) (x y : EntryDiff)
      → row_le papi collation x y ≡ true
      → Precedes collation x y
  unfolding row_le
  row_le→Precedes collation x y h = ground arith

  row_le-order : (collation : Collation) → IsTotalOrder (row_le papi collation)
  unfolding row_le
  row_le-order collation = record {
    total = λ x y h. ground (arith, collation.locale_order.total x.selector y.selector);
    trans =
        λ x y z h k. ground (arith, collation.locale_order.trans x.selector y.selector z.selector);
  }

  abbrev pub AllPrecede : Collation → List EntryDiff → Type 0
  AllPrecede collation [] = Unit
  AllPrecede collation (x ∷ xs) = All (Precedes collation x) xs × AllPrecede collation xs

  AllPrecede-of_sorted :
      (collation : Collation) (xs : List EntryDiff)
      → IsSorted (row_le papi collation) xs
      → AllPrecede collation xs
  AllPrecede-of_sorted collation [] h = tt
  AllPrecede-of_sorted collation (x ∷ xs) h = (
    All-map (λ y. row_le papi collation x y ≡ true) (Precedes collation x)
        (row_le→Precedes collation x) xs h.0,
    AllPrecede-of_sorted collation xs h.1,
  )

  -- The two runtimes disagree on an entry: one of them lacks it, or they are not identical in it.
  abbrev pub Differs : Option EntryPoint → Ctx papi → Option EntryPoint → Ctx papi → Type 0
  Differs none live none candidate = ⊥
  Differs none live (some b) candidate = Unit
  Differs (some a) live none candidate = Unit
  Differs (some a) live (some b) candidate = ¬ (
      ((are_compatible a live.node b candidate.node true).args.level ≡ identical)
      × ((are_compatible a live.node b candidate.node true).values.level ≡ identical))

  module _ (sdk : DescriptorCtx papi) (live candidate : Ctx papi) (sdk_refs : List String) where
    -- What a row says of the entry (kind, group, name) of the descriptor.
    pub record Describes (kind : Kind) (group name : String) (row : EntryDiff) : Type 0 where
      pub sdk_entry : EntryPoint
      pub listed : Any (λ n. n ≡ (group, name)) (sdk.names kind)
      pub found : sdk.ctx.entry kind group name ≡ some sdk_entry
      pub differs :
          Differs (live.entry kind group name) live (candidate.entry kind group name) candidate
      pub selector : row.selector ≡ selector_of kind group name
      pub sdk_ref : row.sdk_ref ≡ includes sdk_refs (selector_of kind group name)
      pub removed_iff : (row.change ≡ removed) ↔ (candidate.entry kind group name ≡ none)
      pub breaking_iff : (row.severity ≡ breaking) ↔ (
          (row.sdk_ref ≡ true)
          × (sdk_level papi kind sdk.ctx sdk_entry candidate group name ≡ incompatible)
          × (sdk_level papi kind sdk.ctx sdk_entry live group name ≢ incompatible))

    abbrev pub IsReported : EntryDiff → Type 0
    IsReported row =
        (kind : Kind) × (group : String) × (name : String) × Describes kind group name row

    graded-Describes :
        (kind : Kind) (group name : String) (e : EntryPoint) (ps : List ChangePath)
        → Any (λ m. m ≡ (group, name)) (sdk.names kind)
        → sdk.ctx.entry kind group name ≡ some e
        → Differs (live.entry kind group name) live (candidate.entry kind group name) candidate
        → Describes kind group name (graded papi sdk live candidate sdk_refs kind group name e ps)
    unfolding graded change_of
    graded-Describes kind group name e ps m found differs = record {
      sdk_entry = e;
      listed = m;
      found = found;
      differs = differs;
      selector = refl;
      sdk_ref = refl;
      removed_iff = ground arith;
      breaking_iff = (severity_of_iff papi _ _ _).0;
    }

    paths_between-Differs :
        (a b : Option EntryPoint) {ps : List ChangePath}
        → both_missing papi a b ≡ false
        → paths_between papi a live b candidate ≡ some ps
        → Differs a live b candidate
    unfolding paths_between changed_paths
    paths_between-Differs none none h k = cc
    paths_between-Differs none (some b) h k = tt
    paths_between-Differs (some a) none h k = tt
    paths_between-Differs (some a) (some b) h k = λ same. ground (arith, same)

    row_for_sound :
        (kind : Kind) (n : String × String)
        → Any (λ m. m ≡ n) (sdk.names kind)
        → All IsReported (row_for papi sdk live candidate sdk_refs kind n)
    unfolding row_for
    row_for_sound kind (group, name) m = elim (Option-cases (sdk.ctx.entry kind group name)) [
      | inl absent ↦ rw (absent, row_for) tt
      | inr (e, found) ↦
          let a = live.entry kind group name in
          let b = candidate.entry kind group name in
          elim (Bool-cases (both_missing papi a b)) [
            | inl missing ↦ rw (found, row_for) (rw missing tt)
            | inr present ↦ elim (Option-cases (paths_between papi a live b candidate)) [
              | inl same ↦ rw (found, row_for) (rw (present, same, row_for) tt)
              | inr (ps, differ) ↦
                  rw (found, row_for)
                    (rw (present, differ, row_for)
                      (
                        (
                          kind,
                          group,
                          name,
                          graded-Describes kind group name e ps m found
                              (paths_between-Differs a b present differ),
                        ),
                        tt,
                      ))
            ]
          ]
    ]

    unsorted_rows_sound : All IsReported (unsorted_rows papi sdk live candidate sdk_refs)
    unfolding unsorted_rows
    unsorted_rows_sound =
        All-flat_map (λ (kind : Kind). Unit {0}) IsReported _
          (λ kind _.
            All-flat_map (λ n. Any (λ m. m ≡ n) (sdk.names kind)) IsReported _ (row_for_sound kind)
              (sdk.names kind) (All-self (sdk.names kind)))
          kinds (All-of (λ (kind : Kind). Unit {0}) (λ kind. tt) kinds)

    paths_between-some :
        (a b : Option EntryPoint)
        → Differs a live b candidate
        → (both_missing papi a b ≡ false)
          × ((ps : List ChangePath) × (paths_between papi a live b candidate ≡ some ps))
    unfolding paths_between changed_paths
    paths_between-some none none d = absurd d
    paths_between-some none (some b) d = (refl, ([], refl))
    paths_between-some (some a) none d = (refl, ([], refl))
    paths_between-some (some a) (some b) d = (
      refl,
      elim (Option-cases (changed_paths papi a live b candidate)) [
        | inl same ↦ absurd (d (ground arith, ground arith))
        | inr (ps, e) ↦ (ps, e)
      ],
    )

    mem-kinds : (kind : Kind) → Any (λ k. k ≡ kind) kinds
    mem-kinds storage = inl refl
    mem-kinds tx = inr (inl refl)
    mem-kinds events = inr (inr (inl refl))
    mem-kinds constants = inr (inr (inr (inl refl)))
    mem-kinds view_fns = inr (inr (inr (inr (inl refl))))
    mem-kinds apis = inr (inr (inr (inr (inr (inl refl)))))

    row_for_complete :
        (kind : Kind) (group name : String) (e : EntryPoint)
        → Any (λ n. n ≡ (group, name)) (sdk.names kind)
        → sdk.ctx.entry kind group name ≡ some e
        → Differs (live.entry kind group name) live (candidate.entry kind group name) candidate
        → Any
            (Describes kind group name)
            (row_for papi sdk live candidate sdk_refs kind (group, name))
    unfolding row_for
    row_for_complete kind group name e m found differs =
        let a = live.entry kind group name in
        let b = candidate.entry kind group name in
        let (present, (ps, differ)) = paths_between-some a b differs in
        rw (found, row_for)
          (rw (present, differ, row_for)
            (inl (graded-Describes kind group name e ps m found differs)))

    unsorted_rows_complete :
        (kind : Kind) (group name : String) (e : EntryPoint)
        → Any (λ n. n ≡ (group, name)) (sdk.names kind)
        → sdk.ctx.entry kind group name ≡ some e
        → Differs (live.entry kind group name) live (candidate.entry kind group name) candidate
        → Any (Describes kind group name) (unsorted_rows papi sdk live candidate sdk_refs)
    unfolding unsorted_rows
    unsorted_rows_complete kind group name e m found differs =
        let rows = row_for papi sdk live candidate sdk_refs in
        Any-flat_map (λ k. k ≡ kind) (Describes kind group name)
          (λ k. flat_map (rows k) (sdk.names k))
          (λ k same. rw same (
            Any-flat_map (λ n. n ≡ (group, name)) (Describes kind group name) (rows kind)
              (λ n named. rw named (row_for_complete kind group name e m found differs))
              (sdk.names kind) m))
          kinds (mem-kinds kind)

    -- Every row of the report describes an entry that the descriptor lists and the two runtimes
    -- disagree on: it is marked as removed exactly when the candidate lacks the entry, and graded
    -- breaking exactly when the SDK's code reads it and the candidate alone is incompatible.
    pub diff_entries_sound :
        (collation : Collation)
        → All IsReported (diff_entries papi collation sdk live candidate sdk_refs)
    unfolding diff_entries
    diff_entries_sound collation = All-sort (row_le papi collation) IsReported _ unsorted_rows_sound

    -- Every entry that the descriptor lists and has, and that the two runtimes disagree on, has a
    -- row of the report that describes it.
    pub diff_entries_complete :
        (collation : Collation) (kind : Kind) (group name : String) (e : EntryPoint)
        → Any (λ n. n ≡ (group, name)) (sdk.names kind)
        → sdk.ctx.entry kind group name ≡ some e
        → Differs (live.entry kind group name) live (candidate.entry kind group name) candidate
        → Any (Describes kind group name) (diff_entries papi collation sdk live candidate sdk_refs)
    unfolding diff_entries
    diff_entries_complete collation kind group name e m found differs =
        Any-sort (row_le papi collation) (Describes kind group name) _
          (unsorted_rows_complete kind group name e m found differs)

    -- The report puts every row before the rows that it precedes: by severity, then with what the
    -- SDK's code reads first, then by selector. It holds the rows found, each as often as found.
    pub diff_entries-order :
        (collation : Collation)
        → AllPrecede collation (diff_entries papi collation sdk live candidate sdk_refs)
          × Perm
              (diff_entries papi collation sdk live candidate sdk_refs)
              (unsorted_rows papi sdk live candidate sdk_refs)
    unfolding diff_entries
    diff_entries-order collation = (
      AllPrecede-of_sorted collation _ (
          sort-IsSorted (row_le papi collation) (row_le-order collation)
            (unsorted_rows papi sdk live candidate sdk_refs)),
      sort-perm (row_le papi collation) _,
    )
