-- ===== src/RuntimeDiff/Views/Entries.antt =====
-- entries.ts, `runtimeCtx`: the entries that a runtime has, by the parts of its metadata.
use polkadot_pop_e2e.Common.{
  ◌≡◌, ◌↔◌, ◌⊎◌, refl, ap, ◌∙◌, String, none, some, List, [], ◌∷◌, ◌==◌, map, All, Bool-cases,
  Option-cases, inl, inr, eq_iff, some_injective,
}
use polkadot_pop_e2e.RuntimeDiff.Papi.{Papi}
use polkadot_pop_e2e.RuntimeDiff.Entries.{Kind, storage, tx, events, constants, view_fns, apis}
use polkadot_pop_e2e.RuntimeDiff.Views.{
  get, get_in, Shapes, Pallet, RuntimeMetadata, pallet_entries, runtime_ctx, variants, or_empty,
}

-- The last element with `P`.
abbrev pub LastWith : {A : Type 0} → (A → Type 0) → List A → A → Type 0
LastWith P [] a = ⊥
LastWith P (x ∷ xs) a = LastWith P xs a ⊎ ((x ≡ a) × P x × All (λ y. ¬ P y) xs)

module _ {A B : Type 0} (pair : A → String × B) (key : String) where
  abbrev IsNamed : A → Type 0
  IsNamed a = (pair a).0 ≡ key

  get-absent : (xs : List A) → get (map pair xs) key ≡ none → All (λ x. ¬ IsNamed x) xs
  get-absent [] h = tt
  get-absent (x ∷ xs) h = elim (Option-cases (get (map pair xs) key)) [
    | inr (b, e) ↦ let no : some b ≡ none = rw e at h in absurd (cc)
    | inl e ↦ elim (Bool-cases ((pair x).0 == key)) [
      | inl same ↦ let no : some (pair x).1 ≡ none = rw (e, same) at h in absurd (cc)
      | inr differs ↦
          (λ named. let same = (eq_iff (pair x).0 key).1 named in absurd (cc), get-absent xs e)
    ]
  ]

  get-none : (xs : List A) → All (λ x. ¬ IsNamed x) xs → get (map pair xs) key ≡ none
  get-none [] h = refl
  get-none (x ∷ xs) (other, h) = elim (Bool-cases ((pair x).0 == key)) [
    | inl same ↦ absurd (other ((eq_iff (pair x).0 key).0 same))
    | inr differs ↦ let rest = get-none xs h in rw (rest, differs) refl
  ]

  get_sound :
      (xs : List A) (b : B)
      → get (map pair xs) key ≡ some b
      → (a : A) × LastWith IsNamed xs a × ((pair a).1 ≡ b)
  get_sound [] b h = cc
  get_sound (x ∷ xs) b h = elim (Option-cases (get (map pair xs) key)) [
    | inr (c, e) ↦
        let same : some c ≡ some b = rw e at h in
        let (a, last, is) = get_sound xs b (e ∙ same) in (a, inl last, is)
    | inl e ↦ elim (Bool-cases ((pair x).0 == key)) [
      | inl named ↦
          let same : some (pair x).1 ≡ some b = rw (e, named) at h in
          (x, inr (refl, (eq_iff (pair x).0 key).0 named, get-absent xs e), some_injective same)
      | inr differs ↦ let no : none ≡ some b = rw (e, differs) at h in absurd (cc)
    ]
  ]

  get_complete :
      (xs : List A) (a : A) → LastWith IsNamed xs a → get (map pair xs) key ≡ some (pair a).1
  get_complete [] a h = absurd h
  get_complete (x ∷ xs) a (inl last) = let rest = get_complete xs a last in rw rest refl
  get_complete (x ∷ xs) a (inr (same, named, others)) =
      let rest = get-none xs others in
      let here = (eq_iff (pair x).0 key).1 named in rw (rest, here) (ap (λ y. some (pair y).1) same)

  get_iff :
      (xs : List A) (b : B)
      → (get (map pair xs) key ≡ some b) ↔ ((a : A) × LastWith IsNamed xs a × ((pair a).1 ≡ b))
  get_iff xs b = (get_sound xs b, λ (a, last, is). get_complete xs a last ∙ ap some is)

module _ (papi : Papi) (shapes : Shapes papi) where
  -- A part of a pallet, the last of its name, with the entry made of it.
  abbrev Makes :
      {A : Type 0} → (A → papi.EntryPoint) → List (String × A) → String → papi.EntryPoint → Type 0
  Makes {A} f parts name e =
      (part : String × A) × LastWith (λ p. p.0 ≡ name) parts part × (f part.1 ≡ e)

  -- The entry of a kind that a pallet has under a name.
  abbrev pub HasEntry : Kind → Pallet papi shapes → String → papi.EntryPoint → Type 0
  HasEntry storage p name e =
      Makes shapes.storage_entry (or_empty papi shapes p.storage_items) name e
  HasEntry tx p name e =
      Makes (λ v. shapes.entry_of (shapes.enum_value_node v) shapes.void_node)
        (variants papi shapes p.calls) name e
  HasEntry events p name e =
      Makes (λ v. shapes.entry_of shapes.void_node (shapes.enum_value_node v))
        (variants papi shapes p.event_type) name e
  HasEntry constants p name e = Makes shapes.single_value_entry p.constant_types name e
  HasEntry view_fns p name e =
      Makes shapes.runtime_call_entry (or_empty papi shapes p.view_methods) name e
  HasEntry apis p name e = ⊥

  -- The entry of a kind in a group: of the last pallet, or of the last API, of that name.
  abbrev pub IsEntry :
      RuntimeMetadata papi shapes → Kind → String → String → papi.EntryPoint → Type 0
  IsEntry metadata apis group name e =
      (api : String × List (String × shapes.Method)) × LastWith (λ a. a.0 ≡ group)
        metadata.api_methods api
      × Makes shapes.runtime_call_entry api.1 name e
  IsEntry metadata kind group name e =
      (p : Pallet papi shapes) × LastWith (λ p. p.name ≡ group) metadata.pallets p
      × HasEntry kind p name e

  pallet_entries-HasEntry :
      (kind : Kind) (p : Pallet papi shapes) (name : String) (e : papi.EntryPoint)
      → (get (pallet_entries papi shapes kind p) name ≡ some e) ↔ HasEntry kind p name e
  pallet_entries-HasEntry storage p name e = get_iff (λ x. (x.0, shapes.storage_entry x.1)) name _ e
  pallet_entries-HasEntry tx p name e =
      get_iff (λ x. (x.0, shapes.entry_of (shapes.enum_value_node x.1) shapes.void_node)) name _ e
  pallet_entries-HasEntry events p name e =
      get_iff (λ x. (x.0, shapes.entry_of shapes.void_node (shapes.enum_value_node x.1))) name _ e
  pallet_entries-HasEntry constants p name e =
      get_iff (λ x. (x.0, shapes.single_value_entry x.1)) name _ e
  pallet_entries-HasEntry view_fns p name e =
      get_iff (λ x. (x.0, shapes.runtime_call_entry x.1)) name _ e
  pallet_entries-HasEntry apis p name e = (λ h. cc, λ h. absurd h)

  in_group :
      {A : Type 0} (pair : A → String × List (String × papi.EntryPoint)) (H : A → Type 0)
      (group name : String) (e : papi.EntryPoint)
      → ((a : A) → (get (pair a).1 name ≡ some e) ↔ H a)
      → (xs : List A)
      → (get_in papi shapes (get (map pair xs) group) name ≡ some e)
        ↔ ((a : A) × LastWith (λ a. (pair a).0 ≡ group) xs a × H a)
  in_group pair H group name e each xs = (
    λ h. elim (Option-cases (get (map pair xs) group)) [
      | inl n ↦ let no : none ≡ some e = rw n at h in absurd (cc)
      | inr (entries, n) ↦
          let here : get entries name ≡ some e = rw n at h in
          let (a, last, is) = get_sound pair group xs entries n in
          (a, last, (each a).0 (ap (λ l. get l name) is ∙ here))
    ],
    λ (a, last, has). let found = get_complete pair group xs a last in rw found ((each a).1 has),
  )

  -- A runtime has an entry exactly if the last pallet of the group's name has it, made by the
  -- package's function for the kind of the part, of the last part of the entry's name: a storage
  -- item, a variant of the calls or of the events, a constant or a view function; for the kind of
  -- APIs, if the last API of the group's name has a method of that name.
  pub runtime_ctx-IsEntry :
      (metadata : RuntimeMetadata papi shapes) (kind : Kind) (group name : String)
      (e : papi.EntryPoint)
      → ((runtime_ctx papi shapes metadata).ctx.entry kind group name ≡ some e)
        ↔ IsEntry metadata kind group name e
  unfolding runtime_ctx
  runtime_ctx-IsEntry metadata storage group name e =
      in_group _ (λ p. HasEntry storage p name e) group name e
        (λ p. pallet_entries-HasEntry storage p name e) metadata.pallets
  runtime_ctx-IsEntry metadata tx group name e =
      in_group _ (λ p. HasEntry tx p name e) group name e (λ p. pallet_entries-HasEntry tx p name e)
        metadata.pallets
  runtime_ctx-IsEntry metadata events group name e =
      in_group _ (λ p. HasEntry events p name e) group name e
        (λ p. pallet_entries-HasEntry events p name e) metadata.pallets
  runtime_ctx-IsEntry metadata constants group name e =
      in_group _ (λ p. HasEntry constants p name e) group name e
        (λ p. pallet_entries-HasEntry constants p name e) metadata.pallets
  runtime_ctx-IsEntry metadata view_fns group name e =
      in_group _ (λ p. HasEntry view_fns p name e) group name e
        (λ p. pallet_entries-HasEntry view_fns p name e) metadata.pallets
  runtime_ctx-IsEntry metadata apis group name e =
      in_group _ (λ a. Makes shapes.runtime_call_entry a.1 name e) group name e
        (λ a. get_iff (λ x. (x.0, shapes.runtime_call_entry x.1)) name a.1 e) metadata.api_methods
