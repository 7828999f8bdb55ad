-- ===== src/RuntimeDiff/Surfaces.antt =====
-- environments/runtime-diff/sdk.ts, `missingSurfaces`: the selectors of the SDK's packages that the
-- candidate does not carry.
use polkadot_pop_e2e.Common.{
  ℕ, String, Bool, true, false, not, ◌&&◌, ◌||◌, Option, none, some, List, [], ◌∷◌, ◌++◌, flat_map,
  if◌then◌else◌, eqb, leb, sort, Object, field, put, or_empty, span, every, is_blank, after_prefix,
}
use polkadot_pop_e2e.RuntimeDiff.Papi.{Papi, Collation}
use polkadot_pop_e2e.RuntimeDiff.Entries.{Kind, kind_of, Ctx, RuntimeCtx}

pub record MissingSurface : Type 0 where
  pub selector : String
  pub packages : List String
  pub also_missing_on_live : Bool

-- `\w`
abbrev pub is_word_char : ℕ → Bool
is_word_char c = leb 48 c && leb c 57 || leb 65 c && leb c 90 || leb 97 c && leb c 122 || eqb c 95

-- A word with the separator behind it, and what follows.
abbrev pub part_before : String → String → Option (String × String)
part_before separator s =
    let (word, behind) = span is_word_char s in
    if is_blank word
    then none
    else elim (after_prefix separator behind) [ none ↦ none | some rest ↦ some (word, rest) ]

-- The match of `^(\w+):(\w+)\.(\w+)$`.
abbrev pub selector_parts : String → Option (String × String × String)
selector_parts selector = elim (part_before ":" selector) [
  | none ↦ none
  | some (prefix, behind) ↦ elim (part_before "." behind) [
    | none ↦ none
    | some (group, name) ↦
        if not (is_blank name) && every is_word_char name then some (prefix, group, name) else none
  ]
]

-- `owners.set(s, [...(owners.get(s) ?? []), pkg])` for the selectors of a package.
abbrev pub add_owner : Object (List String) → String → List String → Object (List String)
add_owner owners pkg [] = owners
add_owner owners pkg (s ∷ selectors) =
    add_owner (put owners s (or_empty (field owners s) ++ (pkg ∷ []))) pkg selectors

abbrev pub owners_from : Object (List String) → Object (List String) → Object (List String)
owners_from owners [] = owners
owners_from owners ((pkg, selectors) ∷ by_sdk) = owners_from (add_owner owners pkg selectors) by_sdk

-- Those that the live runtime has come first, then the order of the selectors.
abbrev pub surface_le : Collation → MissingSurface → MissingSurface → Bool
surface_le collation a b =
    if a.also_missing_on_live
    then b.also_missing_on_live && collation.locale_le a.selector b.selector
    else b.also_missing_on_live || collation.locale_le a.selector b.selector

module _ (papi : Papi) where
  abbrev lacks : Ctx papi → Kind → String → String → Bool
  lacks ctx kind group name = elim (ctx.entry kind group name) [ none ↦ true | some e ↦ false ]

  -- A surface whose group neither runtime has, or that the candidate carries, is left out.
  abbrev pub surface_of :
      RuntimeCtx papi
      → RuntimeCtx papi
      → String
      → List String
      → Kind
      → String
      → String
      → List MissingSurface
  surface_of live candidate selector packages kind group name =
      if (live.has_group kind group || candidate.has_group kind group)
        && lacks candidate.ctx kind group name
      then record {
        selector = selector;
        packages = packages;
        also_missing_on_live = lacks live.ctx kind group name;
      }
        ∷ []
      else []

  abbrev pub missing_surface :
      RuntimeCtx papi → RuntimeCtx papi → String × List String → List MissingSurface
  missing_surface live candidate (selector, packages) = elim (selector_parts selector) [
    | none ↦ []
    | some (prefix, group, name) ↦ elim (kind_of prefix) [
      | none ↦ []
      | some kind ↦ surface_of live candidate selector packages kind group name
    ]
  ]

  unfoldable pub missing_surfaces :
      Collation → Object (List String) → RuntimeCtx papi → RuntimeCtx papi → List MissingSurface
  missing_surfaces collation by_sdk live candidate =
      sort (surface_le collation)
        (flat_map (missing_surface live candidate) (owners_from [] by_sdk))
