-- ===== src/ReleaseGate/Overlay/Merged.antt =====
-- release-map.mjs, `mergeTarget`: the keys of the merged manifest, and the pin of each.
use mathlib.Core.Path.{subst}
use mathlib.Core.List.{append-nil, append_assoc}
use polkadot_pop_e2e.Common.{
  Bool, false, List, ◌++◌, ◌&&◌, ◌||◌, sym, All, All-append, includes, inherited_keys,
  has_or_inherits, some_injective, ◌≡◌, refl, ap, ◌∙◌, inl, inr, arith, String, true, not, Option,
  none, some, [], ◌∷◌, ◌==◌, if◌then◌else◌, ok, require-eq-ok, bind-eq-ok, err-ne-ok, Object, field,
  has_key, keys, put, or_empty, is_set, Bool-cases, Option-cases, eq_iff, field-put,
}
use polkadot_pop_e2e.ReleaseGate.Pins.{ChainPin, Manifest}
use polkadot_pop_e2e.ReleaseGate.Overlay.{
  no_pin, own_or_empty, entry_of, Target, merge_binaries, merge_chains, merge_services,
  merge_target, or_else, patched, absent_slot, patches_binary,
}

-- The last value of a key.
abbrev pub latest : Object String → String → Option String
latest [] key = none
latest ((k, pin) ∷ rest) key = or_else (latest rest key) (if k == key then some pin else none)

-- The entry of a chain with the patches of that chain, one after the other.
abbrev pub with_patches : Object ChainPin → String → ChainPin → ChainPin
with_patches [] chain entry = entry
with_patches ((key, patch) ∷ rest) chain entry =
    with_patches rest chain (if key == chain then patched entry patch else entry)

abbrev pub on_entry : (ChainPin → ChainPin) → Option ChainPin → Option ChainPin
on_entry f none = none
on_entry f (some entry) = some (f entry)

on_same : (o : Option ChainPin) → o ≡ on_entry (λ entry. entry) o
on_same none = refl
on_same (some entry) = refl

-- The keys after are those before and, behind them, names that every object inherits.
abbrev pub Widens : List String → List String → Type 0
Widens before after =
    (extra : List String) × (after ≡ before ++ extra)
    × All (λ key. includes inherited_keys key ≡ true) extra

Widens-refl : (names : List String) → Widens names names
Widens-refl names = ([], sym (append-nil names), tt)

Widens-trans : (a b c : List String) → Widens a b → Widens b c → Widens a c
Widens-trans a b c (first, e, h) (second, f, k) = (
  first ++ second,
  f ∙ ap (λ l. l ++ second) e ∙ append_assoc a first second,
  All-append _ first second h k,
)

put-Widens :
    {A : Type 0} (object : Object A) (key : String) (a : A)
    → has_or_inherits object key ≡ true
    → Widens (keys object) (keys (put object key a))
put-Widens [] key a h = (key ∷ [], refl, (h, tt))
put-Widens ((k, b) ∷ rest) key a h = elim (Bool-cases (k == key)) [
  | inl e ↦ rw e (Widens-refl (k ∷ keys rest))
  | inr e ↦
      let (extra, same, inherited) = put-Widens rest key a (rw e at h) in
      rw e (extra, ap (λ l. k ∷ l) same, inherited)
]

field-has_key :
    {A : Type 0} (object : Object A) (key : String) {a : A}
    → field object key ≡ some a
    → has_key object key ≡ true
field-has_key [] key h = cc
field-has_key ((k, b) ∷ rest) key h = elim (Bool-cases (k == key)) [
  | inl e ↦ rw e refl
  | inr e ↦ rw e (field-has_key rest key (rw e at h))
]

entry_of-has_or_inherits :
    (chains : Object ChainPin) (chain : String) {entry : ChainPin}
    → entry_of chains chain ≡ some entry
    → has_or_inherits chains chain ≡ true
entry_of-has_or_inherits chains chain h = elim (Option-cases (field chains chain)) [
  | inr (own, e) ↦ let known = field-has_key chains chain e in ground arith
  | inl e ↦ elim (Bool-cases (includes inherited_keys chain)) [
    | inl i ↦ ground arith
    | inr i ↦ let no : none ≡ some _ = rw (e, i, entry_of) at h in absurd (cc)
  ]
]

merge_binaries-merged :
    (binaries target : Object String) {merged : Object String}
    → merge_binaries binaries target ≡ ok merged
    → Widens (keys binaries) (keys merged)
      × ((slot : String) → field merged slot ≡ or_else (latest target slot) (field binaries slot))
unfolding merge_binaries
merge_binaries-merged binaries [] {merged = merged} h =
    let same : binaries ≡ merged = cc in
    (
      subst (λ o. Widens (keys binaries) (keys o)) same (Widens-refl _),
      λ slot. ap (λ o. field o slot) (sym same),
    )
merge_binaries-merged binaries ((slot, pin) ∷ rest) h =
    let (known, later) =
      require-eq-ok (has_or_inherits binaries slot) (absent_slot slot)
        (merge_binaries (put binaries slot pin) rest) h in
    let (names, pins) = merge_binaries-merged (put binaries slot pin) rest later in
    (
      Widens-trans _ _ _ (put-Widens binaries slot pin known) names,
      λ other. pins other ∙ ground (arith, field-put binaries slot other pin),
    )

merge_services-merged :
    (network : String) (services target : Object String) {merged : Object String}
    → merge_services network services target ≡ ok merged
    → (name : String) → field merged name ≡ or_else (latest target name) (field services name)
unfolding merge_services
merge_services-merged network services [] {merged = merged} h name =
    let same : merged ≡ services = cc in ap (λ o. field o name) same
merge_services-merged network services ((key, pin) ∷ rest) h name =
    let (known, later) = require-eq-ok _ _ (merge_services network (put services key pin) rest) h in
    merge_services-merged network (put services key pin) rest later name
    ∙ ground (arith, field-put services key name pin)

-- What the patches of a chain start from: its entry, or nothing for a chain that the target names
-- like an inherited property.
abbrev pub start_of : Object ChainPin → Object ChainPin → String → Option ChainPin
start_of chains target chain =
    own_or_empty (field chains chain) (includes inherited_keys chain && has_key target chain)

start_of-nil :
    (chains : Object ChainPin) (chain : String)
    → field chains chain ≡ on_entry (with_patches [] chain) (start_of chains [] chain)
start_of-nil chains chain = elim (Option-cases (field chains chain)) [
  | inr (entry, e) ↦ rw (e, start_of) refl
  | inl e ↦ elim (Bool-cases (includes inherited_keys chain)) [
    | inl i ↦ rw (e, i, start_of) refl
    | inr i ↦ rw (e, i, start_of) refl
  ]
]

patch_step :
    (chains : Object ChainPin) (key chain : String) (entry patch : ChainPin)
    (rest : Object ChainPin)
    → entry_of chains key ≡ some entry
    → on_entry
        (with_patches rest chain)
        (start_of (put chains key (patched entry patch)) rest chain)
      ≡ on_entry
          (with_patches ((key, patch) ∷ rest) chain)
          (start_of chains ((key, patch) ∷ rest) chain)
patch_step chains key chain entry patch rest e =
    let new = patched entry patch in
    elim (Bool-cases (key == chain)) [
      | inl same ↦
          let equal = (eq_iff key chain).0 same in
          let there : entry_of chains chain ≡ some entry = rw equal at e in
          let here : field (put chains key new) chain ≡ some new =
            rw same at (field-put chains key chain new) in
          elim (Option-cases (field chains chain)) [
            | inr (own, o) ↦
                let mine : some own ≡ some entry = rw (o, entry_of) at there in
                rw (here, o, same, start_of)
                  (ap (λ x. some (with_patches rest chain (patched x patch)))
                    (sym (some_injective mine)))
            | inl o ↦ elim (Bool-cases (includes inherited_keys chain)) [
              | inl i ↦
                  let mine : some no_pin ≡ some entry = rw (o, i, entry_of) at there in
                  rw (here, o, i, same, start_of)
                    (rw same (
                      ap (λ x. some (with_patches rest chain (patched x patch)))
                        (sym (some_injective mine))))
              | inr i ↦ let no : none ≡ some entry = rw (o, i, entry_of) at there in absurd (cc)
            ]
          ]
      | inr differs ↦
          let here : field (put chains key new) chain ≡ field chains chain =
            rw differs at (field-put chains key chain new) in
          elim (Option-cases (field chains chain)) [
            | inl absent ↦ elim (Bool-cases (includes inherited_keys chain && has_key rest chain)) [
              | inl c ↦ rw (here, absent, differs, start_of) (rw c (rw differs refl))
              | inr c ↦ rw (here, absent, differs, start_of) (rw c refl)
            ]
            | inr (old, there) ↦ rw (here, there, differs, start_of) refl
          ]
    ]

merge_chains-merged :
    (chains target : Object ChainPin) {merged : Object ChainPin}
    → merge_chains chains target ≡ ok merged
    → Widens (keys chains) (keys merged)
      × ((chain : String)
          → field merged chain
            ≡ on_entry (with_patches target chain) (start_of chains target chain))
unfolding merge_chains
merge_chains-merged chains [] {merged = merged} h =
    let same : chains ≡ merged = cc in
    (
      subst (λ o. Widens (keys chains) (keys o)) same (Widens-refl _),
      λ chain. ap (λ o. field o chain) (sym same) ∙ start_of-nil chains chain,
    )
merge_chains-merged chains ((key, patch) ∷ rest) h = elim (Option-cases (entry_of chains key)) [
  | inl e ↦ absurd (err-ne-ok (rw (e, merge_chains) at h))
  | inr (entry, e) ↦
      let next = put chains key (patched entry patch) in
      let (none_pinned, later) =
        require-eq-ok (not (is_set patch.binary)) (patches_binary key) (merge_chains next rest)
          (rw (e, merge_chains) at h) in
      let (names, pins) = merge_chains-merged next rest later in
      (
        Widens-trans _ _ _
            (put-Widens chains key (patched entry patch) (entry_of-has_or_inherits chains key e))
            names,
        λ chain. pins chain ∙ patch_step chains key chain entry patch rest e,
      )
]

-- What a target does to a manifest.
pub record IsMerged (canonical : Manifest) (target : Target) (merged : Manifest) : Type 0 where
  pub same_network : merged.network ≡ canonical.network
  pub same_base : merged.base ≡ canonical.base
  pub slots : Widens (keys (or_empty canonical.binaries)) (keys (or_empty merged.binaries))
  pub chain_names : Widens (keys (or_empty canonical.chains)) (keys (or_empty merged.chains))
  pub slot_pins :
      (slot : String)
      → field (or_empty merged.binaries) slot
        ≡ or_else
            (latest (or_empty target.binaries) slot)
            (field (or_empty canonical.binaries) slot)
  pub chain_pins :
      (chain : String)
      → field (or_empty merged.chains) chain
        ≡ on_entry
            (with_patches (or_empty target.chains) chain)
            (start_of (or_empty canonical.chains) (or_empty target.chains) chain)
  pub service_pins :
      (name : String)
      → field (or_empty merged.services) name
        ≡ or_else
            (latest (or_empty target.services) name)
            (field (or_empty canonical.services) name)
  pub test_scripts : merged.tests ≡ or_else target.tests canonical.tests

-- Whether a target has a key whose write sets the prototype of an object.
abbrev pub names_prototype : Target → Bool
names_prototype target =
    has_key (or_empty target.binaries) "__proto__"
    || has_key (or_empty target.chains) "__proto__"
    || has_key (or_empty target.services) "__proto__"

-- A target without a key `__proto__` that `mergeTarget` accepts changes neither the network nor the
-- base of the canonical manifest, and it adds no binary slot and no chain but those that it names
-- like a property that every object inherits. Each slot and each service that it names has its pin,
-- each chain that it names has its patch over the canonical entry, or alone under an inherited name,
-- everything else keeps the canonical pin, and its tests replace the canonical ones where it has any.
pub merge_target-IsMerged :
    (canonical : Manifest) (target : Target) {merged : Manifest}
    → names_prototype target ≡ false
    → merge_target canonical (some target) ≡ ok merged
    → IsMerged canonical target merged
unfolding merge_target
merge_target-IsMerged canonical target {merged = merged} ordinary h =
    let (binaries, first, a) =
      bind-eq-ok (merge_binaries (or_empty canonical.binaries) (or_empty target.binaries)) _ h in
    let (chains, second, b) =
      bind-eq-ok (merge_chains (or_empty canonical.chains) (or_empty target.chains)) _ a in
    let (services, third, c) =
      bind-eq-ok
        (merge_services canonical.network (or_empty canonical.services) (or_empty target.services))
        _ b in
    let (slots, slot_pins) =
      merge_binaries-merged (or_empty canonical.binaries) (or_empty target.binaries) first in
    let (names, chain_pins) =
      merge_chains-merged (or_empty canonical.chains) (or_empty target.chains) second in
    let whole : Manifest = record canonical {
      binaries = some binaries;
      chains = some chains;
      services = some services;
      tests = or_else target.tests canonical.tests;
    } in
    let same : merged ≡ whole = cc in
    rw same (record {
      same_network = refl;
      same_base = refl;
      slots = slots;
      chain_names = names;
      slot_pins = slot_pins;
      chain_pins = chain_pins;
      service_pins =
          merge_services-merged canonical.network (or_empty canonical.services)
            (or_empty target.services) third;
      test_scripts = refl;
    })
