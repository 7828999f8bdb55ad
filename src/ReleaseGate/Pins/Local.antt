-- ===== src/ReleaseGate/Pins/Local.antt =====
-- release-map.mjs, `assertNoLocalPins`: the pins of a manifest that may be committed.
use polkadot_pop_e2e.Common.{
  String, Bool, true, false, Option, none, some, [], ◌∷◌, ◌++◌, ◌≡◌, ◌↔◌, refl, sym, ap, ◌∙◌, ◌⊎◌,
  inl, inr, ok, err-ne-ok, Object, or_empty, trim, Any, All, Any-All, Bool-cases, if◌then◌else◌,
  nil-ne-cons, List-cases, nil_parts, flat_map-nil,
}
use polkadot_pop_e2e.ReleaseGate.Pins.{
  Ref, release, local, artifact, ChainPin, Manifest, PinField, runtime_of, binary_of, service_of,
  is_ephemeral, ephemeral_fields, local_pins, assert_no_local_pins, parse_release_ref,
}
use polkadot_pop_e2e.ReleaseGate.Pins.Printed.{
  IsRef, of_file, of_artifact, of_path, print_ref, parse_release_ref-printed,
}

abbrev pub IsRelease : Ref → Type 0
IsRelease ref = (repo tag : String) × (ref ≡ release repo tag)

-- A pin that a manifest holds: of a chain's runtime, of a binary slot, or of a service.
abbrev pub IsPinOf : Manifest → String → Type 0
IsPinOf manifest pin =
    Any (λ entry. entry.1.runtime ≡ some pin) (or_empty manifest.chains)
    ⊎ (Any (λ entry. entry.1 ≡ pin) (or_empty manifest.binaries)
        ⊎ Any (λ entry. entry.1 ≡ pin) (or_empty manifest.services))

true-ne-false : {b : Bool} → b ≡ true → b ≡ false → ⊥
true-ne-false e h = cc

printed-IsRelease :
    (ref : Ref) → IsRef ref → is_ephemeral (some (print_ref ref)) ≡ false → IsRelease ref
printed-IsRelease (local file) (of_file f filled) h = absurd (true-ne-false refl h)
printed-IsRelease (artifact name none) (of_artifact n filled passes) h =
    absurd (true-ne-false refl h)
printed-IsRelease (artifact name (some within)) (of_path n w passes) h =
    absurd (true-ne-false refl h)
printed-IsRelease (release repo tag) is h = (repo, tag, refl)

ephemeral_field :
    {A : Type 0} (pin_of : A → Option String) (named : String → PinField) (entry : String × A)
    → ((if is_ephemeral (pin_of entry.1) then named entry.0 ∷ [] else []) ≡ [])
      ↔ (is_ephemeral (pin_of entry.1) ≡ false)
ephemeral_field pin_of named entry = elim (Bool-cases (is_ephemeral (pin_of entry.1))) [
  | inl e ↦ (λ h. absurd (nil-ne-cons (rw e at h)), λ h. absurd (true-ne-false e h))
  | inr e ↦ (λ h. e, λ h. rw e refl)
]

ephemeral_fields-nil :
    {A : Type 0} (pin_of : A → Option String) (named : String → PinField) (object : Object A)
    → ephemeral_fields pin_of named object ≡ []
    → All (λ entry. is_ephemeral (pin_of entry.1) ≡ false) object
ephemeral_fields-nil pin_of named object =
    (flat_map-nil _ (λ entry. is_ephemeral (pin_of entry.1) ≡ false) (ephemeral_field pin_of named)
      object).0

accepted-nil :
    (manifest : Manifest) {same : Manifest}
    → assert_no_local_pins manifest ≡ ok same
    → local_pins manifest ≡ []
unfolding assert_no_local_pins
accepted-nil manifest h = elim (List-cases (local_pins manifest)) [
  | inl e ↦ e
  | inr (pin, pins, e) ↦ absurd (err-ne-ok (rw (e, assert_no_local_pins) at h))
]

accepted-pin :
    (manifest : Manifest) (pin : String)
    → local_pins manifest ≡ []
    → IsPinOf manifest pin
    → is_ephemeral (some pin) ≡ false
accepted-pin manifest pin h is =
    let chains = or_empty manifest.chains in
    let runtimes = ephemeral_fields (λ (c : ChainPin). c.runtime) runtime_of chains in
    let binaries = ephemeral_fields some binary_of (or_empty manifest.binaries) in
    let services = ephemeral_fields some service_of (or_empty manifest.services) in
    let (first, third) = (nil_parts (runtimes ++ binaries) services).0 h in
    let (one, two) = (nil_parts runtimes binaries).0 first in
    elim is [
      | inl found ↦
          Any-All _ _ chains found
            (ephemeral_fields-nil (λ (c : ChainPin). c.runtime) runtime_of chains one)
            (λ entry same no. ap is_ephemeral (sym same) ∙ no)
      | inr (inl found) ↦
          Any-All _ _ (or_empty manifest.binaries) found (ephemeral_fields-nil some binary_of _ two)
            (λ entry same no. ap (λ p. is_ephemeral (some p)) (sym same) ∙ no)
      | inr (inr found) ↦
          Any-All _ _ (or_empty manifest.services) found
            (ephemeral_fields-nil some service_of _ third)
            (λ entry same no. ap (λ p. is_ephemeral (some p)) (sym same) ∙ no)
    ]

-- In a manifest that `assertNoLocalPins` accepts, every pin without white space around it that
-- `parseReleaseRef` reads, of a chain, a slot or a service, is a release.
pub assert_no_local_pins-IsRelease :
    (manifest : Manifest) (pin : String) (ref : Ref) {same : Manifest}
    → assert_no_local_pins manifest ≡ ok same
    → IsPinOf manifest pin
    → trim pin ≡ pin
    → parse_release_ref pin ≡ ok ref
    → IsRelease ref
assert_no_local_pins-IsRelease manifest pin ref accepted is trimmed read =
    let (is_ref, printed) = (parse_release_ref-printed pin ref).0 read in
    printed-IsRelease ref is_ref (
      ap (λ p. is_ephemeral (some p)) (printed ∙ trimmed)
      ∙ accepted-pin manifest pin (accepted-nil manifest accepted) is)
