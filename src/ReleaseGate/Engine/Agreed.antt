-- ===== src/ReleaseGate/Engine/Agreed.antt =====
-- assert-engine.mjs: what an engine without a drift runs.
use polkadot_pop_e2e.Common.{
  String, Bool, true, false, Option, none, some, List, [], ◌∷◌, ◌++◌, map, flat_map, ◌≡◌, ◌↔◌, refl,
  sym, ap, ◌∙◌, inl, inr, nil-ne-cons, some_injective, nil_parts, flat_map-append, flat_map-nil,
  flat_map-map, flat_map-flat_map, ◌==◌, Result, err, Object, field, keys, ok, has_or_inherits,
  List-cases, or_empty, is_set, if◌then◌else◌, All, Bool-cases, Option-cases, eq_iff,
}
use polkadot_pop_e2e.ReleaseGate.Chains.{Chain, chains}
use polkadot_pop_e2e.ReleaseGate.Plans.{validate_manifest}
use polkadot_pop_e2e.ReleaseGate.Plans.Valid.{IsValid, validate_manifest-IsValid}
use polkadot_pop_e2e.ReleaseGate.Services.{Service, services}
use polkadot_pop_e2e.ReleaseGate.Pins.{Manifest}
use polkadot_pop_e2e.ReleaseGate.Engine.{
  Agreement, agreement_of, agreement_from, engine_checks, EngineBinary, EngineChain, Show, Drift,
  shown_pin, check_pin, check_wiring, check_engine_chain, check_fetched, check_engine_service,
  unknown_chain, unknown_chains, by_key, by_binary, drifted, assert_engine_agrees,
}

-- The binary of a slot at a pin, that is set through an override.
abbrev pub IsPinned : String → Option String → EngineBinary → Type 0
IsPinned slot pin binary =
    (binary.name ≡ slot) × (pin ≡ some (shown_pin binary)) × (binary.overridden ≡ true)

-- A chain of the map runs the binary of its slot, at the pin of the manifest, through an override.
abbrev pub RunsPinned : Manifest → Object EngineChain → String × Chain → Type 0
RunsPinned manifest shown (chain, entry) =
    (c : EngineChain) × (binary : EngineBinary) × (field shown chain ≡ some c)
    × (c.binary ≡ some binary)
    × IsPinned entry.node (field (or_empty manifest.binaries) entry.node) binary

-- A service with an override and a pin is fetched at that pin.
abbrev pub FetchesPinned : Manifest → Object EngineBinary → String × Service → Type 0
FetchesPinned manifest flat (name, service) =
    (override pin : String)
    → service.override ≡ some override
    → field (or_empty manifest.services) name ≡ some pin
    → is_set (some pin) ≡ true
    → (binary : EngineBinary) × (field flat override ≡ some binary) × (shown_pin binary ≡ pin)

abbrev pub Agrees : Manifest → Show → Type 0
Agrees manifest show =
    let wiring = or_empty (field chains manifest.network) in
    let shown = by_key (or_empty show.chains) in
    All (RunsPinned manifest shown) wiring
    × All (λ chain. has_or_inherits wiring chain ≡ true) (keys shown)
    × All (FetchesPinned manifest (by_binary (or_empty show.binaries)))
        (or_empty (field services manifest.network))

-- ---------------------------------------------------------------- one check
false-ne-true : {b : Bool} → b ≡ false → b ≡ true → ⊥
false-ne-true e h = cc

none-ne-some : {A : Type 0} {o : Option A} {a : A} → o ≡ none → o ≡ some a → ⊥
none-ne-some e h = cc

check_pin-agreed :
    (chain slot : String) (pin : Option String) (binary : EngineBinary)
    → (drifted (check_pin chain slot pin binary) ≡ [])
      ↔ (pin ≡ some (shown_pin binary)) × (binary.overridden ≡ true)
check_pin-agreed chain slot none binary =
    (λ h. absurd (nil-ne-cons h), λ (same, o). absurd (none-ne-some refl same))
check_pin-agreed chain slot (some pin) binary = elim (Bool-cases (shown_pin binary == pin)) [
  | inr e ↦ (
    λ h. absurd (nil-ne-cons (rw (e, check_pin) at h)),
    λ (same, o). absurd (false-ne-true e ((eq_iff _ _).1 (sym (some_injective same)))),
  )
  | inl e ↦ elim (Bool-cases binary.overridden) [
    | inl o ↦ (λ h. (ap some (sym ((eq_iff _ _).0 e)), o), λ h. rw (e, o, check_pin) refl)
    | inr o ↦ (
      λ h. absurd (nil-ne-cons (rw (e, o, check_pin) at h)),
      λ (same, set). absurd (false-ne-true o set),
    )
  ]
]

check_wiring-IsPinned :
    (chain slot : String) (pin : Option String) (o : Option EngineBinary)
    → (drifted (check_wiring chain slot pin o) ≡ [])
      ↔ (binary : EngineBinary) × (o ≡ some binary) × IsPinned slot pin binary
check_wiring-IsPinned chain slot pin none =
    (λ h. absurd (nil-ne-cons h), λ (binary, same, is). absurd (none-ne-some refl same))
check_wiring-IsPinned chain slot pin (some binary) = elim (Bool-cases (binary.name == slot)) [
  | inl e ↦
      let (agrees, pinned) = check_pin-agreed chain slot pin binary in
      (
        λ h.
            let (same_pin, set) = agrees (rw (e, check_wiring) at h) in
            (binary, refl, ((eq_iff _ _).0 e, same_pin, set)),
        λ (other, same, (named, same_pin, set)).
            let mine = ap shown_pin (some_injective same) in
            rw (e, check_wiring)
              (pinned (
                same_pin ∙ ap some (sym mine),
                ap (λ b. b.overridden) (some_injective same) ∙ set,
              )),
      )
  | inr e ↦ (
    λ h. absurd (nil-ne-cons (rw (e, check_wiring) at h)),
    λ (other, same, (named, same_pin, set)).
        absurd (false-ne-true e ((eq_iff _ _).1 (ap (λ b. b.name) (some_injective same) ∙ named))),
  )
]

check_engine_chain-RunsPinned :
    (manifest : Manifest) (shown : Object EngineChain) (wired : String × Chain)
    → (drifted (check_engine_chain manifest shown wired) ≡ []) ↔ RunsPinned manifest shown wired
check_engine_chain-RunsPinned manifest shown (chain, entry) =
    let pin = field (or_empty manifest.binaries) entry.node in
    elim (Option-cases (field shown chain)) [
      | inl e ↦ (
        λ h. absurd (nil-ne-cons (rw (e, check_engine_chain) at h)),
        λ (c, binary, same, has, is). absurd (none-ne-some e same),
      )
      | inr (c, e) ↦
          let (agrees, pinned) = check_wiring-IsPinned chain entry.node pin c.binary in
          (
            λ h.
                let (binary, has, is) = agrees (rw (e, check_engine_chain) at h) in
                (c, binary, e, has, is),
            λ (other, binary, same, has, is).
                let other_c : c ≡ other = some_injective (sym e ∙ same) in
                rw (e, check_engine_chain) (pinned (binary, ap (λ d. d.binary) other_c ∙ has, is)),
          )
    ]

check_fetched-pinned :
    (name override pin : String) (o : Option EngineBinary)
    → (drifted (check_fetched name override pin o) ≡ [])
      ↔ (binary : EngineBinary) × (o ≡ some binary) × (shown_pin binary ≡ pin)
check_fetched-pinned name override pin none =
    (λ h. absurd (nil-ne-cons h), λ (binary, same, is). absurd (none-ne-some refl same))
check_fetched-pinned name override pin (some binary) = elim (Bool-cases (shown_pin binary == pin)) [
  | inl e ↦ (λ h. (binary, refl, (eq_iff _ _).0 e), λ h. rw (e, check_fetched) refl)
  | inr e ↦ (
    λ h. absurd (nil-ne-cons (rw (e, check_fetched) at h)),
    λ (other, same, is).
        absurd (false-ne-true e ((eq_iff _ _).1 (ap shown_pin (some_injective same) ∙ is))),
  )
]

check_engine_service-FetchesPinned :
    (manifest : Manifest) (flat : Object EngineBinary) (known : String × Service)
    → (flat_map drifted (check_engine_service manifest flat known) ≡ [])
      ↔ FetchesPinned manifest flat known
check_engine_service-FetchesPinned manifest flat (name, service) =
    elim (Option-cases service.override) [
      | inl e ↦ (
        λ h override pin has. absurd (none-ne-some e has),
        λ h. rw (e, check_engine_service) refl,
      )
      | inr (binary, e) ↦ elim (Option-cases (field (or_empty manifest.services) name)) [
        | inl n ↦ (
          λ h override pin has named. absurd (none-ne-some n named),
          λ h. rw (e, n, check_engine_service) refl,
        )
        | inr (pin, n) ↦ elim (Bool-cases (is_set (some pin))) [
          | inr unset ↦ (
            λ h override other has named set.
                absurd (false-ne-true unset (ap is_set (sym n ∙ named) ∙ set)),
            λ h. rw (e, n, unset, check_engine_service) refl,
          )
          | inl set ↦
              let (agrees, fetched) = check_fetched-pinned name binary pin (field flat binary) in
              let (split, join) =
                nil_parts (drifted (check_fetched name binary pin (field flat binary))) [] in
              (
                λ h override other has named _.
                    let (b, found, shown) =
                      agrees (split (rw (e, n, set, check_engine_service) at h)).0 in
                    (
                      b,
                      ap (field flat) (some_injective (sym has ∙ e)) ∙ found,
                      shown ∙ some_injective (sym n ∙ named),
                    ),
                λ h.
                    rw (e, n, set, check_engine_service)
                      (join (fetched (h binary pin e n set), refl)),
              )
        ]
      ]
    ]

unknown_chains-agreed :
    (wiring : Object Chain) (chain : String)
    → (flat_map drifted
          (if has_or_inherits wiring chain then [] else err (unknown_chain chain) ∷ [])
        ≡ [])
      ↔ (has_or_inherits wiring chain ≡ true)
unknown_chains-agreed wiring chain = elim (Bool-cases (has_or_inherits wiring chain)) [
  | inl e ↦ rw e (λ h. refl, λ h. refl)
  | inr e ↦ (λ h. absurd (nil-ne-cons (rw e at h)), λ h. absurd (false-ne-true e h))
]

drifts_parts :
    (xs ys zs : List (Result Drift String))
    → (flat_map drifted (xs ++ ys ++ zs) ≡ [])
      ↔ (flat_map drifted xs ≡ []) × (flat_map drifted ys ≡ []) × (flat_map drifted zs ≡ [])
drifts_parts xs ys zs =
    let whole =
      flat_map-append drifted (xs ++ ys) zs
      ∙ ap (λ done. done ++ flat_map drifted zs) (flat_map-append drifted xs ys) in
    let outer = nil_parts (flat_map drifted xs ++ flat_map drifted ys) (flat_map drifted zs) in
    let inner = nil_parts (flat_map drifted xs) (flat_map drifted ys) in
    (
      λ h.
          let (before, third) = outer.0 (sym whole ∙ h) in
          let (first, second) = inner.0 before in (first, second, third),
      λ (first, second, third). whole ∙ outer.1 (inner.1 (first, second), third),
    )

agreement-Agrees :
    (manifest : Manifest) (wiring : Object Chain) (show : Show)
    → field chains manifest.network ≡ some wiring
    → ((agreement_of (engine_checks manifest wiring show)).errors ≡ []) ↔ Agrees manifest show
agreement-Agrees manifest wiring show known_network =
    let shown = by_key (or_empty show.chains) in
    let flat = by_binary (or_empty show.binaries) in
    let known = or_empty (field services manifest.network) in
    let each_chain = flat_map-nil _ _ (check_engine_chain-RunsPinned manifest shown) wiring in
    let each_key = flat_map-nil _ _ (unknown_chains-agreed wiring) (keys shown) in
    let each_service = flat_map-nil _ _ (check_engine_service-FetchesPinned manifest flat) known in
    let first = flat_map-map drifted (check_engine_chain manifest shown) wiring in
    let unknown : String → List (Result Drift String) =
      λ key. if has_or_inherits wiring key then [] else err (unknown_chain key) ∷ [] in
    let second = flat_map-flat_map drifted unknown (keys shown) in
    let third = flat_map-flat_map drifted (check_engine_service manifest flat) known in
    let parts =
      drifts_parts (map (check_engine_chain manifest shown) wiring) (unknown_chains wiring shown)
        (flat_map (check_engine_service manifest flat) known) in
    rw known_network (
      λ h.
          let (a, b, c) = parts.0 h in
          (
            each_chain.0 (sym first ∙ a),
            each_key.0 (sym second ∙ b),
            each_service.0 (sym third ∙ c),
          ),
      λ (a, b, c).
          parts.1 (first ∙ each_chain.1 a, second ∙ each_key.1 b, third ∙ each_service.1 c),
    )

-- The slot of the first chain of a valid manifest is pinned.
IsValid-binaries :
    (manifest : Manifest)
    → IsValid manifest
    → (binaries : Object String) × (manifest.binaries ≡ some binaries)
IsValid-binaries manifest valid = elim (Option-cases manifest.binaries) [
  | inr (binaries, e) ↦ (binaries, e)
  | inl e ↦ elim (Option-cases manifest.chains) [
    | inl none_named ↦
        let no : false ≡ true = rw none_named at valid.has_chains in absurd (false-ne-true refl no)
    | inr (entries, named) ↦ elim (List-cases entries) [
      | inl empty ↦
          let no : false ≡ true = rw (named, empty) at valid.has_chains in
          absurd (false-ne-true refl no)
      | inr (entry, rest, more) ↦
          let slots = rw (named, more, e) at valid.pinned_slots in
          let no : false ≡ true = slots.0.2 in absurd (false-ne-true refl no)
    ]
  ]
]

-- For a manifest that `validateManifest` accepts, `assertEngineAgrees` returns, and it reports no
-- drift exactly if every chain of the network's map runs the binary of its slot at the manifest's
-- pin through an override, the engine runs no chain outside the map, save one that is named like a
-- property that every object inherits, and every pinned service with an override is fetched at its
-- pin, through an override or not.
pub assert_engine_agrees-Agrees :
    (manifest : Manifest) (show : Show) {same : Manifest}
    → validate_manifest manifest ≡ ok same
    → (agreement : Agreement) × (assert_engine_agrees manifest show ≡ ok agreement)
      × ((agreement.errors ≡ []) ↔ Agrees manifest show)
unfolding assert_engine_agrees
assert_engine_agrees-Agrees manifest show accepted =
    let valid = (validate_manifest-IsValid manifest accepted).1 in
    let (binaries, pinned) = IsValid-binaries manifest valid in
    (
      agreement_of (engine_checks manifest valid.known show),
      ap (λ w. agreement_from manifest show w manifest.binaries) valid.is_known
          ∙ ap (agreement_from manifest show (some valid.known)) pinned,
      agreement-Agrees manifest valid.known show valid.is_known,
    )
