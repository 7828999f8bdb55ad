-- ===== src/ReleaseGate/Engine.antt =====
-- environments/assert-engine.mjs: whether the engine runs what the map and the manifest say.
pub mod Agreed
use polkadot_pop_e2e.Common.{
  String, Bool, false, not, Option, none, some, List, [], ◌∷◌, ◌++◌, map, flat_map, if◌then◌else◌,
  ◌==◌, Result, ok, err, Object, field, keys, put_all, has_or_inherits, any, or_empty, is_set, cat,
}
use polkadot_pop_e2e.ReleaseGate.Chains.{Chain, chains}
use polkadot_pop_e2e.ReleaseGate.Services.{Service, services}
use polkadot_pop_e2e.ReleaseGate.Pins.{Manifest}

-- What `ppn show --json` reports, as far as it is read.
pub record EngineBinary : Type 0 where
  pub name : String
  pub repo : String
  pub tag : String
  pub overridden : Bool

pub record EngineChain : Type 0 where
  pub key : String
  pub binary : Option EngineBinary

pub record Show : Type 0 where
  pub chains : Option (List EngineChain)
  pub binaries : Option (List EngineBinary)

pub data Drift : Type 0 where
  no_such_chain : (chain : String) → Drift
  other_binary : (chain slot : String) (engine : Option String) → Drift
  other_pin : (chain slot : String) (pin : Option String) (got : String) → Drift
  not_overridden : (chain got : String) → Drift
  unknown_chain : (chain : String) → Drift
  not_fetched : (name binary : String) → Drift
  other_service : (name pin got : String) → Drift

abbrev pub shown_pin : EngineBinary → String
shown_pin binary = cat (binary.repo ∷ "@" ∷ binary.tag ∷ [])

abbrev pub is_pin : Option String → String → Bool
is_pin none got = false
is_pin (some pin) got = got == pin

-- The comparison for a chain whose binary has the slot's name.
abbrev pub check_pin : String → String → Option String → EngineBinary → Result Drift String
check_pin chain slot pin binary =
    let got = shown_pin binary in
    if not (is_pin pin got)
    then err (other_pin chain slot pin got)
    else if not binary.overridden
    then err (not_overridden chain got)
    else ok (cat (chain ∷ ": " ∷ slot ∷ " " ∷ got ∷ " (overridden)" ∷ []))

abbrev pub check_wiring :
    String → String → Option String → Option EngineBinary → Result Drift String
check_wiring chain slot pin none = err (other_binary chain slot none)
check_wiring chain slot pin (some binary) =
    if binary.name == slot
    then check_pin chain slot pin binary
    else err (other_binary chain slot (some binary.name))

-- The body of the loop over the map's chains.
abbrev pub check_engine_chain : Manifest → Object EngineChain → String × Chain → Result Drift String
check_engine_chain manifest shown (chain, entry) = elim (field shown chain) [
  | none ↦ err (no_such_chain chain)
  | some c ↦ check_wiring chain entry.node (field (or_empty manifest.binaries) entry.node) c.binary
]

abbrev pub check_fetched : String → String → String → Option EngineBinary → Result Drift String
check_fetched name binary pin none = err (not_fetched name binary)
check_fetched name binary pin (some b) =
    if shown_pin b == pin
    then ok (cat (name ∷ ": " ∷ pin ∷ []))
    else err (other_service name pin (shown_pin b))

-- The body of the loop over the services: nothing for one that is not overridden or not pinned.
abbrev pub check_engine_service :
    Manifest → Object EngineBinary → String × Service → List (Result Drift String)
check_engine_service manifest flat (name, service) = elim service.override [
  | none ↦ []
  | some binary ↦ elim (field (or_empty manifest.services) name) [
    | none ↦ []
    | some pin ↦
        if is_set (some pin) then check_fetched name binary pin (field flat binary) ∷ [] else []
  ]
]

abbrev pub unknown_chains : Object Chain → Object EngineChain → List (Result Drift String)
unknown_chains wiring shown =
    flat_map (λ key. if has_or_inherits wiring key then [] else err (unknown_chain key) ∷ [])
      (keys shown)

abbrev pub by_key : List EngineChain → Object EngineChain
by_key list = put_all [] (map (λ c. (c.key, c)) list)

abbrev pub by_binary : List EngineBinary → Object EngineBinary
by_binary list = put_all [] (map (λ b. (b.name, b)) list)

abbrev pub engine_checks : Manifest → Object Chain → Show → List (Result Drift String)
engine_checks manifest wiring show =
    let shown = by_key (or_empty show.chains) in
    let known = or_empty (field services manifest.network) in
    map (check_engine_chain manifest shown) wiring
    ++ unknown_chains wiring shown
    ++ flat_map (check_engine_service manifest (by_binary (or_empty show.binaries))) known

abbrev pub agreed : Result Drift String → List String
agreed (ok line) = line ∷ []
agreed (err drift) = []

abbrev pub drifted : Result Drift String → List Drift
drifted (ok line) = []
drifted (err drift) = drift ∷ []

pub record Agreement : Type 0 where
  pub lines : List String
  pub errors : List Drift

abbrev pub agreement_of : List (Result Drift String) → Agreement
agreement_of checks = record { lines = flat_map agreed checks; errors = flat_map drifted checks }

-- A read of a property of `undefined`.
pub data EngineError : Type 0 where
  type_error : EngineError

-- Whether the loop reads `manifest.binaries[slot]` for a chain of the map.
abbrev pub reads_pin : Object EngineChain → String × Chain → Bool
reads_pin shown (chain, entry) = elim (field shown chain) [
  | none ↦ false
  | some c ↦ elim c.binary [ none ↦ false | some binary ↦ binary.name == entry.node ]
]

-- By the chains of the map and the manifest's binaries.
abbrev pub agreement_from :
    Manifest → Show → Option (Object Chain) → Option (Object String) → Result EngineError Agreement
agreement_from manifest show none binaries = err type_error
agreement_from manifest show (some wiring) (some binaries) =
    ok (agreement_of (engine_checks manifest wiring show))
agreement_from manifest show (some wiring) none =
    if any (reads_pin (by_key (or_empty show.chains))) wiring
    then err type_error
    else ok (agreement_of (engine_checks manifest wiring show))

-- For a network that is not named like an inherited property, which `validateManifest` refuses.
unfoldable pub assert_engine_agrees : Manifest → Show → Result EngineError Agreement
assert_engine_agrees manifest show =
    agreement_from manifest show (field chains manifest.network) manifest.binaries
