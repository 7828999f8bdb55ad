-- ===== src/ReleaseGate/Plans/Pinned.antt =====
-- release-map.mjs, `validateManifest`: what the checks of one chain, slot or service say of its pin.
use polkadot_pop_e2e.Common.{
  ok-injective, Result-cases, err-ne-ok, ◌≡◌, ap, ◌∙◌, inl, inr, arith, String, true, false, Option,
  some, List, ok, Done, bind-eq-ok, require-ok, require-eq-ok, demand-eq-ok, Object, field,
  includes, is_set, is_blank, Bool-cases, Option-cases,
}
use polkadot_pop_e2e.ReleaseGate.Chains.{Chain}
use polkadot_pop_e2e.ReleaseGate.Services.{Service, NodeBinary, node_binaries, services}
use polkadot_pop_e2e.ReleaseGate.Pins.{ChainPin, Ref, local, artifact, release, parse_release_ref}
use polkadot_pop_e2e.ReleaseGate.Plans.{
  parsed, pin_text, plan_ref, plan_chain, repo_of, is_allowed, check_binary, check_service,
  check_chain, PlanEntry,
}

-- Where a runtime may come from: a file, a named artifact, or a release of an allowed repository.
pub data IsSource (sources : Object String) : Ref → Type 0 where
  of_file : (file : String) → IsSource sources (local file)
  of_artifact :
      (name : String) (within : Option String)
      → is_blank name ≡ false
      → IsSource sources (artifact name within)
  of_release :
      (repo tag asset : String)
      → field sources repo ≡ some asset
      → IsSource sources (release repo tag)

-- A chain's entry: a known chain with a pin of an allowed source, and no binary.
pub record IsPinned (known : Object Chain) (entry : String × ChainPin) : Type 0 where
  pub chain : Chain
  pub ref : Ref
  pub is_known : field known entry.0 ≡ some chain
  pub no_binary : is_set entry.1.binary ≡ false
  pub has_runtime : is_set entry.1.runtime ≡ true
  pub parses : parse_release_ref (pin_text entry.1.runtime) ≡ ok ref
  pub comes_from : IsSource chain.runtime ref

-- A pin of a release of one of the repositories.
pub record IsAllowed (repos : List String) (pin : String) : Type 0 where
  pub repo : String
  pub tag : String
  pub parses : parse_release_ref pin ≡ ok (release repo tag)
  pub is_listed : includes repos repo ≡ true

parsed-ok : (pin : String) {ref : Ref} → parsed pin ≡ ok ref → parse_release_ref pin ≡ ok ref
parsed-ok pin h = elim (Result-cases (parse_release_ref pin)) [
  | inl (other, e) ↦ e ∙ ap ok (ok-injective (rw (e, parsed) at h))
  | inr (why, e) ↦ absurd (err-ne-ok (rw (e, parsed) at h))
]

is_allowed-IsAllowed :
    (repos : List String) (pin : String) (ref : Ref)
    → parsed pin ≡ ok ref
    → is_allowed repos (repo_of ref) ≡ true
    → IsAllowed repos pin
is_allowed-IsAllowed repos pin (release repo tag) h e = record {
  repo = repo;
  tag = tag;
  parses = parsed-ok pin h;
  is_listed = e;
}
is_allowed-IsAllowed repos pin (local file) h e = cc
is_allowed-IsAllowed repos pin (artifact name within) h e = cc

plan_ref-IsSource :
    (chain : String) (sources : Object String) (ref : Ref) {entry : PlanEntry}
    → plan_ref chain sources ref ≡ ok entry
    → IsSource sources ref
plan_ref-IsSource chain sources (local file) h = of_file file
plan_ref-IsSource chain sources (artifact name within) h = elim (Bool-cases (is_blank name)) [
  | inl e ↦ absurd (err-ne-ok (rw e at h))
  | inr e ↦ of_artifact name within e
]
plan_ref-IsSource chain sources (release repo tag) h = elim (Option-cases (field sources repo)) [
  | inl e ↦ absurd (err-ne-ok (rw (e, plan_ref) at h))
  | inr (asset, e) ↦ of_release repo tag asset e
]

-- The chain of an entry, of which the loop over the entries returns the node.
abbrev pub Runs : Object Chain → String → String × ChainPin → Type 0
Runs known node entry = (chain : Chain) × (field known entry.0 ≡ some chain) × (chain.node ≡ node)

module _ (known : Object Chain) where
  pub check_chain-Runs :
      (entry : String × ChainPin) {node : String}
      → check_chain known entry ≡ ok node
      → Runs known node entry × (is_set entry.1.binary ≡ false) × (is_set entry.1.runtime ≡ true)
  check_chain-Runs (key, pin) {node = node} h =
      let (chain, found, a) = demand-eq-ok _ _ _ h in
      let (binary, b) = require-eq-ok _ _ _ a in
      let (runtime, c) = require-eq-ok _ _ _ b in
      ((chain, found, ok-injective c), ground arith, runtime)

  plan_chain-IsSource :
      (listed : Option (Object Chain)) (entry : String × ChainPin) {planned : PlanEntry}
      → listed ≡ some known
      → plan_chain listed entry ≡ ok planned
      → (chain : Chain) × (ref : Ref) × (field known entry.0 ≡ some chain)
        × (parse_release_ref (pin_text entry.1.runtime) ≡ ok ref)
        × IsSource chain.runtime ref
  plan_chain-IsSource listed (key, pin) {planned = planned} there h =
      let k : plan_chain (some known) (key, pin) ≡ ok planned = rw there at h in
      let (chain, found, b) = demand-eq-ok _ _ _ k in
      let (ref, read, c) = bind-eq-ok _ _ b in
      (chain, ref, found, parsed-ok _ read, plan_ref-IsSource key chain.runtime ref c)

  -- What the two passes over an entry say together.
  pub entry-IsPinned :
      (listed : Option (Object Chain)) (entry : String × ChainPin) {node : String}
      {planned : PlanEntry}
      → listed ≡ some known
      → check_chain known entry ≡ ok node
      → plan_chain listed entry ≡ ok planned
      → IsPinned known entry
  entry-IsPinned listed entry there h k =
      let (runs, binary, runtime) = check_chain-Runs entry h in
      let (chain, ref, found, read, comes) = plan_chain-IsSource listed entry there k in
      record {
        chain = chain;
        ref = ref;
        is_known = found;
        no_binary = binary;
        has_runtime = runtime;
        parses = read;
        comes_from = comes;
      }

-- The pin of a slot, or of a service, is a release of one of its repositories.
abbrev pub IsBinary : String × String → Type 0
IsBinary (slot, pin) =
    (source : NodeBinary) × (field node_binaries slot ≡ some source) × IsAllowed source.repos pin

abbrev pub IsService : String → String × String → Type 0
IsService network (name, pin) =
    (listed : Object Service) × (source : Service) × (field services network ≡ some listed)
    × (field listed name ≡ some source)
    × IsAllowed source.repos pin

pub check_binary-IsBinary :
    (entry : String × String) {d : Done} → check_binary entry ≡ ok d → IsBinary entry
check_binary-IsBinary (slot, pin) h =
    let (source, found, a) = demand-eq-ok _ _ _ h in
    let (ref, read, b) = bind-eq-ok _ _ a in
    (source, found, is_allowed-IsAllowed source.repos pin ref read (require-ok _ _ b))

pub check_service-IsService :
    (network : String) (entry : String × String) {names : List String}
    → check_service (field services network) entry ≡ ok names
    → IsService network entry
check_service-IsService network (name, pin) h =
    let (listed, known, a) = demand-eq-ok _ _ _ h in
    let (source, found, b) = demand-eq-ok _ _ _ a in
    let (ref, read, c) = bind-eq-ok _ _ b in
    let (allowed, d) = require-eq-ok _ _ _ c in
    (listed, source, known, found, is_allowed-IsAllowed source.repos pin ref read allowed)
