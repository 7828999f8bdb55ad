-- ===== src/ReleaseGate/Sources.antt =====
-- environments/release-map.mjs, `networkSlots` and `allowedSources`: the lists of allowed
-- repositories that a tester reads.
use polkadot_pop_e2e.Common.{
  String, List, [], ◌∷◌, ◌++◌, map, keep, if◌then◌else◌, ◌==◌, Result, ok, ◌>>=◌, for_each, demand,
  Object, field, keys, values, or_empty, unique, join, cat,
}
use polkadot_pop_e2e.ReleaseGate.Chains.{Chain, chains}
use polkadot_pop_e2e.ReleaseGate.Services.{Service, node_binaries, services}
use polkadot_pop_e2e.ReleaseGate.Plans.{PlanError, unknown_network, type_error}

abbrev pub slots_of : Object Chain → List String
slots_of known = unique (λ a b. a == b) (map (λ chain. chain.node) (values known))

unfoldable pub network_slots : String → Result PlanError (List String)
network_slots network = do
  known ← demand (field chains network) (unknown_network network)
  ok (slots_of known)

abbrev pub runners : Object Chain → String → List String
runners known slot = keys (keep (λ entry. entry.1.node == slot) known)

abbrev pub slot_line : Object Chain → String → Result PlanError String
slot_line known slot = do
  binary ← demand (field node_binaries slot) type_error
  ok (
      cat (
        "- binary "
        ∷ slot
        ∷ " (runs "
        ∷ join ", " (runners known slot)
        ∷ ") from "
        ∷ join " or " binary.repos
        ∷ []))

abbrev pub chain_line : String × Chain → String
chain_line (chain, entry) =
    cat ("- " ∷ chain ∷ ": runtime from " ∷ join " or " (keys entry.runtime) ∷ [])

abbrev pub service_line : String × Service → String
service_line (name, service) =
    let note = if service.recorded_only then " (pin recorded, not yet swapped)" else "" in
    cat ("- " ∷ name ∷ ": from " ∷ join " or " service.repos ∷ note ∷ [])

unfoldable pub allowed_sources : String → Result PlanError String
unfolding network_slots
allowed_sources network = do
  known ← demand (field chains network) (unknown_network network)
  slots ← network_slots network
  lines ← for_each (slot_line known) slots
  ok (
      join "\n"
        (lines ++ map chain_line known ++ map service_line (or_empty (field services network))))
