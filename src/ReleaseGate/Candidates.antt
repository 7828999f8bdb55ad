-- ===== src/ReleaseGate/Candidates.antt =====
-- environments/release-map.mjs, `candidateMatrix`: the manifests that a run tests.
pub mod Matrix
use Prim.Native.Char.{code}
use polkadot_pop_e2e.Common.{
  String, Bool, true, false, not, ◌&&◌, ◌||◌, Option, none, some, List, [], ◌∷◌, map, flat_map,
  keep, if◌then◌else◌, ◌==◌, ltb, eqb, Object, keys, or_empty, sort, join,
}
use polkadot_pop_e2e.ReleaseGate.Pins.{ChainPin, Manifest}
use polkadot_pop_e2e.ReleaseGate.Overlay.{Transition, transitions}

-- Texts by their code points. The sorted names are compared for equality only.
abbrev pub text_le : String → String → Bool
text_le String.[] b = true
text_le (String.◌∷◌ x a) String.[] = false
text_le (String.◌∷◌ x a) (String.◌∷◌ y b) =
    ltb (code x) (code y) || eqb (code x) (code y) && text_le a b

abbrev pub same_pairs : Object String → Object String → Bool
same_pairs [] [] = true
same_pairs ((k, a) ∷ rest) ((l, b) ∷ more) = k == l && a == b && same_pairs rest more
same_pairs _ _ = false

abbrev pub chain_names : Manifest → String
chain_names m = join "," (sort text_le (keys (or_empty m.chains)))

-- `JSON.stringify` writes equal texts for objects with the same pairs in the same order.
abbrev pub same_binary_dim : Manifest → Manifest → Bool
same_binary_dim a b =
    same_pairs (or_empty a.binaries) (or_empty b.binaries)
    && same_pairs (or_empty a.services) (or_empty b.services)

-- A chain without a runtime leaves no pair in the text.
abbrev pub pinned_runtime : String × ChainPin → Object String
pinned_runtime (chain, entry) = elim entry.runtime [ none ↦ [] | some pin ↦ (chain, pin) ∷ [] ]

abbrev pub runtime_dim : Manifest → Object String
runtime_dim m = flat_map pinned_runtime (or_empty m.chains)

abbrev pub same_runtime_dim : Manifest → Manifest → Bool
same_runtime_dim a b = same_pairs (runtime_dim a) (runtime_dim b)

abbrev pub same_pins : Manifest → Manifest → Bool
same_pins a b = same_binary_dim a b && same_runtime_dim a b

pub record Candidate : Type 0 where
  pub id : String
  pub gating : Bool
  pub purpose : String
  pub manifest : Manifest

pub record Finished : Type 0 where
  pub candidate : Candidate
  pub steady : Bool
  pub moved : List Transition

abbrev pub finish : Manifest → Candidate → Finished
finish reference candidate = record {
  candidate = candidate;
  steady = same_pins reference candidate.manifest;
  moved = transitions reference candidate.manifest;
}

abbrev pub target_candidate : Manifest → Candidate
target_candidate head = record {
  id = "target";
  gating = true;
  purpose = "the declared target state — new binaries and new runtimes together, rollout order";
  manifest = head;
}

abbrev pub binaries_only : Manifest → Manifest → Candidate
binaries_only base head = record {
  id = "binaries-only";
  gating = false;
  purpose = "new binaries under the CURRENT runtimes — can the fleet upgrade binaries first?";
  manifest = record head { chains = base.chains };
}

abbrev pub runtimes_only : Manifest → Manifest → Candidate
runtimes_only base head = record {
  id = "runtimes-only";
  gating = false;
  purpose =
      "new runtimes on the CURRENT binaries — does the upgrade enact without the binary bump?";
  manifest = record head { binaries = base.binaries; services = base.services };
}

abbrev pub is_new : Manifest → Manifest → Candidate → Bool
is_new base head c = not (same_pins c.manifest head) && not (same_pins c.manifest base)

abbrev pub collapses : Manifest → Manifest → Bool
collapses base head =
    not (chain_names base == chain_names head)
    || same_binary_dim base head && same_runtime_dim base head

abbrev pub cross_terms : Manifest → Manifest → List Candidate
cross_terms base head =
    keep (is_new base head) (binaries_only base head ∷ runtimes_only base head ∷ [])

unfoldable pub candidate_matrix : Option Manifest → Manifest → List Finished
candidate_matrix none head = finish head (target_candidate head) ∷ []
candidate_matrix (some base) head =
    if collapses base head
    then finish base (target_candidate head) ∷ []
    else map (finish base) (target_candidate head ∷ cross_terms base head)
