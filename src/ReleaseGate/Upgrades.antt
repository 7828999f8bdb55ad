-- ===== src/ReleaseGate/Upgrades.antt =====
-- environments/plan-upgrades.mjs: which chains of a fork need a runtime upgrade.
pub mod Kept
use polkadot_pop_e2e.Common.{
  ℕ, String, Bool, true, false, not, ◌&&◌, ◌||◌, Option, none, some, List, [], ◌∷◌, map, flat_map,
  if◌then◌else◌, ltb, eqb, Object, field, includes, or_empty, split_on, trim, is_blank, starts, cat,
  join,
}
use polkadot_pop_e2e.ReleaseGate.Pins.{Manifest, ChainPin, file_prefix}

-- The notes, and the errors, of a run.
pub data Note : Type 0 where
  left_steady : (chain : String) (running : Option ℕ) → Note
  not_supplied : (chain : String) (running : Option ℕ) → Note
  unreadable : (chain : String) → Note
  unrecorded : (chain : String) (offered : ℕ) → Note
  already_runs : (chain : String) (running : ℕ) → Note
  upgrades : (chain : String) (running offered : ℕ) → Note

pub data Refused : Type 0 where
  same_version : (chain : String) (offered : ℕ) → Refused
  downgrade : (chain : String) (offered running : ℕ) → Refused

-- What one round of the loop pushes.
pub data Decision : Type 0 where
  keep_it : (note : Note) → Decision
  skip_it : (note : Note) → Decision
  refuse_it : (error : Refused) → Decision

-- `asked.size && !asked.has(chain)`
abbrev pub is_left_out : List String → String → Bool
is_left_out [] chain = false
is_left_out (a ∷ asked) chain = not (includes (a ∷ asked) chain)

-- The branches on a version that is read.
abbrev pub compare_versions : List String → String → Option ℕ → ℕ → Decision
compare_versions supplied chain none offered = keep_it (unrecorded chain offered)
compare_versions supplied chain (some at) offered =
    if eqb offered at && includes supplied chain
    then refuse_it (same_version chain offered)
    else if eqb offered at
    then skip_it (already_runs chain at)
    else if ltb offered at
    then refuse_it (downgrade chain offered at)
    else keep_it (upgrades chain at offered)

-- `spec_of` is `none` where it throws.
module _ (running : Object ℕ) (supplied : List String) (spec_of : String → Option ℕ) where
  abbrev pub decide : String × String → Decision
  decide (chain, wasm) =
      if is_left_out supplied chain
      then skip_it (not_supplied chain (field running chain))
      else elim (spec_of wasm) [
        | none ↦ keep_it (unreadable chain)
        | some offered ↦ compare_versions supplied chain (field running chain) offered
      ]

pub record Upgrades : Type 0 where
  pub keep : List (String × String)
  pub notes : List Note
  pub errors : List Refused

abbrev pub push_decision : String × String → Decision → Upgrades → Upgrades
push_decision line (keep_it note) rest = record rest {
  keep = line ∷ rest.keep;
  notes = note ∷ rest.notes;
}
push_decision line (skip_it note) rest = record rest { notes = note ∷ rest.notes }
push_decision line (refuse_it error) rest = record rest { errors = error ∷ rest.errors }

abbrev pub no_upgrades : Upgrades
no_upgrades = record { keep = []; notes = []; errors = [] }

unfoldable pub plan_upgrades :
    Bool → Object ℕ → List String → (String → Option ℕ) → List (String × String) → Upgrades
plan_upgrades true running supplied spec_of plan = record no_upgrades {
  notes = map (λ line. left_steady line.0 (field running line.0)) plan;
}
plan_upgrades false running supplied spec_of [] = no_upgrades
plan_upgrades false running supplied spec_of (line ∷ plan) =
    push_decision line (decide running supplied spec_of line)
      (plan_upgrades false running supplied spec_of plan)

-- The command line: a line of the plan file, the supplied chains, and what is printed.
abbrev pub plan_line : String → List (String × String)
plan_line text = elim (split_on 61 (trim text)) [
  | chain ∷ wasm ∷ more ↦ if is_blank chain || is_blank wasm then [] else (chain, wasm) ∷ []
  | _ ↦ []
]

unfoldable pub parse_plan : String → List (String × String)
parse_plan text = flat_map plan_line (split_on 10 text)

abbrev pub has_local_runtime : ChainPin → Bool
has_local_runtime pin = elim pin.runtime [ none ↦ false | some text ↦ starts file_prefix text ]

unfoldable pub supplied_chains : Manifest → List String
supplied_chains candidate =
    flat_map (λ entry. if has_local_runtime entry.1 then entry.0 ∷ [] else [])
      (or_empty candidate.chains)

-- `none` where an error ends the process.
unfoldable pub printed_plan : Upgrades → Option String
printed_plan result = elim result.errors [
  | [] ↦ some (join "\n" (map (λ line. cat (line.0 ∷ "=" ∷ line.1 ∷ [])) result.keep))
  | error ∷ more ↦ none
]
