-- ===== src/RuntimeDiff/Links.antt =====
-- environments/runtime-diff/links.ts: the changes that a failing test names.
use Prim.Native.Char.{code}
use polkadot_pop_e2e.Common.{
  ℕ, String, Bool, true, false, not, ◌&&◌, ◌||◌, Option, none, some, List, [], ◌∷◌, ◌++◌, map,
  flat_map, any, keep, find?, includes, if◌then◌else◌, eqb, ltb, sort, ◌==◌, is_blank, after_prefix,
  cat, occurs, mentions,
}
use polkadot_pop_e2e.RuntimeDiff.Papi.{Collation}
use polkadot_pop_e2e.RuntimeDiff.Entries.{EntryDiff, Change, added, removed, changed}
use polkadot_pop_e2e.RuntimeDiff.Extensions.{PipelineDiff}
use polkadot_pop_e2e.RuntimeDiff.Surfaces.{MissingSurface, is_word_char, selector_parts}

-- What `linksFor` reads of a chain's diff; a chain may have no diff but an error.
pub data ChainDiff : Type 0 where
  failed : (chain : String) → ChainDiff
  compared :
      (chain : String) (descriptor : Option String) (entries : List EntryDiff)
      (extensions : PipelineDiff) (missing : List MissingSurface)
      → ChainDiff

pub record Link : Type 0 where
  pub chain : String
  pub what : String
  pub why : String
  pub score : ℕ

abbrev pub ends_name : String → Bool
ends_name String.[] = true
ends_name (String.◌∷◌ c s) = not (is_word_char (code c))

-- The test of `(^|[^A-Za-z0-9_])<needle>($|[^A-Za-z0-9_])` from a place on, with whether a name
-- may start there.
abbrev pub starts_name : String → String → Bool
starts_name needle s = elim (after_prefix needle s) [ none ↦ false | some rest ↦ ends_name rest ]

abbrev pub names_from : String → Bool → String → Bool
names_from needle starts String.[] = starts && starts_name needle ""
names_from needle starts (String.◌∷◌ c s) =
    starts && starts_name needle (String.◌∷◌ c s)
    || names_from needle (not (is_word_char (code c))) s

abbrev pub needles_of : String × String × String → List String
needles_of (prefix, group, name) =
    if prefix == "api"
    then cat (group ∷ "_" ∷ name ∷ []) ∷ cat (group ∷ "." ∷ name ∷ []) ∷ []
    else cat (group ∷ "." ∷ name ∷ []) ∷ []

abbrev pub parts_or_empty : Option (String × String × String) → String × String × String
parts_or_empty none = ("", "", "")
parts_or_empty (some parts) = parts

-- The function `mentions` of the file.
unfoldable pub mentions_selector : String → String → Bool
mentions_selector message selector =
    any (λ needle. names_from needle true message)
      (needles_of (parts_or_empty (selector_parts selector)))

-- `REJECTED_TX`
abbrev pub rejected_tx : List String
rejected_tx =
    "InvalidTx" ∷ "BadProof" ∷ "BadSigner" ∷ "Invalid transaction" ∷ "transaction extension"
    ∷ "UnknownTransaction" ∷ "Transaction is outdated" ∷ []

abbrev pub is_rejected : String → Bool
is_rejected message = any (λ part. occurs part message) rejected_tx

abbrev pub is_removed : Change → Bool
is_removed removed = true
is_removed added = false
is_removed changed = false

abbrev pub entry_links : String → String → List EntryDiff → List Link
entry_links message chain entries =
    flat_map
      (λ e.
        if mentions_selector message e.selector
        then record { chain = chain; what = e.selector; why = "named in the error"; score = 7 } ∷ []
        else [])
      entries

abbrev pub gone_selectors : List EntryDiff → List String
gone_selectors entries = map (λ e. e.selector) (keep (λ e. is_removed e.change) entries)

abbrev pub surface_links : String → String → List EntryDiff → List MissingSurface → List Link
surface_links message chain entries missing =
    flat_map
      (λ m.
        if mentions_selector message m.selector
        then record {
          chain = chain;
          what = cat (m.selector ∷ " (gone)" ∷ []);
          why = "named in the error";
          score = 7;
        }
          ∷ []
        else [])
      (keep (λ m. not m.also_missing_on_live && not (includes (gone_selectors entries) m.selector))
        missing)

abbrev pub is_breaking_pipeline : PipelineDiff → Bool
is_breaking_pipeline ext =
    any (λ row. row.breaking) ext.versions || any (λ version. true) ext.versions_removed

abbrev pub extension_link : String → String → List Link
extension_link chain why =
    record { chain = chain; what = "transaction extensions"; why = why; score = 6 } ∷ []

abbrev pub rejected_links : String → String → List Link
rejected_links message chain =
    if is_rejected message then extension_link chain "the error is a rejected transaction" else []

-- An extension without a name is named by no error.
abbrev pub named_links : String → String → PipelineDiff → List Link
named_links message chain ext =
    elim (find? (λ id. mentions id message) (flat_map (λ row. row.before) ext.versions)) [
      | none ↦ rejected_links message chain
      | some id ↦
          if is_blank id
          then rejected_links message chain
          else extension_link chain (cat ("the error names " ∷ id ∷ []))
    ]

abbrev pub pipeline_links : String → String → Option String → PipelineDiff → List Link
pipeline_links message chain none ext = []
pipeline_links message chain (some descriptor) ext =
    if is_breaking_pipeline ext then named_links message chain ext else []

abbrev pub chain_links : String → ChainDiff → List Link
chain_links message (failed chain) = []
chain_links message (compared chain descriptor entries extensions missing) =
    entry_links message chain entries
    ++ surface_links message chain entries missing
    ++ pipeline_links message chain descriptor extensions

-- The best first, then the order of the names.
abbrev pub link_le : Collation → Link → Link → Bool
link_le collation a b =
    if eqb a.score b.score then collation.locale_le a.what b.what else ltb b.score a.score

unfoldable pub links_for : Collation → String → List ChainDiff → List Link
unfolding mentions_selector
links_for collation message chains =
    sort (link_le collation) (flat_map (chain_links message) chains)

pub record Failure : Type 0 where
  pub file : Option String
  pub name : Option String
  pub message : String

pub record Explained : Type 0 where
  pub failure : Failure
  pub links : List Link

unfoldable pub explain_failures : Collation → List ChainDiff → List Failure → List Explained
unfolding links_for
explain_failures collation chains failures =
    map (λ t. record { failure = t; links = links_for collation t.message chains }) failures
