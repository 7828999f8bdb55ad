-- ===== src/Common/Texts.antt =====
-- The string operations that the components share: a suffix taken off, a case-insensitive search.
use Prim.Native.Nat.{ℕ, ◌+◌}
use Prim.Native.Char.{code}
use Prim.Native.String.{String}
use mathlib.Core.Bool.{Bool, true, false, not, ◌&&◌, ◌||◌}
use mathlib.Core.List.{List, [], ◌∷◌}
use mathlib.Core.Option.{Option, none, some}
use text.Mathlib.Text.{◌==◌}
use polkadot_pop_e2e.Common.Branching.{if◌then◌else◌, leb, eqb}

-- `s.replace(/<suffix>$/, "")`, and whether there is such a suffix.
abbrev pub drop_suffix : String → String → String
drop_suffix suffix String.[] = ""
drop_suffix suffix (String.◌∷◌ c s) =
    if String.◌∷◌ c s == suffix then "" else String.◌∷◌ c (drop_suffix suffix s)

abbrev pub has_suffix : String → String → Bool
has_suffix suffix String.[] = "" == suffix
has_suffix suffix (String.◌∷◌ c s) = String.◌∷◌ c s == suffix || has_suffix suffix s

-- The letters without their case, as `/…/i` compares them with a pattern of ASCII letters.
abbrev pub fold_case : ℕ → ℕ
fold_case c = if leb 65 c && leb c 90 then c + 32 else c

abbrev pub has_prefix : String → String → Bool
has_prefix String.[] s = true
has_prefix (String.◌∷◌ p ps) String.[] = false
has_prefix (String.◌∷◌ p ps) (String.◌∷◌ c s) =
    eqb (fold_case (code p)) (fold_case (code c)) && has_prefix ps s

-- `/<part>/i.test(s)`
abbrev pub occurs : String → String → Bool
occurs part String.[] = has_prefix part ""
occurs part (String.◌∷◌ c s) = has_prefix part (String.◌∷◌ c s) || occurs part s

-- `s.includes(part)`, with the case of its letters.
abbrev pub starts : String → String → Bool
starts String.[] s = true
starts (String.◌∷◌ p ps) String.[] = false
starts (String.◌∷◌ p ps) (String.◌∷◌ c s) = eqb (code p) (code c) && starts ps s

abbrev pub mentions : String → String → Bool
mentions part String.[] = starts part ""
mentions part (String.◌∷◌ c s) = starts part (String.◌∷◌ c s) || mentions part s

-- A white space or line terminator of the language, as `\s` and `trim` take it.
abbrev pub is_space : ℕ → Bool
is_space c =
    leb 9 c && leb c 13
    || eqb c 32
    || eqb c 160
    || eqb c 0x1680
    || leb 0x2000 c && leb c 0x200a
    || eqb c 0x2028
    || eqb c 0x2029
    || eqb c 0x202f
    || eqb c 0x205f
    || eqb c 0x3000
    || eqb c 0xfeff

abbrev pub is_blank : String → Bool
is_blank String.[] = true
is_blank (String.◌∷◌ c s) = false

abbrev pub trim_start : String → String
trim_start String.[] = ""
trim_start (String.◌∷◌ c s) = if is_space (code c) then trim_start s else String.◌∷◌ c s

abbrev pub trim_end : String → String
trim_end String.[] = ""
trim_end (String.◌∷◌ c s) =
    let rest = trim_end s in if is_space (code c) && is_blank rest then "" else String.◌∷◌ c rest

-- `s.trim()`
abbrev pub trim : String → String
trim s = trim_end (trim_start s)

-- The longest prefix whose code points pass the test, and what follows it.
abbrev pub span : (ℕ → Bool) → String → String × String
span p String.[] = ("", "")
span p (String.◌∷◌ c s) =
    let rest = span p s in
    if p (code c) then (String.◌∷◌ c rest.0, rest.1) else ("", String.◌∷◌ c s)

-- Whether every code point passes the test.
abbrev pub every : (ℕ → Bool) → String → Bool
every p String.[] = true
every p (String.◌∷◌ c s) = p (code c) && every p s

-- `s.slice(prefix.length)` where `s.startsWith(prefix)`.
abbrev pub after_prefix : String → String → Option String
after_prefix String.[] s = some s
after_prefix (String.◌∷◌ p ps) String.[] = none
after_prefix (String.◌∷◌ p ps) (String.◌∷◌ c s) =
    if eqb (code p) (code c) then after_prefix ps s else none

-- `s.split("\n")[0]`
abbrev pub first_line : String → String
first_line s = (span (λ c. not (eqb c 10)) s).0

-- Texts put together.
abbrev pub glue : String → String → String
glue String.[] b = b
glue (String.◌∷◌ c a) b = String.◌∷◌ c (glue a b)

abbrev pub cat : List String → String
cat [] = ""
cat (s ∷ rest) = glue s (cat rest)

-- Whether a text is there and not empty, as a condition takes it.
abbrev pub is_set : Option String → Bool
is_set none = false
is_set (some text) = not (is_blank text)

-- `s.split(separator)` at a single character.
abbrev pub split_on : ℕ → String → List String
split_on separator String.[] = "" ∷ []
split_on separator (String.◌∷◌ c s) = elim (split_on separator s) [
  | [] ↦ String.◌∷◌ c "" ∷ []
  | part ∷ parts ↦ if eqb (code c) separator then "" ∷ part ∷ parts else String.◌∷◌ c part ∷ parts
]

-- `value ?? fallback`
abbrev pub text_or : String → Option String → String
text_or fallback none = fallback
text_or fallback (some value) = value
