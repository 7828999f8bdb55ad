-- ===== src/ReleaseGate/Sections.antt =====
-- environments/gate-form.mjs, `section` and the fence of `parseAdvanced`: the texts that an issue's
-- form holds.
use Prim.Native.Char.{code}
use polkadot_pop_e2e.Common.{
  String, Bool, false, Option, none, some, [], ◌∷◌, if◌then◌else◌, ◌==◌, eqb, trim, trim_start,
  span, is_space, after_prefix, cat,
}

-- The body of the first fence of backquotes, up to the next fence.
abbrev pub fence : String
fence = "```"

abbrev pub up_to : String → String → Option String
up_to mark String.[] = none
up_to mark (String.◌∷◌ c s) = elim (after_prefix mark (String.◌∷◌ c s)) [
  | some rest ↦ some ""
  | none ↦ elim (up_to mark s) [ none ↦ none | some found ↦ some (String.◌∷◌ c found) ]
]

-- `(?:json)?\n`
abbrev pub fence_line : String → Option String
fence_line s = elim (after_prefix "json\n" s) [ some rest ↦ some rest | none ↦ after_prefix "\n" s ]

abbrev pub fenced_at : String → Option String
fenced_at s = elim (after_prefix fence s) [
  | none ↦ none
  | some behind ↦ elim (fence_line behind) [ none ↦ none | some body ↦ up_to fence body ]
]

abbrev pub fenced : String → Option String
fenced String.[] = none
fenced (String.◌∷◌ c s) = elim (fenced_at (String.◌∷◌ c s)) [
  | some body ↦ some body
  | none ↦ fenced s
]

-- A heading of the form at this place: the text behind the last line break of the white space
-- after the label.
abbrev pub behind_break : String → Option String
behind_break String.[] = none
behind_break (String.◌∷◌ c s) = elim (behind_break s) [
  | some rest ↦ some rest
  | none ↦ if eqb (code c) 10 then some s else none
]

abbrev pub after_heading : String → String → Option String
after_heading label s = elim (after_prefix "###" s) [
  | none ↦ none
  | some spaced ↦ elim (after_prefix label (trim_start spaced)) [
    | none ↦ none
    | some behind ↦
        let parts = span is_space behind in
        elim (behind_break parts.0) [ none ↦ none | some blank ↦ some (cat (blank ∷ parts.1 ∷ [])) ]
  ]
]

abbrev pub behind_heading : String → String → Option String
behind_heading label String.[] = none
behind_heading label (String.◌∷◌ c s) = elim (after_heading label (String.◌∷◌ c s)) [
  | some rest ↦ some rest
  | none ↦ behind_heading label s
]

abbrev pub before_heading : String → String → String
before_heading label String.[] = ""
before_heading label (String.◌∷◌ c s) = elim (after_heading label (String.◌∷◌ c s)) [
  | some rest ↦ ""
  | none ↦ String.◌∷◌ c (before_heading label s)
]

-- `/\n###\s/` at this place.
abbrev pub is_next_section : String → Bool
is_next_section s = elim (after_prefix "\n###" s) [
  | none ↦ false
  | some String.[] ↦ false
  | some (String.◌∷◌ c rest) ↦ is_space (code c)
]

abbrev pub before_section : String → String
before_section String.[] = ""
before_section (String.◌∷◌ c s) =
    let rest = before_section s in
    if is_next_section (String.◌∷◌ c s) then "" else String.◌∷◌ c rest

unfoldable pub section : String → String → String
section body label = elim (behind_heading label body) [
  | none ↦ ""
  | some behind ↦
      let value = trim (before_section (before_heading label behind)) in
      if value == "_No response_" then "" else value
]
