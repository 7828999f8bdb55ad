-- ===== src/ReleaseGate/Pins/Printed.antt =====
-- release-map.mjs, `parseReleaseRef`: the pins that it reads, against the text of a parsed pin.
use Prim.Native.Char.{Char, code}
use mathlib.Core.Path.{subst}
use text.Mathlib.TextEquality.{Char-path}
use polkadot_pop_e2e.Common.{
  ℕ, ◌≡◌, ◌↔◌, refl, sym, ap, ◌∙◌, inl, inr, arith, String, true, false, not, ◌&&◌, none, some, [],
  ◌∷◌, ok, err-ne-ok, ok-injective, trim, span, every, is_blank, after_prefix, cat, glue,
  Bool-cases, Option-cases,
}
use polkadot_pop_e2e.ReleaseGate.Pins.Spans.{
  String-cases, after_prefix_sound, span_sound, span_complete, glue-nil, glue_assoc,
}
use polkadot_pop_e2e.ReleaseGate.Pins.Words.{IsWord, word_before_sound, word_before_complete}
use polkadot_pop_e2e.ReleaseGate.Pins.{
  Ref, local, artifact, release, file_prefix, artifact_prefix, is_word, is_not_slash, is_not_space,
  artifact_ref, artifact_of, word_before, release_ref, parse_release, parse_artifact, parse_trimmed,
  parse_release_ref,
}

-- The pins that can be read.
pub data IsRef : Ref → Type 0 where
  of_file : (file : String) → is_blank file ≡ false → IsRef (local file)
  of_artifact :
      (name : String)
      → is_blank name ≡ false
      → every is_not_slash name ≡ true
      → IsRef (artifact name none)
  of_path :
      (name within : String) → every is_not_slash name ≡ true → IsRef (artifact name (some within))
  of_release :
      (owner name tag : String)
      → IsWord owner
      → IsWord name
      → is_blank tag ≡ false
      → every is_not_space tag ≡ true
      → IsRef (release (cat (owner ∷ "/" ∷ name ∷ [])) tag)

-- The text of a pin.
abbrev pub print_ref : Ref → String
print_ref (local file) = glue file_prefix file
print_ref (artifact name none) = glue artifact_prefix name
print_ref (artifact name (some within)) = glue artifact_prefix (glue name (glue "/" within))
print_ref (release repo tag) = glue repo (glue "@" tag)

-- ---------------------------------------------------------------- releases
release_text :
    (owner name tag : String)
    → glue (cat (owner ∷ "/" ∷ name ∷ [])) (glue "@" tag)
      ≡ glue owner (glue "/" (glue name (glue "@" tag)))
release_text owner name tag =
    glue_assoc owner (glue "/" (glue name "")) (glue "@" tag)
    ∙ ap (λ t. glue owner (glue "/" t)) (glue_assoc name "" (glue "@" tag))

release_ref_sound :
    (raw : String) (ref : Ref) → release_ref raw ≡ some ref → IsRef ref × (print_ref ref ≡ raw)
unfolding release_ref
release_ref_sound raw ref h = elim (Option-cases (word_before "/" raw)) [
  | inl n ↦ let absent : none ≡ some ref = rw (n, release_ref) at h in absurd (cc)
  | inr ((owner, behind), first) ↦ elim (Option-cases (word_before "@" behind)) [
    | inl n ↦ let absent : none ≡ some ref = rw (first, n, release_ref) at h in absurd (cc)
    | inr ((name, tag), second) ↦ elim (Bool-cases (not (is_blank tag) && every is_not_space tag)) [
      | inr bad ↦
          let absent : none ≡ some ref = rw (first, second, bad, release_ref) at h in absurd (cc)
      | inl good ↦
          let found : some (release (cat (owner ∷ "/" ∷ name ∷ [])) tag) ≡ some ref =
            rw (first, second, good, release_ref) at h in
          let same : release (cat (owner ∷ "/" ∷ name ∷ [])) tag ≡ ref = cc in
          let (owner_word, before) = word_before_sound "/" raw first in
          let (name_word, after) = word_before_sound "@" behind second in
          rw (← same) (
            of_release owner name tag owner_word name_word (ground arith) (ground arith),
            release_text owner name tag
                ∙ ap (λ t. glue owner (glue "/" t)) (sym after)
                ∙ sym before,
          )
    ]
  ]
]

release_ref_complete :
    (owner name tag : String)
    → IsWord owner
    → IsWord name
    → is_blank tag ≡ false
    → every is_not_space tag ≡ true
    → release_ref (glue owner (glue "/" (glue name (glue "@" tag))))
      ≡ some (release (cat (owner ∷ "/" ∷ name ∷ [])) tag)
unfolding release_ref
release_ref_complete owner name tag ho hn filled spaceless =
    rw
      (
        word_before_complete "/" owner (glue name (glue "@" tag)) ho refl,
        word_before_complete "@" name tag hn refl,
        filled,
        spaceless,
        release_ref,
      )
      refl

abbrev head_code : String → ℕ
head_code String.[] = 0
head_code (String.◌∷◌ c s) = code c

-- A text that starts with a word and a slash does not start with another word and a colon.
after_prefix-release :
    (scheme owner behind : String)
    → every is_word scheme ≡ true
    → every is_word owner ≡ true
    → after_prefix (glue scheme ":") (glue owner (glue "/" behind)) ≡ none
after_prefix-release scheme owner behind hs ho =
    let raw = glue owner (glue "/" behind) in
    elim (Option-cases (after_prefix (glue scheme ":") raw)) [
      | inl e ↦ e
      | inr (rest, e) ↦
          let same : raw ≡ glue scheme (glue ":" rest) =
            after_prefix_sound (glue scheme ":") raw e ∙ glue_assoc scheme ":" rest in
          let spans : (owner, glue "/" behind) ≡ (scheme, glue ":" rest) =
            sym (span_complete is_word owner (glue "/" behind) ho refl)
            ∙ ap (span is_word) same
            ∙ span_complete is_word scheme (glue ":" rest) hs refl in
          let codes : 47 ≡ 58 = ap (λ parts. head_code parts.1) spans in
          absurd (omega (arith, codes))
    ]

-- ---------------------------------------------------------------- artifacts
slash_first : (c : Char) (s : String) → is_not_slash (code c) ≡ false → String.◌∷◌ c s ≡ glue "/" s
slash_first c s h = ap (λ d. String.◌∷◌ d s) (Char-path c _ (ground arith))

artifact_ref_sound :
    (rest : String)
    → is_blank rest ≡ false
    → IsRef (artifact_ref rest) × (print_ref (artifact_ref rest) ≡ glue artifact_prefix rest)
artifact_ref_sound rest filled =
    let (splits, passes, stops) = span_sound is_not_slash rest in
    let name = (span is_not_slash rest).0 in
    let Reads = λ (ref : Ref). IsRef ref × (print_ref ref ≡ glue artifact_prefix rest) in
    elim (String-cases (span is_not_slash rest).1) [
      | inl e ↦
          let same : rest ≡ name = splits ∙ ap (glue name) e ∙ glue-nil name in
          subst Reads (sym (ap (λ w. artifact_of (name, w)) e)) (
            of_artifact name (ap is_blank (sym same) ∙ filled) passes,
            ap (glue artifact_prefix) (sym same),
          )
      | inr (c, within, e) ↦
          let slash = slash_first c within (rw e at stops) in
          let same : rest ≡ glue name (glue "/" within) =
            splits ∙ ap (glue name) e ∙ ap (glue name) slash in
          subst Reads (sym (ap (λ w. artifact_of (name, w)) e))
            (of_path name within passes, ap (glue artifact_prefix) (sym same))
    ]

artifact_ref-name :
    (name : String) → every is_not_slash name ≡ true → artifact_ref name ≡ artifact name none
artifact_ref-name name h =
    ap artifact_ref (sym (glue-nil name)) ∙ ap artifact_of (span_complete is_not_slash name "" h tt)

artifact_ref-path :
    (name within : String)
    → every is_not_slash name ≡ true
    → artifact_ref (glue name (glue "/" within)) ≡ artifact name (some within)
artifact_ref-path name within h =
    ap artifact_of (span_complete is_not_slash name (glue "/" within) h refl)

filled_path : (name within : String) → is_blank (glue name (glue "/" within)) ≡ false
filled_path String.[] within = refl
filled_path (String.◌∷◌ c name) within = refl

-- ---------------------------------------------------------------- all forms
parse_trimmed_sound :
    (source raw : String) (ref : Ref)
    → parse_trimmed source raw ≡ ok ref
    → IsRef ref × (print_ref ref ≡ raw)
parse_trimmed_sound source raw ref h = elim (Option-cases (after_prefix file_prefix raw)) [
  | inr (file, f) ↦ elim (Bool-cases (is_blank file)) [
    | inl blank ↦ absurd (err-ne-ok (rw (f, blank, parse_trimmed) at h))
    | inr filled ↦
        let same : local file ≡ ref = ok-injective (rw (f, filled, parse_trimmed) at h) in
        rw (← same) (of_file file filled, sym (after_prefix_sound file_prefix raw f))
  ]
  | inl f ↦ elim (Option-cases (after_prefix artifact_prefix raw)) [
    | inr (rest, a) ↦ elim (Bool-cases (is_blank rest)) [
      | inl blank ↦ absurd (err-ne-ok (rw (f, a, blank, parse_trimmed, parse_artifact) at h))
      | inr filled ↦
          let same : artifact_ref rest ≡ ref =
            ok-injective (rw (f, a, filled, parse_trimmed, parse_artifact) at h) in
          let (is_ref, printed) = artifact_ref_sound rest filled in
          subst (λ r. IsRef r × (print_ref r ≡ raw)) same
            (is_ref, printed ∙ sym (after_prefix_sound artifact_prefix raw a))
    ]
    | inl a ↦ elim (Option-cases (release_ref raw)) [
      | inl r ↦ absurd (err-ne-ok (rw (f, a, r, parse_trimmed, parse_artifact, parse_release) at h))
      | inr (parsed, r) ↦
          let same : parsed ≡ ref =
            ok-injective (rw (f, a, r, parse_trimmed, parse_artifact, parse_release) at h) in
          release_ref_sound raw ref (r ∙ ap some same)
    ]
  ]
]

parse_trimmed_release :
    (source owner behind : String) {ref : Ref}
    → release_ref (glue owner (glue "/" behind)) ≡ some ref
    → IsWord owner
    → parse_trimmed source (glue owner (glue "/" behind)) ≡ ok ref
parse_trimmed_release source owner behind h (filled, word) =
    rw
      (
        parse_trimmed,
        parse_artifact,
        parse_release,
        after_prefix-release "file" owner behind refl word,
        after_prefix-release "artifact" owner behind refl word,
        h,
      )
      refl

parse_trimmed_complete :
    (source : String) (ref : Ref) → IsRef ref → parse_trimmed source (print_ref ref) ≡ ok ref
parse_trimmed_complete source (local file) (of_file f filled) = rw filled refl
parse_trimmed_complete source (artifact name none) (of_artifact n filled passes) =
    rw filled (ap ok (artifact_ref-name name passes))
parse_trimmed_complete source (artifact name (some within)) (of_path n w passes) =
    rw (filled_path name within) (ap ok (artifact_ref-path name within passes))
parse_trimmed_complete source (release repo tag) (of_release owner name t ho hn filled spaceless) =
    let raw = glue owner (glue "/" (glue name (glue "@" t))) in
    let behind = glue name (glue "@" t) in
    ap (parse_trimmed source) (release_text owner name t)
    ∙ parse_trimmed_release source owner behind
        (release_ref_complete owner name t ho hn filled spaceless) ho

-- `parseReleaseRef` reads a text as a pin exactly if the pin is well formed and printing it gives
-- the text without the white space around it: a local file with a path, an artifact with a name or a
-- path, or a release of an owner's repository under a tag without white space.
pub parse_release_ref-printed :
    (source : String) (ref : Ref)
    → (parse_release_ref source ≡ ok ref) ↔ (IsRef ref × (print_ref ref ≡ trim source))
unfolding parse_release_ref
parse_release_ref-printed source ref = (
  parse_trimmed_sound source (trim source) ref,
  λ (is, e). ap (parse_trimmed source) (sym e) ∙ parse_trimmed_complete source ref is,
)
