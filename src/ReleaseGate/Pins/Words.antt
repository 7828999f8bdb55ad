-- ===== src/ReleaseGate/Pins/Words.antt =====
-- release-map.mjs, `parseReleaseRef`: the words of a release's owner and name.
use polkadot_pop_e2e.Common.{
  ◌≡◌, sym, ap, ◌∙◌, inl, inr, String, true, false, none, some, span, every, is_blank, after_prefix,
  glue, Bool-cases, Option-cases,
}
use polkadot_pop_e2e.ReleaseGate.Pins.Spans.{
  Stops, after_prefix_sound, after_prefix_complete, span_sound, span_complete,
}
use polkadot_pop_e2e.ReleaseGate.Pins.{is_word, word_before}

-- A non-empty text of the characters of an owner's or a repository's name.
abbrev pub IsWord : String → Type 0
IsWord word = (is_blank word ≡ false) × (every is_word word ≡ true)

pub word_before_sound :
    (separator s : String) {word rest : String}
    → word_before separator s ≡ some (word, rest)
    → IsWord word × (s ≡ glue word (glue separator rest))
unfolding word_before
word_before_sound separator s {word = word} {rest = rest} h =
    let (splits, passes, stops) = span_sound is_word s in
    elim (Bool-cases (is_blank (span is_word s).0)) [
      | inl e ↦ let absent : none ≡ some (word, rest) = rw (e, word_before) at h in absurd (cc)
      | inr e ↦ elim (Option-cases (after_prefix separator (span is_word s).1)) [
        | inl n ↦ let absent : none ≡ some (word, rest) = rw (e, n, word_before) at h in absurd (cc)
        | inr (left, n) ↦
            let found : some ((span is_word s).0, left) ≡ some (word, rest) =
              rw (e, n, word_before) at h in
            let same_word : (span is_word s).0 ≡ word = cc in
            let same_rest : left ≡ rest = cc in
            let whole : s ≡ glue (span is_word s).0 (glue separator left) =
              splits ∙ ap (glue (span is_word s).0) (after_prefix_sound separator _ n) in
            (
              (ap is_blank (sym same_word) ∙ e, ap (every is_word) (sym same_word) ∙ passes),
              whole
                  ∙ ap (λ w. glue w (glue separator left)) same_word
                  ∙ ap (λ r. glue word (glue separator r)) same_rest,
            )
      ]
    ]

pub word_before_complete :
    (separator word rest : String)
    → IsWord word
    → Stops is_word (glue separator rest)
    → word_before separator (glue word (glue separator rest)) ≡ some (word, rest)
unfolding word_before
word_before_complete separator word rest (filled, passes) stops =
    rw
      (
        span_complete is_word word (glue separator rest) passes stops,
        filled,
        after_prefix_complete separator rest,
      )
      (ap (λ parts. some (parts.0, rest))
        (span_complete is_word word (glue separator rest) passes stops))
