-- ===== src/ReleaseGate/Pins/Spans.antt =====
-- The scanning of a pin: a prefix taken off, and the longest run of characters that pass a test.
use Prim.Native.Char.{Char, code}
use text.Mathlib.TextEquality.{Char-path}
use polkadot_pop_e2e.Common.{
  ℕ, ◌≡◌, refl, sym, ap, ◌∙◌, ◌⊎◌, inl, inr, arith, String, Bool, true, false, none, some, eqb,
  eqb→eq, eqb_refl, glue, span, every, after_prefix, Bool-cases,
}

-- The text is empty, or its first character fails the test.
abbrev pub Stops : (ℕ → Bool) → String → Type 0
Stops p String.[] = Unit
Stops p (String.◌∷◌ c s) = p (code c) ≡ false

pub String-cases :
    (s : String) → (s ≡ "") ⊎ ((c : Char) × (rest : String) × (s ≡ String.◌∷◌ c rest))
String-cases String.[] = inl refl
String-cases (String.◌∷◌ c s) = inr (c, s, refl)

pub after_prefix_sound :
    (p s : String) {rest : String} → after_prefix p s ≡ some rest → s ≡ glue p rest
after_prefix_sound String.[] s {rest = rest} h = let same : s ≡ rest = cc in same
after_prefix_sound (String.◌∷◌ c p) String.[] h = cc
after_prefix_sound (String.◌∷◌ c p) (String.◌∷◌ d s) {rest = rest} h =
    elim (Bool-cases (eqb (code c) (code d))) [
      | inl e ↦
          let same : c ≡ d = Char-path c d (eqb→eq (code c) (code d) e) in
          ap (λ t. String.◌∷◌ d t) (after_prefix_sound p s (rw e at h))
          ∙ ap (λ x. String.◌∷◌ x (glue p rest)) (sym same)
      | inr e ↦ let no_rest : none ≡ some rest = rw e at h in absurd (cc)
    ]

pub after_prefix_complete : (p rest : String) → after_prefix p (glue p rest) ≡ some rest
after_prefix_complete String.[] rest = refl
after_prefix_complete (String.◌∷◌ c p) rest = rw (eqb_refl (code c)) (after_prefix_complete p rest)

pub span_sound :
    (p : ℕ → Bool) (s : String)
    → (s ≡ glue (span p s).0 (span p s).1) × (every p (span p s).0 ≡ true) × Stops p (span p s).1
span_sound p String.[] = (refl, refl, tt)
span_sound p (String.◌∷◌ c s) = elim (Bool-cases (p (code c))) [
  | inl e ↦
      let (splits, passes, stops) = span_sound p s in
      rw e (ap (λ t. String.◌∷◌ c t) splits, ground arith, stops)
  | inr e ↦ rw e (refl, refl, e)
]

pub span_complete :
    (p : ℕ → Bool) (a b : String) → every p a ≡ true → Stops p b → span p (glue a b) ≡ (a, b)
span_complete p String.[] String.[] h k = refl
span_complete p String.[] (String.◌∷◌ c b) h k = rw k refl
span_complete p (String.◌∷◌ c a) b h k = elim (Bool-cases (p (code c))) [
  | inl e ↦ let rest = span_complete p a b (ground arith) k in rw (e, rest) refl
  | inr e ↦ absurd (ground arith)
]

pub glue-nil : (a : String) → glue a "" ≡ a
glue-nil String.[] = refl
glue-nil (String.◌∷◌ c a) = ap (λ t. String.◌∷◌ c t) (glue-nil a)

pub glue_assoc : (a b c : String) → glue (glue a b) c ≡ glue a (glue b c)
glue_assoc String.[] b c = refl
glue_assoc (String.◌∷◌ x a) b c = ap (λ t. String.◌∷◌ x t) (glue_assoc a b c)
