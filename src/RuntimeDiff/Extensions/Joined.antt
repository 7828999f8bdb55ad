-- ===== src/RuntimeDiff/Extensions/Joined.antt =====
-- extensions.ts: what `common.join() !== ….join()` decides.
use Prim.Native.Char.{Char, code}
use Prim.Native.String.{◌++◌}
use text.Mathlib.TextLemmas.{
  nil-append, cons-append, append_cancel_left, append-eq-nil_iff, head-eq_of_cons-eq,
  tail-eq_of_cons-eq, cons≢nil,
}
use polkadot_pop_e2e.Common.{
  String, false, ◌≡◌, refl, sym, ap, ◌∙◌, ◌≢◌, arith, List, [], ◌∷◌, eq_iff, All, join, All-keep,
  ◌↔◌,
}
use polkadot_pop_e2e.RuntimeDiff.Extensions.{shared, is_reordered}

abbrev pub HasNoComma : String → Type 0
HasNoComma String.[] = Unit
HasNoComma (String.◌∷◌ c s) = (code c ≢ b',') × HasNoComma s

-- An identifier that a joined list shows again.
abbrev pub IsPlain : String → Type 0
IsPlain s = (s ≢ "") × HasNoComma s

comma-append : (r : String) → "," ++ r ≡ String.◌∷◌ "," r
comma-append r = cons-append "," String.[] r ∙ ap (String.◌∷◌ ",") (nil-append r)

-- A text that begins with the separator has it for its first character.
not_comma : (c : Char) (r u : String) → String.[] ++ ("," ++ r) ≡ String.◌∷◌ c u → code c ≡ b','
not_comma c r u e =
    sym (ap code (head-eq_of_cons-eq (sym (comma-append r) ∙ (sym (nil-append _) ∙ e))))

-- What stands before the first comma is determined.
split_unique :
    (a b r t : String)
    → HasNoComma a
    → HasNoComma b
    → a ++ ("," ++ r) ≡ b ++ ("," ++ t)
    → (a ≡ b) × (r ≡ t)
split_unique String.[] String.[] r t ha hb e =
    (refl, append_cancel_left "," r t (append_cancel_left "" _ _ e))
split_unique String.[] (String.◌∷◌ c b) r t ha hb e =
    absurd (hb.0 (not_comma c r (b ++ ("," ++ t)) (e ∙ cons-append c b ("," ++ t))))
split_unique (String.◌∷◌ c a) String.[] r t ha hb e =
    absurd (ha.0 (not_comma c t (a ++ ("," ++ r)) (sym e ∙ cons-append c a ("," ++ r))))
split_unique (String.◌∷◌ c a) (String.◌∷◌ d b) r t ha hb e =
    let e' = sym (cons-append c a ("," ++ r)) ∙ (e ∙ cons-append d b ("," ++ t)) in
    let (same, rest) = split_unique a b r t ha.1 hb.1 (tail-eq_of_cons-eq e') in
    (rw (same, head-eq_of_cons-eq e'), rest)

not-split : (a b t : String) → HasNoComma a → a ≡ b ++ ("," ++ t) → ⊥
not-split String.[] b t h e = cons≢nil (append-eq-nil_iff.0 (append-eq-nil_iff.0 (sym e)).1).0
not-split (String.◌∷◌ c a) String.[] t h e = h.0 (not_comma c t a (sym e))
not-split (String.◌∷◌ c a) (String.◌∷◌ d b) t h e =
    not-split a b t h.1 (tail-eq_of_cons-eq (e ∙ cons-append d b ("," ++ t)))

join_injective :
    (xs ys : List String) → All IsPlain xs → All IsPlain ys → join "," xs ≡ join "," ys → xs ≡ ys
join_injective [] [] h k e = refl
join_injective [] (y ∷ []) h k e = absurd (k.0.0 (sym e))
join_injective (x ∷ []) [] h k e = absurd (h.0.0 e)
join_injective [] (y ∷ z ∷ zs) h k e = absurd (k.0.0 (append-eq-nil_iff.0 (sym e)).0)
join_injective (x ∷ w ∷ ws) [] h k e = absurd (h.0.0 (append-eq-nil_iff.0 e).0)
join_injective (x ∷ []) (y ∷ []) h k e = ap (λ s. s ∷ []) e
join_injective (x ∷ []) (y ∷ z ∷ zs) h k e = absurd (not-split x y _ h.0.1 e)
join_injective (x ∷ w ∷ ws) (y ∷ []) h k e = absurd (not-split y x _ k.0.1 (sym e))
join_injective (x ∷ w ∷ ws) (y ∷ z ∷ zs) h k e =
    let (same, rest) = split_unique x y _ _ h.0.1 k.0.1 e in
    rw (same, join_injective (w ∷ ws) (z ∷ zs) h.1 k.1 rest) refl

-- The test for a reordering finds every change of order, for identifiers that are plain.
pub is_reordered_iff :
    (before after : List String)
    → All IsPlain before
    → All IsPlain after
    → (is_reordered before after ≡ false) ↔ (shared before after ≡ shared after before)
unfolding is_reordered
is_reordered_iff before after h k = (
  λ e.
      join_injective _ _ (All-keep IsPlain _ before h) (All-keep IsPlain _ after k)
        (ground (arith, eq_iff (join "," (shared before after)) (join "," (shared after before)))),
  λ e. ground (
    arith,
    eq_iff (join "," (shared before after)) (join "," (shared after before)),
    ap (join ",") e,
  ),
)
