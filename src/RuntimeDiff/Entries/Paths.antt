-- ===== src/RuntimeDiff/Entries/Paths.antt =====
-- entries.ts: the paths of a change that a row keeps.
use Prim.Native.String
use Prim.Native.String.{count}
use text.Mathlib.TextEquality.{starts_with_iff}
use mathlib.Core.Bool.{and-eq-true_iff, false≢true}
use text.Mathlib.TextLemmas.{append_assoc, length-append}
use polkadot_pop_e2e.Common.{
  ℕ, zero, suc, ◌+◌, ◌<◌, ◌≤◌, String, Bool, true, false, not, ◌≡◌, refl, sym, ap, ◌∙◌, ◌⊎◌, inl,
  inr, arith, some, List, [], ◌∷◌, ◌++◌, length, take, All, Any, All-take, All-map, any, keep,
  any→Any, Any-All, All-self, Bool-cases, length-take-le, Any-map, All-keep_test, any-false→All,
  take_short,
}
use polkadot_pop_e2e.RuntimeDiff.Papi.{Papi}
use polkadot_pop_e2e.RuntimeDiff.Entries.{
  args, value, Side, same_side, ChangePath, Ctx, is_deeper, deepest, on_side, changed_paths,
}

-- `q` lies below `p` in the tree of the type, on the same side.
abbrev pub IsBelow : ChangePath → ChangePath → Type 0
IsBelow q p =
    (q.side ≡ p.side) × ((rest : String) × (q.path ≡ String.◌++◌ p.path (String.◌++◌ "." rest)))

IsBelow-trans : (r q p : ChangePath) → IsBelow r q → IsBelow q p → IsBelow r p
IsBelow-trans r q p (s, (t, e)) (s', (t', e')) =
    (s ∙ s', (String.◌++◌ t' (String.◌++◌ "." t), rw (e, e') (simp append_assoc)))

IsBelow-count : (q p : ChangePath) → IsBelow q p → count p.path < count q.path
IsBelow-count q p (s, (t, e)) =
    omega (arith, ap count e, length-append p.path (String.◌++◌ "." t), length-append "." t)

same_side-eq : (s t : Side) → same_side s t ≡ true → s ≡ t
same_side-eq args t h = ground arith
same_side-eq value t h = ground arith

same_side_refl : (s : Side) → same_side s s ≡ true
same_side_refl args = refl
same_side_refl value = refl

is_deeper→IsBelow : (q p : ChangePath) → is_deeper q p ≡ true → IsBelow q p
is_deeper→IsBelow q p h =
    let (same, starts) = (and-eq-true_iff _ _).0 h in
    let (t, e) = (starts_with_iff _ _).0 starts in
    (same_side-eq _ _ same, (t, sym e ∙ append_assoc p.path "." t))

IsBelow→is_deeper : (q p : ChangePath) → IsBelow q p → is_deeper q p ≡ true
IsBelow→is_deeper q p (s, (t, e)) =
    (and-eq-true_iff _ _).1
      (rw s (same_side_refl p.side), (starts_with_iff _ _).1 (t, append_assoc p.path "." t ∙ sym e))

-- Some listed path is `p` or lies below it.
abbrev pub Covers : List ChangePath → ChangePath → Type 0
Covers xs p = Any (λ q. (q ≡ p) ⊎ IsBelow q p) xs

module _ (paths : List ChangePath) where
  abbrev survives : ChangePath → Bool
  survives p = not (any (λ q. is_deeper q p) paths)

  Any-keep :
      (p : ChangePath) (xs : List ChangePath)
      → survives p ≡ true
      → Any (λ q. q ≡ p) xs
      → Any (λ q. (q ≡ p)) (keep survives xs)
  Any-keep p (x ∷ xs) h (inl e) = rw e (rw h (inl refl))
  Any-keep p (x ∷ xs) h (inr m) = elim (Bool-cases (survives x)) [
    | inl kept ↦ rw kept (inr (Any-keep p xs h m))
    | inr gone ↦ rw gone (Any-keep p xs h m)
  ]
  Any-keep p [] h m = absurd m

  -- By descent: a path that is not kept has a longer one below it.
  deepest-Covers_from :
      (fuel bound : ℕ)
      → All (λ q. count q.path < bound) paths
      → (p : ChangePath) → Any (λ q. q ≡ p) paths
      → bound ≤ fuel + count p.path
      → Covers (keep survives paths) p
  deepest-Covers_from zero bound short p m h = absurd (
      Any-All (λ q. q ≡ p) (λ q. count q.path < bound) paths m short
        (λ q e lt. omega (arith, ap (λ (r : ChangePath). count r.path) e)))
  deepest-Covers_from (suc fuel) bound short p m h =
      elim (Bool-cases (any (λ q. is_deeper q p) paths)) [
        | inr none_below ↦
            Any-map (λ q. q ≡ p) (λ q. (q ≡ p) ⊎ IsBelow q p) (λ q e. inl e) _
              (Any-keep p paths (rw none_below) m)
        | inl below ↦
            Any-All (λ q. is_deeper q p ≡ true) (λ x. Any (λ y. y ≡ x) paths) paths
              (any→Any (λ q. is_deeper q p) paths below) (All-self paths)
              λ q deeper listed.
                let q_below = is_deeper→IsBelow q p deeper in
                Any-map (λ r. (r ≡ q) ⊎ IsBelow r q) (λ r. (r ≡ p) ⊎ IsBelow r p)
                  (λ r c. inr (below_either r q p q_below c)) _
                  (deepest-Covers_from fuel bound short q listed
                    (omega (arith, IsBelow-count q p q_below)))
      ]
    where
      below_either : (r q p : ChangePath) → IsBelow q p → (r ≡ q) ⊎ IsBelow r q → IsBelow r p
      below_either r q p b (inl e) = rw e b
      below_either r q p b (inr c) = IsBelow-trans r q p c b

longest : List ChangePath → ℕ
longest [] = 0
longest (p ∷ ps) = suc (count p.path) + longest ps

longest-bounds : (ps : List ChangePath) → All (λ q. count q.path < longest ps) ps
unfolding longest
longest-bounds [] = tt
longest-bounds (p ∷ ps) = (
  omega arith,
  All-map (λ q. count q.path < longest ps) (λ q. count q.path < longest (p ∷ ps))
      (λ q h. omega arith) ps (longest-bounds ps),
)

deepest-Covers : (paths : List ChangePath) → All (Covers (deepest paths)) paths
deepest-Covers paths =
    All-map (λ p. Any (λ q. q ≡ p) paths) (Covers (deepest paths))
      (λ p m.
        deepest-Covers_from paths (longest paths) (longest paths) (longest-bounds paths) p m
          (omega arith))
      paths (All-self paths)

deepest-none-IsBelow :
    (paths : List ChangePath) → All (λ p. All (λ q. ¬ IsBelow q p) paths) (deepest paths)
deepest-none-IsBelow paths =
    All-map (λ p. survives paths p ≡ true) (λ p. All (λ q. ¬ IsBelow q p) paths)
      (λ p kept.
        All-map (λ q. is_deeper q p ≡ false) (λ q. ¬ IsBelow q p)
          (λ q off below. false≢true (sym off ∙ IsBelow→is_deeper q p below)) paths
          (any-false→All (λ q. is_deeper q p) paths (not-eq-true _ kept)))
      (deepest paths) (All-keep_test (survives paths) paths)
  where
    not-eq-true : (b : Bool) → not b ≡ true → b ≡ false
    not-eq-true true h = cc
    not-eq-true false h = refl

module _ (papi : Papi) where
  -- The changes that the comparison reports, of both sides.
  abbrev pub reported : papi.EntryPoint → Ctx papi → papi.EntryPoint → Ctx papi → List ChangePath
  reported a live b candidate =
      let result = papi.are_compatible a live.node b candidate.node true in
      on_side args result.args.changes ++ on_side value result.values.changes

  -- At most eight paths are kept, and no kept path has a reported one below it. Unless the limit
  -- of eight cuts the list, every reported path is kept or has a kept one below it.
  pub changed_paths-deepest :
      (a : papi.EntryPoint) (live : Ctx papi) (b : papi.EntryPoint) (candidate : Ctx papi)
      (ps : List ChangePath)
      → changed_paths papi a live b candidate ≡ some ps
      → (length ps ≤ 8)
        × All (λ p. All (λ q. ¬ IsBelow q p) (reported a live b candidate)) ps
        × (length ps < 8 → All (Covers ps) (reported a live b candidate))
  unfolding changed_paths
  changed_paths-deepest a live b candidate ps e =
      let all_paths = reported a live b candidate in
      let kept : take 8 (deepest all_paths) ≡ ps = ground arith in
      rw (← kept) (
        length-take-le 8 (deepest all_paths),
        All-take (λ p. All (λ q. ¬ IsBelow q p) all_paths) 8 (deepest all_paths)
            (deepest-none-IsBelow all_paths),
        λ short. rw (take_short 8 (deepest all_paths) short) (deepest-Covers all_paths),
      )
