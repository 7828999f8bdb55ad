-- ===== src/ChainTests/Ring/Diagnostic/Verdicts.antt =====
-- ring.ts, `formatInclusionTimeout`: when each class of the report is given.
use mathlib.Core.Bool.{and-eq-true_iff}
use polkadot_pop_e2e.Common.{
  ℕ, ◌+◌, ◌*◌, ◌<◌, ◌≤◌, ◌≡◌, ◌≢◌, ◌↔◌, ◌⊎◌, inl, inr, refl, String, true, false, ◌&&◌, Option,
  some, none, ltb, ltb→lt, lt→ltb, sym, ap, eq_refl, eqb→eq, eqb_refl, ltb-false→le, Bool-cases,
  if◌then◌else◌, ◌==◌, eq_iff,
}
use polkadot_pop_e2e.ChainTests.Task.{
  Verdict, chain_slow, builder_stuck, not_picked_up, never_registered, ambiguous,
}
use polkadot_pop_e2e.ChainTests.Ring.Diagnostic.{
  RingDiagnostic, expected_blocks, is_unchanged, is_advanced, is_tag, is_missing, classify,
}

-- Both snapshots have a revision of ring 0: the same one, or a later one at the end.
pub record IsStuck (start end : RingDiagnostic) : Type 0 where
  pub unchanged : start.ring_zero_revision ≡ end.ring_zero_revision
  pub known : end.ring_zero_revision ≢ none

pub record HasAdvanced (start end : RingDiagnostic) : Type 0 where
  pub before : ℕ
  pub after : ℕ
  pub is_before : start.ring_zero_revision ≡ some before
  pub is_after : end.ring_zero_revision ≡ some after
  pub advanced : before < after

-- At least half of the blocks that six seconds each would give were made.
abbrev pub IsOnTime : (timeout_ms : ℕ) (start end : RingDiagnostic) → Type 0
IsOnTime timeout_ms start end =
    expected_blocks timeout_ms + 2 * start.block_number ≤ 2 * end.block_number

-- What each class says of the two snapshots and the last tag.
abbrev pub Says : (timeout_ms : ℕ) → Option String → (start end : RingDiagnostic) → Verdict → Type 0
Says timeout_ms last start end chain_slow =
    2 * end.block_number < expected_blocks timeout_ms + 2 * start.block_number
Says timeout_ms last start end builder_stuck = IsOnTime timeout_ms start end × IsStuck start end
Says timeout_ms last start end not_picked_up =
    IsOnTime timeout_ms start end × HasAdvanced start end × (last ≡ some "Onboarding")
Says timeout_ms last start end never_registered =
    IsOnTime timeout_ms start end × ¬ IsStuck start end × ((last ≡ none) ⊎ (last ≡ some "missing"))
Says timeout_ms last start end ambiguous =
    IsOnTime timeout_ms start end
    × ¬ IsStuck start end
    × ¬ (HasAdvanced start end × (last ≡ some "Onboarding"))
    × (last ≢ none)
    × (last ≢ some "missing")

unchanged_iff : (a b : Option ℕ) → (is_unchanged a b ≡ true) ↔ ((a ≡ b) × (b ≢ none))
unchanged_iff none b = (λ e. cc, λ (e, k). absurd (k (sym e)))
unchanged_iff (some a) none = (λ e. cc, λ (e, k). absurd (k refl))
unchanged_iff (some a) (some b) = (
  λ e. (ap some (eqb→eq a b e), λ h. cc),
  λ (e, k). let same : a ≡ b = cc in rw same (eqb_refl b),
)

advanced_iff :
    (a b : Option ℕ)
    → (is_advanced a b ≡ true) ↔ ((m : ℕ) × (n : ℕ) × (a ≡ some m) × (b ≡ some n) × (m < n))
advanced_iff none b = (λ e. cc, λ (m, n, e, f, h). cc)
advanced_iff (some a) none = (λ e. cc, λ (m, n, e, f, h). cc)
advanced_iff (some a) (some b) = (
  λ e. (a, b, refl, refl, ltb→lt a b e),
  λ (m, n, e, f, h).
      let left : a ≡ m = cc in let right : b ≡ n = cc in rw (left, right) (lt→ltb m n h),
)

tag_iff : (last : Option String) (tag : String) → (is_tag last tag ≡ true) ↔ (last ≡ some tag)
tag_iff none tag = (λ e. cc, λ e. cc)
tag_iff (some last) tag =
    (λ e. ap some ((eq_iff last tag).0 e), λ e. let same : last ≡ tag = cc in rw same (eq_refl tag))

missing_iff :
    (last : Option String) → (is_missing last ≡ true) ↔ ((last ≡ none) ⊎ (last ≡ some "missing"))
missing_iff none = (λ e. inl refl, λ e. refl)
missing_iff (some last) = (λ e. inr ((tag_iff (some last) "missing").0 e), back)
  where
    back : ((some last ≡ none) ⊎ (some last ≡ some "missing")) → (last == "missing") ≡ true
    back (inl e) = cc
    back (inr e) = (tag_iff (some last) "missing").1 e

module _ (timeout_ms : ℕ) (last : Option String) (start end : RingDiagnostic) where
  not-IsStuck :
      is_unchanged start.ring_zero_revision end.ring_zero_revision ≡ false → ¬ IsStuck start end
  not-IsStuck e stuck = let yes = (unchanged_iff _ _).1 (stuck.unchanged, stuck.known) in cc

  not_advanced :
      (is_advanced start.ring_zero_revision end.ring_zero_revision && is_tag last "Onboarding")
        ≡ false
      → ¬ (HasAdvanced start end × (last ≡ some "Onboarding"))
  not_advanced e (h, onboarding) =
      let left = (advanced_iff _ _).1 (h.before, h.after, h.is_before, h.is_after, h.advanced) in
      let right = (tag_iff last "Onboarding").1 onboarding in
      let both = (and-eq-true_iff _ _).1 (left, right) in cc

  -- The class of a timeout says what is true of the two snapshots and of the last tag: a slow chain
  -- first, then a revision that stood still, a builder that passed over an onboarding key, a last tag
  -- that is missing or was never set (whatever was seen before it), and the rest.
  pub classify_lem : Says timeout_ms last start end (classify timeout_ms last start end)
  unfolding classify
  classify_lem =
      elim (Bool-cases
        (ltb (2 * end.block_number) (expected_blocks timeout_ms + 2 * start.block_number))) [
          | inl slow ↦ rw slow (ltb→lt _ _ slow)
          | inr ontime ↦ rw ontime (on_time (ltb-false→le _ _ ontime))
        ]
    where
      later : Verdict
      later =
          if is_unchanged start.ring_zero_revision end.ring_zero_revision
          then builder_stuck
          else if is_advanced start.ring_zero_revision end.ring_zero_revision
              && is_tag last "Onboarding"
          then not_picked_up
          else if is_missing last
          then never_registered
          else ambiguous

      on_time : IsOnTime timeout_ms start end → Says timeout_ms last start end later
      on_time h = elim (Bool-cases (is_unchanged start.ring_zero_revision end.ring_zero_revision)) [
        | inl same ↦
            let (e, k) = (unchanged_iff _ _).0 same in
            rw same (h, record { unchanged = e; known = k })
        | inr differs ↦
            elim (Bool-cases (
              is_advanced start.ring_zero_revision end.ring_zero_revision
              && is_tag last "Onboarding")) [
                | inl advanced ↦
                    let (more, tag) = (and-eq-true_iff _ _).0 advanced in
                    let (m, n, e, f, lt) = (advanced_iff _ _).0 more in
                    rw (differs, advanced)
                      (
                        h,
                        record {
                          before = m;
                          after = n;
                          is_before = e;
                          is_after = f;
                          advanced = lt;
                        },
                        (tag_iff _ _).0 tag,
                      )
                | inr other ↦ elim (Bool-cases (is_missing last)) [
                  | inl missing ↦
                      rw (differs, other, missing)
                        (h, not-IsStuck differs, (missing_iff last).0 missing)
                  | inr seen ↦
                      rw (differs, other, seen)
                        (
                          h,
                          not-IsStuck differs,
                          not_advanced other,
                          (λ e. let yes = (missing_iff last).1 (inl e) in cc),
                          (λ e. let yes = (missing_iff last).1 (inr e) in cc),
                        )
                ]
              ]
      ]
