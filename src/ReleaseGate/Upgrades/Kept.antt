-- ===== src/ReleaseGate/Upgrades/Kept.antt =====
-- plan-upgrades.mjs: the chains that `planUpgrades` keeps, leaves and refuses.
use polkadot_pop_e2e.Common.{
  ℕ, ◌<◌, ◌≡◌, refl, ◌⊎◌, inl, inr, arith, String, true, false, Option, none, some, List, [], ◌∷◌,
  eqb, ltb, Object, field, includes, Bool-cases, Option-cases, ltb→lt, eqb→eq, ap, ◌∙◌,
}
use polkadot_pop_e2e.ReleaseGate.Upgrades.{
  Refused, same_version, downgrade, decide, compare_versions, plan_upgrades, is_left_out, Decision,
  keep_it, skip_it, refuse_it, Upgrades, push_decision,
}

-- With nothing supplied, all chains are asked about.
abbrev pub IsAsked : List String → String → Type 0
IsAsked supplied chain = (supplied ≡ []) ⊎ (includes supplied chain ≡ true)

left_out→not_asked :
    (supplied : List String) (chain : String)
    → is_left_out supplied chain ≡ true
    → IsAsked supplied chain
    → ⊥
left_out→not_asked [] chain h asked = cc
left_out→not_asked (s ∷ supplied) chain h (inl e) = cc
left_out→not_asked (s ∷ supplied) chain h (inr e) = ground arith

not_left_out→asked :
    (supplied : List String) (chain : String)
    → is_left_out supplied chain ≡ false
    → IsAsked supplied chain
not_left_out→asked [] chain h = inl refl
not_left_out→asked (s ∷ supplied) chain h = inr (ground arith)

asked_not_included :
    (supplied : List String) (chain : String)
    → IsAsked supplied chain
    → includes supplied chain ≡ false
    → supplied ≡ []
asked_not_included supplied chain (inl e) h = e
asked_not_included supplied chain (inr e) h = cc

module _ (running : Object ℕ) (supplied : List String) (spec_of : String → Option ℕ) where
  pub data IsUpgrade : String × String → Type 0 where
    unread :
        {chain wasm : String}
        → IsAsked supplied chain
        → spec_of wasm ≡ none
        → IsUpgrade (chain, wasm)
    unknown :
        {chain wasm : String}
        → IsAsked supplied chain
        → field running chain ≡ none
        → IsUpgrade (chain, wasm)
    newer :
        {chain wasm : String} (at offered : ℕ)
        → IsAsked supplied chain
        → field running chain ≡ some at
        → spec_of wasm ≡ some offered
        → at < offered
        → IsUpgrade (chain, wasm)

  pub data IsLeft : String × String → Type 0 where
    unasked : {chain wasm : String} → (IsAsked supplied chain → ⊥) → IsLeft (chain, wasm)
    current :
        {chain wasm : String} (at : ℕ)
        → supplied ≡ []
        → field running chain ≡ some at
        → spec_of wasm ≡ some at
        → IsLeft (chain, wasm)

  pub data IsRefused : String × String → Refused → Type 0 where
    same :
        {chain wasm : String} (at : ℕ)
        → includes supplied chain ≡ true
        → field running chain ≡ some at
        → spec_of wasm ≡ some at
        → IsRefused (chain, wasm) (same_version chain at)
    older :
        {chain wasm : String} (at offered : ℕ)
        → IsAsked supplied chain
        → field running chain ≡ some at
        → spec_of wasm ≡ some offered
        → offered < at
        → IsRefused (chain, wasm) (downgrade chain offered at)

  -- A plan sifted, line by line and in its order, into the upgrades and the errors.
  pub data Sifts : List (String × String) → List (String × String) → List Refused → Type 0 where
    done : Sifts [] [] []
    kept :
        {line : String × String} {plan keep : List (String × String)} {errors : List Refused}
        → IsUpgrade line
        → Sifts plan keep errors
        → Sifts (line ∷ plan) (line ∷ keep) errors
    left :
        {line : String × String} {plan keep : List (String × String)} {errors : List Refused}
        → IsLeft line
        → Sifts plan keep errors
        → Sifts (line ∷ plan) keep errors
    refused :
        {line : String × String} {plan keep : List (String × String)} {errors : List Refused}
        {error : Refused}
        → IsRefused line error
        → Sifts plan keep errors
        → Sifts (line ∷ plan) keep (error ∷ errors)

  -- What a round pushes, for a line of the plan.
  abbrev Decides : String × String → Decision → Type 0
  Decides line (keep_it note) = IsUpgrade line
  Decides line (skip_it note) = IsLeft line
  Decides line (refuse_it error) = IsRefused line error

  compare_versions-Decides :
      (chain wasm : String) (offered : ℕ)
      → IsAsked supplied chain
      → spec_of wasm ≡ some offered
      → Decides (chain, wasm) (compare_versions supplied chain (field running chain) offered)
  compare_versions-Decides chain wasm offered asked read =
      elim (Option-cases (field running chain)) [
        | inl e ↦ rw e (unknown asked e)
        | inr (at, e) ↦ elim (Bool-cases (eqb offered at)) [
          | inl equal ↦
              let here = read ∙ ap some (eqb→eq offered at equal) in
              elim (Bool-cases (includes supplied chain)) [
                | inl listed ↦
                    rw (e, equal, listed, eqb→eq offered at equal) (same at listed e here)
                | inr absent ↦
                    rw (e, equal, absent)
                      (current at (asked_not_included supplied chain asked absent) e here)
              ]
          | inr differs ↦ elim (Bool-cases (ltb offered at)) [
            | inl less ↦
                rw (e, differs, less) (older at offered asked e read (ltb→lt offered at less))
            | inr more ↦ rw (e, differs, more) (newer at offered asked e read (ground arith))
          ]
        ]
      ]

  decide-Decides : (line : String × String) → Decides line (decide running supplied spec_of line)
  decide-Decides (chain, wasm) = elim (Bool-cases (is_left_out supplied chain)) [
    | inl out ↦ rw out (unasked (left_out→not_asked supplied chain out))
    | inr stays ↦
        let asked = not_left_out→asked supplied chain stays in
        elim (Option-cases (spec_of wasm)) [
          | inl e ↦ rw (stays, e) (unread asked e)
          | inr (offered, e) ↦ rw (stays, e) (compare_versions-Decides chain wasm offered asked e)
        ]
  ]

  push-Sifts :
      (line : String × String) (plan : List (String × String)) (d : Decision) (rest : Upgrades)
      → Decides line d
      → Sifts plan rest.keep rest.errors
      → Sifts (line ∷ plan) (push_decision line d rest).keep (push_decision line d rest).errors
  push-Sifts line plan (keep_it note) rest h t = kept h t
  push-Sifts line plan (skip_it note) rest h t = left h t
  push-Sifts line plan (refuse_it error) rest h t = refused h t

  -- `planUpgrades` goes through the plan in its order. It keeps the lines of the asked chains whose
  -- blob is unreadable, whose running version is unknown, or whose offered version is greater than
  -- the running one; it refuses an asked chain whose version is lower, or is the same though its
  -- build was supplied; it leaves the others. A steady run keeps and refuses nothing.
  pub plan_upgrades-Sifts :
      (plan : List (String × String))
      → let result = plan_upgrades false running supplied spec_of plan in
        let steady = plan_upgrades true running supplied spec_of plan in
        Sifts plan result.keep result.errors × (steady.keep ≡ []) × (steady.errors ≡ [])
  unfolding plan_upgrades
  plan_upgrades-Sifts [] = (done, refl, refl)
  plan_upgrades-Sifts (line ∷ plan) = (
    push-Sifts line plan (decide running supplied spec_of line)
        (plan_upgrades false running supplied spec_of plan) (decide-Decides line)
        (plan_upgrades-Sifts plan).0,
    refl,
    refl,
  )
