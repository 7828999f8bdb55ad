-- ===== src/ChainTests/Task/Rules.antt =====
-- Proof rules for tasks: postconditions of the value returned, and the time that passes.
use mathlib.Core.Path.{subst}
use polkadot_pop_e2e.Common.{
  ℕ, ◌+◌, ◌≢◌, ◌≤◌, ◌≡◌, refl, arith, Result, ok, err, none, inl, inr, Option-cases,
}
use polkadot_pop_e2e.ChainTests.Task.{
  World, Failure, out_of_fuel, Network, Task, pure, throw, ◌>>=◌, continue, remote, sleep, date_now,
}

-- What holds of a value that the task returns.
abbrev pub Ensures : {A : Type 0} → Task A → (A → Type 0) → Type 0
Ensures {A} m P = (w w' : World) (a : A) → m w ≡ (ok a, w') → P a

continue-eq-ok :
    {A B : Type 0} (r : Result Failure A × World) (f : A → Task B) {b : B} {w' : World}
    → continue r f ≡ (ok b, w')
    → (a : A) × (w₁ : World) × (r ≡ (ok a, w₁)) × (f a w₁ ≡ (ok b, w'))
continue-eq-ok (ok a, w) f h = (a, w, refl, h)
continue-eq-ok (err e, w) f h = cc

module _ {A B : Type 0} {P : A → Type 0} {Q : B → Type 0} where
  pub Ensures-bind :
      (m : Task A) (f : A → Task B)
      → Ensures m P
      → ((a : A) → P a → Ensures (f a) Q)
      → Ensures (m >>= f) Q
  Ensures-bind m f h k w w' b e =
      let (a, w₁, first, rest) = continue-eq-ok (m w) f e in k a (h w w₁ a first) w₁ w' b rest

-- What holds of the value that the task returns from a world, and of the world after it.
abbrev pub Runs : {A : Type 0} → World → Task A → (A → World → Type 0) → Type 0
Runs {A} w m Q = (w' : World) (a : A) → m w ≡ (ok a, w') → Q a w'

pub Runs-bind :
    {A B : Type 0} {P : A → World → Type 0} {Q : B → World → Type 0} (w : World) (m : Task A)
    (f : A → Task B)
    → Runs w m P
    → ((a : A) (w₁ : World) → P a w₁ → Runs w₁ (f a) Q)
    → Runs w (m >>= f) Q
Runs-bind w m f h k w' b e =
    let (a, w₁, first, rest) = continue-eq-ok (m w) f e in k a w₁ (h w₁ a first) w' b rest

pub Runs-date_now : (w : World) → Runs w date_now (λ now w'. w' ≡ w)
unfolding date_now
Runs-date_now w w' now e = cc

pub Ensures-any : {A : Type 0} (m : Task A) → Ensures m (λ a. Unit)
Ensures-any m w w' a e = tt

pub Ensures-pure : {A : Type 0} (P : A → Type 0) (a : A) → P a → Ensures (pure a) P
Ensures-pure P a p w w' b e = let same : a ≡ b = cc in subst P same p

pub Ensures-throw : {A : Type 0} (P : A → Type 0) (e : Failure) → Ensures (throw {A = A} e) P
Ensures-throw P e w w' b h = cc

-- The time that a task spends before it returns, by the value returned.
abbrev pub Spends : {A : Type 0} → Task A → (A → ℕ) → Type 0
Spends {A} m cost = (w w' : World) (a : A) → m w ≡ (ok a, w') → w.now + cost a ≤ w'.now

pub Spends-bind :
    {A B : Type 0} (cost : B → ℕ) (m : Task A) (f : A → Task B)
    → Spends m (λ a. 0)
    → ((a : A) → Spends (f a) cost)
    → Spends (m >>= f) cost
Spends-bind cost m f h k w w' b e =
    let (a, w₁, first, rest) = continue-eq-ok (m w) f e in
    omega (arith, h w w₁ a first, k a w₁ w' b rest)

-- A task that takes some time first.
pub Spends-after :
    {A B : Type 0} (ms : ℕ) (cost : B → ℕ) (m : Task A) (f : A → Task B)
    → Spends m (λ a. ms)
    → ((a : A) → Spends (f a) cost)
    → Spends (m >>= f) (λ b. ms + cost b)
Spends-after ms cost m f h k w w' b e =
    let (a, w₁, first, rest) = continue-eq-ok (m w) f e in
    omega (arith, h w w₁ a first, k a w₁ w' b rest)

pub Spends-pure : {A : Type 0} (a : A) → Spends (pure a) (λ b. 0)
Spends-pure a w w' b e = let same : w ≡ w' = cc in rw same (omega arith)

-- The model's own failure does not occur.
abbrev pub Completes : {A : Type 0} → Task A → Type 0
Completes m = (w : World) → (m w).0 ≢ err out_of_fuel

continue-Completes :
    {A B : Type 0} (r : Result Failure A × World) (f : A → Task B)
    → r.0 ≢ err out_of_fuel
    → ((a : A) → Completes (f a))
    → (continue r f).0 ≢ err out_of_fuel
continue-Completes (ok a, w) f h k = k a w
continue-Completes (err e, w) f h k = λ same. h (cc)

pub Completes-bind :
    {A B : Type 0} (m : Task A) (f : A → Task B)
    → Completes m
    → ((a : A) → Completes (f a))
    → Completes (m >>= f)
Completes-bind m f h k w = continue-Completes (m w) f (h w) k

continue-Completes_of :
    {A B : Type 0} {P : A → Type 0} (r : Result Failure A × World) (f : A → Task B)
    → r.0 ≢ err out_of_fuel
    → ((a : A) (w : World) → r ≡ (ok a, w) → P a)
    → ((a : A) → P a → Completes (f a))
    → (continue r f).0 ≢ err out_of_fuel
continue-Completes_of (ok a, w) f h p k = k a (p a w refl) w
continue-Completes_of (err e, w) f h p k = λ same. h (cc)

-- The rule at one world.
pub continue-ne :
    {A B : Type 0} (r : Result Failure A × World) (f : A → Task B)
    → r.0 ≢ err out_of_fuel
    → ((a : A) (w : World) → r ≡ (ok a, w) → (f a w).0 ≢ err out_of_fuel)
    → (continue r f).0 ≢ err out_of_fuel
continue-ne (ok a, w) f h k = k a w refl
continue-ne (err e, w) f h k = λ same. h (cc)

-- The same, with what holds of the value.
pub Completes-bind_of :
    {A B : Type 0} {P : A → Type 0} (m : Task A) (f : A → Task B)
    → Completes m
    → Ensures m P
    → ((a : A) → P a → Completes (f a))
    → Completes (m >>= f)
Completes-bind_of m f h p k w = continue-Completes_of (m w) f (h w) (λ a w'. p w w' a) k

pub Completes-pure : {A : Type 0} (a : A) → Completes (pure a)
Completes-pure a w e = cc

pub Spends-date_now : Spends date_now (λ a. 0)
unfolding date_now
Spends-date_now w w' a e = let same : w ≡ w' = cc in rw same (omega arith)

pub Completes-date_now : Completes date_now
unfolding date_now
Completes-date_now w e = cc

pub Completes-throw : {A : Type 0} (e : Failure) → e ≢ out_of_fuel → Completes (throw {A = A} e)
Completes-throw e h w same = h (cc)

module _ (network : Network) where
  pub Ensures-remote :
      {A : Type 0} (answer : ℕ → A)
      → Ensures (remote network answer) (λ a. (n : ℕ) × (a ≡ answer n))
  unfolding remote
  Ensures-remote answer w w' a e = (w.calls, ground arith)

  -- The answer is that of the world's next call, which is not rejected.
  pub Runs-remote :
      {A : Type 0} (answer : ℕ → A) (w : World)
      → Runs w
          (remote network answer)
          (λ a w'. (network.rejection w.calls ≡ none) × (a ≡ answer w.calls))
  unfolding remote
  Runs-remote answer w w' a e = elim (Option-cases (network.rejection w.calls)) [
    | inl n ↦ (n, ground arith)
    | inr (message, r) ↦ absurd (ground arith)
  ]

  pub Spends-remote : {A : Type 0} (answer : ℕ → A) → Spends (remote network answer) (λ a. 0)
  unfolding remote
  Spends-remote answer w w' a e = ground arith

  pub Completes-remote : {A : Type 0} (answer : ℕ → A) → Completes (remote network answer)
  unfolding remote
  Completes-remote answer w e = ground arith

  pub Spends-sleep : (ms : ℕ) → Spends (sleep network ms) (λ a. ms)
  unfolding sleep
  Spends-sleep ms w w' a e = ground arith

  pub Completes-sleep : (ms : ℕ) → Completes (sleep network ms)
  unfolding sleep
  Completes-sleep ms w e = cc
