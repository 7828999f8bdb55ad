-- ===== src/Common/Flat.antt =====
-- `flatMap`: its result on joined lists, and the lists of which it gives nothing.
use mathlib.Core.Path.{◌≡◌, refl, sym, ap, ◌∙◌}
use mathlib.Core.Logic.{◌↔◌, ◌⊎◌, inl, inr}
use mathlib.Core.List.{List, [], ◌∷◌, ◌++◌, map, append_assoc}
use mathlib.Core.Option.{Option, some}
use polkadot_pop_e2e.Common.Lists.{All, flat_map}

pub nil-ne-cons : {A : Type 0} {x : A} {xs : List A} → x ∷ xs ≡ [] → ⊥
nil-ne-cons h = cc

module _ {A B : Type 0} (f : A → List B) where
  pub flat_map-append : (xs ys : List A) → flat_map f (xs ++ ys) ≡ flat_map f xs ++ flat_map f ys
  flat_map-append [] ys = refl
  flat_map-append (x ∷ xs) ys =
      ap (λ zs. f x ++ zs) (flat_map-append xs ys)
      ∙ sym (append_assoc (f x) (flat_map f xs) (flat_map f ys))

pub some_injective : {A : Type 0} {a b : A} → ◌≡◌ {A = Option A} (some a) (some b) → a ≡ b
some_injective h = cc

pub nil_parts : {A : Type 0} (xs ys : List A) → (xs ++ ys ≡ []) ↔ (xs ≡ []) × (ys ≡ [])
nil_parts [] ys = (λ h. (refl, h), λ h. h.1)
nil_parts (x ∷ xs) ys = (λ h. absurd (nil-ne-cons h), λ h. absurd (nil-ne-cons h.0))

pub flat_map-nil :
    {A B : Type 0} (f : A → List B) (P : A → Type 0)
    → ((x : A) → (f x ≡ []) ↔ P x)
    → (xs : List A) → (flat_map f xs ≡ []) ↔ All P xs
flat_map-nil f P each [] = (λ h. tt, λ h. refl)
flat_map-nil f P each (x ∷ xs) =
    let (split, join) = nil_parts (f x) (flat_map f xs) in
    let later = flat_map-nil f P each xs in
    (λ h. ((each x).0 (split h).0, later.0 (split h).1), λ h. join ((each x).1 h.0, later.1 h.1))

pub flat_map-map :
    {A B C : Type 0} (f : B → List C) (g : A → B) (xs : List A)
    → flat_map f (map g xs) ≡ flat_map (λ x. f (g x)) xs
flat_map-map f g [] = refl
flat_map-map f g (x ∷ xs) = ap (λ ys. f (g x) ++ ys) (flat_map-map f g xs)

pub flat_map-flat_map :
    {A B C : Type 0} (f : B → List C) (g : A → List B) (xs : List A)
    → flat_map f (flat_map g xs) ≡ flat_map (λ x. flat_map f (g x)) xs
flat_map-flat_map f g [] = refl
flat_map-flat_map f g (x ∷ xs) =
    flat_map-append f (g x) (flat_map g xs)
    ∙ ap (λ ys. flat_map f (g x) ++ ys) (flat_map-flat_map f g xs)

pub List-cases :
    {A : Type 0} (xs : List A) → (xs ≡ []) ⊎ ((x : A) × (rest : List A) × (xs ≡ x ∷ rest))
List-cases [] = inl refl
List-cases (x ∷ rest) = inr (x, rest, refl)
