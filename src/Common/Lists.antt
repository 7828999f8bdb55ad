-- ===== src/Common/Lists.antt =====
-- Lists over the native numbers under the library's names, and the array methods `includes`,
-- `some`, `every`, `filter` and `find` with Boolean tests.
use Prim.Native.Nat.{ℕ, zero, suc, ◌+◌, ◌≤◌, ◌<◌}
use Prim.Native.String
use Prim.Native.String.{String}
use mathlib.Core.Path.{◌≡◌, refl, ap, sym, ◌∙◌}
use mathlib.Core.Logic.{◌⊎◌, inl, inr}
use mathlib.Core.Bool.{Bool, true, false, ◌&&◌, ◌||◌, false≢true}
use mathlib.Core.List.{List, [], ◌∷◌, ◌++◌, map}
use mathlib.Core.Option.{Option, none, some}
use native.Mathlib.Omega.{arith}
use text.Mathlib.Text.{◌==◌}
use text.Mathlib.TextEquality.{eq_iff}
use text.Mathlib.TextPositions.{eq_refl}
use polkadot_pop_e2e.Common.Branching.{if◌then◌else◌, Bool-cases}

module _ {ℓ} {A : Type ℓ} where
  abbrev pub length : List A → ℕ
  length [] = 0
  length (x ∷ xs) = suc (length xs)

  abbrev pub get_elem? : List A → ℕ → Option A
  get_elem? [] i = none
  get_elem? (x ∷ xs) zero = some x
  get_elem? (x ∷ xs) (suc i) = get_elem? xs i

  abbrev pub take : ℕ → List A → List A
  take zero xs = []
  take (suc n) [] = []
  take (suc n) (x ∷ xs) = x ∷ take n xs

  abbrev pub replicate : ℕ → A → List A
  replicate zero a = []
  replicate (suc n) a = a ∷ replicate n a

  pub length-append : (xs ys : List A) → length (xs ++ ys) ≡ length xs + length ys
  length-append [] ys = omega arith
  length-append (x ∷ xs) ys = omega (arith, length-append xs ys)

  pub length-take-le : (n : ℕ) (xs : List A) → length (take n xs) ≤ n
  length-take-le zero xs = omega arith
  length-take-le (suc n) [] = omega arith
  length-take-le (suc n) (x ∷ xs) = omega (arith, length-take-le n xs)

  pub length-replicate : (n : ℕ) (a : A) → length (replicate n a) ≡ n
  length-replicate zero a = refl
  length-replicate (suc n) a = ap suc (length-replicate n a)

  pub get_elem?-take : (n i : ℕ) (xs : List A) → i < n → get_elem? (take n xs) i ≡ get_elem? xs i
  get_elem?-take zero i xs h = elim h [ ]
  get_elem?-take (suc n) i [] h = refl
  get_elem?-take (suc n) zero (x ∷ xs) h = refl
  get_elem?-take (suc n) (suc i) (x ∷ xs) h = get_elem?-take n i xs (omega arith)

  -- The Boolean `some` and `every`, `filter` and `find`.
  abbrev pub any : (A → Bool) → List A → Bool
  any p [] = false
  any p (x ∷ xs) = p x || any p xs

  abbrev pub all : (A → Bool) → List A → Bool
  all p [] = true
  all p (x ∷ xs) = p x && all p xs

  abbrev pub keep : (A → Bool) → List A → List A
  keep p [] = []
  keep p (x ∷ xs) = if p x then x ∷ keep p xs else keep p xs

  abbrev pub find? : (A → Bool) → List A → Option A
  find? p [] = none
  find? p (x ∷ xs) = if p x then some x else find? p xs

abbrev pub All {ℓ κ} : {A : Type ℓ} → (A → Type κ) → List A → Type κ
All P [] = Unit
All P (x ∷ xs) = P x × All P xs

abbrev pub Any {ℓ} : {A : Type ℓ} → (A → Type 0) → List A → Type 0
Any P [] = ⊥
Any P (x ∷ xs) = P x ⊎ Any P xs

-- An element with `Q`, all of whose predecessors have `P`.
abbrev pub First : {A : Type 0} → (A → Type 0) → (A → Type 0) → List A → Type 0
First P Q [] = ⊥
First P Q (x ∷ xs) = Q x ⊎ (P x × First P Q xs)

module _ {ℓ κ} {A : Type ℓ} (P : A → Type κ) where
  pub All-append : (xs ys : List A) → All P xs → All P ys → All P (xs ++ ys)
  All-append [] ys hx hy = hy
  All-append (x ∷ xs) ys hx hy = (hx.0, All-append xs ys hx.1 hy)

  pub All-take : (n : ℕ) (xs : List A) → All P xs → All P (take n xs)
  All-take zero xs h = tt
  All-take (suc n) [] h = tt
  All-take (suc n) (x ∷ xs) h = (h.0, All-take n xs h.1)

  pub All-keep : (p : A → Bool) (xs : List A) → All P xs → All P (keep p xs)
  All-keep p [] h = tt
  All-keep p (x ∷ xs) h = elim (Bool-cases (p x)) [
    | inl e ↦ rw e (h.0, All-keep p xs h.1)
    | inr e ↦ rw e (All-keep p xs h.1)
  ]

-- `Array.prototype.includes` on strings.
abbrev pub includes : List String → String → Bool
includes [] s = false
includes (x ∷ xs) s = x == s || includes xs s

module _ {ℓ κ} {A : Type ℓ} {B : Type κ} where
  -- `Array.prototype.flatMap`.
  abbrev pub flat_map : (A → List B) → List A → List B
  flat_map f [] = []
  flat_map f (x ∷ xs) = f x ++ flat_map f xs

  pub All-flat_map {μ ν} :
      (P : A → Type ν) (Q : B → Type μ) (f : A → List B)
      → ((x : A) → P x → All Q (f x))
      → (xs : List A) → All P xs
      → All Q (flat_map f xs)
  All-flat_map P Q f h [] k = tt
  All-flat_map P Q f h (x ∷ xs) k =
      All-append Q (f x) (flat_map f xs) (h x k.0) (All-flat_map P Q f h xs k.1)

module _ {ℓ} {A : Type ℓ} where
  pub All-of {κ} : (P : A → Type κ) → ((x : A) → P x) → (xs : List A) → All P xs
  All-of P h [] = tt
  All-of P h (x ∷ xs) = (h x, All-of P h xs)

  pub All-map {κ μ} :
      (P : A → Type κ) (Q : A → Type μ)
      → ((x : A) → P x → Q x)
      → (xs : List A) → All P xs
      → All Q xs
  All-map P Q f [] h = tt
  All-map P Q f (x ∷ xs) h = (f x h.0, All-map P Q f xs h.1)

  pub Any-append_left : (P : A → Type 0) (xs ys : List A) → Any P xs → Any P (xs ++ ys)
  Any-append_left P (x ∷ xs) ys (inl p) = inl p
  Any-append_left P (x ∷ xs) ys (inr h) = inr (Any-append_left P xs ys h)
  Any-append_left P [] ys h = absurd h

  pub Any-append_right : (P : A → Type 0) (xs ys : List A) → Any P ys → Any P (xs ++ ys)
  Any-append_right P [] ys h = h
  Any-append_right P (x ∷ xs) ys h = inr (Any-append_right P xs ys h)

  pub Any-map : (P Q : A → Type 0) → ((x : A) → P x → Q x) → (xs : List A) → Any P xs → Any Q xs
  Any-map P Q f [] h = h
  Any-map P Q f (x ∷ xs) (inl p) = inl (f x p)
  Any-map P Q f (x ∷ xs) (inr h) = inr (Any-map P Q f xs h)

  pub any→Any : (p : A → Bool) (xs : List A) → any p xs ≡ true → Any (λ x. p x ≡ true) xs
  any→Any p [] h = cc
  any→Any p (x ∷ xs) h = elim (Bool-cases (p x)) [
    | inl e ↦ inl e
    | inr e ↦ inr (any→Any p xs (rw e at h))
  ]

  pub Any→any : (p : A → Bool) (xs : List A) → Any (λ x. p x ≡ true) xs → any p xs ≡ true
  Any→any p [] h = absurd h
  Any→any p (x ∷ xs) (inl e) = rw e
  Any→any p (x ∷ xs) (inr h) = ground (arith, Any→any p xs h)

  pub Any-All {κ} :
      (P : A → Type 0) (Q : A → Type κ) {R : Type 0} (xs : List A)
      → Any P xs
      → All Q xs
      → ((x : A) → P x → Q x → R)
      → R
  Any-All P Q [] h k f = absurd h
  Any-All P Q (x ∷ xs) (inl p) k f = f x p k.0
  Any-All P Q (x ∷ xs) (inr h) k f = Any-All P Q xs h k.1 f

module _ {ℓ κ} {A : Type ℓ} {B : Type κ} where
  pub Any-flat_map :
      (P : A → Type 0) (Q : B → Type 0) (f : A → List B)
      → ((x : A) → P x → Any Q (f x))
      → (xs : List A) → Any P xs
      → Any Q (flat_map f xs)
  Any-flat_map P Q f h [] k = absurd k
  Any-flat_map P Q f h (x ∷ xs) (inl p) = Any-append_left Q (f x) (flat_map f xs) (h x p)
  Any-flat_map P Q f h (x ∷ xs) (inr k) =
      Any-append_right Q (f x) (flat_map f xs) (Any-flat_map P Q f h xs k)

module _ {A : Type 0} where
  All-self_into :
      (xs ys : List A)
      → ((x : A) → Any (λ y. y ≡ x) xs → Any (λ y. y ≡ x) ys)
      → All (λ x. Any (λ y. y ≡ x) ys) xs
  All-self_into [] ys f = tt
  All-self_into (x ∷ xs) ys f = (f x (inl refl), All-self_into xs ys (λ z m. f z (inr m)))

  -- Every element of a list is listed in it.
  pub All-self : (xs : List A) → All (λ x. Any (λ y. y ≡ x) xs) xs
  All-self xs = All-self_into xs xs (λ x m. m)

module _ {ℓ} {A : Type ℓ} where
  pub All-keep_test : (p : A → Bool) (xs : List A) → All (λ x. p x ≡ true) (keep p xs)
  All-keep_test p [] = tt
  All-keep_test p (x ∷ xs) = elim (Bool-cases (p x)) [
    | inl e ↦ rw e (e, All-keep_test p xs)
    | inr e ↦ rw e (All-keep_test p xs)
  ]

  pub any-false→All : (p : A → Bool) (xs : List A) → any p xs ≡ false → All (λ x. p x ≡ false) xs
  any-false→All p [] h = tt
  any-false→All p (x ∷ xs) h = (ground arith, any-false→All p xs (ground arith))

  pub take_short : (n : ℕ) (xs : List A) → length (take n xs) < n → take n xs ≡ xs
  take_short zero xs h = elim h [ ]
  take_short (suc n) [] h = refl
  take_short (suc n) (x ∷ xs) h = ap (λ l. x ∷ l) (take_short n xs (omega arith))

-- `new Set(list)` in the order of insertion, for a test of equality `eq`.
module _ {ℓ} {A : Type ℓ} (eq : A → A → Bool) where
  abbrev pub contains : List A → A → Bool
  contains [] a = false
  contains (x ∷ xs) a = eq x a || contains xs a

  abbrev pub unique_from : List A → List A → List A
  unique_from seen [] = []
  unique_from seen (x ∷ xs) =
      if contains seen x then unique_from seen xs else x ∷ unique_from (x ∷ seen) xs

  abbrev pub unique : List A → List A
  unique = unique_from []

-- `Array.prototype.join`.
abbrev pub join : String → List String → String
join sep [] = ""
join sep (x ∷ []) = x
join sep (x ∷ y ∷ ys) = String.◌++◌ x (String.◌++◌ sep (join sep (y ∷ ys)))

module _ {ℓ} {A : Type ℓ} (p : A → Bool) where
  pub keep-All : (xs : List A) → All (λ x. p x ≡ true) xs → keep p xs ≡ xs
  keep-All [] h = refl
  keep-All (x ∷ xs) h = ground (arith, keep-All xs h.1, h.0)

  pub keep_none : (xs : List A) → All (λ x. p x ≡ false) xs → keep p xs ≡ []
  keep_none [] h = refl
  keep_none (x ∷ xs) h = ground (arith, keep_none xs h.1, h.0)

  pub keep-nil→All : (xs : List A) → keep p xs ≡ [] → All (λ x. p x ≡ false) xs
  keep-nil→All [] h = tt
  keep-nil→All (x ∷ xs) h = (ground arith, keep-nil→All xs (ground arith))

  pub All-false→any : (xs : List A) → All (λ x. p x ≡ false) xs → any p xs ≡ false
  All-false→any [] h = refl
  All-false→any (x ∷ xs) h = ground (arith, All-false→any xs h.1, h.0)

  -- A test of the kept elements only.
  pub All-of_keep {κ} :
      (P : A → Type κ) (xs : List A) → All P (keep p xs) → All (λ x. p x ≡ true → P x) xs
  All-of_keep P [] h = tt
  All-of_keep P (x ∷ xs) h = elim (Bool-cases (p x)) [
    | inl e ↦ let k = rw e at h in (λ _. k.0, All-of_keep P xs k.1)
    | inr e ↦ (λ e'. absurd (false≢true (sym e ∙ e')), All-of_keep P xs (rw e at h))
  ]

  pub All-keep_of {κ} :
      (P : A → Type κ) (xs : List A) → All (λ x. p x ≡ true → P x) xs → All P (keep p xs)
  All-keep_of P [] h = tt
  All-keep_of P (x ∷ xs) h = elim (Bool-cases (p x)) [
    | inl e ↦ rw e (h.0 e, All-keep_of P xs h.1)
    | inr e ↦ rw e (All-keep_of P xs h.1)
  ]

module _ {ℓ κ μ} {A : Type ℓ} {B : Type κ} (f : A → B) (P : B → Type μ) where
  pub All-map_of : (xs : List A) → All (λ x. P (f x)) xs → All P (map f xs)
  All-map_of [] h = tt
  All-map_of (x ∷ xs) h = (h.0, All-map_of xs h.1)

  pub All-of_map : (xs : List A) → All P (map f xs) → All (λ x. P (f x)) xs
  All-of_map [] h = tt
  All-of_map (x ∷ xs) h = (h.0, All-of_map xs h.1)

includes-weaken :
    (x : String) (xs : List String) (ys : List String)
    → All (λ y. includes xs y ≡ true) ys
    → All (λ y. includes (x ∷ xs) y ≡ true) ys
includes-weaken x xs [] h = tt
includes-weaken x xs (y ∷ ys) h = (ground arith, includes-weaken x xs ys h.1)

pub includes_self : (xs : List String) → All (λ x. includes xs x ≡ true) xs
includes_self [] = tt
includes_self (x ∷ xs) = (ground (arith, eq_refl x), includes-weaken x xs xs (includes_self xs))

pub includes-keep :
    (p : String → Bool) (xs : List String) (x : String)
    → includes (keep p xs) x ≡ (includes xs x && p x)
includes-keep p [] x = refl
includes-keep p (y ∷ xs) x = elim (Bool-cases (y == x)) [
  | inl e ↦ let same = (eq_iff y x).0 e in rw same (ground (arith, includes-keep p xs x, eq_refl x))
  | inr e ↦ ground (arith, includes-keep p xs x)
]

module _ {ℓ κ μ} {A : Type ℓ} where
  pub All-both :
      (P : A → Type κ) (Q : A → Type μ) (xs : List A)
      → All P xs
      → All Q xs
      → All (λ x. P x × Q x) xs
  All-both P Q [] h k = tt
  All-both P Q (x ∷ xs) h k = ((h.0, k.0), All-both P Q xs h.1 k.1)

module _ {ℓ} {A : Type ℓ} where
  pub get_elem?-append_left :
      (xs ys : List A) (i : ℕ) {a : A} → get_elem? xs i ≡ some a → get_elem? (xs ++ ys) i ≡ some a
  get_elem?-append_left [] ys i h = cc
  get_elem?-append_left (x ∷ xs) ys zero h = h
  get_elem?-append_left (x ∷ xs) ys (suc i) h = get_elem?-append_left xs ys i h

  pub get_elem?-append_right :
      (xs ys : List A) (i : ℕ) → get_elem? (xs ++ ys) (length xs + i) ≡ get_elem? ys i
  get_elem?-append_right [] ys i = let e : 0 + i ≡ i = omega arith in rw e refl
  get_elem?-append_right (x ∷ xs) ys i =
      let e : suc (length xs) + i ≡ suc (length xs + i) = omega arith in
      rw e (get_elem?-append_right xs ys i)

  pub get_elem?-map {κ} :
      {B : Type κ} (f : A → B) (xs : List A) (i : ℕ) {a : A}
      → get_elem? xs i ≡ some a
      → get_elem? (map f xs) i ≡ some (f a)
  get_elem?-map f [] i h = cc
  get_elem?-map f (x ∷ xs) zero h = cc
  get_elem?-map f (x ∷ xs) (suc i) h = get_elem?-map f xs i h

module _ {A : Type 0} where
  pub First-map :
      (P P' Q Q' : A → Type 0)
      → ((x : A) → P x → P' x)
      → ((x : A) → Q x → Q' x)
      → (xs : List A) → First P Q xs
      → First P' Q' xs
  First-map P P' Q Q' f g [] h = absurd h
  First-map P P' Q Q' f g (x ∷ xs) (inl q) = inl (g x q)
  First-map P P' Q Q' f g (x ∷ xs) (inr (p, h)) = inr (f x p, First-map P P' Q Q' f g xs h)

  -- What `find?` gives is the first element that passes the test.
  pub find?-First :
      (p : A → Bool) (xs : List A) (a : A)
      → find? p xs ≡ some a
      → First (λ x. p x ≡ false) (λ x. (x ≡ a) × (p x ≡ true)) xs
  find?-First p [] a h = cc
  find?-First p (x ∷ xs) a h = elim (Bool-cases (p x)) [
    | inl e ↦ let found : some x ≡ some a = rw e at h in inl (cc, e)
    | inr e ↦ inr (e, find?-First p xs a (rw e at h))
  ]

  pub find?-none : (p : A → Bool) (xs : List A) → find? p xs ≡ none → All (λ x. p x ≡ false) xs
  find?-none p [] h = tt
  find?-none p (x ∷ xs) h = elim (Bool-cases (p x)) [
    | inl e ↦ let found : some x ≡ none = rw e at h in absurd (cc)
    | inr e ↦ (e, find?-none p xs (rw e at h))
  ]
