-- ===== src/Common/Results.antt =====
-- Exceptions as values: a thrown error carries a value of the component's own error type.
use mathlib.Core.Path.{◌≡◌, refl}
use mathlib.Core.Logic.{◌⊎◌, inl, inr}
use mathlib.Core.Bool.{Bool, true, false}
use mathlib.Core.List.{List, [], ◌∷◌}
use mathlib.Core.Option.{Option, none, some}
use polkadot_pop_e2e.Common.Branching.{if◌then◌else◌}
use polkadot_pop_e2e.Common.Lists.{All, Any}

pub data Result {ℓ κ} (E : Type κ) (A : Type ℓ) : Type (ℓ ⊔ κ) where
  ok : A → Result E A
  err : E → Result E A

infixl 5 ◌>>=◌
abbrev pub ◌>>=◌ {ℓ κ μ} :
    {E : Type μ} {A : Type ℓ} {B : Type κ} → Result E A → (A → Result E B) → Result E B
ok a >>= f = f a
err e >>= f = err e

-- A loop whose body may throw, with the values that its rounds give.
abbrev pub for_each {ℓ κ μ} :
    {E : Type μ} {A : Type ℓ} {B : Type κ} → (A → Result E B) → List A → Result E (List B)
for_each f [] = ok []
for_each f (x ∷ xs) = f x >>= λ y. for_each f xs >>= λ ys. ok (y ∷ ys)

abbrev pub Done : Type 0
Done = Unit

-- `if (!test) throw error`
abbrev pub require {ℓ} : {E : Type ℓ} → Bool → E → Result E Done
require true e = ok tt
require false e = err e

abbrev pub demand {ℓ κ} : {E : Type ℓ} {A : Type κ} → Option A → E → Result E A
demand (some a) e = ok a
demand none e = err e

pub Result-cases {ℓ κ} :
    {E : Type κ} {A : Type ℓ} (r : Result E A) → ((a : A) × (r ≡ ok a)) ⊎ ((e : E) × (r ≡ err e))
Result-cases (ok a) = inl (a, refl)
Result-cases (err e) = inr (e, refl)

pub err-ne-ok {ℓ κ} :
    {E : Type κ} {A : Type ℓ} {e : E} {a : A} → ◌≡◌ {A = Result E A} (err e) (ok a) → ⊥
err-ne-ok h = cc

pub ok-injective {ℓ κ} :
    {E : Type κ} {A : Type ℓ} {a b : A} → ◌≡◌ {A = Result E A} (ok a) (ok b) → a ≡ b
ok-injective h = cc

-- What a result that is no error says of its parts.
module _ {ℓ κ μ} {E : Type μ} {A : Type ℓ} {B : Type κ} where
  pub bind-eq-ok :
      (r : Result E A) (f : A → Result E B) {b : B}
      → r >>= f ≡ ok b
      → (a : A) × (r ≡ ok a) × (f a ≡ ok b)
  bind-eq-ok (ok a) f h = (a, refl, h)
  bind-eq-ok (err e) f h = absurd (err-ne-ok h)

pub require-ok {ℓ} :
    {E : Type ℓ} (test : Bool) (e : E) {d : Done} → require test e ≡ ok d → test ≡ true
require-ok true e h = refl
require-ok false e h = absurd (err-ne-ok h)

module _ {ℓ κ} {E : Type κ} {B : Type ℓ} where
  pub require-eq-ok :
      (test : Bool) (e : E) (r : Result E B) {b : B}
      → require test e >>= (λ _. r) ≡ ok b
      → (test ≡ true) × (r ≡ ok b)
  require-eq-ok true e r h = (refl, h)
  require-eq-ok false e r h = absurd (err-ne-ok h)

  pub demand-eq-ok {μ} :
      {A : Type μ} (o : Option A) (e : E) (f : A → Result E B) {b : B}
      → demand o e >>= f ≡ ok b
      → (a : A) × (o ≡ some a) × (f a ≡ ok b)
  demand-eq-ok (some a) e f h = (a, refl, h)
  demand-eq-ok none e f h = absurd (err-ne-ok h)

-- Each round of a loop that ends has given a value, of which the list of values holds.
pub for_each-ok {ℓ κ μ ν} :
    {E : Type μ} {A : Type ℓ} {B : Type κ} (Q : B → Type ν) (f : A → Result E B) (xs : List A)
    {ys : List B}
    → for_each f xs ≡ ok ys
    → All Q ys
    → All (λ x. (y : B) × (f x ≡ ok y) × Q y) xs
for_each-ok Q f [] h q = tt
for_each-ok Q f (x ∷ xs) {ys = ys} h q =
    let (y, first, rest) = bind-eq-ok (f x) (λ y. for_each f xs >>= λ ys. ok (y ∷ ys)) h in
    let (zs, others, here) = bind-eq-ok (for_each f xs) (λ zs. ok (y ∷ zs)) rest in
    let same : ys ≡ y ∷ zs = cc in
    let held : All Q (y ∷ zs) = rw same at q in
    ((y, first, held.0), for_each-ok Q f xs others held.1)

pub for_each-each {ℓ κ μ} :
    {E : Type μ} {A : Type ℓ} {B : Type κ} (f : A → Result E B) (xs : List A) {ys : List B}
    → for_each f xs ≡ ok ys
    → All (λ x. (y : B) × (f x ≡ ok y)) xs
for_each-each f [] h = tt
for_each-each f (x ∷ xs) h =
    let (y, first, rest) = bind-eq-ok (f x) (λ y. for_each f xs >>= λ ys. ok (y ∷ ys)) h in
    let (zs, others, here) = bind-eq-ok (for_each f xs) (λ zs. ok (y ∷ zs)) rest in
    ((y, first), for_each-each f xs others)

pub Any-for_each :
    {E A B : Type 0} (P : B → Type 0) (f : A → Result E B) (xs : List A) {ys : List B}
    → for_each f xs ≡ ok ys
    → Any P ys
    → Any (λ x. (y : B) × (f x ≡ ok y) × P y) xs
Any-for_each P f [] {ys = ys} h k = let same : ys ≡ [] = cc in rw same at k
Any-for_each P f (x ∷ xs) {ys = ys} h k =
    let (y, first, rest) = bind-eq-ok (f x) (λ y. for_each f xs >>= λ ys. ok (y ∷ ys)) h in
    let (zs, others, here) = bind-eq-ok (for_each f xs) (λ zs. ok (y ∷ zs)) rest in
    let same : ys ≡ y ∷ zs = cc in
    let found : Any P (y ∷ zs) = rw same at k in
    elim found [ inl p ↦ inl (y, first, p) | inr later ↦ inr (Any-for_each P f xs others later) ]

-- A result that decides between two results.
pub test-eq-ok {ℓ κ} :
    {E : Type κ} {B : Type ℓ} (r : Result E Bool) (first second : Result E B) {b : B}
    → r >>= (λ test. if test then first else second) ≡ ok b
    → ((r ≡ ok true) × (first ≡ ok b)) ⊎ ((r ≡ ok false) × (second ≡ ok b))
test-eq-ok (ok true) first second h = inl (refl, h)
test-eq-ok (ok false) first second h = inr (refl, h)
test-eq-ok (err e) first second h = absurd (err-ne-ok h)

pub choice-eq-ok {ℓ κ μ} :
    {E : Type κ} {A : Type μ} {B : Type ℓ} (r : Result E (Option A)) (f : A → Result E B)
    (other : Result E B) {b : B}
    → r >>= (λ o. elim o [ some a ↦ f a | none ↦ other ]) ≡ ok b
    → ((a : A) × (r ≡ ok (some a)) × (f a ≡ ok b)) ⊎ ((r ≡ ok none) × (other ≡ ok b))
choice-eq-ok (ok (some a)) f other h = inl (a, refl, h)
choice-eq-ok (ok none) f other h = inr (refl, h)
choice-eq-ok (err e) f other h = absurd (err-ne-ok h)
