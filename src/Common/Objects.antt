-- ===== src/Common/Objects.antt =====
-- Objects of the language as association lists, in the order of their own keys: a read, a write
-- that keeps the place of a known key, and a key that is deleted.
use Prim.Native.String.{String}
use mathlib.Core.Path.{◌≡◌, refl}
use mathlib.Core.Bool.{Bool, false, ◌||◌}
use mathlib.Core.List.{List, [], ◌∷◌, map}
use mathlib.Core.Option.{Option, none, some}
use native.Mathlib.Omega.{arith}
use text.Mathlib.Text.{◌==◌}
use text.Mathlib.TextEquality.{eq_iff}
use polkadot_pop_e2e.Common.Branching.{if◌then◌else◌}
use polkadot_pop_e2e.Common.Lists.{includes}

abbrev pub Object {ℓ} : Type ℓ → Type ℓ
Object A = List (String × A)

-- The names that every object inherits: `key in object`, and a read of `object[key]` as a condition,
-- are true of them too.
abbrev pub inherited_keys : List String
inherited_keys =
    "constructor" ∷ "__defineGetter__" ∷ "__defineSetter__" ∷ "hasOwnProperty" ∷ "__lookupGetter__"
    ∷ "__lookupSetter__" ∷ "isPrototypeOf" ∷ "propertyIsEnumerable" ∷ "toString" ∷ "valueOf"
    ∷ "__proto__" ∷ "toLocaleString" ∷ []

module _ {ℓ} {A : Type ℓ} where
  abbrev pub field : Object A → String → Option A
  field [] key = none
  field ((k, a) ∷ rest) key = if k == key then some a else field rest key

  abbrev pub has_key : Object A → String → Bool
  has_key [] key = false
  has_key ((k, a) ∷ rest) key = k == key || has_key rest key

  -- `key in object`, and `object[key]` as a condition where no value of the object is falsy.
  abbrev pub has_or_inherits : Object A → String → Bool
  has_or_inherits object key = has_key object key || includes inherited_keys key

  abbrev pub put : Object A → String → A → Object A
  put [] key value = (key, value) ∷ []
  put ((k, a) ∷ rest) key value =
      if k == key then (k, value) ∷ rest else (k, a) ∷ put rest key value

  abbrev pub delete : Object A → String → Object A
  delete [] key = []
  delete ((k, a) ∷ rest) key = if k == key then rest else (k, a) ∷ delete rest key

  abbrev pub keys : Object A → List String
  keys object = map (λ entry. entry.0) object

  abbrev pub values : Object A → List A
  values object = map (λ entry. entry.1) object

  -- `object ?? {}`
  abbrev pub or_empty : Option (List A) → List A
  or_empty none = []
  or_empty (some list) = list

  -- An object that is built from pairs: the last pair of a key counts, at the place of the first.
  abbrev pub put_all : Object A → List (String × A) → Object A
  put_all object [] = object
  put_all object ((k, a) ∷ rest) = put_all (put object k a) rest

  pub field-put :
      (object : Object A) (key other : String) (value : A)
      → field (put object key value) other
        ≡ (if key == other then some value else field object other)
  field-put [] key other value = refl
  field-put ((k, a) ∷ rest) key other value =
      ground (arith, eq_iff key other, eq_iff k key, eq_iff k other, field-put rest key other value)
