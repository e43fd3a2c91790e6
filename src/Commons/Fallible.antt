-- ===== src/Commons/Fallible.antt =====
-- Python exceptions as values. An error is its class; the text of its message is not modelled.
use mathlib.Core.Path.{◌≡◌, refl}
use mathlib.Core.Bool.{Bool, true, false}
use mathlib.Core.List.{List, [], ◌∷◌}
use mathlib.Core.Option.{Option, none, some}

pub data Error : Type 0 where
  value_error type_error key_error attribute_error runtime_error : Error
  finality_error unknown_schema torn_record : Error
  refused not_admitted duplicate_key index_error unplaceable : Error

pub data Result {ℓ} (A : Type ℓ) : Type ℓ where
  ok : A → Result A
  err : Error → Result A

infixl 5 ◌>>◌
module _ {ℓ κ} {V : Type ℓ} {W : Type κ} where
  infixl 5 ◌>>=◌
  -- What comes after a statement that may raise.
  abbrev pub ◌>>=◌ : Result V → (V → Result W) → Result W
  err raised >>= rest = err raised
  ok v >>= rest = rest v

  -- A sequence that ends well had a first step that did.
  pub >>=-eq-ok :
      (first : Result V) (rest : V → Result W) {w : W}
      → (first >>= rest) ≡ ok w
      → (v : V) × (first ≡ ok v) × (rest v ≡ ok w)
  >>=-eq-ok (err raised) rest h = cc
  >>=-eq-ok (ok v) rest h = (v, refl, h)

-- `if not test: raise e`
abbrev pub guard : Bool → Error → Result (Unit {0})
guard false raised = err raised
guard true raised = ok tt

abbrev pub ◌>>◌ {ℓ} : {V : Type ℓ} → Result (Unit {0}) → Result V → Result V
test >> rest = test >>= λ _. rest

-- A comprehension whose body may raise.
abbrev pub traverse {ℓ κ} : {A : Type ℓ} {B : Type κ} → (A → Result B) → List A → Result (List B)
traverse f [] = ok []
traverse f (x ∷ xs) = f x >>= λ y. traverse f xs >>= λ ys. ok (y ∷ ys)

-- `None if o is None else f(o)`
abbrev pub optional {ℓ κ} :
    {A : Type ℓ} {B : Type κ} → (A → Result B) → Option A → Result (Option B)
optional f none = ok none
optional f (some a) = f a >>= λ b. ok (some b)

pub ok_inj {ℓ} : {A : Type ℓ} {a b : A} → Result.ok a ≡ ok b → a ≡ b
ok_inj h = cc

-- A guard that let the rest run held.
pub guard-eq-ok {ℓ} :
    {B : Type ℓ} (t : Bool) (e : Error) (m : Result B) {b : B}
    → (guard t e >> m) ≡ ok b
    → (t ≡ true) × (m ≡ ok b)
guard-eq-ok true e m h = (refl, h)
guard-eq-ok false e m h = cc
