-- ===== src/Prelude/Result.antt =====
-- Python exceptions as values: what a call returns, or the class of what it raises.
use mathlib.Core.Path.{◌≡◌, refl}
use mathlib.Core.Logic.{◌⊎◌, inl, inr}
use mathlib.Core.Bool.{Bool, true, false}
use mathlib.Core.List.{List, [], ◌∷◌}
use mathlib.Core.Option.{Option, none, some}
use native.Mathlib.Omega.{arith}

pub data Exception : Type 0 where
  value_error : Exception
  index_error : Exception
  key_error : Exception
  overflow_error : Exception
  look_ahead_error : Exception
  insufficient_data_error : Exception
  not_implemented_error : Exception
  zero_division_error : Exception
  runtime_error : Exception
  type_error : Exception
  request_error : Exception
  attribute_error : Exception

pub data Result {ℓ} (A : Type ℓ) : Type ℓ where
  ok : A → Result A
  err : Exception → Result A

infixl 5 ◌>>=◌ ◌>>◌
-- The rest of a block runs on what the first call returns; an exception skips it.
abbrev pub ◌>>=◌ {ℓ κ} : {X : Type ℓ} {Y : Type κ} → Result X → (X → Result Y) → Result Y
err raised >>= rest = err raised
ok value >>= rest = rest value

abbrev pub ◌>>◌ {κ} : {Y : Type κ} → Result (Unit {0}) → Result Y → Result Y
first >> second = first >>= λ _. second

-- `if c: raise e`
abbrev pub raise_if : Bool → Exception → Result (Unit {0})
raise_if false x = ok tt
raise_if true x = err x

abbrev pub or_raise {ℓ} : {A : Type ℓ} → Option A → Exception → Result A
or_raise none e = err e
or_raise (some a) e = ok a

-- `[f(x) for x in xs]`, where the first exception ends the loop.
abbrev pub traverse {ℓ κ} : {A : Type ℓ} {B : Type κ} → (A → Result B) → List A → Result (List B)
traverse f [] = ok []
traverse f (x ∷ xs) = do y ← f x; ys ← traverse f xs; ok (y ∷ ys)

pub Result-cases {ℓ} :
    {A : Type ℓ} (r : Result A) → ((a : A) × (r ≡ ok a)) ⊎ ((e : Exception) × (r ≡ err e))
Result-cases (ok a) = inl (a, refl)
Result-cases (err e) = inr (e, refl)

pub >>=-assoc {ℓ κ μ} :
    {X : Type ℓ} {Y : Type κ} {Z : Type μ} (m : Result X) (f : X → Result Y) (g : Y → Result Z)
    → ((m >>= f) >>= g) ≡ (m >>= (λ value. f value >>= g))
>>=-assoc (ok a) f g = refl
>>=-assoc (err e) f g = refl

pub >>=_congr {ℓ κ} :
    {A : Type ℓ} {B : Type κ} (m : Result A) (f g : A → Result B)
    → ((a : A) → f a ≡ g a)
    → (m >>= f) ≡ (m >>= g)
>>=_congr (ok a) f g h = h a
>>=_congr (err e) f g h = refl

-- A block that returns has had its first call return.
pub >>=-eq-ok {ℓ κ} :
    {X : Type ℓ} {Y : Type κ} (first : Result X) (rest : X → Result Y) {result : Y}
    → (first >>= rest) ≡ ok result
    → (value : X) × (first ≡ ok value) × (rest value ≡ ok result)
>>=-eq-ok (err raised) rest returned = cc
>>=-eq-ok (ok value) rest returned = (value, refl, returned)

pub ok_inj {ℓ} : {A : Type ℓ} {a b : A} → ok a ≡ ok b → a ≡ b
ok_inj e = ground arith
