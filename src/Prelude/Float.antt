-- ===== src/Prelude/Float.antt =====
-- The program's floating point numbers: the operations that its code calls, as an interface, and
-- the order that they carry. `F` stands for the finite doubles with the two zeros taken as one; a
-- NaN that the code makes or tests for is the `none` of an `Option`.
use mathlib.Core.Path.{◌≡◌}
use mathlib.Core.Logic.{◌⊎◌}
use mathlib.Core.Bool.{Bool, true, false, not, ◌&&◌}
use native.Mathlib.Omega.{arith}
use Prim.Native.Nat.{ℕ}
use compute_quant_lab.Prelude.Tests.{if◌then◌else◌}
use compute_quant_lab.Prelude.Int.{ℤ, pos, ◌+ℤ◌, ◌-ℤ◌, ◌*ℤ◌, quotient, leb_ℤ, eq_of_parts}

pub record Float (F : Type 0) : Type 0 where
  pub of_nat : ℕ → F
  pub add : F → F → F
  pub sub : F → F → F
  pub mul : F → F → F
  pub div : F → F → F
  pub sqrt : F → F
  pub le : F → F → Bool

module _ {F : Type 0} ⦃float : Float F⦄ where
  abbrev pub nought : F
  nought = float.of_nat 0

  abbrev pub unit : F
  unit = float.of_nat 1

  -- `x < y`, away from NaN.
  abbrev pub lt : F → F → Bool
  lt x y = not (float.le y x)

  -- `x == y`, away from NaN.
  abbrev pub feq : F → F → Bool
  feq x y = float.le x y && float.le y x

  abbrev pub neg : F → F
  neg x = float.sub nought x

  abbrev pub abs : F → F
  abs x = if float.le nought x then x else neg x

infix 4 ◌≼◌
abbrev pub ◌≼◌ : {F : Type 0} ⦃float : Float F⦄ → F → F → Type 0
◌≼◌ ⦃float⦄ x y = float.le x y ≡ true

-- The comparison of IEEE 754 away from NaN.
pub record IsOrdered (F : Type 0) ⦃float : Float F⦄ : Type 0 where
  pub le_trans : (x y z : F) → x ≼ y → y ≼ z → x ≼ z
  pub le_total : (x y : F) → (x ≼ y) ⊎ (y ≼ x)
  pub le_antisym : (x y : F) → x ≼ y → y ≼ x → x ≡ y

module _ {F : Type 0} ⦃float : Float F⦄ (laws : IsOrdered F) where
  open laws use {le_trans, le_total, le_antisym}

  pub le_refl : (x : F) → x ≼ x
  le_refl x = ground (arith, le_total x x)

  pub le_of_not_le : (x y : F) → float.le x y ≡ false → y ≼ x
  le_of_not_le x y h = ground (arith, le_total x y)

  pub eq_of_feq : (x y : F) → feq x y ≡ true → x ≡ y
  eq_of_feq x y h = ground (arith, le_antisym x y)

  pub feq_refl : (x : F) → feq x x ≡ true
  feq_refl x = ground (arith, le_refl x)

-- The interface can be met: whole numbers, with a quotient that rounds towards zero.
instance abbrev pub int_float : Float ℤ
int_float = record {
  of_nat = pos;
  add = ◌+ℤ◌;
  sub = ◌-ℤ◌;
  mul = ◌*ℤ◌;
  div = quotient;
  sqrt = λ x. x;
  le = leb_ℤ;
}

pub int-IsOrdered : IsOrdered ℤ
int-IsOrdered = record {
  le_trans = λ x y z. ground arith;
  le_total = λ x y. ground arith;
  le_antisym = λ x y p q. eq_of_parts x y (ground arith);
}
