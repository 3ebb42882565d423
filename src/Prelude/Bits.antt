-- ===== src/Prelude/Bits.antt =====
-- `|` and `^` on numbers of any width: when they are zero.
use Prim.Native.Nat.{
  ℕ, zero, suc, ◌+◌, ◌*◌, ◌/◌, ◌%◌, ◌≤◌, max, bit_or, bit_xor, digits, bitwise, differ,
  bit_or-bitwise, bit_xor-bitwise,
}
use mathlib.Core.Path.{◌≡◌, refl}
use native.Mathlib.Omega.{arith}

-- Fuel from the first number on makes no difference to the digits.
module _ (op : ℕ → ℕ → ℕ) where
  abbrev walk : ℕ → ℕ → ℕ → ℕ
  walk n a b = digits (λ y. y) op n a b

  walk_enough : (n m a b : ℕ) → a ≤ n → a ≤ m → walk n a b ≡ walk m a b
  walk_enough zero zero a b p q = refl
  walk_enough zero (suc m) zero b p q = refl
  walk_enough zero (suc m) (suc a) b p q = absurd (omega arith)
  walk_enough (suc n) zero zero b p q = refl
  walk_enough (suc n) zero (suc a) b p q = absurd (omega arith)
  walk_enough (suc n) (suc m) zero b p q = refl
  walk_enough (suc n) (suc m) (suc a) b p q =
      omega (arith, walk_enough n m (suc a / 2) (b / 2) (omega arith) (omega arith))

  -- The lowest digit of the result, and the rest.
  lowest_digit :
      (a b : ℕ)
      → bitwise (λ y. y) op (suc a) b
        ≡ bitwise (λ y. y) op (suc a / 2) (b / 2) * 2 + op (suc a % 2) (b % 2)
  lowest_digit a b =
      omega (arith, walk_enough a (suc a / 2) (suc a / 2) (b / 2) (omega arith) (omega arith))

bit_or_lowest :
    (a b : ℕ) → bit_or (suc a) b ≡ bit_or (suc a / 2) (b / 2) * 2 + max (suc a % 2) (b % 2)
bit_or_lowest a b =
    omega
      (arith, bit_or-bitwise (suc a) b, bit_or-bitwise (suc a / 2) (b / 2), lowest_digit max a b)

bit_xor_lowest :
    (a b : ℕ) → bit_xor (suc a) b ≡ bit_xor (suc a / 2) (b / 2) * 2 + differ (suc a % 2) (b % 2)
bit_xor_lowest a b =
    omega (
      arith,
      bit_xor-bitwise (suc a) b,
      bit_xor-bitwise (suc a / 2) (b / 2),
      lowest_digit differ a b,
    )

bit_or_zero_fuel : (n a b : ℕ) → a ≤ n → bit_or a b ≡ 0 → (a ≡ 0) × (b ≡ 0)
bit_or_zero_fuel n zero b h e = omega (arith, bit_or-bitwise 0 b)
bit_or_zero_fuel zero (suc a) b h e = absurd (omega arith)
bit_or_zero_fuel (suc n) (suc a) b h e =
    let ih =
      bit_or_zero_fuel n (suc a / 2) (b / 2) (omega arith) (omega (arith, bit_or_lowest a b)) in
    omega (arith, ih, bit_or_lowest a b)

pub bit_or_zero : (a b : ℕ) → bit_or a b ≡ 0 → (a ≡ 0) × (b ≡ 0)
bit_or_zero a b e = bit_or_zero_fuel a a b (omega arith) e

differ_zero : (x y : ℕ) → differ x y ≡ 0 → x ≡ y
differ_zero zero y e = omega arith
differ_zero (suc x) zero e = omega arith
differ_zero (suc x) (suc y) e = omega (arith, differ_zero x y e)

differ_self : (x : ℕ) → differ x x ≡ 0
differ_self zero = refl
differ_self (suc x) = differ_self x

bit_xor_zero_fuel : (n a b : ℕ) → a ≤ n → bit_xor a b ≡ 0 → a ≡ b
bit_xor_zero_fuel n zero b h e = omega (arith, bit_xor-bitwise 0 b)
bit_xor_zero_fuel zero (suc a) b h e = absurd (omega arith)
bit_xor_zero_fuel (suc n) (suc a) b h e =
    let ih =
      bit_xor_zero_fuel n (suc a / 2) (b / 2) (omega arith) (omega (arith, bit_xor_lowest a b)) in
    omega (
      arith,
      ih,
      bit_xor_lowest a b,
      differ_zero (suc a % 2) (b % 2) (omega (arith, bit_xor_lowest a b)),
    )

pub bit_xor_zero : (a b : ℕ) → bit_xor a b ≡ 0 → a ≡ b
bit_xor_zero a b e = bit_xor_zero_fuel a a b (omega arith) e

bit_xor_self_fuel : (n a : ℕ) → a ≤ n → bit_xor a a ≡ 0
bit_xor_self_fuel n zero h = refl
bit_xor_self_fuel zero (suc a) h = absurd (omega arith)
bit_xor_self_fuel (suc n) (suc a) h =
    let ih = bit_xor_self_fuel n (suc a / 2) (omega arith) in
    omega (arith, ih, bit_xor_lowest a (suc a), differ_self (suc a % 2))

pub bit_xor_self : (a : ℕ) → bit_xor a a ≡ 0
bit_xor_self a = bit_xor_self_fuel a a (omega arith)
