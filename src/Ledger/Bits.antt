-- ===== src/Ledger/Bits.antt =====
-- The `^` of bigints at variables: what a shifted constant changes and what it leaves alone.
use Prim.Native.Nat.{
  ℕ, zero, suc, ◌+◌, ◌*◌, ◌/◌, ◌%◌, ◌^◌, ◌≤◌, ◌<◌, bit_xor, digits, differ, bit_xor-bitwise,
}
use mathlib.Core.Path.{◌≡◌, refl}
use native.Mathlib.Nat.{pow-suc}
use native.Mathlib.Omega.{arith}

abbrev xor_digits : ℕ → ℕ → ℕ → ℕ
xor_digits n a b = digits (λ b. b) differ n a b

xor_digits_fuel : (n m a b : ℕ) → a ≤ n → a ≤ m → xor_digits n a b ≡ xor_digits m a b
xor_digits_fuel zero zero a b p q = refl
xor_digits_fuel zero (suc m) zero b p q = refl
xor_digits_fuel zero (suc m) (suc a) b p q = absurd (omega arith)
xor_digits_fuel (suc n) zero zero b p q = refl
xor_digits_fuel (suc n) zero (suc a) b p q = absurd (omega arith)
xor_digits_fuel (suc n) (suc m) zero b p q = refl
xor_digits_fuel (suc n) (suc m) (suc a) b p q =
    omega (arith, xor_digits_fuel n m (suc a / 2) (b / 2) (omega arith) (omega arith))

differ_bit : (x y : ℕ) → x < 2 → y < 2 → differ x y ≡ (x + y) % 2
differ_bit zero y p q = omega arith
differ_bit (suc zero) zero p q = omega arith
differ_bit (suc zero) (suc zero) p q = omega arith
differ_bit (suc zero) (suc (suc y)) p q = absurd (omega arith)
differ_bit (suc (suc x)) y p q = absurd (omega arith)

zero-bit_xor : (b : ℕ) → bit_xor 0 b ≡ b
zero-bit_xor b = bit_xor-bitwise 0 b

-- The lowest digit, and the rest.
bit_xor_step : (a b : ℕ) → bit_xor a b ≡ bit_xor (a / 2) (b / 2) * 2 + (a % 2 + b % 2) % 2
bit_xor_step zero b = omega (arith, zero-bit_xor b, zero-bit_xor (b / 2))
bit_xor_step (suc a) b = omega (
  arith,
  bit_xor-bitwise (suc a) b,
  bit_xor-bitwise (suc a / 2) (b / 2),
  differ_bit (suc a % 2) (b % 2) (omega arith) (omega arith),
  xor_digits_fuel a (suc a / 2) (suc a / 2) (b / 2) (omega arith) (omega arith),
)

bit_xor-zero_fuel : (n a : ℕ) → a ≤ n → bit_xor a 0 ≡ a
bit_xor-zero_fuel n zero h = refl
bit_xor-zero_fuel zero (suc a) h = absurd (omega arith)
bit_xor-zero_fuel (suc n) (suc a) h =
    omega (arith, bit_xor_step (suc a) 0, bit_xor-zero_fuel n (suc a / 2) (omega arith))

pub bit_xor-zero : (a : ℕ) → bit_xor a 0 ≡ a
bit_xor-zero a = bit_xor-zero_fuel a a (omega arith)

cancel_left_fuel : (n a b c : ℕ) → b ≤ n → c ≤ n → bit_xor a b ≡ bit_xor a c → b ≡ c
cancel_left_fuel zero a b c p q e = omega arith
cancel_left_fuel (suc n) a b c p q e = omega (
  arith,
  bit_xor_step a b,
  bit_xor_step a c,
  cancel_left_fuel n (a / 2) (b / 2) (c / 2) (omega arith) (omega arith)
      (omega (arith, bit_xor_step a b, bit_xor_step a c)),
)

-- Different constants change a number to different numbers.
pub bit_xor-cancel_left : (a b c : ℕ) → bit_xor a b ≡ bit_xor a c → b ≡ c
bit_xor-cancel_left a b c = cancel_left_fuel (b + c) a b c (omega arith) (omega arith)

cancel_right_fuel : (n a b k : ℕ) → a ≤ n → b ≤ n → bit_xor a k ≡ bit_xor b k → a ≡ b
cancel_right_fuel zero a b k p q e = omega arith
cancel_right_fuel (suc n) a b k p q e = omega (
  arith,
  bit_xor_step a k,
  bit_xor_step b k,
  cancel_right_fuel n (a / 2) (b / 2) (k / 2) (omega arith) (omega arith)
      (omega (arith, bit_xor_step a k, bit_xor_step b k)),
)

-- One constant keeps different numbers different.
pub bit_xor-cancel_right : (a b k : ℕ) → bit_xor a k ≡ bit_xor b k → a ≡ b
bit_xor-cancel_right a b k = cancel_right_fuel (a + b) a b k (omega arith) (omega arith)

-- The result needs no more digits than the two numbers.
pub bit_xor-lt : (n a b : ℕ) → a < 2 ^ n → b < 2 ^ n → bit_xor a b < 2 ^ n
bit_xor-lt zero zero b p q = omega (arith, zero-bit_xor b)
bit_xor-lt zero (suc a) b p q = absurd (omega arith)
bit_xor-lt (suc n) a b p q =
    let e = pow-suc 2 n in
    let h = bit_xor-lt n (a / 2) (b / 2) (omega arith) (omega arith) in
    omega (arith, bit_xor_step a b)

-- A constant below a power of two leaves the digits from there on.
pub bit_xor-ge : (n a b : ℕ) → 2 ^ n ≤ a → b < 2 ^ n → 2 ^ n ≤ bit_xor a b
bit_xor-ge zero a zero p q = omega (arith, bit_xor-zero a)
bit_xor-ge zero a (suc b) p q = absurd (omega arith)
bit_xor-ge (suc n) a b p q =
    let e = pow-suc 2 n in
    let h = bit_xor-ge n (a / 2) (b / 2) (omega arith) (omega arith) in
    omega (arith, bit_xor_step a b)
