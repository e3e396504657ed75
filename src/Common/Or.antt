-- ===== src/Common/Or.antt =====
-- `|` of a field and the one above it is their sum. The library gives `bit_or` by its digits only.
use Prim.Native.Nat.{
  ℕ, zero, suc, ◌+◌, ◌*◌, ◌/◌, ◌%◌, ◌^◌, ◌≤◌, ◌<◌, max, bit_or, digits, bit_or-bitwise,
}
use mathlib.Core.Path.{◌≡◌, refl, ap}
use native.Mathlib.Nat.{pow-suc}
use native.Mathlib.Omega.{arith}

-- The recursion on digits behind `bit_or`; its fuel is the left argument.
abbrev or_loop : ℕ → ℕ → ℕ → ℕ
or_loop fuel x y = digits (λ b. b) max fuel x y

or_loop-fuel : (f g x y : ℕ) → x ≤ f → x ≤ g → or_loop f x y ≡ or_loop g x y
or_loop-fuel zero zero x y p q = refl
or_loop-fuel zero (suc g) zero y p q = refl
or_loop-fuel zero (suc g) (suc x) y p q = absurd (omega arith)
or_loop-fuel (suc f) zero zero y p q = refl
or_loop-fuel (suc f) zero (suc x) y p q = absurd (omega arith)
or_loop-fuel (suc f) (suc g) zero y p q = refl
or_loop-fuel (suc f) (suc g) (suc x) y p q =
    omega (arith, or_loop-fuel f g (suc x / 2) (y / 2) (omega arith) (omega arith))

zero-bit_or : (y : ℕ) → bit_or 0 y ≡ y
zero-bit_or y = bit_or-bitwise 0 y

bit_or_digit : (x y : ℕ) → bit_or x y ≡ 2 * bit_or (x / 2) (y / 2) + max (x % 2) (y % 2)
bit_or_digit zero y = omega (arith, zero-bit_or y, zero-bit_or (y / 2))
bit_or_digit (suc x) y =
    let half : ℕ = suc x / 2 in
    omega (
      arith,
      bit_or-bitwise (suc x) y,
      bit_or-bitwise half (y / 2),
      or_loop-fuel x half half (y / 2) (omega arith) (omega arith),
    )

-- The low field `r` has `k` bits.
pub bit_or_fields : (k r q : ℕ) → r < 2 ^ k → bit_or r (q * 2 ^ k) ≡ r + q * 2 ^ k
bit_or_fields zero r q h =
    let none : r ≡ 0 = omega arith in rw none (omega (arith, zero-bit_or (q * 2 ^ 0)))
bit_or_fields (suc k) r q h =
    let twice : q * 2 ^ suc k ≡ 2 * (q * 2 ^ k) = omega (arith, ap (λ t. q * t) (pow-suc 2 k)) in
    let half : 2 * (q * 2 ^ k) / 2 ≡ q * 2 ^ k = omega arith in
    rw twice (
      omega (
        arith,
        bit_or_digit r (2 * (q * 2 ^ k)),
        ap (λ t. bit_or (r / 2) t) half,
        bit_or_fields k (r / 2) q (omega (arith, pow-suc 2 k)),
      ))
