-- ===== src/Common/Bits.antt =====
-- `x & (2 ^ k - 1)` is the remainder by `2 ^ k`: the ring and the page macros mask with a size less
-- one. The library gives `bit_and` by its digits only, hence the induction on the width.
use Prim.Native.Nat.{
  ℕ, zero, suc, ◌+◌, ◌-◌, ◌*◌, ◌/◌, ◌%◌, ◌^◌, ◌≤◌, min, bit_and, digits, bit_and-bitwise,
}
use mathlib.Core.Path.{◌≡◌, refl, ap, sym, ◌∙◌}
use native.Mathlib.Nat.{
  pow-suc, one-le-pow, div-add-mod, mod-add-div, mul_assoc, add-mul-mod_self_left, mod-eq_of_lt,
  mod-lt,
}
use native.Mathlib.Omega.{arith}

-- The recursion on digits behind `bit_and`; its fuel is the left argument.
abbrev and_loop : ℕ → ℕ → ℕ → ℕ
and_loop fuel x y = digits (λ _. zero) min fuel x y

and_loop-fuel : (f g x y : ℕ) → x ≤ f → x ≤ g → and_loop f x y ≡ and_loop g x y
and_loop-fuel zero zero x y p q = refl
and_loop-fuel zero (suc g) zero y p q = refl
and_loop-fuel zero (suc g) (suc x) y p q = absurd (omega arith)
and_loop-fuel (suc f) zero zero y p q = refl
and_loop-fuel (suc f) zero (suc x) y p q = absurd (omega arith)
and_loop-fuel (suc f) (suc g) zero y p q = refl
and_loop-fuel (suc f) (suc g) (suc x) y p q =
    omega (arith, and_loop-fuel f g (suc x / 2) (y / 2) (omega arith) (omega arith))

bit_and_zero_left : (y : ℕ) → bit_and 0 y ≡ 0
bit_and_zero_left y = bit_and-bitwise 0 y

-- One digit of `&`.
bit_and_digit : (x y : ℕ) → bit_and x y ≡ 2 * bit_and (x / 2) (y / 2) + min (x % 2) (y % 2)
bit_and_digit zero y = omega (arith, bit_and_zero_left y, bit_and_zero_left (y / 2))
bit_and_digit (suc x) y =
    let half : ℕ = suc x / 2 in
    omega (
      arith,
      bit_and-bitwise (suc x) y,
      bit_and-bitwise half (y / 2),
      and_loop-fuel x half half (y / 2) (omega arith) (omega arith),
    )

bit_and_zero_right : (fuel x : ℕ) → x ≤ fuel → bit_and x 0 ≡ 0
bit_and_zero_right fuel zero h = bit_and_zero_left 0
bit_and_zero_right zero (suc x) h = absurd (omega arith)
bit_and_zero_right (suc fuel) (suc x) h =
    omega (arith, bit_and_digit (suc x) 0, bit_and_zero_right fuel (suc x / 2) (omega arith))

-- `x % (2 p)` by its last digit and the rest.
mod_double : (x p : ℕ) → 1 ≤ p → x % (2 * p) ≡ 2 * (x / 2 % p) + x % 2
mod_double x p h =
    let low : ℕ = 2 * (x / 2 % p) + x % 2 in
    let split : x ≡ low + 2 * p * (x / 2 / p) =
      omega (arith, ap (λ (t : ℕ). 2 * t) (div-add-mod (x / 2) p)) in
    ap (λ t. t % (2 * p)) split
    ∙ add-mul-mod_self_left low (2 * p) (x / 2 / p)
    ∙ mod-eq_of_lt (omega (arith, mod-lt (x / 2) h))

-- Masking with `2 ^ k - 1` keeps the remainder by `2 ^ k`.
pub bit_and-mask : (k x : ℕ) → bit_and x (2 ^ k - 1) ≡ x % 2 ^ k
bit_and-mask zero x = bit_and_zero_right x x (omega arith) ∙ omega arith
bit_and-mask (suc k) x =
    let p : ℕ = 2 ^ k in
    let big : 1 ≤ p = one-le-pow k 2 (omega arith) in
    let twice : 2 ^ suc k ≡ 2 * p = omega (arith, pow-suc 2 k) in
    let half : (2 * p - 1) / 2 ≡ p - 1 = omega arith in
    let odd : (2 * p - 1) % 2 ≡ 1 = omega arith in
    rw twice (
      bit_and_digit x (2 * p - 1)
      ∙ rw (half, odd, bit_and-mask k (x / 2), mod_double x p big) (omega arith))

pub pow_add : (a b : ℕ) → 2 ^ (a + b) ≡ 2 ^ a * 2 ^ b
pow_add a zero = let e : a + 0 ≡ a = omega arith in rw e (omega arith)
pow_add a (suc b) =
    let step : a + suc b ≡ suc (a + b) = omega arith in
    rw (step, pow-suc 2 (a + b), pow-suc 2 b, pow_add a b) (mul_assoc (2 ^ a) (2 ^ b) 2)

-- Wrapping at `2 ^ (j + k)` does not show modulo `2 ^ k`.
pub mod-mod_pow : (j k x : ℕ) → x % 2 ^ (k + j) % 2 ^ k ≡ x % 2 ^ k
mod-mod_pow j k x =
    let s : ℕ = 2 ^ k in
    let t : ℕ = 2 ^ j in
    let q : ℕ = x / (s * t) in
    let split : x ≡ x % (s * t) + s * (t * q) =
      sym (mod-add-div x (s * t)) ∙ ap (λ u. x % (s * t) + u) (mul_assoc s t q) in
    rw pow_add (sym (ap (λ u. u % s) split ∙ add-mul-mod_self_left (x % (s * t)) s (t * q)))

-- The same with the mask on the left.
pub bit_and-mask_left : (k x : ℕ) → bit_and (2 ^ k - 1) x ≡ x % 2 ^ k
bit_and-mask_left zero x = bit_and_zero_left x ∙ omega arith
bit_and-mask_left (suc k) x =
    let p : ℕ = 2 ^ k in
    let big : 1 ≤ p = one-le-pow k 2 (omega arith) in
    let twice : 2 ^ suc k ≡ 2 * p = omega (arith, pow-suc 2 k) in
    let half : (2 * p - 1) / 2 ≡ p - 1 = omega arith in
    let odd : (2 * p - 1) % 2 ≡ 1 = omega arith in
    rw twice (
      bit_and_digit (2 * p - 1) x
      ∙ rw (half, odd, bit_and-mask_left k (x / 2), mod_double x p big) (omega arith))
