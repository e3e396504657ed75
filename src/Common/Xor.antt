-- ===== src/Common/Xor.antt =====
-- Exclusive or at variables: the library gives `bit_xor` by its digits only, hence the inductions on
-- the width.
use Prim.Native.Nat.{
  ℕ, zero, suc, ◌+◌, ◌*◌, ◌/◌, ◌%◌, ◌≤◌, bit_xor, differ, digits, bit_xor-bitwise,
}
use mathlib.Core.Path.{◌≡◌, refl, ap, sym, ◌∙◌}
use native.Mathlib.Omega.{arith}

-- The recursion on digits behind `bit_xor`; its fuel is the left argument.
abbrev xor_loop : ℕ → ℕ → ℕ → ℕ
xor_loop fuel x y = digits (λ b. b) differ fuel x y

xor_loop-fuel : (f g x y : ℕ) → x ≤ f → x ≤ g → xor_loop f x y ≡ xor_loop g x y
xor_loop-fuel zero zero x y p q = refl
xor_loop-fuel zero (suc g) zero y p q = refl
xor_loop-fuel zero (suc g) (suc x) y p q = absurd (omega arith)
xor_loop-fuel (suc f) zero zero y p q = refl
xor_loop-fuel (suc f) zero (suc x) y p q = absurd (omega arith)
xor_loop-fuel (suc f) (suc g) zero y p q = refl
xor_loop-fuel (suc f) (suc g) (suc x) y p q =
    omega (arith, xor_loop-fuel f g (suc x / 2) (y / 2) (omega arith) (omega arith))

pub zero-bit_xor : (y : ℕ) → bit_xor 0 y ≡ y
zero-bit_xor y = bit_xor-bitwise 0 y

differ_digits : (x y : ℕ) → x ≤ 1 → y ≤ 1 → differ x y ≡ (x + y) % 2
differ_digits zero y p q = omega arith
differ_digits (suc zero) zero p q = refl
differ_digits (suc zero) (suc zero) p q = refl
differ_digits (suc zero) (suc (suc y)) p q = absurd (omega arith)
differ_digits (suc (suc x)) y p q = absurd (omega arith)

-- One digit of `^`.
bit_xor_digit : (x y : ℕ) → bit_xor x y ≡ 2 * bit_xor (x / 2) (y / 2) + (x + y) % 2
bit_xor_digit zero y = omega (arith, zero-bit_xor y, zero-bit_xor (y / 2))
bit_xor_digit (suc x) y =
    let half : ℕ = suc x / 2 in
    omega (
      arith,
      bit_xor-bitwise (suc x) y,
      bit_xor-bitwise half (y / 2),
      xor_loop-fuel x half half (y / 2) (omega arith) (omega arith),
      differ_digits (suc x % 2) (y % 2) (omega arith) (omega arith),
    )

half_xor : (x y : ℕ) → bit_xor x y / 2 ≡ bit_xor (x / 2) (y / 2)
half_xor x y = omega (arith, bit_xor_digit x y)

xor_comm_fuel : (fuel x y : ℕ) → x ≤ fuel → y ≤ fuel → bit_xor x y ≡ bit_xor y x
xor_comm_fuel zero x y p q =
    let a : x ≡ 0 = omega arith in let b : y ≡ 0 = omega arith in rw (a, b) refl
xor_comm_fuel (suc fuel) x y p q = omega (
  arith,
  bit_xor_digit x y,
  bit_xor_digit y x,
  xor_comm_fuel fuel (x / 2) (y / 2) (omega arith) (omega arith),
)

pub bit_xor_comm : (x y : ℕ) → bit_xor x y ≡ bit_xor y x
bit_xor_comm x y = xor_comm_fuel (x + y) x y (omega arith) (omega arith)

xor_assoc_fuel :
    (fuel x y z : ℕ)
    → x ≤ fuel
    → y ≤ fuel
    → z ≤ fuel
    → bit_xor (bit_xor x y) z ≡ bit_xor x (bit_xor y z)
xor_assoc_fuel zero x y z p q r =
    let a : x ≡ 0 = omega arith in
    let b : y ≡ 0 = omega arith in let c : z ≡ 0 = omega arith in rw (a, b, c) refl
xor_assoc_fuel (suc fuel) x y z p q r = omega (
  arith,
  bit_xor_digit (bit_xor x y) z,
  ap (λ t. bit_xor t (z / 2)) (half_xor x y),
  bit_xor_digit x (bit_xor y z),
  ap (λ t. bit_xor (x / 2) t) (half_xor y z),
  bit_xor_digit x y,
  bit_xor_digit y z,
  xor_assoc_fuel fuel (x / 2) (y / 2) (z / 2) (omega arith) (omega arith) (omega arith),
)

pub bit_xor_assoc : (x y z : ℕ) → bit_xor (bit_xor x y) z ≡ bit_xor x (bit_xor y z)
bit_xor_assoc x y z = xor_assoc_fuel (x + y + z) x y z (omega arith) (omega arith) (omega arith)

pub bit_xor_right_comm : (x y z : ℕ) → bit_xor (bit_xor x y) z ≡ bit_xor (bit_xor x z) y
bit_xor_right_comm x y z =
    bit_xor_assoc x y z ∙ ap (λ t. bit_xor x t) (bit_xor_comm y z) ∙ sym (bit_xor_assoc x z y)

pub bit_xor-zero : (x : ℕ) → bit_xor x 0 ≡ x
bit_xor-zero x = bit_xor_comm x 0 ∙ zero-bit_xor x
