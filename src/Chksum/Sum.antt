-- ===== src/Chksum/Sum.antt =====
-- One's complement sums of bytes and of 16-bit numbers, for the checksum of inc/kns/chksum.h.
use kns.Common.{
  ℕ, zero, suc, ◌+◌, ◌-◌, ◌*◌, ◌/◌, ◌%◌, ◌^◌, ◌≤◌, ◌<◌, ◌≡◌, refl, ap, ◌∙◌, List, [], ◌∷◌, arith,
}
use native.Mathlib.Nat.{pow-suc, one-le-pow}
use kns.Common.Tests.{if◌then◌else◌, ◌==◌, ltb}
use kns.Common.Lists.{length, drop}
use kns.Chksum.{load}

-- One's complement addition of 16-bit numbers: the carry comes back in at the low end.
abbrev pub ones_add : ℕ → ℕ → ℕ
ones_add a b = if ltb (a + b) 65536 then a + b else a + b - 65535

-- The one's complement sum of RFC 1071: adjacent bytes form 16-bit numbers, and an odd byte at the
-- end is one with a zero.
pub ones_sum : List ℕ → ℕ
ones_sum [] = 0
ones_sum (x ∷ []) = x
ones_sum (x ∷ y ∷ buf) = ones_add (x + 256 * y) (ones_sum buf)

-- What one's complement addition makes of a number.
abbrev pub ones : ℕ → ℕ
ones t = if t == 0 then 0 else (t - 1) % 65535 + 1

unfoldable pub words : List ℕ → ℕ
words [] = 0
words (x ∷ []) = x
words (x ∷ y ∷ buf) = x + 256 * y + words buf

ones_add_lem : (a t : ℕ) → a < 65536 → ones_add a (ones t) ≡ ones (a + t)
ones_add_lem a t h = ground arith

ones-ones : (a t : ℕ) → ones (a + ones t) ≡ ones (a + t)
ones-ones a t = ground arith

-- The carry out of 64, 32 or 16 bits, added at the low end, keeps what the sum stands for.
pub ones_carry64 : (t w : ℕ) → ones (t % 2 ^ 64 + t / 2 ^ 64 + w) ≡ ones (t + w)
ones_carry64 t w = ground arith

pub ones_carry32 : (t : ℕ) → ones (t % 2 ^ 32 + t / 2 ^ 32) ≡ ones t
ones_carry32 t = ground arith

pub ones_carry16 : (t : ℕ) → ones (t % 2 ^ 16 + t / 2 ^ 16) ≡ ones t
ones_carry16 t = ground arith

pub ones_small : (t : ℕ) → t < 65536 → ones t ≡ t
ones_small t h = ground arith

abbrev pub Bytes : List ℕ → Type 0
Bytes [] = Unit {0}
Bytes (x ∷ buf) = (x < 256) × Bytes buf

pub ones_sum-words : (buf : List ℕ) → Bytes buf → ones_sum buf ≡ ones (words buf)
unfolding ones_sum words
ones_sum-words [] h = refl
ones_sum-words (x ∷ []) h = ground arith
ones_sum-words (x ∷ y ∷ buf) h =
    ap (ones_add (x + 256 * y)) (ones_sum-words buf h.1.1)
    ∙ ones_add_lem (x + 256 * y) (words buf) (omega arith)

-- The bytes of `n` 16-bit numbers.
abbrev twice : ℕ → ℕ
twice zero = zero
twice (suc n) = suc (suc (twice n))

ones_load : (t l : ℕ) → ones (t + 65536 * l) ≡ ones (t + l)
ones_load t l = ground arith

-- A number loaded from memory adds what its 16-bit numbers add.
pub load-words :
    (n : ℕ) (buf : List ℕ) (t : ℕ)
    → twice n ≤ length buf
    → ones (t + load (twice n) buf + words (drop (twice n) buf)) ≡ ones (t + words buf)
unfolding words
load-words zero buf t h = ap ones (omega arith)
load-words (suc n) [] t h = absurd (omega arith)
load-words (suc n) (x ∷ []) t h = absurd (omega arith)
load-words (suc n) (x ∷ y ∷ buf) t h =
    let l : ℕ = load (twice n) buf in
    let u : ℕ = t + x + 256 * y in
    let w : ℕ = words (drop (twice n) buf) in
    let split : t + (x + 256 * (y + 256 * l)) + w ≡ u + w + 65536 * l = omega arith in
    let back : u + w + l ≡ u + l + w = omega arith in
    let whole : u + words buf ≡ t + (x + 256 * y + words buf) = omega arith in
    ap ones split
    ∙ ones_load (u + w) l
    ∙ ap ones back
    ∙ load-words n buf u (omega arith)
    ∙ ap ones whole

pub load-lt : (n : ℕ) (buf : List ℕ) → Bytes buf → load n buf < 256 ^ n
load-lt zero buf h = omega arith
load-lt (suc n) [] h = omega (arith, one-le-pow (suc n) 256)
load-lt (suc n) (x ∷ buf) h = omega (arith, pow-suc 256 n, load-lt n buf h.1)

pub drop-Bytes : (n : ℕ) (buf : List ℕ) → Bytes buf → Bytes (drop n buf)
drop-Bytes zero buf h = h
drop-Bytes (suc n) [] h = h
drop-Bytes (suc n) (x ∷ buf) h = drop-Bytes n buf h.1

pub length-drop : (n : ℕ) (buf : List ℕ) → n ≤ length buf → length (drop n buf) + n ≡ length buf
length-drop zero buf h = omega arith
length-drop (suc n) [] h = absurd (omega arith)
length-drop (suc n) (x ∷ buf) h = omega (arith, length-drop n buf)
