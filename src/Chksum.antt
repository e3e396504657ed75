-- ===== src/Chksum.antt =====
-- The internet checksum of inc/kns/chksum.h: the instructions of its assembly, on the 64-bit sum, the
-- carry flag and the bytes that are left.
pub mod Sum
pub mod Laws
mod Tests
use kns.Common.{ℕ, zero, suc, ◌+◌, ◌-◌, ◌*◌, ◌/◌, ◌%◌, ◌^◌, List, [], ◌∷◌}
use kns.Common.Tests.{if◌then◌else◌, ◌==◌}
use kns.Common.Lists.{drop}

-- `n` bytes of memory as a little-endian number.
abbrev pub load : ℕ → List ℕ → ℕ
load zero buf = 0
load (suc n) [] = 0
load (suc n) (x ∷ buf) = x + 256 * load n buf

-- An addition with carry on `w` bits: the sum and the new carry.
abbrev pub adc : (w a b carry : ℕ) → ℕ × ℕ
adc w a b carry = ((a + b + carry) % 2 ^ w, (a + b + carry) / 2 ^ w)

-- `addq b, a; adcq $0, a`, and the same on 32 and on 16 bits.
abbrev pub add_carry : (w a b : ℕ) → ℕ
add_carry w a b = let (s, carry) = adc w a b 0 in (adc w s 0 carry).0

-- The loop over the 8-byte chunks: `left` is %edx.
unfoldable pub chunks : (left : ℕ) (buf : List ℕ) (sum carry : ℕ) → ℕ × ℕ × List ℕ
chunks zero buf sum carry = (sum, carry, buf)
chunks (suc left) buf sum carry =
    let (sum', carry') = adc 64 sum (load 8 buf) carry in chunks left (drop 8 buf) sum' carry'

-- The chunk of `n` bytes that the bit `n` of the length asks for: the sum and the bytes left.
unfoldable pub part : (n len : ℕ) → ℕ × List ℕ → ℕ × List ℕ
part n len (sum, buf) =
    if len / n % 2 == 0 then (sum, buf) else (add_carry 64 sum (load n buf), drop n buf)

-- From label 5 on: the sum folded into 16 bits, and its complement.
unfoldable pub fold : ℕ → ℕ
fold sum =
    let sum32 : ℕ = add_carry 32 (sum / 2 ^ 32) (sum % 2 ^ 32) in
    let sum16 : ℕ = add_carry 16 (sum32 / 2 ^ 16) (sum32 % 2 ^ 16) in 2 ^ 16 - 1 - sum16

-- The 8-byte chunks, with the last carry added.
unfoldable pub whole_chunks : (len : ℕ) → List ℕ → ℕ × List ℕ
whole_chunks len buf =
    let left : ℕ = len / 8 in
    let (sum, carry, buf') = chunks left buf 0 0 in
    if left == 0 then (0, buf) else ((adc 64 sum 0 carry).0, buf')

unfoldable pub chksum_internet : (buf : List ℕ) (len : ℕ) → ℕ
chksum_internet buf len = fold (part 1 len (part 2 len (part 4 len (whole_chunks len buf)))).0
