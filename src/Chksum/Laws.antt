-- ===== src/Chksum/Laws.antt =====
-- The checksum of inc/kns/chksum.h is the one of RFC 1071.
use kns.Common.{
  ℕ, zero, suc, ◌+◌, ◌-◌, ◌*◌, ◌/◌, ◌%◌, ◌^◌, ◌≤◌, ◌<◌, ◌≡◌, ◌≢◌, refl, sym, ap, ◌∙◌, inl, inr,
  List, [], ◌∷◌, arith,
}
use kns.Common.Tests.{◌==◌, Bool-cases, ==→eq, eq→==}
use kns.Common.Lists.{length, drop}
use kns.Chksum.{load, add_carry, chunks, part, fold, whole_chunks, chksum_internet}
use kns.Chksum.Sum.{
  ones_sum, ones, words, ones_carry64, ones_carry32, ones_carry16, ones_small, Bytes,
  ones_sum-words, load-words, load-lt, drop-Bytes, length-drop,
}

-- The sum and the bytes that are left stand for the whole of `buf`: no carry is lost.
record Stands (buf : List ℕ) (sum : ℕ) (rest : List ℕ) (left : ℕ) : Type 0 where
  small : sum < 2 ^ 64
  kept : ones (sum + words rest) ≡ ones (words buf)
  bytes : Bytes rest
  short : length rest ≡ left

chunks_lem :
    (left : ℕ) (buf : List ℕ) (sum carry : ℕ)
    → Bytes buf
    → 8 * left ≤ length buf
    → sum + carry < 2 ^ 64
    → let r = chunks left buf sum carry in
      (r.0 + r.1 < 2 ^ 64)
      × (ones (r.0 + r.1 + words r.2) ≡ ones (sum + carry + words buf))
      × Bytes r.2
      × (length r.2 + 8 * left ≡ length buf)
unfolding chunks
chunks_lem zero buf sum carry b h s = (s, refl, b, omega arith)
chunks_lem (suc left) buf sum carry b h s =
    let word : ℕ = load 8 buf in
    let total : ℕ = sum + word + carry in
    let small : word < 2 ^ 64 = load-lt 8 buf b in
    let w : ℕ = words (drop 8 buf) in
    let (fits, same, bytes, count) =
      chunks_lem left (drop 8 buf) (total % 2 ^ 64) (total / 2 ^ 64) (drop-Bytes 8 buf b)
        (omega (arith, length-drop 8 buf)) (omega arith) in
    (
      fits,
      same
          ∙ ones_carry64 total w
          ∙ ap ones (omega arith)
          ∙ load-words 4 buf (sum + carry) (omega arith),
      bytes,
      omega (arith, count, length-drop 8 buf),
    )

whole_chunks-Stands :
    (len : ℕ) (buf : List ℕ)
    → Bytes buf
    → length buf ≡ len
    → let r = whole_chunks len buf in Stands buf r.0 r.1 (len % 8)
unfolding whole_chunks
whole_chunks-Stands len buf b h = elim (Bool-cases (len / 8 == 0)) [
  | inl none_left ↦
      let zero_left = ==→eq (len / 8) 0 none_left in
      rw none_left (record {
        small = omega arith;
        kept = ap ones (omega arith);
        bytes = b;
        short = omega arith;
      })
  | inr some_left ↦
      let (fits, same, bytes, count) = chunks_lem (len / 8) buf 0 0 b (omega arith) (omega arith) in
      rw some_left (record {
        small = omega arith;
        kept =
            ap (λ t. ones (t + words (chunks (len / 8) buf 0 0).2)) (omega (arith, fits))
            ∙ same
            ∙ ap ones (omega arith);
        bytes = bytes;
        short = omega (arith, count);
      })
]

add_carry64 :
    (a b w : ℕ)
    → a < 2 ^ 64
    → b < 2 ^ 64
    → (add_carry 64 a b < 2 ^ 64) × (ones (add_carry 64 a b + w) ≡ ones (a + b + w))
add_carry64 a b w h k =
    let total : ℕ = a + b + 0 in
    let sum : add_carry 64 a b ≡ total % 2 ^ 64 + total / 2 ^ 64 = omega arith in
    (omega arith, ap (λ t. ones (t + w)) sum ∙ ones_carry64 total w ∙ ap ones (omega arith))

-- The chunk of `n` bytes: it is there just if the length has the bit `n`.
part_lem :
    (n len sum left : ℕ) (buf rest : List ℕ)
    → Stands buf sum rest left
    → (len / n % 2 ≡ 0 → left ≡ len % n)
    → (len / n % 2 ≢ 0 → left ≡ len % n + n)
    → load n rest < 2 ^ 64
    → (n ≤ length rest → ones (sum + load n rest + words (drop n rest)) ≡ ones (sum + words rest))
    → let r = part n len (sum, rest) in Stands buf r.0 r.1 (len % n)
unfolding part
part_lem n len sum left buf rest s skipped taken fits adds = elim (Bool-cases (len / n % 2 == 0)) [
  | inl e ↦ rw e (record {
    small = s.small;
    kept = s.kept;
    bytes = s.bytes;
    short = s.short ∙ skipped (==→eq _ 0 e);
  })
  | inr e ↦
      let there = taken (λ z. cc (eq→== (len / n % 2) 0 z)) in
      let room : n ≤ length rest = omega (arith, s.short) in
      let (small, kept) = add_carry64 sum (load n rest) (words (drop n rest)) s.small fits in
      rw e (record {
        small = small;
        kept = kept ∙ adds room ∙ s.kept;
        bytes = drop-Bytes n rest s.bytes;
        short = omega (arith, length-drop n rest room, s.short);
      })
]

part4 :
    (len sum : ℕ) (buf rest : List ℕ)
    → Stands buf sum rest (len % 8)
    → let r = part 4 len (sum, rest) in Stands buf r.0 r.1 (len % 4)
part4 len sum buf rest s =
    part_lem 4 len sum (len % 8) buf rest s (λ e. omega arith) (λ e. omega arith)
      (omega (arith, load-lt 4 rest s.bytes)) (load-words 2 rest sum)

part2 :
    (len sum : ℕ) (buf rest : List ℕ)
    → Stands buf sum rest (len % 4)
    → let r = part 2 len (sum, rest) in Stands buf r.0 r.1 (len % 2)
part2 len sum buf rest s =
    part_lem 2 len sum (len % 4) buf rest s (λ e. omega arith) (λ e. omega arith)
      (omega (arith, load-lt 2 rest s.bytes)) (load-words 1 rest sum)

last_byte :
    (rest : List ℕ) (sum : ℕ)
    → length rest < 2
    → 1 ≤ length rest
    → ones (sum + load 1 rest + words (drop 1 rest)) ≡ ones (sum + words rest)
unfolding words
last_byte [] sum h k = absurd (omega arith)
last_byte (x ∷ []) sum h k = ap ones (omega arith)
last_byte (x ∷ y ∷ rest) sum h k = absurd (omega arith)

part1 :
    (len sum : ℕ) (buf rest : List ℕ)
    → Stands buf sum rest (len % 2)
    → let r = part 1 len (sum, rest) in Stands buf r.0 r.1 (len % 1)
part1 len sum buf rest s =
    part_lem 1 len sum (len % 2) buf rest s (λ e. omega arith) (λ e. omega arith)
      (omega (arith, load-lt 1 rest s.bytes)) (last_byte rest sum (omega (arith, s.short)))

fold32 :
    (sum : ℕ)
    → sum < 2 ^ 64
    → let half = add_carry 32 (sum / 2 ^ 32) (sum % 2 ^ 32) in
      (half < 2 ^ 32) × (ones half ≡ ones sum)
fold32 sum h =
    let total : ℕ = sum / 2 ^ 32 + sum % 2 ^ 32 + 0 in
    let half : ℕ = add_carry 32 (sum / 2 ^ 32) (sum % 2 ^ 32) in
    let e : half ≡ total % 2 ^ 32 + total / 2 ^ 32 = omega arith in
    (omega arith, ap ones e ∙ ones_carry32 total ∙ ap ones (omega arith) ∙ ones_carry32 sum)

fold16 :
    (half : ℕ)
    → half < 2 ^ 32
    → let quarter = add_carry 16 (half / 2 ^ 16) (half % 2 ^ 16) in
      (quarter < 2 ^ 16) × (ones quarter ≡ ones half)
fold16 half h =
    let total : ℕ = half / 2 ^ 16 + half % 2 ^ 16 + 0 in
    let quarter : ℕ = add_carry 16 (half / 2 ^ 16) (half % 2 ^ 16) in
    let e : quarter ≡ total % 2 ^ 16 + total / 2 ^ 16 = omega arith in
    (omega arith, ap ones e ∙ ones_carry16 total ∙ ap ones (omega arith) ∙ ones_carry16 half)

fold_lem : (sum : ℕ) → sum < 2 ^ 64 → fold sum ≡ 65535 - ones sum
unfolding fold
fold_lem sum h =
    let (small, same) = fold32 sum h in
    let (small', same') = fold16 _ small in
    ap (λ t. 65535 - t) (sym (ones_small _ small') ∙ same' ∙ same)

nothing_left : (sum : ℕ) (rest : List ℕ) → length rest ≡ 0 → sum + words rest ≡ sum
unfolding words
nothing_left sum [] h = omega arith
nothing_left sum (x ∷ rest) h = absurd (omega arith)

-- Over a buffer of `len` bytes, `chksum_internet` answers the complement of the one's complement sum
-- of the buffer's 16-bit numbers, as RFC 1071 defines it.
pub chksum_internet-ones_sum :
    (buf : List ℕ) (len : ℕ)
    → Bytes buf
    → length buf ≡ len
    → chksum_internet buf len ≡ 65535 - ones_sum buf
unfolding chksum_internet
chksum_internet-ones_sum buf len b h =
    let s8 = whole_chunks-Stands len buf b h in
    let s4 = part4 len _ buf _ s8 in
    let s2 = part2 len _ buf _ s4 in
    let s1 = part1 len _ buf _ s2 in
    fold_lem _ s1.small
    ∙ ap (λ t. 65535 - t)
        (ap ones (sym (nothing_left _ _ (omega (arith, s1.short))))
          ∙ s1.kept
          ∙ sym (ones_sum-words buf b))
