-- ===== src/Chksum/Tests.antt =====
-- Tests of the internet checksum: the example of RFC 1071, and one with a chunk of every size.
use kns.Common.{ℕ, ◌-◌, ◌≡◌, refl, List, [], ◌∷◌, ◌++◌, arith}
use kns.Chksum.{chksum_internet, chunks, fold, part, whole_chunks}
use kns.Chksum.Sum.{ones_sum}
use kns.Chksum.Laws.{chksum_internet-ones_sum}

abbrev rfc1071 : List ℕ
rfc1071 = 0x00 ∷ 0x01 ∷ 0xf2 ∷ 0x03 ∷ 0xf4 ∷ 0xf5 ∷ 0xf6 ∷ 0xf7 ∷ []

-- The sum is ddf2 by big-endian numbers, and its complement 220d stands in memory as 0d22.
rfc1071_test : chksum_internet rfc1071 8 ≡ 0x0d22
unfolding chksum_internet chunks fold part whole_chunks
rfc1071_test = refl

abbrev all_sizes : List ℕ
all_sizes = rfc1071 ++ 0xff ∷ 0xff ∷ 0xff ∷ 0xfe ∷ 0x45 ∷ 0x10 ∷ 0x7b ∷ []

all_sizes_test : chksum_internet all_sizes 15 ≡ 0xfd61
unfolding chksum_internet chunks fold part whole_chunks
all_sizes_test = refl

empty_test : chksum_internet [] 0 ≡ 0xffff
unfolding chksum_internet chunks fold part whole_chunks
empty_test = refl

chksum_internet-ones_sum_example : chksum_internet all_sizes 15 ≡ 65535 - ones_sum all_sizes
chksum_internet-ones_sum_example = chksum_internet-ones_sum all_sizes 15 (omega arith) refl
