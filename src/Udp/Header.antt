-- ===== src/Udp/Header.antt =====
-- The IP header that net/udp.c sends: `ip_setup_header` of net/net.h with the checksum filled in.
use kns.Common.{
  ℕ, zero, suc, [], ◌++◌, ◌+◌, ◌-◌, ◌*◌, ◌/◌, ◌%◌, ◌^◌, ◌≤◌, ◌<◌, ◌≡◌, refl, ap, ◌∙◌, List, arith,
}
use kns.Chksum.{chksum_internet}
use kns.Chksum.Sum.{Bytes, ones, words, ones_sum, ones_sum-words}
use kns.Chksum.Laws.{chksum_internet-ones_sum}
use kns.Udp.{ip_setup_header, big_endian, ip_hdr_bytes, set_chksum}
use kns.Udp.State.{IpHdr}

-- The header of a datagram, with a checksum.
abbrev header : (proto saddr daddr l4len chksum : ℕ) → IpHdr
header proto saddr daddr l4len chksum = record (ip_setup_header proto saddr daddr l4len) {
  chksum = chksum;
}

byte : (n : ℕ) → n % 256 < 256
byte n = omega arith

big_endian-Bytes : (n v : ℕ) (rest : List ℕ) → Bytes rest → Bytes (big_endian n v ++ rest)
big_endian-Bytes zero v rest h = h
big_endian-Bytes (suc n) v rest h = (byte (v / 256 ^ n), big_endian-Bytes n v rest h)

header-Bytes :
    (proto saddr daddr l4len chksum : ℕ)
    → proto < 256
    → chksum < 65536
    → Bytes (ip_hdr_bytes (header proto saddr daddr l4len chksum))
unfolding ip_setup_header
header-Bytes proto saddr daddr l4len chksum p c =
    let addresses : Bytes (big_endian 4 saddr ++ big_endian 4 daddr) =
      big_endian-Bytes 4 saddr (big_endian 4 daddr) (big_endian-Bytes 4 daddr [] tt) in
    (
      omega arith,
      (
        omega arith,
        (
          byte _,
          (
            byte _,
            (
              omega arith,
              (
                omega arith,
                (
                  omega arith,
                  (omega arith, (omega arith, (p, (byte chksum, (omega arith, addresses))))),
                ),
              ),
            ),
          ),
        ),
      ),
    )

digits :
    (a b e d c : ℕ)
    → a + (b + (0 + (0 + (e + (c % 256 + 256 * (c / 256) + d)))))
      ≡ a + (b + (0 + (0 + (e + (0 + d))))) + c
digits a b e d c = omega arith

-- The checksum adds itself to the sum of the other words.
header-words :
    (proto saddr daddr l4len chksum : ℕ)
    → words (ip_hdr_bytes (header proto saddr daddr l4len chksum))
      ≡ words (ip_hdr_bytes (header proto saddr daddr l4len 0)) + chksum
unfolding ip_setup_header words
header-words proto saddr daddr l4len chksum = digits 69 _ _ _ chksum

ones-complement : (t : ℕ) → 1 ≤ t → ones (t + (65535 - ones t)) ≡ 65535
ones-complement t h = ground arith

words-some :
    (proto saddr daddr l4len : ℕ) → 1 ≤ words (ip_hdr_bytes (header proto saddr daddr l4len 0))
unfolding ip_setup_header words
words-some proto saddr daddr l4len = omega arith

ones_lt : (t : ℕ) → ones t < 65536
ones_lt t = ground arith

-- The checksum that is filled in.
filled_in :
    (proto saddr daddr l4len : ℕ)
    → proto < 256
    → chksum_internet (ip_hdr_bytes (header proto saddr daddr l4len 0)) 20
      ≡ 65535 - ones (words (ip_hdr_bytes (header proto saddr daddr l4len 0)))
filled_in proto saddr daddr l4len p =
    let h : IpHdr = header proto saddr daddr l4len 0 in
    let b : Bytes (ip_hdr_bytes h) = header-Bytes proto saddr daddr l4len 0 p (omega arith) in
    chksum_internet-ones_sum (ip_hdr_bytes h) 20 b refl
    ∙ ap (λ s. 65535 - s) (ones_sum-words (ip_hdr_bytes h) b)

-- The IP header that is sent verifies: with its checksum filled in, the one's complement sum of its
-- 16-bit numbers is 0xffff, whatever the addresses and the length.
pub set_chksum-verifies :
    (proto saddr daddr l4len : ℕ)
    → proto < 256
    → ones_sum (ip_hdr_bytes (set_chksum (ip_setup_header proto saddr daddr l4len))) ≡ 65535
unfolding ip_setup_header
set_chksum-verifies proto saddr daddr l4len p =
    let t : ℕ = words (ip_hdr_bytes (header proto saddr daddr l4len 0)) in
    let c : ℕ = 65535 - ones t in
    ap (λ x. ones_sum (ip_hdr_bytes (header proto saddr daddr l4len x)))
      (filled_in proto saddr daddr l4len p)
    ∙ ones_sum-words (ip_hdr_bytes (header proto saddr daddr l4len c))
        (header-Bytes proto saddr daddr l4len c p (omega arith))
    ∙ ap ones (header-words proto saddr daddr l4len c)
    ∙ ones-complement t (words-some proto saddr daddr l4len)
