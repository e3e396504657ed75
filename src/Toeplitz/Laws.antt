-- ===== src/Toeplitz/Laws.antt =====
-- The table of core/toeplitz.c gives the hash that net/tcp_api.c computes bit by bit, and both ends of
-- a connection have the same hash.
use Prim.Native.Nat.{bit_xor}
use kns.Common.{ℕ, suc, ◌+◌, ◌<◌, ◌≡◌, refl, sym, ap, ◌∙◌, List, [], ◌∷◌}
use kns.Common.Xor.{zero-bit_xor, bit_xor_right_comm}
use kns.Common.Lists.{get_or}
use kns.Toeplitz.{
  byte, cached, compute_toeplitz_hash, first_part, hash_bytes, toeplitz_get_key, toeplitz_init,
  toeplitz_keyseeds, toeplitz_rawhash_addrport,
}
use kns.Toeplitz.Keys.{rss_key}
use kns.Toeplitz.Table.{byte-lt, table, even_byte, odd_byte}

abbrev xor_all : ℕ → List ℕ → ℕ
xor_all r [] = r
xor_all r (x ∷ xs) = xor_all (bit_xor r x) xs

abbrev xor_pairs : ℕ → List (ℕ × ℕ) → ℕ
xor_pairs r [] = r
xor_pairs r ((x, y) ∷ ps) = xor_pairs (bit_xor (bit_xor r x) y) ps

abbrev firsts : List (ℕ × ℕ) → List ℕ
firsts [] = []
firsts ((x, y) ∷ ps) = x ∷ firsts ps

abbrev seconds : List (ℕ × ℕ) → List ℕ
seconds [] = []
seconds ((x, y) ∷ ps) = y ∷ seconds ps

xor_all-bit_xor : (r x : ℕ) (xs : List ℕ) → xor_all (bit_xor r x) xs ≡ bit_xor (xor_all r xs) x
xor_all-bit_xor r x [] = refl
xor_all-bit_xor r x (y ∷ xs) =
    ap (λ t. xor_all t xs) (bit_xor_right_comm r x y) ∙ xor_all-bit_xor (bit_xor r y) x xs

xor_pairs_lem :
    (r : ℕ) (ps : List (ℕ × ℕ)) → xor_pairs r ps ≡ xor_all (xor_all r (firsts ps)) (seconds ps)
xor_pairs_lem r [] = refl
xor_pairs_lem r ((x, y) ∷ ps) =
    xor_pairs_lem (bit_xor (bit_xor r x) y) ps
    ∙ ap (λ t. xor_all t (seconds ps)) (xor_all-bit_xor (bit_xor r x) y (firsts ps))

-- The entries of the table that belong to the bytes of the input, two by two.
abbrev looked_up : (bytes : List (ℕ × ℕ)) → List (ℕ × ℕ)
looked_up [] = []
looked_up ((x, y) ∷ ps) = (cached table 0 x, cached table 1 y) ∷ looked_up ps

abbrev flat_pairs : List (ℕ × ℕ) → List ℕ
flat_pairs [] = []
flat_pairs ((x, y) ∷ ps) = x ∷ y ∷ flat_pairs ps

abbrev Bytes : List (ℕ × ℕ) → Type 0
Bytes [] = Unit {0}
Bytes ((x, y) ∷ ps) = (x < 256) × (y < 256) × Bytes ps

-- The key's bytes from place `i` on are the two seeds by turns, for `n` pairs.
abbrev Seeded : (i : ℕ) (ps : List (ℕ × ℕ)) → Type 0
Seeded i [] = Unit {0}
Seeded i (p ∷ ps) =
    (get_or rss_key (i + 4) 0 ≡ 0x6d)
    × (get_or rss_key (suc i + 4) 0 ≡ 0x5a)
    × Seeded (suc (suc i)) ps

hash_bytes-looked_up :
    (i r : ℕ) (ps : List (ℕ × ℕ))
    → Bytes ps
    → Seeded i ps
    → hash_bytes rss_key i (flat_pairs ps) r 0x6d5a6d5a ≡ xor_pairs r (looked_up ps)
unfolding hash_bytes
hash_bytes-looked_up i r [] b s = refl
hash_bytes-looked_up i r ((x, y) ∷ ps) b s =
    even_byte i x (y ∷ flat_pairs ps) r b.0 s.0
    ∙ odd_byte (suc i) y (flat_pairs ps) (bit_xor r (cached table 0 x)) b.1 s.1
    ∙ hash_bytes-looked_up (suc (suc i)) _ ps b.2 s.2

abbrev input_pairs : (src_addr dst_addr src_port dst_port : ℕ) → List (ℕ × ℕ)
input_pairs src_addr dst_addr src_port dst_port =
    (byte 0 src_addr, byte 1 src_addr)
    ∷ (byte 2 src_addr, byte 3 src_addr)
    ∷ (byte 0 dst_addr, byte 1 dst_addr)
    ∷ (byte 2 dst_addr, byte 3 dst_addr)
    ∷ (byte 0 src_port, byte 1 src_port)
    ∷ (byte 0 dst_port, byte 1 dst_port)
    ∷ []

-- With the adapter's key, the hash that `compute_toeplitz_hash` computes bit by bit is the one that
-- `toeplitz_rawhash_addrport` looks up in the table of `toeplitz_init`, for all addresses and ports.
pub compute_toeplitz_hash-toeplitz_rawhash_addrport :
    (faddr laddr fport lport : ℕ)
    → compute_toeplitz_hash (toeplitz_get_key toeplitz_keyseeds 40) faddr laddr fport lport
      ≡ toeplitz_rawhash_addrport (toeplitz_init toeplitz_keyseeds) faddr laddr fport lport
unfolding compute_toeplitz_hash toeplitz_rawhash_addrport first_part toeplitz_get_key
compute_toeplitz_hash-toeplitz_rawhash_addrport faddr laddr fport lport =
    let ps : List (ℕ × ℕ) = input_pairs faddr laddr fport lport in
    hash_bytes-looked_up 0 0 ps
      (
        byte-lt 0 faddr,
        byte-lt 1 faddr,
        (
          byte-lt 2 faddr,
          byte-lt 3 faddr,
          (
            byte-lt 0 laddr,
            byte-lt 1 laddr,
            (
              byte-lt 2 laddr,
              byte-lt 3 laddr,
              (byte-lt 0 fport, byte-lt 1 fport, (byte-lt 0 lport, byte-lt 1 lport, tt)),
            ),
          ),
        ),
      )
      (refl, refl, (refl, refl, (refl, refl, (refl, refl, (refl, refl, (refl, refl, tt))))))
    ∙ xor_pairs_lem 0 (looked_up ps)
    ∙ rw zero-bit_xor refl

-- Two terms of a sum past two others.
swap_pairs :
    (r a b c d : ℕ)
    → bit_xor (bit_xor (bit_xor (bit_xor r a) b) c) d
      ≡ bit_xor (bit_xor (bit_xor (bit_xor r c) d) a) b
swap_pairs r a b c d =
    xor_all-bit_xor (bit_xor r a) b (c ∷ d ∷ [])
    ∙ ap (λ t. bit_xor t b) (xor_all-bit_xor r a (c ∷ d ∷ []))

swap_first :
    (a b c d : ℕ) → bit_xor (bit_xor (bit_xor a b) c) d ≡ bit_xor (bit_xor (bit_xor c d) a) b
swap_first a b c d =
    ap (λ t. bit_xor (bit_xor (bit_xor t b) c) d) (sym (zero-bit_xor a))
    ∙ swap_pairs 0 a b c d
    ∙ ap (λ t. bit_xor (bit_xor (bit_xor t d) a) b) (zero-bit_xor c)

-- The hash from the table is the same for both ends, whatever the table.
toeplitz_rawhash_addrport_swap :
    (cache : List (List ℕ)) (faddr laddr fport lport : ℕ)
    → toeplitz_rawhash_addrport cache faddr laddr fport lport
      ≡ toeplitz_rawhash_addrport cache laddr faddr lport fport
unfolding toeplitz_rawhash_addrport
toeplitz_rawhash_addrport_swap cache faddr laddr fport lport =
    let e : ℕ → ℕ → ℕ = λ n x. cached cache 0 (byte n x) in
    let o : ℕ → ℕ → ℕ = λ n x. cached cache 1 (byte n x) in
    let addrs : ℕ = bit_xor (bit_xor (bit_xor (e 0 laddr) (e 2 laddr)) (e 0 faddr)) (e 2 faddr) in
    let evens : ℕ = bit_xor (bit_xor addrs (e 0 lport)) (e 0 fport) in
    rw
      (
        swap_first (e 0 faddr) (e 2 faddr) (e 0 laddr) (e 2 laddr),
        bit_xor_right_comm addrs (e 0 fport) (e 0 lport),
        swap_pairs evens (o 1 faddr) (o 3 faddr) (o 1 laddr) (o 3 laddr),
      )
      (bit_xor_right_comm _ (o 1 fport) (o 1 lport))

-- With the adapter's key, both ends of a connection have the same hash, for all addresses and ports.
pub compute_toeplitz_hash_swap :
    (src_addr dst_addr src_port dst_port : ℕ)
    → let key = toeplitz_get_key toeplitz_keyseeds 40 in
      compute_toeplitz_hash key src_addr dst_addr src_port dst_port
      ≡ compute_toeplitz_hash key dst_addr src_addr dst_port src_port
compute_toeplitz_hash_swap src_addr dst_addr src_port dst_port =
    compute_toeplitz_hash-toeplitz_rawhash_addrport src_addr dst_addr src_port dst_port
    ∙ toeplitz_rawhash_addrport_swap table src_addr dst_addr src_port dst_port
    ∙ sym (compute_toeplitz_hash-toeplitz_rawhash_addrport dst_addr src_addr dst_port src_port)
