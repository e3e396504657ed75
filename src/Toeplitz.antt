-- ===== src/Toeplitz.antt =====
-- The Toeplitz hash: core/toeplitz.c and inc/kns/toeplitz.h, which look the hash of a connection up in
-- a table for each byte, and compute_toeplitz_hash of net/tcp_api.c, which computes it bit by bit.
pub mod Keys
pub mod Table
pub mod Laws
mod Tests
use Prim.Native.Nat.{bit_and, bit_or, bit_xor}
use kns.Common.{ℕ, zero, suc, ◌+◌, ◌-◌, ◌*◌, ◌/◌, ◌%◌, ◌^◌, List, [], ◌∷◌, map}
use kns.Common.Tests.{if◌then◌else◌, ◌==◌}
use kns.Common.Lists.{get_or, tabulate}

-- TOEPLITZ_KEYSEED_CNT and NBBY.
abbrev pub keyseed_cnt : ℕ
keyseed_cnt = 2

abbrev pub nbby : ℕ
nbby = 8

-- toeplitz_keyseeds, as the file initialises it.
abbrev pub toeplitz_keyseeds : List ℕ
toeplitz_keyseeds = 0x6d ∷ 0x5a ∷ []

-- The numbers 0, …, 7 of the loops over the bits of a byte.
abbrev pub byte_bits : List ℕ
byte_bits = 0 ∷ 1 ∷ 2 ∷ 3 ∷ 4 ∷ 5 ∷ 6 ∷ 7 ∷ []

unfoldable pub toeplitz_get_key : List ℕ → ℕ → List ℕ
toeplitz_get_key seeds keylen = tabulate keylen (λ i. get_or seeds (i % keyseed_cnt) 0 % 2 ^ 8)

-- The loop over `j` that sets the bits of key[b]: `left` is 32 - j.
unfoldable pub key_loop : List ℕ → (i b left key : ℕ) → ℕ
key_loop key_str i b zero key = key
key_loop key_str i b (suc left) key =
    let j : ℕ = 31 - left in
    let bit : ℕ = i * nbby + b + j in
    let k : ℕ = get_or key_str (bit / nbby) 0 in
    let shift : ℕ = nbby - bit % nbby - 1 in
    key_loop key_str i b left
      (if bit_and k (2 ^ shift) == 0 then key else bit_or key (2 ^ (31 - j)))

-- key[0], …, key[7] of byte `i`.
unfoldable pub byte_keys : List ℕ → ℕ → List ℕ
byte_keys key_str i = map (λ b. key_loop key_str i b 32 0) byte_bits

-- The loop over `b` that gives one entry of the cache.
unfoldable pub entry_loop : (val : ℕ) (keys : List ℕ) (bs : List ℕ) (res : ℕ) → ℕ
entry_loop val keys [] res = res
entry_loop val keys (b ∷ bs) res =
    let shift : ℕ = nbby - b - 1 in
    entry_loop val keys bs
      (if bit_and val (2 ^ shift) == 0 then res else bit_xor res (get_or keys b 0))

unfoldable pub toeplitz_cache_create : (cache_len : ℕ) → List ℕ → List (List ℕ)
toeplitz_cache_create cache_len key_str = tabulate cache_len (λ i.
    let keys : List ℕ = byte_keys key_str i in
    tabulate 256 (λ val. entry_loop val keys byte_bits 0))

-- toeplitz_init, from the seeds to toeplitz_cache.
unfoldable pub toeplitz_init : List ℕ → List (List ℕ)
toeplitz_init seeds =
    let seeds' : List ℕ = map (λ s. bit_and s 0xff) seeds in
    toeplitz_cache_create keyseed_cnt (toeplitz_get_key seeds' (keyseed_cnt + 4))

-- toeplitz_cache[i][v].
abbrev pub cached : List (List ℕ) → (i v : ℕ) → ℕ
cached cache i v = get_or (get_or cache i []) v 0

-- `(x >> 8 * n) & 0xff`.
abbrev pub byte : (n x : ℕ) → ℕ
byte n x = bit_and (x / 2 ^ (8 * n)) 0xff

unfoldable pub toeplitz_rawhash_addrport : List (List ℕ) → (faddr laddr fport lport : ℕ) → ℕ
toeplitz_rawhash_addrport cache faddr laddr fport lport =
    let res : ℕ = cached cache 0 (byte 0 faddr) in
    let res : ℕ = bit_xor res (cached cache 0 (byte 2 faddr)) in
    let res : ℕ = bit_xor res (cached cache 0 (byte 0 laddr)) in
    let res : ℕ = bit_xor res (cached cache 0 (byte 2 laddr)) in
    let res : ℕ = bit_xor res (cached cache 0 (byte 0 fport)) in
    let res : ℕ = bit_xor res (cached cache 0 (byte 0 lport)) in
    let res : ℕ = bit_xor res (cached cache 1 (byte 1 faddr)) in
    let res : ℕ = bit_xor res (cached cache 1 (byte 3 faddr)) in
    let res : ℕ = bit_xor res (cached cache 1 (byte 1 laddr)) in
    let res : ℕ = bit_xor res (cached cache 1 (byte 3 laddr)) in
    let res : ℕ = bit_xor res (cached cache 1 (byte 1 fport)) in
    bit_xor res (cached cache 1 (byte 1 lport))

-- The values that `j` takes in `for (j = 128; j; j >>= 1)`.
abbrev pub masks : List ℕ
masks = 128 ∷ 64 ∷ 32 ∷ 16 ∷ 8 ∷ 4 ∷ 2 ∷ 1 ∷ []

-- key_part, shifted left with the next bit of the key, which is in the byte `next`.
unfoldable pub next_part : (next j key_part : ℕ) → ℕ
next_part next j key_part =
    let shifted : ℕ = 2 * key_part % 2 ^ 32 in
    if bit_and next j == 0 then shifted else bit_or shifted 1

-- The loop over `j` for one byte of the input: `result` and `key_part`.
unfoldable pub hash_byte : (input next : ℕ) (js : List ℕ) (result key_part : ℕ) → ℕ × ℕ
hash_byte input next [] result key_part = (result, key_part)
hash_byte input next (j ∷ js) result key_part =
    hash_byte input next js (if bit_and input j == 0 then result else bit_xor result key_part)
      (next_part next j key_part)

-- The loop over `i`: `i` goes with the bytes of the input.
unfoldable pub hash_bytes : List ℕ → (i : ℕ) (input : List ℕ) (result key_part : ℕ) → ℕ
hash_bytes key i [] result key_part = result
hash_bytes key i (x ∷ input) result key_part =
    let (result', key_part') = hash_byte x (get_or key (i + 4) 0) masks result key_part in
    hash_bytes key (suc i) input result' key_part'

-- The bytes of the input in memory, on a little-endian machine.
abbrev pub input_bytes : (src_addr dst_addr src_port dst_port : ℕ) → List ℕ
input_bytes src_addr dst_addr src_port dst_port =
    byte 0 src_addr
    ∷ byte 1 src_addr
    ∷ byte 2 src_addr
    ∷ byte 3 src_addr
    ∷ byte 0 dst_addr
    ∷ byte 1 dst_addr
    ∷ byte 2 dst_addr
    ∷ byte 3 dst_addr
    ∷ byte 0 src_port
    ∷ byte 1 src_port
    ∷ byte 0 dst_port
    ∷ byte 1 dst_port
    ∷ []

-- htonl of the key's first word is its first four bytes, the first as the highest.
unfoldable pub first_part : List ℕ → ℕ
first_part key =
    get_or key 0 0 * 2 ^ 24 + get_or key 1 0 * 2 ^ 16 + get_or key 2 0 * 2 ^ 8 + get_or key 3 0

unfoldable pub compute_toeplitz_hash : List ℕ → (src_addr dst_addr src_port dst_port : ℕ) → ℕ
compute_toeplitz_hash key src_addr dst_addr src_port dst_port =
    hash_bytes key 0 (input_bytes src_addr dst_addr src_port dst_port) 0 (first_part key)
