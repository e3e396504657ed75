-- ===== src/Toeplitz/Tests.antt =====
-- Tests of the Toeplitz hash, and its theorems at an HTTP connection of 192.168.1.2.
use kns.Common.{ℕ, ◌≡◌, refl, List}
use kns.Toeplitz.{
  compute_toeplitz_hash, first_part, hash_byte, hash_bytes, next_part, toeplitz_get_key,
  toeplitz_init, toeplitz_keyseeds, toeplitz_rawhash_addrport,
}
use kns.Toeplitz.Laws.{compute_toeplitz_hash-toeplitz_rawhash_addrport}

-- Addresses and ports as they stand in a header, read by a little-endian machine.
abbrev host : ℕ
host = 0x0201a8c0

abbrev server : ℕ
server = 0x6401a8c0

abbrev client_port : ℕ
client_port = 0x3412

abbrev http : ℕ
http = 0x5000

abbrev key : List ℕ
key = toeplitz_get_key toeplitz_keyseeds 40

hash_test : compute_toeplitz_hash key host server client_port http ≡ 0xa71ea71e
unfolding compute_toeplitz_hash first_part hash_bytes hash_byte next_part toeplitz_get_key
hash_test = refl

compute_toeplitz_hash-toeplitz_rawhash_addrport_example :
    compute_toeplitz_hash key host server client_port http
    ≡ toeplitz_rawhash_addrport (toeplitz_init toeplitz_keyseeds) host server client_port http
compute_toeplitz_hash-toeplitz_rawhash_addrport_example =
    compute_toeplitz_hash-toeplitz_rawhash_addrport host server client_port http
