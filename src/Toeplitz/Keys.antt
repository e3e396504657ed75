-- ===== src/Toeplitz/Keys.antt =====
-- The keys of the Toeplitz hash: what the rolling key of net/tcp_api.c goes through is what
-- core/toeplitz.c puts in its table for even and for odd bytes.
use kns.Common.{ℕ, ◌≡◌, refl, List, [], ◌∷◌}
use kns.Toeplitz.{toeplitz_get_key, toeplitz_keyseeds, byte_keys, key_loop, masks, next_part}

-- The adapter's key: 40 bytes, by eth_dev_alloc.
abbrev pub rss_key : List ℕ
unfolding toeplitz_get_key
rss_key = toeplitz_get_key toeplitz_keyseeds 40

-- The rolling key before each bit of a byte.
abbrev pub rolled : (next : ℕ) (js : List ℕ) (key_part : ℕ) → List ℕ
rolled next [] key_part = []
rolled next (j ∷ js) key_part = key_part ∷ rolled next js (next_part next j key_part)

-- The rolling key after them.
abbrev pub roll : (next : ℕ) (js : List ℕ) (key_part : ℕ) → ℕ
roll next [] key_part = key_part
roll next (j ∷ js) key_part = roll next js (next_part next j key_part)

-- The seeds, as the table and the hash see them.
abbrev pub even_keys : List ℕ
unfolding toeplitz_get_key byte_keys key_loop
even_keys = byte_keys (toeplitz_get_key toeplitz_keyseeds 6) 0

abbrev pub odd_keys : List ℕ
unfolding toeplitz_get_key byte_keys key_loop
odd_keys = byte_keys (toeplitz_get_key toeplitz_keyseeds 6) 1

pub even_keys_lem : rolled 0x6d masks 0x6d5a6d5a ≡ even_keys
unfolding next_part toeplitz_get_key byte_keys key_loop
even_keys_lem = refl

pub odd_keys_lem : rolled 0x5a masks 0x5a6d5a6d ≡ odd_keys
unfolding next_part toeplitz_get_key byte_keys key_loop
odd_keys_lem = refl

pub roll_even : roll 0x6d masks 0x6d5a6d5a ≡ 0x5a6d5a6d
unfolding next_part
roll_even = refl

pub roll_odd : roll 0x5a masks 0x5a6d5a6d ≡ 0x6d5a6d5a
unfolding next_part
roll_odd = refl
