-- ===== src/Toeplitz/Table.antt =====
-- The table of core/toeplitz.c, and what it holds for one byte of the input.
use Prim.Native.Nat.{bit_and, bit_xor}
use kns.Common.{
  ℕ, suc, ◌+◌, ◌*◌, ◌/◌, ◌^◌, ◌<◌, ◌≡◌, refl, sym, ap, ap₂, ◌∙◌, inl, inr, List, [], ◌∷◌, arith,
}
use kns.Common.Tests.{if◌then◌else◌, ◌==◌, Bool-cases}
use kns.Common.Bits.{bit_and-mask}
use kns.Common.Xor.{bit_xor-zero, bit_xor_assoc}
use kns.Common.Lists.{get_or, tabulate, get_or-tabulate}
use kns.Toeplitz.{
  byte, byte_bits, byte_keys, cached, entry_loop, hash_byte, key_loop, hash_bytes, masks,
  toeplitz_cache_create, toeplitz_get_key, toeplitz_init, toeplitz_keyseeds,
}
use kns.Toeplitz.Keys.{
  rss_key, rolled, roll, even_keys, odd_keys, even_keys_lem, odd_keys_lem, roll_even, roll_odd,
}

-- The keys of the bits that are set, added to `r` by exclusive or.
abbrev selected : (v : ℕ) (js keys : List ℕ) (r : ℕ) → ℕ
selected v [] keys r = r
selected v (j ∷ js) [] r = r
selected v (j ∷ js) (k ∷ keys) r = selected v js keys (if bit_and v j == 0 then r else bit_xor r k)

selected_from :
    (v : ℕ) (js keys : List ℕ) (r s : ℕ)
    → selected v js keys (bit_xor r s) ≡ bit_xor r (selected v js keys s)
selected_from v [] keys r s = refl
selected_from v (j ∷ js) [] r s = refl
selected_from v (j ∷ js) (k ∷ keys) r s = elim (Bool-cases (bit_and v j == 0)) [
  | inl e ↦ rw e (selected_from v js keys r s)
  | inr e ↦ rw (e, bit_xor_assoc r s k) (selected_from v js keys r (bit_xor s k))
]

selected-zero :
    (v : ℕ) (js keys : List ℕ) (r : ℕ) → selected v js keys r ≡ bit_xor r (selected v js keys 0)
selected-zero v js keys r =
    ap (λ t. selected v js keys t) (sym (bit_xor-zero r)) ∙ selected_from v js keys r 0

-- A byte of the bitwise hash adds the keys that the rolling key goes through.
hash_byte_lem :
    (v next : ℕ) (js : List ℕ) (result key_part : ℕ)
    → hash_byte v next js result key_part
      ≡ (selected v js (rolled next js key_part) result, roll next js key_part)
unfolding hash_byte
hash_byte_lem v next [] result key_part = refl
hash_byte_lem v next (j ∷ js) result key_part = hash_byte_lem v next js _ _

-- An entry of the table is the same sum.
entry_lem :
    (v : ℕ) (k0 k1 k2 k3 k4 k5 k6 k7 : ℕ)
    → let keys : List ℕ = k0 ∷ k1 ∷ k2 ∷ k3 ∷ k4 ∷ k5 ∷ k6 ∷ k7 ∷ [] in
      entry_loop v keys byte_bits 0 ≡ selected v masks keys 0
unfolding entry_loop
entry_lem v k0 k1 k2 k3 k4 k5 k6 k7 = refl

pub byte-lt : (n x : ℕ) → byte n x < 256
byte-lt n x = omega (arith, bit_and-mask 8 (x / 2 ^ (8 * n)))

cached_tabulate :
    (n m i v : ℕ) (f : ℕ → ℕ → ℕ)
    → i < n
    → v < m
    → get_or (get_or (tabulate n (λ i. tabulate m (f i))) i []) v 0 ≡ f i v
cached_tabulate n m i v f h k =
    ap (λ t. get_or t v 0) (get_or-tabulate n i (λ i. tabulate m (f i)) [] h)
    ∙ get_or-tabulate m v (f i) 0 k

cached_lem :
    (n i v : ℕ) (key : List ℕ)
    → i < n
    → v < 256
    → cached (toeplitz_cache_create n key) i v ≡ entry_loop v (byte_keys key i) byte_bits 0
unfolding toeplitz_cache_create
cached_lem n i v key h k =
    cached_tabulate n 256 i v (λ i v. entry_loop v (byte_keys key i) byte_bits 0) h k

abbrev seeded : List ℕ
seeded = toeplitz_get_key toeplitz_keyseeds 6

cache_lem : toeplitz_init toeplitz_keyseeds ≡ toeplitz_cache_create 2 seeded
unfolding toeplitz_init
cache_lem = refl

cached_even :
    (v : ℕ) → v < 256 → cached (toeplitz_init toeplitz_keyseeds) 0 v ≡ selected v masks even_keys 0
unfolding toeplitz_get_key byte_keys key_loop
cached_even v h =
    ap (λ c. cached c 0 v) cache_lem
    ∙ cached_lem 2 0 v seeded (omega arith) h
    ∙ entry_lem v _ _ _ _ _ _ _ _

cached_odd :
    (v : ℕ) → v < 256 → cached (toeplitz_init toeplitz_keyseeds) 1 v ≡ selected v masks odd_keys 0
unfolding toeplitz_get_key byte_keys key_loop
cached_odd v h =
    ap (λ c. cached c 1 v) cache_lem
    ∙ cached_lem 2 1 v seeded (omega arith) h
    ∙ entry_lem v _ _ _ _ _ _ _ _

-- A byte of the bitwise hash, with the next bits of the key taken from the byte `next`.
one_byte :
    (key : List ℕ) (i next x : ℕ) (input : List ℕ) (result key_part : ℕ)
    → get_or key (i + 4) 0 ≡ next
    → hash_bytes key i (x ∷ input) result key_part
      ≡ hash_bytes key
          (suc i)
          input
          (bit_xor result (selected x masks (rolled next masks key_part) 0))
          (roll next masks key_part)
unfolding hash_bytes
one_byte key i next x input result key_part e = rw e (
    ap (λ r. hash_bytes key (suc i) input r.0 r.1) (hash_byte_lem x next masks result key_part)
    ∙ ap (λ r. hash_bytes key (suc i) input r (roll next masks key_part))
        (selected-zero x masks (rolled next masks key_part) result))

-- The table of the adapter's seeds.
abbrev pub table : List (List ℕ)
table = toeplitz_init toeplitz_keyseeds

pub even_byte :
    (i x : ℕ) (input : List ℕ) (result : ℕ)
    → x < 256
    → get_or rss_key (i + 4) 0 ≡ 0x6d
    → hash_bytes rss_key i (x ∷ input) result 0x6d5a6d5a
      ≡ hash_bytes rss_key (suc i) input (bit_xor result (cached table 0 x)) 0x5a6d5a6d
even_byte i x input result h e =
    one_byte rss_key i 0x6d x input result 0x6d5a6d5a e
    ∙ ap₂ (λ r k. hash_bytes rss_key (suc i) input (bit_xor result r) k)
        (ap (λ ks. selected x masks ks 0) even_keys_lem ∙ sym (cached_even x h)) roll_even

pub odd_byte :
    (i x : ℕ) (input : List ℕ) (result : ℕ)
    → x < 256
    → get_or rss_key (i + 4) 0 ≡ 0x5a
    → hash_bytes rss_key i (x ∷ input) result 0x5a6d5a6d
      ≡ hash_bytes rss_key (suc i) input (bit_xor result (cached table 1 x)) 0x6d5a6d5a
odd_byte i x input result h e =
    one_byte rss_key i 0x5a x input result 0x5a6d5a6d e
    ∙ ap₂ (λ r k. hash_bytes rss_key (suc i) input (bit_xor result r) k)
        (ap (λ ks. selected x masks ks 0) odd_keys_lem ∙ sym (cached_odd x h)) roll_odd
