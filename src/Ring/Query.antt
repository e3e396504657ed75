-- ===== src/Ring/Query.antt =====
-- The four questions that inc/kns/ring.h answers about a ring, against the queue that it holds.
use Prim.Native.Nat.{bit_and}
use kns.Common.{ℕ, ◌+◌, ◌-◌, ◌*◌, suc, ◌%◌, ◌^◌, ◌≤◌, ◌<◌, ◌≡◌, ◌∙◌, ap, sym, true, arith, ◌↔◌}
use kns.Common.Bits.{bit_and-mask, pow_add}
use kns.Common.Lists.{length}
use kns.Ring.{Ring, sub32, ring_full, ring_empty, ring_count, ring_free_count}
use kns.Ring.Valid.{IsValid, contents, size_bounds, length-contents}
use native.Mathlib.Nat.{mod-eq_of_lt, one-le-pow, add-mul-mod_self_left}

module _ {k : ℕ} {r : Ring} (v : IsValid k r) where
  -- `x & mask` for a difference below the size
  masked : (x : ℕ) → x < 2 ^ k → bit_and x r.prod.mask ≡ x
  masked x small = ap (bit_and x) v.prod_mask ∙ bit_and-mask k x ∙ mod-eq_of_lt small

  -- `cons_tail - prod_tail - 1`, which wraps when the ring is empty
  room_left :
      bit_and (sub32 (sub32 r.cons.tail r.prod.tail) 1) r.prod.mask
      ≡ 2 ^ k - 1 - length (contents r)
  room_left =
      let p : ℕ = 2 ^ k in
      let q : ℕ = 2 ^ (32 - k) in
      let held : ℕ = length (contents r) in
      let bits : k + (32 - k) ≡ 32 = omega (arith, v) in
      let all : p * q ≡ 2 ^ 32 = sym (rw bits at (pow_add k (32 - k))) in
      let some_q : 1 ≤ q = one-le-pow (32 - k) 2 (omega arith) in
      let last : q ≡ suc (q - 1) = omega arith in
      let turns : p * q ≡ p * (q - 1) + p = ap (λ (t : ℕ). p * t) last ∙ omega arith in
      let below : held < p = omega (arith, length-contents v, v) in
      let x : sub32 (sub32 r.cons.tail r.prod.tail) 1 ≡ (p - 1 - held) + p * (q - 1) =
        omega (arith, length-contents v, size_bounds v, v) in
      ap (bit_and (sub32 (sub32 r.cons.tail r.prod.tail) 1)) v.prod_mask
      ∙ bit_and-mask k _
      ∙ ap (λ t. t % p) x
      ∙ add-mul-mod_self_left (p - 1 - held) p (q - 1)
      ∙ mod-eq_of_lt (omega arith)

  -- On a valid ring `ring_count` is the number of objects held, `ring_free_count` the number that
  -- still fit under the bound of `2 ^ k - 1`, `ring_empty` answers true exactly when no object is
  -- held, and `ring_full` exactly when no further one fits.
  pub ring_count_lem :
      (ring_count r ≡ length (contents r))
      × (ring_free_count r ≡ 2 ^ k - 1 - length (contents r))
      × ((ring_empty r ≡ true) ↔ (length (contents r) ≡ 0))
      × ((ring_full r ≡ true) ↔ (length (contents r) ≡ 2 ^ k - 1))
  unfolding ring_count ring_free_count ring_empty ring_full
  ring_count_lem =
      let held : sub32 r.prod.tail r.cons.tail ≡ length (contents r) =
        omega (arith, length-contents v, v) in
      let below : length (contents r) < 2 ^ k = omega (arith, length-contents v, v) in
      (
        masked (sub32 r.prod.tail r.cons.tail) (omega arith) ∙ held,
        room_left,
        (ground (arith, v, held), ground (arith, v, held)),
        (ground (arith, room_left), ground (arith, room_left)),
      )
