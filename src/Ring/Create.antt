-- ===== src/Ring/Create.antt =====
-- Creating a ring (core/ring.c): what is accepted, and the ring that comes back.
use Prim.Native.Nat.{bit_and}
use native.Mathlib.Nat.{one-le-pow, pow-le-pow_right, mod_self}
use kns.Common.{
  ℕ, ◌+◌, ◌-◌, ◌*◌, ◌/◌, ◌%◌, ◌^◌, ◌≤◌, ◌<◌, ◌≡◌, refl, Bool, true, false, not, ◌&&◌, [], none,
  some, arith,
}
use kns.Common.Tests.{ltb, ◌==◌, le→ltb}
use kns.Common.Bits.{bit_and-mask_left}
use kns.Common.Bug.{done, bug}
use kns.Common.Lists.{length-replicate, replicate}
use kns.Ring.{Ring, ret, sub32, powerof2, ring_sz_mask, ring_get_memsize, ring_init, ring_create}
use kns.Ring.Valid.{IsValid, contents}

powerof2-pow : (k : ℕ) → k ≤ 31 → powerof2 (2 ^ k) ≡ true
unfolding powerof2
powerof2-pow k small =
    let bound : 2 ^ k ≤ 2 ^ 31 = pow-le-pow_right {n = 2} (omega arith) small in
    let low : 1 ≤ 2 ^ k = one-le-pow k 2 (omega arith) in
    let e : sub32 (2 ^ k) 1 ≡ 2 ^ k - 1 = omega arith in
    rw (e, bit_and-mask_left k (2 ^ k), mod_self)

-- A power of two up to 2 ^ 27 is accepted, and the number of bytes answered holds the header and the
-- slots, is a whole number of cache lines and exceeds the need by less than one.
pub ring_get_memsize-bounds :
    (k : ℕ)
    → k ≤ 27
    → (n : ℕ) × (ring_get_memsize (2 ^ k) ≡ ret n)
      × (192 + 2 ^ k * 8 ≤ n)
      × (n < 192 + 2 ^ k * 8 + 64)
      × (n % 64 ≡ 0)
unfolding ring_get_memsize
ring_get_memsize-bounds k small =
    let bound : 2 ^ k ≤ 2 ^ 27 = pow-le-pow_right {n = 2} (omega arith) small in
    (
      (192 + 2 ^ k * 8 + 64 - 1) / 64 * 64,
      rw (powerof2-pow k (omega arith), le→ltb ring_sz_mask (2 ^ k) (omega arith)),
      omega arith,
      omega arith,
      omega arith,
    )

abbrev pub new_ring : (count flags : ℕ) → Ring
new_ring count flags = record {
  flags = flags;
  prod = record {
    watermark = count;
    sp_enqueue = not (bit_and flags 1 == 0);
    size = count;
    mask = sub32 count 1;
    head = 0;
    tail = 0;
  };
  cons = record {
    sc_dequeue = not (bit_and flags 2 == 0);
    size = count;
    mask = sub32 count 1;
    head = 0;
    tail = 0;
  };
  ring = replicate count 0;
}

pub new_ring-IsValid : (k flags : ℕ) → k ≤ 27 → IsValid k (new_ring (2 ^ k) flags)
new_ring-IsValid k flags small =
    let bound : 2 ^ k ≤ 2 ^ 27 = pow-le-pow_right {n = 2} (omega arith) small in
    let low : 1 ≤ 2 ^ k = one-le-pow k 2 (omega arith) in
    record {
      small = omega arith;
      prod_size = refl;
      prod_mask = omega arith;
      cons_size = refl;
      slots = length-replicate (2 ^ k) 0;
      prod_word = omega arith;
      prod_rests = refl;
      cons_word = omega arith;
      cons_rests = refl;
      bounded = omega arith;
    }

-- For every power of two up to 2 ^ 27, if the memory is there and the size checks of `ring_init` do
-- not stop it, creation returns a valid empty ring whose water mark is its size, so that no
-- enqueue exceeds it.
pub ring_create-IsValid :
    (k flags : ℕ)
    → k ≤ 27
    → (r : Ring) × (ring_create false true (2 ^ k) flags ≡ done (some r))
      × IsValid k r
      × (contents r ≡ [])
      × (r.prod.watermark ≡ 2 ^ k)
unfolding ring_create ring_init
ring_create-IsValid k flags small =
    let (n, e, _, _, _) = ring_get_memsize-bounds k small in
    (new_ring (2 ^ k) flags, rw (e, ring_create), new_ring-IsValid k flags small, refl, refl)

-- The size checks of `ring_init` test one bit of a size where a multiple of the cache line is
-- meant; a header of three cache lines fails them, so with BUG_ON on no ring is ever created.
pub ring_create-bug : (k flags : ℕ) → k ≤ 27 → ring_create true true (2 ^ k) flags ≡ bug
unfolding ring_create ring_init
ring_create-bug k flags small =
    let (n, e, _, _, _) = ring_get_memsize-bounds k small in rw (e, ring_create)

-- Creation answers NULL for a size that is no power of two or is too large, and when there is no
-- memory, whether or not BUG_ON stops.
pub ring_create-none :
    (traps memory : Bool) (count flags : ℕ)
    → (powerof2 count && not (ltb ring_sz_mask count) && memory) ≡ false
    → (ring_create traps memory count flags ≡ done none)
unfolding ring_create ring_get_memsize
ring_create-none traps memory count flags h = ground arith
