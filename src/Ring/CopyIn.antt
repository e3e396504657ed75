-- ===== src/Ring/CopyIn.antt =====
-- ENQUEUE_PTRS of inc/kns/ring.h: which slots of the ring hold which pointers afterwards.
use kns.Common.{ℕ, ◌+◌, ◌-◌, ◌%◌, ◌^◌, ◌≤◌, ◌<◌, ◌≡◌, inl, inr, List, arith}
use kns.Common.Tests.{ltb, if◌then◌else◌}
use kns.Common.Bits.{bit_and-mask}
use kns.Common.Lists.{length, get_or}
use kns.Ring.Copy.{singles, enqueue_ptrs}
use kns.Ring.CopyLaws.{
  length-singles, singles-in, singles-out, unrolled-singles, mod_cases, no_wrap,
}

-- The two branches of ENQUEUE_PTRS over the single copy, from index `idx`.
module _ (size : ℕ) (ring : List ℕ) (idx : ℕ) (obj_table : List ℕ) (n : ℕ) where
  unfoldable pub around : List ℕ
  around =
      if ltb (idx + n) size
      then singles n ring idx obj_table 0
      else singles (n - (size - idx)) (singles (size - idx) ring idx obj_table 0) 0 obj_table
          (size - idx)

  pub length-around : length around ≡ length ring
  unfolding around
  length-around = ground (
    arith,
    length-singles n ring idx obj_table 0,
    length-singles (size - idx) ring idx obj_table 0,
    length-singles (n - (size - idx)) (singles (size - idx) ring idx obj_table 0) 0 obj_table
        (size - idx),
  )

  module _ (holds : length ring ≡ size) (start : idx < size) (fits : n ≤ size) where
    pub around-new : (t : ℕ) → t < n → get_or around ((idx + t) % size) 0 ≡ get_or obj_table t 0
    unfolding around
    around-new t h =
        let m : ℕ = size - idx in
        let first : List ℕ = singles m ring idx obj_table 0 in
        elim (mod_cases idx t size start (omega arith)) [
          | inl (p, e) ↦ rw e (
              ground (
                arith,
                singles-in n ring idx obj_table 0 t,
                singles-out (n - m) first 0 obj_table m (idx + t),
                singles-in m ring idx obj_table 0 t,
              ))
          | inr (p, e) ↦ rw e (
              ground (
                arith,
                length-singles m ring idx obj_table 0,
                singles-in (n - m) first 0 obj_table m (idx + t - size),
              ))
        ]

    pub around-old :
        (t : ℕ)
        → n ≤ t
        → t < size
        → get_or around ((idx + t) % size) 0 ≡ get_or ring ((idx + t) % size) 0
    unfolding around
    around-old t h ht =
        let m : ℕ = size - idx in
        let first : List ℕ = singles m ring idx obj_table 0 in
        elim (mod_cases idx t size start ht) [
          | inl (p, e) ↦ rw e (ground (arith, singles-out n ring idx obj_table 0 (idx + t)))
          | inr (p, e) ↦ rw e (
              ground (
                arith,
                singles-out n ring idx obj_table 0 (idx + t - size),
                singles-out (n - m) first 0 obj_table m (idx + t - size),
                singles-out m ring idx obj_table 0 (idx + t - size),
              ))
        ]

pub enqueue_ptrs-around :
    (k : ℕ) (ring : List ℕ) (prod_head : ℕ) (obj_table : List ℕ) (n : ℕ)
    → k ≤ 31
    → n ≤ 2 ^ k
    → enqueue_ptrs (2 ^ k) (2 ^ k - 1) ring prod_head obj_table n
      ≡ around (2 ^ k) ring (prod_head % 2 ^ k) obj_table n
unfolding enqueue_ptrs around
enqueue_ptrs-around k ring prod_head obj_table n small fits = rw (
  bit_and-mask k prod_head,
  no_wrap k prod_head n small fits,
  unrolled-singles n ring (prod_head % 2 ^ k) obj_table 0,
)
