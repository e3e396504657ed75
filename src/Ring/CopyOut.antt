-- ===== src/Ring/CopyOut.antt =====
-- DEQUEUE_PTRS of inc/kns/ring.h: what it leaves in the caller's table.
use kns.Common.{ℕ, ◌+◌, ◌-◌, ◌%◌, ◌^◌, ◌≤◌, ◌<◌, ◌≡◌, inl, inr, List, arith}
use kns.Common.Tests.{ltb, if◌then◌else◌}
use kns.Common.Bits.{bit_and-mask}
use kns.Common.Lists.{length, get_or}
use kns.Ring.Copy.{singles, dequeue_ptrs}
use kns.Ring.CopyLaws.{
  length-singles, singles-in, singles-out, unrolled-singles, mod_cases, no_wrap,
}

-- The two branches of DEQUEUE_PTRS over the single copy, from index `idx`.
module _ (size : ℕ) (ring : List ℕ) (idx : ℕ) (obj_table : List ℕ) (n : ℕ) where
  pub around : List ℕ
  around =
      if ltb (idx + n) size
      then singles n obj_table 0 ring idx
      else singles (n - (size - idx)) (singles (size - idx) obj_table 0 ring idx) (size - idx) ring
          0

  pub length-around : length around ≡ length obj_table
  unfolding around
  length-around = ground (
    arith,
    length-singles n obj_table 0 ring idx,
    length-singles (size - idx) obj_table 0 ring idx,
    length-singles (n - (size - idx)) (singles (size - idx) obj_table 0 ring idx) (size - idx) ring
        0,
  )

  module _ (start : idx < size) (fits : n ≤ size) (room : n ≤ length obj_table) where
    pub around-new : (t : ℕ) → t < n → get_or around t 0 ≡ get_or ring ((idx + t) % size) 0
    unfolding around
    around-new t h =
        let m : ℕ = size - idx in
        let first : List ℕ = singles m obj_table 0 ring idx in
        elim (mod_cases idx t size start (omega arith)) [
          | inl (p, e) ↦ rw e (
              ground (
                arith,
                singles-in n obj_table 0 ring idx t,
                singles-out (n - m) first m ring 0 t,
                singles-in m obj_table 0 ring idx t,
              ))
          | inr (p, e) ↦ rw e (
              ground (
                arith,
                length-singles m obj_table 0 ring idx,
                singles-in (n - m) first m ring 0 (t - m),
              ))
        ]

  pub around-old : (t : ℕ) → idx < size → n ≤ t → get_or around t 0 ≡ get_or obj_table t 0
  unfolding around
  around-old t start h =
      let m : ℕ = size - idx in
      let first : List ℕ = singles m obj_table 0 ring idx in
      ground (
        arith,
        singles-out n obj_table 0 ring idx t,
        singles-out (n - m) first m ring 0 t,
        singles-out m obj_table 0 ring idx t,
      )

pub dequeue_ptrs-around :
    (k : ℕ) (ring : List ℕ) (cons_head : ℕ) (obj_table : List ℕ) (n : ℕ)
    → k ≤ 31
    → n ≤ 2 ^ k
    → dequeue_ptrs (2 ^ k) (2 ^ k - 1) ring cons_head obj_table n
      ≡ around (2 ^ k) ring (cons_head % 2 ^ k) obj_table n
unfolding dequeue_ptrs around
dequeue_ptrs-around k ring cons_head obj_table n small fits = rw (
  bit_and-mask k cons_head,
  no_wrap k cons_head n small fits,
  unrolled-singles n obj_table 0 ring (cons_head % 2 ^ k),
)
