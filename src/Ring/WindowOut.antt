-- ===== src/Ring/WindowOut.antt =====
-- DEQUEUE_PTRS of inc/kns/ring.h: which objects of the ring are in the caller's table afterwards.
use native.Mathlib.Nat.{mod-add-mod, mod-lt}
use kns.Common.{ℕ, ◌-◌, ◌%◌, ◌^◌, ◌≤◌, ◌<◌, ◌≡◌, sym, ap, ◌∙◌, List, arith}
use kns.Common.Lists.{length, take, get_or}
use kns.Ring.Copy.{dequeue_ptrs}
use kns.Ring.CopyOut
use kns.Ring.Window.{window, window-eq, window-take}
use kns.Ring.Valid.{slot_of}

module _ (k : ℕ) (ring : List ℕ) (c : ℕ) (obj_table : List ℕ) (n : ℕ) (small : k ≤ 31)
    (room : n ≤ length obj_table) (fits : n ≤ 2 ^ k) where
  -- The first `n` entries of the table, and the others.
  pub record Copied (out : List ℕ) : Type 0 where
    pub first : window ring (2 ^ k) c n ≡ take n out
    pub others : (t : ℕ) → n ≤ t → get_or out t 0 ≡ get_or obj_table t 0
    pub same_length : length out ≡ length obj_table

  pub dequeue_ptrs-Copied :
      (size mask : ℕ)
      → size ≡ 2 ^ k
      → mask ≡ 2 ^ k - 1
      → 1 ≤ 2 ^ k
      → Copied (dequeue_ptrs size mask ring c obj_table n)
  dequeue_ptrs-Copied size mask es em pos =
      let idx : ℕ = c % 2 ^ k in
      let start : idx < 2 ^ k = mod-lt c pos in
      let out : List ℕ = CopyOut.around (2 ^ k) ring idx obj_table n in
      let size_out : length out ≡ length obj_table =
        CopyOut.length-around (2 ^ k) ring idx obj_table n in
      rw (es, em, CopyOut.dequeue_ptrs-around k ring c obj_table n small fits)
        (record {
          first = window-take ring (2 ^ k) c n out (omega arith) λ t h. sym (
              rw mod-add-mod at
                (CopyOut.around-new (2 ^ k) ring idx obj_table n start fits room t h));
          others = λ t h. CopyOut.around-old (2 ^ k) ring idx obj_table n t start h;
          same_length = size_out;
        })

-- A window from a wrapped index is the window from the index that did not wrap.
pub window-wrap :
    (k : ℕ) (ring : List ℕ) (p n : ℕ)
    → k ≤ 31
    → window ring (2 ^ k) (p % 2 ^ 32) n ≡ window ring (2 ^ k) p n
window-wrap k ring p n small = window-eq ring ring (2 ^ k) (p % 2 ^ 32) p n λ t h.
    ap (λ i. get_or ring i 0) (sym (mod-add-mod (p % 2 ^ 32) (2 ^ k) t) ∙ slot_of k p t small)
