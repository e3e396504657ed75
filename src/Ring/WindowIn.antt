-- ===== src/Ring/WindowIn.antt =====
-- ENQUEUE_PTRS of inc/kns/ring.h: the objects of the ring afterwards, in order.
use native.Mathlib.Nat.{mod-lt, add-mod_right}
use kns.Common.{ℕ, ◌+◌, ◌-◌, ◌%◌, ◌^◌, ◌≤◌, ◌<◌, ◌≡◌, ap, ap₂, ◌∙◌, List, ◌++◌, arith}
use kns.Common.Lists.{length, take}
use kns.Ring.Copy.{enqueue_ptrs}
use kns.Ring.CopyIn
use kns.Ring.Window.{window, window-add, window-eq, window-take}
use kns.Ring.Valid.{slot_of}

module _ (k : ℕ) (ring : List ℕ) (c u : ℕ) (obj_table : List ℕ) (n : ℕ) (small : k ≤ 31)
    (slots : length ring ≡ 2 ^ k) (room : n ≤ length obj_table) (fits : u + n < 2 ^ k) where
  window-enqueue_ptrs :
      window
        (enqueue_ptrs (2 ^ k) (2 ^ k - 1) ring ((c + u) % 2 ^ 32) obj_table n)
        (2 ^ k)
        c
        (u + n)
      ≡ window ring (2 ^ k) c u ++ take n obj_table
  window-enqueue_ptrs =
      let p : ℕ = (c + u) % 2 ^ 32 in
      let idx : ℕ = p % 2 ^ k in
      let start : idx < 2 ^ k = mod-lt p (omega arith) in
      rw (CopyIn.enqueue_ptrs-around k ring p obj_table n small (omega arith)) (
        window-add (CopyIn.around (2 ^ k) ring idx obj_table n) (2 ^ k) c u n
        ∙ ap₂ ◌++◌
            (window-eq _ ring (2 ^ k) c c u λ t h.
              let back : ℕ = 2 ^ k - u + t in
              let whole : c + u + back ≡ c + t + 2 ^ k = omega arith in
              let same : (idx + back) % 2 ^ k ≡ (c + t) % 2 ^ k =
                slot_of k (c + u) back small
                ∙ ap (λ x. x % 2 ^ k) whole
                ∙ add-mod_right (c + t) (2 ^ k) in
              rw same at (
                CopyIn.around-old (2 ^ k) ring idx obj_table n slots start (omega arith) back
                  (omega arith) (omega arith)))
            (window-take _ (2 ^ k) (c + u) n obj_table room λ t h.
              rw (slot_of k (c + u) t small) at
                (CopyIn.around-new (2 ^ k) ring idx obj_table n slots start (omega arith) t h)))

  -- The same with the fields of the structure in place of the values that they hold.
  pub window-enqueue_fields :
      (size mask head len : ℕ)
      → size ≡ 2 ^ k
      → mask ≡ 2 ^ k - 1
      → head ≡ (c + u) % 2 ^ 32
      → len ≡ u + n
      → window (enqueue_ptrs size mask ring head obj_table n) size c len
        ≡ window ring size c u ++ take n obj_table
  window-enqueue_fields size mask head len es em eh el = rw (es, em, eh, el) window-enqueue_ptrs

pub length-enqueue_fields :
    (k : ℕ) (ring : List ℕ) (head : ℕ) (obj_table : List ℕ) (n : ℕ)
    → k ≤ 31
    → length ring ≡ 2 ^ k
    → n ≤ 2 ^ k
    → (size mask : ℕ) → size ≡ 2 ^ k
    → mask ≡ 2 ^ k - 1
    → length (enqueue_ptrs size mask ring head obj_table n) ≡ 2 ^ k
length-enqueue_fields k ring head obj_table n small slots fits size mask es em =
    rw
      (
        es,
        em,
        CopyIn.enqueue_ptrs-around k ring head obj_table n small fits,
        CopyIn.length-around (2 ^ k) ring (head % 2 ^ k) obj_table n,
      )
      slots
