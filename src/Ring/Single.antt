-- ===== src/Ring/Single.antt =====
-- The single-producer enqueue of inc/kns/ring.h refines a bounded queue.
use kns.Common.{
  ℕ, ◌+◌, ◌-◌, ◌^◌, ◌≤◌, ◌≡◌, refl, ap₂, ◌∙◌, List, ◌++◌, arith, dec_lt, ℕ_discrete, true,
}
use kns.Common.Tests.{ltb, lt→ltb, le→ltb, eq→==, ne→==}
use kns.Common.Lists.{length, take, length-take, take-take}
use kns.Ring.{
  Ring, Behavior, fixed, variable, sub32, add32, free_entries, enqueue_commit, sp_do_enqueue,
  enqueue_room,
}
use kns.Ring.Copy.{enqueue_ptrs}
use kns.Ring.Window.{window}
use kns.Ring.Valid.{
  IsValid, contents, pushed, enqueue_queue, size_bounds, length-contents, free_entries-length,
}
use kns.Ring.WindowIn.{window-enqueue_fields, length-enqueue_fields}

pushed_pair :
    (w : ℕ) (b : Behavior) (q xs : List ℕ) → ((pushed w b q xs).0, q ++ xs) ≡ pushed w b q xs
pushed_pair w fixed q xs = refl
pushed_pair w variable q xs = refl

abbrev pub moved : Ring → ℕ → Ring
moved r n = record r { prod = record (r.prod) { head = add32 (r.prod.head) n } }

module _ {k : ℕ} {r : Ring} (v : IsValid k r) (obj_table : List ℕ) (n : ℕ)
    (room : n ≤ length obj_table) (free : n ≤ free_entries r) where
  fields :
      window
        (enqueue_ptrs r.prod.size r.prod.mask r.ring r.prod.head obj_table n)
        r.prod.size
        r.cons.tail
        (sub32 (add32 r.prod.head n) r.cons.tail)
      ≡ contents r ++ take n obj_table
  fields =
      window-enqueue_fields k r.ring r.cons.tail (sub32 r.prod.tail r.cons.tail) obj_table n v.small
        v.slots room (omega (arith, free_entries-length v, length-contents v, size_bounds v, v))
        r.prod.size r.prod.mask r.prod.head (sub32 (add32 r.prod.head n) r.cons.tail) v.prod_size
        v.prod_mask (omega (arith, v))
        (omega (arith, free_entries-length v, length-contents v, size_bounds v, v))

  commit-contents :
      (b : Behavior)
      → contents (enqueue_commit (moved r n) obj_table r.prod.head (free_entries r) n b).1
        ≡ contents r ++ take n obj_table
  unfolding enqueue_commit
  commit-contents fixed = fields
  commit-contents variable = fields

  -- The number that the code compares with the high water mark.
  mark :
      add32 (sub32 (add32 r.prod.mask 1) (free_entries r)) n
      ≡ length (contents r) + 1 + length (take n obj_table)
  mark = omega (
    arith,
    free_entries-length v,
    length-contents v,
    size_bounds v,
    v,
    length-take n obj_table room,
  )

  pub commit-ret :
      (b : Behavior)
      → (enqueue_commit (moved r n) obj_table r.prod.head (free_entries r) n b).0
        ≡ (pushed r.prod.watermark b (contents r) (take n obj_table)).0
  unfolding enqueue_commit
  commit-ret fixed = rw mark
  commit-ret variable = rw (mark, length-take n obj_table room)

  valid :
      (tail : ℕ)
      → tail ≡ add32 r.prod.head n
      → IsValid k (record r {
        prod = record (r.prod) { head = add32 (r.prod.head) n; tail = tail };
        ring = enqueue_ptrs (r.prod.size) (r.prod.mask) (r.ring) (r.prod.head) obj_table n;
      })
  valid tail e = record {
    small = v.small;
    prod_size = v.prod_size;
    prod_mask = v.prod_mask;
    cons_size = v.cons_size;
    slots =
        length-enqueue_fields k r.ring r.prod.head obj_table n v.small v.slots
          (omega (arith, free_entries-length v)) r.prod.size r.prod.mask v.prod_size v.prod_mask;
    prod_word = omega arith;
    prod_rests = e;
    cons_word = v.cons_word;
    cons_rests = v.cons_rests;
    bounded = omega (arith, free_entries-length v, length-contents v, size_bounds v, v);
  }

  commit-IsValid :
      (b : Behavior)
      → IsValid k (enqueue_commit (moved r n) obj_table r.prod.head (free_entries r) n b).1
  unfolding enqueue_commit
  commit-IsValid fixed = valid _ refl
  commit-IsValid variable = valid _ refl

module _ {k : ℕ} {r : Ring} (v : IsValid k r) (obj_table : List ℕ) (n : ℕ)
    (room : n ≤ length obj_table) (free : n ≤ free_entries r) (b : Behavior) where
  pub commit-pushed :
      let (s, r') = enqueue_commit (moved r n) obj_table r.prod.head (free_entries r) n b in
      ((s, contents r') ≡ pushed r.prod.watermark b (contents r) (take n obj_table)) × IsValid k r'
  commit-pushed = (
    ap₂ (λ s q. (s, q)) (commit-ret v obj_table n room free b)
          (commit-contents v obj_table n room free b)
        ∙ pushed_pair r.prod.watermark b (contents r) (take n obj_table),
    commit-IsValid v obj_table n room free b,
  )

-- From a table of at least `n` objects, a single-producer enqueue of `n` on a valid ring, of either
-- behaviour, does to the ring's objects what `enqueue_queue` does to a queue of at most
-- `2 ^ k - 1`, and keeps the ring valid.
pub sp_do_enqueue-refines :
    {k : ℕ} {r : Ring} (obj_table : List ℕ) (n : ℕ) (b : Behavior)
    → IsValid k r
    → n ≤ length obj_table
    → let (s, r') = sp_do_enqueue r obj_table n b in
      ((s, contents r')
        ≡ enqueue_queue (2 ^ k - 1) r.prod.watermark b (contents r) (take n obj_table))
      × IsValid k r'
unfolding sp_do_enqueue enqueue_room enqueue_queue
sp_do_enqueue-refines {k} {r} obj_table n fixed v room =
    let held : ℕ = length (contents r) in
    let asked : length (take n obj_table) ≡ n = length-take n obj_table room in
    elim (dec_lt (free_entries r) n) [
      | yes over ↦
          rw
            (
              asked,
              lt→ltb (free_entries r) n over,
              sp_do_enqueue,
              enqueue_room,
              lt→ltb (2 ^ k - 1) (held + n) (omega (arith, free_entries-length v)),
            )
            (refl, v)
      | no fits ↦
          rw
            (
              asked,
              le→ltb (free_entries r) n (omega arith),
              sp_do_enqueue,
              enqueue_room,
              le→ltb (2 ^ k - 1) (held + n) (omega (arith, free_entries-length v)),
            )
            (rw asked at (commit-pushed v obj_table n room (omega arith) fixed))
    ]
sp_do_enqueue-refines {k} {r} obj_table n variable v room =
    let held : ℕ = length (contents r) in
    let free : ℕ = free_entries r in
    let asked : length (take n obj_table) ≡ n = length-take n obj_table room in
    elim (dec_lt free n) [
      | yes over ↦
          let more : ltb (2 ^ k - 1) (held + n) ≡ true =
            lt→ltb (2 ^ k - 1) (held + n) (omega (arith, free_entries-length v)) in
          elim (ℕ_discrete free 0) [
            | yes full ↦
                rw
                  (
                    asked,
                    lt→ltb free n over,
                    eq→== free 0 full,
                    sp_do_enqueue,
                    enqueue_room,
                    more,
                    eq→== held (2 ^ k - 1) (omega (arith, free_entries-length v)),
                  )
                  (refl, v)
            | no some_room ↦
                let left : 2 ^ k - 1 - held ≡ free = omega (arith, free_entries-length v) in
                rw
                  (
                    asked,
                    lt→ltb free n over,
                    ne→== free 0 some_room,
                    sp_do_enqueue,
                    enqueue_room,
                    more,
                    ne→== held (2 ^ k - 1) (omega (arith, free_entries-length v)),
                    left,
                    take-take free n obj_table (omega arith),
                  )
                  (commit-pushed v obj_table free (omega arith) (omega arith) variable)
          ]
      | no fits ↦
          rw
            (
              asked,
              le→ltb free n (omega arith),
              sp_do_enqueue,
              enqueue_room,
              le→ltb (2 ^ k - 1) (held + n) (omega (arith, free_entries-length v)),
            )
            (rw asked at (commit-pushed v obj_table n room (omega arith) variable))
    ]
