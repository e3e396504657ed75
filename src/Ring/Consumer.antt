-- ===== src/Ring/Consumer.antt =====
-- The single-consumer dequeue of inc/kns/ring.h refines a bounded queue.
use kns.Common.{
  ℕ, ◌+◌, ◌-◌, ◌%◌, ◌^◌, ◌≤◌, ◌≡◌, refl, sym, ap, ap₂, subst, ◌∙◌, List, [], arith, dec_lt,
  ℕ_discrete, true,
}
use kns.Common.Tests.{ltb, lt→ltb, le→ltb, eq→==, ne→==}
use kns.Common.Lists.{length, take, drop, length-take, get_or, take-all, drop-all}
use kns.Ring.{
  Ring, Behavior, fixed, variable, Ret, ret, sub32, add32, entries, sc_do_dequeue, dequeue_room,
}
use kns.Ring.Copy.{dequeue_ptrs}
use kns.Ring.Window.{window, take-window, drop-window}
use kns.Ring.Valid.{IsValid, contents, dequeue_queue, size_bounds, length-contents, entries-length}
use kns.Ring.WindowOut.{Copied, dequeue_ptrs-Copied, window-wrap}

-- What a dequeue leaves, against what it does to the queue.
pub record Dequeued (k : ℕ) (obj_table : List ℕ) (got : Ret × List ℕ × Ring)
    (want : Ret × List ℕ × List ℕ) : Type 0 where
  pub result : got.0 ≡ want.0
  pub taken : take (length want.1) got.1 ≡ want.1
  pub others : (t : ℕ) → length want.1 ≤ t → get_or got.1 t 0 ≡ get_or obj_table t 0
  pub same_length : length got.1 ≡ length obj_table
  pub left : contents got.2 ≡ want.2
  pub valid : IsValid k got.2

abbrev advanced : Ring → ℕ → Ring
advanced r n =
    let next = add32 (r.cons.head) n in
    record r { cons = record (r.cons) { head = next; tail = next } }

module _ {k : ℕ} {r : Ring} (v : IsValid k r) (obj_table : List ℕ) (n : ℕ)
    (room : n ≤ length obj_table) (held : n ≤ length (contents r)) where
  advanced-IsValid : IsValid k (advanced r n)
  advanced-IsValid = record {
    small = v.small;
    prod_size = v.prod_size;
    prod_mask = v.prod_mask;
    cons_size = v.cons_size;
    slots = v.slots;
    prod_word = v.prod_word;
    prod_rests = v.prod_rests;
    cons_word = omega arith;
    cons_rests = refl;
    bounded = omega (arith, length-contents v, v);
  }

  contents-split : contents r ≡ window r.ring (2 ^ k) r.cons.tail (n + (length (contents r) - n))
  contents-split =
      let whole : n + (length (contents r) - n) ≡ sub32 r.prod.tail r.cons.tail =
        omega (arith, length-contents v, v) in
      rw (whole, v.prod_size)

  contents-advanced : contents (advanced r n) ≡ drop n (contents r)
  contents-advanced =
      let rest : ℕ = length (contents r) - n in
      let c : ℕ = r.cons.tail in
      let left : sub32 r.prod.tail (add32 r.cons.head n) ≡ rest =
        omega (arith, length-contents v, v) in
      let head : add32 r.cons.head n ≡ (c + n) % 2 ^ 32 = omega (arith, v) in
      ap₂ (window r.ring r.prod.size) head left
      ∙ ap (λ s. window r.ring s ((c + n) % 2 ^ 32) rest) v.prod_size
      ∙ window-wrap k r.ring (c + n) rest v.small
      ∙ sym (ap (drop n) contents-split ∙ drop-window r.ring (2 ^ k) c n rest)

  copied :
      Copied k r.ring r.cons.head obj_table n v.small room
        (omega (arith, length-contents v, v))
        (dequeue_ptrs r.cons.size r.prod.mask r.ring r.cons.head obj_table n)
  copied =
      dequeue_ptrs-Copied k r.ring r.cons.head obj_table n v.small room _ r.cons.size r.prod.mask
        v.cons_size v.prod_mask (size_bounds v).0

  advance-Dequeued :
      (s : Ret)
      → Dequeued k obj_table
          (s, dequeue_ptrs r.cons.size r.prod.mask r.ring r.cons.head obj_table n, advanced r n)
          (s, take n (contents r), drop n (contents r))
  advance-Dequeued s =
      let rest : ℕ = length (contents r) - n in
      let size : length (take n (contents r)) ≡ n = length-take n (contents r) held in
      let got : take n (contents r) ≡ window r.ring (2 ^ k) r.cons.head n =
        ap (take n) contents-split
        ∙ take-window r.ring (2 ^ k) r.cons.tail n rest
        ∙ ap (λ h. window r.ring (2 ^ k) h n) v.cons_rests in
      record {
        result = refl;
        taken = rw size (sym (copied.first) ∙ sym got);
        others = rw size copied.others;
        same_length = copied.same_length;
        left = contents-advanced;
        valid = advanced-IsValid;
      }

all_of :
    (q : List ℕ) (m : ℕ)
    → length q ≡ m
    → ◌≡◌ {A = Ret × List ℕ × List ℕ} (ret m, take m q, drop m q) (ret (length q), q, [])
all_of q m h = rw (take-all m q h, drop-all m q h, h)

-- Into a table of at least `n` slots, a single-consumer dequeue of `n`, of either behaviour, takes
-- from a valid ring what
-- `dequeue_queue` takes from a queue, leaves the objects in order at the front of the caller's
-- table and the rest of the table as it was, and keeps the ring valid.
pub sc_do_dequeue-refines :
    {k : ℕ} {r : Ring} (obj_table : List ℕ) (n : ℕ) (b : Behavior)
    → IsValid k r
    → n ≤ length obj_table
    → Dequeued k obj_table (sc_do_dequeue r obj_table n b) (dequeue_queue b (contents r) n)
unfolding sc_do_dequeue dequeue_room dequeue_queue
sc_do_dequeue-refines {k} {r} obj_table n fixed v room = elim (dec_lt (entries r) n) [
  | yes few ↦
      rw
        (
          lt→ltb (entries r) n few,
          sc_do_dequeue,
          dequeue_room,
          lt→ltb (length (contents r)) n (omega (arith, entries-length v)),
        )
        (record {
          result = refl;
          taken = refl;
          others = λ t h. refl;
          same_length = refl;
          left = refl;
          valid = v;
        })
  | no enough ↦
      rw
        (
          le→ltb (entries r) n (omega arith),
          sc_do_dequeue,
          dequeue_room,
          le→ltb (length (contents r)) n (omega (arith, entries-length v)),
        )
        (advance-Dequeued v obj_table n room (omega (arith, entries-length v)) (ret 0))
]
sc_do_dequeue-refines {k} {r} obj_table n variable v room = elim (dec_lt (entries r) n) [
  | yes few ↦
      let q : List ℕ = contents r in
      let all : length q ≡ entries r = sym (entries-length v) in
      let short : ltb (length q) n ≡ true = lt→ltb (length q) n (omega (arith, entries-length v)) in
      elim (ℕ_discrete (entries r) 0) [
        | yes none_held ↦
            let e : contents r ≡ [] = drop-all 0 q (omega (arith, entries-length v)) in
            rw
              (
                lt→ltb (entries r) n few,
                eq→== (entries r) 0 none_held,
                sc_do_dequeue,
                dequeue_room,
                short,
              )
              (record {
                result = rw e;
                taken = rw e;
                others = λ t h. refl;
                same_length = refl;
                left = e;
                valid = v;
              })
        | no some_held ↦
            rw
              (
                lt→ltb (entries r) n few,
                ne→== (entries r) 0 some_held,
                sc_do_dequeue,
                dequeue_room,
                short,
              )
              (subst
                (λ w.
                  Dequeued k obj_table
                    (
                      ret (entries r),
                      dequeue_ptrs r.cons.size r.prod.mask r.ring r.cons.head obj_table (entries r),
                      advanced r (entries r),
                    )
                    w)
                (all_of q (entries r) all)
                (advance-Dequeued v obj_table (entries r) (omega arith)
                  (omega (arith, entries-length v)) (ret (entries r))))
      ]
  | no enough ↦
      rw
        (
          le→ltb (entries r) n (omega arith),
          sc_do_dequeue,
          dequeue_room,
          le→ltb (length (contents r)) n (omega (arith, entries-length v)),
        )
        (advance-Dequeued v obj_table n room (omega (arith, entries-length v)) (ret n))
]
