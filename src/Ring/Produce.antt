-- ===== src/Ring/Produce.antt =====
-- Each step of a producer (`Ring.Steps`) keeps what holds of the ring that it shares with the
-- consumer.
use native.Mathlib.Nat.{mod-add-mod, mod-lt}
use kns.Common.{
  ℕ, ◌+◌, ◌-◌, ◌%◌, ◌^◌, ◌<◌, ◌≡◌, refl, sym, ap, ◌∙◌, ◌⊎◌, List, ◌∷◌, ◌++◌, append_assoc, arith,
  dec_lt, ℕ_discrete,
}
use kns.Common.Tests.{lt→ltb, le→ltb}
use kns.Common.Lists.{length, take, get_or, length-set, get_or-set_self, get_or-set_ne}
use kns.Ring.{Ring, Behavior, Ret, add32, sub32, free_entries}
use kns.Ring.Copy.{put1}
use kns.Ring.Frame.{Consuming-prod, Roomed, refused, granted, enqueue_room-Roomed}
use kns.Ring.Shared.{
  used, Shape, Enqueuing, Producing, Coherent, published, pow_bounds, slot-mod, slot-ne,
}
use kns.Ring.Steps.{Producer, System, slot, enqueue_claim, enqueue_copy, produce, set_prod_tail}
use kns.Ring.Valid.{slot_of}
use kns.Ring.Window.{window, window-add, window-eq, window-take}

-- The `i`th slot past the producer's tail, counted from the consumer's.
pub from_cons :
    {k : ℕ} {r : Ring} (i : ℕ)
    → Shape k r
    → (r.prod.tail + i) % 2 ^ k ≡ (r.cons.tail + used r + i) % 2 ^ k
from_cons {k} {r} i s =
    let tail : r.prod.tail ≡ (r.cons.tail + used r) % 2 ^ 32 = omega (arith, s) in
    sym (mod-add-mod r.prod.tail (2 ^ k) i)
    ∙ ap (λ p. (p % 2 ^ k + i) % 2 ^ k) tail
    ∙ slot_of k (r.cons.tail + used r) i s.small

-- The read of the two indices.
loaded_free :
    {k : ℕ} {r : Ring} → Shape k r → r.prod.head ≡ r.prod.tail → free_entries r + used r < 2 ^ k
loaded_free s e = omega (arith, pow_bounds s.small, s)

module _ {k : ℕ} (s : System) (c : Coherent k s) where
  claim-Coherent :
      (obj_table : List ℕ) (prod_head free : ℕ) (b : Behavior) (answer : Ret ⊎ ℕ)
      → Roomed free (length obj_table) answer
      → Producing k s.ring (Producer.loaded obj_table prod_head free b)
      → Coherent k (enqueue_claim s obj_table prod_head free b answer)
  unfolding enqueue_claim
  claim-Coherent obj_table prod_head free b _ (refused early) (rest, from, fits) = record {
    shape = c.shape;
    producing = rest;
    consuming = c.consuming;
    log = c.log;
  }
  claim-Coherent obj_table prod_head free b _ (granted n below asked) (rest, from, fits) = record {
    shape = record {
      small = c.shape.small;
      prod_size = c.shape.prod_size;
      prod_mask = c.shape.prod_mask;
      cons_size = c.shape.cons_size;
      slots = c.shape.slots;
      prod_word = c.shape.prod_word;
      cons_word = c.shape.cons_word;
      bounded = c.shape.bounded;
    };
    producing = record {
      head = ap (λ p. add32 p n) from;
      from = from;
      fits = omega arith;
      progress = omega arith;
      room = asked;
      copied = λ t l. absurd (omega arith);
    };
    consuming =
        Consuming-prod k s.consumer s.ring _ s.ring.ring (omega arith) (λ t l. refl) c.consuming;
    log = c.log;
  }

  -- A copied pointer stands in its slot, and no slot that is published or copied before changes.
  module _ (obj_table : List ℕ) (prod_head free n i : ℕ) (b : Behavior)
      (e : Enqueuing k s.ring obj_table prod_head n i) (more : i < n) where
    next : List ℕ
    next = put1 s.ring.ring (slot s.ring.prod.size s.ring.prod.mask prod_head i) obj_table i

    where_next : slot s.ring.prod.size s.ring.prod.mask prod_head i ≡ (s.ring.prod.tail + i) % 2 ^ k
    where_next =
        slot-mod k prod_head i c.shape.small (omega (arith, e)) s.ring.prod.size s.ring.prod.mask
          c.shape.prod_size c.shape.prod_mask
        ∙ ap (λ p. (p + i) % 2 ^ k) e.from

    next-published :
        (t : ℕ)
        → t < used s.ring
        → get_or next ((s.ring.cons.tail + t) % 2 ^ k) 0
          ≡ get_or s.ring.ring ((s.ring.cons.tail + t) % 2 ^ k) 0
    unfolding next
    next-published t l =
        let d : ℕ = used s.ring + i - t in
        let there : s.ring.cons.tail + used s.ring + i ≡ s.ring.cons.tail + t + d = omega arith in
        get_or-set_ne s.ring.ring _ ((s.ring.cons.tail + t) % 2 ^ k) (get_or obj_table i 0) 0
          λ same.
            slot-ne (2 ^ k) (s.ring.cons.tail + t) d (omega arith) (omega (arith, e))
              (sym (ap (λ x. x % 2 ^ k) there) ∙ sym (from_cons i c.shape) ∙ sym where_next ∙ same)

    next-copied :
        (t : ℕ) → t < i + 1 → get_or next ((s.ring.prod.tail + t) % 2 ^ k) 0 ≡ get_or obj_table t 0
    unfolding next
    next-copied t l = elim (ℕ_discrete t i) [
      | yes now ↦
          rw (now, ← where_next)
            (get_or-set_self s.ring.ring _ (get_or obj_table i 0) 0
              (rw (where_next, c.shape.slots) (mod-lt (s.ring.prod.tail + i) (omega (arith, e)))))
      | no before ↦
          let there : s.ring.prod.tail + i ≡ s.ring.prod.tail + t + (i - t) = omega arith in
          get_or-set_ne s.ring.ring _ ((s.ring.prod.tail + t) % 2 ^ k) (get_or obj_table i 0) 0
            (λ same.
              slot-ne (2 ^ k) (s.ring.prod.tail + t) (i - t) (omega arith) (omega (arith, e))
                (sym (ap (λ x. x % 2 ^ k) there) ∙ sym where_next ∙ same))
          ∙ e.copied t (omega arith)
    ]

    next-length : length next ≡ 2 ^ k
    unfolding next
    next-length = length-set s.ring.ring _ _ ∙ c.shape.slots

    write-Coherent : Coherent k (record s {
      ring = record (s.ring) { ring = next };
      producer = Producer.copying obj_table prod_head free n (i + 1) b;
    })
    write-Coherent = record {
      shape = record {
        small = c.shape.small;
        prod_size = c.shape.prod_size;
        prod_mask = c.shape.prod_mask;
        cons_size = c.shape.cons_size;
        slots = next-length;
        prod_word = c.shape.prod_word;
        cons_word = c.shape.cons_word;
        bounded = c.shape.bounded;
      };
      producing = record {
        head = e.head;
        from = e.from;
        fits = e.fits;
        progress = omega arith;
        room = e.room;
        copied = next-copied;
      };
      consuming =
          Consuming-prod k s.consumer s.ring s.ring.prod next (omega arith) next-published
            c.consuming;
      log =
          c.log
          ∙ ap (λ q. s.got ++ q)
              (window-eq s.ring.ring next (2 ^ k) s.ring.cons.tail s.ring.cons.tail (used s.ring)
                λ t l. sym (next-published t l));
    }

  -- The new tail publishes what the call has copied.
  module _ (obj_table : List ℕ) (prod_head free n : ℕ) (result : Ret)
      (e : Enqueuing k s.ring obj_table prod_head n n) where
    tail_moves : sub32 (add32 prod_head n) s.ring.cons.tail ≡ used s.ring + n
    tail_moves = omega (arith, e, c.shape, pow_bounds c.shape.small)

    published_more :
        window s.ring.ring (2 ^ k) s.ring.cons.tail (sub32 (add32 prod_head n) s.ring.cons.tail)
        ≡ published k s.ring ++ take n obj_table
    published_more =
        ap (window s.ring.ring (2 ^ k) s.ring.cons.tail) tail_moves
        ∙ window-add s.ring.ring (2 ^ k) s.ring.cons.tail (used s.ring) n
        ∙ ap (λ q. published k s.ring ++ q)
            (window-take s.ring.ring (2 ^ k) (s.ring.cons.tail + used s.ring) n obj_table e.room
              λ t l. ap (λ j. get_or s.ring.ring j 0) (sym (from_cons t c.shape)) ∙ e.copied t l)

    publish-Coherent : Coherent k (record s {
      ring = set_prod_tail (s.ring) (add32 prod_head n);
      producer = Producer.rests;
      sent = s.sent ++ take n obj_table;
      enqueued = result ∷ s.enqueued;
    })
    publish-Coherent = record {
      shape = record {
        small = c.shape.small;
        prod_size = c.shape.prod_size;
        prod_mask = c.shape.prod_mask;
        cons_size = c.shape.cons_size;
        slots = c.shape.slots;
        prod_word = omega arith;
        cons_word = c.shape.cons_word;
        bounded = omega (arith, tail_moves, e);
      };
      producing = e.head ∙ ap (λ p. add32 p n) (sym (e.from));
      consuming =
          Consuming-prod k s.consumer s.ring _ s.ring.ring (omega (arith, tail_moves)) (λ t l. refl)
            c.consuming;
      log =
          ap (λ q. q ++ take n obj_table) (c.log)
          ∙ append_assoc s.got (published k s.ring) (take n obj_table)
          ∙ ap (λ q. s.got ++ q) (sym published_more);
    }

  copy-Coherent :
      (obj_table : List ℕ) (prod_head free n i : ℕ) (b : Behavior)
      → Enqueuing k s.ring obj_table prod_head n i
      → Coherent k (enqueue_copy s obj_table prod_head free n i b)
  unfolding enqueue_copy next
  copy-Coherent obj_table prod_head free n i b e = elim (dec_lt i n) [
    | yes more ↦
        rw (enqueue_copy, lt→ltb i n more) (write-Coherent obj_table prod_head free n i b e more)
    | no done ↦
        let all : i ≡ n = omega (arith, e) in
        rw (enqueue_copy, le→ltb i n (omega arith))
          (publish-Coherent obj_table prod_head free n _ (rw all at e))
  ]

pub produce-Coherent :
    {k : ℕ} (s : System) (p : Producer)
    → Coherent k s
    → Producing k s.ring p
    → Coherent k (produce s p)
unfolding produce
produce-Coherent s Producer.rests c h = c
produce-Coherent s (Producer.called obj_table b) c h = record {
  shape = c.shape;
  producing = (h, h, loaded_free c.shape h);
  consuming = c.consuming;
  log = c.log;
}
produce-Coherent s (Producer.loaded obj_table prod_head free b) c h =
    claim-Coherent s c obj_table prod_head free b _ (enqueue_room-Roomed free (length obj_table) b)
      h
produce-Coherent s (Producer.copying obj_table prod_head free n i b) c h =
    copy-Coherent s c obj_table prod_head free n i b h
