-- ===== src/Ring/Consume.antt =====
-- Each step of a consumer (`Ring.Steps`) keeps what holds of the ring that it shares with the
-- producer.
use kns.Common.{
  ℕ, ◌+◌, ◌-◌, ◌%◌, ◌^◌, ◌<◌, ◌≡◌, sym, ap, ap₂, ◌∙◌, ◌⊎◌, List, ◌∷◌, ◌++◌, append_assoc, arith,
  dec_lt, ℕ_discrete,
}
use kns.Common.Tests.{lt→ltb, le→ltb}
use kns.Common.Lists.{length, take, get_or, length-set, get_or-set_self, get_or-set_ne}
use kns.Ring.{Behavior, Ret, add32, sub32}
use kns.Ring.WindowOut.{window-wrap}
use kns.Ring.Copy.{put1}
use kns.Ring.Frame.{Producing-cons, Roomed, refused, granted, dequeue_room-Roomed}
use kns.Ring.Shared.{used, Agree, Dequeuing, Consuming, Coherent, published, pow_bounds, slot-mod}
use kns.Ring.Steps.{Consumer, System, slot, dequeue_claim, dequeue_copy, consume, set_cons_tail}
use kns.Ring.Window.{window, window-add, window-take}

module _ {k : ℕ} (s : System) (c : Coherent k s) where
  claim-Coherent :
      (obj_table : List ℕ) (cons_head held : ℕ) (b : Behavior) (answer : Ret ⊎ ℕ)
      → Roomed held (length obj_table) answer
      → Consuming k s.ring (Consumer.loaded obj_table cons_head held b)
      → Coherent k (dequeue_claim s obj_table cons_head b answer)
  unfolding dequeue_claim
  claim-Coherent obj_table cons_head held b _ (refused early) (rest, from, have) = record {
    shape = c.shape;
    producing = c.producing;
    consuming = rest;
    log = c.log;
  }
  claim-Coherent obj_table cons_head held b _ (granted n below asked) (rest, from, have) = record {
    shape = record {
      small = c.shape.small;
      prod_size = c.shape.prod_size;
      prod_mask = c.shape.prod_mask;
      cons_size = c.shape.cons_size;
      slots = c.shape.slots;
      prod_word = c.shape.prod_word;
      cons_word = c.shape.cons_word;
      bounded = c.shape.bounded;
    };
    producing = Producing-cons k s.producer s.ring _ (omega arith) c.producing;
    consuming = record {
      head = ap (λ p. add32 p n) from;
      from = from;
      held = omega arith;
      progress = omega arith;
      room = asked;
      copied = λ t l. absurd (omega arith);
    };
    log = c.log;
  }

  module _ (obj_table : List ℕ) (cons_head n i : ℕ) (b : Behavior)
      (e : Dequeuing k s.ring obj_table cons_head n i) (more : i < n) where
    next : List ℕ
    next = put1 obj_table i s.ring.ring (slot s.ring.cons.size s.ring.prod.mask cons_head i)

    where_next : slot s.ring.cons.size s.ring.prod.mask cons_head i ≡ (s.ring.cons.tail + i) % 2 ^ k
    where_next =
        slot-mod k cons_head i c.shape.small (omega (arith, e, c.shape)) s.ring.cons.size
          s.ring.prod.mask c.shape.cons_size c.shape.prod_mask
        ∙ ap (λ p. (p + i) % 2 ^ k) (e.from)

    next-copied : Agree k s.ring s.ring.cons.tail next (i + 1)
    unfolding next
    next-copied t l = elim (ℕ_discrete t i) [
      | yes now ↦
          rw (now, ← where_next)
            (sym (
              get_or-set_self obj_table i
                (get_or s.ring.ring (slot s.ring.cons.size s.ring.prod.mask cons_head i) 0) 0
                (omega (arith, e))))
      | no before ↦
          e.copied t (omega arith)
          ∙ sym (
              get_or-set_ne obj_table i t
                (get_or s.ring.ring (slot s.ring.cons.size s.ring.prod.mask cons_head i) 0) 0
                (λ same. before (sym same)))
    ]

    next-length : length next ≡ length obj_table
    unfolding next
    next-length = length-set obj_table i _

    write-Coherent :
        Coherent k (record s { consumer = Consumer.copying next cons_head n (i + 1) b })
    write-Coherent = record {
      shape = c.shape;
      producing = c.producing;
      consuming = record {
        head = e.head;
        from = e.from;
        held = e.held;
        progress = omega arith;
        room = omega (arith, next-length, e);
        copied = next-copied;
      };
      log = c.log;
    }

  -- The new tail gives the slots back, once the call has copied them out.
  module _ (obj_table : List ℕ) (cons_head n : ℕ) (result : Ret)
      (e : Dequeuing k s.ring obj_table cons_head n n) where
    tail_moves : sub32 s.ring.prod.tail (add32 cons_head n) ≡ used s.ring - n
    tail_moves = omega (arith, e, c.shape, pow_bounds c.shape.small)

    published_split :
        published k s.ring
        ≡ take n obj_table
          ++ window s.ring.ring
              (2 ^ k)
              (add32 cons_head n)
              (sub32 s.ring.prod.tail (add32 cons_head n))
    published_split =
        let whole : used s.ring ≡ n + (used s.ring - n) = omega (arith, e) in
        ap (window s.ring.ring (2 ^ k) s.ring.cons.tail) whole
        ∙ window-add s.ring.ring (2 ^ k) s.ring.cons.tail n (used s.ring - n)
        ∙ ap₂ ◌++◌
            (window-take s.ring.ring (2 ^ k) s.ring.cons.tail n obj_table (e.room) (e.copied))
            (sym (
              ap₂ (λ h m. window s.ring.ring (2 ^ k) ((h + n) % 2 ^ 32) m) (e.from) tail_moves
              ∙ window-wrap k s.ring.ring (s.ring.cons.tail + n) (used s.ring - n) c.shape.small))

    release-Coherent : Coherent k (record s {
      ring = set_cons_tail (s.ring) (add32 cons_head n);
      consumer = Consumer.rests;
      got = s.got ++ take n obj_table;
      dequeued = result ∷ s.dequeued;
    })
    release-Coherent = record {
      shape = record {
        small = c.shape.small;
        prod_size = c.shape.prod_size;
        prod_mask = c.shape.prod_mask;
        cons_size = c.shape.cons_size;
        slots = c.shape.slots;
        prod_word = c.shape.prod_word;
        cons_word = omega arith;
        bounded = omega (arith, tail_moves, c.shape);
      };
      producing = Producing-cons k s.producer s.ring _ (omega (arith, tail_moves)) c.producing;
      consuming = e.head ∙ ap (λ p. add32 p n) (sym (e.from));
      log =
          c.log
          ∙ ap (λ q. s.got ++ q) published_split
          ∙ sym (append_assoc s.got (take n obj_table) _);
    }

  copy-Coherent :
      (obj_table : List ℕ) (cons_head n i : ℕ) (b : Behavior)
      → Dequeuing k s.ring obj_table cons_head n i
      → Coherent k (dequeue_copy s obj_table cons_head n i b)
  unfolding dequeue_copy next
  copy-Coherent obj_table cons_head n i b e = elim (dec_lt i n) [
    | yes more ↦
        rw (dequeue_copy, lt→ltb i n more) (write-Coherent obj_table cons_head n i b e more)
    | no done ↦
        let all : i ≡ n = omega (arith, e) in
        rw (dequeue_copy, le→ltb i n (omega arith))
          (release-Coherent obj_table cons_head n _ (rw all at e))
  ]

pub consume-Coherent :
    {k : ℕ} (s : System) (p : Consumer)
    → Coherent k s
    → Consuming k s.ring p
    → Coherent k (consume s p)
unfolding consume
consume-Coherent s Consumer.rests c h = c
consume-Coherent s (Consumer.called obj_table b) c h = record {
  shape = c.shape;
  producing = c.producing;
  consuming = (h, h, omega (arith, h));
  log = c.log;
}
consume-Coherent s (Consumer.loaded obj_table cons_head held b) c h =
    claim-Coherent s c obj_table cons_head held b _ (dequeue_room-Roomed held (length obj_table) b)
      h
consume-Coherent s (Consumer.copying obj_table cons_head n i b) c h =
    copy-Coherent s c obj_table cons_head n i b h
