-- ===== src/Ring/Steps.antt =====
-- One producer and one consumer of inc/kns/ring.h at work on a ring at the same time, on two
-- processors: `__ring_sp_do_enqueue` and `__ring_sc_do_dequeue` in steps that any order of the two
-- may interleave. A step reads or writes the shared ring once, apart from reads of what only its
-- own thread writes. Stores are seen in their order, which `smp_wmb` and `smp_rmb` ask for.
use Prim.Native.Nat.{bit_and}
use kns.Common.{ℕ, ◌+◌, ◌-◌, ◌⊎◌, inl, inr, List, [], ◌∷◌, ◌++◌}
use kns.Common.Tests.{ltb, if◌then◌else◌}
use kns.Common.Lists.{length, take}
use kns.Common.Errno.{edquot}
use kns.Ring.{
  Ring, Behavior, fixed, variable, Ret, ret, quota, fail, add32, sub32, free_entries, entries,
  enqueue_room, dequeue_room,
}
use kns.Ring.Copy.{put1}

-- Where a producer is in its call, with the locals that it still needs: at the reads of the two
-- indices, at the check for room, or at pointer `i` of ENQUEUE_PTRS and, once all are copied, at
-- the new tail.
pub data Producer : Type 0 where
  rests : Producer
  called : (obj_table : List ℕ) → Behavior → Producer
  loaded : (obj_table : List ℕ) (prod_head free : ℕ) → Behavior → Producer
  copying : (obj_table : List ℕ) (prod_head free n i : ℕ) → Behavior → Producer

pub data Consumer : Type 0 where
  rests : Consumer
  called : (obj_table : List ℕ) → Behavior → Consumer
  loaded : (obj_table : List ℕ) (cons_head held : ℕ) → Behavior → Consumer
  copying : (obj_table : List ℕ) (cons_head n i : ℕ) → Behavior → Consumer

-- The ring, the two threads, and what is on record of them: the pointers that the producer has
-- published and those that the consumer's calls have returned, in order, and the results of the
-- calls, the latest first.
pub record System : Type 0 where
  pub ring : Ring
  pub producer : Producer
  pub consumer : Consumer
  pub sent : List ℕ
  pub got : List ℕ
  pub enqueued : List Ret
  pub dequeued : List Ret

-- A call of either thread with a table of as many entries as it asks for, or a thread's next step.
pub data Event : Type 0 where
  enqueues dequeues : List ℕ → Behavior → Event
  produces consumes : Event

-- the slot of the `i`th pointer from the free-running index `head` on
abbrev pub slot : (size mask head i : ℕ) → ℕ
slot size mask head i = let idx = bit_and head mask + i in if ltb idx size then idx else idx - size

abbrev pub enqueue_result : Ring → (free n : ℕ) → Behavior → Ret
enqueue_result r free n fixed =
    if ltb r.prod.watermark (add32 (sub32 (add32 r.prod.mask 1) free) n) then fail edquot else ret 0
enqueue_result r free n variable =
    if ltb r.prod.watermark (add32 (sub32 (add32 r.prod.mask 1) free) n) then quota n else ret n

abbrev pub dequeue_result : ℕ → Behavior → Ret
dequeue_result n fixed = ret 0
dequeue_result n variable = ret n

abbrev pub set_prod_head : Ring → ℕ → Ring
set_prod_head r head = record r { prod = record (r.prod) { head = head } }

abbrev pub set_prod_tail : Ring → ℕ → Ring
set_prod_tail r tail = record r { prod = record (r.prod) { tail = tail } }

abbrev pub set_cons_head : Ring → ℕ → Ring
set_cons_head r head = record r { cons = record (r.cons) { head = head } }

abbrev pub set_cons_tail : Ring → ℕ → Ring
set_cons_tail r tail = record r { cons = record (r.cons) { tail = tail } }

-- The early return, or the new head.
unfoldable pub enqueue_claim : System → List ℕ → (prod_head free : ℕ) → Behavior → Ret ⊎ ℕ → System
enqueue_claim s obj_table prod_head free b (inl early) = record s {
  producer = Producer.rests;
  enqueued = early ∷ s.enqueued;
}
enqueue_claim s obj_table prod_head free b (inr n) = record s {
  ring = set_prod_head (s.ring) (add32 prod_head n);
  producer = Producer.copying obj_table prod_head free n 0 b;
}

-- The next pointer, or the new tail and the return.
unfoldable pub enqueue_copy : System → List ℕ → (prod_head free n i : ℕ) → Behavior → System
enqueue_copy s obj_table prod_head free n i b =
    if ltb i n
    then (record s {
      ring = record (s.ring) {
        ring =
            put1 (s.ring.ring) (slot (s.ring.prod.size) (s.ring.prod.mask) prod_head i) obj_table i;
      };
      producer = Producer.copying obj_table prod_head free n (i + 1) b;
    })
    else (record s {
      ring = set_prod_tail (s.ring) (add32 prod_head n);
      producer = Producer.rests;
      sent = s.sent ++ take n obj_table;
      enqueued = enqueue_result (s.ring) free n b ∷ s.enqueued;
    })

unfoldable pub produce : System → Producer → System
produce s Producer.rests = s
produce s (Producer.called obj_table b) = record s {
  producer = Producer.loaded obj_table (s.ring.prod.head) (free_entries (s.ring)) b;
}
produce s (Producer.loaded obj_table prod_head free b) =
    enqueue_claim s obj_table prod_head free b (enqueue_room free (length obj_table) b)
produce s (Producer.copying obj_table prod_head free n i b) =
    enqueue_copy s obj_table prod_head free n i b

unfoldable pub dequeue_claim : System → List ℕ → (cons_head : ℕ) → Behavior → Ret ⊎ ℕ → System
dequeue_claim s obj_table cons_head b (inl early) = record s {
  consumer = Consumer.rests;
  dequeued = early ∷ s.dequeued;
}
dequeue_claim s obj_table cons_head b (inr n) = record s {
  ring = set_cons_head (s.ring) (add32 cons_head n);
  consumer = Consumer.copying obj_table cons_head n 0 b;
}

unfoldable pub dequeue_copy : System → List ℕ → (cons_head n i : ℕ) → Behavior → System
dequeue_copy s obj_table cons_head n i b =
    if ltb i n
    then (record s {
      consumer =
          Consumer.copying
            (put1 obj_table i (s.ring.ring)
              (slot (s.ring.cons.size) (s.ring.prod.mask) cons_head i))
            cons_head n (i + 1) b;
    })
    else (record s {
      ring = set_cons_tail (s.ring) (add32 cons_head n);
      consumer = Consumer.rests;
      got = s.got ++ take n obj_table;
      dequeued = dequeue_result n b ∷ s.dequeued;
    })

unfoldable pub consume : System → Consumer → System
consume s Consumer.rests = s
consume s (Consumer.called obj_table b) = record s {
  consumer = Consumer.loaded obj_table (s.ring.cons.head) (entries (s.ring)) b;
}
consume s (Consumer.loaded obj_table cons_head held b) =
    dequeue_claim s obj_table cons_head b (dequeue_room held (length obj_table) b)
consume s (Consumer.copying obj_table cons_head n i b) = dequeue_copy s obj_table cons_head n i b

-- A thread that is in a call starts no other.
abbrev pub enter_enqueue : Producer → List ℕ → Behavior → Producer
enter_enqueue Producer.rests obj_table b = Producer.called obj_table b
enter_enqueue p obj_table b = p

abbrev pub enter_dequeue : Consumer → List ℕ → Behavior → Consumer
enter_dequeue Consumer.rests obj_table b = Consumer.called obj_table b
enter_dequeue c obj_table b = c

unfoldable pub step : System → Event → System
step s (enqueues obj_table b) = record s { producer = enter_enqueue (s.producer) obj_table b }
step s (dequeues obj_table b) = record s { consumer = enter_dequeue (s.consumer) obj_table b }
step s produces = produce s s.producer
step s consumes = consume s s.consumer

unfoldable pub run : System → List Event → System
run s [] = s
run s (event ∷ events) = run (step s event) events
