-- ===== src/Ring/Interleave.antt =====
-- The ring of inc/kns/ring.h between one producer and one consumer that run at the same time.
use kns.Common.{ℕ, ◌^◌, ◌<◌, ◌≡◌, sym, ap, subst, ◌∙◌, List, [], ◌∷◌, ◌++◌, arith}
use kns.Common.Lists.{length}
use kns.Ring.{Ring, Behavior}
use kns.Ring.Consume.{consume-Coherent}
use kns.Ring.Produce.{produce-Coherent}
use kns.Ring.Shared.{used, Producing, Consuming, Coherent}
use kns.Ring.Steps.{
  Producer, Consumer, System, Event, enqueues, dequeues, produces, consumes, enter_enqueue,
  enter_dequeue, step, run,
}
use kns.Ring.Valid.{IsValid, contents}
use kns.Ring.Window.{window, length-window}

-- Two threads that have not begun, on a ring that may hold pointers already.
abbrev pub start : Ring → System
start r = record {
  ring = r;
  producer = Producer.rests;
  consumer = Consumer.rests;
  sent = contents r;
  got = [];
  enqueued = [];
  dequeued = [];
}

pub start-Coherent : {k : ℕ} {r : Ring} → IsValid k r → Coherent k (start r)
start-Coherent {k} {r} v = record {
  shape = record {
    small = v.small;
    prod_size = v.prod_size;
    prod_mask = v.prod_mask;
    cons_size = v.cons_size;
    slots = v.slots;
    prod_word = omega (arith, v);
    cons_word = omega (arith, v);
    bounded = omega (arith, v);
  };
  producing = sym (v.prod_rests);
  consuming = sym (v.cons_rests);
  log = rw (v.prod_size);
}

with_producer :
    {k : ℕ} (s : System) (p : Producer)
    → Coherent k s
    → Producing k s.ring p
    → Coherent k (record s { producer = p })
with_producer s p c h = record {
  shape = c.shape;
  producing = h;
  consuming = c.consuming;
  log = c.log;
}

with_consumer :
    {k : ℕ} (s : System) (p : Consumer)
    → Coherent k s
    → Consuming k s.ring p
    → Coherent k (record s { consumer = p })
with_consumer s p c h = record {
  shape = c.shape;
  producing = c.producing;
  consuming = h;
  log = c.log;
}

enter_enqueue-Coherent :
    {k : ℕ} (s : System) (p : Producer) (obj_table : List ℕ) (b : Behavior)
    → Coherent k s
    → Producing k s.ring p
    → Coherent k (record s { producer = enter_enqueue p obj_table b })
enter_enqueue-Coherent s Producer.rests obj_table b c h = with_producer s _ c h
enter_enqueue-Coherent s (Producer.called xs a) obj_table b c h = with_producer s _ c h
enter_enqueue-Coherent s (Producer.loaded xs head free a) obj_table b c h = with_producer s _ c h
enter_enqueue-Coherent s (Producer.copying xs head free n i a) obj_table b c h =
    with_producer s _ c h

enter_dequeue-Coherent :
    {k : ℕ} (s : System) (p : Consumer) (obj_table : List ℕ) (b : Behavior)
    → Coherent k s
    → Consuming k s.ring p
    → Coherent k (record s { consumer = enter_dequeue p obj_table b })
enter_dequeue-Coherent s Consumer.rests obj_table b c h = with_consumer s _ c h
enter_dequeue-Coherent s (Consumer.called xs a) obj_table b c h = with_consumer s _ c h
enter_dequeue-Coherent s (Consumer.loaded xs head held a) obj_table b c h = with_consumer s _ c h
enter_dequeue-Coherent s (Consumer.copying xs head n i a) obj_table b c h = with_consumer s _ c h

step-Coherent : {k : ℕ} (s : System) (event : Event) → Coherent k s → Coherent k (step s event)
unfolding step
step-Coherent s (enqueues obj_table b) c =
    enter_enqueue-Coherent s s.producer obj_table b c c.producing
step-Coherent s (dequeues obj_table b) c =
    enter_dequeue-Coherent s s.consumer obj_table b c c.consuming
step-Coherent s produces c = produce-Coherent s s.producer c c.producing
step-Coherent s consumes c = consume-Coherent s s.consumer c c.consuming

pub run-Coherent :
    {k : ℕ} (s : System) (events : List Event) → Coherent k s → Coherent k (run s events)
unfolding run
run-Coherent s [] c = c
run-Coherent s (event ∷ events) c = run-Coherent (step s event) events (step-Coherent s event c)

-- From a valid ring, after any interleaving of the steps of one producer and one consumer, the
-- pointers that the ring held and those published since are, in order, the pointers that the
-- consumer's calls have returned and then those between the tails, which are fewer than the slots:
-- no pointer is lost, doubled, reordered or written over before it is read.
pub run-fifo :
    {k : ℕ} {r : Ring} (events : List Event)
    → IsValid k r
    → let s = run (start r) events in
      (s.sent ≡ s.got ++ contents s.ring) × (length (contents s.ring) < 2 ^ k)
run-fifo {k} {r} events v =
    let s : System = run (start r) events in
    let c : Coherent k s = run-Coherent (start r) events (start-Coherent v) in
    let size : 2 ^ k ≡ s.ring.prod.size = sym (c.shape.prod_size) in
    (
      c.log ∙ ap (λ m. s.got ++ window s.ring.ring m s.ring.cons.tail (used s.ring)) size,
      omega (
        arith,
        length-window s.ring.ring s.ring.prod.size s.ring.cons.tail (used s.ring),
        c.shape,
      ),
    )

-- When, after any interleaving of the steps of one producer and one consumer from a valid ring,
-- neither thread is in a call, the ring is valid again, so that what is shown of single calls holds
-- of the next ones.
pub run-IsValid :
    {k : ℕ} {r : Ring} (events : List Event)
    → IsValid k r
    → (run (start r) events).producer ≡ Producer.rests
    → (run (start r) events).consumer ≡ Consumer.rests
    → IsValid k (run (start r) events).ring
run-IsValid {k} {r} events v p q =
    let s : System = run (start r) events in
    let c : Coherent k s = run-Coherent (start r) events (start-Coherent v) in
    let head : s.ring.prod.head ≡ s.ring.prod.tail = subst (Producing k s.ring) p c.producing in
    let cons_head : s.ring.cons.head ≡ s.ring.cons.tail =
      subst (Consuming k s.ring) q c.consuming in
    record {
      small = c.shape.small;
      prod_size = c.shape.prod_size;
      prod_mask = c.shape.prod_mask;
      cons_size = c.shape.cons_size;
      slots = c.shape.slots;
      prod_word = omega (arith, c.shape);
      prod_rests = sym head;
      cons_word = omega (arith, c.shape);
      cons_rests = sym cons_head;
      bounded = rw (head, cons_head) c.shape.bounded;
    }
