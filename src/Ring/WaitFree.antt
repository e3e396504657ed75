-- ===== src/Ring/WaitFree.antt =====
-- How many steps a call of the single-producer enqueue or the single-consumer dequeue of
-- inc/kns/ring.h takes at most while the other thread runs too.
use kns.Common.{ℕ, suc, ◌+◌, ◌≤◌, ◌≡◌, refl, sym, subst, ap₂, inl, inr, List, [], ◌∷◌, arith}
use kns.Common.Lists.{length}
use kns.Ring.{Behavior}
use kns.Ring.Others.{produce-others, consume-others}
use kns.Ring.Progress.{
  enqueue_left, dequeue_left, own_enqueue, own_dequeue, produce_steps, consume_steps, Nearer,
  produce-Nearer, consume-Nearer,
}
use kns.Ring.Steps.{
  Producer, Consumer, System, Event, enqueues, dequeues, produces, consumes, produce, consume,
  enter_enqueue, enter_dequeue, step, run,
}

enter_enqueue-keeps :
    (p : Producer) (obj_table : List ℕ) (b : Behavior)
    → 1 ≤ enqueue_left p
    → enter_enqueue p obj_table b ≡ p
enter_enqueue-keeps Producer.rests obj_table b h = absurd (omega arith)
enter_enqueue-keeps (Producer.called xs a) obj_table b h = refl
enter_enqueue-keeps (Producer.loaded xs head free a) obj_table b h = refl
enter_enqueue-keeps (Producer.copying xs head free n i a) obj_table b h = refl

enter_dequeue-keeps :
    (p : Consumer) (obj_table : List ℕ) (b : Behavior)
    → 1 ≤ dequeue_left p
    → enter_dequeue p obj_table b ≡ p
enter_dequeue-keeps Consumer.rests obj_table b h = absurd (omega arith)
enter_dequeue-keeps (Consumer.called xs a) obj_table b h = refl
enter_dequeue-keeps (Consumer.loaded xs head held a) obj_table b h = refl
enter_dequeue-keeps (Consumer.copying xs head n i a) obj_table b h = refl

step-enqueue :
    (s : System) (event : Event)
    → 1 ≤ enqueue_left s.producer
    → let s' = step s event in
      Nearer
        (own_enqueue event)
        (enqueue_left s.producer)
        (enqueue_left s'.producer)
        s.enqueued
        s'.enqueued
unfolding step
step-enqueue s (enqueues obj_table b) h =
    rw (enter_enqueue-keeps s.producer obj_table b h)
      (record { never_fewer = omega arith; ends_or_nearer = inr (omega arith, omega arith) })
step-enqueue s (dequeues obj_table b) h = record {
  never_fewer = omega arith;
  ends_or_nearer = inr (omega arith, omega arith);
}
step-enqueue s produces h = produce-Nearer s s.producer h
step-enqueue s consumes h =
    rw ((consume-others s s.consumer).0, (consume-others s s.consumer).1)
      (record { never_fewer = omega arith; ends_or_nearer = inr (omega arith, omega arith) })

step-dequeue :
    (s : System) (event : Event)
    → 1 ≤ dequeue_left s.consumer
    → let s' = step s event in
      Nearer
        (own_dequeue event)
        (dequeue_left s.consumer)
        (dequeue_left s'.consumer)
        s.dequeued
        s'.dequeued
unfolding step
step-dequeue s (dequeues obj_table b) h =
    rw (enter_dequeue-keeps s.consumer obj_table b h)
      (record { never_fewer = omega arith; ends_or_nearer = inr (omega arith, omega arith) })
step-dequeue s (enqueues obj_table b) h = record {
  never_fewer = omega arith;
  ends_or_nearer = inr (omega arith, omega arith);
}
step-dequeue s consumes h = consume-Nearer s s.consumer h
step-dequeue s produces h =
    rw ((produce-others s s.producer).0, (produce-others s s.producer).1)
      (record { never_fewer = omega arith; ends_or_nearer = inr (omega arith, omega arith) })

-- No result is taken back, in a call or out of one.
produce-never_fewer :
    (s : System) (p : Producer) → length s.enqueued ≤ length (produce s p).enqueued
unfolding produce
produce-never_fewer s Producer.rests = omega arith
produce-never_fewer s (Producer.called xs b) = omega arith
produce-never_fewer s (Producer.loaded xs head free b) =
    (produce-Nearer s (Producer.loaded xs head free b) (omega arith)).never_fewer
produce-never_fewer s (Producer.copying xs head free n i b) =
    (produce-Nearer s (Producer.copying xs head free n i b) (omega arith)).never_fewer

consume-never_fewer :
    (s : System) (p : Consumer) → length s.dequeued ≤ length (consume s p).dequeued
unfolding consume
consume-never_fewer s Consumer.rests = omega arith
consume-never_fewer s (Consumer.called xs b) = omega arith
consume-never_fewer s (Consumer.loaded xs head held b) =
    (consume-Nearer s (Consumer.loaded xs head held b) (omega arith)).never_fewer
consume-never_fewer s (Consumer.copying xs head n i b) =
    (consume-Nearer s (Consumer.copying xs head n i b) (omega arith)).never_fewer

step-never_fewer :
    (s : System) (event : Event)
    → (length s.enqueued ≤ length (step s event).enqueued)
      × (length s.dequeued ≤ length (step s event).dequeued)
unfolding step
step-never_fewer s (enqueues obj_table b) = (omega arith, omega arith)
step-never_fewer s (dequeues obj_table b) = (omega arith, omega arith)
step-never_fewer s produces =
    (produce-never_fewer s s.producer, rw (produce-others s s.producer).1 (omega arith))
step-never_fewer s consumes =
    (rw (consume-others s s.consumer).1 (omega arith), consume-never_fewer s s.consumer)

run-never_fewer :
    (s : System) (events : List Event)
    → (length s.enqueued ≤ length (run s events).enqueued)
      × (length s.dequeued ≤ length (run s events).dequeued)
unfolding run
run-never_fewer s [] = (omega arith, omega arith)
run-never_fewer s (event ∷ events) =
    let first = step-never_fewer s event in
    let later = run-never_fewer (step s event) events in
    (omega (arith, first, later), omega (arith, first, later))

enqueue-ends :
    (s : System) (events : List Event)
    → 1 ≤ enqueue_left s.producer
    → enqueue_left s.producer ≤ produce_steps events
    → suc (length s.enqueued) ≤ length (run s events).enqueued
unfolding run
enqueue-ends s [] under_way enough = absurd (omega arith)
enqueue-ends s (event ∷ events) under_way enough =
    let near = step-enqueue s event under_way in
    elim near.ends_or_nearer [
      | inl ends ↦ omega (arith, (run-never_fewer (step s event) events).0)
      | inr (still, less) ↦
          let rest = enqueue-ends (step s event) events still (omega (arith, less)) in
          omega (arith, rest, near.never_fewer)
    ]

dequeue-ends :
    (s : System) (events : List Event)
    → 1 ≤ dequeue_left s.consumer
    → dequeue_left s.consumer ≤ consume_steps events
    → suc (length s.dequeued) ≤ length (run s events).dequeued
unfolding run
dequeue-ends s [] under_way enough = absurd (omega arith)
dequeue-ends s (event ∷ events) under_way enough =
    let near = step-dequeue s event under_way in
    elim near.ends_or_nearer [
      | inl ends ↦ omega (arith, (run-never_fewer (step s event) events).1)
      | inr (still, less) ↦
          let rest = dequeue-ends (step s event) events still (omega (arith, less)) in
          omega (arith, rest, near.never_fewer)
    ]

-- From any state of the ring in which the two threads begin a call each, an enqueue of `n` objects
-- has returned once the producer has made `n + 3` steps and a dequeue into a table of `m` entries
-- once the consumer has made `m + 3`, however the steps of the two are interleaved: neither thread
-- waits for the other.
pub run-wait_free :
    (s : System) (obj_table table : List ℕ) (a b : Behavior) (events : List Event)
    → s.producer ≡ Producer.rests
    → s.consumer ≡ Consumer.rests
    → length obj_table + 3 ≤ produce_steps events
    → length table + 3 ≤ consume_steps events
    → let s' = run s (enqueues obj_table a ∷ dequeues table b ∷ events) in
      (suc (length s.enqueued) ≤ length s'.enqueued)
      × (suc (length s.dequeued) ≤ length s'.dequeued)
unfolding run step
run-wait_free s obj_table table a b events p q enough enough' =
    let begun : System = record s {
      producer = Producer.called obj_table a;
      consumer = Consumer.called table b;
    } in
    let same : step (step s (enqueues obj_table a)) (dequeues table b) ≡ begun =
      ap₂
        (λ x y. record s {
          producer = enter_enqueue x obj_table a;
          consumer = enter_dequeue y table b;
        })
        p q in
    subst
      (λ x.
        (suc (length s.enqueued) ≤ length (run x events).enqueued)
        × (suc (length s.dequeued) ≤ length (run x events).dequeued))
      (sym same)
      (
        enqueue-ends begun events (omega arith) enough,
        dequeue-ends begun events (omega arith) enough',
      )
