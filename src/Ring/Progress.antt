-- ===== src/Ring/Progress.antt =====
-- The single-producer and single-consumer calls of inc/kns/ring.h return within a bounded number of
-- steps of their own thread, whatever the other thread does meanwhile.
use kns.Common.{ℕ, suc, ◌+◌, ◌-◌, ◌≤◌, ◌⊎◌, inl, inr, List, [], ◌∷◌, arith, dec_lt}
use kns.Common.Tests.{lt→ltb, le→ltb}
use kns.Common.Lists.{length}
use kns.Ring.{Behavior, Ret}
use kns.Ring.Frame.{Roomed, refused, granted, enqueue_room-Roomed, dequeue_room-Roomed}
use kns.Ring.Steps.{
  Producer, Consumer, System, Event, produces, consumes, enqueue_claim, enqueue_copy, produce,
  dequeue_claim, dequeue_copy, consume,
}

-- The number of its own steps that a thread's call still needs at most.
abbrev pub enqueue_left : Producer → ℕ
enqueue_left Producer.rests = 0
enqueue_left (Producer.called obj_table b) = length obj_table + 3
enqueue_left (Producer.loaded obj_table prod_head free b) = length obj_table + 2
enqueue_left (Producer.copying obj_table prod_head free n i b) = n - i + 1

abbrev pub dequeue_left : Consumer → ℕ
dequeue_left Consumer.rests = 0
dequeue_left (Consumer.called obj_table b) = length obj_table + 3
dequeue_left (Consumer.loaded obj_table cons_head held b) = length obj_table + 2
dequeue_left (Consumer.copying obj_table cons_head n i b) = n - i + 1

abbrev pub own_enqueue : Event → ℕ
own_enqueue produces = 1
own_enqueue event = 0

abbrev pub own_dequeue : Event → ℕ
own_dequeue consumes = 1
own_dequeue event = 0

abbrev pub produce_steps : List Event → ℕ
produce_steps [] = 0
produce_steps (event ∷ events) = own_enqueue event + produce_steps events

abbrev pub consume_steps : List Event → ℕ
consume_steps [] = 0
consume_steps (event ∷ events) = own_dequeue event + consume_steps events

-- A step in which a call that is under way ends or comes `spent` steps nearer to its end.
pub record Nearer (spent before after : ℕ) (results results' : List Ret) : Type 0 where
  pub never_fewer : length results ≤ length results'
  pub ends_or_nearer :
      (suc (length results) ≤ length results') ⊎ ((1 ≤ after) × (after + spent ≤ before))

module _ (s : System) where
  enqueue_claim-Nearer :
      (obj_table : List ℕ) (prod_head free : ℕ) (b : Behavior) (answer : Ret ⊎ ℕ)
      → Roomed free (length obj_table) answer
      → let s' = enqueue_claim s obj_table prod_head free b answer in
        Nearer 1 (length obj_table + 2) (enqueue_left s'.producer) s.enqueued s'.enqueued
  unfolding enqueue_claim
  enqueue_claim-Nearer obj_table prod_head free b _ (refused early) = record {
    never_fewer = omega arith;
    ends_or_nearer = inl (omega arith);
  }
  enqueue_claim-Nearer obj_table prod_head free b _ (granted n below asked) = record {
    never_fewer = omega arith;
    ends_or_nearer = inr (omega arith, omega arith);
  }

  enqueue_copy-Nearer :
      (obj_table : List ℕ) (prod_head free n i : ℕ) (b : Behavior)
      → let s' = enqueue_copy s obj_table prod_head free n i b in
        Nearer 1 (n - i + 1) (enqueue_left s'.producer) s.enqueued s'.enqueued
  unfolding enqueue_copy
  enqueue_copy-Nearer obj_table prod_head free n i b = elim (dec_lt i n) [
    | yes more ↦
        rw (lt→ltb i n more, enqueue_copy)
          (record { never_fewer = omega arith; ends_or_nearer = inr (omega arith, omega arith) })
    | no all ↦
        rw (le→ltb i n (omega arith), enqueue_copy)
          (record { never_fewer = omega arith; ends_or_nearer = inl (omega arith) })
  ]

  pub produce-Nearer :
      (p : Producer)
      → 1 ≤ enqueue_left p
      → let s' = produce s p in
        Nearer 1 (enqueue_left p) (enqueue_left s'.producer) s.enqueued s'.enqueued
  unfolding produce
  produce-Nearer Producer.rests h = absurd (omega arith)
  produce-Nearer (Producer.called obj_table b) h = record {
    never_fewer = omega arith;
    ends_or_nearer = inr (omega arith, omega arith);
  }
  produce-Nearer (Producer.loaded obj_table prod_head free b) h =
      enqueue_claim-Nearer obj_table prod_head free b _
        (enqueue_room-Roomed free (length obj_table) b)
  produce-Nearer (Producer.copying obj_table prod_head free n i b) h =
      enqueue_copy-Nearer obj_table prod_head free n i b

  dequeue_claim-Nearer :
      (obj_table : List ℕ) (cons_head held : ℕ) (b : Behavior) (answer : Ret ⊎ ℕ)
      → Roomed held (length obj_table) answer
      → let s' = dequeue_claim s obj_table cons_head b answer in
        Nearer 1 (length obj_table + 2) (dequeue_left s'.consumer) s.dequeued s'.dequeued
  unfolding dequeue_claim
  dequeue_claim-Nearer obj_table cons_head held b _ (refused early) = record {
    never_fewer = omega arith;
    ends_or_nearer = inl (omega arith);
  }
  dequeue_claim-Nearer obj_table cons_head held b _ (granted n below asked) = record {
    never_fewer = omega arith;
    ends_or_nearer = inr (omega arith, omega arith);
  }

  dequeue_copy-Nearer :
      (obj_table : List ℕ) (cons_head n i : ℕ) (b : Behavior)
      → let s' = dequeue_copy s obj_table cons_head n i b in
        Nearer 1 (n - i + 1) (dequeue_left s'.consumer) s.dequeued s'.dequeued
  unfolding dequeue_copy
  dequeue_copy-Nearer obj_table cons_head n i b = elim (dec_lt i n) [
    | yes more ↦
        rw (lt→ltb i n more, dequeue_copy)
          (record { never_fewer = omega arith; ends_or_nearer = inr (omega arith, omega arith) })
    | no all ↦
        rw (le→ltb i n (omega arith), dequeue_copy)
          (record { never_fewer = omega arith; ends_or_nearer = inl (omega arith) })
  ]

  pub consume-Nearer :
      (p : Consumer)
      → 1 ≤ dequeue_left p
      → let s' = consume s p in
        Nearer 1 (dequeue_left p) (dequeue_left s'.consumer) s.dequeued s'.dequeued
  unfolding consume
  consume-Nearer Consumer.rests h = absurd (omega arith)
  consume-Nearer (Consumer.called obj_table b) h = record {
    never_fewer = omega arith;
    ends_or_nearer = inr (omega arith, omega arith);
  }
  consume-Nearer (Consumer.loaded obj_table cons_head held b) h =
      dequeue_claim-Nearer obj_table cons_head held b _
        (dequeue_room-Roomed held (length obj_table) b)
  consume-Nearer (Consumer.copying obj_table cons_head n i b) h =
      dequeue_copy-Nearer obj_table cons_head n i b
