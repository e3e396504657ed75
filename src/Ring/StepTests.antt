-- ===== src/Ring/StepTests.antt =====
-- Runs of two threads on the ring of inc/kns/ring.h, and the theorems on them at such runs.
use kns.Common.{ℕ, ◌-◌, ◌≤◌, ◌<◌, ◌^◌, ◌≡◌, refl, true, List, [], ◌∷◌, ◌++◌, arith}
use kns.Common.Lists.{length, replicate}
use kns.Common.Tests.{◌==◌, if◌then◌else◌}
use kns.Ring.{Ring, fixed, variable, ret, enqueue_room, dequeue_room, sp_do_enqueue}
use kns.Ring.Alone.{run-sp_do_enqueue}
use kns.Ring.Interleave.{start, run-fifo, run-IsValid}
use kns.Ring.Race.{race-loses}
use kns.Ring.RaceRounds.{by_turns}
use kns.Ring.RaceSteps.{called, returned, IsDocumented, race}
use kns.Ring.Steps.{
  Producer, Consumer, Event, enqueues, dequeues, produces, consumes, enqueue_claim, enqueue_copy,
  dequeue_claim, dequeue_copy, produce, consume, step, run,
}
use kns.Ring.Valid.{IsValid, contents}
use kns.Ring.WaitFree.{run-wait_free}

-- Two objects in four slots, the producer's index at 1 after its wrap.
abbrev wrapped : Ring
wrapped = record {
  flags = 3;
  prod = record { watermark = 4; sp_enqueue = true; size = 4; mask = 3; head = 1; tail = 1 };
  cons = record { sc_dequeue = true; size = 4; mask = 3; head = 2 ^ 32 - 1; tail = 2 ^ 32 - 1 };
  ring = 12 ∷ 0 ∷ 0 ∷ 11 ∷ [];
}

wrapped-IsValid : IsValid 2 wrapped
wrapped-IsValid = omega arith

-- The consumer takes two objects while the producer, which read the indices before, puts in one.
abbrev mixed : List Event
mixed =
    enqueues (13 ∷ []) fixed
    ∷ dequeues (0 ∷ 0 ∷ []) fixed
    ∷ produces
    ∷ consumes
    ∷ produces
    ∷ consumes
    ∷ consumes
    ∷ produces
    ∷ consumes
    ∷ produces
    ∷ consumes
    ∷ []

mixed_got : (run (start wrapped) mixed).got ≡ 11 ∷ 12 ∷ []
unfolding run step produce consume enqueue_claim enqueue_copy dequeue_claim dequeue_copy
    enqueue_room dequeue_room
mixed_got = refl

mixed_left : contents (run (start wrapped) mixed).ring ≡ 13 ∷ []
unfolding run step produce consume enqueue_claim enqueue_copy dequeue_claim dequeue_copy
    enqueue_room dequeue_room
mixed_left = refl

run-fifo_example :
    ((run (start wrapped) mixed).sent
      ≡ (run (start wrapped) mixed).got ++ contents (run (start wrapped) mixed).ring)
    × (length (contents (run (start wrapped) mixed).ring) < 2 ^ 2)
run-fifo_example = run-fifo mixed wrapped-IsValid

mixed_rests :
    ((run (start wrapped) mixed).producer ≡ Producer.rests)
    × ((run (start wrapped) mixed).consumer ≡ Consumer.rests)
unfolding run step produce consume enqueue_claim enqueue_copy dequeue_claim dequeue_copy
    enqueue_room dequeue_room
mixed_rests = (refl, refl)

run-IsValid_example : IsValid 2 (run (start wrapped) mixed).ring
run-IsValid_example = run-IsValid mixed wrapped-IsValid mixed_rests.0 mixed_rests.1

-- Four steps of the producer and five of the consumer.
abbrev steps : List Event
steps = replicate 4 produces ++ replicate 5 consumes

run-wait_free_example :
    (1
      ≤ length
          (run
            (start wrapped)
            (enqueues (13 ∷ []) fixed ∷ dequeues (0 ∷ 0 ∷ []) variable ∷ steps)).enqueued)
    × (1
        ≤ length
            (run
              (start wrapped)
              (enqueues (13 ∷ []) fixed ∷ dequeues (0 ∷ 0 ∷ []) variable ∷ steps)).dequeued)
run-wait_free_example =
    run-wait_free (start wrapped) (13 ∷ []) (0 ∷ 0 ∷ []) fixed variable steps refl refl
      (omega arith) (omega arith)

run-sp_do_enqueue_example :
    let s = run (start wrapped) (enqueues (13 ∷ []) fixed ∷ replicate 4 produces) in
    let (result, r') = sp_do_enqueue wrapped (13 ∷ []) 1 fixed in
    (s.ring ≡ r') × (s.enqueued ≡ result ∷ []) × (s.producer ≡ Producer.rests)
run-sp_do_enqueue_example = run-sp_do_enqueue (13 ∷ []) fixed 4 wrapped-IsValid (omega arith)

abbrev kernel_cmpxchg : (word old new : ℕ) → ℕ × ℕ
kernel_cmpxchg word old new = (word, if word == old then new else word)

kernel_cmpxchg-IsDocumented : IsDocumented kernel_cmpxchg
kernel_cmpxchg-IsDocumented word old new = refl

-- Two pointers are handed over, and the ring holds one of them.
race-loses_example :
    let s =
      race kernel_cmpxchg
        (record { ring = wrapped; first = called (13 ∷ []) fixed; second = called (14 ∷ []) fixed })
        (by_turns 5) in
    (s.first ≡ returned (ret 0))
    × (s.second ≡ returned (ret 0))
    × (contents s.ring ≡ 11 ∷ 12 ∷ 14 ∷ [])
race-loses_example =
    race-loses kernel_cmpxchg kernel_cmpxchg-IsDocumented (13 ∷ []) (14 ∷ []) fixed wrapped-IsValid
      refl (omega arith) (omega arith) (omega arith) (omega arith)
