-- ===== src/Ring/Tests.antt =====
-- Runs of the ring of inc/kns/ring.h, and its theorems at a ring of four slots whose indices are
-- about to wrap at 2 ^ 32.
use kns.Common.{◌-◌, ◌^◌, ◌≡◌, refl, true, false, [], ◌∷◌, some, arith}
use kns.Common.Bug.{done}
use kns.Ring.{Ring, fixed, variable, ret, sp_do_enqueue, sc_do_dequeue, ring_create, dequeue_room}
use kns.Ring.MultiConsumer.{mc_do_dequeue-sc}
use kns.Ring.MultiOps.{takes, mc_do_dequeue, returns, mp_do_enqueue}
use kns.Ring.Copy.{dequeue_ptrs, singles, quads, rest, unrolled}
use kns.Ring.Valid.{IsValid, contents, enqueue_queue, dequeue_queue}
use kns.Ring.Single.{sp_do_enqueue-refines}
use kns.Ring.Consumer.{Dequeued, sc_do_dequeue-refines}
use kns.Ring.Multi.{mp_do_enqueue-sp}
use kns.Ring.Create.{ring_create-IsValid}

-- Two objects held, the producer's index at 0 after its wrap.
abbrev wrapping : Ring
wrapping = record {
  flags = 3;
  prod = record { watermark = 4; sp_enqueue = true; size = 4; mask = 3; head = 1; tail = 1 };
  cons = record { sc_dequeue = true; size = 4; mask = 3; head = 2 ^ 32 - 1; tail = 2 ^ 32 - 1 };
  ring = 12 ∷ 0 ∷ 0 ∷ 11 ∷ [];
}

wrapping-IsValid : IsValid 2 wrapping
wrapping-IsValid = omega arith

wrapping-contents : contents wrapping ≡ 11 ∷ 12 ∷ []
wrapping-contents = refl

sp_do_enqueue-refines_example :
    let (s, r') = sp_do_enqueue wrapping (13 ∷ 14 ∷ []) 1 fixed in
    ((s, contents r') ≡ enqueue_queue 3 4 fixed (11 ∷ 12 ∷ []) (13 ∷ [])) × IsValid 2 r'
sp_do_enqueue-refines_example =
    sp_do_enqueue-refines (13 ∷ 14 ∷ []) 1 fixed wrapping-IsValid (omega arith)

enqueue_queue_fits : enqueue_queue 3 4 fixed (11 ∷ 12 ∷ []) (13 ∷ []) ≡ (ret 0, 11 ∷ 12 ∷ 13 ∷ [])
unfolding enqueue_queue
enqueue_queue_fits = refl

sc_do_dequeue-refines_example :
    Dequeued 2
      (0 ∷ 0 ∷ 7 ∷ [])
      (sc_do_dequeue wrapping (0 ∷ 0 ∷ 7 ∷ []) 3 variable)
      (dequeue_queue variable (11 ∷ 12 ∷ []) 3)
sc_do_dequeue-refines_example =
    sc_do_dequeue-refines (0 ∷ 0 ∷ 7 ∷ []) 3 variable wrapping-IsValid (omega arith)

dequeue_run : (sc_do_dequeue wrapping (0 ∷ 0 ∷ 7 ∷ []) 3 variable).1 ≡ 11 ∷ 12 ∷ 7 ∷ []
unfolding sc_do_dequeue dequeue_room dequeue_ptrs singles quads rest unrolled
dequeue_run = refl

mp_do_enqueue-sp_example :
    mp_do_enqueue 2 wrapping (13 ∷ []) 1 variable
    ≡ (let (s, r') = sp_do_enqueue wrapping (13 ∷ []) 1 variable in returns s r')
mp_do_enqueue-sp_example =
    mp_do_enqueue-sp 0 (13 ∷ []) 1 variable wrapping-IsValid (omega arith) (omega arith)

ring_create-IsValid_example :
    (r : Ring) × (ring_create false true 4 3 ≡ done (some r))
    × IsValid 2 r
    × (contents r ≡ [])
    × (r.prod.watermark ≡ 4)
ring_create-IsValid_example = ring_create-IsValid 2 3 (omega arith)

mc_do_dequeue-sc_example :
    mc_do_dequeue 2 wrapping (0 ∷ []) 1 fixed
    ≡ (let (s, out, r') = sc_do_dequeue wrapping (0 ∷ []) 1 fixed in takes s out r')
mc_do_dequeue-sc_example =
    mc_do_dequeue-sc 0 (0 ∷ []) 1 fixed wrapping-IsValid (omega arith) (omega arith)

-- Two objects in a ring whose consumer has never moved.
abbrev unread : Ring
unread = record {
  flags = 0;
  prod = record { watermark = 4; sp_enqueue = false; size = 4; mask = 3; head = 2; tail = 2 };
  cons = record { sc_dequeue = false; size = 4; mask = 3; head = 0; tail = 0 };
  ring = 11 ∷ 12 ∷ 0 ∷ 0 ∷ [];
}
