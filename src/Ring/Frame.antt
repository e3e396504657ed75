-- ===== src/Ring/Frame.antt =====
-- What one thread's step on the ring of inc/kns/ring.h leaves of the other thread's part of the
-- invariant, and the reads and claims of the two threads.
use kns.Common.{
  ℕ, ◌+◌, ◌%◌, ◌^◌, ◌≤◌, ◌<◌, ◌≡◌, ◌∙◌, ◌⊎◌, inl, inr, List, arith, dec_lt, ℕ_discrete,
}
use kns.Common.Tests.{lt→ltb, le→ltb, eq→==, ne→==}
use kns.Common.Lists.{get_or}
use kns.Ring.{Ring, Prod, Cons, Behavior, fixed, variable, Ret, sub32, enqueue_room, dequeue_room}
use kns.Ring.Steps.{Producer, Consumer}
use kns.Ring.Shared.{used, Producing, Consuming}

pub Producing-cons :
    (k : ℕ) (p : Producer) (r : Ring) (c : Cons)
    → sub32 r.prod.tail c.tail ≤ used r
    → Producing k r p
    → Producing k (record r { cons = c }) p
Producing-cons k Producer.rests r c less h = h
Producing-cons k (Producer.called xs b) r c less h = h
Producing-cons k (Producer.loaded xs head free b) r c less (e, f, g) = (e, f, omega arith)
Producing-cons k (Producer.copying xs head free n i b) r c less h = record {
  head = h.head;
  from = h.from;
  fits = omega (arith, h);
  progress = h.progress;
  room = h.room;
  copied = h.copied;
}

pub Consuming-prod :
    (k : ℕ) (c : Consumer) (r : Ring) (p : Prod) (slots : List ℕ)
    → used r ≤ sub32 p.tail r.cons.tail
    → ((t : ℕ)
        → t < used r
        → get_or slots ((r.cons.tail + t) % 2 ^ k) 0 ≡ get_or r.ring ((r.cons.tail + t) % 2 ^ k) 0)
    → Consuming k r c
    → Consuming k (record r { prod = p; ring = slots }) c
Consuming-prod k Consumer.rests r p slots more same h = h
Consuming-prod k (Consumer.called xs b) r p slots more same h = h
Consuming-prod k (Consumer.loaded xs head held b) r p slots more same (e, f, g) =
    (e, f, omega arith)
Consuming-prod k (Consumer.copying xs head n i b) r p slots more same h = record {
  head = h.head;
  from = h.from;
  held = omega (arith, h);
  progress = h.progress;
  room = h.room;
  copied = λ t l. same t (omega (arith, h)) ∙ h.copied t l;
}

-- What a check for room can answer.
pub data Roomed (free n : ℕ) : (Ret ⊎ ℕ) → Type 0 where
  refused : (early : Ret) → Roomed free n (inl early)
  granted : (m : ℕ) → m ≤ free → m ≤ n → Roomed free n (inr m)

pub enqueue_room-Roomed : (free n : ℕ) (b : Behavior) → Roomed free n (enqueue_room free n b)
unfolding enqueue_room
enqueue_room-Roomed free n fixed = elim (dec_lt free n) [
  | yes over ↦ rw (lt→ltb free n over) (refused _)
  | no fits ↦ rw (le→ltb free n (omega arith)) (granted n (omega arith) (omega arith))
]
enqueue_room-Roomed free n variable = elim (dec_lt free n) [
  | yes over ↦ elim (ℕ_discrete free 0) [
    | yes full ↦ rw (lt→ltb free n over, eq→== free 0 full) (refused _)
    | no some ↦
        rw (lt→ltb free n over, ne→== free 0 some) (granted free (omega arith) (omega arith))
  ]
  | no fits ↦ rw (le→ltb free n (omega arith)) (granted n (omega arith) (omega arith))
]

pub dequeue_room-Roomed : (held n : ℕ) (b : Behavior) → Roomed held n (dequeue_room held n b)
unfolding dequeue_room
dequeue_room-Roomed free n fixed = elim (dec_lt free n) [
  | yes over ↦ rw (lt→ltb free n over) (refused _)
  | no fits ↦ rw (le→ltb free n (omega arith)) (granted n (omega arith) (omega arith))
]
dequeue_room-Roomed free n variable = elim (dec_lt free n) [
  | yes over ↦ elim (ℕ_discrete free 0) [
    | yes full ↦ rw (lt→ltb free n over, eq→== free 0 full) (refused _)
    | no some ↦
        rw (lt→ltb free n over, ne→== free 0 some) (granted free (omega arith) (omega arith))
  ]
  | no fits ↦ rw (le→ltb free n (omega arith)) (granted n (omega arith) (omega arith))
]
