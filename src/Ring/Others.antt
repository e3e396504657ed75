-- ===== src/Ring/Others.antt =====
-- A step of one thread on the ring of inc/kns/ring.h (`Ring.Steps`) leaves the other thread where it
-- is in its call, and the results of that thread's calls as they are.
use kns.Common.{ℕ, ◌≡◌, refl, ◌⊎◌, inl, inr, List, arith, dec_lt}
use kns.Common.Tests.{lt→ltb, le→ltb}
use kns.Common.Lists.{length}
use kns.Ring.{Behavior, Ret, enqueue_room, dequeue_room}
use kns.Ring.Steps.{
  Producer, Consumer, System, enqueue_claim, enqueue_copy, produce, dequeue_claim, dequeue_copy,
  consume,
}

module _ (s : System) where
  abbrev pub ProducerKept : System → Type 0
  ProducerKept s' = (s'.producer ≡ s.producer) × (s'.enqueued ≡ s.enqueued)

  abbrev pub ConsumerKept : System → Type 0
  ConsumerKept s' = (s'.consumer ≡ s.consumer) × (s'.dequeued ≡ s.dequeued)

  dequeue_claim-ProducerKept :
      (obj_table : List ℕ) (cons_head : ℕ) (b : Behavior) (answer : Ret ⊎ ℕ)
      → ProducerKept (dequeue_claim s obj_table cons_head b answer)
  unfolding dequeue_claim
  dequeue_claim-ProducerKept obj_table cons_head b (inl early) = (refl, refl)
  dequeue_claim-ProducerKept obj_table cons_head b (inr n) = (refl, refl)

  pub consume-others : (p : Consumer) → ProducerKept (consume s p)
  unfolding consume dequeue_copy
  consume-others Consumer.rests = (refl, refl)
  consume-others (Consumer.called obj_table b) = (refl, refl)
  consume-others (Consumer.loaded obj_table cons_head held b) =
      dequeue_claim-ProducerKept obj_table cons_head b (dequeue_room held (length obj_table) b)
  consume-others (Consumer.copying obj_table cons_head n i b) = elim (dec_lt i n) [
    | yes more ↦ rw (lt→ltb i n more, dequeue_copy) (refl, refl)
    | no all ↦ rw (le→ltb i n (omega arith), dequeue_copy) (refl, refl)
  ]

  enqueue_claim-ConsumerKept :
      (obj_table : List ℕ) (prod_head free : ℕ) (b : Behavior) (answer : Ret ⊎ ℕ)
      → ConsumerKept (enqueue_claim s obj_table prod_head free b answer)
  unfolding enqueue_claim
  enqueue_claim-ConsumerKept obj_table prod_head free b (inl early) = (refl, refl)
  enqueue_claim-ConsumerKept obj_table prod_head free b (inr n) = (refl, refl)

  pub produce-others : (p : Producer) → ConsumerKept (produce s p)
  unfolding produce enqueue_copy
  produce-others Producer.rests = (refl, refl)
  produce-others (Producer.called obj_table b) = (refl, refl)
  produce-others (Producer.loaded obj_table prod_head free b) =
      enqueue_claim-ConsumerKept obj_table prod_head free b (enqueue_room free (length obj_table) b)
  produce-others (Producer.copying obj_table prod_head free n i b) = elim (dec_lt i n) [
    | yes more ↦ rw (lt→ltb i n more, enqueue_copy) (refl, refl)
    | no all ↦ rw (le→ltb i n (omega arith), enqueue_copy) (refl, refl)
  ]
