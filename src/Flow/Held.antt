-- ===== src/Flow/Held.antt =====
-- The abstract view of the packets that core/ethfg.c and inc/kns/ethqueue.h queue: three families
-- of lists, and what it means that a world holds them.
use kns.Common.{
  ℕ, ◌+◌, ◌*◌, ◌≡◌, ◌≢◌, sym, subst, List, [], ◌∷◌, ◌++◌, true, false, arith, ℕ_discrete, inl, inr,
  ◌∙◌,
}
use kns.Common.Tests.{eq→==, ne→==, Bool-cases}
use kns.Common.Int.{pos}
use kns.Common.Lists.{length}
use kns.Common.Links.{Links, has, has-append}
use kns.Flow.Queue.{Queue, IsQueue, enqueue, enqueue-IsQueue, enqueue-Chain}
use kns.Flow.World.{World, RxQueue, update}

-- For each CPU, the packets handed over to it and those it has set aside; and the packets of one
-- receive queue.
pub record Held : Type 0 where
  pub remote : ℕ → List ℕ
  pub local : ℕ → List ℕ
  pub rx : List ℕ

-- Numbers for the queues: a packet stands in one of them at most.
abbrev pub rx_place : ℕ
rx_place = 0

abbrev pub remote_place : ℕ → ℕ
remote_place cpu = 2 * cpu + 1

abbrev pub local_place : ℕ → ℕ
local_place cpu = 2 * cpu + 2

-- The queues hold the packets of `h`, and `place` tells for every queued packet in which.
pub record Holds (w : World) (rxq : RxQueue) (h : Held) (place : ℕ → ℕ) : Type 0 where
  pub remote_queue : (c : ℕ) → IsQueue w.next (w.remote c) (h.remote c)
  pub local_queue : (c : ℕ) → IsQueue w.next (w.local c) (h.local c)
  pub rx_queue : IsQueue w.next rxq.pending h.rx
  pub rx_len : rxq.len ≡ pos (length h.rx)
  pub remote_placed : (c a : ℕ) → has a (h.remote c) ≡ true → place a ≡ remote_place c
  pub local_placed : (c a : ℕ) → has a (h.local c) ≡ true → place a ≡ local_place c
  pub rx_placed : (a : ℕ) → has a h.rx ≡ true → place a ≡ rx_place

-- The packet is in none of the queues.
pub record IsFresh (pkt : ℕ) (h : Held) : Type 0 where
  pub some_pkt : pkt ≢ 0
  pub remote_out : (c : ℕ) → has pkt (h.remote c) ≡ false
  pub local_out : (c : ℕ) → has pkt (h.local c) ≡ false
  pub rx_out : has pkt h.rx ≡ false

-- Two lists whose members have different places share none.
pub apart :
    (place : ℕ → ℕ) (i j : ℕ) (xs ys : List ℕ)
    → i ≢ j
    → ((a : ℕ) → has a xs ≡ true → place a ≡ i)
    → ((a : ℕ) → has a ys ≡ true → place a ≡ j)
    → (a : ℕ) → has a xs ≡ true
    → has a ys ≡ false
apart place i j xs ys ne px py a h = elim (Bool-cases (has a ys)) [
  | inl m ↦ absurd (ne (sym (px a h) ∙ py a m))
  | inr out ↦ out
]

-- An append to one queue leaves every other queue as it is.
pub enqueue-other :
    (next : Links) (q : Queue) (pkt : ℕ) (xs : List ℕ) (p : Queue) (ys : List ℕ)
    → IsQueue next q xs
    → ((a : ℕ) → has a xs ≡ true → has a ys ≡ false)
    → has pkt ys ≡ false
    → IsQueue next p ys
    → IsQueue (enqueue q pkt next).1 p ys
enqueue-other next q pkt xs p ys hq disjoint out hp = record {
  chain = enqueue-Chain next q pkt xs p.head ys hq disjoint out hp.chain;
  last = hp.last;
  distinct = hp.distinct;
}

-- A property of all entries of two arrays after a write to the same entry of both.
pub update-both {ℓ κ ι} :
    {A : Type ℓ} {B : Type κ} (P : ℕ → A → B → Type ι) (f : ℕ → A) (g : ℕ → B) (i : ℕ) (a : A)
    (b : B)
    → P i a b
    → ((j : ℕ) → j ≢ i → P j (f j) (g j))
    → (j : ℕ) → P j (update f i a j) (update g i b j)
update-both P f g i a b here there j = elim (ℕ_discrete j i) [
  | yes e ↦ rw (eq→== j i e) (subst (λ k. P k a b) (sym e) here)
  | no ne ↦ rw (ne→== j i ne) (there j ne)
]

pub placed-snoc :
    (place : ℕ → ℕ) (pkt i : ℕ) (xs : List ℕ)
    → ((a : ℕ) → has a xs ≡ true → place a ≡ i)
    → (a : ℕ) → has a (xs ++ pkt ∷ []) ≡ true
    → update place pkt i a ≡ i
placed-snoc place pkt i xs h a m = ground (arith, has-append a xs (pkt ∷ []), h a)

pub placed-keep :
    (place : ℕ → ℕ) (pkt i j : ℕ) (xs : List ℕ)
    → has pkt xs ≡ false
    → ((a : ℕ) → has a xs ≡ true → place a ≡ i)
    → (a : ℕ) → has a xs ≡ true
    → update place pkt j a ≡ i
placed-keep place pkt i j xs out h a m = elim (ℕ_discrete a pkt) [
  | yes e ↦ ground (arith, e, out)
  | no ne ↦ rw (ne→== a pkt ne) (h a m)
]

-- The places after an append to one queue of a family.
pub placed-both :
    (place : ℕ → ℕ) (number : ℕ → ℕ) (pkt : ℕ) (lists : ℕ → List ℕ) (t : ℕ)
    → ((c : ℕ) → has pkt (lists c) ≡ false)
    → ((c a : ℕ) → has a (lists c) ≡ true → place a ≡ number c)
    → (c a : ℕ) → has a (update lists t (lists t ++ pkt ∷ []) c) ≡ true
    → update place pkt (number t) a ≡ number c
placed-both place number pkt lists t out h c = elim (ℕ_discrete c t) [
  | yes e ↦ rw (eq→== c t e, e) (placed-snoc place pkt (number t) (lists t) (h t))
  | no ne ↦ rw (ne→== c t ne) (placed-keep place pkt (number c) (number t) (lists c) (out c) (h c))
]

-- A queue that holds packets of another place keeps them.
pub enqueue-apart :
    (place : ℕ → ℕ) (next : Links) (q : Queue) (pkt i : ℕ) (xs : List ℕ) (p : Queue) (j : ℕ)
    (ys : List ℕ)
    → IsQueue next q xs
    → ((a : ℕ) → has a xs ≡ true → place a ≡ i)
    → i ≢ j
    → ((a : ℕ) → has a ys ≡ true → place a ≡ j)
    → has pkt ys ≡ false
    → IsQueue next p ys
    → IsQueue (enqueue q pkt next).1 p ys
enqueue-apart place next q pkt i xs p j ys hq px ne py out hp =
    enqueue-other next q pkt xs p ys hq (apart place i j xs ys ne px py) out hp

-- An append to one queue of a family, whose queues have different numbers.
pub enqueue-family :
    (place : ℕ → ℕ) (number : ℕ → ℕ) (next : Links) (pkt : ℕ) (queues : ℕ → Queue)
    (lists : ℕ → List ℕ) (t : ℕ)
    → ((c d : ℕ) → number c ≡ number d → c ≡ d)
    → pkt ≢ 0
    → ((c : ℕ) → has pkt (lists c) ≡ false)
    → ((c a : ℕ) → has a (lists c) ≡ true → place a ≡ number c)
    → ((c : ℕ) → IsQueue next (queues c) (lists c))
    → (c : ℕ)
    → IsQueue
        (enqueue (queues t) pkt next).1
        (update queues t ((enqueue (queues t) pkt next).0) c)
        (update lists t (lists t ++ pkt ∷ []) c)
enqueue-family place number next pkt queues lists t inj some_pkt out placed hq =
    update-both (λ c q xs. IsQueue (enqueue (queues t) pkt next).1 q xs) queues lists t
      ((enqueue (queues t) pkt next).0) (lists t ++ pkt ∷ [])
      (enqueue-IsQueue next (queues t) pkt (lists t) (hq t) (out t) some_pkt)
      (λ c ne.
        enqueue-apart place next (queues t) pkt (number t) (lists t) (queues c) (number c) (lists c)
          (hq t) (placed t) (λ e. ne (sym (inj t c e))) (placed c) (out c) (hq c))
