-- ===== src/Flow/Queue.antt =====
-- `struct queue` and `enqueue` of core/ethfg.c: packets linked through `next`, with both ends known.
use kns.Common.{ℕ, ◌≡◌, ◌≢◌, refl, List, [], ◌∷◌, ◌++◌, true, false, arith}
use kns.Common.Tests.{◌==◌, if◌then◌else◌, eq→==, ne→==}
use kns.Common.Links.{Links, null, set_link, has, Chain, Distinct, Chain-set_link, has-append}

pub record Queue : Type 0 where
  pub head : ℕ
  pub tail : ℕ

abbrev pub empty_queue : Queue
empty_queue = record { head = null; tail = null }

-- `enqueue(q, pkt)`: the new queue, and the `next` of every packet.
unfoldable pub enqueue : Queue → ℕ → Links → Queue × Links
enqueue q pkt next =
    let cut = set_link next pkt null in
    if q.head == null
    then (record { head = pkt; tail = pkt }, cut)
    else (record q { tail = pkt }, set_link cut q.tail pkt)

-- `t` is the last of `xs`, if there is one.
abbrev pub IsLast : ℕ → List ℕ → Type 0
IsLast t [] = Unit
IsLast t (x ∷ []) = t ≡ x
IsLast t (x ∷ y ∷ xs) = IsLast t (y ∷ xs)

-- The queue holds the packets `xs`, first to last.
pub record IsQueue (next : Links) (q : Queue) (xs : List ℕ) : Type 0 where
  pub chain : Chain next q.head xs
  pub last : IsLast q.tail xs
  pub distinct : Distinct xs

pub has-last : (t : ℕ) (x : ℕ) (xs : List ℕ) → IsLast t (x ∷ xs) → has t (x ∷ xs) ≡ true
has-last t x [] h = ground arith
has-last t x (y ∷ xs) h = ground (arith, has-last t y xs)

-- Hanging `b` behind the last node of a chain makes the chain one longer.
pub Chain-snoc :
    (next : Links) (t b p : ℕ) (xs : List ℕ) (x : ℕ)
    → IsLast t (x ∷ xs)
    → Distinct (x ∷ xs)
    → has b (x ∷ xs) ≡ false
    → b ≢ 0
    → Chain next p (x ∷ xs)
    → Chain (set_link (set_link next b 0) t b) p ((x ∷ xs) ++ b ∷ [])
Chain-snoc next t b p [] x last d out some_b c = ground arith
Chain-snoc next t b p (y ∷ xs) x last d out some_b c =
    ground (arith, has-last t y xs, Chain-snoc next t b (next x) xs y)

pub IsLast-snoc : (b : ℕ) (xs : List ℕ) → IsLast b (xs ++ b ∷ [])
IsLast-snoc b [] = refl
IsLast-snoc b (x ∷ []) = refl
IsLast-snoc b (x ∷ y ∷ xs) = IsLast-snoc b (y ∷ xs)

pub Distinct-snoc : (b : ℕ) (xs : List ℕ) → Distinct xs → has b xs ≡ false → Distinct (xs ++ b ∷ [])
Distinct-snoc b [] d out = (refl, tt)
Distinct-snoc b (x ∷ xs) d out = ground (arith, Distinct-snoc b xs, has-append x xs (b ∷ []))

-- `enqueue` appends, and leaves alone every chain that shares no packet with the queue.
pub enqueue-IsQueue :
    (next : Links) (q : Queue) (pkt : ℕ) (xs : List ℕ)
    → IsQueue next q xs
    → has pkt xs ≡ false
    → pkt ≢ 0
    → IsQueue (enqueue q pkt next).1 (enqueue q pkt next).0 (xs ++ pkt ∷ [])
unfolding enqueue
enqueue-IsQueue next q pkt [] h out some_pkt =
    rw (eq→== q.head 0 h.chain, enqueue)
      (record { chain = ground arith; last = refl; distinct = (refl, tt) })
enqueue-IsQueue next q pkt (x ∷ xs) h out some_pkt =
    rw (ne→== q.head 0 (ground arith), enqueue)
      (record {
        chain = Chain-snoc next q.tail pkt q.head xs x h.last h.distinct out some_pkt h.chain;
        last = IsLast-snoc pkt (x ∷ xs);
        distinct = Distinct-snoc pkt (x ∷ xs) h.distinct out;
      })

pub enqueue-Chain :
    (next : Links) (q : Queue) (pkt : ℕ) (xs : List ℕ) (p : ℕ) (ys : List ℕ)
    → IsQueue next q xs
    → ((a : ℕ) → has a xs ≡ true → has a ys ≡ false)
    → has pkt ys ≡ false
    → Chain next p ys
    → Chain (enqueue q pkt next).1 p ys
unfolding enqueue
enqueue-Chain next q pkt [] p ys h apart out c =
    rw (eq→== q.head 0 h.chain, enqueue) (Chain-set_link next pkt 0 p ys out c)
enqueue-Chain next q pkt (x ∷ xs) p ys h apart out c =
    rw (ne→== q.head 0 (ground arith), enqueue)
      (Chain-set_link (set_link next pkt 0) q.tail pkt p ys
        (apart q.tail (has-last q.tail x xs h.last)) (Chain-set_link next pkt 0 p ys out c))
