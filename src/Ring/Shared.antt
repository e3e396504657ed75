-- ===== src/Ring/Shared.antt =====
-- What holds of the ring of inc/kns/ring.h while its producer and its consumer are at work
-- (`Ring.Steps`), between any two of their steps.
use native.Mathlib.Nat.{mod-lt, mod-add-mod, one-le-pow, pow-le-pow_right}
use kns.Common.{ℕ, ◌+◌, ◌-◌, ◌%◌, ◌^◌, ◌≤◌, ◌<◌, ◌≡◌, ◌≢◌, inl, inr, List, ◌++◌, arith}
use kns.Common.Bits.{bit_and-mask}
use kns.Common.Lists.{length, get_or}
use kns.Ring.{Ring, add32, sub32}
use kns.Ring.CopyLaws.{mod_cases}
use kns.Ring.Steps.{Producer, Consumer, System, slot}
use kns.Ring.Window.{window}

-- the number of published pointers that the consumer has not let go of
abbrev pub used : Ring → ℕ
used r = sub32 r.prod.tail r.cons.tail

pub record Shape (k : ℕ) (r : Ring) : Type 0 where
  pub small : k ≤ 31
  pub prod_size : r.prod.size ≡ 2 ^ k
  pub prod_mask : r.prod.mask ≡ 2 ^ k - 1
  pub cons_size : r.cons.size ≡ 2 ^ k
  pub slots : length r.ring ≡ 2 ^ k
  pub prod_word : r.prod.tail < 2 ^ 32
  pub cons_word : r.cons.tail < 2 ^ 32
  pub bounded : used r < 2 ^ k

-- The slots from a tail on that hold the first `i` entries of a table.
abbrev pub Agree : ℕ → Ring → (tail : ℕ) → List ℕ → (i : ℕ) → Type 0
Agree k r tail table i = (t : ℕ) → t < i → get_or r.ring ((tail + t) % 2 ^ k) 0 ≡ get_or table t 0

pub record Enqueuing (k : ℕ) (r : Ring) (obj_table : List ℕ) (prod_head n i : ℕ) : Type 0 where
  pub head : r.prod.head ≡ add32 r.prod.tail n
  pub from : prod_head ≡ r.prod.tail
  pub fits : n + used r < 2 ^ k
  pub progress : i ≤ n
  pub room : n ≤ length obj_table
  pub copied : Agree k r r.prod.tail obj_table i

pub record Dequeuing (k : ℕ) (r : Ring) (obj_table : List ℕ) (cons_head n i : ℕ) : Type 0 where
  pub head : r.cons.head ≡ add32 r.cons.tail n
  pub from : cons_head ≡ r.cons.tail
  pub held : n ≤ used r
  pub progress : i ≤ n
  pub room : n ≤ length obj_table
  pub copied : Agree k r r.cons.tail obj_table i

-- The number of free entries that the producer has read may be out of date, but never too large.
abbrev pub Producing : ℕ → Ring → Producer → Type 0
Producing k r Producer.rests = r.prod.head ≡ r.prod.tail
Producing k r (Producer.called obj_table b) = r.prod.head ≡ r.prod.tail
Producing k r (Producer.loaded obj_table prod_head free b) =
    (r.prod.head ≡ r.prod.tail) × (prod_head ≡ r.prod.tail) × (free + used r < 2 ^ k)
Producing k r (Producer.copying obj_table prod_head free n i b) =
    Enqueuing k r obj_table prod_head n i

abbrev pub Consuming : ℕ → Ring → Consumer → Type 0
Consuming k r Consumer.rests = r.cons.head ≡ r.cons.tail
Consuming k r (Consumer.called obj_table b) = r.cons.head ≡ r.cons.tail
Consuming k r (Consumer.loaded obj_table cons_head held b) =
    (r.cons.head ≡ r.cons.tail) × (cons_head ≡ r.cons.tail) × (held ≤ used r)
Consuming k r (Consumer.copying obj_table cons_head n i b) = Dequeuing k r obj_table cons_head n i

-- The pointers between the tails, in order.
abbrev pub published : ℕ → Ring → List ℕ
published k r = window r.ring (2 ^ k) r.cons.tail (used r)

pub record Coherent (k : ℕ) (s : System) : Type 0 where
  pub shape : Shape k s.ring
  pub producing : Producing k s.ring s.producer
  pub consuming : Consuming k s.ring s.consumer
  pub log : s.sent ≡ s.got ++ published k s.ring

pub pow_bounds : {k : ℕ} → k ≤ 31 → (1 ≤ 2 ^ k) × (2 ^ k ≤ 2 ^ 31)
pow_bounds {k} small = (one-le-pow k 2 (omega arith), pow-le-pow_right {n = 2} (omega arith) small)

-- The branches of the copy find the slot that the wrapped index names.
pub slot-mod :
    (k head i : ℕ)
    → k ≤ 31
    → i < 2 ^ k
    → (size mask : ℕ) → size ≡ 2 ^ k
    → mask ≡ 2 ^ k - 1
    → slot size mask head i ≡ (head + i) % 2 ^ k
slot-mod k head i small h size mask es em =
    let start : head % 2 ^ k < 2 ^ k = mod-lt head (pow_bounds small).0 in
    let whole : (head % 2 ^ k + i) % 2 ^ k ≡ (head + i) % 2 ^ k = mod-add-mod head (2 ^ k) i in
    rw (es, em, bit_and-mask k head, ← whole)
      (elim (mod_cases (head % 2 ^ k) i (2 ^ k) start h) [
        | inl (p, e) ↦ rw e (ground arith)
        | inr (p, e) ↦ rw e (ground arith)
      ])

-- Two places less than a turn apart are two slots.
pub slot-ne : (m a d : ℕ) → 1 ≤ d → d < m → (a + d) % m ≢ a % m
slot-ne m a d some_d less e =
    let start : a % m < m = mod-lt a (omega arith) in
    let whole : (a % m + d) % m ≡ (a + d) % m = mod-add-mod a m d in
    elim (mod_cases (a % m) d m start less) [
      | inl (p, f) ↦ omega (arith, whole)
      | inr (p, f) ↦ omega (arith, whole)
    ]
