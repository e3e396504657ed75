-- ===== src/Ring/Multi.antt =====
-- The multi-producer enqueue of inc/kns/ring.h, run by one thread alone.
use kns.Common.{ℕ, zero, suc, ◌+◌, ◌-◌, ◌≤◌, ◌<◌, ◌≡◌, ◌≢◌, refl, ◌∙◌, List, arith, ◌⊎◌, inl, inr}
use kns.Common.Tests.{lt→ltb, eq→==, ne→==}
use kns.Common.Errno.{enobufs}
use kns.Ring.{
  Ring, Behavior, fixed, variable, Ret, fail, add32, free_entries, enqueue_room, sp_do_enqueue,
}
use kns.Ring.MultiOps.{Outcome, returns, wait_tail, mp_claim, mp_do_enqueue}
use kns.Ring.Valid.{IsValid, free_entries-length, length-contents, size_bounds}

abbrev claimed : Ring → ℕ → Ring
claimed r n = record r { prod = record (r.prod) { head = add32 (r.prod.head) n } }

abbrev outcome : Ret × Ring → Outcome
outcome (s, r) = returns s r

pub ⊎-cases {ℓ κ} :
    {A : Type ℓ} {B : Type κ} (s : A ⊎ B) → ((a : A) × (s ≡ inl a)) ⊎ ((b : B) × (s ≡ inr b))
⊎-cases (inl a) = inl (a, refl)
⊎-cases (inr b) = inr (b, refl)

-- While the tail is not the head that the call claimed from, the call waits.
wait_tail-spins :
    (rounds : ℕ) (r : Ring) (obj_table : List ℕ) (prod_head free n : ℕ) (b : Behavior)
    → r.prod.tail ≢ prod_head
    → wait_tail rounds r obj_table prod_head free n b ≡ Outcome.spins r
unfolding wait_tail
wait_tail-spins zero r obj_table prod_head free n b h = refl
wait_tail-spins (suc rounds) r obj_table prod_head free n b h =
    rw (ne→== r.prod.tail prod_head h) (wait_tail-spins rounds r obj_table prod_head free n b h)

-- On a valid ring whose producer's head is not 0, a call for `n` objects, not 0, with two rounds or
-- more does as a single producer.
pub mp_do_enqueue-sp :
    {k : ℕ} {r : Ring} (rounds : ℕ) (obj_table : List ℕ) (n : ℕ) (b : Behavior)
    → IsValid k r
    → r.prod.head ≢ 0
    → n ≢ 0
    → mp_do_enqueue (suc (suc rounds)) r obj_table n b
      ≡ (let (s, r') = sp_do_enqueue r obj_table n b in returns s r')
unfolding mp_do_enqueue mp_claim wait_tail sp_do_enqueue
mp_do_enqueue-sp {r} rounds obj_table n b v past some_n =
    elim (⊎-cases (enqueue_room (free_entries r) n b)) [
      | inl (early, e) ↦ rw (ne→== n 0 some_n, e, mp_do_enqueue, mp_claim, sp_do_enqueue)
      | inr (m, e) ↦ rw (
        ne→== n 0 some_n,
        e,
        mp_do_enqueue,
        mp_claim,
        sp_do_enqueue,
        ne→== r.prod.head 0 past,
        eq→== r.prod.tail r.prod.head v.prod_rests,
        wait_tail,
      )
    ]

enqueue_room-fits : (free n : ℕ) (b : Behavior) → n ≤ free → enqueue_room free n b ≡ inr n
unfolding enqueue_room
enqueue_room-fits free n fixed h = ground arith
enqueue_room-fits free n variable h = ground arith

-- The first round at head 0 moves the head and goes on to a second round.
mp_claim-zero :
    {k : ℕ} {r : Ring} (rounds : ℕ) (obj_table : List ℕ) (n : ℕ) (b : Behavior)
    → IsValid k r
    → r.prod.head ≡ 0
    → n ≤ free_entries r
    → mp_claim (suc rounds) r obj_table n b ≡ mp_claim rounds (claimed r n) obj_table n b
unfolding mp_claim
mp_claim-zero {r} rounds obj_table n b v at_zero fits =
    rw (enqueue_room-fits (free_entries r) n b fits, mp_claim, eq→== r.prod.head 0 at_zero)

module _ {k : ℕ} {r : Ring} (v : IsValid k r) (at_zero : r.prod.head ≡ 0) (n : ℕ) (some_n : n ≢ 0)
    (fits : n ≤ free_entries r) where
  claimed-head : add32 r.prod.head n ≡ n
  claimed-head = omega (arith, free_entries-length v, size_bounds v)

  claimed-free : free_entries (claimed r n) ≡ free_entries r - n
  claimed-free = omega (arith, free_entries-length v, length-contents v, size_bounds v, v)

-- On a valid ring whose producer's head is 0, a call for `n` objects, not 0, for which there is room
-- twice over never returns, whatever the number of rounds: it claims its slots twice and waits for the first claim, which is its own.
pub mp_do_enqueue-spins :
    {k : ℕ} {r : Ring} (rounds : ℕ) (obj_table : List ℕ) (n : ℕ) (b : Behavior)
    → IsValid k r
    → r.prod.head ≡ 0
    → n ≢ 0
    → n + n ≤ free_entries r
    → (r' : Ring) × (mp_do_enqueue rounds r obj_table n b ≡ Outcome.spins r')
unfolding mp_do_enqueue mp_claim
mp_do_enqueue-spins {r} zero obj_table n b v at_zero some_n twice =
    (r, rw (ne→== n 0 some_n, mp_do_enqueue, mp_claim))
mp_do_enqueue-spins {r} (suc zero) obj_table n b v at_zero some_n twice = (
  claimed r n,
  rw (ne→== n 0 some_n, mp_do_enqueue) (mp_claim-zero 0 obj_table n b v at_zero (omega arith)),
)
mp_do_enqueue-spins {k} {r} (suc (suc rounds)) obj_table n b v at_zero some_n twice =
    let fits : n ≤ free_entries r = omega arith in
    let head : add32 r.prod.head n ≡ n = claimed-head v at_zero n some_n fits in
    let left : free_entries (claimed r n) ≡ free_entries r - n =
      claimed-free v at_zero n some_n fits in
    let first : r.prod.tail ≢ add32 r.prod.head n = λ e. some_n (omega (arith, v)) in
    (
      claimed (claimed r n) n,
      rw (ne→== n 0 some_n, mp_do_enqueue)
          (mp_claim-zero (suc rounds) obj_table n b v at_zero fits
            ∙ rw
                (
                  enqueue_room-fits (free_entries (claimed r n)) n b (omega arith),
                  mp_claim,
                  ne→== (add32 r.prod.head n) 0 (λ e. some_n (omega arith)),
                )
                (wait_tail-spins rounds (claimed (claimed r n) n) obj_table (add32 r.prod.head n)
                  (free_entries (claimed r n)) n b first)),
    )

-- There, a bulk enqueue with room for one run of its objects but not for two is refused, and yet
-- the head has moved past slots that nobody will fill.
pub mp_do_enqueue-refused :
    {k : ℕ} {r : Ring} (rounds : ℕ) (obj_table : List ℕ) (n : ℕ)
    → IsValid k r
    → r.prod.head ≡ 0
    → n ≤ free_entries r
    → free_entries r < n + n
    → (r' : Ring) × (mp_do_enqueue (suc (suc rounds)) r obj_table n fixed
        ≡ returns (fail enobufs) r')
      × (r'.prod.head ≡ n)
      × (r'.prod.tail ≡ 0)
unfolding mp_do_enqueue mp_claim enqueue_room
mp_do_enqueue-refused {k} {r} rounds obj_table n v at_zero fits over =
    let some_n : n ≢ 0 = λ e. omega arith in
    let left : free_entries (claimed r n) ≡ free_entries r - n =
      claimed-free v at_zero n some_n fits in
    (
      claimed r n,
      rw (ne→== n 0 some_n, mp_do_enqueue)
          (mp_claim-zero (suc rounds) obj_table n fixed v at_zero fits
            ∙ rw (mp_claim, enqueue_room, lt→ltb (free_entries (claimed r n)) n (omega arith))),
      claimed-head v at_zero n some_n fits,
      omega (arith, v),
    )
