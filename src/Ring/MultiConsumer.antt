-- ===== src/Ring/MultiConsumer.antt =====
-- The multi-consumer dequeue of inc/kns/ring.h, run by one thread alone.
use kns.Common.{ℕ, zero, suc, ◌+◌, ◌-◌, ◌≤◌, ◌≡◌, ◌≢◌, refl, List, arith, inl, inr}
use kns.Common.Tests.{eq→==, ne→==}
use kns.Ring.{Ring, Behavior, fixed, variable, add32, entries, dequeue_room, sc_do_dequeue}
use kns.Ring.MultiOps.{Taken, takes, wait_cons_tail, mc_claim, mc_do_dequeue}
use kns.Ring.Multi.{⊎-cases}
use kns.Ring.Valid.{IsValid, entries-length, length-contents, size_bounds}

-- On a valid ring whose consumer's head is not 0, a call for `n` objects, not 0, with two rounds or
-- more does as a single consumer.
pub mc_do_dequeue-sc :
    {k : ℕ} {r : Ring} (rounds : ℕ) (obj_table : List ℕ) (n : ℕ) (b : Behavior)
    → IsValid k r
    → r.cons.head ≢ 0
    → n ≢ 0
    → mc_do_dequeue (suc (suc rounds)) r obj_table n b
      ≡ (let (s, out, r') = sc_do_dequeue r obj_table n b in takes s out r')
unfolding mc_do_dequeue mc_claim wait_cons_tail sc_do_dequeue
mc_do_dequeue-sc {r} rounds obj_table n b v past some_n =
    elim (⊎-cases (dequeue_room (entries r) n b)) [
      | inl (early, e) ↦ rw (ne→== n 0 some_n, e, mc_do_dequeue, mc_claim, sc_do_dequeue)
      | inr (m, e) ↦ rw (
        ne→== n 0 some_n,
        e,
        mc_do_dequeue,
        mc_claim,
        sc_do_dequeue,
        ne→== r.cons.head 0 past,
        eq→== r.cons.tail r.cons.head v.cons_rests,
        wait_cons_tail,
      )
    ]

wait_cons_tail-spins :
    (rounds : ℕ) (r : Ring) (obj_table : List ℕ) (cons_head n : ℕ) (b : Behavior)
    → r.cons.tail ≢ cons_head
    → wait_cons_tail rounds r obj_table cons_head n b ≡ Taken.spins r
unfolding wait_cons_tail
wait_cons_tail-spins zero r obj_table cons_head n b h = refl
wait_cons_tail-spins (suc rounds) r obj_table cons_head n b h =
    rw (ne→== r.cons.tail cons_head h) (wait_cons_tail-spins rounds r obj_table cons_head n b h)

dequeue_room-fits : (held n : ℕ) (b : Behavior) → n ≤ held → dequeue_room held n b ≡ inr n
unfolding dequeue_room
dequeue_room-fits held n fixed h = ground arith
dequeue_room-fits held n variable h = ground arith

abbrev claimed : Ring → ℕ → Ring
claimed r n = record r { cons = record (r.cons) { head = add32 (r.cons.head) n } }

-- On a ring whose consumer has never moved, a call that asks for at most half of what is held never
-- returns: it claims its slots twice and waits for the first claim, which is its own.
pub mc_do_dequeue-spins :
    {k : ℕ} {r : Ring} (rounds : ℕ) (obj_table : List ℕ) (n : ℕ) (b : Behavior)
    → IsValid k r
    → r.cons.head ≡ 0
    → n ≢ 0
    → n + n ≤ entries r
    → (r' : Ring) × (mc_do_dequeue rounds r obj_table n b ≡ Taken.spins r')
unfolding mc_do_dequeue mc_claim
mc_do_dequeue-spins {r} zero obj_table n b v at_zero some_n twice =
    (r, rw (ne→== n 0 some_n, mc_do_dequeue, mc_claim))
mc_do_dequeue-spins {r} (suc rounds) obj_table n b v at_zero some_n twice =
    let fits : dequeue_room (entries r) n b ≡ inr n =
      dequeue_room-fits (entries r) n b (omega arith) in
    let (r', e) = second rounds in
    (r', rw (ne→== n 0 some_n, fits, mc_do_dequeue, mc_claim, eq→== r.cons.head 0 at_zero) e)
  where
    second : (m : ℕ) → (r' : Ring) × (mc_claim m (claimed r n) obj_table n b ≡ Taken.spins r')
    second zero = (claimed r n, refl)
    second (suc m) =
        let head : add32 r.cons.head n ≡ n =
          omega (arith, entries-length v, length-contents v, size_bounds v, v) in
        let left : entries (claimed r n) ≡ entries r - n =
          omega (arith, entries-length v, length-contents v, size_bounds v, v) in
        (
          claimed (claimed r n) n,
          rw
              (
                dequeue_room-fits (entries (claimed r n)) n b (omega arith),
                mc_claim,
                ne→== (add32 r.cons.head n) 0 (λ e. some_n (omega arith)),
              )
              (wait_cons_tail-spins m (claimed (claimed r n) n) obj_table (add32 r.cons.head n) n b
                (λ e. some_n (omega (arith, v)))),
        )
