-- ===== src/Ring/MultiOps.antt =====
-- The multi-producer and multi-consumer calls of inc/kns/ring.h and the calls that choose between
-- them and the single ones. `rounds` bounds the turns of their two loops.
use kns.Common.{ℕ, zero, suc, true, false, inl, inr, List, [], ◌∷◌}
use kns.Common.Tests.{◌==◌, if◌then◌else◌}
use kns.Ring.{
  Ring, Behavior, fixed, variable, Ret, ret, add32, free_entries, entries, enqueue_room,
  enqueue_commit, sp_do_enqueue, dequeue_room, sc_do_dequeue,
}
use kns.Ring.Copy.{dequeue_ptrs}

-- How a call of the multi-producer enqueue ends: it returns, or it is still in one of its loops
-- when its rounds are used up.
pub data Outcome : Type 0 where
  returns : Ret → Ring → Outcome
  spins : Ring → Outcome

-- `while (atomic_read(&r->prod.tail) != prod_head) cpu_relax();`, then the commit
unfoldable pub wait_tail : ℕ → Ring → List ℕ → (prod_head free n : ℕ) → Behavior → Outcome
wait_tail zero r obj_table prod_head free n behavior = Outcome.spins r
wait_tail (suc rounds) r obj_table prod_head free n behavior =
    let again = wait_tail rounds r obj_table prod_head free n behavior in
    if r.prod.tail == prod_head
    then (let (s, r') = enqueue_commit r obj_table prod_head free n behavior in returns s r')
    else again

-- The loop that moves `prod.head`. `atomic_cmpxchg` returns the value that it found, which the code
-- takes for the success of the exchange, so a head of 0 is moved and the loop goes round again.
unfoldable pub mp_claim : ℕ → Ring → List ℕ → ℕ → Behavior → Outcome
mp_claim zero r obj_table max behavior = Outcome.spins r
mp_claim (suc rounds) r obj_table max behavior = elim (enqueue_room (free_entries r) max behavior) [
  | inl early ↦ returns early r
  | inr n ↦
      let prod_head = r.prod.head in
      let free = free_entries r in
      let moved : Ring = record r { prod = record (r.prod) { head = add32 prod_head n } } in
      elim (prod_head == 0) [
        | true ↦ mp_claim rounds moved obj_table max behavior
        | false ↦ wait_tail rounds moved obj_table prod_head free n behavior
      ]
]

unfoldable pub mp_do_enqueue : ℕ → Ring → List ℕ → ℕ → Behavior → Outcome
mp_do_enqueue rounds r obj_table n behavior =
    if n == 0 then returns (ret 0) r else mp_claim rounds r obj_table n behavior

unfoldable pub ring_enqueue_bulk : ℕ → Ring → List ℕ → ℕ → Outcome
ring_enqueue_bulk rounds r obj_table n =
    if r.prod.sp_enqueue
    then (let (s, r') = sp_do_enqueue r obj_table n fixed in returns s r')
    else mp_do_enqueue rounds r obj_table n fixed

unfoldable pub ring_enqueue_burst : ℕ → Ring → List ℕ → ℕ → Outcome
ring_enqueue_burst rounds r obj_table n =
    if r.prod.sp_enqueue
    then (let (s, r') = sp_do_enqueue r obj_table n variable in returns s r')
    else mp_do_enqueue rounds r obj_table n variable

unfoldable pub ring_enqueue : ℕ → Ring → ℕ → Outcome
unfolding ring_enqueue_bulk
ring_enqueue rounds r obj = ring_enqueue_bulk rounds r (obj ∷ []) 1

-- The same two loops on the consumer's side; the table comes back beside the result.
pub data Taken : Type 0 where
  takes : Ret → List ℕ → Ring → Taken
  spins : Ring → Taken

unfoldable pub wait_cons_tail : ℕ → Ring → List ℕ → (cons_head n : ℕ) → Behavior → Taken
wait_cons_tail zero r obj_table cons_head n behavior = Taken.spins r
wait_cons_tail (suc rounds) r obj_table cons_head n behavior =
    let again = wait_cons_tail rounds r obj_table cons_head n behavior in
    let out = dequeue_ptrs r.cons.size r.prod.mask r.ring cons_head obj_table n in
    if r.cons.tail == cons_head
    then takes (elim behavior [ fixed ↦ ret 0 | variable ↦ ret n ]) out
        (record r { cons = record (r.cons) { tail = add32 cons_head n } })
    else again

unfoldable pub mc_claim : ℕ → Ring → List ℕ → ℕ → Behavior → Taken
mc_claim zero r obj_table max behavior = Taken.spins r
mc_claim (suc rounds) r obj_table max behavior = elim (dequeue_room (entries r) max behavior) [
  | inl early ↦ takes early obj_table r
  | inr n ↦
      let cons_head = r.cons.head in
      let moved : Ring = record r { cons = record (r.cons) { head = add32 cons_head n } } in
      elim (cons_head == 0) [
        | true ↦ mc_claim rounds moved obj_table max behavior
        | false ↦ wait_cons_tail rounds moved obj_table cons_head n behavior
      ]
]

unfoldable pub mc_do_dequeue : ℕ → Ring → List ℕ → ℕ → Behavior → Taken
mc_do_dequeue rounds r obj_table n behavior =
    if n == 0 then takes (ret 0) obj_table r else mc_claim rounds r obj_table n behavior

unfoldable pub ring_dequeue_bulk : ℕ → Ring → List ℕ → ℕ → Taken
ring_dequeue_bulk rounds r obj_table n =
    if r.cons.sc_dequeue
    then (let (s, out, r') = sc_do_dequeue r obj_table n fixed in takes s out r')
    else mc_do_dequeue rounds r obj_table n fixed

unfoldable pub ring_dequeue_burst : ℕ → Ring → List ℕ → ℕ → Taken
ring_dequeue_burst rounds r obj_table n =
    if r.cons.sc_dequeue
    then (let (s, out, r') = sc_do_dequeue r obj_table n variable in takes s out r')
    else mc_do_dequeue rounds r obj_table n variable

-- The caller's one pointer is a table of one.
unfoldable pub ring_dequeue : ℕ → Ring → ℕ → Taken
unfolding ring_dequeue_bulk
ring_dequeue rounds r obj = ring_dequeue_bulk rounds r (obj ∷ []) 1
