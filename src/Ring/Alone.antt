-- ===== src/Ring/Alone.antt =====
-- The steps of `Ring.Steps` against the calls of `Ring`: a producer that no consumer interrupts
-- does what `sp_do_enqueue` does.
use kns.Common.{
  ℕ, zero, suc, ◌+◌, ◌-◌, ◌^◌, ◌≤◌, ◌≡◌, refl, sym, ap, subst, ◌∙◌, ◌⊎◌, inl, inr, List, [], ◌∷◌,
  ◌++◌, arith,
}
use kns.Common.Tests.{lt→ltb, le→ltb}
use kns.Common.Lists.{length, take, replicate}
use kns.Ring.{
  Ring, Behavior, fixed, variable, Ret, add32, free_entries, enqueue_commit, enqueue_room,
  sp_do_enqueue,
}
use kns.Ring.Copy.{enqueue_ptrs}
use kns.Ring.CopyIn
use kns.Ring.CopySteps.{copies, copies-around}
use kns.Ring.Frame.{Roomed, refused, granted, enqueue_room-Roomed}
use kns.Ring.Interleave.{start}
use kns.Ring.Multi.{⊎-cases}
use kns.Ring.Valid.{IsValid, contents, free_entries-length}
use kns.Ring.Steps.{
  Producer, System, enqueues, produces, enqueue_claim, enqueue_copy, produce, step, run,
  set_prod_head, set_prod_tail, enqueue_result,
}

-- A producer alone: `m` steps of its own.
abbrev on : ℕ → System → System
on zero s = s
on (suc m) s = on m (produce s s.producer)

run-on : (m : ℕ) (s : System) → run s (replicate m produces) ≡ on m s
unfolding run step
run-on zero s = refl
run-on (suc m) s = run-on m (produce s s.producer)

on-add : (a b : ℕ) (s : System) → on (a + b) s ≡ on b (on a s)
on-add zero b s = let none_left : 0 + b ≡ b = omega arith in rw none_left
on-add (suc a) b s =
    let more : suc a + b ≡ suc (a + b) = omega arith in rw more (on-add a b (produce s s.producer))

abbrev copied_to : System → List ℕ → List ℕ → (prod_head free n i : ℕ) → Behavior → System
copied_to s slots obj_table prod_head free n i b = record s {
  ring = record (s.ring) { ring = slots };
  producer = Producer.copying obj_table prod_head free n i b;
}

abbrev resting : System → System
resting s = record s { producer = Producer.rests }

on-rests : (m : ℕ) (s : System) → on m (resting s) ≡ resting s
unfolding produce
on-rests zero s = refl
on-rests (suc m) s = on-rests m s

module _ (s : System) (obj_table : List ℕ) (prod_head free n : ℕ) (b : Behavior) where
  on-copies :
      (m i : ℕ) (slots : List ℕ)
      → i + m ≤ n
      → on m (copied_to s slots obj_table prod_head free n i b)
        ≡ copied_to s
            (copies s.ring.prod.size s.ring.prod.mask prod_head m i obj_table slots)
            obj_table
            prod_head
            free
            n
            (i + m)
            b
  unfolding produce enqueue_copy copies
  on-copies zero i slots h = let here : i + 0 ≡ i = omega arith in rw here
  on-copies (suc m) i slots h =
      let next : i + suc m ≡ i + 1 + m = omega arith in
      rw (lt→ltb i n (omega arith), produce, enqueue_copy, next)
        (on-copies m (i + 1) _ (omega arith))

  on-publish :
      (slots : List ℕ)
      → on 1 (copied_to s slots obj_table prod_head free n n b) ≡ record s {
        ring = set_prod_tail (record (s.ring) { ring = slots }) (add32 prod_head n);
        producer = Producer.rests;
        sent = s.sent ++ take n obj_table;
        enqueued = enqueue_result (s.ring) free n b ∷ s.enqueued;
      }
  unfolding produce enqueue_copy
  on-publish slots = rw (le→ltb n n (omega arith), produce, enqueue_copy)

module _ {k : ℕ} {r : Ring} (v : IsValid k r) (obj_table : List ℕ) (b : Behavior) where
  -- What `sp_do_enqueue` does with the answer of the check for room.
  abbrev answered : Ret ⊎ ℕ → Ret × Ring
  answered (inl early) = (early, r)
  answered (inr n) =
      enqueue_commit (set_prod_head r (add32 r.prod.head n)) obj_table r.prod.head (free_entries r)
        n b

  Done : System → Ret × Ring → Type 0
  Done s (result, r') = (s.ring ≡ r') × (s.enqueued ≡ result ∷ []) × (s.producer ≡ Producer.rests)

  slots-agree :
      (n : ℕ)
      → n ≤ free_entries r
      → copies r.prod.size r.prod.mask r.prod.head n 0 obj_table r.ring
        ≡ enqueue_ptrs r.prod.size r.prod.mask r.ring r.prod.head obj_table n
  slots-agree n fits =
      let small : n ≤ 2 ^ k = omega (arith, free_entries-length v) in
      rw (v.prod_size, v.prod_mask)
        (copies-around k r.prod.head v.small obj_table n r.ring small
          ∙ sym (CopyIn.enqueue_ptrs-around k r.ring r.prod.head obj_table n v.small small))

  commit-Done :
      (n : ℕ)
      → n ≤ free_entries r
      → (c : Behavior)
      → let moved = set_prod_head r (add32 r.prod.head n) in
        let slots = copies r.prod.size r.prod.mask r.prod.head n 0 obj_table r.ring in
        Done
          (record (start r) {
            ring = set_prod_tail (record moved { ring = slots }) (add32 (r.prod.head) n);
            sent = contents r ++ take n obj_table;
            enqueued = enqueue_result moved (free_entries r) n c ∷ [];
          })
          (enqueue_commit moved obj_table r.prod.head (free_entries r) n c)
  unfolding enqueue_commit Done
  commit-Done n fits fixed = rw (slots-agree n fits) (refl, refl, refl)
  commit-Done n fits variable = rw (slots-agree n fits) (refl, refl, refl)

  -- From the claim on.
  claimed-Done :
      (answer : Ret ⊎ ℕ) (steps : ℕ) (p : Producer)
      → Roomed (free_entries r) (length obj_table) answer
      → length obj_table + 1 ≤ steps
      → Done
          (on steps (
            enqueue_claim
              (record (start r) { producer = p })
              obj_table
              r.prod.head
              (free_entries r)
              b
              answer))
          (answered answer)
  unfolding enqueue_claim Done
  claimed-Done _ steps p (refused early) enough =
      let same = on-rests steps (record (start r) { enqueued = early ∷ [] }) in
      (ap (λ s. s.ring) same, ap (λ s. s.enqueued) same, ap (λ s. s.producer) same)
  claimed-Done _ steps p (granted n below asked) enough =
      let moved : Ring = set_prod_head r (add32 r.prod.head n) in
      let s : System = record (start r) { ring = moved } in
      let head : ℕ = r.prod.head in
      let free : ℕ = free_entries r in
      let rest : ℕ = steps - n - 1 in
      let parts : n + (1 + rest) ≡ steps = omega arith in
      let count : 0 + n ≡ n = omega arith in
      let slots = copies r.prod.size r.prod.mask head n 0 obj_table r.ring in
      let finish =
        on-add n (1 + rest) (copied_to s r.ring obj_table head free n 0 b)
        ∙ ap (on (1 + rest)) (on-copies s obj_table head free n b n 0 r.ring (omega arith))
        ∙ ap (λ i. on (1 + rest) (copied_to s slots obj_table head free n i b)) count
        ∙ on-add 1 rest (copied_to s slots obj_table head free n n b)
        ∙ ap (on rest) (on-publish s obj_table head free n b slots)
        ∙ on-rests rest (record s {
          ring = set_prod_tail (record moved { ring = slots }) (add32 head n);
          sent = contents r ++ take n obj_table;
          enqueued = enqueue_result moved free n b ∷ [];
        }) in
      subst (λ x. Done x (answered (inr n)))
        (sym (ap (λ m. on m (copied_to s r.ring obj_table head free n 0 b)) (sym parts) ∙ finish))
        (commit-Done n below b)

  sp_do_enqueue-answered :
      sp_do_enqueue r obj_table (length obj_table) b
      ≡ answered (enqueue_room (free_entries r) (length obj_table) b)
  unfolding sp_do_enqueue
  sp_do_enqueue-answered = elim (⊎-cases (enqueue_room (free_entries r) (length obj_table) b)) [
    | inl (early, e) ↦ rw (e, sp_do_enqueue)
    | inr (n, e) ↦ rw (e, sp_do_enqueue)
  ]

-- On a valid ring, a producer that is given as many steps as its call takes at most, and is not
-- interrupted by the consumer, is at rest again and has left the ring and returned the result that
-- `sp_do_enqueue` gives for the same table.
pub run-sp_do_enqueue :
    {k : ℕ} {r : Ring} (obj_table : List ℕ) (b : Behavior) (steps : ℕ)
    → IsValid k r
    → length obj_table + 3 ≤ steps
    → let s = run (start r) (enqueues obj_table b ∷ replicate steps produces) in
      let (result, r') = sp_do_enqueue r obj_table (length obj_table) b in
      (s.ring ≡ r') × (s.enqueued ≡ result ∷ []) × (s.producer ≡ Producer.rests)
unfolding run step produce Done
run-sp_do_enqueue {k} {r} obj_table b steps v enough =
    let answer = enqueue_room (free_entries r) (length obj_table) b in
    let now : Producer = Producer.loaded obj_table r.prod.head (free_entries r) b in
    let begun : System = record (start r) { producer = Producer.called obj_table b } in
    let parts : steps ≡ suc (suc (steps - 2)) = omega arith in
    let late = run-on steps begun ∙ ap (λ m. on m begun) parts in
    subst (λ x. Done v obj_table b x (sp_do_enqueue r obj_table (length obj_table) b)) (sym late)
      (subst
        (Done v obj_table b (
          on (steps - 2) (
            enqueue_claim (record (start r) { producer = now }) obj_table r.prod.head
              (free_entries r) b answer)))
        (sym (sp_do_enqueue-answered v obj_table b))
        (claimed-Done v obj_table b answer (steps - 2) now
          (enqueue_room-Roomed (free_entries r) (length obj_table) b) (omega arith)))
