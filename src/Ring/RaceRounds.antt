-- ===== src/Ring/RaceRounds.antt =====
-- Two producers in the multi-producer enqueue of inc/kns/ring.h that run by turns, round by round.
use kns.Common.{
  ℕ, zero, suc, ◌≤◌, ◌≡◌, ◌≢◌, refl, ap, inr, Bool, true, false, List, [], ◌∷◌, ◌++◌, arith,
}
use kns.Common.Tests.{◌==◌, if◌then◌else◌, eq→==, ne→==, le→ltb}
use kns.Common.Lists.{length, take}
use kns.Ring.{Ring, Behavior, fixed, variable, Ret, add32, free_entries, enqueue_room}
use kns.Ring.Copy.{enqueue_ptrs}
use kns.Ring.RaceSteps.{
  called, loaded, claimed, waits, returned, IsDocumented, exchange, advance, turn, race,
}
use kns.Ring.Single.{moved}
use kns.Ring.Steps.{set_prod_head, set_prod_tail, enqueue_result}

-- The two callers by turns, `n` times each.
abbrev pub by_turns : ℕ → List Bool
by_turns zero = []
by_turns (suc n) = true ∷ false ∷ by_turns n

pub take-front : (m : ℕ) (q z : List ℕ) → length q ≡ m → take m (q ++ z) ≡ q
take-front zero [] z h = refl
take-front zero (x ∷ q) z h = absurd (omega arith)
take-front (suc m) [] z h = absurd (omega arith)
take-front (suc m) (x ∷ q) z h = ap (λ q'. x ∷ q') (take-front m q z (omega arith))

-- A full table of `n` objects, with room in the ring.
room_granted : (free n : ℕ) (b : Behavior) → n ≤ free → enqueue_room free n b ≡ inr n
unfolding enqueue_room
room_granted free n fixed h = rw (le→ltb free n h)
room_granted free n variable h = rw (le→ltb free n h)

either_way : (c : Bool) (x : ℕ) → (if c then x else x) ≡ x
either_way true x = refl
either_way false x = refl

-- The ring once both have claimed the same slots and copied their objects there.
abbrev pub written : Ring → (xs ys : List ℕ) (n : ℕ) → Ring
written r xs ys n =
    let slots = enqueue_ptrs r.prod.size r.prod.mask r.ring r.prod.head xs n in
    record (moved r n) { ring = enqueue_ptrs (r.prod.size) (r.prod.mask) slots (r.prod.head) ys n }

-- The mark that a caller compares depends on neither the head nor the slots.
result-kept :
    (r : Ring) (head : ℕ) (slots : List ℕ) (free n : ℕ) (b : Behavior)
    → enqueue_result (record r { prod = record (r.prod) { head = head }; ring = slots }) free n b
      ≡ enqueue_result r free n b
result-kept r head slots free n fixed = refl
result-kept r head slots free n variable = refl

module _ (atomic_cmpxchg : (word old new : ℕ) → ℕ × ℕ) (documented : IsDocumented atomic_cmpxchg)
    (r : Ring) (xs ys : List ℕ) (n : ℕ) (b : Behavior) (size_xs : length xs ≡ n)
    (size_ys : length ys ≡ n) (some_n : n ≢ 0) (fits : n ≤ free_entries r) (past : r.prod.head ≢ 0)
    (past' : add32 r.prod.head n ≢ 0) where
  pub both_load :
      race atomic_cmpxchg
        (record { ring = r; first = called xs b; second = called ys b })
        (by_turns 1)
      ≡ record {
        ring = r;
        first = loaded xs r.prod.head (free_entries r) b;
        second = loaded ys r.prod.head (free_entries r) b;
      }
  unfolding race turn advance
  both_load = rw (size_xs, size_ys, ne→== n 0 some_n)

  exchange-claimed :
      (r' : Ring) (obj_table : List ℕ) (new : ℕ)
      → length obj_table ≡ n
      → r'.prod.head ≢ 0
      → (if r'.prod.head == r.prod.head then add32 r.prod.head n else r'.prod.head) ≡ new
      → exchange atomic_cmpxchg r' obj_table r.prod.head
          (free_entries r)
          b
          (enqueue_room (free_entries r) (length obj_table) b)
        ≡ (claimed obj_table r.prod.head (free_entries r) n b, set_prod_head r' new)
  unfolding exchange
  exchange-claimed r' obj_table new size found after = rw (
    size,
    room_granted (free_entries r) n b fits,
    exchange,
    documented r'.prod.head r.prod.head (add32 r.prod.head n),
    ne→== r'.prod.head 0 found,
    after,
  )

  -- The second finds the head that the first has stored, and takes it for a success.
  pub both_claim :
      race atomic_cmpxchg
        (record {
          ring = r;
          first = loaded xs r.prod.head (free_entries r) b;
          second = loaded ys r.prod.head (free_entries r) b;
        })
        (by_turns 1)
      ≡ record {
        ring = moved r n;
        first = claimed xs r.prod.head (free_entries r) n b;
        second = claimed ys r.prod.head (free_entries r) n b;
      }
  unfolding race turn advance exchange
  both_claim = rw (
    exchange-claimed r xs (add32 r.prod.head n) size_xs past
        (rw (eq→== r.prod.head r.prod.head refl)),
    exchange-claimed (moved r n) ys (add32 r.prod.head n) size_ys past'
        (either_way (add32 r.prod.head n == r.prod.head) (add32 r.prod.head n)),
  )

  pub both_copy :
      race atomic_cmpxchg
        (record {
          ring = moved r n;
          first = claimed xs r.prod.head (free_entries r) n b;
          second = claimed ys r.prod.head (free_entries r) n b;
        })
        (by_turns 1)
      ≡ record {
        ring = written r xs ys n;
        first = waits r.prod.head n (enqueue_result r (free_entries r) n b);
        second = waits r.prod.head n (enqueue_result r (free_entries r) n b);
      }
  unfolding race turn advance
  both_copy =
      let head : ℕ = add32 r.prod.head n in
      let free : ℕ = free_entries r in
      rw (
        result-kept r head r.ring free n b,
        result-kept r head (enqueue_ptrs r.prod.size r.prod.mask r.ring r.prod.head xs n) free n b,
      )

  pub both_return :
      (result : Ret)
      → r.prod.tail ≡ r.prod.head
      → race atomic_cmpxchg
          (record {
            ring = written r xs ys n;
            first = waits r.prod.head n result;
            second = waits r.prod.head n result;
          })
          (by_turns 2)
        ≡ record {
          ring = set_prod_tail (written r xs ys n) (add32 r.prod.head n);
          first = returned result;
          second = returned result;
        }
  unfolding race turn advance
  both_return result rest = rw (eq→== r.prod.tail r.prod.head rest)
