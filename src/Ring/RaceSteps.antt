-- ===== src/Ring/RaceSteps.antt =====
-- Two producers in `__ring_mp_do_enqueue` of inc/kns/ring.h at the same time, in steps. The two
-- reads of the indices are one step here and the copy of all pointers another: the runs are those
-- in which the other thread does nothing in between.
use kns.Common.{ℕ, Bool, true, false, ◌⊎◌, inl, inr, List, [], ◌∷◌, ◌≡◌}
use kns.Common.Tests.{◌==◌, if◌then◌else◌}
use kns.Common.Lists.{length}
use kns.Ring.{Ring, Behavior, Ret, ret, add32, free_entries, enqueue_room}
use kns.Ring.Copy.{enqueue_ptrs}
use kns.Ring.Steps.{set_prod_head, set_prod_tail, enqueue_result}

-- Where a caller is: before the reads, before the exchange of `prod.head`, before the copy, in the
-- loop that waits for the tail, before the store of the tail, or back with a result.
pub data Caller : Type 0 where
  called : (obj_table : List ℕ) → Behavior → Caller
  loaded : (obj_table : List ℕ) (prod_head free : ℕ) → Behavior → Caller
  claimed : (obj_table : List ℕ) (prod_head free n : ℕ) → Behavior → Caller
  waits : (prod_head n : ℕ) → Ret → Caller
  follows : (prod_head n : ℕ) → Ret → Caller
  returned : Ret → Caller

pub record Race : Type 0 where
  pub ring : Ring
  pub first : Caller
  pub second : Caller

-- `atomic_cmpxchg` of the kernel on a word, the value that it expects and the one that it stores:
-- what it returns, and what the word holds afterwards.
module _ (atomic_cmpxchg : (word old new : ℕ) → ℕ × ℕ) where
  -- The kernel documents that it returns the value found, and stores only over the expected one.
  abbrev pub IsDocumented : Type 0
  IsDocumented =
      (word old new : ℕ) → atomic_cmpxchg word old new ≡ (word, if word == old then new else word)

  -- The rest of a turn of the loop once there is room: the loop goes round again when the value found
  -- is 0.
  unfoldable pub exchange :
      Ring → List ℕ → (prod_head free : ℕ) → Behavior → Ret ⊎ ℕ → Caller × Ring
  exchange r obj_table prod_head free b (inl early) = (returned early, r)
  exchange r obj_table prod_head free b (inr n) =
      let (success, head) = atomic_cmpxchg r.prod.head prod_head (add32 prod_head n) in
      (
        if success == 0 then called obj_table b else claimed obj_table prod_head free n b,
        set_prod_head r head,
      )

  -- One step of a caller on the shared ring.
  unfoldable pub advance : Ring → Caller → Caller × Ring
  advance r (called obj_table b) = (
    if length obj_table == 0
        then returned (ret 0)
        else loaded obj_table r.prod.head (free_entries r) b,
    r,
  )
  advance r (loaded obj_table prod_head free b) =
      exchange r obj_table prod_head free b (enqueue_room free (length obj_table) b)
  advance r (claimed obj_table prod_head free n b) = (
    waits prod_head n (enqueue_result r free n b),
    record r { ring = enqueue_ptrs (r.prod.size) (r.prod.mask) (r.ring) prod_head obj_table n },
  )
  advance r (waits prod_head n result) =
      (if r.prod.tail == prod_head then follows prod_head n result else waits prod_head n result, r)
  advance r (follows prod_head n result) = (returned result, set_prod_tail r (add32 prod_head n))
  advance r (returned result) = (returned result, r)

  -- A schedule names the caller of each step: `true` is the first.
  unfoldable pub turn : Race → Bool → Race
  turn s true = let (c, r) = advance s.ring s.first in record s { ring = r; first = c }
  turn s false = let (c, r) = advance s.ring s.second in record s { ring = r; second = c }

  unfoldable pub race : Race → List Bool → Race
  race s [] = s
  race s (who ∷ schedule) = race (turn s who) schedule
