-- ===== src/Ring/Valid.antt =====
-- When no call is under way on a ring of inc/kns/ring.h: its invariant, the queue that it holds, and
-- what its calls promise of that queue.
use native.Mathlib.Nat.{mod-add-mod, one-le-pow, pow-le-pow_right}
use kns.Common.{ℕ, ◌+◌, ◌-◌, ◌^◌, ◌%◌, ◌≤◌, ◌<◌, ◌≡◌, List, [], ◌++◌, arith}
use kns.Common.Bits.{mod-mod_pow}
use kns.Common.Tests.{ltb, ◌==◌, if◌then◌else◌}
use kns.Common.Lists.{length, take, drop}
use kns.Common.Errno.{enoent, enobufs, edquot}
use kns.Ring.{Ring, Behavior, fixed, variable, Ret, ret, quota, fail, sub32, entries, free_entries}
use kns.Ring.Window.{window, length-window}

pub record IsValid (k : ℕ) (r : Ring) : Type 0 where
  pub small : k ≤ 31
  pub prod_size : r.prod.size ≡ 2 ^ k
  pub prod_mask : r.prod.mask ≡ 2 ^ k - 1
  pub cons_size : r.cons.size ≡ 2 ^ k
  pub slots : length r.ring ≡ 2 ^ k
  pub prod_word : r.prod.head < 2 ^ 32
  pub prod_rests : r.prod.tail ≡ r.prod.head
  pub cons_word : r.cons.head < 2 ^ 32
  pub cons_rests : r.cons.tail ≡ r.cons.head
  pub bounded : sub32 r.prod.head r.cons.head < 2 ^ k

abbrev pub contents : Ring → List ℕ
contents r = window r.ring r.prod.size r.cons.tail (sub32 r.prod.tail r.cons.tail)

-- What an enqueue of the objects `xs` does to a queue of at most `cap`.
abbrev pub pushed : (watermark : ℕ) → Behavior → List ℕ → List ℕ → Ret × List ℕ
pushed watermark fixed q xs =
    (if ltb watermark (length q + 1 + length xs) then fail edquot else ret 0, q ++ xs)
pushed watermark variable q xs = (
  if ltb watermark (length q + 1 + length xs) then quota (length xs) else ret (length xs),
  q ++ xs,
)

unfoldable pub enqueue_queue : (cap watermark : ℕ) → Behavior → List ℕ → List ℕ → Ret × List ℕ
enqueue_queue cap watermark fixed q xs =
    if ltb cap (length q + length xs) then (fail enobufs, q) else pushed watermark fixed q xs
enqueue_queue cap watermark variable q xs =
    if ltb cap (length q + length xs)
    then (if length q == cap
        then (ret 0, q)
        else pushed watermark variable q (take (cap - length q) xs))
    else pushed watermark variable q xs

-- A dequeue of `n`: the result, the objects taken out in order, and the queue that is left.
unfoldable pub dequeue_queue : Behavior → List ℕ → ℕ → Ret × List ℕ × List ℕ
dequeue_queue fixed q n =
    if ltb (length q) n then (fail enoent, [], q) else (ret 0, take n q, drop n q)
dequeue_queue variable q n =
    if ltb (length q) n then (ret (length q), q, []) else (ret n, take n q, drop n q)

-- The slot `t` places after a wrapped index is that of the index that never wrapped.
pub slot_of : (k p t : ℕ) → k ≤ 31 → (p % 2 ^ 32 % 2 ^ k + t) % 2 ^ k ≡ (p + t) % 2 ^ k
slot_of k p t small =
    let all : k + (32 - k) ≡ 32 = omega arith in
    let e : p % 2 ^ 32 % 2 ^ k ≡ p % 2 ^ k = rw all at (mod-mod_pow (32 - k) k p) in
    rw (e, mod-add-mod)

module _ {k : ℕ} {r : Ring} (v : IsValid k r) where
  pub size_bounds : (1 ≤ 2 ^ k) × (2 ^ k ≤ 2 ^ 31)
  size_bounds = (one-le-pow k 2 (omega arith), pow-le-pow_right {n = 2} (omega arith) v.small)

  pub length-contents : length (contents r) ≡ sub32 r.prod.head r.cons.head
  length-contents = ground (
    arith,
    length-window r.ring r.prod.size r.cons.tail (sub32 r.prod.tail r.cons.tail),
    v.prod_rests,
    v.cons_rests,
  )

  -- The differences of the wrapping indices are the number held and the room left.
  pub entries-length : entries r ≡ length (contents r)
  entries-length = ground (arith, length-contents, v.prod_rests)

  pub free_entries-length : free_entries r + length (contents r) ≡ 2 ^ k - 1
  free_entries-length = omega (arith, length-contents, size_bounds, v)
