-- ===== src/Ring/Race.antt =====
-- What two producers in the multi-producer enqueue of inc/kns/ring.h can do to each other.
use kns.Common.{ℕ, ◌+◌, ◌≤◌, ◌≡◌, ◌≢◌, refl, sym, ap, ap₂, ◌∙◌, List, ◌++◌, arith}
use kns.Common.Lists.{length, take, take-all}
use kns.Ring.{Ring, Behavior, fixed, variable, Ret, add32, sub32, free_entries, enqueue_commit}
use kns.Ring.Copy.{enqueue_ptrs}
use kns.Ring.RaceSteps.{called, returned, IsDocumented, race}
use kns.Ring.Single.{commit-ret}
use kns.Ring.WindowIn.{window-enqueue_fields, length-enqueue_fields}
use kns.Ring.Steps.{set_prod_tail, enqueue_result}
use kns.Ring.Valid.{IsValid, contents, pushed, size_bounds, length-contents, free_entries-length}
use kns.Ring.Window.{window, take-window, length-window}
use kns.Ring.RaceRounds.{
  by_turns, take-front, written, both_load, both_claim, both_copy, both_return,
}

module _ {k : ℕ} {r : Ring} (v : IsValid k r) (xs ys : List ℕ) (n : ℕ) (size_xs : length xs ≡ n)
    (size_ys : length ys ≡ n) (fits : n ≤ free_entries r) where
  slots : List ℕ
  slots = enqueue_ptrs r.prod.size r.prod.mask r.ring r.prod.head xs n

  len : sub32 (add32 r.prod.head n) r.cons.tail ≡ sub32 r.prod.tail r.cons.tail + n
  len = omega (arith, free_entries-length v, length-contents v, size_bounds v, v)

  -- The first copy leaves what the ring held.
  slots-held : window slots r.prod.size r.cons.tail (sub32 r.prod.tail r.cons.tail) ≡ contents r
  unfolding slots
  slots-held =
      let u : ℕ = sub32 r.prod.tail r.cons.tail in
      sym (take-window slots r.prod.size r.cons.tail u n)
      ∙ ap (take u) (
          window-enqueue_fields k r.ring r.cons.tail u xs n v.small v.slots (omega arith)
            (omega (arith, free_entries-length v, length-contents v, size_bounds v, v)) r.prod.size
            r.prod.mask r.prod.head (u + n) v.prod_size v.prod_mask (omega (arith, v)) refl)
      ∙ take-front u (contents r) (take n xs) (length-window r.ring r.prod.size r.cons.tail u)

  result-pushed :
      (b : Behavior)
      → enqueue_result r (free_entries r) n b ≡ (pushed r.prod.watermark b (contents r) xs).0
  unfolding enqueue_commit
  result-pushed fixed =
      commit-ret v xs n (omega arith) fits fixed
      ∙ ap (λ q. (pushed r.prod.watermark fixed (contents r) q).0) (take-all n xs size_xs)
  result-pushed variable =
      commit-ret v xs n (omega arith) fits variable
      ∙ ap (λ q. (pushed r.prod.watermark variable (contents r) q).0) (take-all n xs size_xs)

  -- The second copy covers the first.
  written-contents :
      contents (set_prod_tail (written r xs ys n) (add32 r.prod.head n)) ≡ contents r ++ ys
  unfolding slots
  written-contents =
      let u : ℕ = sub32 r.prod.tail r.cons.tail in
      window-enqueue_fields k slots r.cons.tail u ys n v.small
        (length-enqueue_fields k r.ring r.prod.head xs n v.small v.slots
          (omega (arith, free_entries-length v)) r.prod.size r.prod.mask v.prod_size v.prod_mask)
        (omega arith) (omega (arith, free_entries-length v, length-contents v, size_bounds v, v))
        r.prod.size r.prod.mask r.prod.head _ v.prod_size v.prod_mask (omega (arith, v)) len
      ∙ ap₂ ◌++◌ slots-held (take-all n ys size_ys)

-- Two producers call the multi-producer enqueue, each with a table of the same number of objects,
-- not 0, for which a valid ring has room, while the head, before and after the claim, is not 0. If
-- they run by turns, with `atomic_cmpxchg` as the kernel documents it, both get the result of an
-- enqueue that went well, and the ring then holds what it held and the second's objects alone: the first's are lost.
pub race-loses :
    (atomic_cmpxchg : (word old new : ℕ) → ℕ × ℕ)
    → IsDocumented atomic_cmpxchg
    → {k : ℕ} {r : Ring} (xs ys : List ℕ) (b : Behavior) → IsValid k r
    → length ys ≡ length xs
    → length xs ≢ 0
    → length xs ≤ free_entries r
    → r.prod.head ≢ 0
    → add32 r.prod.head (length xs) ≢ 0
    → let s =
        race atomic_cmpxchg
          (record { ring = r; first = called xs b; second = called ys b })
          (by_turns 5) in
      let result = (pushed r.prod.watermark b (contents r) xs).0 in
      (s.first ≡ returned result)
      × (s.second ≡ returned result)
      × (contents s.ring ≡ contents r ++ ys)
unfolding race
race-loses atomic_cmpxchg documented {k} {r} xs ys b v same some_n fits past past' =
    let n : ℕ = length xs in
    let result : Ret = enqueue_result r (free_entries r) n b in
    let whole =
      ap (λ s. race atomic_cmpxchg s (by_turns 4))
        (both_load atomic_cmpxchg documented r xs ys n b refl same some_n fits past past')
      ∙ ap (λ s. race atomic_cmpxchg s (by_turns 3))
          (both_claim atomic_cmpxchg documented r xs ys n b refl same some_n fits past past')
      ∙ ap (λ s. race atomic_cmpxchg s (by_turns 2))
          (both_copy atomic_cmpxchg documented r xs ys n b refl same some_n fits past past')
      ∙ both_return atomic_cmpxchg documented r xs ys n b refl same some_n fits past past' result
          v.prod_rests in
    let promised = result-pushed v xs ys n refl same fits b in
    (
      ap (λ s. s.first) whole ∙ ap returned promised,
      ap (λ s. s.second) whole ∙ ap returned promised,
      ap (λ s. contents s.ring) whole ∙ written-contents v xs ys n refl same fits,
    )
