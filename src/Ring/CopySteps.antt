-- ===== src/Ring/CopySteps.antt =====
-- ENQUEUE_PTRS of inc/kns/ring.h as the steps of `Ring.Steps` take it, a pointer at a time.
use native.Mathlib.Nat.{mod-lt}
use kns.Common.{
  ℕ, zero, suc, ◌+◌, ◌-◌, ◌%◌, ◌^◌, ◌≤◌, ◌<◌, ◌≡◌, refl, sym, ap, ◌∙◌, List, arith, dec_lt,
}
use kns.Common.Bits.{bit_and-mask}
use kns.Common.Tests.{lt→ltb, le→ltb}
use kns.Ring.Copy.{put1, singles}
use kns.Ring.CopyIn
use kns.Ring.Shared.{pow_bounds}
use kns.Ring.Steps.{slot}

-- `m` further pointers copied one by one, each to its slot.
unfoldable pub copies : (size mask head m i : ℕ) → List ℕ → List ℕ → List ℕ
copies size mask head zero i obj_table ring = ring
copies size mask head (suc m) i obj_table ring =
    copies size mask head m (i + 1) obj_table (put1 ring (slot size mask head i) obj_table i)

module _ (k head : ℕ) (small : k ≤ 31) (obj_table : List ℕ) where
  idx : ℕ
  idx = head % 2 ^ k

  -- Up to the last slot of the ring.
  copies-before :
      (m i : ℕ) (ring : List ℕ)
      → idx + i + m ≤ 2 ^ k
      → copies (2 ^ k) (2 ^ k - 1) head m i obj_table ring ≡ singles m ring (idx + i) obj_table i
  unfolding copies singles idx
  copies-before zero i ring h = refl
  copies-before (suc m) i ring h =
      let next : idx + i + 1 ≡ idx + (i + 1) = omega arith in
      rw (bit_and-mask k head, lt→ltb (idx + i) (2 ^ k) (omega arith), next)
        (copies-before m (i + 1) _ (omega arith))

  -- From the first slot on.
  copies-after :
      (m i : ℕ) (ring : List ℕ)
      → 2 ^ k ≤ idx + i
      → copies (2 ^ k) (2 ^ k - 1) head m i obj_table ring
        ≡ singles m ring (idx + i - 2 ^ k) obj_table i
  unfolding copies singles idx
  copies-after zero i ring h = refl
  copies-after (suc m) i ring h =
      let next : idx + i - 2 ^ k + 1 ≡ idx + (i + 1) - 2 ^ k = omega arith in
      rw (bit_and-mask k head, le→ltb (idx + i) (2 ^ k) h, next)
        (copies-after m (i + 1) _ (omega arith))

  copies-add :
      (a b i : ℕ) (size mask : ℕ) (ring : List ℕ)
      → copies size mask head (a + b) i obj_table ring
        ≡ copies size mask head b (i + a) obj_table (copies size mask head a i obj_table ring)
  unfolding copies
  copies-add zero b i size mask ring =
      let none_left : 0 + b ≡ b = omega arith in
      let here : i + 0 ≡ i = omega arith in rw (none_left, here)
  copies-add (suc a) b i size mask ring =
      let more : suc a + b ≡ suc (a + b) = omega arith in
      let next : i + suc a ≡ i + 1 + a = omega arith in
      rw (more, next) (copies-add a b (i + 1) size mask _)

  pub copies-around :
      (n : ℕ) (ring : List ℕ)
      → n ≤ 2 ^ k
      → copies (2 ^ k) (2 ^ k - 1) head n 0 obj_table ring
        ≡ CopyIn.around (2 ^ k) ring (head % 2 ^ k) obj_table n
  unfolding CopyIn.around idx
  copies-around n ring fits =
      let below : head % 2 ^ k < 2 ^ k = mod-lt head (pow_bounds small).0 in
      let here : idx + 0 ≡ idx = omega arith in
      elim (dec_lt (idx + n) (2 ^ k)) [
        | yes whole ↦
            rw (lt→ltb (idx + n) (2 ^ k) whole) (rw here at (copies-before n 0 ring (omega arith)))
        | no wraps ↦
            let m : ℕ = 2 ^ k - idx in
            let parts : m + (n - m) ≡ n = omega arith in
            let round : idx + m - 2 ^ k ≡ 0 = omega arith in
            let count : 0 + m ≡ m = omega arith in
            rw (le→ltb (idx + n) (2 ^ k) (omega arith)) (
              ap (λ x. copies (2 ^ k) (2 ^ k - 1) head x 0 obj_table ring) (sym parts)
              ∙ copies-add m (n - m) 0 (2 ^ k) (2 ^ k - 1) ring
              ∙ rw (count, copies-after (n - m) m _ (omega arith), round)
                  (ap (λ x. singles (n - m) x 0 obj_table m)
                    (copies-before m 0 ring (omega arith)
                      ∙ ap (λ j. singles m ring j obj_table 0) here)))
      ]
