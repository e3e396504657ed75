-- ===== src/Ring/CopyLaws.antt =====
-- What the two copies of ring.h leave at each index: the unrolled branch and the branch of two runs
-- come to the same, the copy of `n` pointers going round at the size.
use kns.Common.{
  ℕ, zero, suc, ◌+◌, ◌-◌, ◌*◌, ◌/◌, ◌%◌, ◌^◌, ◌≤◌, ◌<◌, ◌≡◌, refl, sym, ap, ◌∙◌, ◌⊎◌, inl, inr,
  List, arith, dec_lt,
}
use native.Mathlib.Nat.{mod-lt, one-le-pow, pow-le-pow_right, mod-eq_of_lt, mod-eq-sub-mod}
use kns.Common.Bits.{bit_and-mask}
use kns.Common.Lists.{length, get_or, length-set, get_or-set_self, get_or-set_ne}
use kns.Ring.Copy.{put1, singles, quads, rest, unrolled}

pub length-singles :
    (k : ℕ) (dst : List ℕ) (di : ℕ) (src : List ℕ) (si : ℕ)
    → length (singles k dst di src si) ≡ length dst
unfolding singles
length-singles zero dst di src si = refl
length-singles (suc k) dst di src si =
    length-singles k _ (di + 1) src (si + 1) ∙ length-set dst di (get_or src si 0)

-- A run of single copies writes nothing outside `dst[di .. di + k)`.
pub singles-out :
    (k : ℕ) (dst : List ℕ) (di : ℕ) (src : List ℕ) (si j : ℕ)
    → (j < di) ⊎ (di + k ≤ j)
    → get_or (singles k dst di src si) j 0 ≡ get_or dst j 0
unfolding singles
singles-out zero dst di src si j h = refl
singles-out (suc k) dst di src si j h = ground (
  arith,
  singles-out k (put1 dst di src si) (di + 1) src (si + 1) j,
  get_or-set_ne dst di j (get_or src si 0) 0,
)

-- Inside it leaves `src[si ..)`.
pub singles-in :
    (k : ℕ) (dst : List ℕ) (di : ℕ) (src : List ℕ) (si t : ℕ)
    → t < k
    → di + k ≤ length dst
    → get_or (singles k dst di src si) (di + t) 0 ≡ get_or src (si + t) 0
unfolding singles
singles-in zero dst di src si t h fits = absurd (omega arith)
singles-in (suc k) dst di src si zero h fits = ground (
  arith,
  singles-out k (put1 dst di src si) (di + 1) src (si + 1) (di + 0) (inl (omega arith)),
  get_or-set_self dst di (get_or src si 0) 0 (omega arith),
)
singles-in (suc k) dst di src si (suc t) h fits = ground (
  arith,
  length-set dst di (get_or src si 0),
  singles-in k (put1 dst di src si) (di + 1) src (si + 1) t (omega arith),
)

singles-add :
    (k l : ℕ) (dst : List ℕ) (di : ℕ) (src : List ℕ) (si : ℕ)
    → singles (k + l) dst di src si ≡ singles l (singles k dst di src si) (di + k) src (si + k)
unfolding singles
singles-add zero l dst di src si = ground arith
singles-add (suc k) l dst di src si =
    let more : suc k + l ≡ suc (k + l) = omega arith in
    let d : di + 1 + k ≡ di + suc k = omega arith in
    let s : si + 1 + k ≡ si + suc k = omega arith in
    rw (more, ← d, ← s) (singles-add k l _ (di + 1) src (si + 1))

-- Four rounds of the single copy, with the indices that a round of four writes.
four_singles :
    (m : ℕ) (dst : List ℕ) (di : ℕ) (src : List ℕ) (si : ℕ)
    → singles (suc (suc (suc (suc m)))) dst di src si
      ≡ singles m
          (put1
            (put1 (put1 (put1 dst di src si) (di + 1) src (si + 1)) (di + 2) src (si + 2))
            (di + 3)
            src
            (si + 3))
          (di + 4)
          src
          (si + 4)
unfolding singles
four_singles m dst di src si =
    let two : (x : ℕ) → x + 1 + 1 ≡ x + 2 = λ x. omega arith in
    let three : (x : ℕ) → x + 2 + 1 ≡ x + 3 = λ x. omega arith in
    let more : (x : ℕ) → x + 3 + 1 ≡ x + 4 = λ x. omega arith in simp (two, three, more)

quads-singles :
    (k : ℕ) (dst : List ℕ) (di : ℕ) (src : List ℕ) (si : ℕ)
    → quads k dst di src si ≡ singles (4 * k) dst di src si
unfolding quads singles
quads-singles zero dst di src si = refl
quads-singles (suc k) dst di src si =
    let four : 4 * suc k ≡ suc (suc (suc (suc (4 * k)))) = omega arith in
    quads-singles k _ (di + 4) src (si + 4)
    ∙ sym (four_singles (4 * k) dst di src si)
    ∙ ap (λ m. singles m dst di src si) (sym four)

rest-singles :
    (m : ℕ) (dst : List ℕ) (di : ℕ) (src : List ℕ) (si : ℕ)
    → m < 4
    → rest m dst di src si ≡ singles m dst di src si
unfolding rest singles
rest-singles zero dst di src si h = refl
rest-singles (suc zero) dst di src si h = refl
rest-singles (suc (suc zero)) dst di src si h = refl
rest-singles (suc (suc (suc zero))) dst di src si h = ground arith
rest-singles (suc (suc (suc (suc m)))) dst di src si h = absurd (omega arith)

pub unrolled-singles :
    (n : ℕ) (dst : List ℕ) (di : ℕ) (src : List ℕ) (si : ℕ)
    → unrolled n dst di src si ≡ singles n dst di src si
unfolding unrolled
unrolled-singles n dst di src si =
    let m : ℕ = 4 * (n / 4) in
    let whole : m + n % 4 ≡ n = omega arith in
    rw (bit_and-mask 2 n, quads-singles (n / 4) dst di src si)
      (rest-singles (n % 4) _ (di + m) src (si + m) (omega arith)
        ∙ sym (singles-add m (n % 4) dst di src si)
        ∙ ap (λ k. singles k dst di src si) whole)

-- A place `t` further round a ring of `size` slots.
pub mod_cases :
    (idx t size : ℕ)
    → idx < size
    → t < size
    → ((idx + t < size) × ((idx + t) % size ≡ idx + t))
      ⊎ ((size ≤ idx + t) × ((idx + t) % size ≡ idx + t - size))
mod_cases idx t size h ht = elim (dec_lt (idx + t) size) [
  | yes p ↦ inl (p, mod-eq_of_lt p)
  | no p ↦ inr (
    omega arith,
    mod-eq-sub-mod {n = idx + t} {m = size} (omega arith)
        ∙ mod-eq_of_lt {n = idx + t - size} {m = size} (omega arith),
  )
]

-- `idx + n` of ring.h is below 2 ^ 32, so the addition does not wrap.
pub no_wrap : (k x n : ℕ) → k ≤ 31 → n ≤ 2 ^ k → (x % 2 ^ k + n) % 2 ^ 32 ≡ x % 2 ^ k + n
no_wrap k x n small fits =
    omega
      (arith, pow-le-pow_right {n = 2} (omega arith) small, mod-lt x (one-le-pow k 2 (omega arith)))
