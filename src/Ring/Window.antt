-- ===== src/Ring/Window.antt =====
-- The objects of a ring in order: the `n` slots from the free-running index `h` on, going round at
-- the size.
use kns.Common.{
  ℕ, zero, suc, ◌+◌, ◌%◌, ◌≤◌, ◌<◌, ◌≡◌, refl, sym, ap, ap₂, ◌∙◌, List, [], ◌∷◌, ◌++◌, arith,
}
use kns.Common.Lists.{length, get_or, take, drop}

abbrev pub window : List ℕ → ℕ → ℕ → ℕ → List ℕ
window ring size h zero = []
window ring size h (suc n) = get_or ring (h % size) 0 ∷ window ring size (h + 1) n

pub length-window : (ring : List ℕ) (size h n : ℕ) → length (window ring size h n) ≡ n
length-window ring size h zero = refl
length-window ring size h (suc n) = ap suc (length-window ring size (h + 1) n)

pub window-add :
    (ring : List ℕ) (size h m n : ℕ)
    → window ring size h (m + n) ≡ window ring size h m ++ window ring size (h + m) n
window-add ring size h zero n =
    let none_left : 0 + n ≡ n = omega arith in
    let here : h + 0 ≡ h = omega arith in rw (none_left, here)
window-add ring size h (suc m) n =
    let more : suc m + n ≡ suc (m + n) = omega arith in
    let next : h + suc m ≡ h + 1 + m = omega arith in
    rw (more, next, window-add ring size (h + 1) m n)

-- Two windows agree when their slots do.
pub window-eq :
    (ring ring' : List ℕ) (size h h' n : ℕ)
    → ((t : ℕ) → t < n → get_or ring ((h + t) % size) 0 ≡ get_or ring' ((h' + t) % size) 0)
    → window ring size h n ≡ window ring' size h' n
window-eq ring ring' size h h' zero same = refl
window-eq ring ring' size h h' (suc n) same =
    let first : get_or ring (h % size) 0 ≡ get_or ring' (h' % size) 0 =
      let here : h + 0 ≡ h = omega arith in
      let here' : h' + 0 ≡ h' = omega arith in rw (← here, ← here') (same 0 (omega arith)) in
    ap₂ ◌∷◌ first (
      window-eq ring ring' size (h + 1) (h' + 1) n λ t p.
        let next : h + 1 + t ≡ h + suc t = omega arith in
        let next' : h' + 1 + t ≡ h' + suc t = omega arith in
        rw (next, next') (same (suc t) (omega arith)))

pub window-take :
    (ring : List ℕ) (size h n : ℕ) (xs : List ℕ)
    → n ≤ length xs
    → ((t : ℕ) → t < n → get_or ring ((h + t) % size) 0 ≡ get_or xs t 0)
    → window ring size h n ≡ take n xs
window-take ring size h zero xs room same = refl
window-take ring size h (suc n) [] room same = absurd (omega arith)
window-take ring size h (suc n) (x ∷ xs) room same =
    let first : get_or ring (h % size) 0 ≡ x =
      let here : h + 0 ≡ h = omega arith in
      ap (λ i. get_or ring (i % size) 0) (sym here) ∙ same 0 (omega arith) in
    ap₂ ◌∷◌ first (
      window-take ring size (h + 1) n xs (omega arith) λ t p.
        let next : h + 1 + t ≡ h + suc t = omega arith in rw next (same (suc t) (omega arith)))

pub take-window :
    (ring : List ℕ) (size h m n : ℕ) → take m (window ring size h (m + n)) ≡ window ring size h m
take-window ring size h zero n = refl
take-window ring size h (suc m) n =
    let more : suc m + n ≡ suc (m + n) = omega arith in rw (more, take-window ring size (h + 1) m n)

pub drop-window :
    (ring : List ℕ) (size h m n : ℕ)
    → drop m (window ring size h (m + n)) ≡ window ring size (h + m) n
drop-window ring size h zero n =
    let none_left : 0 + n ≡ n = omega arith in
    let here : h + 0 ≡ h = omega arith in rw (none_left, here)
drop-window ring size h (suc m) n =
    let more : suc m + n ≡ suc (m + n) = omega arith in
    let next : h + suc m ≡ h + 1 + m = omega arith in
    rw (more, next, drop-window ring size (h + 1) m n)
