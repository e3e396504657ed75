-- ===== src/Flow/Unlink.antt =====
-- Taking a packet out of a linked list through the slot that points to it.
use kns.Common.{ℕ, ◌+◌, ◌≡◌, refl, List, [], ◌∷◌, ◌++◌, true, false, arith}
use kns.Common.Tests.{eq→==, ne→==}
use kns.Common.Lists.{length}
use kns.Common.Links.{Links, null, set_link, has, Chain, Distinct, Chain-set_link, has-append}
use kns.Flow.Queue.{IsLast}
use kns.Flow.Migrate.{Slot, at_head, at_next}

-- The last packet of `x ∷ xs`.
abbrev pub last_of : ℕ → List ℕ → ℕ
last_of x [] = x
last_of x (y ∷ ys) = last_of y ys

abbrev pub tail_of : List ℕ → ℕ
tail_of [] = null
tail_of (x ∷ xs) = last_of x xs

-- The slot that points behind `xs`.
abbrev pub slot_of : List ℕ → Slot
slot_of [] = at_head
slot_of (x ∷ xs) = at_next (last_of x xs)

pub slot_of-snoc : (xs : List ℕ) (y : ℕ) → slot_of (xs ++ y ∷ []) ≡ at_next y
slot_of-snoc [] y = refl
slot_of-snoc (x ∷ []) y = refl
slot_of-snoc (x ∷ z ∷ xs) y = slot_of-snoc (z ∷ xs) y

pub IsLast-last_of : (x : ℕ) (xs : List ℕ) → IsLast (last_of x xs) (x ∷ xs)
IsLast-last_of x [] = refl
IsLast-last_of x (y ∷ ys) = IsLast-last_of y ys

pub IsLast-tail_of : (xs : List ℕ) → IsLast (tail_of xs) xs
IsLast-tail_of [] = tt
IsLast-tail_of (x ∷ xs) = IsLast-last_of x xs

pub has-last_of : (x : ℕ) (xs ys : List ℕ) → has (last_of x xs) (x ∷ xs ++ ys) ≡ true
has-last_of x [] ys = ground arith
has-last_of x (y ∷ xs) ys = ground (arith, has-last_of y xs ys)

-- What is left without `y`.
pub has-without :
    (a : ℕ) (xs : List ℕ) (y : ℕ) (ys : List ℕ)
    → has a (xs ++ ys) ≡ true
    → has a (xs ++ y ∷ ys) ≡ true
has-without a xs y ys h = ground (arith, has-append a xs ys, has-append a xs (y ∷ ys))

pub Distinct-without :
    (xs : List ℕ) (y : ℕ) (ys : List ℕ)
    → Distinct (xs ++ y ∷ ys)
    → Distinct (xs ++ ys) × (has y (xs ++ ys) ≡ false)
Distinct-without [] y ys d = (d.1, d.0)
Distinct-without (x ∷ xs) y ys d =
    let (d', out) = Distinct-without xs y ys d.1 in
    ground (arith, has-append x xs ys, has-append x xs (y ∷ ys), has-append y xs ys)

pub length-without :
    (xs : List ℕ) (y : ℕ) (ys : List ℕ) → length (xs ++ y ∷ ys) ≡ length (xs ++ ys) + 1
length-without [] y ys = omega arith
length-without (x ∷ xs) y ys = omega (arith, length-without xs y ys)

pub Chain-unlink :
    (next : Links) (p x : ℕ) (xs : List ℕ) (y : ℕ) (ys : List ℕ)
    → Distinct (x ∷ xs ++ y ∷ ys)
    → Chain next p (x ∷ xs ++ y ∷ ys)
    → Chain (set_link next (last_of x xs) (next y)) p (x ∷ xs ++ ys)
Chain-unlink next p x [] y ys d c = (
  c.0,
  c.1,
  rw (eq→== x x refl) (Chain-set_link next x (next y) (next y) ys (ground arith) (ground arith)),
)
Chain-unlink next p x (z ∷ xs) y ys d c = (
  c.0,
  c.1,
  rw (ne→== x (last_of z xs) (ground (arith, has-last_of z xs (y ∷ ys))))
      (Chain-unlink next (next x) z xs y ys d.1 c.2),
)

pub Chain-behind :
    (next : Links) (p x : ℕ) (xs ys : List ℕ)
    → Chain next p (x ∷ xs ++ ys)
    → Chain next (next (last_of x xs)) ys
Chain-behind next p x [] ys c = c.2
Chain-behind next p x (z ∷ xs) ys c = Chain-behind next (next x) z xs ys c.2
