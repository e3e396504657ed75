-- ===== src/Common/Links.antt =====
-- Singly linked lists through a map of `next` pointers: which addresses a chain visits, and that a
-- write to a node off the chain leaves it alone.
use kns.Common.Tests.{◌==◌, if◌then◌else◌}
use Prim.Native.Nat.{ℕ}
use mathlib.Core.Path.{◌≡◌, refl}
use mathlib.Core.Logic.{◌≢◌}
use mathlib.Core.Bool.{Bool, false, ◌||◌}
use mathlib.Core.List.{List, [], ◌∷◌, ◌++◌}
use native.Mathlib.Omega.{arith}

-- `a->next`, for every address
abbrev pub Links : Type 0
Links = ℕ → ℕ

abbrev pub null : ℕ
null = 0

abbrev pub set_link : Links → ℕ → ℕ → Links
set_link next a b c = if c == a then b else next c

abbrev pub has : ℕ → List ℕ → Bool
has a [] = false
has a (x ∷ xs) = (a == x) || has a xs

-- From `p` the links lead through the nodes `xs`, none of them NULL, to NULL.
abbrev pub Chain : Links → ℕ → List ℕ → Type 0
Chain next p [] = p ≡ 0
Chain next p (x ∷ xs) = (p ≡ x) × (x ≢ 0) × Chain next (next x) xs

abbrev pub Distinct : List ℕ → Type 0
Distinct [] = Unit
Distinct (x ∷ xs) = (has x xs ≡ false) × Distinct xs

pub Chain-set_link :
    (next : Links) (a b p : ℕ) (xs : List ℕ)
    → has a xs ≡ false
    → Chain next p xs
    → Chain (set_link next a b) p xs
Chain-set_link next a b p [] out c = c
Chain-set_link next a b p (x ∷ xs) out c = ground (arith, Chain-set_link next a b (next x) xs)

pub has-append : (a : ℕ) (xs ys : List ℕ) → has a (xs ++ ys) ≡ (has a xs || has a ys)
has-append a [] ys = refl
has-append a (x ∷ xs) ys = ground (arith, has-append a xs ys)

pub Distinct-append_right : (xs ys : List ℕ) → Distinct (xs ++ ys) → Distinct ys
Distinct-append_right [] ys d = d
Distinct-append_right (x ∷ xs) ys d = Distinct-append_right xs ys d.1
