-- ===== src/Mempool/Cut.antt =====
-- The elements of the pages of a datastore of core/mempool.c, cut into chunks as lists.
use kns.Common.{
  ℕ, zero, suc, ◌+◌, ◌*◌, ◌<◌, ◌≡◌, refl, subst, ◌||◌, List, [], ◌∷◌, ◌++◌, arith, inl, inr,
}
use kns.Common.Tests.{◌==◌, if◌then◌else◌, ==→eq, Bool-cases}
use kns.Common.Lists.{length, length-append}
use kns.Common.Links.{has, has-append}
use kns.Mempool.View.{flat}
use kns.Mempool.Setup.{page_size_2mb}

-- The chunks finished, the last one first, and the chunk begun, with one element more.
abbrev pub add : (k : ℕ) → List (List ℕ) → List ℕ → ℕ → List (List ℕ) × List ℕ
add k cs part x =
    if length (part ++ x ∷ []) == k then ((part ++ x ∷ []) ∷ cs, []) else (cs, part ++ x ∷ [])

abbrev pub add_all : (k : ℕ) → List (List ℕ) × List ℕ → List ℕ → List (List ℕ) × List ℕ
add_all k (cs, part) [] = (cs, part)
add_all k (cs, part) (x ∷ xs) = add_all k (add k cs part x) xs

-- The elements of a page, and of pages.
abbrev pub page_elems : (elems cur elem_len : ℕ) → List ℕ
page_elems zero cur elem_len = []
page_elems (suc j) cur elem_len = cur ∷ page_elems j (cur + elem_len) elem_len

abbrev pub pages_elems : (nr_pages i base elems elem_len : ℕ) → List ℕ
pages_elems zero i base elems elem_len = []
pages_elems (suc n) i base elems elem_len =
    page_elems elems (base + i * page_size_2mb) elem_len
    ++ pages_elems n (i + 1) base elems elem_len

pub add_all-append :
    (k : ℕ) (st : List (List ℕ) × List ℕ) (xs ys : List ℕ)
    → add_all k st (xs ++ ys) ≡ add_all k (add_all k st xs) ys
add_all-append k (cs, part) [] ys = refl
add_all-append k (cs, part) (x ∷ xs) ys = add_all-append k (add k cs part x) xs ys

-- Every chunk has `k` elements.
abbrev pub AllFull : ℕ → List (List ℕ) → Type 0
AllFull k [] = Unit
AllFull k (c ∷ cs) = (length c ≡ k) × AllFull k cs

abbrev pub Kept : (k n : ℕ) → List (List ℕ) × List ℕ → Type 0
Kept k n (cs, part) = AllFull k cs × (length part < k) × (length (flat cs) + length part ≡ n)

pub add-Kept :
    (k n : ℕ) (cs : List (List ℕ)) (part : List ℕ) (x : ℕ)
    → Kept k n (cs, part)
    → Kept k (n + 1) (add k cs part x)
add-Kept k n cs part x h = elim (Bool-cases (length (part ++ x ∷ []) == k)) [
  | inl full ↦ rw full (
    (==→eq (length (part ++ x ∷ [])) k full, h.0),
    omega (arith, h.1),
    omega (arith, length-append (part ++ x ∷ []) (flat cs), length-append part (x ∷ []), h.2),
  )
  | inr room ↦ rw room (
    h.0,
    ground (arith, length-append part (x ∷ []), h.1, room),
    omega (arith, length-append part (x ∷ []), h.2),
  )
]

pub add_all-Kept :
    (k n : ℕ) (st : List (List ℕ) × List ℕ) (xs : List ℕ)
    → Kept k n st
    → Kept k (n + length xs) (add_all k st xs)
add_all-Kept k n (cs, part) [] h = subst (λ m. Kept k m (cs, part)) (omega arith) h
add_all-Kept k n (cs, part) (x ∷ xs) h =
    subst (λ m. Kept k m (add_all k (add k cs part x) xs)) (omega arith)
      (add_all-Kept k (n + 1) (add k cs part x) xs (add-Kept k n cs part x h))

add-has :
    (a k : ℕ) (cs : List (List ℕ)) (part : List ℕ) (x : ℕ)
    → (has a (flat (add k cs part x).0) || has a (add k cs part x).1)
      ≡ ((has a (flat cs) || has a part) || (a == x))
add-has a k cs part x = elim (Bool-cases (length (part ++ x ∷ []) == k)) [
  | inl full ↦
      rw full (ground (arith, has-append a (part ++ x ∷ []) (flat cs), has-append a part (x ∷ [])))
  | inr room ↦ rw room (ground (arith, has-append a part (x ∷ [])))
]

-- The elements of the chunks and of the chunk begun are those of before and those added.
pub add_all-has :
    (a k : ℕ) (st : List (List ℕ) × List ℕ) (xs : List ℕ)
    → (has a (flat (add_all k st xs).0) || has a (add_all k st xs).1)
      ≡ ((has a (flat st.0) || has a st.1) || has a xs)
add_all-has a k (cs, part) [] = ground arith
add_all-has a k (cs, part) (x ∷ xs) =
    ground (arith, add_all-has a k (add k cs part x) xs, add-has a k cs part x)
