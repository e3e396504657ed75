-- ===== src/Rx/Turns.antt =====
-- What rounds of `eth_process_recv` of core/ethqueue.c give out, on the lists that the queues hold.
use kns.Common.{ℕ, zero, suc, ◌≤◌, ◌≡◌, refl, ap, true, false, List, [], ◌∷◌, ◌++◌, map, arith}
use kns.Common.Lists.{length, drop}
use kns.Rx.{is_nil}

-- The first packet of every list that has one.
abbrev pub heads : List (List ℕ) → List ℕ
heads [] = []
heads ([] ∷ xss) = heads xss
heads ((x ∷ xs) ∷ xss) = x ∷ heads xss

-- What so many rounds give out.
abbrev pub turns : ℕ → List (List ℕ) → List ℕ
turns zero xss = []
turns (suc r) xss = heads xss ++ turns r (map (drop 1) xss)

pub length-heads : (xss : List (List ℕ)) → length (heads xss) ≤ length xss
length-heads [] = omega arith
length-heads ([] ∷ xss) = omega (arith, length-heads xss)
length-heads ((x ∷ xs) ∷ xss) = omega (arith, length-heads xss)

abbrev pub AllEmpty : List (List ℕ) → Type 0
AllEmpty [] = Unit
AllEmpty (xs ∷ xss) = (xs ≡ []) × AllEmpty xss

pub heads-nil : (xss : List (List ℕ)) → is_nil (heads xss) ≡ true → AllEmpty (map (drop 1) xss)
heads-nil [] e = tt
heads-nil ([] ∷ xss) e = (refl, heads-nil xss e)
heads-nil ((x ∷ xs) ∷ xss) e = absurd (ground (arith, e))

pub is_nil-length : (xs : List ℕ) → is_nil xs ≡ false → 1 ≤ length xs
is_nil-length [] e = absurd (ground (arith, e))
is_nil-length (x ∷ xs) e = omega arith

pub drop-drop :
    (r : ℕ) (xss : List (List ℕ)) → map (drop r) (map (drop 1) xss) ≡ map (drop (suc r)) xss
drop-drop r [] = refl
drop-drop zero ([] ∷ xss) = ap (λ l. [] ∷ l) (drop-drop 0 xss)
drop-drop (suc r) ([] ∷ xss) = ap (λ l. [] ∷ l) (drop-drop (suc r) xss)
drop-drop r ((x ∷ xs) ∷ xss) = ap (λ l. drop r xs ∷ l) (drop-drop r xss)

pub length-map-drop : (xss : List (List ℕ)) → length (map (drop 1) xss) ≡ length xss
length-map-drop [] = refl
length-map-drop (xs ∷ xss) = ap suc (length-map-drop xss)
