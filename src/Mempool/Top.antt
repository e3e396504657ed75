-- ===== src/Mempool/Top.antt =====
-- The element that a pool of core/mempool.c hands out next: it is not NULL, and is free only once.
use kns.Common.{ℕ, ◌≡◌, ◌≢◌, refl, subst, false, List, [], ◌∷◌, ◌++◌, arith}
use kns.Common.Links.{Links, Chain, Distinct, has, has-append}
use kns.Mempool.{Mem, State}
use kns.Mempool.View.{flat, Chunks, Holds, IsStack}

Chain-some : (next : Links) (p : ℕ) (xs : List ℕ) → Chain next p xs → has 0 xs ≡ false
Chain-some next p [] h = refl
Chain-some next p (x ∷ xs) h = ground (arith, Chain-some next (next x) xs)

Chunks-some : (mem : Mem) (p : ℕ) (cs : List (List ℕ)) → Chunks mem p cs → has 0 (flat cs) ≡ false
Chunks-some mem p [] h = refl
Chunks-some mem p (c ∷ cs) h =
    rw
      (
        has-append 0 c (flat cs),
        Chain-some mem.next p c h.1,
        Chunks-some mem (mem.next_chunk p) cs h.2,
      )
      refl

Holds-some :
    (s : State) (local spare : List ℕ) (chunks : List (List ℕ))
    → Holds s local spare chunks
    → has 0 (local ++ (spare ++ flat chunks)) ≡ false
Holds-some s local spare chunks h =
    rw
      (
        has-append 0 local (spare ++ flat chunks),
        has-append 0 spare (flat chunks),
        Chain-some s.mem.next s.pool.head local h.local_chain,
        Chain-some s.mem.next s.pool.private_chunk spare h.spare_chain,
        Chunks-some s.mem s.store.chunk_head chunks h.chunk_chains,
      )
      refl

top_some : (p : ℕ) (free : List ℕ) → has 0 (p ∷ free) ≡ false → p ≢ 0
top_some p free h = λ e. ground arith

pub IsStack-top :
    {s : State} {p : ℕ} {free : List ℕ} → IsStack s (p ∷ free) → (p ≢ 0) × (has p free ≡ false)
IsStack-top {s} {p} {free} h = (
  top_some p free
      (subst (λ l. has 0 l ≡ false) h.order (Holds-some s h.local h.spare h.chunks h.holds)),
  (subst Distinct h.order h.holds.distinct).0,
)
