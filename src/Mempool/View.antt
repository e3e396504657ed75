-- ===== src/Mempool/View.antt =====
-- What a pool and its datastore of core/mempool.c hold, as lists: the free list, the spare chunk and
-- the chunks of the datastore. Strung together they are a stack of free elements.
use kns.Common.{ℕ, ◌≡◌, ◌≢◌, List, [], ◌∷◌, ◌++◌, false, arith}
use kns.Common.Links.{Links, set_link, has, Chain, Distinct, Chain-set_link, has-append}
use kns.Mempool.{Mem, State}

abbrev pub flat : List (List ℕ) → List ℕ
flat [] = []
flat (c ∷ cs) = c ++ flat cs

-- From `p` the `next_chunk` links lead through the heads of the chunks `cs`.
abbrev pub Chunks : Mem → ℕ → List (List ℕ) → Type 0
Chunks mem p [] = p ≡ 0
Chunks mem p (c ∷ cs) = (p ≢ 0) × Chain mem.next p c × Chunks mem (mem.next_chunk p) cs

pub record Holds (s : State) (local spare : List ℕ) (chunks : List (List ℕ)) : Type 0 where
  pub local_chain : Chain s.mem.next s.pool.head local
  pub spare_chain : Chain s.mem.next s.pool.private_chunk spare
  pub chunk_chains : Chunks s.mem s.store.chunk_head chunks
  pub distinct : Distinct (local ++ (spare ++ flat chunks))
  pub owned : s.pool.datastore ≢ 0

-- The elements of `free`, in this order, are what the pool can hand out.
pub record IsStack (s : State) (free : List ℕ) : Type 0 where
  pub local : List ℕ
  pub spare : List ℕ
  pub chunks : List (List ℕ)
  pub holds : Holds s local spare chunks
  pub order : local ++ (spare ++ flat chunks) ≡ free

pub Chunks-set_link :
    (mem : Mem) (a b p : ℕ) (cs : List (List ℕ))
    → has a (flat cs) ≡ false
    → Chunks mem p cs
    → Chunks (record mem { next = set_link (mem.next) a b }) p cs
Chunks-set_link mem a b p [] out h = h
Chunks-set_link mem a b p (c ∷ cs) out h = ground (
  arith,
  has-append a c (flat cs),
  Chain-set_link mem.next a b p c,
  Chunks-set_link mem a b (mem.next_chunk p) cs,
)

-- The head of a chunk that is listed is one of its elements.
head-listed :
    (next : Links) (a p : ℕ) (c : List ℕ) → p ≢ 0 → Chain next p c → has a c ≡ false → a ≢ p
head-listed next a p [] h chain out = absurd (h chain)
head-listed next a p (x ∷ c) h chain out = λ e. ground arith

pub Chunks-set_chunk :
    (mem : Mem) (a b p : ℕ) (cs : List (List ℕ))
    → has a (flat cs) ≡ false
    → Chunks mem p cs
    → Chunks (record mem { next_chunk = set_link (mem.next_chunk) a b }) p cs
Chunks-set_chunk mem a b p [] out h = h
Chunks-set_chunk mem a b p (c ∷ cs) out h = ground (
  arith,
  has-append a c (flat cs),
  head-listed mem.next a p c,
  Chunks-set_chunk mem a b (mem.next_chunk p) cs,
)
