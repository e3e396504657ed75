-- ===== src/Mempool/Pop.antt =====
-- With its checks passed, an allocation of core/mempool.c pops the stack of free elements that the
-- pool and its datastore form.
use kns.Common.{ℕ, ◌≡◌, refl, subst, List, [], ◌∷◌, ◌++◌, false, arith}
use kns.Common.Int.{pos, ◌+ℤ◌, ◌-ℤ◌}
use kns.Common.Bug.{Run, done}
use kns.Mempool.{State, kns_mempool_alloc, mempool_alloc_2}
use kns.Mempool.View.{flat, Holds, IsStack}

-- What an allocation answers: the element at the top, or NULL and nothing changed when none is free.
abbrev pub Popped : State → List ℕ → Run (ℕ × State) → Type 0
Popped s [] r = r ≡ done (0, s)
Popped s (p ∷ free) r = (s' : State) × (r ≡ done (p, s')) × IsStack s' free

alloc-Holds :
    (s : State) (local spare : List ℕ) (chunks : List (List ℕ))
    → Holds s local spare chunks
    → Popped s (local ++ (spare ++ flat chunks)) (kns_mempool_alloc false s)
unfolding kns_mempool_alloc mempool_alloc_2
alloc-Holds s (x ∷ local) spare chunks h = (
  record s {
    pool = record (s.pool) { head = s.mem.next (s.pool.head); num_free = s.pool.num_free -ℤ pos 1 };
  },
  ground arith,
  record {
    local = local;
    spare = spare;
    chunks = chunks;
    holds = record {
      local_chain = ground arith;
      spare_chain = h.spare_chain;
      chunk_chains = h.chunk_chains;
      distinct = h.distinct.1;
      owned = h.owned;
    };
    order = refl;
  },
)
alloc-Holds s [] (y ∷ spare) chunks h = (
  record s {
    pool = record (s.pool) { head = s.mem.next (s.pool.private_chunk); private_chunk = 0 };
  },
  ground arith,
  record {
    local = spare;
    spare = [];
    chunks = chunks;
    holds = record {
      local_chain = ground arith;
      spare_chain = refl;
      chunk_chains = h.chunk_chains;
      distinct = h.distinct.1;
      owned = h.owned;
    };
    order = refl;
  },
)
alloc-Holds s [] [] [] h = ground arith
alloc-Holds s [] [] ([] ∷ chunks) h = absurd (h.chunk_chains.0 h.chunk_chains.1)
alloc-Holds s [] [] ((c ∷ cs) ∷ chunks) h = (
  record s {
    pool = record (s.pool) { head = s.mem.next (s.store.chunk_head) };
    store = record (s.store) {
      chunk_head = s.mem.next_chunk (s.store.chunk_head);
      free_chunks = s.store.free_chunks -ℤ pos 1;
      num_locks = s.store.num_locks +ℤ pos 1;
    };
  },
  ground arith,
  record {
    local = cs;
    spare = [];
    chunks = chunks;
    holds = record {
      local_chain = ground arith;
      spare_chain = h.spare_chain;
      chunk_chains = h.chunk_chains.2;
      distinct = h.distinct.1;
      owned = h.owned;
    };
    order = refl;
  },
)

-- With the checks passed, an allocation from a pool that can hand out `free` returns the first
-- element of `free` and leaves the others in order; from one that has none it returns NULL and
-- changes nothing.
pub kns_mempool_alloc-pops :
    {s : State} {free : List ℕ} → IsStack s free → Popped s free (kns_mempool_alloc false s)
kns_mempool_alloc-pops {s} h =
    subst (λ l. Popped s l (kns_mempool_alloc false s)) h.order
      (alloc-Holds s h.local h.spare h.chunks h.holds)
