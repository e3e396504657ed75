-- ===== src/Mempool/Checks.antt =====
-- What the BUG_ON lines of core/mempool.c do to the second stages, and what these do to the count of
-- free elements.
use kns.Common.{ℕ, ◌≡◌, refl, List, [], ◌∷◌, true, false, arith}
use kns.Common.Int.{pos}
use kns.Common.Bug.{done, bug}
use kns.Mempool.{State, kns_mempool_alloc, mempool_alloc_2, kns_mempool_free, mempool_free_2}
use kns.Mempool.View.{Holds}

-- With BUG_ON on, an allocation that finds the free list empty stops, though the spare chunk or the
-- datastore may hold elements: the check is on the very condition of its call.
pub kns_mempool_alloc-bug : (s : State) → s.pool.head ≡ 0 → kns_mempool_alloc true s ≡ bug
unfolding kns_mempool_alloc mempool_alloc_2
kns_mempool_alloc-bug s h = ground arith

-- With BUG_ON on, a free to a pool that counts exactly a chunk of free elements stops.
pub kns_mempool_free-bug :
    (s : State) (ptr : ℕ)
    → s.pool.num_free ≡ pos s.pool.chunk_size
    → kns_mempool_free true s ptr ≡ bug
unfolding kns_mempool_free mempool_free_2
kns_mempool_free-bug s ptr h = ground arith

-- With the checks passed, an allocation that takes over a spare chunk of `n + 1` elements leaves a
-- free list of `n` and the count as it was, although it goes down by one on the other path.
pub mempool_alloc_2-miscounts :
    (s : State) (y : ℕ) (spare : List ℕ) (chunks : List (List ℕ))
    → Holds s [] (y ∷ spare) chunks
    → (s' : State) × (kns_mempool_alloc false s ≡ done (y, s'))
      × Holds s' spare [] chunks
      × (s'.pool.num_free ≡ s.pool.num_free)
unfolding kns_mempool_alloc mempool_alloc_2
mempool_alloc_2-miscounts s y spare chunks h = (
  record s {
    pool = record (s.pool) { head = s.mem.next (s.pool.private_chunk); private_chunk = 0 };
  },
  ground arith,
  record {
    local_chain = ground arith;
    spare_chain = refl;
    chunk_chains = h.chunk_chains;
    distinct = h.distinct.1;
    owned = h.owned;
  },
  refl,
)
