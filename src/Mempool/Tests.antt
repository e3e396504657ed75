-- ===== src/Mempool/Tests.antt =====
-- The theorems on the pools of core/mempool.c at a pool whose free list is empty, with a spare chunk
-- and one chunk in the datastore.
use kns.Common.{◌≡◌, refl, [], ◌∷◌, true, false, arith}
use kns.Common.Int.{pos}
use kns.Common.Bug.{done}
use kns.Mempool.{State, mempool_magic, kns_mempool_alloc, kns_mempool_free}
use kns.Mempool.View.{Holds, IsStack}
use kns.Mempool.Pop.{Popped, kns_mempool_alloc-pops}
use kns.Mempool.Push.{kns_mempool_free-pushes}
use kns.Common.Tests.{◌==◌, if◌then◌else◌}

-- Chunks of two: 64 and 128 are the spare chunk, 192 and 256 a chunk of the datastore.
abbrev drained : State
drained = record {
  mem = record {
    next = λ a. if a == 64 then 128 else if a == 192 then 256 else 0;
    next_chunk = λ a. 0;
  };
  pool = record {
    head = 0;
    num_free = pos 0;
    elem_len = 64;
    magic = mempool_magic;
    buf = 64;
    datastore = 8;
    private_chunk = 64;
    sanity = 0;
    nr_elems = 4;
    nostraddle = true;
    chunk_size = 2;
  };
  store = record {
    magic = mempool_magic;
    chunk_head = 192;
    buf = 64;
    nr_pages = 1;
    nr_elems = 4;
    elem_len = 64;
    nostraddle = true;
    chunk_size = 2;
    num_chunks = pos 2;
    free_chunks = pos 1;
    num_locks = pos 1;
  };
}

drained-Holds : Holds drained [] (64 ∷ 128 ∷ []) ((192 ∷ 256 ∷ []) ∷ [])
drained-Holds = ground arith

drained-IsStack : IsStack drained (64 ∷ 128 ∷ 192 ∷ 256 ∷ [])
drained-IsStack = record {
  local = [];
  spare = 64 ∷ 128 ∷ [];
  chunks = (192 ∷ 256 ∷ []) ∷ [];
  holds = drained-Holds;
  order = refl;
}

kns_mempool_alloc-pops_example :
    Popped drained (64 ∷ 128 ∷ 192 ∷ 256 ∷ []) (kns_mempool_alloc false drained)
kns_mempool_alloc-pops_example = kns_mempool_alloc-pops drained-IsStack

-- The same pool, counting a full free list.
abbrev counted : State
counted = record drained { pool = record (drained.pool) { num_free = pos 2 } }

counted-IsStack : IsStack counted (64 ∷ 128 ∷ 192 ∷ 256 ∷ [])
counted-IsStack = record {
  local = [];
  spare = 64 ∷ 128 ∷ [];
  chunks = (192 ∷ 256 ∷ []) ∷ [];
  holds = ground arith;
  order = refl;
}

kns_mempool_free-pushes_example :
    (s' : State) × (kns_mempool_free false counted 320 ≡ done s')
    × IsStack s' (320 ∷ 64 ∷ 128 ∷ 192 ∷ 256 ∷ [])
kns_mempool_free-pushes_example = kns_mempool_free-pushes 320 counted-IsStack (omega arith) refl
