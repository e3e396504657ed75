-- ===== src/Mempool/SetupTests.antt =====
-- The creation of a datastore of core/mempool.c at a page of three elements, cut into chunks of two.
use kns.Common.{ℕ, ◌≡◌, refl, List, [], ◌∷◌, false, true, arith}
use kns.Common.Tests.{◌==◌, if◌then◌else◌}
use kns.Common.Int.{pos}
use kns.Common.Bug.{done}
use kns.Mempool.{Mem, Datastore, Pool, mempool_magic}
use kns.Common.Links.{has}
use kns.Mempool.View.{flat, IsStack}
use kns.Mempool.Setup.{
  mempool_init_buf_with_pages, kns_mempool_create, init_pages, init_page, thread,
}
use kns.Mempool.Cut.{pages_elems}
use kns.Mempool.Chunking.{
  Chunked, IsFresh, mempool_init_buf_with_pages-Chunked, kns_mempool_create-IsStack,
}

abbrev zeroed : Mem
zeroed = record { next = λ a. 0; next_chunk = λ a. 0 }

abbrev empty_store : Datastore
empty_store = record {
  magic = mempool_magic;
  chunk_head = 0;
  buf = 64;
  nr_pages = 1;
  nr_elems = 3;
  elem_len = 16;
  nostraddle = true;
  chunk_size = 2;
  num_chunks = pos 0;
  free_chunks = pos 0;
  num_locks = pos 0;
}

zeroed-IsFresh : IsFresh zeroed (pages_elems 1 0 64 3 16)
zeroed-IsFresh = ((λ a m. (ground (arith, m), refl, refl)), ground arith)

mempool_init_buf_with_pages-Chunked_example :
    (cs : List (List ℕ)) × Chunked 2 3
      (mempool_init_buf_with_pages zeroed empty_store 3 1 16).0
      (mempool_init_buf_with_pages zeroed empty_store 3 1 16).1
      cs
    × ((a : ℕ) → has a (flat cs) ≡ true → has a (pages_elems 1 0 64 3 16) ≡ true)
mempool_init_buf_with_pages-Chunked_example =
    mempool_init_buf_with_pages-Chunked zeroed empty_store 3 1 16 refl (omega arith) (omega arith)
      zeroed-IsFresh

-- A datastore with one chunk of two.
abbrev cut_mem : Mem
cut_mem = record { next = λ a. if a == 64 then 80 else 0; next_chunk = λ a. 0 }

abbrev cut_store : Datastore
cut_store = record empty_store { chunk_head = 64; num_chunks = pos 1; free_chunks = pos 1 }

cut_store-Chunked : Chunked 2 3 cut_mem cut_store ((64 ∷ 80 ∷ []) ∷ [])
cut_store-Chunked = ground arith

-- What the cutting leaves.
cut_as_expected : (mempool_init_buf_with_pages zeroed empty_store 3 1 16).1 ≡ cut_store
unfolding mempool_init_buf_with_pages init_pages init_page thread
cut_as_expected = refl

abbrev zero_pool : Pool
zero_pool = record {
  head = 0;
  num_free = pos 0;
  elem_len = 0;
  magic = 0;
  buf = 0;
  datastore = 0;
  private_chunk = 0;
  sanity = 0;
  nr_elems = 0;
  nostraddle = false;
  chunk_size = 0;
}

kns_mempool_create-IsStack_example :
    (m' : Pool) × (kns_mempool_create false zero_pool cut_store 8 0 0 ≡ done m')
    × IsStack (record { mem = cut_mem; pool = m'; store = cut_store }) (64 ∷ 80 ∷ [])
kns_mempool_create-IsStack_example =
    kns_mempool_create-IsStack cut_mem cut_store ((64 ∷ 80 ∷ []) ∷ []) 2 3 zero_pool 8 0 0
      cut_store-Chunked refl (omega arith)
