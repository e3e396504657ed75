-- ===== src/Mempool/Chunking.antt =====
-- `mempool_init_buf_with_pages` of core/mempool.c cuts the memory of a datastore into chunks, and a
-- pool created on the datastore can hand out the elements of all of them.
use kns.Common.{
  ℕ, zero, suc, ◌+◌, ◌*◌, ◌≤◌, ◌<◌, ◌≡◌, ◌≢◌, refl, sym, ap₂, subst, true, false, List, [], ◌∷◌,
  ◌++◌, append-nil, append_assoc, arith, inl, inr,
}
use kns.Common.Tests.{◌==◌, Bool-cases}
use kns.Common.Lists.{length}
use kns.Common.Bug.{done}
use kns.Common.Links.{null, has, Distinct}
use Prim.Native.Nat.{bit_or}
use kns.Common.{◌%◌, ◌^◌}
use kns.Mempool.{Mem, Datastore, Pool, mempool_magic}
use kns.Mempool.View.{flat, Chunks, IsStack}
use kns.Mempool.Setup.{
  Building, close_chunk, link_elem, thread, init_page, init_pages, mempool_init_buf_with_pages,
  kns_mempool_create, page_size_2mb,
}
use kns.Mempool.Build.{Threading, link_elem-Threading, close_chunk-Threading}
use kns.Mempool.Cut.{
  add, add_all, page_elems, pages_elems, add_all-append, AllFull, Kept, add_all-Kept, add_all-has,
}

abbrev pub Made : (k base : ℕ) → Building → List (List ℕ) × List ℕ → List ℕ → Type 0
Made k base b (cs, part) ahead = Threading k base b cs part ahead

closed-Threading :
    (k base : ℕ) (b : Building) (cs : List (List ℕ)) (part : List ℕ) (x : ℕ) (ahead : List ℕ)
    → Threading k base b cs (part ++ x ∷ []) ahead
    → Threading k base (close_chunk b) ((part ++ x ∷ []) ∷ cs) [] ahead
closed-Threading k base b cs [] x ahead t = close_chunk-Threading k base b cs x [] ahead t
closed-Threading k base b cs (y ∷ ys) x ahead t =
    close_chunk-Threading k base b cs y (ys ++ x ∷ []) ahead t

thread-Made :
    (k base : ℕ) (b : Building) (cs : List (List ℕ)) (part : List ℕ) (x : ℕ) (ahead : List ℕ)
    → Threading k base b cs part (x ∷ ahead)
    → Made k base (thread b x) (add k cs part x) ahead
unfolding thread
thread-Made k base b cs part x ahead t =
    let linked = link_elem-Threading k base b cs part x ahead t in
    let same : ((link_elem b x).chunk_count == b.store.chunk_size)
        ≡ (length (part ++ x ∷ []) == k) =
      ap₂ (λ a c. a == c) linked.counted t.size in
    elim (Bool-cases (length (part ++ x ∷ []) == k)) [
      | inl full ↦
          rw (same, full)
            (closed-Threading k base (record (link_elem b x) { prev = x }) cs part x ahead linked)
      | inr room ↦ rw (same, room) linked
    ]

init_page-Made :
    (k base j cur elem_len : ℕ) (b : Building) (st : List (List ℕ) × List ℕ) (ahead : List ℕ)
    → Made k base b st (page_elems j cur elem_len ++ ahead)
    → Made k base (init_page j cur elem_len b) (add_all k st (page_elems j cur elem_len)) ahead
unfolding init_page
init_page-Made k base zero cur elem_len b (cs, part) ahead m = m
init_page-Made k base (suc j) cur elem_len b (cs, part) ahead m =
    init_page-Made k base j (cur + elem_len) elem_len (thread b cur) (add k cs part cur) ahead
      (thread-Made k base b cs part cur (page_elems j (cur + elem_len) elem_len ++ ahead) m)

Made-base :
    (k base : ℕ) (b : Building) (st : List (List ℕ) × List ℕ) (ahead : List ℕ)
    → Made k base b st ahead
    → b.store.buf ≡ base
Made-base k base b (cs, part) ahead m = m.at

init_pages-Made :
    (k base n i elems elem_len : ℕ) (b : Building) (st : List (List ℕ) × List ℕ) (ahead : List ℕ)
    → Made k base b st (pages_elems n i base elems elem_len ++ ahead)
    → Made k base
        (init_pages n i elems elem_len b)
        (add_all k st (pages_elems n i base elems elem_len))
        ahead
unfolding init_pages
init_pages-Made k base zero i elems elem_len b (cs, part) ahead m = m
init_pages-Made k base (suc n) i elems elem_len b st ahead m =
    let page = page_elems elems (base + i * page_size_2mb) elem_len in
    let rest = pages_elems n (i + 1) base elems elem_len in
    let start = Made-base k base b st ((page ++ rest) ++ ahead) m in
    let first : Made k base (init_page elems (b.store.buf + i * page_size_2mb) elem_len b)
        (add_all k st page) (rest ++ ahead) =
      subst
        (λ p.
          Made k base (init_page elems (p + i * page_size_2mb) elem_len b) (add_all k st page)
            (rest ++ ahead))
        (sym start)
        (init_page-Made k base elems (base + i * page_size_2mb) elem_len b st (rest ++ ahead)
          (subst (λ l. Made k base b st l) (append_assoc page rest ahead) m)) in
    rw (add_all-append k st page rest) (
      init_pages-Made k base n (i + 1) elems elem_len
        (init_page elems (b.store.buf + i * page_size_2mb) elem_len b) (add_all k st page) ahead
        first)

-- Memory that is zero and whose elements are none of them NULL or twice there.
abbrev pub IsFresh : Mem → List ℕ → Type 0
IsFresh mem xs =
    ((a : ℕ) → has a xs ≡ true → (a ≢ 0) × (mem.next a ≡ 0) × (mem.next_chunk a ≡ 0)) × Distinct xs

-- A datastore cut into chunks of `k`, of which less than `k` of the `n` elements are left over.
pub record Chunked (k n : ℕ) (mem : Mem) (store : Datastore) (cs : List (List ℕ)) : Type 0 where
  pub chains : Chunks mem store.chunk_head cs
  pub full : AllFull k cs
  pub distinct : Distinct (flat cs)
  pub some_left : n < length (flat cs) + k
  pub none_more : length (flat cs) ≤ n

start-Threading :
    (mem : Mem) (store : Datastore) (xs : List ℕ)
    → store.chunk_head ≡ 0
    → IsFresh mem xs
    → Threading store.chunk_size store.buf
        (record { mem = mem; store = store; head = null; prev = null; chunk_count = 0 })
        []
        []
        xs
start-Threading mem store xs none_yet fresh = record {
  size = refl;
  at = refl;
  chunk_chains = none_yet;
  part_chain = refl;
  part_tail = refl;
  counted = refl;
  part_chunk = λ a m. absurd (ground (arith, m));
  fresh = fresh.0;
  ahead_distinct = fresh.1;
  part_distinct = tt;
  flat_distinct = tt;
  ahead_part = λ a m. refl;
  ahead_flat = λ a m. refl;
  part_flat = λ a m. absurd (ground (arith, m));
}

Made-Chunked :
    (k base n : ℕ) (b : Building) (st : List (List ℕ) × List ℕ)
    → Made k base b st []
    → Kept k n st
    → Chunked k n b.mem b.store st.0
Made-Chunked k base n b (cs, part) m kept = record {
  chains = m.chunk_chains;
  full = kept.0;
  distinct = m.flat_distinct;
  some_left = omega (arith, kept.1, kept.2);
  none_more = omega (arith, kept.2);
}

-- Given fresh memory, an empty datastore and elements of at least 16 bytes, the size of the header of
-- an element, `mempool_init_buf_with_pages` hangs on the datastore chunks of exactly `chunk_size`
-- elements, none of them twice and each an element of the pages; of all elements of all pages fewer
-- than `chunk_size` are left out.
pub mempool_init_buf_with_pages-Chunked :
    (mem : Mem) (store : Datastore) (elems nr_pages elem_len : ℕ)
    → store.chunk_head ≡ 0
    → 0 < store.chunk_size
    → 16 ≤ elem_len
    → IsFresh mem (pages_elems nr_pages 0 store.buf elems elem_len)
    → (cs : List (List ℕ)) × Chunked store.chunk_size
        (length (pages_elems nr_pages 0 store.buf elems elem_len))
        (mempool_init_buf_with_pages mem store elems nr_pages elem_len).0
        (mempool_init_buf_with_pages mem store elems nr_pages elem_len).1
        cs
      × ((a : ℕ)
          → has a (flat cs) ≡ true
          → has a (pages_elems nr_pages 0 store.buf elems elem_len) ≡ true)
unfolding mempool_init_buf_with_pages
mempool_init_buf_with_pages-Chunked mem store elems nr_pages elem_len none_yet some_size wide
      fresh =
    let xs = pages_elems nr_pages 0 store.buf elems elem_len in
    let b : Building = record {
      mem = mem;
      store = store;
      head = null;
      prev = null;
      chunk_count = 0;
    } in
    let begun : Made store.chunk_size store.buf b ([], []) (xs ++ []) =
      subst (λ l. Made store.chunk_size store.buf b ([], []) l) (sym (append-nil xs))
        (start-Threading mem store xs none_yet fresh) in
    (
      (add_all store.chunk_size ([], []) xs).0,
      Made-Chunked store.chunk_size store.buf (length xs) (init_pages nr_pages 0 elems elem_len b)
          (add_all store.chunk_size ([], []) xs)
          (init_pages-Made store.chunk_size store.buf nr_pages 0 elems elem_len b ([], []) [] begun)
          (subst (λ m. Kept store.chunk_size m (add_all store.chunk_size ([], []) xs)) (omega arith)
            (add_all-Kept store.chunk_size 0 ([], []) xs (tt, some_size, refl))),
      λ a h. ground (arith, add_all-has a store.chunk_size ([], []) xs, h),
    )

-- With its checks passed, a pool created on such a datastore, which is not NULL, in storage whose
-- spare chunk is NULL can hand out the elements of all chunks.
pub kns_mempool_create-IsStack :
    (mem : Mem) (store : Datastore) (cs : List (List ℕ)) (k n : ℕ) (m : Pool)
    (mds sanity_type sanity_id : ℕ)
    → Chunked k n mem store cs
    → m.private_chunk ≡ 0
    → mds ≢ 0
    → (m' : Pool) × (kns_mempool_create false m store mds sanity_type sanity_id ≡ done m')
      × IsStack (record { mem = mem; pool = m'; store = store }) (flat cs)
unfolding kns_mempool_create
kns_mempool_create-IsStack mem store cs k n m mds sanity_type sanity_id chunked no_spare some_mds =
    (
      record m {
        magic = mempool_magic;
        buf = store.buf;
        datastore = mds;
        head = null;
        sanity = bit_or (sanity_type * 2 ^ 16) sanity_id % 2 ^ 32;
        nr_elems = store.nr_elems;
        elem_len = store.elem_len;
        nostraddle = store.nostraddle;
        chunk_size = store.chunk_size;
      },
      refl,
      record {
        local = [];
        spare = [];
        chunks = cs;
        holds = record {
          local_chain = refl;
          spare_chain = no_spare;
          chunk_chains = chunked.chains;
          distinct = chunked.distinct;
          owned = some_mds;
        };
        order = refl;
      },
    )
