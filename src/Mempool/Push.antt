-- ===== src/Mempool/Push.antt =====
-- With its checks passed, a free of core/mempool.c pushes on the stack of free elements that the
-- pool and its datastore form.
use kns.Common.{ℕ, ◌≡◌, ◌≢◌, refl, subst, List, [], ◌∷◌, ◌++◌, true, false, arith, inl, inr}
use kns.Common.Tests.{eq→==, ne→==, Bool-cases}
use kns.Common.Int.{pos, ◌+ℤ◌, ltb_ℤ}
use kns.Common.Links.{set_link, has, Chain, Chain-set_link, has-append, Distinct-append_right}
use kns.Common.Bug.{done}
use kns.Mempool.{Mem, State, kns_mempool_free, mempool_free_2}
use kns.Mempool.View.{flat, Chunks, Holds, IsStack, Chunks-set_link, Chunks-set_chunk}

-- Linking a further element changes no chain.
record Linked (s : State) (ptr to : ℕ) (local spare : List ℕ) (chunks : List (List ℕ))
    : Type 0 where
  local_kept : Chain (set_link s.mem.next ptr to) s.pool.head local
  spare_kept : Chain (set_link s.mem.next ptr to) s.pool.private_chunk spare
  chunks_kept :
      Chunks (record (s.mem) { next = set_link (s.mem.next) ptr to }) s.store.chunk_head chunks

link-Linked :
    (s : State) (ptr to : ℕ) (local spare : List ℕ) (chunks : List (List ℕ))
    → Holds s local spare chunks
    → has ptr (local ++ (spare ++ flat chunks)) ≡ false
    → Linked s ptr to local spare chunks
link-Linked s ptr to local spare chunks h out =
    let parts : (has ptr local ≡ false)
        × (has ptr spare ≡ false)
        × (has ptr (flat chunks) ≡ false) =
      ground
        (arith, has-append ptr local (spare ++ flat chunks), has-append ptr spare (flat chunks)) in
    record {
      local_kept = Chain-set_link s.mem.next ptr to s.pool.head local parts.0 h.local_chain;
      spare_kept =
          Chain-set_link s.mem.next ptr to s.pool.private_chunk spare parts.1 h.spare_chain;
      chunks_kept = Chunks-set_link s.mem ptr to s.store.chunk_head chunks parts.2 h.chunk_chains;
    }

module _ (s : State) (ptr : ℕ) (some_ptr : ptr ≢ 0) where
  free-fast :
      (local spare : List ℕ) (chunks : List (List ℕ))
      → Holds s local spare chunks
      → has ptr (local ++ (spare ++ flat chunks)) ≡ false
      → ltb_ℤ s.pool.num_free (pos s.pool.chunk_size) ≡ true
      → (s' : State) × (kns_mempool_free false s ptr ≡ done s')
        × IsStack s' (ptr ∷ (local ++ (spare ++ flat chunks)))
  unfolding kns_mempool_free
  free-fast local spare chunks h out room =
      let kept = link-Linked s ptr s.pool.head local spare chunks h out in
      (
        record s {
          mem = record (s.mem) { next = set_link (s.mem.next) ptr (s.pool.head) };
          pool = record (s.pool) { num_free = s.pool.num_free +ℤ pos 1; head = ptr };
        },
        rw (room, kns_mempool_free),
        record {
          local = ptr ∷ local;
          spare = spare;
          chunks = chunks;
          holds = record {
            local_chain = ground (arith, kept);
            spare_chain = kept.spare_kept;
            chunk_chains = kept.chunks_kept;
            distinct = (out, h.distinct);
            owned = h.owned;
          };
          order = refl;
        },
      )

  free-slow :
      (local spare : List ℕ) (chunks : List (List ℕ))
      → Holds s local spare chunks
      → has ptr (local ++ (spare ++ flat chunks)) ≡ false
      → ltb_ℤ s.pool.num_free (pos s.pool.chunk_size) ≡ false
      → (s' : State) × (kns_mempool_free false s ptr ≡ done s')
        × IsStack s' (ptr ∷ (local ++ (spare ++ flat chunks)))
  unfolding kns_mempool_free mempool_free_2
  free-slow local [] chunks h out full =
      let kept = link-Linked s ptr 0 local [] chunks h out in
      (
        record s {
          mem = record (s.mem) { next = set_link (s.mem.next) ptr 0 };
          pool = record (s.pool) { private_chunk = s.pool.head; head = ptr; num_free = pos 1 };
        },
        rw (full, kns_mempool_free, mempool_free_2, eq→== s.pool.private_chunk 0 h.spare_chain),
        record {
          local = ptr ∷ [];
          spare = local;
          chunks = chunks;
          holds = record {
            local_chain = ground (arith, kept);
            spare_chain = kept.local_kept;
            chunk_chains = kept.chunks_kept;
            distinct = (out, h.distinct);
            owned = h.owned;
          };
          order = refl;
        },
      )
  free-slow local (y ∷ spare) chunks h out full =
      let kept = link-Linked s ptr 0 local (y ∷ spare) chunks h out in
      let some_spare : s.pool.private_chunk ≢ 0 = ground arith in
      let alone : has s.pool.private_chunk (flat chunks) ≡ false = ground (
        arith,
        Distinct-append_right local (y ∷ (spare ++ flat chunks)) h.distinct,
        has-append y spare (flat chunks),
      ) in
      let linked : Mem = record (s.mem) { next = set_link (s.mem.next) ptr 0 } in
      (
        record s {
          mem = record linked {
            next_chunk = set_link (s.mem.next_chunk) (s.pool.private_chunk) (s.store.chunk_head);
          };
          pool = record (s.pool) { private_chunk = s.pool.head; head = ptr; num_free = pos 1 };
          store = record (s.store) {
            chunk_head = s.pool.private_chunk;
            free_chunks = s.store.free_chunks +ℤ pos 1;
            num_locks = s.store.num_locks +ℤ pos 1;
          };
        },
        rw (
          full,
          kns_mempool_free,
          mempool_free_2,
          ne→== s.pool.private_chunk 0 some_spare,
          ne→== s.pool.datastore 0 h.owned,
        ),
        record {
          local = ptr ∷ [];
          spare = local;
          chunks = (y ∷ spare) ∷ chunks;
          holds = record {
            local_chain = ground (arith, kept);
            spare_chain = kept.local_kept;
            chunk_chains = (
              some_spare,
              kept.spare_kept,
              ground (
                arith,
                Chunks-set_chunk linked s.pool.private_chunk s.store.chunk_head s.store.chunk_head
                    chunks alone kept.chunks_kept,
              ),
            );
            distinct = (out, h.distinct);
            owned = h.owned;
          };
          order = refl;
        },
      )

  free-Holds :
      (local spare : List ℕ) (chunks : List (List ℕ))
      → Holds s local spare chunks
      → has ptr (local ++ (spare ++ flat chunks)) ≡ false
      → (s' : State) × (kns_mempool_free false s ptr ≡ done s')
        × IsStack s' (ptr ∷ (local ++ (spare ++ flat chunks)))
  free-Holds local spare chunks h out =
      elim (Bool-cases (ltb_ℤ s.pool.num_free (pos s.pool.chunk_size))) [
        | inl room ↦ free-fast local spare chunks h out room
        | inr full ↦ free-slow local spare chunks h out full
      ]

-- With the checks passed, a free of an element that is not free puts it on top of the others.
pub kns_mempool_free-pushes :
    {s : State} {free : List ℕ} (ptr : ℕ)
    → IsStack s free
    → ptr ≢ 0
    → has ptr free ≡ false
    → (s' : State) × (kns_mempool_free false s ptr ≡ done s') × IsStack s' (ptr ∷ free)
kns_mempool_free-pushes {s} ptr h some_ptr out =
    subst (λ l. (s' : State) × (kns_mempool_free false s ptr ≡ done s') × IsStack s' (ptr ∷ l))
      h.order (free-Holds s ptr some_ptr h.local h.spare h.chunks h.holds (rw h.order out))
