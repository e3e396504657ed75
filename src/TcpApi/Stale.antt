-- ===== src/TcpApi/Stale.antt =====
-- bsys_tcp_close of net/tcp_api.c, and what becomes of the handle: `alive` shares its memory with the
-- link of a free element, which is how a stale handle is told from a good one.
use kns.Common.{
  ℕ, zero, suc, ◌+◌, ◌*◌, ◌≤◌, ◌≡◌, ◌≢◌, refl, ap, sym, ◌∙◌, subst, true, false, inl, inr, Bool,
  Option, none, some, List, [], ◌∷◌, ◌++◌, append-nil, append_assoc, arith,
}
use kns.Common.Tests.{if◌then◌else◌, ◌==◌, ltb, eq→==, ne→==, Bool-cases}
use kns.Common.Int.{pos, ltb_ℤ, ◌+ℤ◌}
use kns.Common.Links.{null, set_link, has, Chain}
use kns.Common.Lists.{length}
use kns.Common.Bug
use kns.Mempool
use kns.Mempool.{Mem, Pool, kns_mempool_free, mempool_free_2}
use kns.Mempool.View.{IsStack}
use kns.Mempool.Push.{kns_mempool_free-pushes}
use kns.TcpApi.{alive, pbuf_free, remove_fdir_filter, handle_to_tcpapi, free_id}
use kns.TcpApi.Calls.{free_all, bsys_tcp_close}
use kns.TcpApi.Handle.{handle_of, elem_at, from_handle, IsOpen, looked_up, lookup_open}
use kns.TcpApi.State.{Run, done, World, Tcp, value}

-- What a free writes into the first word of the element.
abbrev pub link_after : Mempool.State → ℕ
link_after s = if ltb_ℤ s.pool.num_free (pos s.pool.chunk_size) then s.pool.head else null

-- The state after a free, with the checks passed and a datastore.
abbrev freed_state : Mempool.State → ℕ → Mempool.State
freed_state s ptr =
    let m = s.pool in
    let linked : Mem = record (s.mem) { next = set_link (s.mem.next) ptr (link_after s) } in
    let spare = m.private_chunk in
    let m' : Pool = record m { private_chunk = m.head; head = ptr; num_free = pos 1 } in
    if ltb_ℤ m.num_free (pos m.chunk_size)
    then record s { mem = linked; pool = record m { num_free = m.num_free +ℤ pos 1; head = ptr } }
    else if spare == null
    then record s { mem = linked; pool = m' }
    else record s {
      mem = record linked { next_chunk = set_link (s.mem.next_chunk) spare (s.store.chunk_head) };
      pool = m';
      store = record (s.store) {
        chunk_head = spare;
        free_chunks = s.store.free_chunks +ℤ pos 1;
        num_locks = s.store.num_locks +ℤ pos 1;
      };
    }

kns_mempool_free-link :
    (s : Mempool.State) (ptr : ℕ)
    → s.pool.datastore ≢ 0
    → (s' : Mempool.State) × (kns_mempool_free false s ptr ≡ Bug.done s')
      × (s'.mem.next ptr ≡ link_after s)
      × (s'.pool.buf ≡ s.pool.buf)
unfolding kns_mempool_free mempool_free_2
kns_mempool_free-link s ptr owned =
    elim (Bool-cases (ltb_ℤ s.pool.num_free (pos s.pool.chunk_size))) [
      | inl room ↦
          (freed_state s ptr, rw room refl, rw (room, eq→== ptr ptr refl) refl, rw room refl)
      | inr full ↦ elim (Bool-cases (s.pool.private_chunk == 0)) [
        | inl none_spare ↦ (
          freed_state s ptr,
          rw (full, none_spare) refl,
          rw (full, none_spare, eq→== ptr ptr refl) refl,
          rw (full, none_spare) refl,
        )
        | inr spare ↦ (
          freed_state s ptr,
          rw (full, spare, ne→== (s.pool.datastore) 0 owned) refl,
          rw (full, spare, eq→== ptr ptr refl) refl,
          rw (full, spare) refl,
        )
      ]
    ]

module _ {S : Type 0} where
  free_all_lem :
      (rounds recvd : ℕ) (xs : List ℕ) (w : World S)
      → Chain w.api_next recvd xs
      → length xs ≤ rounds
      → free_all rounds recvd w ≡ done (record w { freed = w.freed ++ xs })
  unfolding free_all
  free_all_lem zero recvd [] w c h = rw (eq→== recvd 0 c, append-nil (w.freed)) refl
  free_all_lem zero recvd (x ∷ xs) w c h = absurd (omega arith)
  free_all_lem (suc rounds) recvd [] w c h = rw (eq→== recvd 0 c, append-nil (w.freed)) refl
  free_all_lem (suc rounds) recvd (x ∷ xs) w c h =
      rw (c.0, ne→== x 0 c.1)
        (free_all_lem rounds (w.api_next x) xs (pbuf_free x w) c.2 (omega arith)
          ∙ ap (λ l. done (record w { freed = l })) (append_assoc (w.freed) (x ∷ []) xs))

branch_pull :
    {S : Type 0} (t : Bool) (a : ℕ) (x y : World S)
    → let each : Run (Option ℕ × World S) = if t then done (none, x) else done (some a, y) in
      each ≡ done ((if t then none else some a), (if t then x else y))
branch_pull true a x y = refl
branch_pull false a x y = refl

module _ {S : Type 0} (tcp : Tcp S) where
  -- The connection's packets and its id are given back.
  free_parts :
      (id : ℕ) (free : List ℕ) (w : World S)
      → IsStack w.ids free
      → has id free ≡ false
      → (w' : World S) × ((if id == null
            then done w
            else free_id false id (remove_fdir_filter id w))
          ≡ done w')
        × (w'.pcbs ≡ w.pcbs)
        × (w'.freed ≡ w.freed)
  unfolding remove_fdir_filter
  free_parts id free w stack out = elim (Bool-cases (id == 0)) [
    | inl e ↦ (w, rw e refl, refl, refl)
    | inr e ↦
        let (ids', freed, stack') = kns_mempool_free-pushes id stack (λ z. cc (eq→== id 0 z)) out in
        (record (remove_fdir_filter id w) { ids = ids' }, rw (e, freed) refl, refl, refl)
  ]

  -- The world after the connection's control block is closed.
  closed_world : (fg_id idx : ℕ) → World S → World S
  closed_world fg_id idx w =
      let pcb = (w.api (elem_at w idx)).pcb in
      record (looked_up fg_id idx w) {
        tcp = if pcb == null then w.tcp else tcp.close_with_reset fg_id pcb (w.tcp);
      }

  closed-branch :
      (fg_id idx : ℕ) (w : World S)
      → (let w1 = looked_up fg_id idx w in
          let pcb = (w1.api (elem_at w idx)).pcb in
          if pcb == null
          then w1
          else record w1 { tcp = tcp.close_with_reset (w1.cur_fg) pcb (w1.tcp) })
        ≡ closed_world fg_id idx w
  unfolding closed_world
  closed-branch fg_id idx w = elim (Bool-cases ((w.api (elem_at w idx)).pcb == 0)) [
    | inl e ↦ rw e refl
    | inr e ↦ rw e refl
  ]

  -- With the checks passed, the rounds enough, the pool of ids holding a free list without the
  -- connection's id, and the pool of connections on a datastore, the close of an open connection answers 0 and frees
  -- all of its packets; a lookup of its handle then finds nothing if the word that the free wrote
  -- into it, the head of the free list or NULL where the list was full, is above 1, and else it
  -- finds the freed connection.
  pub bsys_tcp_close-stale :
      {w : World S} {free : List ℕ} (nr_cpus fg_id idx rounds : ℕ) (xs : List ℕ)
      → IsOpen nr_cpus fg_id idx w
      → Chain w.api_next (w.api (elem_at w idx)).recvd xs
      → length xs ≤ rounds
      → IsStack w.ids free
      → has (w.api (elem_at w idx)).id free ≡ false
      → w.pcbs.pool.datastore ≢ 0
      → (w' : World S) × (w'' : World S) × (bsys_tcp_close tcp false nr_cpus rounds
            (handle_of fg_id idx)
            w
          ≡ done (value 0, w'))
        × (w'.freed ≡ w.freed ++ xs)
        × (handle_to_tcpapi false nr_cpus (handle_of fg_id idx) w'
            ≡ done ((if ltb 1 (link_after w.pcbs) then none else some (elem_at w idx)), w''))
  unfolding bsys_tcp_close closed_world
  bsys_tcp_close-stale {w} {free} nr_cpus fg_id idx rounds xs o chain room stack out owned =
      let a : ℕ = elem_at w idx in
      let w3 : World S = record (closed_world fg_id idx w) { freed = w.freed ++ xs } in
      let (w4, parts, same_pcbs, same_freed) = free_parts (w.api a).id free w3 stack out in
      let (pcbs', freed, link, buf) =
        kns_mempool_free-link (w4.pcbs) a
          (subst (λ (x : Mempool.State). x.pool.datastore ≢ 0) (sym same_pcbs) owned) in
      let w' : World S = record w4 { pcbs = pcbs' } in
      let same_elem : elem_at w' idx ≡ a =
        ap (λ t. t + 64 * idx) (buf ∙ ap (λ (x : Mempool.State). x.pool.buf) same_pcbs) in
      let word : alive w' (elem_at w' idx) ≡ link_after w.pcbs =
        ap (alive w') same_elem ∙ link ∙ ap link_after same_pcbs in
      let stale : Bool = ltb 1 (link_after w.pcbs) in
      (
        w',
        if stale then record w' { cur_fg = fg_id } else looked_up fg_id idx w',
        rw
            (
              lookup_open o,
              closed-branch fg_id idx w,
              free_all_lem rounds (w.api a).recvd xs (closed_world fg_id idx w) chain room,
              parts,
              freed,
            )
            refl,
        same_freed,
        from_handle nr_cpus w' fg_id idx o.index o.group o.groups
            ∙ ap
                (λ t.
                  if ltb 1 t
                  then done (none, record w' { cur_fg = fg_id })
                  else done (some (elem_at w' idx), looked_up fg_id idx w'))
                word
            ∙ branch_pull stale (elem_at w' idx) (record w' { cur_fg = fg_id })
                (looked_up fg_id idx w')
            ∙ ap
                (λ x. done (
                  (if stale then none else some x),
                  (if stale then record w' { cur_fg = fg_id } else looked_up fg_id idx w'),
                ))
                same_elem,
      )
