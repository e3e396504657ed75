-- ===== src/Mempool.antt =====
-- The memory pools of core/mempool.c and inc/kns/mempool.h: a pool keeps a free list and one spare
-- chunk, and trades chunks with its datastore. Free elements are linked through their own memory.
pub mod View
pub mod Setup
pub mod Build
pub mod Cut
pub mod Chunking
pub mod Pop
pub mod Top
pub mod Push
pub mod Checks
mod Tests
mod SetupTests
use kns.Common.{ℕ, ◌+◌, ◌-◌, Bool, not, ◌≡◌}
use kns.Common.Tests.{◌==◌, if◌then◌else◌}
use kns.Common.Int.{ℤ, pos, ◌+ℤ◌, ◌-ℤ◌, ltb_ℤ, eqb_ℤ}
use kns.Common.Links.{Links, null, set_link}
use kns.Common.Bug.{Run, done, bug, ◌>>◌, bug_on}

abbrev pub mempool_magic : ℕ
mempool_magic = 0x12911776

-- `struct mempool_hdr` at every address: its two members as two maps. The maps are apart, so the model
-- is of elements of at least 16 bytes, the size of the structure, where no element's members lie in
-- another element.
pub record Mem : Type 0 where
  pub next : Links
  pub next_chunk : Links

-- `struct mempool_datastore`, without the lock, the name and the list of all datastores, which no
-- operation reads.
pub record Datastore : Type 0 where
  pub magic : ℕ
  pub chunk_head : ℕ
  pub buf : ℕ
  pub nr_pages : ℕ
  pub nr_elems : ℕ
  pub elem_len : ℕ
  pub nostraddle : Bool
  pub chunk_size : ℕ
  pub num_chunks : ℤ
  pub free_chunks : ℤ
  pub num_locks : ℤ

-- `struct mempool`; `datastore` is the address of its datastore.
pub record Pool : Type 0 where
  pub head : ℕ
  pub num_free : ℤ
  pub elem_len : ℕ
  pub magic : ℕ
  pub buf : ℕ
  pub datastore : ℕ
  pub private_chunk : ℕ
  pub sanity : ℕ
  pub nr_elems : ℕ
  pub nostraddle : Bool
  pub chunk_size : ℕ

-- What a call on one pool can read and write.
pub record State : Type 0 where
  pub mem : Mem
  pub pool : Pool
  pub store : Datastore

-- The second stage, which takes the spare chunk, or else a chunk of the datastore. It returns NULL
-- when there is none. A datastore pointer of NULL is a fault.
unfoldable pub mempool_alloc_2 : (traps : Bool) → State → Run (ℕ × State)
mempool_alloc_2 traps s =
    let m = s.pool in
    let spare = m.private_chunk in
    let h = s.store.chunk_head in
    bug_on traps (m.magic == mempool_magic)
    >> bug_on traps (m.head == null)
    >> (if not (spare == null)
        then done
            (spare, record s { pool = record m { head = s.mem.next spare; private_chunk = null } })
        else bug_on traps (not (m.datastore == null))
          >> (if m.datastore == null
              then bug
              else if not (h == null)
              then done (
                h,
                record s {
                  pool = record m { head = s.mem.next h };
                  store = record (s.store) {
                    chunk_head = s.mem.next_chunk h;
                    free_chunks = s.store.free_chunks -ℤ pos 1;
                    num_locks = s.store.num_locks +ℤ pos 1;
                  };
                },
              )
              else done (null, s)))

unfoldable pub kns_mempool_alloc : (traps : Bool) → State → Run (ℕ × State)
kns_mempool_alloc traps s =
    let m = s.pool in
    let h = m.head in
    if not (h == null)
    then done
        (h, record s { pool = record m { head = s.mem.next h; num_free = m.num_free -ℤ pos 1 } })
    else mempool_alloc_2 traps s

-- The second stage of a free: the spare chunk goes to the datastore, the free list becomes the spare
-- chunk, and the element starts a new free list.
unfoldable pub mempool_free_2 : (traps : Bool) → State → ℕ → Run State
mempool_free_2 traps s ptr =
    let m = s.pool in
    let spare = m.private_chunk in
    let linked : Mem = record (s.mem) { next = set_link (s.mem.next) ptr null } in
    let m' : Pool = record m { private_chunk = m.head; head = ptr; num_free = pos 1 } in
    bug_on traps (eqb_ℤ m.num_free (pos m.chunk_size))
    >> (if not (spare == null)
        then (if m.datastore == null
            then bug
            else done (record s {
              mem = record linked {
                next_chunk = set_link (s.mem.next_chunk) spare (s.store.chunk_head);
              };
              pool = m';
              store = record (s.store) {
                chunk_head = spare;
                free_chunks = s.store.free_chunks +ℤ pos 1;
                num_locks = s.store.num_locks +ℤ pos 1;
              };
            }))
        else done (record s { mem = linked; pool = m' }))

unfoldable pub kns_mempool_free : (traps : Bool) → State → ℕ → Run State
kns_mempool_free traps s ptr =
    let m = s.pool in
    if ltb_ℤ m.num_free (pos m.chunk_size)
    then done (record s {
      mem = record (s.mem) { next = set_link (s.mem.next) ptr (m.head) };
      pool = record m { num_free = m.num_free +ℤ pos 1; head = ptr };
    })
    else mempool_free_2 traps s ptr
