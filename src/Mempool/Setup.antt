-- ===== src/Mempool/Setup.antt =====
-- The creation of datastores and pools in core/mempool.c, and the conversion between elements and
-- their indices in inc/kns/mempool.h. Without DEBUG_MEMPOOL the initial offset is 0.
use Prim.Native.Nat.{bit_and, bit_or}
use kns.Common.{ℕ, zero, suc, ◌+◌, ◌-◌, ◌*◌, ◌/◌, ◌%◌, ◌^◌, Bool, not, ◌||◌, Option, none, some}
use kns.Common.Tests.{◌==◌, if◌then◌else◌, ltb}
use kns.Common.Int.{pos, ◌+ℤ◌}
use kns.Common.Errno.{Errno, einval, enomem}
use kns.Common.Links.{null, set_link}
use kns.Common.Bug.{Run, done, bug, bug_on, ◌>>◌}
use kns.Mempool.{Mem, Datastore, Pool, mempool_magic}

abbrev pub page_size_2mb : ℕ
page_size_2mb = 2 ^ 21

-- The locals of `mempool_init_buf_with_pages` beside the memory and the datastore.
pub record Building : Type 0 where
  pub mem : Mem
  pub store : Datastore
  pub head : ℕ
  pub prev : ℕ
  pub chunk_count : ℕ

-- A chunk that is full goes to the datastore. The first one keeps the `next_chunk` that its memory
-- had.
abbrev pub close_chunk : Building → Building
close_chunk b =
    let store = b.store in
    record b {
      mem = if store.chunk_head == null then b.mem else record (b.mem) {
        next_chunk = set_link (b.mem.next_chunk) (b.head) (store.chunk_head);
      };
      store = record store {
        chunk_head = b.head;
        num_chunks = store.num_chunks +ℤ pos 1;
        free_chunks = store.free_chunks +ℤ pos 1;
      };
      head = null;
      prev = null;
      chunk_count = 0;
    }

-- The element `cur` behind the one before it, or first in its chunk.
abbrev pub link_elem : Building → ℕ → Building
link_elem b cur =
    if b.prev == null then record b { head = cur; chunk_count = b.chunk_count + 1 } else record b {
      mem = record (b.mem) { next = set_link (b.mem.next) (b.prev) cur };
      chunk_count = b.chunk_count + 1;
    }

-- The body of the inner loop.
unfoldable pub thread : Building → ℕ → Building
thread b cur =
    let linked = link_elem b cur in
    if linked.chunk_count == b.store.chunk_size
    then close_chunk linked
    else record linked { prev = cur }

unfoldable pub init_page : (elems cur elem_len : ℕ) → Building → Building
init_page zero cur elem_len b = b
init_page (suc j) cur elem_len b = init_page j (cur + elem_len) elem_len (thread b cur)

-- The pages from page `i` on.
unfoldable pub init_pages : (nr_pages i elems elem_len : ℕ) → Building → Building
init_pages zero i elems elem_len b = b
init_pages (suc n) i elems elem_len b =
    init_pages n (i + 1) elems elem_len
      (init_page elems (b.store.buf + i * page_size_2mb) elem_len b)

unfoldable pub mempool_init_buf_with_pages :
    Mem → Datastore → (elems_per_page nr_pages elem_len : ℕ) → Mem × Datastore
mempool_init_buf_with_pages mem store elems nr_pages elem_len =
    let b =
      init_pages nr_pages 0 elems elem_len
        (record { mem = mem; store = store; head = null; prev = null; chunk_count = 0 }) in
    (b.mem, b.store)

-- `ALIGN(len, sizeof(long))`
abbrev pub align8 : ℕ → ℕ
align8 len = (len + 7) / 8 * 8

abbrev pub map_failed : ℕ
map_failed = 2 ^ 64 - 1

-- `buf` is what `page_alloc` returns. A division by zero is a fault.
unfoldable pub mempool_create_datastore :
    (traps : Bool) (buf : ℕ)
    → Mem
    → Datastore
    → (nr_elems elem_len : ℕ) → (nostraddle : Bool) → (chunk_size : ℕ)
    → Run (Option Errno × Mem × Datastore)
mempool_create_datastore traps buf mem mds nr_elems elem_len nostraddle chunk_size =
    let len = align8 elem_len in
    let elems_per_page = page_size_2mb / len in
    let nr_pages = (nr_elems + elems_per_page - 1) / elems_per_page in
    let filled = record mds {
      magic = mempool_magic;
      buf = buf;
      nr_pages = nr_pages;
      nr_elems = nr_elems;
      elem_len = len;
      chunk_size = chunk_size;
      nostraddle = nostraddle;
    } in
    let built =
      if nostraddle
      then mempool_init_buf_with_pages mem filled elems_per_page nr_pages len
      else mempool_init_buf_with_pages mem filled nr_elems 1 len in
    bug_on traps (mds.magic == 0)
    >> (bug_on traps (bit_and chunk_size (chunk_size - 1) == 0)
        >> (if chunk_size == 0
            then bug
            else (bug_on traps (nr_elems / chunk_size * chunk_size == nr_elems)
                >> (if (elem_len == 0) || (nr_elems == 0)
                    then done (some einval, mem, mds)
                    else if elems_per_page == 0
                    then bug
                    else (bug_on traps (not (buf == 0))
                        >> (if (buf == map_failed) || (buf == 0)
                            then done (some enomem, mem, filled)
                            else done (none, built.0, built.1)))))))

-- The head of the spare chunk and the count keep what the storage had.
unfoldable pub kns_mempool_create :
    (traps : Bool) → Pool → Datastore → (mds sanity_type sanity_id : ℕ) → Run Pool
kns_mempool_create traps m store mds sanity_type sanity_id =
    bug_on traps (store.magic == mempool_magic)
    >> (bug_on traps (m.magic == 0)
        >> done (record m {
          magic = mempool_magic;
          buf = store.buf;
          datastore = mds;
          head = null;
          sanity = bit_or (sanity_type * 2 ^ 16) sanity_id % 2 ^ 32;
          nr_elems = store.nr_elems;
          elem_len = store.elem_len;
          nostraddle = store.nostraddle;
          chunk_size = store.chunk_size;
        }))

unfoldable pub mempool_idx_to_ptr : (traps : Bool) → Pool → (idx elem_len : ℕ) → Run ℕ
mempool_idx_to_ptr traps m idx elem_len =
    bug_on traps (ltb idx m.nr_elems)
    >> (bug_on traps (not m.nostraddle) >> done (m.buf + elem_len * idx))

unfoldable pub mempool_ptr_to_idx : (traps : Bool) → Pool → (p elem_len : ℕ) → Run ℕ
mempool_ptr_to_idx traps m p elem_len =
    let x = (p - m.buf) / elem_len in bug_on traps (ltb x m.nr_elems) >> done x
