-- ===== src/Ring.antt =====
-- The ring of core/ring.c and inc/kns/ring.h: a bounded queue of pointers between producers and
-- consumers. The four free-running indices are `uint32_t`, so their arithmetic wraps at 2 ^ 32.
-- Each function is one thread's call from start to end; no other thread writes meanwhile.
-- `Steps` and `RaceSteps` take the calls apart for threads that run at the same time.
pub mod Copy
pub mod CopyLaws
pub mod CopyIn
pub mod CopyOut
pub mod Window
pub mod Valid
pub mod WindowIn
pub mod Single
pub mod WindowOut
pub mod Consumer
pub mod MultiOps
pub mod Multi
pub mod MultiConsumer
pub mod Query
pub mod Create
pub mod Steps
pub mod Shared
pub mod Frame
pub mod Produce
pub mod Consume
pub mod Interleave
pub mod Others
pub mod Progress
pub mod WaitFree
pub mod CopySteps
pub mod Alone
pub mod RaceSteps
pub mod RaceRounds
pub mod Race
mod Tests
mod StepTests
use Prim.Native.Nat.{bit_and}
use kns.Common.{
  ℕ, zero, suc, ◌+◌, ◌-◌, ◌*◌, ◌/◌, ◌%◌, ◌^◌, Bool, true, false, ◌||◌, not, ◌⊎◌, inl, inr, List,
  Option, none, some,
}
use kns.Common.Tests.{ltb, ◌==◌, if◌then◌else◌}
use kns.Common.Lists.{replicate}
use kns.Common.Errno.{Errno, einval, enoent, enobufs, edquot}
use kns.Common.Bug.{Run, done, ◌>>=◌, ◌>>◌, bug_on}
use Copy.{enqueue_ptrs, dequeue_ptrs}

pub record Prod : Type 0 where
  pub watermark : ℕ
  pub sp_enqueue : Bool
  pub size : ℕ
  pub mask : ℕ
  pub head : ℕ
  pub tail : ℕ

pub record Cons : Type 0 where
  pub sc_dequeue : Bool
  pub size : ℕ
  pub mask : ℕ
  pub head : ℕ
  pub tail : ℕ

-- `ring` holds the pointers, as addresses.
pub record Ring : Type 0 where
  pub flags : ℕ
  pub prod : Prod
  pub cons : Cons
  pub ring : List ℕ

pub data Behavior : Type 0 where
  fixed variable : Behavior

-- The `int` that a call returns: `n`, `n | RING_QUOT_EXCEED`, or a negated error number.
pub data Ret : Type 0 where
  ret quota : ℕ → Ret
  fail : Errno → Ret

abbrev pub add32 : ℕ → ℕ → ℕ
add32 a b = (a + b) % 2 ^ 32

-- `a - b` on `uint32_t`
abbrev pub sub32 : ℕ → ℕ → ℕ
sub32 a b = (a + 2 ^ 32 - b) % 2 ^ 32

abbrev pub ring_sz_mask : ℕ
ring_sz_mask = 0x0fffffff

abbrev pub l1_cache_bytes : ℕ
l1_cache_bytes = 64

-- Where the members of `struct ring` lie: `name` and `flags` fill the first cache line, `prod`,
-- `cons` and `ring` each begin one.
abbrev pub offset_prod : ℕ
offset_prod = 64

abbrev pub offset_cons : ℕ
offset_cons = 128

abbrev pub sizeof_ring : ℕ
sizeof_ring = 192

unfoldable pub powerof2 : ℕ → Bool
powerof2 x = bit_and (sub32 x 1) x == 0

-- the bytes that a ring of `count` slots takes, rounded up to a cache line
unfoldable pub ring_get_memsize : ℕ → Ret
ring_get_memsize count =
    if not (powerof2 count) || ltb ring_sz_mask count
    then fail einval
    else ret ((sizeof_ring + count * 8 + l1_cache_bytes - 1) / l1_cache_bytes * l1_cache_bytes)

-- `flags & RING_F_SP_ENQ` and `flags & RING_F_SC_DEQ` as Booleans
abbrev flag_sp_enq : ℕ → Bool
flag_sp_enq flags = not (bit_and flags 1 == 0)

abbrev flag_sc_deq : ℕ → Bool
flag_sc_deq flags = not (bit_and flags 2 == 0)

-- `storage` is the memory behind the structure.
unfoldable pub ring_init : (traps : Bool) (storage : List ℕ) (count flags : ℕ) → Run Ring
ring_init traps storage count flags =
    bug_on traps (not (bit_and sizeof_ring l1_cache_bytes == 0))
    >> bug_on traps (not (bit_and offset_cons l1_cache_bytes == 0))
    >> bug_on traps (not (bit_and offset_prod l1_cache_bytes == 0))
    >> done (record {
      flags = flags;
      prod = record {
        watermark = count;
        sp_enqueue = flag_sp_enq flags;
        size = count;
        mask = sub32 count 1;
        head = 0;
        tail = 0;
      };
      cons = record {
        sc_dequeue = flag_sc_deq flags;
        size = count;
        mask = sub32 count 1;
        head = 0;
        tail = 0;
      };
      ring = storage;
    })

-- `memory` says whether `kzalloc` finds the memory, which it clears; `none` is the NULL result.
unfoldable pub ring_create : (traps memory : Bool) (count flags : ℕ) → Run (Option Ring)
ring_create traps memory count flags = elim (ring_get_memsize count) [
  | fail e ↦ done none
  | _ ↦
      if memory
      then (ring_init traps (replicate count 0) count flags >>= λ r. done (some r))
      else done none
]

unfoldable pub ring_set_water_mark : Ring → ℕ → Ret × Ring
ring_set_water_mark r count = if not (ltb count r.prod.size) then (fail einval, r) else (
  ret 0,
  record r { prod = record (r.prod) { watermark = if count == 0 then r.prod.size else count } },
)

-- What both kinds of enqueue do once the slots `[prod_head, prod_head + n)` are theirs: the copy,
-- the test of the high water mark and the new tail.
unfoldable pub enqueue_commit :
    Ring → List ℕ → (prod_head free_entries n : ℕ) → Behavior → Ret × Ring
enqueue_commit r obj_table prod_head free_entries n behavior =
    let over = ltb r.prod.watermark (add32 (sub32 (add32 r.prod.mask 1) free_entries) n) in
    let r' : Ring = record r {
      prod = record (r.prod) { tail = add32 prod_head n };
      ring = enqueue_ptrs r.prod.size r.prod.mask r.ring prod_head obj_table n;
    } in
    elim behavior [
      | fixed ↦ (if over then fail edquot else ret 0, r')
      | variable ↦ (if over then quota n else ret n, r')
    ]

-- `mask + cons_tail - prod_head`
abbrev pub free_entries : Ring → ℕ
free_entries r = sub32 (add32 r.prod.mask r.cons.tail) r.prod.head

-- The number to enqueue after the check for room, or the early return.
unfoldable pub enqueue_room : (free n : ℕ) → Behavior → Ret ⊎ ℕ
enqueue_room free n behavior =
    if ltb free n
    then (elim behavior [
      | fixed ↦ inl (fail enobufs)
      | variable ↦ if free == 0 then inl (ret 0) else inr free
    ])
    else inr n

unfoldable pub sp_do_enqueue : Ring → List ℕ → ℕ → Behavior → Ret × Ring
sp_do_enqueue r obj_table n behavior = elim (enqueue_room (free_entries r) n behavior) [
  | inl early ↦ (early, r)
  | inr n ↦
      let prod_head = r.prod.head in
      enqueue_commit (record r { prod = record (r.prod) { head = add32 prod_head n } }) obj_table
        prod_head (free_entries r) n behavior
]

-- `prod_tail - cons_head`
abbrev pub entries : Ring → ℕ
entries r = sub32 r.prod.tail r.cons.head

unfoldable pub dequeue_room : (entries n : ℕ) → Behavior → Ret ⊎ ℕ
dequeue_room entries n behavior =
    if ltb entries n
    then (elim behavior [
      | fixed ↦ inl (fail enoent)
      | variable ↦ if entries == 0 then inl (ret 0) else inr entries
    ])
    else inr n

-- The new contents of the caller's table come back beside the result.
unfoldable pub sc_do_dequeue : Ring → List ℕ → ℕ → Behavior → Ret × List ℕ × Ring
sc_do_dequeue r obj_table n behavior = elim (dequeue_room (entries r) n behavior) [
  | inl early ↦ (early, obj_table, r)
  | inr n ↦
      let cons_head = r.cons.head in
      let next = add32 cons_head n in
      (
        elim behavior [ fixed ↦ ret 0 | variable ↦ ret n ],
        dequeue_ptrs r.cons.size r.prod.mask r.ring cons_head obj_table n,
        record r { cons = record (r.cons) { head = next; tail = next } },
      )
]

unfoldable pub ring_full : Ring → Bool
ring_full r = bit_and (sub32 (sub32 r.cons.tail r.prod.tail) 1) r.prod.mask == 0

unfoldable pub ring_empty : Ring → Bool
ring_empty r = r.cons.tail == r.prod.tail

unfoldable pub ring_count : Ring → ℕ
ring_count r = bit_and (sub32 r.prod.tail r.cons.tail) r.prod.mask

unfoldable pub ring_free_count : Ring → ℕ
ring_free_count r = bit_and (sub32 (sub32 r.cons.tail r.prod.tail) 1) r.prod.mask
