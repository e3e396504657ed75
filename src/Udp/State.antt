-- ===== src/Udp/State.antt =====
-- The packet buffers of inc/kns/mbuf.h and the world of net/udp.c on one CPU.
use kns.Common.{ℕ, ◌+◌, ◌-◌, ◌%◌, ◌^◌, Bool, not, List, [], ◌∷◌, ◌++◌, min}
use kns.Common.Tests.{◌==◌, if◌then◌else◌}
use kns.Common.Links.{null}
use kns.Common.Bug
use kns.Flow.World.{update}
use kns.Mempool
use kns.Mempool.{Mem, Pool, Datastore, kns_mempool_alloc, kns_mempool_free}
use kns.Page.{Pages, page_size_2mb, pgoff_2mb, page_get, page_put}
use kns.Arp.State.{Net, Out, returns, faults, ◌>>=◌}
use kns.TcpApi.State.{IpTuple}

-- A stop at a `BUG_ON` is a fault.
abbrev pub lift {ℓ} : {A : Type ℓ} → Bug.Run A → Out A
lift (Bug.done a) = returns a
lift Bug.bug = faults

abbrev pub mbuf_header_len : ℕ
mbuf_header_len = 64

-- MBUF_LEN, with the 2048 bytes of data.
abbrev pub mbuf_len : ℕ
mbuf_len = 2112

-- `struct mbuf_iov`
pub record MbufIov : Type 0 where
  pub base : ℕ
  pub maddr : ℕ
  pub len : ℕ

-- `struct sg_entry`
pub record SgEntry : Type 0 where
  pub base : ℕ
  pub len : ℕ

-- What the member `done` of a mbuf holds: one of the two functions, 0xDEADBEEF or NULL.
pub data Done : Type 0 where
  default_done udp_done dead_beef no_done : Done

-- `struct mbuf`, without `fg_id` and `timestamp`, which UDP does not use. `pool` and `len` share their
-- memory with the links of a free element; nothing reads them of a mbuf that is free.
pub record Mbuf : Type 0 where
  pub pool : ℕ
  pub len : ℕ
  pub next : ℕ
  pub iovs : ℕ → MbufIov
  pub nr_iov : ℕ
  pub ol_flags : ℕ
  pub done : Done
  pub done_data : ℕ

-- `struct ip_hdr` as this host fills it in, with its multi-byte members in host order.
pub record IpHdr : Type 0 where
  pub header_len : ℕ
  pub version : ℕ
  pub tos : ℕ
  pub len : ℕ
  pub id : ℕ
  pub off : ℕ
  pub ttl : ℕ
  pub proto : ℕ
  pub chksum : ℕ
  pub src_addr : ℕ
  pub dst_addr : ℕ

-- The headers of a datagram that is sent; the members of `struct udp_hdr` are in host order.
pub record Headers : Type 0 where
  pub dhost : ℕ
  pub shost : ℕ
  pub ethtype : ℕ
  pub ip : IpHdr
  pub src_port : ℕ
  pub dst_port : ℕ
  pub udp_len : ℕ
  pub udp_chksum : ℕ

-- The notifications of inc/kns/syscall.h: `usys_udp_recv` and `usys_udp_sent`.
pub data Event : Type 0 where
  udp_recv : (addr len id : ℕ) → Event
  udp_sent : (cookie : ℕ) → Event

-- What the calls on one CPU can read and write: the pools by their addresses and their memory, the
-- CPU's own pool, the pools' offsets, what lies in the mbufs, the pages, the network with its address table and transmit
-- queues, and the notifications.
pub record World : Type 0 where
  pub mem : Mem
  pub pools : ℕ → Pool
  pub store : Datastore
  pub mbuf_mempool : ℕ
  pub iomap_offset : ℕ → ℕ
  pub mbuf : ℕ → Mbuf
  pub tuple : ℕ → IpTuple
  pub headers : ℕ → Headers
  pub pages : Pages
  pub net : Net
  pub events : List Event

-- The memory pool at the address `a`, and the world after a call on it.
abbrev pub pool_at : ℕ → World → Mempool.State
pool_at a w = record { mem = w.mem; pool = w.pools a; store = w.store }

abbrev pub put_pool : ℕ → Mempool.State → World → World
put_pool a s w = record w { mem = s.mem; pools = update (w.pools) a (s.pool); store = s.store }

abbrev pub set_mbuf : ℕ → Mbuf → World → World
set_mbuf m v w = record w { mbuf = update (w.mbuf) m v }

abbrev pub emit : Event → World → World
emit e w = record w { events = w.events ++ e ∷ [] }

-- The length that the IOV takes, the IOV, and the world with a reference to its page.
unfoldable pub mbuf_iov_create : SgEntry → World → Out (ℕ × MbufIov × World)
mbuf_iov_create ent w =
    let len : ℕ = min (ent.len) (page_size_2mb - pgoff_2mb (ent.base)) in
    lift (page_get (ent.base) (w.pages)) >>= λ (maddr, pages).
    returns (len, record { base = ent.base; maddr = maddr; len = len }, record w { pages = pages })

unfoldable pub mbuf_iov_free : MbufIov → World → Out World
mbuf_iov_free iov w =
    lift (page_put (iov.base) (w.pages)) >>= λ pages. returns (record w { pages = pages })

module _ (traps : Bool) where
  unfoldable pub mbuf_alloc : ℕ → World → Out (ℕ × World)
  mbuf_alloc pool w = lift (kns_mempool_alloc traps (pool_at pool w)) >>= λ (m, s).
      let w' : World = put_pool pool s w in
      returns (
        if m == null then (null, w') else (
          m,
          set_mbuf m (record (w'.mbuf m) { pool = pool; next = null; done = default_done }) w',
        ))

  unfoldable pub mbuf_free : ℕ → World → Out World
  mbuf_free m w =
      let pool = (w.mbuf m).pool in
      lift (kns_mempool_free traps (pool_at pool w) m) >>= λ s. returns (put_pool pool s w)

  unfoldable pub mbuf_alloc_local : World → Out (ℕ × World)
  mbuf_alloc_local w = mbuf_alloc (w.mbuf_mempool) w

  -- `mempool_pagemem_to_iomap` and `mempool_iomap_to_ptr`, which `mbuf_to_iomap`, of the pool that the
  -- mbuf `m` came from, and `iomap_to_mbuf` are.
  abbrev pub mempool_pagemem_to_iomap : (pool ptr : ℕ) → World → Out ℕ
  mempool_pagemem_to_iomap pool ptr w =
      lift (Bug.bug_on traps (not (w.iomap_offset pool == 0))) >>= λ _.
      returns ((ptr + w.iomap_offset pool) % 2 ^ 64)

  abbrev pub mempool_iomap_to_ptr : (pool ioptr : ℕ) → World → Out ℕ
  mempool_iomap_to_ptr pool ioptr w =
      lift (Bug.bug_on traps (not (w.iomap_offset pool == 0))) >>= λ _.
      returns ((ioptr + 2 ^ 64 - w.iomap_offset pool) % 2 ^ 64)

  abbrev pub mbuf_to_iomap : (m ptr : ℕ) → World → Out ℕ
  mbuf_to_iomap m ptr w = mempool_pagemem_to_iomap ((w.mbuf m).pool) ptr w

  abbrev pub iomap_to_mbuf : (pool ioptr : ℕ) → World → Out ℕ
  iomap_to_mbuf pool ioptr w = mempool_iomap_to_ptr pool ioptr w
