-- ===== src/TcpApi.antt =====
-- net/tcp_api.c, the connections between the system calls on TCP and TCP itself: what the calls
-- (`TcpApi/Calls`) and the callbacks from TCP (`TcpApi/Events`) share. TCP is a parameter, as are
-- NR_CPUS, the host's address and which user memory may be read; `rounds` bounds each loop over a
-- list of packets.
pub mod State
pub mod Calls
pub mod Events
pub mod Handle
pub mod Queue
pub mod Deliver
pub mod Order
pub mod Accept
pub mod Done
pub mod Stale
pub mod Connect
pub mod Ports
pub mod Opening
mod Tests
use Prim.Native.Nat.{bit_and, bit_or}
use kns.Common.{
  ℕ, zero, suc, ◌+◌, ◌-◌, ◌*◌, ◌/◌, ◌%◌, ◌^◌, min, Bool, true, false, not, ◌&&◌, ◌||◌, Option, none,
  some, List, [], ◌∷◌, ◌++◌,
}
use kns.Common.Tests.{if◌then◌else◌, ◌==◌, ltb}
use kns.Common.Links.{null, set_link}
use kns.Common.Bug.{bug_on}
use kns.Flow.World.{eth_max_total_fg, update}
use kns.Mempool
use kns.Mempool.{kns_mempool_alloc, kns_mempool_free}
use kns.Mempool.Setup.{mempool_idx_to_ptr, mempool_ptr_to_idx}
use kns.TcpApi.State.{
  Run, done, bug, running, ◌>>=◌, ◌>>◌, lift, Event, connected, knock, recv, sent, dead, Filter,
  Api, World, Tcp, Ret, value, notsup, fault, badh, closed, emit, set_api,
}

abbrev pub max_pcbs : ℕ
max_pcbs = 512 * 1024

abbrev pub tcpapi_pcb_size : ℕ
tcpapi_pcb_size = 64

module _ {S : Type 0} where
  -- `api->alive`, which is the link of an element that is free.
  abbrev pub alive : World S → ℕ → ℕ
  alive w a = w.pcbs.mem.next a

  abbrev pub set_alive : ℕ → ℕ → World S → World S
  set_alive a v w = record w {
    pcbs = record (w.pcbs) { mem = record (w.pcbs.mem) { next = set_link (w.pcbs.mem.next) a v } };
  }

  abbrev pub pbuf_free : ℕ → World S → World S
  pbuf_free p w = record w { freed = w.freed ++ p ∷ [] }

  unfoldable pub remove_fdir_filter : ℕ → World S → World S
  remove_fdir_filter id w =
      let t = w.tuple id in
      let filter : Filter = record {
        ip_src = t.dst_ip;
        ip_dst = t.src_ip;
        port_src = t.dst_port;
        port_dst = t.src_port;
      } in
      record w { unfiltered = w.unfiltered ++ filter ∷ [] }

module _ {S : Type 0} (traps : Bool) where
  unfoldable pub tcpapi_to_handle : (fg_id a : ℕ) → World S → Run ℕ
  tcpapi_to_handle fg_id a w =
      lift (mempool_ptr_to_idx traps (w.pcbs.pool) a tcpapi_pcb_size) >>= λ idx.
      done (bit_or idx (fg_id * 2 ^ 48 % 2 ^ 64))

  -- `mempool_pagemem_to_iomap`, which `mbuf_to_iomap` is too.
  abbrev pub to_iomap : ℕ → World S → Run ℕ
  to_iomap ptr w =
      lift (bug_on traps (not (w.iomap_offset == 0))) >> done ((ptr + w.iomap_offset) % 2 ^ 64)

  -- Each buffer of the chain that starts at `p` is notified.
  unfoldable pub recv_a_pbuf : (rounds a p : ℕ) → World S → Run (World S)
  recv_a_pbuf zero a p w = running
  recv_a_pbuf (suc rounds) a p w =
      let q = w.pbuf p in
      to_iomap (q.payload) w >>= λ addr.
      let w' : World S =
        emit (recv (w.api a).handle (w.api a).cookie addr (q.len))
          (record w { mbuf_len = update (w.mbuf_len) (q.mbuf) (q.len) }) in
      let rest = recv_a_pbuf rounds a (q.next) w' in if q.next == null then done w' else rest

  abbrev pub free_id : ℕ → World S → Run (World S)
  free_id id w = lift (kns_mempool_free traps (w.ids) id) >>= λ ids. done (record w { ids = ids })

-- The BUG_ON of eth_fg_set_current of inc/kns/ethfg.h stops where the group is on this CPU; a group that
-- is not there is read through NULL.
abbrev pub stops_on : Option ℕ → (self : ℕ) → Bool
stops_on none self = true
stops_on (some cpu) self = cpu == self

module _ {S : Type 0} (traps : Bool) (nr_cpus : ℕ) where
  unfoldable pub handle_to_tcpapi : ℕ → World S → Run (Option ℕ × World S)
  handle_to_tcpapi handle w =
      let fg : ℕ = bit_and (handle / 2 ^ 48) 0xffff in
      let idx : ℕ = bit_and handle 0xffffffffffff in
      if not (ltb fg (eth_max_total_fg + nr_cpus))
      then done (none, w)
      else if not (ltb idx max_pcbs)
      then done (none, w)
      else (lift (bug_on traps (stops_on (w.fg_cpu fg) (w.self))) >>= λ _.
          lift (mempool_idx_to_ptr traps (w.pcbs.pool) idx tcpapi_pcb_size) >>= λ a.
          let w' : World S = record w { cur_fg = fg } in
          if ltb 1 (alive w' a)
          then done (none, w')
          else done (some a, record w' { syscall_cookie = (w.api a).cookie }))
