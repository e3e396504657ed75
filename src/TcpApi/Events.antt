-- ===== src/TcpApi/Events.antt =====
-- The callbacks of net/tcp_api.c, which TCP makes through lwip_tcp_event.
use kns.Common.{ℕ, Bool, true, false, not}
use kns.Common.Tests.{if◌then◌else◌, ◌==◌}
use kns.Common.Links.{null, set_link}
use kns.Flow.World.{update}
use kns.Mempool.{kns_mempool_alloc, kns_mempool_free}
use kns.TcpApi.State.{
  Run, done, bug, ◌>>=◌, lift, connected, knock, sent, dead, Api, World, Tcp, emit, set_api,
}
use kns.TcpApi.{set_alive, remove_fdir_filter, tcpapi_to_handle, to_iomap, recv_a_pbuf}

-- The err_t codes that the API tells apart.
pub data Err : Type 0 where
  err_ok err_mem err_abrt err_rst err_clsd err_other : Err

-- enum lwip_event, each with the arguments that its handler reads.
pub data LwipEvent : Type 0 where
  event_accept : (pcb : ℕ) → LwipEvent
  event_sent : (size : ℕ) → LwipEvent
  event_recv : (p : ℕ) → LwipEvent
  event_connected : LwipEvent
  event_err : LwipEvent
  event_poll : LwipEvent

abbrev pub is_fatal : Err → Bool
is_fatal err_abrt = true
is_fatal err_rst = true
is_fatal err_clsd = true
is_fatal err_ok = false
is_fatal err_mem = false
is_fatal err_other = false

module _ {S : Type 0} where
  unfoldable pub mark_dead : (a cookie : ℕ) → World S → World S
  mark_dead a cookie w =
      let api = w.api a in
      let w1 : World S = if api.id == null then w else remove_fdir_filter (api.id) w in
      if a == null
      then emit (dead 0 cookie) w
      else emit (dead (api.handle) (api.cookie)) (set_alive a 0 w1)

  unfoldable pub on_err : (a : ℕ) → Err → World S → World S
  on_err a err w =
      let w1 = mark_dead a (w.api a).cookie w in
      if a == null
      then w
      else if is_fatal err
      then set_api a (record (w1.api a) { pcb = null }) w1
      else w

  unfoldable pub on_sent : (a len : ℕ) → World S → World S
  on_sent a len w = emit (sent (w.api a).handle (w.api a).cookie len) w

  unfoldable pub on_connected : (a : ℕ) → Err → World S → Err × World S
  on_connected a err w =
      let api = w.api a in
      let ok : Bool = elim err [ err_ok ↦ true | _ ↦ false ] in
      (err, emit (connected (api.handle) (api.cookie) ok) w)

module _ {S : Type 0} (traps : Bool) where
  unfoldable pub on_recv : (chain_rounds a p : ℕ) → World S → Run (Err × World S)
  on_recv chain_rounds a p w =
      let api = w.api a in
      let appended : World S =
        if api.recvd == null
        then set_api a (record api { recvd = p; recvd_tail = p }) w
        else set_api a (record api { recvd_tail = p })
            (record w { api_next = set_link (w.api_next) (api.recvd_tail) p }) in
      let w1 : World S = record appended { api_next = set_link (appended.api_next) p null } in
      if a == null
      then bug
      else if p == null
      then done (err_ok, mark_dead a (api.cookie) w)
      else if not (api.accepted)
      then done (err_ok, w1)
      else (recv_a_pbuf traps chain_rounds a p w1 >>= λ w2. done (err_ok, w2))

module _ {S : Type 0} (tcp : Tcp S) (traps : Bool) where
  -- `fg` is the flow group's `fg_id`, `host_addr` CFG.host_addr.
  unfoldable pub on_accept : (host_addr fg pcb : ℕ) → World S → Run (Err × World S)
  on_accept host_addr fg pcb w = lift (kns_mempool_alloc traps (w.pcbs)) >>= λ (a, pcbs).
      let w1 : World S = record w { pcbs = pcbs } in
      if a == null
      then done (err_mem, w1)
      else (lift (kns_mempool_alloc traps (w1.ids)) >>= λ (id, ids).
          let w2 : World S = record w1 { ids = ids } in
          if id == null
          then (lift (kns_mempool_free traps (w2.pcbs) a) >>= λ pcbs'.
              done (err_mem, record w2 { pcbs = pcbs' }))
          else (let fresh : Api = record (w2.api a) {
            pcb = pcb;
            cookie = 0;
            id = id;
            recvd = null;
            recvd_tail = null;
            accepted = false;
          } in
              let s : S = tcp.set_arg pcb a (tcp.nagle_disable pcb (w2.tcp)) in
              let w3 : World S = record (set_api a fresh (set_alive a 1 w2)) {
                tcp = s;
                tuple = update (w2.tuple) id (record {
                  src_ip = 0;
                  dst_ip = host_addr;
                  src_port = tcp.local_port pcb s;
                  dst_port = tcp.remote_port pcb s;
                });
              } in
              tcpapi_to_handle traps fg a w3 >>= λ handle. to_iomap traps id w3 >>= λ addr.
              done (
                err_ok,
                emit (knock handle addr) (set_api a (record fresh { handle = handle }) w3),
              )))

  unfoldable pub lwip_tcp_event :
      (chain_rounds host_addr fg a : ℕ) → LwipEvent → Err → World S → Run (Err × World S)
  lwip_tcp_event chain_rounds host_addr fg a (event_accept pcb) err w = on_accept host_addr fg pcb w
  lwip_tcp_event chain_rounds host_addr fg a (event_sent size) err w =
      done (err_ok, on_sent a size w)
  lwip_tcp_event chain_rounds host_addr fg a (event_recv p) err w = on_recv traps chain_rounds a p w
  lwip_tcp_event chain_rounds host_addr fg a event_connected err w = done (on_connected a err w)
  lwip_tcp_event chain_rounds host_addr fg a event_err err w = done (err_ok, on_err a err w)
  lwip_tcp_event chain_rounds host_addr fg a event_poll err w = done (err_ok, w)
