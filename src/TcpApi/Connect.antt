-- ===== src/TcpApi/Connect.antt =====
-- bsys_tcp_connect of net/tcp_api.c, with the choice of a local port. What the driver answers to a new
-- filter, the hash key that the code never sets, and what TCP answers are parameters.
use Prim.Native.Nat.{bit_and}
use kns.Common.{
  ℕ, zero, suc, ◌+◌, ◌-◌, ◌*◌, ◌/◌, ◌%◌, ◌^◌, Bool, true, not, Option, none, some, List,
}
use kns.Common.Tests.{if◌then◌else◌, ◌==◌, ltb, leb}
use kns.Common.Links.{null}
use kns.Common.Bug.{bug_on}
use kns.Flow.World.{outbound_fg_idx}
use kns.Toeplitz.{compute_toeplitz_hash}
use kns.Mempool.{kns_mempool_alloc}
use kns.TcpApi.{set_alive, tcpapi_to_handle}
use kns.TcpApi.Events.{lwip_tcp_event, event_err, err_abrt}
use kns.TcpApi.State.{
  Run, bug, running, done, ◌>>=◌, ◌>>◌, lift, IpTuple, Filter, World, Tcp, Ret, value, fault, nomem,
  set_api,
}

abbrev pub ports_per_cpu : ℕ
ports_per_cpu = 2048

abbrev pub htons : ℕ → ℕ
htons v = v % 256 * 256 + v / 256 % 256

abbrev pub htonl : ℕ → ℕ
htonl v = htons (v % 65536) * 65536 + htons (v / 65536 % 65536)

-- The flow group that a packet of the connection belongs to when it arrives.
abbrev pub group_of : (key : List ℕ) (nb_rx_fgs : ℕ) → IpTuple → (src_port : ℕ) → ℕ
group_of key nb_rx_fgs id src_port =
    bit_and
      (compute_toeplitz_hash key (htonl (id.dst_ip)) (htonl (id.src_ip)) (htons (id.dst_port))
        (htons src_port))
      (nb_rx_fgs - 1)

-- What the choice comes to: the flow group, `local_port` and the port in the tuple.
pub record Port : Type 0 where
  pub fg : ℕ
  pub local_port : ℕ
  pub src_port : ℕ

-- `hits` tells whether the packets of a port belong to a flow group of this CPU, and `group` which.
-- The test of `local_port` does not change the port in the tuple.
unfoldable pub port_loop :
    (cpu rounds local_port src_port : ℕ) (hits : ℕ → Bool) (group : ℕ → ℕ) → Run Port
port_loop cpu zero local_port src_port hits group = running
port_loop cpu (suc rounds) local_port src_port hits group =
    let port : ℕ =
      if leb ((cpu + 1) * ports_per_cpu) local_port
      then (cpu * ports_per_cpu + 1) % 2 ^ 16
      else local_port in
    let next : ℕ = (port + 1) % 2 ^ 16 in
    let rest = port_loop cpu rounds next next hits group in
    if hits src_port
    then done (record { fg = group src_port; local_port = port; src_port = src_port })
    else rest

-- The port that is tried first, which is the new `local_port`.
abbrev pub port_of : (cpu local_port : ℕ) → ℕ
port_of cpu local_port =
    ((if local_port == 0 then cpu * ports_per_cpu % 2 ^ 16 else local_port) + 1) % 2 ^ 16

-- The filter for the packets of a connection, which arrive.
abbrev pub filter_of : IpTuple → (src_port : ℕ) → Filter
filter_of id src_port = record {
  ip_src = id.dst_ip;
  ip_dst = id.src_ip;
  port_src = id.dst_port;
  port_dst = src_port;
}

-- `fgs_cpu` is `cur_cpu` of the device's flow groups; `same` tells whether the group found is the one
-- of `fgs`.
unfoldable pub get_local_port_and_set_queue :
    (traps : Bool) (cpu eth_dev_count rounds nb_rx_fgs : ℕ) (key : List ℕ) (fgs_cpu : ℕ → ℕ)
    (same : ℕ → Bool) (filters : Filter → Bool) (local_port : ℕ)
    → IpTuple
    → Run Port
get_local_port_and_set_queue traps cpu eth_dev_count rounds nb_rx_fgs key fgs_cpu same filters
      local_port id =
    let port : ℕ = port_of cpu local_port in
    let group = group_of key nb_rx_fgs id in
    if ltb 1 eth_dev_count
    then bug
    else if filters (filter_of id port)
    then done (record { fg = outbound_fg_idx cpu; local_port = port; src_port = port })
    else port_loop cpu rounds port port (λ p. fgs_cpu (group p) == cpu) group >>= λ found.
        lift (bug_on traps (same (found.fg))) >> done found

-- What the choice of a port reads of the adapter and the CPU.
pub record Device : Type 0 where
  pub cpu : ℕ
  pub eth_dev_count : ℕ
  pub rounds : ℕ
  pub nb_rx_fgs : ℕ
  pub key : List ℕ
  pub fgs_cpu : ℕ → ℕ
  pub same : ℕ → Bool
  pub filters : Filter → Bool

abbrev pub choose_port : (traps : Bool) → Device → (local_port : ℕ) → IpTuple → Run Port
choose_port traps d local_port id =
    get_local_port_and_set_queue traps (d.cpu) (d.eth_dev_count) (d.rounds) (d.nb_rx_fgs) (d.key)
      (d.fgs_cpu) (d.same) (d.filters) local_port id

module _ {S : Type 0} (tcp : Tcp S) (traps : Bool) where
  -- `tcp_abort`, which calls back with the argument `a` of the pcb, and the answer.
  unfoldable pub connect_fail : (fg pcb a : ℕ) → World S → Run (Ret × World S)
  connect_fail fg pcb a w =
      lwip_tcp_event tcp traps 0 0 fg a event_err err_abrt
        (record w { tcp = tcp.abort fg pcb (w.tcp) })
      >>= λ (err, w'). done (nomem, w')

  unfoldable pub connect_to : (fg pcb a handle : ℕ) → IpTuple → World S → Run (Ret × World S)
  connect_to fg pcb a handle id w =
      let (bound, s) = tcp.bind fg pcb (htonl (id.src_ip)) (id.src_port) (w.tcp) in
      let (connected, s') = tcp.connect fg pcb (htonl (id.dst_ip)) (id.dst_port) s in
      if not bound
      then connect_fail fg pcb a (record w { tcp = s })
      else if not connected
      then connect_fail fg pcb a (record w { tcp = s' })
      else done (value handle, record w { tcp = s' })

  -- The connection on its element `a`, before it has its handle.
  abbrev pub opened : (pcb a cookie : ℕ) → World S → World S
  opened pcb a cookie w =
      set_api a
        (record (w.api a) {
          pcb = pcb;
          cookie = cookie;
          recvd = null;
          recvd_tail = null;
          accepted = true;
        })
        (set_alive a 1 (record w { tcp = tcp.set_arg pcb a (w.tcp) }))

  -- The argument of a new pcb is NULL.
  unfoldable pub connect_from : (fg : ℕ) → IpTuple → (cookie : ℕ) → World S → Run (Ret × World S)
  connect_from fg id cookie w =
      let (pcb, s) = tcp.new fg (w.tcp) in
      if pcb == null
      then done (nomem, record w { tcp = s })
      else lift (kns_mempool_alloc traps (w.pcbs)) >>= λ (a, pcbs).
          let w1 : World S = record w { tcp = tcp.nagle_disable pcb s; pcbs = pcbs } in
          let w2 : World S = opened pcb a cookie w1 in
          if a == null
          then connect_fail fg pcb null w1
          else tcpapi_to_handle traps fg a w2 >>= λ handle.
              connect_to fg pcb a handle id (set_api a (record (w2.api a) { handle = handle }) w2)

  -- With the new `local_port`. `copied` is what `copy_from_user` reads, or `none` where it fails. The
  -- flow groups exist.
  unfoldable pub bsys_tcp_connect :
      Device
      → (host_addr local_port : ℕ) → Option IpTuple
      → (cookie : ℕ) → World S
      → Run (Ret × ℕ × World S)
  bsys_tcp_connect d host_addr local_port copied cookie w =
      let w0 : World S = record w { syscall_cookie = cookie } in
      elim copied [
        | none ↦ done (fault, local_port, w0)
        | some t ↦ choose_port traps d local_port (record t { src_ip = host_addr }) >>= λ port.
            connect_from (port.fg) (record t { src_ip = host_addr; src_port = port.src_port })
              cookie (record w0 { cur_fg = port.fg })
            >>= λ (ret, w'). done (ret, port.local_port, w')
      ]
