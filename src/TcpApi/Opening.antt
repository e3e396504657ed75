-- ===== src/TcpApi/Opening.antt =====
-- bsys_tcp_connect of net/tcp_api.c: what the application can do with a connection that it opens, and
-- with one that TCP refuses.
use kns.Common.{
  ℕ, ◌+◌, ◌*◌, ◌^◌, ◌≤◌, ◌<◌, ◌≡◌, ◌≢◌, refl, ap, sym, subst, ◌∙◌, false, inl, inr, some, List, [],
  ◌∷◌, ◌++◌, arith,
}
use kns.Common.Tests.{if◌then◌else◌, ◌==◌, eq→==, ne→==, Bool-cases}
use kns.Common.Links.{null}
use kns.Common.Bug
use kns.Flow.World.{eth_max_total_fg}
use kns.Mempool
use kns.Mempool.{kns_mempool_alloc}
use kns.TcpApi.{alive, tcpapi_to_handle, handle_to_tcpapi, max_pcbs, remove_fdir_filter}
use kns.TcpApi.Connect.{
  Device, Port, choose_port, htonl, connect_fail, connect_to, opened, connect_from,
  bsys_tcp_connect,
}
use kns.TcpApi.Events.{mark_dead, on_err, lwip_tcp_event}
use kns.TcpApi.Handle.{handle_of, to_handle, from_handle_live}
use kns.TcpApi.State.{
  Event, Run, done, IpTuple, World, Tcp, Ret, value, nomem, notsup, fault, badh, closed, dead,
  set_api,
}

-- What an abort of the connection on the element `a` leaves.
record Aborted {S : Type 0} (a : ℕ) (w : World S) (out : Run (Ret × World S)) : Type 0 where
  left : World S
  runs : out ≡ done (nomem, left)
  events : left.events ≡ w.events ++ dead (w.api a).handle (w.api a).cookie ∷ []
  gone : (left.api a).pcb ≡ 0
  live : alive left a ≡ 0
  pool : left.pcbs.pool ≡ w.pcbs.pool

module _ {S : Type 0} where
  -- The connection without its filter, if it has an id.
  unfiltered : (a : ℕ) → World S → World S
  unfiltered a w = if (w.api a).id == null then w else remove_fdir_filter ((w.api a).id) w

  unfiltered-kept :
      (a : ℕ) (w : World S)
      → ((unfiltered a w).events ≡ w.events) × ((unfiltered a w).pcbs ≡ w.pcbs)
  unfolding unfiltered remove_fdir_filter
  unfiltered-kept a w = elim (Bool-cases ((w.api a).id == null)) [
    | inl e ↦ (rw e refl, rw e refl)
    | inr e ↦ (rw e refl, rw e refl)
  ]

module _ {S : Type 0} (tcp : Tcp S) where
  connect_fail-Aborted :
      (fg pcb a : ℕ) (w : World S) → a ≢ 0 → Aborted a w (connect_fail tcp false fg pcb a w)
  unfolding connect_fail lwip_tcp_event on_err mark_dead unfiltered
  connect_fail-Aborted fg pcb a w some_elem =
      let w' : World S = record w { tcp = tcp.abort fg pcb (w.tcp) } in
      let m : World S = mark_dead a ((w.api a).cookie) w' in
      let kept = unfiltered-kept a w' in
      record {
        left = set_api a (record (m.api a) { pcb = null }) m;
        runs = rw (ne→== a 0 some_elem) refl;
        events =
            rw (ne→== a 0 some_elem) (
              ap (λ (l : List Event). l ++ dead ((w.api a).handle) ((w.api a).cookie) ∷ []) kept.0);
        gone = rw (eq→== a a refl) refl;
        live = rw (ne→== a 0 some_elem, eq→== a a refl) refl;
        pool = rw (ne→== a 0 some_elem) (ap (λ (p : Mempool.State). p.pool) kept.1);
      }

-- What becomes of a connection on the element `a`: the answer, and the world that the call leaves,
-- when `events` were notified before.
abbrev pub Outcome : {S : Type 0} → (a h pcb cookie : ℕ) → List Event → Ret → World S → Type 0
Outcome a h pcb cookie events (value x) w' =
    (x ≡ h) × ((w'.api a).pcb ≡ pcb) × ((w'.api a).cookie ≡ cookie) × (w'.events ≡ events)
Outcome a h pcb cookie events nomem w' =
    (w'.events ≡ events ++ dead h cookie ∷ []) × ((w'.api a).pcb ≡ 0)
Outcome a h pcb cookie events notsup w' = ⊥
Outcome a h pcb cookie events fault w' = ⊥
Outcome a h pcb cookie events badh w' = ⊥
Outcome a h pcb cookie events closed w' = ⊥

record Connected {S : Type 0} (a h pcb cookie : ℕ) (w : World S) (out : Run (Ret × World S))
    : Type 0 where
  ret : Ret
  left : World S
  runs : out ≡ done (ret, left)
  outcome : Outcome a h pcb cookie w.events ret left
  live : alive left a ≤ 1
  pool : left.pcbs.pool ≡ w.pcbs.pool

module _ {S : Type 0} (tcp : Tcp S) where
  failed :
      (fg pcb a h cookie : ℕ) (w u : World S)
      → a ≢ 0
      → (u.api a).handle ≡ h
      → (u.api a).cookie ≡ cookie
      → u.events ≡ w.events
      → u.pcbs.pool ≡ w.pcbs.pool
      → Connected a h pcb cookie w (connect_fail tcp false fg pcb a u)
  failed fg pcb a h cookie w u some_elem handled tagged events pool =
      let f = connect_fail-Aborted tcp fg pcb a u some_elem in
      record {
        ret = nomem;
        left = f.left;
        runs = f.runs;
        outcome = (
          f.events
              ∙ ap (λ (l : List Event). l ++ dead ((u.api a).handle) ((u.api a).cookie) ∷ []) events
              ∙ ap (λ (x : ℕ). w.events ++ dead x ((u.api a).cookie) ∷ []) handled
              ∙ ap (λ (x : ℕ). w.events ++ dead h x ∷ []) tagged,
          f.gone,
        );
        live = subst (λ (x : ℕ). x ≤ 1) (sym f.live) (omega arith);
        pool = f.pool ∙ pool;
      }

  connect_to-Connected :
      (fg pcb a h cookie : ℕ) (id : IpTuple) (w : World S)
      → a ≢ 0
      → (w.api a).pcb ≡ pcb
      → (w.api a).handle ≡ h
      → (w.api a).cookie ≡ cookie
      → alive w a ≡ 1
      → Connected a h pcb cookie w (connect_to tcp false fg pcb a h id w)
  unfolding connect_to
  connect_to-Connected fg pcb a h cookie id w some_elem own handled tagged live =
      let bound = tcp.bind fg pcb (htonl (id.src_ip)) (id.src_port) (w.tcp) in
      let connected = tcp.connect fg pcb (htonl (id.dst_ip)) (id.dst_port) (bound.1) in
      elim (Bool-cases (bound.0)) [
        | inr refused ↦
            subst (λ out. Connected a h pcb cookie w out) (sym (rw refused refl))
              (failed fg pcb a h cookie w (record w { tcp = bound.1 }) some_elem handled tagged refl
                refl)
        | inl b ↦ elim (Bool-cases (connected.0)) [
          | inr refused ↦
              subst (λ out. Connected a h pcb cookie w out) (sym (rw (b, refused) refl))
                (failed fg pcb a h cookie w (record w { tcp = connected.1 }) some_elem handled
                  tagged refl refl)
          | inl c ↦ record {
            ret = value h;
            left = record w { tcp = connected.1 };
            runs = rw (b, c) refl;
            outcome = (refl, own, tagged, refl);
            live = subst (λ (x : ℕ). x ≤ 1) (sym live) (omega arith);
            pool = refl;
          }
        ]
      ]

  -- A connection that the application asks for, with the checks compiled out, with a port chosen, a pcb
  -- of TCP's and an element of the pool at hand, has one of two outcomes. Either the call answers its
  -- handle, and the element holds the pcb and the cookie. Or TCP refuses the address or the connection:
  -- then the call answers RET_NOMEM, yet the application is told that the handle is dead, and the
  -- element has no pcb. In both the record of the pool, with the head of its free list and its
  -- count, is as the allocation of the element left it, so the element was not given back, and the
  -- handle leads to the element afterwards.
  pub bsys_tcp_connect-Outcome :
      (nr_cpus : ℕ) (d : Device) (host_addr local_port cookie a idx : ℕ) (t : IpTuple) (port : Port)
      (pcbs : Mempool.State) (w : World S)
      → choose_port false d local_port (record t { src_ip = host_addr }) ≡ done port
      → (tcp.new (port.fg) (w.tcp)).0 ≢ 0
      → kns_mempool_alloc false w.pcbs ≡ Bug.done (a, pcbs)
      → a ≢ 0
      → a ≡ pcbs.pool.buf + 64 * idx
      → idx < max_pcbs
      → port.fg < eth_max_total_fg + nr_cpus
      → eth_max_total_fg + nr_cpus ≤ 2 ^ 16
      → (ret : Ret) × (w' : World S) × (bsys_tcp_connect tcp false d host_addr local_port
            (some t)
            cookie
            w
          ≡ done (ret, port.local_port, w'))
        × Outcome a (handle_of port.fg idx) (tcp.new (port.fg) (w.tcp)).0 cookie w.events ret w'
        × (w'.pcbs.pool ≡ pcbs.pool)
        × (handle_to_tcpapi false nr_cpus (handle_of port.fg idx) w'
            ≡ done (some a, record w' { cur_fg = port.fg; syscall_cookie = (w'.api a).cookie }))
  unfolding bsys_tcp_connect connect_from
  bsys_tcp_connect-Outcome nr_cpus d host_addr local_port cookie a idx t port pcbs w chosen some_pcb
        popped some_elem place small group groups =
      let fg : ℕ = port.fg in
      let id : IpTuple = record t { src_ip = host_addr; src_port = port.src_port } in
      let pcb : ℕ = (tcp.new fg (w.tcp)).0 in
      let h : ℕ = handle_of fg idx in
      let w1 : World S = record w {
        syscall_cookie = cookie;
        cur_fg = fg;
        tcp = tcp.nagle_disable pcb ((tcp.new fg (w.tcp)).1);
        pcbs = pcbs;
      } in
      let w2 : World S = opened tcp false pcb a cookie w1 in
      let u : World S = set_api a (record (w2.api a) { handle = h }) w2 in
      let handled : tcpapi_to_handle false fg a w2 ≡ done h =
        subst (λ (x : ℕ). tcpapi_to_handle false fg x w2 ≡ done h) (sym place)
          (to_handle nr_cpus w2 fg idx small (omega arith)) in
      let c =
        connect_to-Connected fg pcb a h cookie id u some_elem (rw (eq→== a a refl) refl)
          (rw (eq→== a a refl) refl) (rw (eq→== a a refl) refl) (rw (eq→== a a refl) refl) in
      (
        c.ret,
        c.left,
        rw (chosen, ne→== pcb 0 some_pcb, popped, ne→== a 0 some_elem, handled, c.runs) refl,
        c.outcome,
        c.pool,
        from_handle_live nr_cpus c.left fg idx a
            (place ∙ ap (λ (p : Mempool.Pool). p.buf + 64 * idx) (sym c.pool)) small group groups
            c.live,
      )
