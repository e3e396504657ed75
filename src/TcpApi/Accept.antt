-- ===== src/TcpApi/Accept.antt =====
-- The acceptance of a connection by bsys_tcp_accept of net/tcp_api.c: what has come in before is
-- notified with what comes in later.
use kns.Common.{
  ℕ, ◌+◌, ◌*◌, ◌^◌, ◌≤◌, ◌<◌, ◌≡◌, ◌≢◌, refl, ap, sym, ◌∙◌, subst, true, false, List, [], ◌∷◌, ◌++◌,
  map, append_assoc, arith,
}
use kns.Common.Tests.{ne→==}
use kns.Common.Links.{null, has, Distinct, has-append}
use kns.Common.Lists.{length}
use kns.Flow.World.{update, eth_max_total_fg}
use kns.Flow.Queue.{IsQueue}
use kns.Mempool
use kns.Mempool.{State}
use kns.Mempool.{kns_mempool_free}
use kns.TcpApi.{max_pcbs, alive}
use kns.Mempool.View.{IsStack}
use kns.Mempool.Push.{kns_mempool_free-pushes}
use kns.TcpApi.Calls.{bsys_tcp_accept}
use kns.TcpApi.Handle.{handle_of, elem_at, from_handle_live}
use kns.TcpApi.Queue.{queue_of}
use kns.TcpApi.State.{done, Event, Api, Pbuf, World, value, set_api}
use kns.TcpApi.Deliver.{notice, notices, Packets, update_self, Conn}
use kns.TcpApi.Order.{arrive, Apart, recv_all-Conn, arrive-waits, arrive-notes}

-- The premises of a delivery: the connection is element `idx` of its pool, of flow group `fg_id`, not
-- accepted yet and holding nothing, with an id that the id pool can take back.
pub record Waiting {S : Type 0} (nr_cpus fg_id idx : ℕ) (free : List ℕ) (w : World S) : Type 0 where
  pub index : idx < max_pcbs
  pub group : fg_id < eth_max_total_fg + nr_cpus
  pub groups : eth_max_total_fg + nr_cpus ≤ 2 ^ 16
  pub some_elem : elem_at w idx ≢ 0
  pub live : alive w (elem_at w idx) ≤ 1
  pub waiting : (w.api (elem_at w idx)).accepted ≡ false
  pub none_held : (w.api (elem_at w idx)).recvd ≡ 0
  pub some_id : (w.api (elem_at w idx)).id ≢ 0
  pub id_out : has (w.api (elem_at w idx)).id free ≡ false
  pub ids_stack : IsStack w.ids free
  pub flat : w.iomap_offset ≡ 0

before_out : (p : ℕ) (xs ps : List ℕ) → Distinct (xs ++ p ∷ ps) → has p xs ≡ false
before_out p [] ps d = refl
before_out p (x ∷ xs) ps d = ground (arith, has-append x xs (p ∷ ps), before_out p xs ps)

Distinct-Apart : (xs ps : List ℕ) → Distinct (xs ++ ps) → Apart xs ps
Distinct-Apart xs [] d = tt
Distinct-Apart xs (p ∷ ps) d =
    (before_out p xs ps d, Distinct-Apart (xs ++ p ∷ []) ps (rw (append_assoc xs (p ∷ []) ps) d))

Distinct-append_left : (xs ys : List ℕ) → Distinct (xs ++ ys) → Distinct xs
Distinct-append_left [] ys d = tt
Distinct-append_left (x ∷ xs) ys d = ground (arith, has-append x xs ys, Distinct-append_left xs ys)

notices-append :
    (handle cookie : ℕ) (pb : ℕ → Pbuf) (bufs : ℕ → List ℕ) (ps qs : List ℕ)
    → notices handle cookie pb bufs (ps ++ qs)
      ≡ notices handle cookie pb bufs ps ++ notices handle cookie pb bufs qs
notices-append handle cookie pb bufs [] qs = refl
notices-append handle cookie pb bufs (p ∷ ps) qs =
    ap (λ es. map (notice handle cookie pb) (bufs p) ++ es)
      (notices-append handle cookie pb bufs ps qs)
    ∙ sym (append_assoc (map (notice handle cookie pb) (bufs p)) _ _)

-- The world as the loop of bsys_tcp_accept finds it.
abbrev accepted_world : {S : Type 0} (a fg_id cookie : ℕ) (ids' : Mempool.State) → World S → World S
accepted_world {S} a fg_id cookie ids' w =
    let w1 : World S = record w { cur_fg = fg_id; syscall_cookie = (w.api a).cookie; ids = ids' } in
    let w2 : World S = set_api a (record (w.api a) { id = null }) w1 in
    set_api a (record (w2.api a) { cookie = cookie; accepted = true }) w2

module _ {S : Type 0} {a handle old id : ℕ} {pb : ℕ → Pbuf} {pcbs ids : Mempool.State} where
  accepted_world-Conn :
      {xs : List ℕ} {evs : List Event} {w : World S} (fg_id cookie : ℕ) (ids' : Mempool.State)
      → Conn a handle old id false pb pcbs ids xs evs w
      → Conn a handle cookie 0 true pb pcbs ids' xs evs (accepted_world a fg_id cookie ids' w)
  accepted_world-Conn {xs = xs} {w = w} fg_id cookie ids' c =
      let cleared : Api = record (w.api a) { id = null } in
      let first : update (w.api) a cleared a ≡ cleared = update_self (w.api) a cleared in
      let final : Api = record cleared { cookie = cookie; accepted = true } in
      let e : (accepted_world a fg_id cookie ids' w).api a ≡ final =
        update_self (update (w.api) a cleared) a _
        ∙ ap (λ (x : Api). record x { cookie = cookie; accepted = true }) first in
      record {
        queue = subst (λ x. IsQueue w.api_next (queue_of x) xs) (sym e) c.queue;
        handle_kept = ap (λ x. x.handle) e ∙ c.handle_kept;
        cookie_kept = ap (λ x. x.cookie) e;
        id_kept = ap (λ x. x.id) e;
        accepted_kept = ap (λ x. x.accepted) e;
        events_kept = c.events_kept;
        pbufs_kept = c.pbufs_kept;
        flat = c.flat;
        pcbs_kept = c.pcbs_kept;
        ids_kept = refl;
      }

  accept-Conn :
      {xs : List ℕ} {evs : List Event} {w : World S} (nr_cpus fg_id idx cookie rounds n : ℕ)
      (bufs : ℕ → List ℕ) (free : List ℕ)
      → Conn a handle old id false pb pcbs ids xs evs w
      → a ≡ elem_at w idx
      → idx < max_pcbs
      → fg_id < eth_max_total_fg + nr_cpus
      → eth_max_total_fg + nr_cpus ≤ 2 ^ 16
      → alive w a ≤ 1
      → IsStack w.ids free
      → (w.api a).id ≢ 0
      → has (w.api a).id free ≡ false
      → Packets pb bufs n xs
      → length xs ≤ rounds
      → (w' : World S) × (ids' : Mempool.State) × (bsys_tcp_accept false nr_cpus rounds n
            (handle_of fg_id idx)
            cookie
            w
          ≡ done (value 0, w'))
        × Conn a handle cookie 0 true pb pcbs ids' xs (evs ++ notices handle cookie pb bufs xs) w'
  unfolding bsys_tcp_accept
  accept-Conn {xs = xs} {evs = evs} {w = w} nr_cpus fg_id idx cookie rounds n bufs free c place
        index group groups live stack some_id out all room =
      let (ids', freed, stack') = kns_mempool_free-pushes ((w.api a).id) stack some_id out in
      let c1 = accepted_world-Conn fg_id cookie ids' c in
      let (w', runs, c') =
        recv_all-Conn bufs n rounds (w.api a).recvd xs evs (accepted_world a fg_id cookie ids' w) c1
          all c.queue.chain room in
      (
        w',
        ids',
        rw
            (
              from_handle_live nr_cpus w fg_id idx a place index group groups live,
              ne→== (w.api a).id 0 some_id,
              freed,
              runs,
            )
            refl,
        c',
      )

-- With its checks passed, a connection that waits to be accepted and the packets `ps`, then its
-- acceptance, then the packets `qs`, all different and each with its chain of buffers: nothing is
-- notified before the acceptance, and in the end every buffer of every packet has been, in the
-- order of arrival and under the cookie of the acceptance.
pub bsys_tcp_accept-in_order :
    {S : Type 0} {w : World S} {free : List ℕ} (nr_cpus fg_id idx cookie rounds n : ℕ)
    (bufs : ℕ → List ℕ) (ps qs : List ℕ)
    → Waiting nr_cpus fg_id idx free w
    → Packets w.pbuf bufs n ps
    → Packets w.pbuf bufs n qs
    → Distinct (ps ++ qs)
    → length ps ≤ rounds
    → (w1 : World S) × (w2 : World S) × (w3 : World S) × (arrive n (elem_at w idx) ps w ≡ done w1)
      × (bsys_tcp_accept false nr_cpus rounds n (handle_of fg_id idx) cookie w1
          ≡ done (value 0, w2))
      × (arrive n (elem_at w idx) qs w2 ≡ done w3)
      × (w1.events ≡ w.events)
      × (w3.events
          ≡ w.events ++ notices (w.api (elem_at w idx)).handle cookie w.pbuf bufs (ps ++ qs))
bsys_tcp_accept-in_order {S} {w} {free} nr_cpus fg_id idx cookie rounds n bufs ps qs h all all'
      distinct room =
    let a : ℕ = elem_at w idx in
    let handle : ℕ = (w.api a).handle in
    let c0 : Conn a handle (w.api a).cookie (w.api a).id false w.pbuf w.pcbs w.ids [] w.events w =
      record {
        queue = record { chain = h.none_held; last = tt; distinct = tt };
        handle_kept = refl;
        cookie_kept = refl;
        id_kept = refl;
        accepted_kept = h.waiting;
        events_kept = refl;
        pbufs_kept = refl;
        flat = h.flat;
        pcbs_kept = refl;
        ids_kept = refl;
      } in
    let (w1, runs1, c1) =
      arrive-waits bufs n ps [] w.events w h.some_elem c0 all
        (Distinct-Apart [] ps (Distinct-append_left ps qs distinct)) in
    let same_elem : a ≡ elem_at w1 idx =
      ap (λ (x : State). x.pool.buf + 64 * idx) (sym c1.pcbs_kept) in
    let (w2, ids', runs2, c2) =
      accept-Conn nr_cpus fg_id idx cookie rounds n bufs free c1 same_elem h.index h.group h.groups
        (subst (λ (x : State). x.mem.next a ≤ 1) (sym c1.pcbs_kept) h.live)
        (subst (λ (x : State). IsStack x free) (sym c1.ids_kept) h.ids_stack)
        (λ z. h.some_id (sym c1.id_kept ∙ z)) (ap (λ x. has x free) c1.id_kept ∙ h.id_out) all
        room in
    let (w3, runs3, c3) =
      arrive-notes bufs n qs ps _ w2 h.some_elem c2 all' (Distinct-Apart ps qs distinct) in
    (
      w1,
      w2,
      w3,
      runs1,
      runs2,
      runs3,
      c1.events_kept,
      c3.events_kept
          ∙ append_assoc w.events _ _
          ∙ ap (λ es. w.events ++ es) (sym (notices-append handle cookie w.pbuf bufs ps qs)),
    )
