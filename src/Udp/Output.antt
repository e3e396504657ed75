-- ===== src/Udp/Output.antt =====
-- Datagrams that net/udp.c sends: the outcomes of bsys_udp_send.
use kns.Common.{
  ℕ, ◌+◌, ◌-◌, ◌≤◌, ◌<◌, ◌≡◌, ◌≢◌, refl, ap, sym, ◌∙◌, subst, false, ◌⊎◌, inl, inr, none, some,
  List, [], ◌∷◌, ◌++◌, arith,
}
use kns.Common.Tests.{le→ltb, lt→ltb, eq→==, ne→==}
use kns.Common.Errno.{Errno}
use kns.Common.Links.{has}
use kns.Flow.World.{update}
use kns.Page.{Pages}
use kns.Arp.State.{Net, Cfg, returns, ◌>>=◌, ip_frame}
use kns.Arp.{arp_lookup_mac}
use kns.Arp.Calm.{Quiet}
use kns.Arp.Silent.{Unsent, arp_lookup_mac-Unsent}
use kns.TcpApi.State.{IpTuple}
use kns.Udp.{
  Ret, ok, again, busy, udp_pkt_size, eth_send, headers_to, udp_output, send_done, bsys_udp_send,
}
use kns.Udp.State.{Event, Mbuf, World, udp_done, set_mbuf}
use kns.Udp.Iovs.{descriptors, Covers-descriptors, Covers, InPages, create_iovs-Pinned}
use kns.Udp.Pool.{IsFree, taken, mbuf_alloc_local-takes, set_mbuf-same}
use kns.Udp.Loaded.{Loaded, Undone, give_back-Undone, load, moved}

eth_send-full :
    (q nr_iov mbuf dhost : ℕ) (n : Net)
    → n.cap q < 1 + nr_iov
    → eth_send q nr_iov mbuf dhost n ≡ none
unfolding eth_send
eth_send-full q nr_iov mbuf dhost n h = rw (lt→ltb (n.cap q) (1 + nr_iov) h) refl

-- The network with the datagram in its queue.
abbrev queued : (nr_iov mbuf dhost : ℕ) → Net → Net
queued nr_iov mbuf dhost n = record n {
  cap = update (n.cap) 0 (n.cap 0 - (1 + nr_iov));
  sent = update (n.sent) 0 (n.sent 0 ++ ip_frame mbuf dhost ∷ []);
}

eth_send-room :
    (nr_iov mbuf dhost : ℕ) (n : Net)
    → 1 + nr_iov ≤ n.cap 0
    → eth_send 0 nr_iov mbuf dhost n ≡ some (queued nr_iov mbuf dhost n)
unfolding eth_send
eth_send-room nr_iov mbuf dhost n h = rw (le→ltb (n.cap 0) (1 + nr_iov) h) refl

short_or_room : (a b : ℕ) → (a < b) ⊎ (b ≤ a)
short_or_room a b = ground arith

module _ (hash : ℕ → ℕ) (cfg : Cfg) (mac eth_dev_count : ℕ) where
  -- The world that `udp_output` leaves, but for the network.
  abbrev prepared : (pkt : ℕ) → IpTuple → (len dhost : ℕ) → Net → World → World
  prepared pkt id len dhost net w =
      set_mbuf pkt (record (w.mbuf pkt) { ol_flags = 0; len = udp_pkt_size })
        (record w {
          headers =
              update (w.headers) pkt (headers_to false hash cfg mac eth_dev_count dhost id len);
          net = net;
        })

  -- What becomes of a datagram, with the answer of bsys_udp_send and the world that it leaves, when the
  -- address table answers `found` and leaves the network `net`; `events` were notified before.
  abbrev pub Outcome :
      (pkt pool addr len cookie : ℕ) (rest : List ℕ) (p0 : Pages) (id : IpTuple)
      → Errno ⊎ ℕ
      → Net
      → (events : List Event) → Ret
      → World
      → Type 0
  Outcome pkt pool addr len cookie rest p0 id (inr dhost) net events ok w' =
      (w'.net.sent 0 ≡ net.sent 0 ++ ip_frame pkt dhost ∷ [])
      × (w'.net.cap 0 + descriptors addr len ≡ net.cap 0)
      × (w'.headers pkt
          ≡ headers_to false hash cfg mac eth_dev_count dhost id (((w'.mbuf pkt).iovs 0).len))
      × Covers addr len (w'.mbuf pkt).nr_iov (w'.mbuf pkt).iovs
      × (w'.events ≡ events)
      × Loaded pkt pool cookie rest p0 w'
  Outcome pkt pool addr len cookie rest p0 id (inl e) net events again w' =
      (w'.net ≡ net) × (w'.events ≡ events) × Undone pkt pool rest p0 w'
  Outcome pkt pool addr len cookie rest p0 id (inr dhost) net events busy w' =
      (net.cap 0 < descriptors addr len)
      × (w'.net ≡ net)
      × (w'.events ≡ events)
      × Undone pkt pool rest p0 w'
  Outcome pkt pool addr len cookie rest p0 id found net events ret w' = ⊥

  prepared-Loaded :
      (pkt pool cookie len dhost : ℕ) (rest : List ℕ) (p0 : Pages) (id : IpTuple) (net : Net)
      (w : World)
      → Loaded pkt pool cookie rest p0 w
      → Loaded pkt pool cookie rest p0 (prepared pkt id len dhost net w)
  prepared-Loaded pkt pool cookie len dhost rest p0 id net w l =
      load pkt pool cookie rest p0 (record (w.mbuf pkt) { ol_flags = 0; len = udp_pkt_size })
        (record w {
          headers =
              update (w.headers) pkt (headers_to false hash cfg mac eth_dev_count dhost id len);
          net = net;
        })
        l.unpinned l.own l.handler l.tag l.stack l.frees l.restores

  output-Outcome :
      (pkt pool addr len cookie first : ℕ) (rest : List ℕ) (p0 : Pages) (id : IpTuple)
      (found : Errno ⊎ ℕ) (net : Net) (w : World)
      → arp_lookup_mac hash w.net id.dst_ip ≡ returns (found, net)
      → eth_dev_count ≤ 1
      → Loaded pkt pool cookie rest p0 w
      → len ≤ 1472
      → Covers addr len (w.mbuf pkt).nr_iov (w.mbuf pkt).iovs
      → first ≡ ((w.mbuf pkt).iovs 0).len
      → pkt ≢ 0
      → has pkt rest ≡ false
      → (ret : Ret) × (w' : World) × ((udp_output false hash cfg mac eth_dev_count pkt id first w
            >>= send_done false pkt)
          ≡ returns (ret, w'))
        × Outcome pkt pool addr len cookie rest p0 id found net w.events ret w'
  unfolding udp_output
  output-Outcome pkt pool addr len cookie first rest p0 id (inl e) net w answered few l small covers
        first_len some_mbuf apart =
      let (w', runs, undone, events, same) =
        give_back-Undone pkt pool cookie rest p0 again (record w { net = net })
          (moved pkt pool cookie rest p0 net w l) some_mbuf apart in
      (again, w', rw answered runs, (same, events, undone))
  output-Outcome pkt pool addr len cookie first rest p0 id (inr dhost) net w answered few l small
        covers first_len some_mbuf apart =
      let m = w.mbuf pkt in
      let u : World = prepared pkt id first dhost net w in
      let lu = prepared-Loaded pkt pool cookie first dhost rest p0 id net w l in
      let takes : 1 + m.nr_iov ≡ descriptors addr len =
        Covers-descriptors addr len m.nr_iov m.iovs small covers in
      let same : u.mbuf pkt ≡ record m { ol_flags = 0; len = udp_pkt_size } =
        rw (eq→== pkt pkt refl) refl in
      elim (short_or_room (net.cap 0) (1 + m.nr_iov)) [
        | inl short ↦
            let (w', runs, undone, events, same_net) =
              give_back-Undone pkt pool cookie rest p0 busy u lu some_mbuf apart in
            (
              busy,
              w',
              rw
                  (
                    answered,
                    le→ltb 1 eth_dev_count few,
                    eth_send-full 0 m.nr_iov pkt dhost net short,
                  )
                  runs,
              (subst (λ (n : ℕ). net.cap 0 < n) takes short, same_net, events, undone),
            )
        | inr room ↦ (
          ok,
          record u { net = queued (m.nr_iov) pkt dhost net },
          rw (answered, le→ltb 1 eth_dev_count few, eth_send-room m.nr_iov pkt dhost net room) refl,
          (
            refl,
            omega arith,
            rw (eq→== pkt pkt refl) refl
                ∙ ap (λ (n : ℕ). headers_to false hash cfg mac eth_dev_count dhost id n)
                    (first_len ∙ ap (λ (b : Mbuf). (b.iovs 0).len) (sym same)),
            subst (λ (b : Mbuf). Covers addr len b.nr_iov b.iovs) (sym same) covers,
            refl,
            moved pkt pool cookie rest p0 (queued (m.nr_iov) pkt dhost net) u lu,
          ),
        )
      ]

  pub bsys_udp_send-Outcome :
      (pkt vaddr addr len cookie : ℕ) (rest : List ℕ) (id : IpTuple) (found : Errno ⊎ ℕ) (net : Net)
      (w : World)
      → IsFree w.mbuf_mempool w (pkt ∷ rest)
      → len ≤ 1472
      → InPages addr len
      → Quiet w.net
      → arp_lookup_mac hash w.net id.dst_ip ≡ returns (found, net)
      → eth_dev_count ≤ 1
      → (ret : Ret) × (w' : World) × (bsys_udp_send false hash cfg mac eth_dev_count vaddr addr len
            (some id)
            cookie
            w
          ≡ returns (ret, w'))
        × Outcome pkt w.mbuf_mempool addr len cookie rest w.pages id found net w.events ret w'
        × Unsent w.net net
  unfolding bsys_udp_send
  bsys_udp_send-Outcome pkt vaddr addr len cookie rest id found net w free small inside quiet
        answered few =
      let t = mbuf_alloc_local-takes pkt rest w free in
      let w1 : World = taken pkt (t.left) w in
      let pn = create_iovs-Pinned addr len (w1.mbuf pkt).iovs w1 inside small in
      let w2 : World = record w1 { pages = pn.pages } in
      let v : Mbuf = record (w2.mbuf pkt) {
        iovs = pn.iovs;
        nr_iov = pn.nr;
        done = udp_done;
        done_data = cookie;
      } in
      let pool_kept : v.pool ≡ w.mbuf_mempool = rw (eq→== pkt pkt refl) refl in
      let lu =
        load pkt w.mbuf_mempool cookie rest w.pages v w2 pn.unpinned pool_kept refl refl t.stack
          pn.frees pn.restores in
      let same = set_mbuf-same pkt v w2 in
      let (ret, w', runs, out) =
        output-Outcome pkt w.mbuf_mempool addr len cookie pn.first rest w.pages id found net
          (set_mbuf pkt v w2) answered few lu small
          (subst (λ (b : Mbuf). Covers addr len b.nr_iov b.iovs) (sym same) pn.covers)
          (pn.first_len ∙ ap (λ (b : Mbuf). (b.iovs 0).len) (sym same)) t.some_mbuf t.apart in
      (
        ret,
        w',
        rw (le→ltb 1472 len small, t.runs, ne→== pkt 0 t.some_mbuf, pn.runs) runs,
        out,
        arp_lookup_mac-Unsent hash w.net id.dst_ip found net quiet answered,
      )
