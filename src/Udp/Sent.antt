-- ===== src/Udp/Sent.antt =====
-- A datagram of net/udp.c from the call of the application to the release of its mbuf.
use kns.Common.{ℕ, ◌≤◌, ◌≡◌, refl, inr, some, false, List, [], ◌∷◌, ◌++◌, ◌∙◌, ap, arith}
use kns.Page.{Pages}
use kns.Arp.State.{Net, Cfg, returns}
use kns.Arp.{arp_lookup_mac}
use kns.Arp.Calm.{Quiet}
use kns.TcpApi.State.{IpTuple}
use kns.Udp.{Ret, ok, inval, fault, nobufs, again, nosys, busy, bsys_udp_send, mbuf_xmit_done}
use kns.Udp.State.{Event, World, udp_sent}
use kns.Udp.Pool.{IsFree, mbuf_alloc_local-takes}
use kns.Udp.Iovs.{descriptors, InPages}
use kns.Udp.Loaded.{Loaded, Undone, mbuf_xmit_done-Undone, moved}
use kns.Udp.Output.{Outcome, bsys_udp_send-Outcome}

module _ (hash : ℕ → ℕ) (cfg : Cfg) (mac eth_dev_count : ℕ) where
  -- With room for the mbuf and its IOVs, the outcome is that the datagram is queued.
  queued-Loaded :
      (pkt pool addr len cookie dhost : ℕ) (rest : List ℕ) (p0 : Pages) (id : IpTuple) (net : Net)
      (events : List Event) (ret : Ret) (w : World)
      → descriptors addr len ≤ net.cap 0
      → Outcome hash cfg mac eth_dev_count pkt pool addr len cookie rest p0 id
          (inr dhost)
          net
          events
          ret
          w
      → (ret ≡ ok) × (w.events ≡ events) × Loaded pkt pool cookie rest p0 w
  queued-Loaded pkt pool addr len cookie dhost rest p0 id net events ok w room o = (refl, o.4, o.5)
  queued-Loaded pkt pool addr len cookie dhost rest p0 id net events busy w room o =
      absurd (omega (arith, o.0))
  queued-Loaded pkt pool addr len cookie dhost rest p0 id net events inval w room o = absurd o
  queued-Loaded pkt pool addr len cookie dhost rest p0 id net events fault w room o = absurd o
  queued-Loaded pkt pool addr len cookie dhost rest p0 id net events nobufs w room o = absurd o
  queued-Loaded pkt pool addr len cookie dhost rest p0 id net events again w room o = absurd o
  queued-Loaded pkt pool addr len cookie dhost rest p0 id net events nosys w room o = absurd o

  -- With the checks compiled out: a datagram of at most 1472 bytes in page memory, to an address that
  -- ARP knows while no timer of it is armed, with a mbuf at hand, one device and room in the transmit queue, is queued. When the
  -- adapter is done with it, whatever became of the network by then, the application is told the
  -- cookie of the send, once; the mbuf is back on top of the pool that it was taken from, and every page has the
  -- references that it had before the send.
  pub bsys_udp_send-mbuf_xmit_done :
      (pkt vaddr addr len cookie dhost : ℕ) (rest : List ℕ) (id : IpTuple) (net later : Net)
      (w : World)
      → IsFree w.mbuf_mempool w (pkt ∷ rest)
      → len ≤ 1472
      → InPages addr len
      → Quiet w.net
      → arp_lookup_mac hash w.net id.dst_ip ≡ returns (inr dhost, net)
      → eth_dev_count ≤ 1
      → descriptors addr len ≤ net.cap 0
      → (w1 : World) × (w2 : World) × (bsys_udp_send false hash cfg mac eth_dev_count vaddr addr len
            (some id)
            cookie
            w
          ≡ returns (ok, w1))
        × (mbuf_xmit_done false pkt (record w1 { net = later }) ≡ returns w2)
        × Undone pkt w.mbuf_mempool rest w.pages w2
        × (w2.events ≡ w.events ++ udp_sent cookie ∷ [])
  bsys_udp_send-mbuf_xmit_done pkt vaddr addr len cookie dhost rest id net later w free small inside
        quiet known few room =
      let t = mbuf_alloc_local-takes pkt rest w free in
      let (ret, w1, runs, out, unsent) =
        bsys_udp_send-Outcome hash cfg mac eth_dev_count pkt vaddr addr len cookie rest id
          (inr dhost) net w free small inside quiet known few in
      let (answered, events, l) =
        queued-Loaded pkt w.mbuf_mempool addr len cookie dhost rest w.pages id net w.events ret w1
          room out in
      let (w2, released, undone, told) =
        mbuf_xmit_done-Undone pkt w.mbuf_mempool cookie rest w.pages (record w1 { net = later })
          (moved pkt w.mbuf_mempool cookie rest w.pages later w1 l) t.some_mbuf t.apart in
      (
        w1,
        w2,
        runs ∙ ap (λ (r : Ret). returns (r, w1)) answered,
        released,
        undone,
        told ∙ ap (λ (es : List Event). es ++ udp_sent cookie ∷ []) events,
      )
