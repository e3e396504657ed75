-- ===== src/Ip/OutputLaws.antt =====
-- What a packet of TCP's holds, and what becomes of its buffer: ip_output_hinted of net/ip.c and
-- tcp_output_packet of net/tcp_api.c.
use kns.Common.{
  ℕ, ◌+◌, ◌%◌, ◌^◌, ◌≤◌, ◌≡◌, ◌≢◌, refl, ap, sym, ◌∙◌, false, Option, none, some, List, [], ◌∷◌,
  ◌++◌, append_assoc, append-nil, arith,
}
use kns.Common.Tests.{ltb, eq→==, ne→==}
use kns.Common.Lists.{length}
use kns.Common.Errno.{Errno, eio}
use kns.Common.Links.{has}
use kns.Flow.World.{update}
use kns.Arp.State.{Net, Cfg, returns}
use kns.Ip.{ip_send_one}
use kns.Ip.Output.{
  Chain, Packet, Sender, copy_chain, mbuf_data_len, tx_cksum, after_send, output, ip_output_hinted,
  tcp_output_packet, tcp_header,
}
use kns.Udp.{ip_setup_header}
use kns.Udp.State.{IpHdr, Mbuf, World, set_mbuf, put_pool}
use kns.Udp.Pool.{IsFree, taken, mbuf_alloc_local-takes, mbuf_free-gives}

-- The bytes of a chain, one buffer after the other.
abbrev pub concat : List (List ℕ) → List ℕ
concat [] = []
concat (b ∷ bufs) = b ++ concat bufs

copy_chain-concat :
    (bufs : List (List ℕ)) (payload : List ℕ) → copy_chain bufs payload ≡ payload ++ concat bufs
unfolding copy_chain
copy_chain-concat [] payload = sym (append-nil payload)
copy_chain-concat (b ∷ bufs) payload =
    copy_chain-concat bufs (payload ++ b) ∙ append_assoc payload b (concat bufs)

-- A chain that fits behind the headers.
copied_fits :
    (bufs : List (List ℕ))
    → length (concat bufs) ≤ 2014
    → ltb mbuf_data_len (34 + length (copy_chain bufs [])) ≡ false
copied_fits bufs fits = rw (copy_chain-concat bufs []) (ground (arith, fits))

-- What becomes of the buffer `pkt`, when `ip_send_one` answers `ret`.
abbrev pub Outcome : (pkt pool : ℕ) (rest : List ℕ) → Option Errno → Option Errno → World → Type 0
Outcome pkt pool rest none answer w = (answer ≡ none) × IsFree pool w rest
Outcome pkt pool rest (some e) answer w = (answer ≡ some eio) × IsFree pool w (pkt ∷ rest)

wraps_once : (n : ℕ) → (20 + n) % 2 ^ 16 ≡ (20 + n % 2 ^ 16) % 2 ^ 16
wraps_once n = omega arith

small_len :
    (n : ℕ) (xs : List ℕ) → n ≡ length xs → length xs ≤ 2014 → (20 + n) % 2 ^ 16 ≡ 20 + length xs
small_len n xs counted fits = omega arith

module _ (hash : ℕ → ℕ) (cfg : Cfg) (cpu dev_idx fg : ℕ) where
  after_send-Outcome :
      (pkt pool : ℕ) (rest : List ℕ) (ret : Option Errno) (net : Net) (s : Sender)
      → pkt ≢ 0
      → has pkt rest ≡ false
      → (s.world.mbuf pkt).pool ≡ pool
      → IsFree pool s.world rest
      → (answer : Option Errno) × (s' : Sender) × (after_send false hash cfg cpu dev_idx fg pkt s
            (ret, net)
          ≡ returns (answer, s'))
        × (s'.packets ≡ s.packets)
        × (s'.world.net ≡ net)
        × Outcome pkt pool rest ret answer s'.world
  after_send-Outcome pkt pool rest none net s some_mbuf apart own free =
      (none, record s { world = record (s.world) { net = net } }, refl, refl, refl, (refl, free))
  after_send-Outcome pkt pool rest (some e) net s some_mbuf apart own free =
      let w : World = record (s.world) { net = net } in
      let given = mbuf_free-gives pkt pool rest w own free some_mbuf apart in
      (
        some eio,
        record s { world = put_pool pool (given.left) w },
        rw given.runs refl,
        refl,
        refl,
        (refl, given.stack),
      )

  output-Outcome :
      (pkt : ℕ) (rest : List ℕ) (ip : IpHdr) (dst_addr : ℕ) (p : Chain) (s : Sender)
      (ret : Option Errno) (net : Net)
      → IsFree s.world.mbuf_mempool s.world (pkt ∷ rest)
      → length (concat p.bufs) ≤ 2014
      → ip_send_one hash cfg cpu dev_idx s.world.net fg dst_addr pkt (34 + p.tot_len)
        ≡ returns (ret, net)
      → (answer : Option Errno) × (s' : Sender) × (output false hash cfg cpu dev_idx fg ip dst_addr
            p s
          ≡ returns (answer, s'))
        × (s'.packets pkt ≡ record { ip = ip; payload = concat (p.bufs) })
        × (s'.world.net ≡ net)
        × Outcome pkt s.world.mbuf_mempool rest ret answer s'.world
  unfolding output
  output-Outcome pkt rest ip dst_addr p s ret net free fits answered =
      let t = mbuf_alloc_local-takes pkt rest s.world free in
      let w : World = taken pkt (t.left) (s.world) in
      let v : Mbuf = record (w.mbuf pkt) { ol_flags = tx_cksum } in
      let written : Packet = record { ip = ip; payload = copy_chain (p.bufs) [] } in
      let s1 : Sender = record s {
        world = set_mbuf pkt v w;
        packets = update (s.packets) pkt written;
      } in
      let own : (s1.world.mbuf pkt).pool ≡ s.world.mbuf_mempool = rw (eq→== pkt pkt refl) refl in
      let (answer, s', runs, packets, net_left, out) =
        after_send-Outcome pkt s.world.mbuf_mempool rest ret net s1 t.some_mbuf t.apart own
          t.stack in
      (
        answer,
        s',
        rw (t.runs, ne→== pkt 0 t.some_mbuf, copied_fits p.bufs fits, answered) runs,
        ap (λ (f : ℕ → Packet). f pkt) packets
            ∙ rw (eq→== pkt pkt refl) (
                ap (λ (l : List ℕ). record { ip = ip; payload = l }) (copy_chain-concat p.bufs [])),
        net_left,
        out,
      )

  -- A packet of TCP's, with the checks compiled out and a buffer at hand, whose chain has at most 2014
  -- bytes, what a buffer holds behind the headers, and names their number as its length, is copied
  -- whole: behind its IP header the buffer holds the bytes of the chain in order, and the length in
  -- the header is that of the chain and the header. Where ip_send_one takes the packet, the call
  -- answers 0; where it refuses, the buffer goes back to its pool and the call answers -EIO. The
  -- network is left as ip_send_one leaves it.
  pub tcp_output_packet-Outcome :
      (pkt : ℕ) (rest : List ℕ) (local_ip remote_ip ttl tos : ℕ) (p : Chain) (s : Sender)
      (ret : Option Errno) (net : Net)
      → IsFree s.world.mbuf_mempool s.world (pkt ∷ rest)
      → length (concat p.bufs) ≤ 2014
      → p.tot_len ≡ length (concat p.bufs)
      → ip_send_one hash cfg cpu dev_idx s.world.net fg remote_ip pkt (34 + p.tot_len)
        ≡ returns (ret, net)
      → (answer : Option Errno) × (s' : Sender) × (tcp_output_packet false hash cfg cpu dev_idx fg
            local_ip remote_ip ttl tos p s
          ≡ returns (answer, s'))
        × ((s'.packets pkt).payload ≡ concat p.bufs)
        × ((s'.packets pkt).ip.len ≡ 20 + length (concat p.bufs))
        × ((s'.packets pkt).ip.dst_addr ≡ remote_ip)
        × (s'.world.net ≡ net)
        × Outcome pkt s.world.mbuf_mempool rest ret answer s'.world
  unfolding tcp_output_packet
  tcp_output_packet-Outcome pkt rest local_ip remote_ip ttl tos p s ret net free fits counted
        answered =
      let (answer, s', runs, packet, left, out) =
        output-Outcome pkt rest (tcp_header local_ip remote_ip ttl tos p.tot_len) remote_ip p s ret
          net free fits answered in
      (
        answer,
        s',
        runs,
        ap (λ (x : Packet). x.payload) packet,
        ap (λ (x : Packet). x.ip.len) packet ∙ small_len p.tot_len (concat p.bufs) counted fits,
        ap (λ (x : Packet). x.ip.dst_addr) packet,
        left,
        out,
      )

  -- tcp_output_packet, which fills in the IP header by itself, does what ip_output_hinted does with
  -- `ip_setup_header`, for every chain and every state.
  pub tcp_output_packet-ip_output_hinted :
      (local_ip remote_ip ttl tos : ℕ) (p : Chain) (s : Sender)
      → tcp_output_packet false hash cfg cpu dev_idx fg local_ip remote_ip ttl tos p s
        ≡ ip_output_hinted false hash cfg cpu dev_idx fg p local_ip remote_ip ttl tos 6 s
  unfolding tcp_output_packet ip_output_hinted ip_setup_header
  tcp_output_packet-ip_output_hinted local_ip remote_ip ttl tos p s =
      ap
        (λ (n : ℕ).
          output false hash cfg cpu dev_idx fg
            (record (tcp_header local_ip remote_ip ttl tos (p.tot_len)) { len = n }) remote_ip p s)
        (wraps_once p.tot_len)
