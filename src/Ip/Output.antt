-- ===== src/Ip/Output.antt =====
-- Packets that TCP sends: ip_output_hinted of net/ip.c and tcp_output_packet of net/tcp_api.c, which
-- copy a chain of lwIP's buffers into a buffer of the stack's own and send it.
use kns.Common.{ℕ, ◌+◌, ◌%◌, ◌^◌, Bool, Option, none, some, List, [], ◌∷◌, ◌++◌}
use kns.Common.Tests.{ltb, ◌==◌, if◌then◌else◌}
use kns.Common.Errno.{Errno, enomem, eio}
use kns.Common.Lists.{length}
use kns.Common.Links.{null}
use kns.Flow.World.{update}
use kns.Arp.State.{Net, Cfg, Out, returns, faults, ◌>>=◌}
use kns.Ip.{ip_send_one}
use kns.Udp.{ip_setup_header}
use kns.Udp.State.{IpHdr, World, set_mbuf, mbuf_alloc_local, mbuf_free}

-- `struct pbuf` and those that follow it, each by the bytes that it holds; `tot_len` is that of the
-- first one.
pub record Chain : Type 0 where
  pub bufs : List (List ℕ)
  pub tot_len : ℕ

-- What a packet has behind its Ethernet header.
pub record Packet : Type 0 where
  pub ip : IpHdr
  pub payload : List ℕ

-- The buffers, and what was written to each.
pub record Sender : Type 0 where
  pub world : World
  pub packets : ℕ → Packet

-- The loop over the chain, which starts at `payload`.
unfoldable pub copy_chain : List (List ℕ) → (payload : List ℕ) → List ℕ
copy_chain [] payload = payload
copy_chain (b ∷ bufs) payload = copy_chain bufs (payload ++ b)

-- MBUF_DATA_LEN
abbrev pub mbuf_data_len : ℕ
mbuf_data_len = 2048

-- PKT_TX_IP_CKSUM and PKT_TX_TCP_CKSUM
abbrev pub tx_cksum : ℕ
tx_cksum = 0x3000

-- The header that `tcp_output_packet` fills in.
abbrev pub tcp_header : (local_ip remote_ip ttl tos tot_len : ℕ) → IpHdr
tcp_header local_ip remote_ip ttl tos tot_len = record {
  header_len = 5;
  version = 4;
  tos = tos;
  len = (20 + tot_len) % 2 ^ 16;
  id = 0;
  off = 0;
  ttl = ttl;
  proto = 6;
  chksum = 0;
  src_addr = local_ip;
  dst_addr = remote_ip;
}

module _ (traps : Bool) (hash : ℕ → ℕ) (cfg : Cfg) (cpu dev_idx fg : ℕ) where
  -- What follows the answer of `ip_send_one`.
  abbrev pub after_send : (pkt : ℕ) → Sender → Option Errno × Net → Out (Option Errno × Sender)
  after_send pkt s (none, net) = returns (none, record s { world = record (s.world) { net = net } })
  after_send pkt s (some e, net) = mbuf_free traps pkt (record (s.world) { net = net }) >>= λ w.
      returns (some eio, record s { world = w })

  -- The common part: the header `ip` and the chain in a new buffer, on the way to `dst_addr`. The length
  -- goes with the call, as in Ip. A chain that does not fit behind the headers is written over what
  -- lies behind the buffer, which is a fault.
  unfoldable pub output : (ip : IpHdr) (dst_addr : ℕ) → Chain → Sender → Out (Option Errno × Sender)
  output ip dst_addr p s = mbuf_alloc_local traps (s.world) >>= λ (pkt, w).
      let payload : List ℕ = copy_chain (p.bufs) [] in
      let s' : Sender = record s {
        world = set_mbuf pkt (record (w.mbuf pkt) { ol_flags = tx_cksum }) w;
        packets = update (s.packets) pkt (record { ip = ip; payload = payload });
      } in
      if pkt == null
      then returns (some enomem, record s { world = w })
      else if ltb mbuf_data_len (34 + length payload)
      then faults
      else ip_send_one hash cfg cpu dev_idx (s'.world.net) fg dst_addr pkt (34 + p.tot_len)
        >>= after_send pkt s'

  -- The addresses are in host order.
  unfoldable pub ip_output_hinted :
      Chain → (src dest ttl tos proto : ℕ) → Sender → Out (Option Errno × Sender)
  ip_output_hinted p src dest ttl tos proto s =
      output (record (ip_setup_header proto src dest (p.tot_len)) { tos = tos; ttl = ttl }) dest p s

  unfoldable pub tcp_output_packet :
      (local_ip remote_ip ttl tos : ℕ) → Chain → Sender → Out (Option Errno × Sender)
  tcp_output_packet local_ip remote_ip ttl tos p s =
      output (tcp_header local_ip remote_ip ttl tos (p.tot_len)) remote_ip p s
