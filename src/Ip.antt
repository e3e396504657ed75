-- ===== src/Ip.antt =====
-- IP packets that arrive and that are sent: `ip_input`, `eth_input` and `ip_send_one` of net/ip.c,
-- and `send_pending_pkt` of net/arp.c. The handlers of TCP, UDP and ICMP are where the packet goes.
pub mod Laws
pub mod Output
pub mod OutputLaws
mod Tests
mod OutputTests
use Prim.Native.Nat.{bit_and}
use kns.Common.{
  ℕ, ◌+◌, ◌-◌, ◌*◌, Bool, true, false, not, ◌&&◌, ◌||◌, Option, none, some, List, [], ◌∷◌, ◌++◌,
  ◌⊎◌, inl, inr,
}
use kns.Common.Tests.{ltb, leb, ◌==◌, if◌then◌else◌}
use kns.Common.Errno.{Errno, eio}
use kns.Arp.Table.{Pending, Entry}
use kns.Arp.State.{Net, Cfg, Frame, ip_frame, eth_send_one, Out, returns, faults, ◌>>=◌}
use kns.Arp.{arp_lookup_mac, arp_add_pending_pkt, arp_find, put_entry}

-- A received packet: the length of its data from the Ethernet header on, the type of that header,
-- and the fields of the IP header, in host order; `header_len` counts words of four bytes.
pub record IpPacket : Type 0 where
  pub len : ℕ
  pub ethtype : ℕ
  pub version : ℕ
  pub header_len : ℕ
  pub off : ℕ
  pub total : ℕ
  pub proto : ℕ

-- Where a packet goes: to a protocol, with the place of its payload in the data and its length, to
-- ARP, or back to the pool.
pub data Verdict : Type 0 where
  to_tcp to_udp to_icmp : (payload len : ℕ) → Verdict
  to_arp dropped : Verdict

-- The IP header stands behind the 14 bytes of the Ethernet header.
unfoldable pub ip_input : IpPacket → Verdict
ip_input p =
    let hdrlen = p.header_len * 4 in
    if not (leb (14 + 20) p.len)
    then dropped
    else if not (p.version == 4)
    then dropped
    else if ltb p.header_len 5
    then dropped
    else if not (bit_and p.off 0x3fff == 0)
    then dropped
    else if ltb p.total hdrlen
    then dropped
    else if not (leb (14 + p.total) p.len)
    then dropped
    else if p.proto == 6
    then to_tcp (14 + hdrlen) (p.total - hdrlen)
    else if p.proto == 17
    then to_udp (14 + hdrlen) (p.total - hdrlen)
    else if p.proto == 1
    then to_icmp (14 + hdrlen) (p.total - hdrlen)
    else dropped

unfoldable pub eth_input : IpPacket → Verdict
eth_input p =
    if p.ethtype == 0x0800 then ip_input p else if p.ethtype == 0x0806 then to_arp else dropped

-- The neighbour that a packet goes to first.
unfoldable pub next_hop : Cfg → (dst_addr : ℕ) → ℕ
next_hop cfg dst_addr =
    if bit_and dst_addr cfg.mask == bit_and cfg.host_addr cfg.mask
    then dst_addr
    else cfg.gateway_addr

module _ (hash : ℕ → ℕ) where
  -- What follows the lookup; the result of `arp_add_pending_pkt` is ignored.
  abbrev pub sent_to :
      (cpu dev_idx fg hop mbuf len : ℕ) → (Errno ⊎ ℕ) × Net → Out (Option Errno × Net)
  sent_to cpu dev_idx fg hop mbuf len (inl e, n) =
      arp_add_pending_pkt hash cpu n hop fg mbuf len >>= λ (ignored, n'). returns (none, n')
  sent_to cpu dev_idx fg hop mbuf len (inr mac, n) =
      elim (eth_send_one n dev_idx (ip_frame mbuf mac)) [
        | none ↦ returns (some eio, n)
        | some n' ↦ returns (none, n')
      ]

  -- `none` is the result 0. `dev_idx` is that of the flow group `fg`.
  unfoldable pub ip_send_one :
      Cfg → (cpu dev_idx : ℕ) → Net → (fg dst_addr mbuf len : ℕ) → Out (Option Errno × Net)
  ip_send_one cfg cpu dev_idx n fg dst_addr mbuf len =
      let hop = next_hop cfg dst_addr in
      arp_lookup_mac hash n hop >>= sent_to cpu dev_idx fg hop mbuf len

  abbrev pub unlinked : ℕ → List Pending → List Pending
  unlinked mbuf [] = []
  unlinked mbuf (p ∷ ps) = if p.mbuf == mbuf then ps else p ∷ unlinked mbuf ps

  -- A packet that waited is sent by its CPU and leaves the list it waited in. The entry of that list
  -- is found by the address; a packet is told by its mbuf.
  unfoldable pub send_pending_pkt : Cfg → (dev_idx : ℕ) → Net → Pending → Out Net
  send_pending_pkt cfg dev_idx n pkt =
      ip_send_one cfg pkt.cpu dev_idx n pkt.fg pkt.dst_addr pkt.mbuf pkt.len >>= λ (ret, n').
      let n'' : Net = elim ret [
        | none ↦ n'
        | some e ↦ record n' { freed = n'.freed ++ pkt.mbuf ∷ [] }
      ] in
      elim (arp_find hash n'' pkt.dst_addr) [
        | none ↦ faults
        | some e ↦
            returns
              (record (put_entry hash n''
                (record e { pending = unlinked (pkt.mbuf) (e.pending) })) {
                  pendings = n''.pendings + 1;
                })
      ]
