-- ===== src/Ip/Tests.antt =====
-- Packets of net/ip.c at concrete inputs.
use kns.Common.{ℕ, ◌≡◌, refl, true, false, none, [], ◌∷◌, arith}
use kns.Common.Tests.{◌==◌, if◌then◌else◌}
use kns.Arp.Table.{Entry}
use kns.Arp.State.{Net, Cfg, returns}
use kns.Arp.{arp_update_mac}
use kns.Ip.{IpPacket, eth_input, next_hop, ip_send_one}
use kns.Ip.Laws.{Checked, waiting, eth_input-Checked, ip_send_one-posted}

abbrev hash : ℕ → ℕ
hash a = a

abbrev host : Cfg
host = record { host_addr = 0xc0a80001; mask = 0xffffff00; gateway_addr = 0xc0a800fe }

abbrev unresolved : Entry
unresolved = record {
  addr = 0xc0a80002;
  mac = 0;
  resolving = false;
  valid = false;
  static = false;
  retries = 0;
  timer = false;
  pending = [];
}

abbrev resolved : Entry
resolved = record unresolved { mac = 0x1234; valid = true }

abbrev net_with : Entry → (pendings : ℕ) → Net
net_with e pendings = record {
  tbl = λ i. if i == 2 then e ∷ [] else [];
  arp_lock = false;
  entries = 4;
  pendings = pendings;
  mbufs = 5;
  cap = λ q. 8;
  sent = λ q. [];
  posted = [];
  freed = [];
}

-- A UDP packet of 60 bytes.
abbrev udp_packet : IpPacket
udp_packet = record {
  len = 60;
  ethtype = 0x0800;
  version = 4;
  header_len = 5;
  off = 0;
  total = 46;
  proto = 17;
}

eth_input-Checked_example : Checked udp_packet (eth_input udp_packet)
eth_input-Checked_example = eth_input-Checked udp_packet

ip_send_one-posted_example :
    (n' : Net) × (n'' : Net) × (ip_send_one hash host 3 0 (net_with unresolved 1) 1 0xc0a80002 9 60
      ≡ returns (none, n'))
    × (arp_update_mac hash n' 0xc0a80002 0x1234 false ≡ returns (none, n''))
    × (n''.posted ≡ waiting hash 3 1 0xc0a80002 9 60 ∷ [])
unfolding next_hop
ip_send_one-posted_example =
    ip_send_one-posted hash host 3 0 (net_with unresolved 1) 1 0xc0a80002 9 60 0x1234 false
      unresolved refl refl refl refl (omega arith)
