-- ===== src/Arp/Tests.antt =====
-- Address resolution at concrete inputs: a table that knows 192.168.0.2, for a host 192.168.0.1.
use kns.Common.{ℕ, ◌≡◌, ◌≢◌, refl, true, false, none, [], ◌∷◌, inl, inr}
use kns.Common.Tests.{◌==◌, if◌then◌else◌}
use kns.Common.Errno.{eagain}
use kns.Arp.State.{new_entry, Net, Cfg, ArpPacket, returns}
use kns.Arp.Table.{Pending, Entry}
use kns.Arp.{add_entry, arp_lookup, arp_update_mac, arp_lookup_mac, arp_input, arp_find}
use kns.Arp.Find.{Always}
use kns.Arp.Laws.{arp_update_mac-arp_lookup_mac}
use kns.Arp.Static.{Fixed, arp_input-Fixed}
use kns.Arp.Calm.{Quiet}
use kns.Arp.Quiet.{at_rest, then_call, looked_up, Steps-Quiet}

abbrev hash : ℕ → ℕ
hash a = a

abbrev host : Cfg
host = record { host_addr = 0xc0a80001; mask = 0xffffff00; gateway_addr = 0xc0a800fe }

abbrev waiting : Pending
waiting = record { dst_addr = 0xc0a80002; fg = 1; mbuf = 9; len = 60; cpu = 3; dispatched = false }

abbrev known : Entry
known = record {
  addr = 0xc0a80002;
  mac = 0;
  resolving = false;
  valid = false;
  static = false;
  retries = 0;
  timer = false;
  pending = waiting ∷ [];
}

abbrev fixed : Entry
fixed = record known { mac = 0x2468; valid = true; static = true; pending = [] }

abbrev net_with : Entry → Net
net_with e = record {
  tbl = λ i. if i == 2 then e ∷ [] else [];
  arp_lock = false;
  entries = 0;
  pendings = 5;
  mbufs = 5;
  cap = λ q. 8;
  sent = λ q. [];
  posted = [];
  freed = [];
}

arp_update_mac-arp_lookup_mac_example :
    (n' : Net) × (arp_update_mac hash (net_with known) 0xc0a80002 0x1234 true ≡ returns (none, n'))
    × (arp_lookup_mac hash n' 0xc0a80002 ≡ returns (inr 0x1234, n'))
    × (n'.posted ≡ waiting ∷ [])
    × ((b : ℕ) → b ≢ 0xc0a80002 → arp_find hash n' b ≡ arp_find hash (net_with known) b)
arp_update_mac-arp_lookup_mac_example =
    arp_update_mac-arp_lookup_mac hash (net_with known) 0xc0a80002 0x1234 true known refl refl

-- A reply that claims another MAC address for the static entry's address.
abbrev spoof : ArpPacket
spoof = record {
  len = 60;
  htype = 1;
  ptype = 0x0800;
  hlen = 6;
  plen = 4;
  op = 2;
  sender_mac = 0x6666;
  sender_ip = 0xc0a80002;
  target_ip = 0xc0a80001;
}

arp_input-Fixed_example :
    Always (Fixed hash 0xc0a80002 fixed) (arp_input hash host (net_with fixed) 9 spoof)
arp_input-Fixed_example =
    arp_input-Fixed hash host (net_with fixed) 9 spoof 0xc0a80002 fixed (refl, refl)

abbrev empty_net : Net
empty_net = record (net_with known) { tbl = λ i. []; entries = 2 }

empty_net-Quiet : Quiet empty_net
empty_net-Quiet = record { calm = λ i. tt; no_request = λ q. tt }

abbrev asked : Net
asked = add_entry hash empty_net (new_entry 0xc0a80002)

-- The first lookup of an address makes an entry, and sends nothing.
first_lookup : arp_lookup_mac hash empty_net 0xc0a80002 ≡ returns (inl eagain, asked)
unfolding arp_lookup_mac arp_lookup
first_lookup = refl

Steps-Quiet_example : Quiet asked
Steps-Quiet_example = Steps-Quiet hash host empty_net asked empty_net-Quiet (
    then_call empty_net empty_net asked (at_rest empty_net)
      (looked_up empty_net asked 0xc0a80002 (inl eagain) first_lookup))
