-- ===== src/Arp/State.antt =====
-- The state that the functions of net/arp.c and net/ip.c share, and how a call ends.
use kns.Common.{ℕ, ◌-◌, Bool, false, Option, none, some, List, [], ◌∷◌, ◌++◌}
use kns.Common.Tests.{ltb, if◌then◌else◌}
use kns.Flow.World.{update}
use kns.Arp.Table.{Pending, Entry}

-- How a call ends: it returns, it waits for a lock that nobody gives back, or it faults.
pub data Out {ℓ} (A : Type ℓ) : Type ℓ where
  returns : A → Out A
  waits faults : Out A

infixl 5 ◌>>=◌
abbrev pub ◌>>=◌ {ℓ κ} : {A : Type ℓ} {B : Type κ} → Out A → (A → Out B) → Out B
returns a >>= f = f a
waits >>= f = waits
faults >>= f = faults

-- A frame in a transmit queue: an ARP packet of this host with its operation and target, or an IP
-- packet with its destination MAC address.
pub data Frame : Type 0 where
  arp_frame : (op target_ip target_mac : ℕ) → Frame
  ip_frame : (mbuf dhost : ℕ) → Frame

-- `entries`, `pendings` and `mbufs` tell how many more elements the three pools can give; `cap` and
-- `sent` are the free descriptors and the frames of each transmit queue; `posted` are the packets
-- posted to other CPUs by `cpu_run_on_one(send_pending_pkt, ...)`; `freed` the mbufs given back.
pub record Net : Type 0 where
  pub tbl : ℕ → List Entry
  pub arp_lock : Bool
  pub entries : ℕ
  pub pendings : ℕ
  pub mbufs : ℕ
  pub cap : ℕ → ℕ
  pub sent : ℕ → List Frame
  pub posted : List Pending
  pub freed : List ℕ

-- A received ARP packet: its fields in host order, and the length of the data.
pub record ArpPacket : Type 0 where
  pub len : ℕ
  pub htype : ℕ
  pub ptype : ℕ
  pub hlen : ℕ
  pub plen : ℕ
  pub op : ℕ
  pub sender_mac : ℕ
  pub sender_ip : ℕ
  pub target_ip : ℕ

-- `CFG`
pub record Cfg : Type 0 where
  pub host_addr : ℕ
  pub mask : ℕ
  pub gateway_addr : ℕ

abbrev pub arp_max_entries : ℕ
arp_max_entries = 65536

abbrev pub arp_max_attempts : ℕ
arp_max_attempts = 3

abbrev pub broadcast : ℕ
broadcast = 0xffffffffffff

abbrev pub arp_op_request : ℕ
arp_op_request = 1

abbrev pub arp_op_reply : ℕ
arp_op_reply = 2

abbrev pub eth_send_one : Net → ℕ → Frame → Option Net
eth_send_one n q frame =
    if ltb (n.cap q) 1
    then none
    else some (record n {
      cap = update (n.cap) q (n.cap q - 1);
      sent = update (n.sent) q (n.sent q ++ frame ∷ []);
    })

-- The code sets neither `mac` nor `pending`: they are what the memory of the element holds. The model
-- takes that to be zero, as in memory that was cleared; only the timer's handler gives entries back.
abbrev pub new_entry : ℕ → Entry
new_entry addr = record {
  addr = addr;
  mac = 0;
  resolving = false;
  valid = false;
  static = false;
  retries = 0;
  timer = false;
  pending = [];
}
