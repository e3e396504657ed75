-- ===== src/Ip/OutputTests.antt =====
-- Packets of TCP's at a concrete chain of two buffers.
use kns.Common.{ℕ, ◌≡◌, refl, true, false, Option, none, [], ◌∷◌, arith}
use kns.Common.Tests.{◌==◌, if◌then◌else◌}
use kns.Common.Errno.{Errno}
use kns.Common.Int.{pos}
use kns.Flow.World.{update}
use kns.Mempool.{mempool_magic}
use kns.Arp.Table.{Entry}
use kns.Arp.State.{Net, Cfg, returns, ip_frame}
use kns.Arp.{arp_lookup, arp_lookup_mac}
use kns.Ip.{ip_send_one, next_hop}
use kns.Ip.Output.{Chain, Sender, tcp_output_packet}
use kns.Ip.OutputLaws.{Outcome, tcp_output_packet-Outcome}
use kns.Udp.{ip_setup_header}
use kns.Udp.State.{World, Mbuf, MbufIov, default_done}
use kns.Udp.Pool.{IsFree}

abbrev hash : ℕ → ℕ
hash a = a

abbrev host : Cfg
host = record { host_addr = 0xc0a80001; mask = 0xffffff00; gateway_addr = 0xc0a800fe }

abbrev neighbour : Entry
neighbour = record {
  addr = 0xc0a80002;
  mac = 0x1234;
  resolving = false;
  valid = true;
  static = false;
  retries = 0;
  timer = false;
  pending = [];
}

abbrev net : Net
net = record {
  tbl = λ i. if i == 2 then neighbour ∷ [] else [];
  arp_lock = false;
  entries = 4;
  pendings = 4;
  mbufs = 5;
  cap = λ q. 8;
  sent = λ q. [];
  posted = [];
  freed = [];
}

abbrev no_iov : MbufIov
no_iov = record { base = 0; maddr = 0; len = 0 }

abbrev fresh : Mbuf
fresh = record {
  pool = 16;
  len = 60;
  next = 0;
  iovs = λ i. no_iov;
  nr_iov = 0;
  ol_flags = 0;
  done = default_done;
  done_data = 0;
}

abbrev world : (head : ℕ) → World
world head = record {
  mem = record { next = λ a. 0; next_chunk = λ a. 0 };
  pools = λ a. record {
    head = head;
    num_free = pos 1;
    elem_len = 2112;
    magic = mempool_magic;
    buf = 2097152;
    datastore = 8;
    private_chunk = 0;
    sanity = 0;
    nr_elems = 2;
    nostraddle = true;
    chunk_size = 2;
  };
  store = record {
    magic = mempool_magic;
    chunk_head = 0;
    buf = 2097152;
    nr_pages = 1;
    nr_elems = 2;
    elem_len = 2112;
    nostraddle = true;
    chunk_size = 2;
    num_chunks = pos 1;
    free_chunks = pos 0;
    num_locks = pos 1;
  };
  mbuf_mempool = 16;
  iomap_offset = λ a. 0;
  mbuf = λ m. fresh;
  tuple = λ m. record { src_ip = 0; dst_ip = 0; src_port = 0; dst_port = 0 };
  headers = λ m. record {
    dhost = 0;
    shost = 0;
    ethtype = 0;
    ip = ip_setup_header 17 0 0 0;
    src_port = 0;
    dst_port = 0;
    udp_len = 0;
    udp_chksum = 0;
  };
  pages = record {
    page_tbl = λ i. record { maddr = i; refcnt = pos 3; flags = if i == 2 then 1 else 0 };
    page_refs = λ i. pos 5;
    pagenum_free = pos 0;
  };
  net = net;
  events = [];
}

abbrev sender : Sender
sender = record {
  world = world 2099264;
  packets = λ m. record { ip = ip_setup_header 6 0 0 0; payload = [] };
}

abbrev chain : Chain
chain = record { bufs = (1 ∷ 2 ∷ []) ∷ (3 ∷ []) ∷ []; tot_len = 3 }

one-IsFree : IsFree 16 (world 2099264) (2099264 ∷ [])
one-IsFree = record {
  local = 2099264 ∷ [];
  spare = [];
  chunks = [];
  holds = ground arith;
  order = refl;
}

abbrev net_after : Net
net_after = record net {
  cap = update (net.cap) 0 7;
  sent = update (net.sent) 0 (ip_frame 2099264 0x1234 ∷ []);
}

sent_off : ip_send_one hash host 0 0 net 3 0xc0a80002 2099264 37 ≡ returns (none, net_after)
unfolding ip_send_one next_hop arp_lookup_mac arp_lookup
sent_off = refl

tcp_output_packet-Outcome_example :
    (answer : Option Errno) × (s' : Sender) × (tcp_output_packet false hash host 0 0 3 0xc0a80001
        0xc0a80002 64 0 chain sender
      ≡ returns (answer, s'))
    × ((s'.packets 2099264).payload ≡ 1 ∷ 2 ∷ 3 ∷ [])
    × ((s'.packets 2099264).ip.len ≡ 23)
    × ((s'.packets 2099264).ip.dst_addr ≡ 0xc0a80002)
    × (s'.world.net ≡ net_after)
    × Outcome 2099264 16 [] none answer s'.world
tcp_output_packet-Outcome_example =
    tcp_output_packet-Outcome hash host 0 0 3 2099264 [] 0xc0a80001 0xc0a80002 64 0 chain sender
      none net_after one-IsFree (omega arith) refl sent_off
