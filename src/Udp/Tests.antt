-- ===== src/Udp/Tests.antt =====
-- UDP of net/udp.c at concrete inputs: a datagram that arrives, one that is sent across the end of a
-- page, and one that the adapter is done with.
use kns.Common.{ℕ, ◌≡◌, refl, true, false, inr, some, [], ◌∷◌, arith}
use kns.Common.Tests.{◌==◌, if◌then◌else◌}
use kns.Common.Int.{pos}
use kns.Mempool.{mempool_magic}
use kns.Chksum.Sum.{ones_sum}
use kns.Arp.Table.{Entry}
use kns.Arp.State.{Net, Cfg, returns}
use kns.Arp.{arp_lookup, arp_lookup_mac}
use kns.Arp.Calm.{Quiet}
use kns.TcpApi.State.{IpTuple}
use kns.Udp.{
  ok, inval, Datagram, ip_setup_header, ip_hdr_bytes, set_chksum, udp_input, bsys_udp_recv_done,
  mbuf_xmit_done, bsys_udp_send,
}
use kns.Udp.State.{World, Mbuf, MbufIov, default_done, udp_recv, udp_sent}
use kns.Udp.Pool.{IsFree}
use kns.Udp.Header.{set_chksum-verifies}
use kns.Udp.Input.{IsMbuf, tuple_of, udp_input-recv_done}
use kns.Udp.Loaded.{Undone}
use kns.Udp.Sent.{bsys_udp_send-mbuf_xmit_done}

abbrev hash : ℕ → ℕ
hash a = a

abbrev host : Cfg
host = record { host_addr = 0xc0a80001; mask = 0xffffff00; gateway_addr = 0xc0a800fe }

abbrev neighbour : Entry
neighbour = record {
  addr = 0xc0a80002;
  mac = 0x1234;
  resolving = false;
  valid = true;
  static = false;
  retries = 0;
  timer = false;
  pending = [];
}

abbrev net : Net
net = record {
  tbl = λ i. if i == 2 then neighbour ∷ [] else [];
  arp_lock = false;
  entries = 4;
  pendings = 4;
  mbufs = 5;
  cap = λ q. 8;
  sent = λ q. [];
  posted = [];
  freed = [];
}

abbrev no_iov : MbufIov
no_iov = record { base = 0; maddr = 0; len = 0 }

abbrev fresh : Mbuf
fresh = record {
  pool = 16;
  len = 60;
  next = 0;
  iovs = λ i. no_iov;
  nr_iov = 0;
  ol_flags = 0;
  done = default_done;
  done_data = 0;
}

-- The pool at 16, whose free list starts at `head` and holds one mbuf at most.
abbrev world : (head : ℕ) → World
world head = record {
  mem = record { next = λ a. 0; next_chunk = λ a. 0 };
  pools = λ a. record {
    head = head;
    num_free = pos 1;
    elem_len = 2112;
    magic = mempool_magic;
    buf = 2097152;
    datastore = 8;
    private_chunk = 0;
    sanity = 0;
    nr_elems = 2;
    nostraddle = true;
    chunk_size = 2;
  };
  store = record {
    magic = mempool_magic;
    chunk_head = 0;
    buf = 2097152;
    nr_pages = 1;
    nr_elems = 2;
    elem_len = 2112;
    nostraddle = true;
    chunk_size = 2;
    num_chunks = pos 1;
    free_chunks = pos 0;
    num_locks = pos 1;
  };
  mbuf_mempool = 16;
  iomap_offset = λ a. 0;
  mbuf = λ m. fresh;
  tuple = λ m. record { src_ip = 0; dst_ip = 0; src_port = 0; dst_port = 0 };
  headers = λ m. record {
    dhost = 0;
    shost = 0;
    ethtype = 0;
    ip = ip_setup_header 17 0 0 0;
    src_port = 0;
    dst_port = 0;
    udp_len = 0;
    udp_chksum = 0;
  };
  pages = record {
    page_tbl = λ i. record { maddr = i; refcnt = pos 3; flags = if i == 2 then 1 else 0 };
    page_refs = λ i. pos 5;
    pagenum_free = pos 0;
  };
  net = net;
  events = [];
}

-- The mbuf at 2099264 is the second one of its page.
second-IsMbuf : IsMbuf 2099264 1 1
second-IsMbuf = record { place = refl; inside = omega arith; word = omega arith }

abbrev arriving : Datagram
arriving = record {
  udphdr = 34;
  src_addr = 0xc0a80002;
  dst_addr = 0xc0a80001;
  src_port = 53;
  dst_port = 5353;
  len = 26;
}

none-IsFree : IsFree 16 (world 0) []
none-IsFree = record { local = []; spare = []; chunks = []; holds = ground arith; order = refl }

-- All 60 bytes were received. The application frees the mbuf by the address it was told, and tries
-- again by the mbuf's own.
udp_input-recv_done_example :
    (w1 : World) × (w2 : World) × (udp_input false 2099264 arriving (world 0) ≡ returns w1)
    × (w1.events ≡ udp_recv 2099370 26 2099328 ∷ [])
    × (w1.tuple 2099264 ≡ tuple_of arriving)
    × (bsys_udp_recv_done false 2099370 w1 ≡ returns (ok, w2))
    × IsFree 16 w2 (2099264 ∷ [])
    × (bsys_udp_recv_done false 2099264 w2 ≡ returns (inval, w2))
udp_input-recv_done_example =
    udp_input-recv_done 2099264 1 1 106 0 0 arriving [] (world 0) second-IsMbuf (omega arith)
      (omega arith) (omega arith) refl refl (omega arith) none-IsFree (omega arith) refl

set_chksum-verifies_example :
    ones_sum (ip_hdr_bytes (set_chksum (ip_setup_header 17 0xc0a80001 0xc0a80002 108))) ≡ 65535
set_chksum-verifies_example = set_chksum-verifies 17 0xc0a80001 0xc0a80002 108 (omega arith)

abbrev peer : IpTuple
peer = record { src_ip = 0xc0a80001; dst_ip = 0xc0a80002; src_port = 5353; dst_port = 53 }

one-IsFree : IsFree 16 (world 2099264) (2099264 ∷ [])
one-IsFree = record {
  local = 2099264 ∷ [];
  spare = [];
  chunks = [];
  holds = ground arith;
  order = refl;
}

known : arp_lookup_mac hash net 0xc0a80002 ≡ returns (inr 0x1234, net)
unfolding arp_lookup_mac arp_lookup
known = refl

net-Quiet : Quiet net
net-Quiet = record { calm = λ i. ground arith; no_request = λ q. tt }

-- The adapter is done after the transmit queue was emptied.
bsys_udp_send-mbuf_xmit_done_example :
    (w1 : World) × (w2 : World) × (bsys_udp_send false hash host 0x5678 1 0x10000 4194264 100
        (some peer)
        7
        (world 2099264)
      ≡ returns (ok, w1))
    × (mbuf_xmit_done false 2099264 (record w1 { net = net }) ≡ returns w2)
    × Undone 2099264 16 [] ((world 2099264).pages) w2
    × (w2.events ≡ udp_sent 7 ∷ [])
bsys_udp_send-mbuf_xmit_done_example =
    bsys_udp_send-mbuf_xmit_done hash host 0x5678 1 2099264 0x10000 4194264 100 7 0x1234 [] peer net
      net (world 2099264) one-IsFree (omega arith)
      (record { start = omega arith; end = omega arith }) net-Quiet known (omega arith)
      (omega arith)
