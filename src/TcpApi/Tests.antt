-- ===== src/TcpApi/Tests.antt =====
-- Tests of net/tcp_api.c on a connection with three packets, the first of two buffers, and the
-- theorems at it. TCP is a log of the calls that it gets.
use kns.Common.{ℕ, ◌+◌, ◌-◌, ◌≤◌, ◌≡◌, refl, true, false, none, some, List, [], ◌∷◌, ◌++◌, arith}
use kns.Common.Tests.{if◌then◌else◌, ◌==◌, ltb}
use kns.Common.Int.{pos}
use kns.Flow.Queue.{IsQueue}
use kns.Mempool
use kns.Mempool.{mempool_magic}
use kns.Mempool.View.{Holds, IsStack}
use kns.TcpApi.{handle_to_tcpapi, tcpapi_to_handle}
use kns.TcpApi.Accept.{Waiting, bsys_tcp_accept-in_order}
use kns.TcpApi.Calls.{bsys_tcp_accept, bsys_tcp_recv_done, bsys_tcp_close}
use kns.TcpApi.Deliver.{notices}
use kns.TcpApi.Done.{total, Stops, told, bsys_tcp_recv_done-frees}
use kns.TcpApi.Handle.{handle_of, IsOpen, handle_to_tcpapi-tcpapi_to_handle}
use kns.TcpApi.Order.{arrive}
use kns.TcpApi.Queue.{queue_of}
use kns.TcpApi.Stale.{link_after, bsys_tcp_close-stale}
use kns.Common.Bug
use kns.Common.{Bool, ◌<◌, ◌⊎◌, inr}
use kns.Mempool.{kns_mempool_alloc}
use kns.Toeplitz.{toeplitz_get_key, toeplitz_keyseeds}
use kns.TcpApi.Connect.{
  Device, Port, choose_port, group_of, get_local_port_and_set_queue, bsys_tcp_connect,
}
use kns.TcpApi.Opening.{Outcome, bsys_tcp_connect-Outcome}
use kns.TcpApi.Ports.{get_local_port_and_set_queue-in_block}
use kns.TcpApi.State.{Ret, IpTuple, done, ◌>>=◌, Pbuf, World, Tcp, value}

abbrev S : Type 0
S = List (ℕ × ℕ)

abbrev tcp : Tcp S
tcp = record {
  recved = λ fg pcb len s. s ++ (pcb, len) ∷ [];
  close_with_reset = λ fg pcb s. s ++ (pcb, 0) ∷ [];
  snd_buf = λ pcb s. 1000;
  write = λ pcb addr len s. (true, s ++ (addr, len) ∷ []);
  output = λ fg pcb s. s;
  nagle_disable = λ pcb s. s;
  set_arg = λ pcb arg s. s;
  local_port = λ pcb s. 80;
  remote_port = λ pcb s. 4660;
  new = λ fg s. (12288, s);
  bind = λ fg pcb addr port s. (true, s);
  connect = λ fg pcb addr port s. (ltb 1023 port, s);
  abort = λ fg pcb s. s ++ (pcb, 1) ∷ [];
}

-- A pool of 64-byte elements from `buf` on, with `head` the only free one and `live` given out.
abbrev pool : (buf head live : ℕ) → Mempool.State
pool buf head live = record {
  mem = record { next = λ a. if a == live then 1 else 0; next_chunk = λ a. 0 };
  pool = record {
    head = head;
    num_free = pos 1;
    elem_len = 64;
    magic = mempool_magic;
    buf = buf;
    datastore = 8;
    private_chunk = 0;
    sanity = 0;
    nr_elems = 4;
    nostraddle = true;
    chunk_size = 2;
  };
  store = record {
    magic = mempool_magic;
    chunk_head = 0;
    buf = buf;
    nr_pages = 1;
    nr_elems = 4;
    elem_len = 64;
    nostraddle = true;
    chunk_size = 2;
    num_chunks = pos 2;
    free_chunks = pos 0;
    num_locks = pos 0;
  };
}

abbrev pbufs : ℕ → Pbuf
pbufs p =
    if p == 100
    then record { next = 110; payload = 0x5000; len = 10; mbuf = 1 }
    else if p == 110
    then record { next = 0; payload = 0x6000; len = 10; mbuf = 2 }
    else record { next = 0; payload = 0x7000 + p; len = 8; mbuf = 3 }

abbrev bufs : ℕ → List ℕ
bufs p = if p == 100 then 100 ∷ 110 ∷ [] else p ∷ []

-- The connection at 4224, element 2 of its pool; its packets are linked from `recvd` to 300.
abbrev world : (recvd recvd_tail pcb_head : ℕ) → World S
world recvd recvd_tail pcb_head = record {
  pcbs = pool 4096 pcb_head 4224;
  ids = pool 8192 8192 0;
  api = λ a. record {
    pcb = 77;
    cookie = 5;
    id = 8256;
    handle = handle_of 3 2;
    recvd = recvd;
    recvd_tail = recvd_tail;
    accepted = false;
  };
  tuple = λ a. record { src_ip = 0; dst_ip = 1; src_port = 80; dst_port = 4660 };
  api_next = λ p. if p == 100 then 200 else if p == 200 then 300 else 0;
  pbuf = pbufs;
  mbuf_len = λ m. 0;
  iomap_offset = 0;
  syscall_cookie = 0;
  cur_fg = 0;
  self = 0;
  fg_cpu = λ fg. some 0;
  events = [];
  freed = [];
  unfiltered = [];
  tcp = [];
}

abbrev fresh : World S
fresh = world 0 0 4160

abbrev loaded : World S
loaded = world 100 300 4160

ids-IsStack : IsStack (pool 8192 8192 0) (8192 ∷ [])
ids-IsStack = record { local = 8192 ∷ []; spare = []; chunks = []; holds = ids-Holds; order = refl }
  where
    ids-Holds : Holds (pool 8192 8192 0) (8192 ∷ []) [] []
    ids-Holds = ground arith

loaded-IsOpen : IsOpen 4 3 2 loaded
loaded-IsOpen = omega arith

loaded-IsQueue : IsQueue loaded.api_next (queue_of (loaded.api 4224)) (100 ∷ 200 ∷ 300 ∷ [])
loaded-IsQueue = ground arith

fresh-Waiting : Waiting 4 3 2 (8192 ∷ []) fresh
fresh-Waiting = record {
  index = omega arith;
  group = omega arith;
  groups = omega arith;
  some_elem = omega arith;
  live = omega arith;
  waiting = refl;
  none_held = refl;
  some_id = omega arith;
  id_out = refl;
  ids_stack = ids-IsStack;
  flat = refl;
}

handle_to_tcpapi-tcpapi_to_handle_example :
    (tcpapi_to_handle false 3 4224 loaded >>= λ handle. handle_to_tcpapi false 4 handle loaded)
    ≡ done (some 4224, record loaded { cur_fg = 3; syscall_cookie = 5 })
handle_to_tcpapi-tcpapi_to_handle_example =
    handle_to_tcpapi-tcpapi_to_handle 4 loaded 3 2 (omega arith) (omega arith) (omega arith)
      (omega arith)

bsys_tcp_accept-in_order_example :
    (w1 : World S) × (w2 : World S) × (w3 : World S) × (arrive 2 4224 (100 ∷ 200 ∷ []) fresh
      ≡ done w1)
    × (bsys_tcp_accept false 4 2 2 (handle_of 3 2) 9 w1 ≡ done (value 0, w2))
    × (arrive 2 4224 (300 ∷ []) w2 ≡ done w3)
    × (w1.events ≡ [])
    × (w3.events ≡ notices (handle_of 3 2) 9 pbufs bufs (100 ∷ 200 ∷ 300 ∷ []))
bsys_tcp_accept-in_order_example =
    bsys_tcp_accept-in_order 4 3 2 9 2 2 bufs (100 ∷ 200 ∷ []) (300 ∷ []) fresh-Waiting
      (ground arith) (ground arith) (ground arith) (omega arith)

bsys_tcp_recv_done-frees_example :
    (gone : List ℕ) × (rest : List ℕ) × (w' : World S) × (gone ++ rest ≡ 100 ∷ 200 ∷ 300 ∷ [])
    × (total pbufs gone ≤ 12)
    × Stops pbufs (12 - total pbufs gone) rest
    × (bsys_tcp_recv_done tcp false 4 3 (handle_of 3 2) 12 loaded ≡ done (value 0, w'))
    × (w'.freed ≡ gone)
    × IsQueue w'.api_next (queue_of (w'.api 4224)) rest
    × (w'.tcp ≡ told tcp 3 2 12 loaded)
bsys_tcp_recv_done-frees_example =
    bsys_tcp_recv_done-frees tcp 4 3 2 3 12 (100 ∷ 200 ∷ 300 ∷ []) loaded-IsOpen loaded-IsQueue
      (omega arith)

-- The free list is empty, so the handle stays good.
bsys_tcp_close-stale_example :
    let w = world 100 300 0 in
    (w' : World S) × (w'' : World S) × (bsys_tcp_close tcp false 4 3 (handle_of 3 2) w
      ≡ done (value 0, w'))
    × (w'.freed ≡ 100 ∷ 200 ∷ 300 ∷ [])
    × (handle_to_tcpapi false 4 (handle_of 3 2) w'
        ≡ done ((if ltb 1 (link_after w.pcbs) then none else some 4224), w''))
bsys_tcp_close-stale_example =
    bsys_tcp_close-stale tcp 4 3 2 3 (100 ∷ 200 ∷ 300 ∷ []) (omega arith) (ground arith)
      (omega arith) ids-IsStack refl (omega arith)

abbrev all_here : ℕ → ℕ
all_here g = 2

-- CPU 2 of an adapter with 16 flow groups, all of them on this CPU.
abbrev device : (accepts : Bool) → Device
device accepts = record {
  cpu = 2;
  eth_dev_count = 1;
  rounds = 4096;
  nb_rx_fgs = 16;
  key = toeplitz_get_key toeplitz_keyseeds 40;
  fgs_cpu = all_here;
  same = λ g. false;
  filters = λ f. accepts;
}

abbrev peer : IpTuple
peer = record { src_ip = 0; dst_ip = 0xc0a80002; src_port = 0; dst_port = 80 }

get_local_port_and_set_queue-in_block_example :
    (found : Port) × (get_local_port_and_set_queue false 2 1 4096 16
        (toeplitz_get_key toeplitz_keyseeds 40)
        all_here
        (λ g. false)
        (λ f. false)
        5000
        peer
      ≡ done found)
    × (4096 < found.src_port)
    × (found.src_port ≤ 6144)
    × (((found.fg ≡ 8194) × (false ≡ true))
        ⊎ ((found.fg ≡ group_of (toeplitz_get_key toeplitz_keyseeds 40) 16 peer found.src_port)
            × (all_here found.fg ≡ 2)))
get_local_port_and_set_queue-in_block_example =
    get_local_port_and_set_queue-in_block 2 1 16 (toeplitz_get_key toeplitz_keyseeds 40) all_here
      (λ g. false) (λ f. false) 5000 6000 peer (omega arith) (omega arith)
      (inr (omega arith, omega arith)) (omega arith) (omega arith) refl

-- The driver accepts the filter of the first port.
abbrev first_port : Port
first_port = record { fg = 8194; local_port = 4097; src_port = 4097 }

chosen_first : choose_port false (device true) 0 (record peer { src_ip = 1 }) ≡ done first_port
unfolding get_local_port_and_set_queue
chosen_first = refl

-- The pool of connections gives 4160 away.
abbrev popped : Mempool.State
popped = record (fresh.pcbs) { pool = record (fresh.pcbs.pool) { head = 0; num_free = pos 0 } }

gives_one : kns_mempool_alloc false fresh.pcbs ≡ Bug.done (4160, popped)
unfolding kns_mempool_alloc
gives_one = refl

bsys_tcp_connect-Outcome_example :
    (ret : Ret) × (w' : World S) × (bsys_tcp_connect tcp false (device true) 1 0 (some peer) 9 fresh
      ≡ done (ret, 4097, w'))
    × Outcome 4160 (handle_of 8194 1) 12288 9 [] ret w'
    × (w'.pcbs.pool ≡ popped.pool)
    × (handle_to_tcpapi false 4 (handle_of 8194 1) w'
        ≡ done (some 4160, record w' { cur_fg = 8194; syscall_cookie = (w'.api 4160).cookie }))
bsys_tcp_connect-Outcome_example =
    bsys_tcp_connect-Outcome tcp 4 (device true) 1 0 9 4160 1 peer first_port popped fresh
      chosen_first (omega arith) gives_one (omega arith) refl (omega arith) (omega arith)
      (omega arith)
