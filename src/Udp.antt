-- ===== src/Udp.antt =====
-- UDP, net/udp.c: datagrams that arrive, datagrams that the application sends from its own memory,
-- and the release of the buffers on both ways.
pub mod State
pub mod Pool
pub mod Header
pub mod Iovs
pub mod Input
pub mod Loaded
pub mod Output
pub mod Sent
mod Tests
use kns.Common.{
  ℕ, zero, suc, ◌+◌, ◌-◌, ◌*◌, ◌/◌, ◌%◌, ◌^◌, ◌⊎◌, inl, inr, Bool, not, Option, none, some, List,
  [], ◌∷◌, ◌++◌,
}
use kns.Common.Tests.{ltb, leb, ◌==◌, if◌then◌else◌}
use kns.Common.Errno.{Errno}
use kns.Common.Links.{null}
use kns.Flow.World.{update}
use kns.Page.{page_get, pgoff_2mb, pgaddr_2mb}
use kns.Chksum.{chksum_internet}
use kns.Arp.State.{Net, Out, returns, waits, faults, ◌>>=◌, Cfg, ip_frame}
use kns.Arp.{arp_lookup_mac}
use kns.TcpApi.State.{IpTuple}
use kns.Udp.State.{
  lift, mbuf_header_len, mbuf_len, MbufIov, SgEntry, default_done, udp_done, dead_beef, no_done,
  Mbuf, IpHdr, Headers, udp_recv, udp_sent, World, set_mbuf, emit, mbuf_iov_create, mbuf_iov_free,
  mbuf_free, mbuf_alloc_local, mbuf_to_iomap, iomap_to_mbuf,
}

-- What a call answers: 0, a negated RET_ code of inc/kns/syscall.h, or -EBUSY.
pub data Ret : Type 0 where
  ok inval fault nobufs again nosys busy : Ret

-- A received datagram: the place of its header in the data of its mbuf, and the fields of the IP and
-- UDP headers that are read, in host order.
pub record Datagram : Type 0 where
  pub udphdr : ℕ
  pub src_addr : ℕ
  pub dst_addr : ℕ
  pub src_port : ℕ
  pub dst_port : ℕ
  pub len : ℕ

-- UDP_MAX_LEN and UDP_PKT_SIZE
abbrev pub udp_max_len : ℕ
udp_max_len = 1472

abbrev pub udp_pkt_size : ℕ
udp_pkt_size = 42

-- `ip_setup_header` of net/net.h; `l4len` has 16 bits.
unfoldable pub ip_setup_header : (proto saddr daddr l4len : ℕ) → IpHdr
ip_setup_header proto saddr daddr l4len = record {
  header_len = 5;
  version = 4;
  tos = 0;
  len = (20 + l4len % 2 ^ 16) % 2 ^ 16;
  id = 0;
  off = 0;
  ttl = 64;
  proto = proto;
  chksum = 0;
  src_addr = saddr;
  dst_addr = daddr;
}

-- The `n` bytes of a number, the highest first.
abbrev pub big_endian : (n v : ℕ) → List ℕ
big_endian zero v = []
big_endian (suc n) v = v / 256 ^ n % 256 ∷ big_endian n v

-- The header in memory. The checksum is stored as the machine holds it, the lower byte first.
abbrev pub ip_hdr_bytes : IpHdr → List ℕ
ip_hdr_bytes h =
    (h.header_len + 16 * h.version) ∷ h.tos ∷ big_endian 2 (h.len)
    ++ (big_endian 2 (h.id)
        ++ (big_endian 2 (h.off)
            ++ (h.ttl ∷ h.proto ∷ (h.chksum % 256) ∷ (h.chksum / 256) ∷ big_endian 4 (h.src_addr)
                ++ big_endian 4 (h.dst_addr))))

abbrev pub set_chksum : IpHdr → IpHdr
set_chksum h = record h { chksum = chksum_internet (ip_hdr_bytes h) 20 }

-- `eth_send` of inc/kns/ethqueue.h: a mbuf takes a descriptor, and one more for each IOV.
unfoldable pub eth_send : (q nr_iov mbuf dhost : ℕ) → Net → Option Net
eth_send q nr_iov mbuf dhost n =
    let nr : ℕ = 1 + nr_iov in
    if ltb (n.cap q) nr
    then none
    else some (record n {
      cap = update (n.cap) q (n.cap q - nr);
      sent = update (n.sent) q (n.sent q ++ ip_frame mbuf dhost ∷ []);
    })

-- The first `n` IOVs from index `i` on.
unfoldable pub free_iovs : (n i : ℕ) → (ℕ → MbufIov) → World → Out World
free_iovs zero i iovs w = returns w
free_iovs (suc n) i iovs w = mbuf_iov_free (iovs i) w >>= free_iovs n (suc i) iovs

-- The IOVs of a payload of `len` bytes at `addr`: the length of the first one, how many there
-- are, and the array.
unfoldable pub create_iovs :
    (addr len : ℕ) → (ℕ → MbufIov) → World → Out (ℕ × ℕ × (ℕ → MbufIov) × World)
create_iovs addr len iovs w =
    mbuf_iov_create (record { base = addr; len = len }) w >>= λ (len', iov, w').
    let base : ℕ = (addr + len') % 2 ^ 64 in
    if len == len'
    then returns (len', 1, update iovs 0 iov, w')
    else lift (page_get base (w'.pages)) >>= λ (maddr, pages). returns (
      len',
      2,
      update (update iovs 0 iov) 1 (record { base = base; maddr = maddr; len = len - len' }),
      record w' { pages = pages },
    )

module _ (traps : Bool) where
  unfoldable pub udp_input : (pkt : ℕ) → Datagram → World → Out World
  udp_input pkt d w =
      let start : ℕ = pkt + mbuf_header_len in
      let w' : World =
        set_mbuf pkt (record (w.mbuf pkt) { done = dead_beef })
          (record w {
            tuple = update (w.tuple) pkt (record {
              src_ip = d.src_addr;
              dst_ip = d.dst_addr;
              src_port = d.src_port;
              dst_port = d.dst_port;
            });
          }) in
      if not (leb (d.udphdr + d.len) ((w.mbuf pkt).len))
      then mbuf_free traps pkt w
      else mbuf_to_iomap traps pkt (start + d.udphdr + 8) w' >>= λ addr.
          mbuf_to_iomap traps pkt start w' >>= λ id. returns (emit (udp_recv addr d.len id) w')

  unfoldable pub udp_mbuf_done : (pkt : ℕ) → World → Out World
  udp_mbuf_done pkt w =
      let m = w.mbuf pkt in
      free_iovs (m.nr_iov) 0 (m.iovs) w >>= λ w'.
      mbuf_free traps pkt (emit (udp_sent (m.done_data)) w')

  -- `mbuf_xmit_done` of inc/kns/mbuf.h calls what `done` holds.
  unfoldable pub mbuf_xmit_done : (pkt : ℕ) → World → Out World
  mbuf_xmit_done pkt w = elim ((w.mbuf pkt).done) [
    | default_done ↦ mbuf_free traps pkt w
    | udp_done ↦ udp_mbuf_done pkt w
    | dead_beef ↦ faults
    | no_done ↦ faults
  ]

  abbrev pub answer : Ret → World → Out (Ret × World)
  answer ret w = returns (ret, w)

  -- What bsys_udp_send gives back where the datagram was not queued.
  abbrev pub give_back : (pkt : ℕ) → Ret → World → Out (Ret × World)
  give_back pkt ret w = free_iovs ((w.mbuf pkt).nr_iov) 0 ((w.mbuf pkt).iovs) w >>= λ w'.
      mbuf_free traps pkt w' >>= answer ret

  -- What follows the answer of `udp_output`.
  abbrev pub send_done : (pkt : ℕ) → Ret × World → Out (Ret × World)
  send_done pkt (ok, w) = returns (ok, w)
  send_done pkt (ret, w) = give_back pkt ret w

  -- The release of the mbuf that an address was found in.
  unfoldable pub recv_done_at : (m : ℕ) → World → Out (Ret × World)
  recv_done_at m w = elim ((w.mbuf m).done) [
    | dead_beef ↦ mbuf_free traps m (set_mbuf m (record (w.mbuf m) { done = no_done }) w) >>= λ w'.
        returns (ok, w')
    | _ ↦ returns (inval, w)
  ]

  unfoldable pub bsys_udp_recv_done : (iomap : ℕ) → World → Out (Ret × World)
  bsys_udp_recv_done iomap w = iomap_to_mbuf traps (w.mbuf_mempool) iomap w >>= λ addr.
      recv_done_at (pgaddr_2mb addr + pgoff_2mb addr / mbuf_len * mbuf_len) w

  abbrev pub bsys_udp_sendv : World → Out (Ret × World)
  bsys_udp_sendv w = returns (nosys, w)

  module _ (hash : ℕ → ℕ) (cfg : Cfg) (mac eth_dev_count : ℕ) where
    abbrev pub headers_to : (dhost : ℕ) → IpTuple → (len : ℕ) → Headers
    headers_to dhost id len = record {
      dhost = dhost;
      shost = mac;
      ethtype = 0x0800;
      ip = set_chksum (ip_setup_header 17 (cfg.host_addr) (id.dst_ip) (len + 8));
      src_port = id.src_port;
      dst_port = id.dst_port;
      udp_len = (len + 8) % 2 ^ 16;
      udp_chksum = 0;
    }

    -- A panic is a fault.
    abbrev pub output_to :
        (pkt : ℕ) → IpTuple → (len : ℕ) → (Errno ⊎ ℕ) × Net → World → Out (Ret × World)
    output_to pkt id len (inl e, net) w = returns (again, record w { net = net })
    output_to pkt id len (inr dhost, net) w =
        let m = w.mbuf pkt in
        let w' : World =
          set_mbuf pkt (record m { ol_flags = 0; len = udp_pkt_size })
            (record w { headers = update (w.headers) pkt (headers_to dhost id len); net = net }) in
        if ltb 1 eth_dev_count then faults else elim (eth_send 0 (m.nr_iov) pkt dhost net) [
          | none ↦ returns (busy, w')
          | some net' ↦ returns (ok, record w' { net = net' })
        ]

    unfoldable pub udp_output : (pkt : ℕ) → IpTuple → (len : ℕ) → World → Out (Ret × World)
    udp_output pkt id len w =
        arp_lookup_mac hash (w.net) (id.dst_ip) >>= λ found. output_to pkt id len found w

    abbrev pub send_from : (pkt addr len : ℕ) → IpTuple → (cookie : ℕ) → World → Out (Ret × World)
    send_from pkt addr len tmp cookie w =
        create_iovs addr len ((w.mbuf pkt).iovs) w >>= λ (len', nr_iov, iovs, w').
        udp_output pkt tmp len' (
          set_mbuf pkt
            (record (w'.mbuf pkt) {
              iovs = iovs;
              nr_iov = nr_iov;
              done = udp_done;
              done_data = cookie;
            })
            w')
        >>= send_done pkt

    -- `vaddr`, where the application says that its payload lies, is not read: the payload is sent from
    -- what the local `addr`, which the code leaves unset, holds. `copied` is what `copy_from_user`
    -- reads of `id`, or `none` where it fails.
    unfoldable pub bsys_udp_send :
        (vaddr addr len : ℕ) → Option IpTuple → (cookie : ℕ) → World → Out (Ret × World)
    bsys_udp_send vaddr addr len copied cookie w =
        if ltb udp_max_len len then returns (inval, w) else elim copied [
          | none ↦ returns (fault, w)
          | some tmp ↦ mbuf_alloc_local traps w >>= λ (pkt, w').
              if pkt == null then returns (nobufs, w') else send_from pkt addr len tmp cookie w'
        ]
