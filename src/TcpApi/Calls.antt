-- ===== src/TcpApi/Calls.antt =====
-- The system calls of net/tcp_api.c.
use kns.Common.{ℕ, zero, suc, ◌+◌, ◌-◌, ◌*◌, ◌%◌, ◌^◌, min, Bool, true, not, none, some}
use kns.Common.Tests.{if◌then◌else◌, ◌==◌, ltb}
use kns.Common.Links.{null}
use kns.Mempool.{kns_mempool_free}
use kns.TcpApi.State.{
  Run, done, running, ◌>>=◌, lift, World, Tcp, Ret, value, notsup, fault, badh, closed, set_api,
}
use kns.TcpApi.{alive, pbuf_free, remove_fdir_filter, recv_a_pbuf, free_id, handle_to_tcpapi}

abbrev pub max_sg_entries : ℕ
max_sg_entries = 30

module _ {S : Type 0} where
  unfoldable pub bsys_tcp_reject : ℕ → World S → Run (Ret × World S)
  bsys_tcp_reject handle w = done (notsup, w)

  unfoldable pub bsys_tcp_send : (handle addr len : ℕ) → World S → Run (Ret × World S)
  bsys_tcp_send handle addr len w = done (notsup, w)

  -- The loop of bsys_tcp_recv_done: the packets that `len` covers are freed; the first that stays.
  unfoldable pub free_covered : (rounds recvd len : ℕ) → World S → Run (ℕ × World S)
  free_covered zero recvd len w = if recvd == null then done (recvd, w) else running
  free_covered (suc rounds) recvd len w =
      let rest =
        free_covered rounds (w.api_next recvd) (len - (w.pbuf recvd).len) (pbuf_free recvd w) in
      if recvd == null
      then done (recvd, w)
      else if ltb len (w.pbuf recvd).len
      then done (recvd, w)
      else rest

  -- The loop of bsys_tcp_close, which frees all packets.
  unfoldable pub free_all : (rounds recvd : ℕ) → World S → Run (World S)
  free_all zero recvd w = if recvd == null then done w else running
  free_all (suc rounds) recvd w =
      let rest = free_all rounds (w.api_next recvd) (pbuf_free recvd w) in
      if recvd == null then done w else rest

module _ {S : Type 0} (traps : Bool) where
  -- The loop of bsys_tcp_accept over the packets that have come already.
  unfoldable pub recv_all : (rounds chain_rounds a tmp : ℕ) → World S → Run (World S)
  recv_all zero chain_rounds a tmp w = if tmp == null then done w else running
  recv_all (suc rounds) chain_rounds a tmp w =
      let rest = recv_a_pbuf traps chain_rounds a tmp w >>= λ w'.
      recv_all rounds chain_rounds a (w'.api_next tmp) w' in
      if tmp == null then done w else rest

module _ {S : Type 0} (traps : Bool) (nr_cpus : ℕ) where
  unfoldable pub bsys_tcp_accept :
      (rounds chain_rounds handle cookie : ℕ) → World S → Run (Ret × World S)
  bsys_tcp_accept rounds chain_rounds handle cookie w =
      handle_to_tcpapi traps nr_cpus handle w >>= λ (found, w1). elim found [
        | none ↦ done (badh, w1)
        | some a ↦
            let api = w1.api a in
            (if api.id == null
              then done w1
              else (free_id traps (api.id) w1 >>= λ w2.
                  done (set_api a (record api { id = null }) w2)))
            >>= λ w3.
                recv_all traps rounds chain_rounds a (api.recvd)
                  (set_api a (record (w3.api a) { cookie = cookie; accepted = true }) w3)
                >>= λ w4. done (value 0, w4)
      ]

module _ {S : Type 0} (tcp : Tcp S) where
  -- The loop of bsys_tcp_sendv over the entries from `i` on: how much was written.
  unfoldable pub send_entries :
      (okay : ℕ → ℕ → Bool) (ents : ℕ → ℕ × ℕ) (left i pcb len_xmited : ℕ) → S → ℕ × S
  send_entries okay ents zero i pcb len_xmited s = (len_xmited, s)
  send_entries okay ents (suc left) i pcb len_xmited s =
      let (base, len) = ents i in
      let room : ℕ = min (tcp.snd_buf pcb s) 0xffff in
      let buf_full : Bool = ltb room len in
      let len' : ℕ = if buf_full then room else len in
      let (sent_ok, s') = tcp.write pcb base len' s in
      let rest = send_entries okay ents left (suc i) pcb (len_xmited + len') s' in
      if not (okay base len)
      then (len_xmited, s)
      else if len' == 0
      then (len_xmited, s)
      else if not sent_ok
      then (len_xmited, s')
      else if buf_full
      then (len_xmited + len', s')
      else rest

module _ {S : Type 0} (tcp : Tcp S) (traps : Bool) (nr_cpus : ℕ) where
  -- `ents` is the array at the address `ents_addr`, as user memory holds it.
  unfoldable pub bsys_tcp_sendv :
      (okay : ℕ → ℕ → Bool) (ents : ℕ → ℕ × ℕ) (handle ents_addr nrents : ℕ)
      → World S
      → Run (Ret × World S)
  bsys_tcp_sendv okay ents handle ents_addr nrents w =
      handle_to_tcpapi traps nr_cpus handle w >>= λ (found, w1). elim found [
        | none ↦ done (badh, w1)
        | some a ↦
            let pcb = (w1.api a).pcb in
            if alive w1 a == 0
            then done (closed, w1)
            else if not (okay ents_addr (nrents * 16))
            then done (fault, w1)
            else (let (len_xmited, s) =
                  send_entries tcp okay ents (min nrents max_sg_entries) 0 pcb 0 (w1.tcp) in
                let s' : S = if len_xmited == 0 then s else tcp.output (w1.cur_fg) pcb s in
                done (value len_xmited, record w1 { tcp = s' }))
      ]

  unfoldable pub bsys_tcp_recv_done : (rounds handle len : ℕ) → World S → Run (Ret × World S)
  bsys_tcp_recv_done rounds handle len w =
      handle_to_tcpapi traps nr_cpus handle w >>= λ (found, w1). elim found [
        | none ↦ done (badh, w1)
        | some a ↦
            let api = w1.api a in
            let w2 : World S =
              if api.pcb == null
              then w1
              else record w1 { tcp = tcp.recved (w1.cur_fg) (api.pcb) (len % 2 ^ 32) (w1.tcp) } in
            free_covered rounds (api.recvd) len w2 >>= λ (recvd, w3).
            done (value 0, set_api a (record (w3.api a) { recvd = recvd }) w3)
      ]

  unfoldable pub bsys_tcp_close : (rounds handle : ℕ) → World S → Run (Ret × World S)
  bsys_tcp_close rounds handle w = handle_to_tcpapi traps nr_cpus handle w >>= λ (found, w1).
      elim found [
        | none ↦ done (badh, w1)
        | some a ↦
            let api = w1.api a in
            let w2 : World S =
              if api.pcb == null
              then w1
              else record w1 { tcp = tcp.close_with_reset (w1.cur_fg) (api.pcb) (w1.tcp) } in
            free_all rounds (api.recvd) w2 >>= λ w3.
            (if api.id == null
              then done w3
              else free_id traps (api.id) (remove_fdir_filter (api.id) w3))
            >>= λ w4. lift (kns_mempool_free traps (w4.pcbs) a) >>= λ pcbs.
                done (value 0, record w4 { pcbs = pcbs })
      ]
