-- ===== src/TcpApi/Handle.antt =====
-- The handles of net/tcp_api.c: what a handle is made from is what it is taken apart into.
use Prim.Native.Nat.{bit_and}
use kns.Common.{
  ℕ, ◌+◌, ◌-◌, ◌*◌, ◌/◌, ◌%◌, ◌^◌, ◌≤◌, ◌<◌, ◌≡◌, refl, ap, sym, subst, ◌∙◌, false, none, some,
  arith,
}
use kns.Common.Tests.{if◌then◌else◌, ltb, lt→ltb, le→ltb}
use kns.Common.Bits.{bit_and-mask}
use kns.Common.Or.{bit_or_fields}
use kns.Flow.World.{eth_max_total_fg}
use kns.Mempool.Setup.{mempool_idx_to_ptr, mempool_ptr_to_idx}
use kns.TcpApi.{alive, handle_to_tcpapi, tcpapi_to_handle, max_pcbs}
use kns.TcpApi.State.{done, World, ◌>>=◌}

abbrev pub handle_of : (fg_id idx : ℕ) → ℕ
handle_of fg_id idx = idx + fg_id * 2 ^ 48

handle_fg :
    (fg_id idx : ℕ)
    → fg_id < 2 ^ 16
    → idx < 2 ^ 48
    → bit_and (handle_of fg_id idx / 2 ^ 48) 0xffff ≡ fg_id
handle_fg fg_id idx h k = bit_and-mask 16 (handle_of fg_id idx / 2 ^ 48) ∙ omega arith

handle_idx : (fg_id idx : ℕ) → idx < 2 ^ 48 → bit_and (handle_of fg_id idx) 0xffffffffffff ≡ idx
handle_idx fg_id idx k = bit_and-mask 48 (handle_of fg_id idx) ∙ omega arith

-- The element of the pool of connections with the index `idx`.
abbrev pub elem_at : {S : Type 0} → World S → ℕ → ℕ
elem_at w idx = w.pcbs.pool.buf + 64 * idx

module _ {S : Type 0} (nr_cpus : ℕ) (w : World S) (fg_id idx : ℕ) where
  pub to_handle :
      idx < max_pcbs
      → fg_id < 2 ^ 16
      → tcpapi_to_handle false fg_id (elem_at w idx) w ≡ done (handle_of fg_id idx)
  unfolding tcpapi_to_handle mempool_ptr_to_idx
  to_handle small fits =
      let index : (elem_at w idx - w.pcbs.pool.buf) / 64 ≡ idx = omega arith in
      let whole : fg_id * 2 ^ 48 % 2 ^ 64 ≡ fg_id * 2 ^ 48 = omega arith in
      rw (index, whole) (ap done (bit_or_fields 48 idx fg_id (omega arith)))

  -- The lookup of a handle, but for the test whether the element is allocated.
  pub from_handle :
      idx < max_pcbs
      → fg_id < eth_max_total_fg + nr_cpus
      → eth_max_total_fg + nr_cpus ≤ 2 ^ 16
      → handle_to_tcpapi false nr_cpus (handle_of fg_id idx) w ≡ (
          if ltb 1 (alive w (elem_at w idx))
          then done (none, record w { cur_fg = fg_id })
          else done (
            some (elem_at w idx),
            record w { cur_fg = fg_id; syscall_cookie = (w.api (elem_at w idx)).cookie },
          ))
  unfolding handle_to_tcpapi mempool_idx_to_ptr
  from_handle small group groups =
      rw
        (
          handle_fg fg_id idx (omega arith) (omega arith),
          handle_idx fg_id idx (omega arith),
          lt→ltb fg_id (eth_max_total_fg + nr_cpus) group,
          lt→ltb idx max_pcbs small,
          handle_to_tcpapi,
        )
        refl

  -- The same for an element that counts as allocated.
  pub from_handle_live :
      (a : ℕ)
      → a ≡ elem_at w idx
      → idx < max_pcbs
      → fg_id < eth_max_total_fg + nr_cpus
      → eth_max_total_fg + nr_cpus ≤ 2 ^ 16
      → alive w a ≤ 1
      → handle_to_tcpapi false nr_cpus (handle_of fg_id idx) w
        ≡ done (some a, record w { cur_fg = fg_id; syscall_cookie = (w.api a).cookie })
  from_handle_live a place small group groups live =
      let at_elem =
        from_handle small group groups
        ∙ ap
            (λ t.
              if t
              then done (none, record w { cur_fg = fg_id })
              else done (
                some (elem_at w idx),
                record w { cur_fg = fg_id; syscall_cookie = (w.api (elem_at w idx)).cookie },
              ))
            (le→ltb 1 (alive w (elem_at w idx)) (subst (λ x. alive w x ≤ 1) place live)) in
      subst
        (λ x.
          handle_to_tcpapi false nr_cpus (handle_of fg_id idx) w
          ≡ done (some x, record w { cur_fg = fg_id; syscall_cookie = (w.api x).cookie }))
        (sym place) at_elem

  -- With the checks passed, the handle made for an element of the pool and a flow group leads back to
  -- both, if the element counts as allocated: the group becomes the current one, and the
  -- connection's cookie that of the call.
  pub handle_to_tcpapi-tcpapi_to_handle :
      idx < max_pcbs
      → fg_id < eth_max_total_fg + nr_cpus
      → eth_max_total_fg + nr_cpus ≤ 2 ^ 16
      → alive w (elem_at w idx) ≤ 1
      → (tcpapi_to_handle false fg_id (elem_at w idx) w >>= λ handle.
          handle_to_tcpapi false nr_cpus handle w)
        ≡ done (
          some (elem_at w idx),
          record w { cur_fg = fg_id; syscall_cookie = (w.api (elem_at w idx)).cookie },
        )
  handle_to_tcpapi-tcpapi_to_handle small group groups live =
      rw (to_handle small (omega arith))
        (from_handle_live (elem_at w idx) refl small group groups live)

-- The element `idx` of the pool counts as allocated, and `fg_id` is a flow group.
pub record IsOpen {S : Type 0} (nr_cpus fg_id idx : ℕ) (w : World S) : Type 0 where
  pub index : idx < max_pcbs
  pub group : fg_id < eth_max_total_fg + nr_cpus
  pub groups : eth_max_total_fg + nr_cpus ≤ 2 ^ 16
  pub live : alive w (elem_at w idx) ≤ 1

-- The world after the lookup of a handle.
abbrev pub looked_up : {S : Type 0} (fg_id idx : ℕ) → World S → World S
looked_up fg_id idx w = record w { cur_fg = fg_id; syscall_cookie = (w.api (elem_at w idx)).cookie }

pub lookup_open :
    {S : Type 0} {nr_cpus fg_id idx : ℕ} {w : World S}
    → IsOpen nr_cpus fg_id idx w
    → handle_to_tcpapi false nr_cpus (handle_of fg_id idx) w
      ≡ done (some (elem_at w idx), looked_up fg_id idx w)
lookup_open {nr_cpus = nr_cpus} {fg_id = fg_id} {idx = idx} {w = w} h =
    from_handle_live nr_cpus w fg_id idx (elem_at w idx) refl h.index h.group h.groups h.live
