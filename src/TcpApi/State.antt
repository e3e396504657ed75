-- ===== src/TcpApi/State.antt =====
-- The data of net/tcp_api.c: the connections of the API, the received packets that wait for the
-- application, and the notifications to user space (the `usys_` calls of inc/kns/syscall.h).
use kns.Common.{ℕ, Bool, Option, List, [], ◌∷◌, ◌++◌}
use kns.Common.Links.{Links}
use kns.Common.Bug
use kns.Flow.World.{update}
use kns.Mempool.{State}

-- What a call comes to: a value, the stop at a `BUG_ON`, or a loop that has outlasted its rounds.
pub data Run {ℓ} (A : Type ℓ) : Type ℓ where
  done : A → Run A
  bug : Run A
  running : Run A

infixl 5 ◌>>=◌ ◌>>◌
abbrev pub ◌>>=◌ {ℓ κ} : {A : Type ℓ} {B : Type κ} → Run A → (A → Run B) → Run B
done a >>= f = f a
bug >>= f = bug
running >>= f = running

abbrev pub ◌>>◌ {ℓ} : {B : Type ℓ} → Run (Unit {0}) → Run B → Run B
m >> k = m >>= λ _. k

abbrev pub lift {ℓ} : {A : Type ℓ} → Bug.Run A → Run A
lift (Bug.done a) = done a
lift Bug.bug = bug

-- A notification, with the arguments of its `usys_` call.
pub data Event : Type 0 where
  connected : (handle cookie : ℕ) (ok : Bool) → Event
  knock : (handle id : ℕ) → Event
  recv : (handle cookie addr len : ℕ) → Event
  sent : (handle cookie len : ℕ) → Event
  dead : (handle cookie : ℕ) → Event

-- `struct ip_tuple`.
pub record IpTuple : Type 0 where
  pub src_ip : ℕ
  pub dst_ip : ℕ
  pub src_port : ℕ
  pub dst_port : ℕ

-- A perfect filter of the adapter's flow director, for IPv4 and TCP.
pub record Filter : Type 0 where
  pub ip_src : ℕ
  pub ip_dst : ℕ
  pub port_src : ℕ
  pub port_dst : ℕ

-- `struct tcpapi_pcb` but for `alive`, which shares its memory with the link of a free element, and
-- `queue`, which nothing uses.
pub record Api : Type 0 where
  pub pcb : ℕ
  pub cookie : ℕ
  pub id : ℕ
  pub handle : ℕ
  pub recvd : ℕ
  pub recvd_tail : ℕ
  pub accepted : Bool

-- `struct pbuf` of lwIP, the fields that the API reads.
pub record Pbuf : Type 0 where
  pub next : ℕ
  pub payload : ℕ
  pub len : ℕ
  pub mbuf : ℕ

-- What the calls on the CPU `self` can read and write; `fg_cpu` is `cur_cpu` of the flow groups in `fgs`,
-- and `tcp` the state of the TCP below.
pub record World (S : Type 0) : Type 0 where
  pub pcbs : State
  pub ids : State
  pub api : ℕ → Api
  pub tuple : ℕ → IpTuple
  pub api_next : Links
  pub pbuf : ℕ → Pbuf
  pub mbuf_len : ℕ → ℕ
  pub iomap_offset : ℕ
  pub syscall_cookie : ℕ
  pub cur_fg : ℕ
  pub self : ℕ
  pub fg_cpu : ℕ → Option ℕ
  pub events : List Event
  pub freed : List ℕ
  pub unfiltered : List Filter
  pub tcp : S

-- The calls of TCP that the API makes. `write`, `bind` and `connect` say whether they
-- answer ERR_OK.
pub record Tcp (S : Type 0) : Type 0 where
  pub recved : (fg pcb len : ℕ) → S → S
  pub close_with_reset : (fg pcb : ℕ) → S → S
  pub snd_buf : (pcb : ℕ) → S → ℕ
  pub write : (pcb addr len : ℕ) → S → Bool × S
  pub output : (fg pcb : ℕ) → S → S
  pub nagle_disable : (pcb : ℕ) → S → S
  pub set_arg : (pcb arg : ℕ) → S → S
  pub local_port : (pcb : ℕ) → S → ℕ
  pub remote_port : (pcb : ℕ) → S → ℕ
  pub new : (fg : ℕ) → S → ℕ × S
  pub bind : (fg pcb addr port : ℕ) → S → Bool × S
  pub connect : (fg pcb addr port : ℕ) → S → Bool × S
  pub abort : (fg pcb : ℕ) → S → S

-- The codes of inc/kns/syscall.h that the calls return: a value, or a negated RET_ code.
pub data Ret : Type 0 where
  value : ℕ → Ret
  notsup fault badh closed nomem : Ret

module _ {S : Type 0} where
  abbrev pub emit : Event → World S → World S
  emit e w = record w { events = w.events ++ e ∷ [] }

  abbrev pub set_api : ℕ → Api → World S → World S
  set_api a v w = record w { api = update (w.api) a v }
