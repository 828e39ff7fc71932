-- ===== src/Stubs/Calls.antt =====
-- The primitives and callbacks of lib/lwip_stubs.c. `k` is the fuel of the pbuf loops, and `fresh`
-- the address that caml_stat_alloc returns for a new tcp_wrap.
pub mod Read
pub mod Recv
pub mod Closed
use ocaml_lwip.Base.{
  ℕ, suc, ◌+◌, ◌*◌, ◌/◌, ◌%◌, ◌^◌, Bool, true, false, Option, none, some, List, [], ◌∷◌, ◌||◌, ◌==◌,
  ltb, if◌then◌else◌, u16, drop, take, leb, length,
}
use mathlib.Core.Bool.{not}
use ocaml_lwip.Memp.{Ptr, null}
use ocaml_lwip.Pbuf.{Pbuf, load}
use ocaml_lwip.Pbuf.Free
use ocaml_lwip.Stubs.Queue
use ocaml_lwip.Stubs.State.{
  Err, err_ok, is_ok, TcpApi, TcpState, tcp_none, tcp_listen, tcp_accepted, tcp_closing, Value,
  accept_fn, state_record, Wrap, Event, rx_notify, tx_notify, accept, connection_closed, failure,
  World, Reply, Stub, ◌>>=◌, ◌>>◌, pure, raise, die, in_heap, in_net, on_net, get, set_to, put, log,
}

-- tcp_wrap_alloc.
unfoldable pub new_wrap : Ptr → Wrap
new_wrap pcb = record { pcb = pcb; v = none; state = tcp_none; retries = 0; rx = [] }

abbrev pub is_closing : TcpState → Bool
is_closing tcp_closing = true
is_closing _ = false

abbrev pub is_accepted : TcpState → Bool
is_accepted tcp_accepted = true
is_accepted _ = false

-- `len` bytes of an OCaml string from `off` on.
range : {Net : Type 0} → ℕ → ℕ → List ℕ → Stub Net (List ℕ)
range off len buf = if leb (off + len) (length buf) then pure (take len (drop off buf)) else die

-- IP4_ADDR on a little-endian machine: the first part is the lowest byte.
pub ip4_addr : ℕ → ℕ → ℕ → ℕ → ℕ
ip4_addr a b c d = a % 256 + b % 256 * 2 ^ 8 + c % 256 * 2 ^ 16 + d % 256 * 2 ^ 24

module _ (api : TcpApi) where
  open api use {Net}

  -- tcp_wrap_of_value.
  pub wrap_of_value : ℕ → Stub Net Wrap
  wrap_of_value tw = do d ← get tw; if d.pcb == null then raise connection_closed else pure d

  -- caml_callback on field 0 of `tw->v`, and on field 1. A field of 0 or of a closure is no closure.
  notify_rx : Wrap → Stub Net (Unit {0})
  notify_rx d = elim d.v [ some (state_record s) ↦ log (rx_notify s) | _ ↦ die ]

  notify_tx : Wrap → Stub Net (Unit {0})
  notify_tx d = elim d.v [ some (state_record s) ↦ log (tx_notify s) | _ ↦ die ]

  -- tcp_wrap_finalize.
  pub finalize : ℕ → ℕ → Stub Net (Unit {0})
  finalize k tw = do
    d ← get tw
    if d.pcb == null then pure tt else (do
      err ← in_net (api.close d.pcb)
      if is_ok err then pure tt else on_net (api.abort_pcb d.pcb))
    elim d.rx [ [] ↦ pure tt | p ∷ pl ↦ in_heap (Queue.free k (p ∷ pl)) ]
    set_to tw none

  pub new : (fresh : ℕ) → Stub Net ℕ
  new fresh = do
    pcb ← in_net api.new
    if pcb == null then raise failure else (do put fresh (new_wrap pcb); pure fresh)

  pub bind : ℕ → ℕ → ℕ → ℕ → ℕ → ℕ → Stub Net (Unit {0})
  bind tw a b c d port = do
    w ← wrap_of_value tw
    err ← in_net (api.bind w.pcb (ip4_addr a b c d) (u16 port))
    if is_ok err then pure tt else raise failure

  -- tcp_recv_cb: a null `p` or an error closes; data is queued or thrown away. ERR_OK each time.
  pub recv_cb : ℕ → ℕ → Ptr → Ptr → Err → Stub Net Err
  recv_cb k tw pcb p err = do
    d ← get tw
    if p == null || not (is_ok err)
        then (do
          put tw (record d { state = tcp_closing })
          notify_rx d
          if p == null then pure tt else (do count ← in_heap (Free.free k p); pure tt)
          pure err_ok)
        else (elim d.rx [
          | [] ↦ do put tw (record d { rx = p ∷ [] }); notify_rx d; pure err_ok
          | q ∷ pl ↦
              if is_accepted d.state
              then (do put tw (record d { rx = Queue.append (q ∷ pl) p }); pure err_ok)
              else (do
                b ← in_heap (load p)
                on_net (api.recved pcb b.tot_len)
                count ← in_heap (Free.free k p)
                pure err_ok)
        ])

  -- tcp_sent_cb.
  pub sent_cb : ℕ → ℕ → Stub Net Err
  sent_cb tw len =
      if ltb 0 len then (do d ← get tw; notify_tx d; pure err_ok) else pure (Err.err_code 1)

  -- tcp_accept_cb: a new wrap in state TCP_ACCEPTED, handed to the accept callback `cb`.
  pub accept_cb : (fresh : ℕ) → ℕ → Ptr → Stub Net Err
  accept_cb fresh cb newpcb = do
    on_net (api.setprio_min newpcb)
    put fresh (record (new_wrap newpcb) { state = tcp_accepted })
    on_net (api.arg newpcb fresh)
    on_net (api.recv newpcb)
    on_net (api.sent newpcb)
    log (accept cb fresh)
    pure err_ok

  pub set_state : ℕ → ℕ → Stub Net (Unit {0})
  set_state tw v = do
    d ← wrap_of_value tw
    elim d.v [ none ↦ put tw (record d { v = some (state_record v) }) | some x ↦ raise failure ]

  pub get_state : ℕ → Stub Net Value
  get_state tw = do d ← wrap_of_value tw; elim d.v [ none ↦ raise failure | some v ↦ pure v ]

  pub listen : ℕ → ℕ → Stub Net (Unit {0})
  listen tw cb = do
    d ← wrap_of_value tw
    new_pcb ← in_net (api.listen d.pcb)
    if new_pcb == null then raise failure else (do
      on_net (api.arg new_pcb tw)
      put tw (record d { pcb = new_pcb; v = some (accept_fn cb); state = tcp_listen })
      on_net (api.on_accept new_pcb))

  pub accepted : ℕ → Stub Net (Unit {0})
  accepted tw = do
    d ← wrap_of_value tw
    put tw (record d { state = tcp_accepted })
    on_net (api.accepted d.pcb)

  -- caml_tcp_read goes past tcp_wrap_of_value: it works on a closed wrap too. tcp_recved takes 16
  -- bits of the length.
  pub read : ℕ → ℕ → Stub Net (List ℕ)
  read k tw = do
    d ← get tw
    elim d.rx [
      | [] ↦ pure []
      | p ∷ pl ↦ do
        tot_len ← in_heap (Queue.length (p ∷ pl))
        bytes ← in_heap (Queue.copy k (p ∷ pl))
        if d.pcb == null then pure tt else on_net (api.recved d.pcb (u16 tot_len))
        in_heap (Queue.free k (p ∷ pl))
        put tw (record d { rx = [] })
        pure bytes
    ]

  -- caml_tcp_read_len: none is -1.
  pub read_len : ℕ → Stub Net (Option ℕ)
  read_len tw = do
    d ← wrap_of_value tw
    elim d.rx [
      | [] ↦ if is_closing d.state then pure none else pure (some 0)
      | p ∷ pl ↦ do len ← in_heap (Queue.length (p ∷ pl)); pure (some len)
    ]

  pub recved : ℕ → ℕ → Stub Net (Unit {0})
  recved tw len = do d ← wrap_of_value tw; on_net (api.recved d.pcb (u16 len))

  -- caml_tcp_write: `none` is -1. The source does not check that the range lies in the string, and
  -- reading past its end is a fault. tcp_write takes 16 bits of the length.
  pub write : ℕ → List ℕ → ℕ → ℕ → Stub Net (Option ℕ)
  write tw buf off len = do
    d ← wrap_of_value tw
    bytes ← range off (u16 len) buf
    err ← in_net (api.write d.pcb bytes)
    if is_ok err then pure (some len) else pure none

  pub sndbuf : ℕ → Stub Net ℕ
  sndbuf tw = do d ← wrap_of_value tw; λ w. Reply.done (api.sndbuf d.pcb w.net) w

  pub close : ℕ → Stub Net Bool
  close tw = do
    d ← wrap_of_value tw
    ret ← in_net (api.close d.pcb)
    if is_ok ret
        then (do put tw (record d { pcb = null; state = tcp_closing }); pure true)
        else pure false

  pub abort : ℕ → Stub Net (Unit {0})
  abort tw = do
    d ← wrap_of_value tw
    on_net (api.abort_pcb d.pcb)
    put tw (record d { pcb = null; state = tcp_closing })
