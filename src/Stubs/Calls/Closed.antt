-- ===== src/Stubs/Calls/Closed.antt =====
-- Closing in lib/lwip_stubs.c: caml_tcp_close, caml_tcp_abort, tcp_wrap_of_value, tcp_wrap_finalize.
use ocaml_lwip.Base.{
  ℕ, ◌^◌, ◌<◌, ◌≡◌, refl, ◌≢◌, Bool, true, false, some, none, List, ◌∷◌, arith, length, ne→==, ◌==◌,
  if◌then◌else◌, ==_self, ap, ◌∙◌, Bool-cases, inl, inr, u16,
}
use ocaml_lwip.Memp.{Ptr, null}
use ocaml_lwip.Stubs.Queue
use ocaml_lwip.Stubs.Queue.Held.{Packets, all_bytes, all_total, Held, Cleared, free-Cleared}
use ocaml_lwip.Stubs.State.{
  is_ok, TcpApi, tcp_closing, Wrap, World, done, raised, connection_closed, Gives, gives, Gives-run,
  Gives-mono, in_heap, ◌>>◌, get-eq, with_rx, put, set_to,
}
use ocaml_lwip.Stubs.Calls.{
  wrap_of_value, bind, listen, accepted, set_state, get_state, read, read_len, recved, write,
  sndbuf, close, abort, finalize,
}
use ocaml_lwip.Stubs.Calls.Read.{read-all_bytes}

-- Every primitive that goes through tcp_wrap_of_value raises Connection_closed and does nothing.
pub record AllRaise (api : TcpApi) (tw : ℕ) (w : World api.Net) : Type 0 where
  pub on_bind : (a b c d port : ℕ) → bind api tw a b c d port w ≡ raised connection_closed w
  pub on_listen : (cb : ℕ) → listen api tw cb w ≡ raised connection_closed w
  pub on_accepted : accepted api tw w ≡ raised connection_closed w
  pub on_set_state : (v : ℕ) → set_state api tw v w ≡ raised connection_closed w
  pub on_get_state : get_state api tw w ≡ raised connection_closed w
  pub on_read_len : read_len api tw w ≡ raised connection_closed w
  pub on_recved : (len : ℕ) → recved api tw len w ≡ raised connection_closed w
  pub on_write :
      (buf : List ℕ) (off len : ℕ) → write api tw buf off len w ≡ raised connection_closed w
  pub on_sndbuf : sndbuf api tw w ≡ raised connection_closed w
  pub on_close : close api tw w ≡ raised connection_closed w
  pub on_abort : abort api tw w ≡ raised connection_closed w

module _ (api : TcpApi) (tw : ℕ) (w : World api.Net) (d : Wrap) where
  wrap_of_value-closed :
      w.wraps tw ≡ some (record d { pcb = null })
      → wrap_of_value api tw w ≡ raised connection_closed w
  unfolding wrap_of_value
  wrap_of_value-closed at = rw (get-eq tw (record d { pcb = null }) w at)

  AllRaise-closed : w.wraps tw ≡ some (record d { pcb = null }) → AllRaise api tw w
  unfolding bind listen accepted set_state get_state read_len recved write sndbuf close abort
  AllRaise-closed at = record {
    on_bind = λ a b c d port. rw (wrap_of_value-closed at);
    on_listen = λ cb. rw (wrap_of_value-closed at);
    on_accepted = rw (wrap_of_value-closed at);
    on_set_state = λ v. rw (wrap_of_value-closed at);
    on_get_state = rw (wrap_of_value-closed at);
    on_read_len = rw (wrap_of_value-closed at);
    on_recved = λ len. rw (wrap_of_value-closed at);
    on_write = λ buf off len. rw (wrap_of_value-closed at);
    on_sndbuf = rw (wrap_of_value-closed at);
    on_close = rw (wrap_of_value-closed at);
    on_abort = rw (wrap_of_value-closed at);
  }

-- The wrap that caml_tcp_close and caml_tcp_abort leave.
abbrev pub shut : Wrap → Wrap
shut d = record d { pcb = null; state = tcp_closing }

module _ (api : TcpApi) (tw : ℕ) (w : World api.Net) (d : Wrap) (live : d.pcb ≢ null)
    (at : w.wraps tw ≡ some d) where
  abbrev closed_net : api.Net
  closed_net = (api.close d.pcb w.net).1

  -- The world after the wrap is shut.
  abbrev shut_world : api.Net → World api.Net
  shut_world net = record w { net = net; wraps = λ a. if a == tw then some (shut d) else w.wraps a }

  shut_here : (net : api.Net) → (shut_world net).wraps tw ≡ some (shut d)
  shut_here net = rw (==_self tw)

  close-eq :
      (b : Bool)
      → is_ok (api.close d.pcb w.net).0 ≡ b
      → close api tw w ≡ (
          if b
          then done true (shut_world closed_net)
          else done false (record w { net = closed_net }))
  unfolding close wrap_of_value put set_to
  close-eq true e = rw (get-eq tw d w at, ne→== d.pcb null live, e)
  close-eq false e = rw (get-eq tw d w at, ne→== d.pcb null live, e)

  -- What caml_tcp_close leaves, by the result.
  abbrev pub AfterClose : Bool → World api.Net → Type 0
  AfterClose true w' =
      AllRaise api tw w'
      × (w'.wraps tw ≡ some (shut d))
      × ((a : ℕ) → a ≢ tw → w'.wraps a ≡ w.wraps a)
  AfterClose false w' = w'.wraps ≡ w.wraps

  -- caml_tcp_close of an open connection returns whether tcp_close succeeds. If it does, every
  -- primitive but caml_tcp_read raises Connection_closed from then on, and no other wrap has
  -- changed; if it fails, this wrap is as it was too. No packet is touched and no closure called.
  pub close-AllRaise :
      Gives
        (λ r w'.
          (r ≡ is_ok (api.close d.pcb w.net).0)
          × AfterClose r w'
          × (w'.heap ≡ w.heap)
          × (w'.net ≡ closed_net)
          × (w'.events ≡ w.events))
        (close api tw w)
  close-AllRaise = elim (Bool-cases (is_ok (api.close d.pcb w.net).0)) [
    | inl e ↦
        rw (close-eq true e, e)
          (gives (
            refl,
            (
              AllRaise-closed api tw (shut_world closed_net) (shut d) (shut_here closed_net),
              shut_here closed_net,
              λ a ne. rw (ne→== a tw ne) refl,
            ),
            refl,
            refl,
            refl,
          ))
    | inr e ↦ rw (close-eq false e, e) (gives (refl, refl, refl, refl, refl))
  ]

  -- caml_tcp_abort always leaves the wrap in that state.
  pub abort-AllRaise :
      Gives
        (λ u w'.
          AllRaise api tw w'
          × (w'.wraps tw ≡ some (shut d))
          × (w'.heap ≡ w.heap)
          × (w'.net ≡ api.abort_pcb d.pcb w.net))
        (abort api tw w)
  unfolding abort wrap_of_value put set_to
  abort-AllRaise =
      let net = api.abort_pcb d.pcb w.net in
      rw (get-eq tw d w at, ne→== d.pcb null live)
        (gives (
          AllRaise-closed api tw (shut_world net) (shut d) (shut_here net),
          shut_here net,
          refl,
          refl,
        ))

module _ (api : TcpApi) (k tw : ℕ) (w : World api.Net) (d : Wrap) (p : Ptr) (pl : List Ptr)
    (bss : Packets) (at : w.wraps tw ≡ some (with_rx d (p ∷ pl)))
    (held : Held k w.heap (p ∷ pl) bss) (wide : 7 < length w.heap.memp) where
  -- A wrap that is closed on this side with packets waiting hides them from caml_tcp_read_len,
  -- which raises, while caml_tcp_read would still return their bytes, and acknowledges nothing.
  pub closed_hides_rx :
      d.pcb ≡ null
      → all_total bss < 2 ^ 32
      → (read_len api tw w ≡ raised connection_closed w)
        × Gives (λ bytes w'. (bytes ≡ all_bytes bss) × (w'.net ≡ w.net)) (read api k tw w)
  closed_hides_rx gone fits = (
    AllRaise.on_read_len (
        AllRaise-closed api tw w (with_rx d (p ∷ pl))
          (at ∙ ap (λ (q : Ptr). some (record (with_rx d (p ∷ pl)) { pcb = q })) gone)),
    Gives-mono (read-all_bytes api k tw w d p pl bss at held fits wide)
        λ bytes w' r. (r.all, r.acked ∙ unacked),
  )
    where
      unacked :
          (if d.pcb == null then w.net else api.recved d.pcb (u16 (all_total bss)) w.net) ≡ w.net
      unacked = let e : (d.pcb == null) ≡ true = ground (arith, gone) in rw e

  -- What tcp_wrap_finalize does to the connection: it is closed, or aborted if that fails.
  abbrev let_go : api.Net → api.Net
  let_go net =
      if d.pcb == null
      then net
      else if is_ok (api.close d.pcb net).0
      then (api.close d.pcb net).1
      else api.abort_pcb d.pcb (api.close d.pcb net).1

  -- The finalizer of a wrap with packets waiting, all well formed and with nobody else referring to
  -- them, lets the connection go, frees every packet of the queue and no other pbuf, and the wrap is
  -- gone.
  pub finalize-Cleared :
      Gives
        (λ u w'. (w'.wraps tw ≡ none) × Cleared w.heap bss w'.heap × (w'.net ≡ let_go w.net))
        (finalize api k tw w)
  unfolding finalize set_to
  finalize-Cleared = rw (get-eq tw (with_rx d (p ∷ pl)) w at) (elim (Bool-cases (d.pcb == null)) [
    | inl none_open ↦ rw none_open (freeing w.net)
    | inr open_ ↦ rw open_ (elim (Bool-cases (is_ok (api.close d.pcb w.net).0)) [
      | inl well ↦ rw well (freeing (api.close d.pcb w.net).1)
      | inr badly ↦ rw badly (freeing (api.abort_pcb d.pcb (api.close d.pcb w.net).1))
    ])
  ])
    where
      freeing :
          (net : api.Net)
          → Gives
              (λ u w'. (w'.wraps tw ≡ none) × Cleared w.heap bss w'.heap × (w'.net ≡ net))
              ((in_heap (Queue.free k (p ∷ pl)) >> set_to tw none) (record w { net = net }))
      freeing net =
          Gives-run _ (record w { net = net }) (free-Cleared k w.heap p pl bss held wide)
            λ u h c. gives (rw (==_self tw), c, refl)
