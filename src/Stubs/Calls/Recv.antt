-- ===== src/Stubs/Calls/Recv.antt =====
-- tcp_recv_cb of lib/lwip_stubs.c: what arrives is what caml_tcp_read returns.
use ocaml_lwip.Base.{
  ℕ, ◌^◌, ◌<◌, ◌≡◌, refl, ◌≢◌, some, List, [], ◌∷◌, ◌++◌, length, ne→==, ==_self, ap, ◌∙◌,
  append_assoc, append-nil, sym,
}
use ocaml_lwip.Memp.{Ptr, null}
use ocaml_lwip.Stubs.Queue
use ocaml_lwip.Stubs.Queue.Held.{Packets, all_bytes, all_total, Held}
use ocaml_lwip.Stubs.State.{
  err_ok, TcpApi, tcp_accepted, tcp_closing, state_record, rx_notify, Wrap, World, Event, Stub,
  Gives, gives, Gives-bind, Gives-mono, get-eq, with_rx, put, set_to, log, ◌>>=◌, ◌>>◌, pure,
}
use ocaml_lwip.Stubs.Calls.{recv_cb, read, notify_rx}
use ocaml_lwip.Stubs.Calls.Read.{read-all_bytes}

-- A packet after another reaches tcp_recv_cb.
abbrev pub deliver : (api : TcpApi) → ℕ → ℕ → Ptr → List Ptr → Stub api.Net (Unit {0})
deliver api k tw pcb [] = pure tt
deliver api k tw pcb (p ∷ ps) = recv_cb api k tw pcb p err_ok >>= λ e. deliver api k tw pcb ps

abbrev pub AllSet : List Ptr → Type 0
AllSet [] = Unit {0}
AllSet (p ∷ ps) = (p ≢ null) × AllSet ps

-- The calls so far, where packets `ps` come behind those of `rx`: only the first to an empty queue
-- wakes the reader.
abbrev pub woken : ℕ → (rx ps : List Ptr) → List Event → List Event
woken s (q ∷ pl) ps calls = calls
woken s [] [] calls = calls
woken s [] (p ∷ ps) calls = rx_notify s ∷ calls

woken_none : (s : ℕ) (rx : List Ptr) (calls : List Event) → woken s rx [] calls ≡ calls
woken_none s [] calls = refl
woken_none s (q ∷ pl) calls = refl

woken_waiting :
    (s : ℕ) (rx : List Ptr) (p : Ptr) (ps : List Ptr) (calls : List Event)
    → woken s (rx ++ p ∷ []) ps calls ≡ calls
woken_waiting s [] p ps calls = refl
woken_waiting s (q ∷ pl) p ps calls = refl

woken_first :
    (s : ℕ) (rx : List Ptr) (p : Ptr) (ps : List Ptr) (calls : List Event)
    → woken s rx (p ∷ []) calls ≡ woken s rx (p ∷ ps) calls
woken_first s [] p ps calls = refl
woken_first s (q ∷ pl) p ps calls = refl

-- `w'` is `w` but for the wrap `tw`, which is `d`, and for `calls`, the calls made so far.
pub record Now (Net : Type 0) (w : World Net) (tw : ℕ) (d : Wrap) (calls : List Event)
    (w' : World Net) : Type 0 where
  pub here : w'.wraps tw ≡ some d
  pub others : (a : ℕ) → a ≢ tw → w'.wraps a ≡ w.wraps a
  pub heap : w'.heap ≡ w.heap
  pub net : w'.net ≡ w.net
  pub events : w'.events ≡ calls

module _ (api : TcpApi) (k tw : ℕ) (pcb : Ptr) (d : Wrap) (s : ℕ)
    (told : d.v ≡ some (state_record s)) where
  recv_cb-queues :
      (w : World api.Net) (rx : List Ptr) (p : Ptr)
      → d.state ≡ tcp_accepted
      → w.wraps tw ≡ some (with_rx d rx)
      → p ≢ null
      → Gives
          (λ e w'. Now api.Net w tw (with_rx d (rx ++ p ∷ [])) (woken s rx (p ∷ []) w.events) w')
          (recv_cb api k tw pcb p err_ok w)
  unfolding recv_cb put set_to notify_rx log Queue.append
  recv_cb-queues w [] p open_ at ne =
      rw (get-eq tw (with_rx d []) w at, ne→== p null ne, told)
        (gives (record {
          here = rw (==_self tw);
          others = λ a ne. rw (ne→== a tw ne);
          heap = refl;
          net = refl;
          events = refl;
        }))
  recv_cb-queues w (q ∷ pl) p open_ at ne =
      rw (get-eq tw (with_rx d (q ∷ pl)) w at, ne→== p null ne, open_)
        (gives (record {
          here = rw (==_self tw);
          others = λ a ne. rw (ne→== a tw ne);
          heap = refl;
          net = refl;
          events = refl;
        }))

  -- Packets that reach tcp_recv_cb on an accepted connection are queued in order behind those
  -- that wait there; the reader is woken once, by the first one, if nothing waited. Nothing else
  -- changes: no pbuf is freed or lost and nothing is acknowledged.
  pub deliver-Now :
      (ps rx : List Ptr) (w : World api.Net)
      → d.state ≡ tcp_accepted
      → w.wraps tw ≡ some (with_rx d rx)
      → AllSet ps
      → Gives
          (λ u w'. Now api.Net w tw (with_rx d (rx ++ ps)) (woken s rx ps w.events) w')
          (deliver api k tw pcb ps w)
  deliver-Now [] rx w open_ at set = gives (record {
    here = rw (append-nil rx) at;
    others = λ a ne. refl;
    heap = refl;
    net = refl;
    events = sym (woken_none s rx w.events);
  })
  deliver-Now (p ∷ ps) rx w open_ at set =
      Gives-bind _ (recv_cb-queues w rx p open_ at set.0) λ e w' now.
        Gives-mono (deliver-Now ps (rx ++ p ∷ []) w' open_ now.here set.1) λ u w'' then'. record {
          here = then'.here ∙ ap (λ l. some (with_rx d l)) (append_assoc rx (p ∷ []) ps);
          others = λ a ne. then'.others a ne ∙ now.others a ne;
          heap = then'.heap ∙ now.heap;
          net = then'.net ∙ now.net;
          events =
              then'.events
              ∙ woken_waiting s rx p ps w'.events
              ∙ now.events
              ∙ woken_first s rx p ps w.events;
        }

  -- The stream of an accepted connection: what tcp_recv_cb is given, packet after packet, is what
  -- the next caml_tcp_read returns, each byte once and in order; the queue is empty afterwards.
  pub read-deliver :
      (p : Ptr) (ps : List Ptr) (bss : Packets) (w : World api.Net)
      → d.state ≡ tcp_accepted
      → w.wraps tw ≡ some (with_rx d [])
      → AllSet (p ∷ ps)
      → Held k w.heap (p ∷ ps) bss
      → all_total bss < 2 ^ 32
      → 7 < length w.heap.memp
      → Gives
          (λ bytes w'. (bytes ≡ all_bytes bss) × (w'.wraps tw ≡ some (with_rx d [])))
          ((deliver api k tw pcb (p ∷ ps) >> read api k tw) w)
  read-deliver p ps bss w open_ at set held fits wide =
      Gives-bind _ (deliver-Now (p ∷ ps) [] w open_ at set) λ u w' now.
        Gives-mono
          (read-all_bytes api k tw w' d p ps bss now.here (rw now.heap held) fits
            (rw now.heap wide))
          λ bytes w'' r. (r.all, r.empty)

-- The wrap once the peer has closed.
abbrev pub closing : Wrap → Wrap
closing d = record d { state = tcp_closing }
