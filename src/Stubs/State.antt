-- ===== src/Stubs/State.antt =====
-- The records of lib/lwip_stubs.c, the interface of lwip/src/core/tcp.c, and code that raises.
use ocaml_lwip.Base.{
  ℕ, ◌≡◌, Option, none, some, List, ◌∷◌, Run, Cmd, ok, abort, fault, out_of_fuel, ◌==◌,
  if◌then◌else◌, Returns, returns,
}
use ocaml_lwip.Memp.{Ptr}
use ocaml_lwip.Pbuf.{Heap}
pub use ocaml_lwip.Base.{Err, err_ok, err_code, is_ok}

-- The functions of lwip/src/core/tcp.c that the bindings call. `new` and `listen` give NULL where
-- memory is short.
pub record TcpApi : Type 1 where
  pub Net : Type 0
  pub new : Net → Ptr × Net
  pub bind : Ptr → ℕ → ℕ → Net → Err × Net
  pub listen : Ptr → Net → Ptr × Net
  pub accepted : Ptr → Net → Net
  pub recved : Ptr → ℕ → Net → Net
  pub write : Ptr → List ℕ → Net → Err × Net
  pub sndbuf : Ptr → Net → ℕ
  pub close : Ptr → Net → Err × Net
  pub abort_pcb : Ptr → Net → Net
  pub setprio_min : Ptr → Net → Net
  pub arg : Ptr → ℕ → Net → Net
  pub recv : Ptr → Net → Net
  pub sent : Ptr → Net → Net
  pub on_accept : Ptr → Net → Net

-- enum tcp_states.
pub data TcpState : Type 0 where
  tcp_none tcp_listen tcp_accepted tcp_closing : TcpState

-- What `tw->v` points to: the accept callback, or the state record with its two closures.
pub data Value : Type 0 where
  accept_fn : ℕ → Value
  state_record : ℕ → Value

-- struct tcp_wrap with its tcp_desc; `rx` is the pbuf_list from its head on, [] for NULL, and `v`
-- is none for 0.
pub record Wrap : Type 0 where
  pub pcb : Ptr
  pub v : Option Value
  pub state : TcpState
  pub retries : ℕ
  pub rx : List Ptr

-- A closure called: rx_notify and tx_notify of a state record, an accept callback on a wrap.
pub data Event : Type 0 where
  rx_notify tx_notify : ℕ → Event
  accept : ℕ → ℕ → Event

pub data Exn : Type 0 where
  connection_closed : Exn
  failure : Exn

pub record World (Net : Type 0) : Type 0 where
  pub heap : Heap
  pub net : Net
  pub wraps : ℕ → Option Wrap
  pub events : List Event

-- A binding returns, raises, or dies by an abort, a fault or a loop cut short.
pub data Reply (Net A : Type 0) : Type 0 where
  done : A → World Net → Reply Net A
  raised : Exn → World Net → Reply Net A
  died : Reply Net A

abbrev pub Stub : Type 0 → Type 0 → Type 0
Stub Net A = World Net → Reply Net A

module _ {Net : Type 0} where
  infixl 5 ◌>>=◌ ◌>>◌
  abbrev pub and_then : {A B : Type 0} → Reply Net A → (A → Stub Net B) → Reply Net B
  and_then (done a w) k = k a w
  and_then (raised e w) k = raised e w
  and_then died k = died

  abbrev pub ◌>>=◌ : {A B : Type 0} → Stub Net A → (A → Stub Net B) → Stub Net B
  ◌>>=◌ m k w = and_then (m w) k

  abbrev pub ◌>>◌ : {B : Type 0} → Stub Net (Unit {0}) → Stub Net B → Stub Net B
  ◌>>◌ m k w = and_then (m w) (λ _. k)

  abbrev pub pure : {A : Type 0} → A → Stub Net A
  pure a w = done a w

  abbrev pub raise : {A : Type 0} → Exn → Stub Net A
  raise e w = raised e w

  abbrev pub die : {A : Type 0} → Stub Net A
  die w = died

  -- Code over the pbufs.
  abbrev pub of_run : {A : Type 0} → World Net → Run Heap A → Reply Net A
  of_run w (ok a heap) = done a (record w { heap = heap })
  of_run w abort = died
  of_run w fault = died
  of_run w out_of_fuel = died

  abbrev pub in_heap : {A : Type 0} → Cmd Heap A → Stub Net A
  in_heap m w = of_run w (m w.heap)

  abbrev pub of_net : {A : Type 0} → World Net → A × Net → Reply Net A
  of_net w (a, net) = done a (record w { net = net })

  -- A call of tcp.c with a result, and one without.
  abbrev pub in_net : {A : Type 0} → (Net → A × Net) → Stub Net A
  in_net f w = of_net w (f w.net)

  abbrev pub on_net : (Net → Net) → Stub Net (Unit {0})
  on_net f w = done tt (record w { net = f w.net })

  -- A read through the pointer of a custom block, and a write.
  unfoldable pub get : ℕ → Stub Net Wrap
  get tw w = elim (w.wraps tw) [ none ↦ died | some d ↦ done d w ]

  unfoldable pub set_to : ℕ → Option Wrap → Stub Net (Unit {0})
  set_to tw d w = done tt (record w { wraps = λ a. if a == tw then d else w.wraps a })

  unfoldable pub put : ℕ → Wrap → Stub Net (Unit {0})
  unfolding set_to
  put tw d = set_to tw (some d)

  unfoldable pub log : Event → Stub Net (Unit {0})
  log e w = done tt (record w { events = e ∷ w.events })

  -- The binding returns, with `P` of its result and the world it leaves.
  pub data Gives {A : Type 0} (P : A → World Net → Type 0) : Reply Net A → Type 0 where
    gives : {a : A} {w : World Net} → P a w → Gives P (done a w)

  pub Gives-run :
      {A B : Type 0} {Q : A → Heap → Type 0} {P : B → World Net → Type 0} {r : Run Heap A}
      (k : A → Stub Net B) (w : World Net)
      → Returns Q r
      → ((a : A) (h : Heap) → Q a h → Gives P (k a (record w { heap = h })))
      → Gives P (and_then (of_run w r) k)
  Gives-run k w (returns q) next = next _ _ q

  pub Gives-mono :
      {A : Type 0} {P Q : A → World Net → Type 0} {r : Reply Net A}
      → Gives P r
      → ((a : A) (w : World Net) → P a w → Q a w)
      → Gives Q r
  Gives-mono (gives p) weaken = gives (weaken _ _ p)

  pub Gives-bind :
      {A B : Type 0} {P : A → World Net → Type 0} {Q : B → World Net → Type 0} {r : Reply Net A}
      (k : A → Stub Net B)
      → Gives P r
      → ((a : A) (w : World Net) → P a w → Gives Q (k a w))
      → Gives Q (and_then r k)
  Gives-bind k (gives p) next = next _ _ p

  pub get-eq : (tw : ℕ) (d : Wrap) (w : World Net) → w.wraps tw ≡ some d → get tw w ≡ done d w
  unfolding get
  get-eq tw d w e = rw (e, get)

-- The wrap with its receive queue replaced.
abbrev pub with_rx : Wrap → List Ptr → Wrap
with_rx d rx = record d { rx = rx }
