-- ===== src/Netif.antt =====
-- lwip/src/core/netif.c: the network interfaces, in a list linked through `next`. The build has
-- LWIP_TCP and LWIP_ARP, and none of the callbacks, DHCP, AutoIP, IGMP and SNMP. The parameter
-- `tcp_abort` is the function of lwip/src/core/tcp.c, on the lists of control blocks.
pub mod Remove
pub mod Add
mod Tests
use ocaml_lwip.Base.{
  ℕ, zero, suc, ◌+◌, ◌-◌, Bool, true, false, Option, none, some, List, [], ◌∷◌, ◌&&◌, Cmd, ok,
  fault, out_of_fuel, pure, ◌>>=◌, ◌>>◌, ◌==◌, if◌then◌else◌, u8, map, Err, err_ok, is_ok,
}
use mathlib.Core.Bool.{not}
use ocaml_lwip.Memp.{Ptr, null}

-- struct netif, without the fields that netif.c neither reads nor sets. The bits of `flags` that it
-- reads, and NETIF_FLAG_BROADCAST, are fields of their own.
pub record Netif : Type 0 where
  pub next : Ptr
  pub ip_addr : ℕ
  pub netmask : ℕ
  pub gw : ℕ
  pub state : Ptr
  pub input : Ptr
  pub up : Bool
  pub broadcast : Bool
  pub etharp : Bool
  pub num : ℕ
  pub name : ℕ × ℕ

-- A control block of tcp.c with its local_ip.
abbrev pub Pcb : Type 0
Pcb = Ptr × ℕ

-- tcp_active_pcbs and tcp_listen_pcbs.
pub record Pcbs : Type 0 where
  pub active : List Pcb
  pub listening : List Pcb

-- The interfaces in memory, netif_list, netif_default, the counter of netif_add, TCP's control
-- blocks, and the interfaces that etharp_gratuitous was called on, the last call first.
pub record Net : Type 0 where
  pub netifs : Ptr → Option Netif
  pub netif_list : Ptr
  pub netif_default : Ptr
  pub netifnum : ℕ
  pub pcbs : Pcbs
  pub announced : List Ptr

unfoldable pub load : Ptr → Cmd Net Netif
load p s = if p == null then fault else elim (s.netifs p) [ none ↦ fault | some n ↦ ok n s ]

abbrev pub with_netif : Net → Ptr → Netif → Net
with_netif s p n = record s { netifs = λ a. if a == p then some n else s.netifs a }

unfoldable pub store : Ptr → Netif → Cmd Net (Unit {0})
store p n s = ok tt (with_netif s p n)

abbrev pub get : Cmd Net Net
get s = ok s s

pub set_default : Ptr → Cmd Net (Unit {0})
set_default netif s = ok tt (record s { netif_default = netif })

pub set_netmask : Ptr → ℕ → Cmd Net (Unit {0})
set_netmask netif netmask = do n ← load netif; store netif (record n { netmask = netmask })

pub set_gw : Ptr → ℕ → Cmd Net (Unit {0})
set_gw netif gw = do n ← load netif; store netif (record n { gw = gw })

-- The first loop of netif_set_ipaddr: each control block bound to the old address is aborted; its
-- successor is read before.
unfoldable pub abort_bound : (tcp_abort : Ptr → Pcbs → Pcbs) → ℕ → List Pcb → Pcbs → Pcbs
abort_bound tcp_abort old [] pcbs = pcbs
abort_bound tcp_abort old ((pcb, local_ip) ∷ rest) pcbs =
    abort_bound tcp_abort old rest (if local_ip == old then tcp_abort pcb pcbs else pcbs)

-- The second loop: who listened on the old address listens on the new one.
abbrev pub rebind : (old new : ℕ) → Pcb → Pcb
rebind old new (pcb, local_ip) =
    (pcb, if not (local_ip == 0) && (local_ip == old) then new else local_ip)

abbrev pub readdress : (tcp_abort : Ptr → Pcbs → Pcbs) → (old new : ℕ) → Pcbs → Pcbs
readdress tcp_abort old new pcbs =
    let left = abort_bound tcp_abort old pcbs.active pcbs in
    record left { listening = map (rebind old new) left.listening }

module _ (tcp_abort : Ptr → Pcbs → Pcbs) where
  pub set_ipaddr : Ptr → ℕ → Cmd Net (Unit {0})
  set_ipaddr netif ipaddr = do
    n ← load netif
    if ipaddr == n.ip_addr
        then pure tt
        else (λ s. ok tt (record s { pcbs = readdress tcp_abort n.ip_addr ipaddr s.pcbs }))
    store netif (record n { ip_addr = ipaddr })

  pub set_addr : Ptr → (ipaddr netmask gw : ℕ) → Cmd Net (Unit {0})
  unfolding set_ipaddr set_netmask set_gw
  set_addr netif ipaddr netmask gw = do
    set_ipaddr netif ipaddr
    set_netmask netif netmask
    set_gw netif gw

  -- `init` is the driver's function; a failure gives NULL. The structure may hold anything before.
  pub add :
      Ptr
      → (ipaddr netmask gw : ℕ) → (state : Ptr) → (init : Ptr → Cmd Net Err) → (input : Ptr)
      → Cmd Net Ptr
  unfolding set_addr
  add netif ipaddr netmask gw state init input = do
    n ← load netif
    s ← get
    store netif (record n {
      ip_addr = 0;
      netmask = 0;
      gw = 0;
      up = false;
      broadcast = false;
      etharp = false;
      state = state;
      num = s.netifnum;
      input = input;
    })
    λ s. ok tt (record s { netifnum = u8 (s.netifnum + 1) })
    set_addr netif ipaddr netmask gw
    err ← init netif
    if is_ok err
        then (do
          n ← load netif
          s ← get
          store netif (record n { next = s.netif_list })
          λ s. ok netif (record s { netif_list = netif }))
        else pure null

-- The loop of netif_remove: whether `netif` was found behind `tmp`.
remove_loop : ℕ → (netif tmp : Ptr) → Cmd Net Bool
remove_loop zero netif tmp = λ _. out_of_fuel
remove_loop (suc k) netif tmp = if tmp == null then pure false else (do
  t ← load tmp
  if t.next == netif
      then (do n ← load netif; store tmp (record t { next = n.next }); pure true)
      else remove_loop k netif t.next)

pub remove : ℕ → Ptr → Cmd Net (Unit {0})
unfolding remove_loop set_default
remove k netif = if netif == null then pure tt else (do
  s ← get
  found ←
      (if s.netif_list == netif
        then (do n ← load netif; λ s. ok true (record s { netif_list = n.next }))
        else remove_loop k netif s.netif_list)
  if found
      then (do s ← get; if s.netif_default == netif then set_default null else pure tt)
      else pure tt)

-- `name` is two characters and a digit.
unfoldable pub find_loop : ℕ → (num : ℕ) → ℕ × ℕ → Ptr → Cmd Net Ptr
find_loop zero num name netif = λ _. out_of_fuel
find_loop (suc k) num name netif = if netif == null then pure null else (do
  n ← load netif
  if (num == n.num) && (name.0 == n.name.0) && (name.1 == n.name.1)
      then pure netif
      else find_loop k num name n.next)

unfoldable pub find : ℕ → ℕ × ℕ → (digit : ℕ) → Cmd Net Ptr
unfolding find_loop
find k name digit = do s ← get; find_loop k (u8 (digit + 256 - 48)) name s.netif_list

-- netif_set_up announces the address by ARP where the driver speaks Ethernet.
pub set_up : Ptr → Cmd Net (Unit {0})
set_up netif = do
  n ← load netif
  if n.up then pure tt else (do
    store netif (record n { up = true })
    if n.etharp then (λ s. ok tt (record s { announced = netif ∷ s.announced })) else pure tt)

pub set_down : Ptr → Cmd Net (Unit {0})
set_down netif = do n ← load netif; if n.up then store netif (record n { up = false }) else pure tt

pub is_up : Ptr → Cmd Net Bool
is_up netif = do n ← load netif; pure n.up
