-- ===== src/Udp.antt =====
-- lwip/src/core/udp.c and lwip/src/include/lwip/udp.h: the UDP control blocks, in a list linked
-- through `next`, and the choice of the control block for a datagram in udp_input. Ports and
-- addresses are numbers, an address of 0 is IP_ADDR_ANY. The build has no DHCP, IGMP, UDP-Lite or
-- SNMP, and neither IP_SOF_BROADCAST_RECV nor LWIP_UDP_TODO.
pub mod Port
pub mod Bind
pub mod Order
pub mod Demux
pub mod Unlink
pub mod Remove
mod Tests
use ocaml_lwip.Base.{
  ℕ, zero, suc, ◌+◌, Bool, true, false, Option, none, some, ◌&&◌, ◌||◌, Cmd, ok, abort, fault,
  out_of_fuel, pure, ◌>>=◌, ◌>>◌, assert, ◌==◌, if◌then◌else◌, u8, u16, bit_and, bit_or, Err,
  err_ok, err_code, is_ok,
}
use mathlib.Core.Bool.{not}
use ocaml_lwip.Memp
use ocaml_lwip.Memp.{Ptr, null, Memp}

-- struct udp_pcb.
pub record UdpPcb : Type 0 where
  pub local_ip : ℕ
  pub remote_ip : ℕ
  pub so_options : ℕ
  pub tos : ℕ
  pub ttl : ℕ
  pub next : Ptr
  pub flags : ℕ
  pub local_port : ℕ
  pub remote_port : ℕ
  pub recv : Ptr
  pub recv_arg : Ptr

-- The control blocks in use, the head of their list, and the pools.
pub record Udp : Type 0 where
  pub cells : Ptr → Option UdpPcb
  pub udp_pcbs : Ptr
  pub memp : Memp

-- UDP_FLAGS_CONNECTED, the flags without it as a u8_t, and the place of MEMP_UDP_PCB.
abbrev pub connected : ℕ
connected = 4

abbrev pub not_connected : ℕ
not_connected = 251

abbrev pub memp_udp_pcb : ℕ
memp_udp_pcb = 0

-- UDP_LOCAL_PORT_RANGE_START and UDP_LOCAL_PORT_RANGE_END.
abbrev pub range_start : ℕ
range_start = 4096

abbrev pub range_end : ℕ
range_end = 32767

abbrev pub write : Udp → Ptr → Option UdpPcb → Udp
write s p c = record s { cells = λ a. if a == p then c else s.cells a }

unfoldable pub load : Ptr → Cmd Udp UdpPcb
load p s = if p == null then fault else elim (s.cells p) [ none ↦ fault | some c ↦ ok c s ]

abbrev pub store : Ptr → UdpPcb → Cmd Udp (Unit {0})
store p c s = ok tt (write s p (some c))

abbrev pub get : Cmd Udp Udp
get s = ok s s

abbrev pub set_pcbs : Ptr → Cmd Udp (Unit {0})
set_pcbs p s = ok tt (record s { udp_pcbs = p })

-- A call of memp.c.
unfoldable pub in_memp : {A : Type 0} → Cmd Memp A → Cmd Udp A
in_memp m s = elim (m s.memp) [
  | ok a memp ↦ ok a (record s { memp = memp })
  | abort ↦ abort
  | fault ↦ fault
  | out_of_fuel ↦ out_of_fuel
]

-- memset to zero, and UDP_TTL.
abbrev pub zeroed : UdpPcb
zeroed = record {
  local_ip = 0;
  remote_ip = 0;
  so_options = 0;
  tos = 0;
  ttl = 255;
  next = null;
  flags = 0;
  local_port = 0;
  remote_port = 0;
  recv = null;
  recv_arg = null;
}

pub new : Cmd Udp Ptr
new = do
  pcb ← in_memp (Memp.malloc memp_udp_pcb)
  if pcb == null then pure pcb else (do store pcb zeroed; pure pcb)

-- The loop of udp_bind over the list: whether `pcb` is on it, which it may be once.
unfoldable pub rebind_loop : ℕ → (pcb ipcb : Ptr) → (rebind : Bool) → Cmd Udp Bool
rebind_loop zero pcb ipcb rebind = λ _. out_of_fuel
rebind_loop (suc k) pcb ipcb rebind = if ipcb == null then pure rebind else (do
  i ← load ipcb
  assert (not ((pcb == ipcb) && rebind))
  rebind_loop k pcb i.next ((pcb == ipcb) || rebind))

-- The search of udp_bind for a port: where it stops in the list, and the port.
unfoldable pub port_loop : ℕ → (ipcb : Ptr) → (port : ℕ) → Cmd Udp (Ptr × ℕ)
port_loop zero ipcb port = λ _. out_of_fuel
port_loop (suc k) ipcb port =
    if (ipcb == null) || (port == range_end) then pure (ipcb, port) else (do
      i ← load ipcb
      s ← get
      let used = i.local_port == port
      port_loop k (if used then s.udp_pcbs else i.next) (if used then u16 (port + 1) else port))

unfoldable pub choose_port : ℕ → Cmd Udp (Option ℕ)
choose_port k = do
  s ← get
  (ipcb, port) ← port_loop k s.udp_pcbs range_start
  if ipcb == null then pure (some port) else pure none

-- The control block put in front of the list.
pub insert : Ptr → Cmd Udp (Unit {0})
insert pcb = do s ← get; c ← load pcb; store pcb (record c { next = s.udp_pcbs }); set_pcbs pcb

-- The end of udp_bind.
pub activate : Ptr → (rebind : Bool) → Option ℕ → Cmd Udp Err
activate pcb rebind none = pure (err_code 11)
activate pcb rebind (some port) = do
  c ← load pcb
  store pcb (record c { local_port = port })
  if rebind then pure err_ok else (do insert pcb; pure err_ok)

pub bind : ℕ → Ptr → (ipaddr port : ℕ) → Cmd Udp Err
bind k pcb ipaddr port = do
  s ← get
  rebind ← rebind_loop k pcb s.udp_pcbs false
  c ← load pcb
  store pcb (record c { local_ip = ipaddr })
  chosen ← if port == 0 then choose_port k else pure (some port)
  activate pcb rebind chosen

-- The loop of udp_connect: whether `pcb` is on the list.
pub listed : ℕ → (pcb ipcb : Ptr) → Cmd Udp Bool
listed zero pcb ipcb = λ _. out_of_fuel
listed (suc k) pcb ipcb =
    if ipcb == null
    then pure false
    else (do i ← load ipcb; if pcb == ipcb then pure true else listed k pcb i.next)

pub connect : ℕ → Ptr → (ipaddr port : ℕ) → Cmd Udp Err
connect k pcb ipaddr port = do
  c ← load pcb
  err ← if c.local_port == 0 then bind k pcb c.local_ip c.local_port else pure err_ok
  if is_ok err
      then (do
        c ← load pcb
        store pcb
            (record c { remote_ip = ipaddr; remote_port = port; flags = bit_or c.flags connected })
        s ← get
        found ← listed k pcb s.udp_pcbs
        if found then pure err_ok else (do insert pcb; pure err_ok))
      else pure err

pub disconnect : Ptr → Cmd Udp (Unit {0})
disconnect pcb = do
  c ← load pcb
  store pcb (record c { remote_ip = 0; remote_port = 0; flags = bit_and c.flags not_connected })

pub set_recv : Ptr → (recv recv_arg : Ptr) → Cmd Udp (Unit {0})
set_recv pcb recv recv_arg = do
  c ← load pcb
  store pcb (record c { recv = recv; recv_arg = recv_arg })

-- The loop of udp_remove.
unfoldable pub remove_loop : ℕ → (pcb pcb2 : Ptr) → Cmd Udp (Unit {0})
remove_loop zero pcb pcb2 = λ _. out_of_fuel
remove_loop (suc k) pcb pcb2 = if pcb2 == null then pure tt else (do
  c ← load pcb2
  if not (c.next == null) && (c.next == pcb)
      then (do d ← load pcb; store pcb2 (record c { next = d.next }))
      else pure tt
  e ← load pcb2
  remove_loop k pcb e.next)

-- What memp_free takes is no control block any more.
unfoldable pub remove : ℕ → Ptr → Cmd Udp (Unit {0})
remove k pcb = do
  s ← get
  if s.udp_pcbs == pcb then (do c ← load pcb; set_pcbs c.next) else remove_loop k pcb s.udp_pcbs
  in_memp (Memp.free memp_udp_pcb pcb)
  λ s. ok tt (write s pcb none)

-- What udp_input reads of a datagram.
pub record Datagram : Type 0 where
  pub src_ip : ℕ
  pub dest_ip : ℕ
  pub src : ℕ
  pub dest : ℕ
  pub broadcast : Bool

-- `local_match`, and the test of the remote side.
abbrev pub local_match : Datagram → UdpPcb → Bool
local_match d c =
    (c.local_port == d.dest)
    && ((not d.broadcast && (c.local_ip == 0)) || (c.local_ip == d.dest_ip) || d.broadcast)

abbrev pub full_match : Datagram → UdpPcb → Bool
full_match d c =
    local_match d c && (c.remote_port == d.src) && ((c.remote_ip == 0) || (c.remote_ip == d.src_ip))

abbrev pub is_free : UdpPcb → Bool
is_free c = bit_and c.flags connected == 0

-- The control block moved to the front of the list.
unfoldable pub move_front : (prev pcb : Ptr) → Cmd Udp (Unit {0})
move_front prev pcb = if prev == null then pure tt else (do
  p ← load prev
  c ← load pcb
  store prev (record p { next = c.next })
  s ← get
  c ← load pcb
  store pcb (record c { next = s.udp_pcbs })
  set_pcbs pcb)

-- The loop of udp_input over the control blocks, and the choice behind it.
unfoldable pub demux : ℕ → Datagram → (pcb prev uncon_pcb : Ptr) → Cmd Udp Ptr
demux zero d pcb prev uncon_pcb = λ _. out_of_fuel
demux (suc k) d pcb prev uncon_pcb = if pcb == null then pure uncon_pcb else (do
  c ← load pcb
  let free = local_match d c && (uncon_pcb == null) && is_free c
  let rest = demux k d c.next pcb (if free then pcb else uncon_pcb)
  if full_match d c then (do move_front prev pcb; pure pcb) else rest)
