-- ===== src/Udp/Port.antt =====
-- The search of udp_bind for a port.
use ocaml_lwip.Base.{
  ℕ, zero, suc, ◌+◌, ◌*◌, ◌<◌, ◌≤◌, ◌≡◌, ◌≢◌, ◌⊎◌, inl, inr, refl, sym, ◌∙◌, Bool, true, false,
  ◌||◌, Option, some, none, List, [], ◌∷◌, length, arith, ◌==◌, ==→eq, ne→==, u16, ok, Returns,
  returns, Returns-bind, Bool-cases,
}
use native.Mathlib.Nat.{mul-suc}
use ocaml_lwip.Memp.{Ptr, null}
use ocaml_lwip.Udp.{Udp, UdpPcb, load, port_loop, choose_port, range_start, range_end}

abbrev pub Pcbs : Type 0
Pcbs = List (Ptr × UdpPcb)

-- From `p` the `next` pointers lead through the control blocks `cs`.
abbrev pub Linked : (Ptr → Option UdpPcb) → Ptr → Pcbs → Type 0
Linked cells p [] = p ≡ null
Linked cells p ((q, c) ∷ cs) = (p ≡ q) × (q ≢ null) × (cells q ≡ some c) × Linked cells c.next cs

-- Some control block has the port.
abbrev pub used : ℕ → Pcbs → Bool
used port [] = false
used port ((q, c) ∷ cs) = (c.local_port == port) || used port cs

-- Every port of the range below `port` is taken.
abbrev pub TakenBelow : ℕ → Pcbs → Type 0
TakenBelow port cs = (q : ℕ) → range_start ≤ q → q < port → used q cs ≡ true

-- The lowest free port of the range, or none when all are taken.
abbrev pub Lowest : Pcbs → Option ℕ → Type 0
Lowest cs none = TakenBelow range_end cs
Lowest cs (some port) =
    (range_start ≤ port) × (port < range_end) × (used port cs ≡ false) × TakenBelow port cs

-- Where the loop stops: at the end of the list with a free port, or at the end of the range.
abbrev pub Stopped : Pcbs → Ptr × ℕ → Type 0
Stopped cs (p, port) = ((p ≡ null) × Lowest cs (some port)) ⊎ ((p ≢ null) × TakenBelow range_end cs)

pub load-eq :
    (s : Udp) {p q : Ptr} {c : UdpPcb} → p ≡ q → q ≢ null → s.cells q ≡ some c → load p s ≡ ok c s
unfolding load
load-eq s e ne at = rw (e, ne→== _ _ ne, at) refl

Linked-head :
    (cells : Ptr → Option UdpPcb) (p : Ptr) (port : ℕ) (cs : Pcbs)
    → Linked cells p cs
    → used port cs ≡ true
    → p ≢ null
Linked-head cells p port [] l u e = ground (arith, u)
Linked-head cells p port ((q, c) ∷ cs) l u e = l.1 (sym l.0 ∙ e)

TakenBelow-suc :
    (port : ℕ) (cs : Pcbs) → TakenBelow port cs → used port cs ≡ true → TakenBelow (suc port) cs
TakenBelow-suc port cs below u q low high = elim (Bool-cases (q == port)) [
  | inl y ↦ rw (==→eq q port y) u
  | inr n ↦ below q low (ground (arith, n, high))
]

pub port_loop-Stopped :
    (k : ℕ) (s : Udp) (cs : Pcbs) (room : ℕ) (p : Ptr) (rest : Pcbs) (port : ℕ)
    → Linked s.cells s.udp_pcbs cs
    → Linked s.cells p rest
    → room + port ≡ range_end
    → range_start ≤ port
    → used port rest ≡ used port cs
    → TakenBelow port cs
    → (p ≢ null) ⊎ (0 < room)
    → suc (length cs) * room + length rest < k
    → Returns (λ r t. (t ≡ s) × Stopped cs r) (port_loop k p port s)
unfolding port_loop
port_loop-Stopped zero s cs room p rest port l r e low same below ahead fuel = absurd (omega arith)
port_loop-Stopped (suc k) s cs zero p rest port l r e low same below ahead fuel =
    let last : (port == range_end) ≡ true = ground (arith, e) in
    elim ahead [
      | inl ne ↦
          rw (ne→== p null ne, last) (returns (refl, inr (ne, λ q a b. below q a (omega arith))))
      | inr z ↦ absurd (omega (arith, z))
    ]
port_loop-Stopped (suc k) s cs (suc room) p [] port l r e low same below ahead fuel =
    let stop : (p == null) ≡ true = ground (arith, r) in
    rw stop (returns (refl, inl (r, (low, omega (arith, e), sym same, below))))
port_loop-Stopped (suc k) s cs (suc room) p ((q, c) ∷ rest) port l r e low same below ahead fuel =
    let more : (port == range_end) ≡ false = ne→== port range_end (λ z. omega (arith, z, e)) in
    let here : p ≢ null = λ z. r.1 (sym r.0 ∙ z) in
    rw (ne→== p null here, more, load-eq s r.0 r.1 r.2)
      (elim (Bool-cases (c.local_port == port)) [
        | inl y ↦
            let taken : used port cs ≡ true = sym same ∙ rw y refl in
            let next : u16 (port + 1) ≡ suc port = omega (arith, e) in
            let spent = mul-suc (suc (length cs)) room in
            rw (y, next)
              (port_loop-Stopped k s cs room s.udp_pcbs cs (suc port) l l (omega (arith, e))
                (omega arith) refl (TakenBelow-suc port cs below taken)
                (inl (Linked-head s.cells s.udp_pcbs port cs l taken)) (omega (arith, spent, fuel)))
        | inr n ↦
            let skip : used port ((q, c) ∷ rest) ≡ used port rest = rw n refl in
            rw n (
              port_loop-Stopped k s cs (suc room) c.next rest port l r.3 e low (sym skip ∙ same)
                below (inr (omega arith)) (omega (arith, fuel)))
      ])

-- The search of udp_bind changes nothing and finds the lowest port of the range that no control
-- block has, or none when all are taken; UDP_LOCAL_PORT_RANGE_END itself is not in the range. It
-- needs at most one round for each control block and port.
pub choose_port-Lowest :
    (k : ℕ) (s : Udp) (cs : Pcbs)
    → Linked s.cells s.udp_pcbs cs
    → suc (length cs) * 28671 + length cs < k
    → Returns (λ r t. (t ≡ s) × Lowest cs r) (choose_port k s)
unfolding choose_port
choose_port-Lowest k s cs l fuel =
    Returns-bind
      (port_loop-Stopped k s cs 28671 s.udp_pcbs cs range_start l l refl (omega arith) refl
        (λ q a b. absurd (omega (arith, a, b))) (inr (omega arith)) fuel)
      λ (ipcb, port) t (e, stop). elim stop [
        | inl (z, lowest) ↦
            let end : (ipcb == null) ≡ true = ground (arith, z) in rw end (returns (e, lowest))
        | inr (ne, all) ↦ rw (ne→== ipcb null ne) (returns (e, all))
      ]
