-- ===== src/Udp/Bind.antt =====
-- udp_bind of lwip/src/core/udp.c, for a control block that is not on the list.
use ocaml_lwip.Base.{
  ℕ, zero, suc, ◌+◌, ◌*◌, ◌<◌, ◌≡◌, ◌≢◌, ◌⊎◌, inl, inr, refl, sym, ◌∙◌, Bool, true, false, ◌||◌,
  Option, some, none, [], ◌∷◌, length, arith, ◌==◌, ==→eq, ==_self, ne→==, ok, Returns, returns,
  Returns-bind, Returns-mono, Err, err_ok, err_code, Bool-cases,
}
use ocaml_lwip.Memp.{Ptr, null}
use ocaml_lwip.Udp.{Udp, UdpPcb, write, rebind_loop, activate, insert, bind}
use ocaml_lwip.Udp.Port.{Pcbs, Linked, Lowest, load-eq, choose_port-Lowest}

abbrev pub has : Ptr → Pcbs → Bool
has a [] = false
has a ((p, c) ∷ cs) = (a == p) || has a cs

-- A write outside the list.
pub Linked-write :
    (s : Udp) (pcb : Ptr) (x : Option UdpPcb) (p : Ptr) (cs : Pcbs)
    → Linked s.cells p cs
    → has pcb cs ≡ false
    → Linked (write s pcb x).cells p cs
Linked-write s pcb x p [] l out = l
Linked-write s pcb x p ((q, c) ∷ cs) l out =
    let ne : (q == pcb) ≡ false = ne→== q pcb (λ e. ground (arith, out, e)) in
    let rest : has pcb cs ≡ false = ground (arith, out) in
    (l.0, l.1, rw ne l.2, Linked-write s pcb x c.next cs l.3 rest)

rebind_loop-eq :
    (k : ℕ) (s : Udp) (pcb p : Ptr) (cs : Pcbs)
    → Linked s.cells p cs
    → has pcb cs ≡ false
    → length cs < k
    → rebind_loop k pcb p false s ≡ ok false s
unfolding rebind_loop
rebind_loop-eq zero s pcb p cs l out fuel = absurd (omega arith)
rebind_loop-eq (suc k) s pcb p [] l out fuel =
    let end : (p == null) ≡ true = ground (arith, l) in rw end refl
rebind_loop-eq (suc k) s pcb p ((q, c) ∷ cs) l out fuel =
    let here : p ≢ null = λ z. l.1 (sym l.0 ∙ z) in
    let other : (pcb == p) ≡ false = ne→== pcb p (λ e. ground (arith, out, e, l.0)) in
    let rest : has pcb cs ≡ false = ground (arith, out) in
    rw (ne→== p null here, load-eq s l.0 l.1 l.2, other)
      (rebind_loop-eq k s pcb c.next cs l.3 rest (omega (arith, fuel)))

-- The port asked for, or for 0 the lowest free one.
abbrev pub Wanted : (port : ℕ) → Pcbs → Option ℕ → Type 0
Wanted port cs chosen = ((port ≡ 0) × Lowest cs chosen) ⊎ ((port ≢ 0) × (chosen ≡ some port))

abbrev pub bound : UdpPcb → (ipaddr port : ℕ) → (next : Ptr) → UdpPcb
bound c ipaddr port next = record c { local_ip = ipaddr; local_port = port; next = next }

-- What udp_bind returns and leaves, by the port it has chosen.
abbrev pub Bound : Udp → Pcbs → Ptr → UdpPcb → (ipaddr : ℕ) → Option ℕ → Err → Udp → Type 0
Bound s cs pcb c ipaddr none err t = (err ≡ err_code 11) × Linked t.cells t.udp_pcbs cs
Bound s cs pcb c ipaddr (some port) err t =
    (err ≡ err_ok) × Linked t.cells t.udp_pcbs ((pcb, bound c ipaddr port s.udp_pcbs) ∷ cs)

pub cells-write : (s : Udp) (p : Ptr) (x : Option UdpPcb) → (write s p x).cells p ≡ x
cells-write s p x = rw (==_self p) refl

activate-Bound :
    (s : Udp) (cs : Pcbs) (pcb : Ptr) (c : UdpPcb) (ipaddr : ℕ)
    → Linked s.cells s.udp_pcbs cs
    → pcb ≢ null
    → has pcb cs ≡ false
    → (chosen : Option ℕ)
    → Returns
        (Bound s cs pcb c ipaddr chosen)
        (activate pcb false chosen (write s pcb (some (record c { local_ip = ipaddr }))))
unfolding activate insert
activate-Bound s cs pcb c ipaddr l ne out none =
    returns (refl, Linked-write s pcb (some (record c { local_ip = ipaddr })) s.udp_pcbs cs l out)
activate-Bound s cs pcb c ipaddr l ne out (some port) =
    let c1 : UdpPcb = record c { local_ip = ipaddr } in
    let c2 : UdpPcb = record c1 { local_port = port } in
    let c3 : UdpPcb = record c2 { next = s.udp_pcbs } in
    let s1 : Udp = write s pcb (some c1) in
    let s2 : Udp = write s1 pcb (some c2) in
    let l1 = Linked-write s pcb (some c1) s.udp_pcbs cs l out in
    let l2 = Linked-write s1 pcb (some c2) s.udp_pcbs cs l1 out in
    let l3 = Linked-write s2 pcb (some c3) s.udp_pcbs cs l2 out in
    rw
      (
        load-eq s1 refl ne (cells-write s pcb (some c1)),
        load-eq s2 refl ne (cells-write s1 pcb (some c2)),
      )
      (returns (refl, (refl, ne, cells-write s2 pcb (some c3), l3)))

-- udp_bind of a control block that is not yet on the list: the port is the one asked for, whoever
-- has it already, or, for 0, the lowest from UDP_LOCAL_PORT_RANGE_START to below
-- UDP_LOCAL_PORT_RANGE_END that no control block on the list has. The block is then at the head of
-- the list, with the address and the port, before the others, which are as they were. When no port
-- is left, the result is ERR_USE, and the list is as it was.
pub bind-Bound :
    (k : ℕ) (s : Udp) (cs : Pcbs) (pcb : Ptr) (c : UdpPcb) (ipaddr port : ℕ)
    → Linked s.cells s.udp_pcbs cs
    → pcb ≢ null
    → s.cells pcb ≡ some c
    → has pcb cs ≡ false
    → suc (length cs) * 28671 + length cs < k
    → Returns
        (λ err t.
          (chosen : Option ℕ) × Wanted port cs chosen × Bound s cs pcb c ipaddr chosen err t)
        (bind k pcb ipaddr port s)
unfolding bind
bind-Bound k s cs pcb c ipaddr port l ne at out fuel =
    let t : Udp = write s pcb (some (record c { local_ip = ipaddr })) in
    let lt : Linked t.cells t.udp_pcbs cs =
      Linked-write s pcb (some (record c { local_ip = ipaddr })) s.udp_pcbs cs l out in
    let finish = activate-Bound s cs pcb c ipaddr l ne out in
    rw (rebind_loop-eq k s pcb s.udp_pcbs cs l out (omega (arith, fuel)), load-eq s refl ne at)
      (elim (Bool-cases (port == 0)) [
        | inl y ↦ rw y (
            Returns-bind (choose_port-Lowest k t cs lt fuel) λ chosen g w.
              rw w.0
                (Returns-mono (finish chosen) λ err h b. (chosen, inl (==→eq port 0 y, w.1), b)))
        | inr n ↦
            let other : port ≢ 0 = λ z. ground (arith, n, z) in
            rw n (Returns-mono (finish (some port)) λ err h b. (some port, inr (other, refl), b))
      ])
