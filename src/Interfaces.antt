-- ===== src/Interfaces.antt =====
-- The primitives of lib/lwip_stubs.c for interfaces, timers and the start, over the interfaces of
-- lwip/src/core/netif.c. An OCaml value of an interface is the address in its custom block. What is
-- not under this model is a parameter: mintapif_init, ethernet_input, mintapif_select and the
-- timers of the stack, on the interfaces.
mod Tests
use ocaml_lwip.Base.{
  ℕ, ◌≡◌, ◌≢◌, refl, some, none, List, [], ◌∷◌, Cmd, ok, fault, ◌>>=◌, ◌>>◌, pure, Err, Returns,
  returns, Returns-bind, among, false, true, arith, ◌==◌, if◌then◌else◌, ne→==, ==_self, sym, ◌∙◌,
  Option, zero, suc, ◌<◌, length,
}
use ocaml_lwip.Memp.{Ptr, null}
use ocaml_lwip.Netif
use ocaml_lwip.Netif.{Net, Netif, Pcbs, store, with_netif}
use ocaml_lwip.Netif.Add.{Starts, add-Linked}
use ocaml_lwip.Netif.Remove.{Linked, Linked-frame, among_ne}
use ocaml_lwip.Stubs.Calls.{ip4_addr}

-- The four parts of an address, as the OCaml tuple has them.
pub record Quad : Type 0 where
  pub a : ℕ
  pub b : ℕ
  pub c : ℕ
  pub d : ℕ

abbrev pub quad_addr : Quad → ℕ
quad_addr q = ip4_addr q.a q.b q.c q.d

module _ (tcp_abort : Ptr → Pcbs → Pcbs) (mintapif_init : Ptr → Cmd Net Err)
    (ethernet_input : Ptr) where
  -- `netif` is the address that caml_stat_alloc gives, `junk` what the memory there holds.
  pub netif_new : (netif : Ptr) → Netif → Quad → Quad → Quad → Cmd Net Ptr
  netif_new netif junk ip netmask gw = do
    store netif junk
    p ←
        Netif.add tcp_abort netif (quad_addr ip) (quad_addr netmask) (quad_addr gw) null
          mintapif_init ethernet_input
    pure netif

-- free() of the structure, when the OCaml value is collected.
pub netif_finalize : Ptr → Cmd Net (Unit {0})
netif_finalize netif s = ok tt (record s { netifs = λ a. if a == netif then none else s.netifs a })

pub netif_set_default : Ptr → Cmd Net (Unit {0})
netif_set_default netif = Netif.set_default netif

pub netif_set_up : Ptr → Cmd Net (Unit {0})
netif_set_up netif = Netif.set_up netif

-- mintapif_select, the timers tcp_tmr, ip_reass_tmr and etharp_tmr, and lwip_init, on a state that
-- has the whole stack.
module _ {S : Type 0} where
  pub netif_select : (mintapif_select : Ptr → Cmd S ℕ) → Ptr → Cmd S ℕ
  netif_select mintapif_select netif = mintapif_select netif

  pub timer_tcp : (tcp_tmr : Cmd S (Unit {0})) → Cmd S (Unit {0})
  timer_tcp tcp_tmr = tcp_tmr >> pure tt

  pub timer_ip_reass : (ip_reass_tmr : Cmd S (Unit {0})) → Cmd S (Unit {0})
  timer_ip_reass ip_reass_tmr = ip_reass_tmr >> pure tt

  pub timer_etharp : (etharp_tmr : Cmd S (Unit {0})) → Cmd S (Unit {0})
  timer_etharp etharp_tmr = etharp_tmr >> pure tt

  -- The name under which OCaml registers the exception is looked up as well.
  pub lwip_init : (init : Cmd S (Unit {0})) → Cmd S (Unit {0})
  lwip_init init = init >> pure tt

module _ (tcp_abort : Ptr → Pcbs → Pcbs) (mintapif_init : Ptr → Cmd Net Err)
    (ethernet_input : Ptr) where
  -- caml_netif_new at a fresh address: the interface is the first of the list, before the ones that
  -- were there in their order, and the others and the default are as before. The list is sound, and
  -- the driver's start function succeeds without touching the other interfaces.
  pub netif_new-Linked :
      (s : Net) (netif : Ptr) (junk : Netif) (l : List Ptr) (ip netmask gw : Quad)
      → Linked s s.netif_list l
      → among netif l ≡ false
      → (ne : netif ≢ null) → Starts tcp_abort netif ne mintapif_init
      → Returns
          (λ p g.
            (p ≡ netif)
            × Linked g g.netif_list (netif ∷ l)
            × (g.netif_default ≡ s.netif_default)
            × ((a : Ptr) → a ≢ netif → g.netifs a ≡ s.netifs a))
          (netif_new tcp_abort mintapif_init ethernet_input netif junk ip netmask gw s)
  unfolding netif_new store
  netif_new-Linked s netif junk l ip netmask gw c fresh ne starts =
      let s' : Net = with_netif s netif junk in
      let same : (a : Ptr) → a ≢ netif → s'.netifs a ≡ s.netifs a =
        λ a an. rw (ne→== a netif an) refl in
      Returns-bind
        (add-Linked tcp_abort netif ne s' junk l (quad_addr ip) (quad_addr netmask) (quad_addr gw)
          null ethernet_input mintapif_init (rw (==_self netif) refl)
          (Linked-frame s s' s.netif_list l c
            (λ a m. let d : (a == netif) ≡ false = among_ne a netif l m fresh in rw d refl))
          fresh starts)
        (λ p g (back, list, deflt, others).
          returns (refl, list, deflt, λ a an. others a an ∙ same a an))

  -- An interface whose OCaml value is collected is freed and stays in the list of interfaces: once
  -- caml_netif_new has made it at a fresh address, with a sound list and a driver that starts, and
  -- netif_finalize has run, netif_find reads freed memory, whatever name it looks for.
  pub finalize_dangling :
      (s : Net) (netif : Ptr) (junk : Netif) (l : List Ptr) (ip netmask gw : Quad)
      → Linked s s.netif_list l
      → among netif l ≡ false
      → (ne : netif ≢ null) → Starts tcp_abort netif ne mintapif_init
      → Returns
          (λ _ g. (k : ℕ) (name : ℕ × ℕ) (digit : ℕ) → Netif.find (suc k) name digit g ≡ fault)
          ((netif_new tcp_abort mintapif_init ethernet_input netif junk ip netmask gw
              >>= netif_finalize)
            s)
  unfolding netif_finalize Netif.find Netif.load
  finalize_dangling s netif junk l ip netmask gw c fresh ne starts =
      Returns-bind (netif_new-Linked s netif junk l ip netmask gw c fresh ne starts)
        (λ p g (same, list, deflt, others).
          let first : g.netif_list ≡ p = list.0 ∙ sym same in
          let there : (p == null) ≡ false = ne→== p null (λ e. ne (sym same ∙ e)) in
          returns (λ k name digit. rw (first, there, ==_self p, there) refl))
