-- ===== src/Netif/Add.antt =====
-- netif_add of lwip/src/core/netif.c: the list of interfaces.
use ocaml_lwip.Base.{
  u8, ℕ, ◌+◌, ◌≡◌, refl, ◌≢◌, false, some, List, ◌∷◌, arith, Returns, returns, Returns-mono,
  Returns-bind, among, ◌==◌, Bool-cases, inl, inr, ==_self, ne→==, Err, err_ok, Cmd, ◌>>◌, ◌∙◌,
}
use ocaml_lwip.Memp.{Ptr, null}
use ocaml_lwip.Netif.{
  Net, Netif, Pcbs, store, with_netif, set_ipaddr, set_netmask, set_gw, set_addr, add, readdress,
}
use ocaml_lwip.Netif.Remove.{Linked, Linked-frame, load-eq, among_ne}

-- `g` is `s` but for the interface `netif`, which is `n`, and for TCP's control blocks.
pub record Only (s : Net) (netif : Ptr) (n : Netif) (g : Net) : Type 0 where
  pub here : g.netifs netif ≡ some n
  pub others : (a : Ptr) → a ≢ netif → g.netifs a ≡ s.netifs a
  pub same_list : g.netif_list ≡ s.netif_list
  pub same_default : g.netif_default ≡ s.netif_default

module _ (tcp_abort : Ptr → Pcbs → Pcbs) (netif : Ptr) (ne : netif ≢ null) where
  kept : (u : Net) (m : Netif) → (with_netif u netif m).netifs netif ≡ some m
  kept u m = rw (==_self netif) refl

  spared :
      (u : Net) (m : Netif) (a : Ptr) → a ≢ netif → (with_netif u netif m).netifs a ≡ u.netifs a
  spared u m a an = rw (ne→== a netif an) refl

  -- The mask and the gateway, after the address.
  rest-Only :
      (u : Net) (m : Netif) (netmask gw : ℕ)
      → Returns
          (λ _ g. Only u netif (record m { netmask = netmask; gw = gw }) g)
          ((set_netmask netif netmask >> set_gw netif gw) (with_netif u netif m))
  unfolding set_netmask set_gw store
  rest-Only u m netmask gw =
      let u1 = with_netif u netif m in
      let m2 = record m { netmask = netmask } in
      let u2 = with_netif u1 netif m2 in
      let m3 = record m2 { gw = gw } in
      rw (load-eq u1 netif m ne (kept u m), load-eq u2 netif m2 ne (kept u1 m2))
        (returns (record {
          here = kept u2 m3;
          others = λ a an. spared u2 m3 a an ∙ spared u1 m2 a an ∙ spared u m a an;
          same_list = refl;
          same_default = refl;
        }))

  set_addr-Only :
      (s : Net) (n : Netif) (ipaddr netmask gw : ℕ)
      → s.netifs netif ≡ some n
      → Returns
          (λ _ g. Only s netif (record n { ip_addr = ipaddr; netmask = netmask; gw = gw }) g)
          (set_addr tcp_abort netif ipaddr netmask gw s)
  unfolding set_addr set_ipaddr store
  set_addr-Only s n ipaddr netmask gw at = elim (Bool-cases (ipaddr == n.ip_addr)) [
    | inl same ↦
        rw (load-eq s netif n ne at, same) (rest-Only s (record n { ip_addr = ipaddr }) netmask gw)
    | inr new ↦
        let s' = record s { pcbs = readdress tcp_abort n.ip_addr ipaddr s.pcbs } in
        rw (load-eq s netif n ne at, new)
          (Returns-mono (rest-Only s' (record n { ip_addr = ipaddr }) netmask gw) λ _ g f. record {
            here = f.here;
            others = f.others;
            same_list = f.same_list;
            same_default = f.same_default;
          })
  ]

  -- A driver's start function that succeeds and changes no interface but its own, nor the list.
  abbrev pub Starts : (Ptr → Cmd Net Err) → Type 0
  Starts init =
      (s : Net) (n : Netif)
      → s.netifs netif ≡ some n
      → Returns (λ e g. (e ≡ err_ok) × ((m : Netif) × Only s netif m g)) (init netif s)

  -- netif_add puts the interface at the head of the list, before the ones that were there in their
  -- order, leaves the others and the default alone, and returns it. It was not in the list, the list is
  -- sound, and the driver's start function succeeds without touching the other interfaces.
  pub add-Linked :
      (s : Net) (n : Netif) (l : List Ptr) (ipaddr netmask gw state input : ℕ)
      (init : Ptr → Cmd Net Err)
      → s.netifs netif ≡ some n
      → Linked s s.netif_list l
      → among netif l ≡ false
      → Starts init
      → Returns
          (λ p g.
            (p ≡ netif)
            × Linked g g.netif_list (netif ∷ l)
            × (g.netif_default ≡ s.netif_default)
            × ((a : Ptr) → a ≢ netif → g.netifs a ≡ s.netifs a))
          (add tcp_abort netif ipaddr netmask gw state init input s)
  unfolding add store
  add-Linked s n l ipaddr netmask gw state input init at c fresh starts =
      rw (load-eq s netif n ne at) (
        Returns-bind
          (set_addr-Only (record (with_netif s netif blank) { netifnum = u8 (s.netifnum + 1) })
            blank ipaddr netmask gw (kept s blank))
          λ _ g f. Returns-bind (starts g _ f.here) λ e g' (fine, (m, f')).
            let linked = record m { next = g'.netif_list } in
            let same : (a : Ptr) → a ≢ netif → (with_netif g' netif linked).netifs a ≡ s.netifs a =
              λ a an.
                spared g' linked a an ∙ f'.others a an ∙ f.others a an ∙ spared s blank a an in
            rw (fine, load-eq g' netif m ne f'.here)
              (returns (
                refl,
                (
                  refl,
                  ne,
                  (
                    linked,
                    kept g' linked,
                    Linked-frame s (record (with_netif g' netif linked) { netif_list = netif })
                        g'.netif_list l (rw (f'.same_list, f.same_list) c)
                        (λ a m. same a (
                          let d : (a == netif) ≡ false = among_ne a netif l m fresh in
                          ground (arith, d))),
                  ),
                ),
                f'.same_default ∙ f.same_default,
                same,
              )))
    where
      blank : Netif
      blank = record n {
        ip_addr = 0;
        netmask = 0;
        gw = 0;
        state = state;
        input = input;
        up = false;
        broadcast = false;
        etharp = false;
        num = s.netifnum;
      }
