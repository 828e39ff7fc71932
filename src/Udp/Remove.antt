-- ===== src/Udp/Remove.antt =====
-- udp_remove of lwip/src/core/udp.c.
use ocaml_lwip.Base.{
  ℕ, ◌<◌, ◌≡◌, ◌≢◌, refl, sym, ap, ◌∙◌, true, false, some, none, map, [], ◌∷◌, ◌++◌, length, arith,
  ◌==◌, ne→==, ok, Cmd, Returns, returns, get_or, subst, Returns-mono, ◌⊎◌, inl, inr, append_assoc,
}
use ocaml_lwip.Memp
use ocaml_lwip.Memp.{Ptr, null, Memp}
use ocaml_lwip.Memp.Reuse.{free_eq, with_pool}
use ocaml_lwip.Udp.{Udp, UdpPcb, write, remove, in_memp, memp_udp_pcb}
use ocaml_lwip.Udp.Port.{Pcbs, Linked, load-eq}
use ocaml_lwip.Udp.Bind.{has, Linked-write, cells-write}
use ocaml_lwip.Udp.Unlink.{next_ne, remove_loop-eq}
use ocaml_lwip.Udp.Order.{Distinct, has-append, Distinct-split, Distinct-insert, unlink}

in_memp-eq :
    {A : Type 0} (m : Cmd Memp A) (a : A) (tab : Memp) (s : Udp)
    → m s.memp ≡ ok a tab
    → in_memp m s ≡ ok a (record s { memp = tab })
unfolding in_memp
in_memp-eq m a tab s e = rw (e, in_memp) refl

-- `g` is `s` without the control block `pcb`: the list has the others, in the same order but for
-- `next`, and the block is back in its pool.
pub record Unlinked (s : Udp) (pcb : Ptr) (cs : Pcbs) (g : Udp) : Type 0 where
  pub order : Pcbs
  pub linked : Linked g.cells g.udp_pcbs order
  pub addresses : map (λ (q, c). q) order ≡ map (λ (q, c). q) cs
  pub distinct : Distinct order
  pub gone : g.cells pcb ≡ none
  pub memp : g.memp ≡ with_pool memp_udp_pcb (pcb ∷ get_or s.memp memp_udp_pcb []) s.memp

-- The end of udp_remove.
release :
    (s : Udp) (pcb : Ptr) (cs order : Pcbs)
    → pcb ≢ null
    → 0 < length s.memp
    → Linked s.cells s.udp_pcbs order
    → map (λ (q, c). q) order ≡ map (λ (q, c). q) cs
    → Distinct order
    → has pcb order ≡ false
    → (t : Udp) → t.memp ≡ s.memp
    → Unlinked t pcb cs (
        write
          (record s { memp = with_pool memp_udp_pcb (pcb ∷ get_or s.memp memp_udp_pcb []) s.memp })
          pcb
          none)
release s pcb cs order pn wide l e d out t same = record {
  order = order;
  linked = Linked-write s pcb none s.udp_pcbs order l out;
  addresses = e;
  distinct = d;
  gone = cells-write s pcb none;
  memp = rw same refl;
}

free-eq :
    (s : Udp) (pcb : Ptr)
    → pcb ≢ null
    → 0 < length s.memp
    → in_memp (Memp.free memp_udp_pcb pcb) s
      ≡ ok tt
          (record s { memp = with_pool memp_udp_pcb (pcb ∷ get_or s.memp memp_udp_pcb []) s.memp })
free-eq s pcb pn wide =
    in_memp-eq (Memp.free memp_udp_pcb pcb) tt _ s (free_eq memp_udp_pcb s.memp wide pcb pn)

remove_head :
    (k : ℕ) (s : Udp) (pcb : Ptr) (c : UdpPcb) (after : Pcbs)
    → Linked s.cells s.udp_pcbs ((pcb, c) ∷ after)
    → Distinct ((pcb, c) ∷ after)
    → 0 < length s.memp
    → Returns (λ _ g. Unlinked s pcb after g) (remove k pcb s)
unfolding remove
remove_head k s pcb c after l d wide =
    let s1 : Udp = record s { udp_pcbs = c.next } in
    let head : (s.udp_pcbs == pcb) ≡ true = ground (arith, l.0) in
    rw (head, load-eq s refl l.1 l.2, free-eq s1 pcb l.1 wide)
      (returns (release s1 pcb after after l.1 wide l.3 refl d.1 d.0 s refl))

same_addresses :
    (before : Pcbs) (x : Ptr) (b b' : UdpPcb) (after : Pcbs)
    → map (λ (q, c). q) (before ++ (x, b') ∷ after) ≡ map (λ (q, c). q) (before ++ (x, b) ∷ after)
same_addresses [] x b b' after = refl
same_addresses ((r, e) ∷ before) x b b' after = ap (λ t. r ∷ t) (same_addresses before x b b' after)

remove_later :
    (k : ℕ) (s : Udp) (before : Pcbs) (x : Ptr) (b : UdpPcb) (pcb : Ptr) (c : UdpPcb) (after : Pcbs)
    → Linked s.cells s.udp_pcbs (before ++ (x, b) ∷ (pcb, c) ∷ after)
    → Distinct (before ++ (x, b) ∷ (pcb, c) ∷ after)
    → 0 < length s.memp
    → length (before ++ (x, b) ∷ after) < k
    → Returns (λ _ g. Unlinked s pcb (before ++ (x, b) ∷ after) g) (remove k pcb s)
unfolding remove
remove_later k s before x b pcb c after l d wide fuel =
    let b' : UdpPcb = record b { next = c.next } in
    let s1 : Udp = write s x (some b') in
    let (x_before, x_after, d') = Distinct-split before x b ((pcb, c) ∷ after) d in
    let (out, out_after, d'') = Distinct-split before pcb c after d' in
    let (pn, ahead) = next_ne s.cells s.udp_pcbs before x b pcb c after l d in
    let x_out : has x after ≡ false = ground (arith, x_after) in
    let apart : (pcb == x) ≡ false = ne→== pcb x (λ z. ground (arith, x_after, z)) in
    let gone : has pcb (before ++ (x, b') ∷ after) ≡ false =
      ground (arith, has-append pcb before ((x, b') ∷ after), out, out_after, apart) in
    rw
      (
        ne→== s.udp_pcbs pcb ahead,
        remove_loop-eq k s s.udp_pcbs before x b pcb c after l d fuel,
        free-eq s1 pcb pn wide,
      )
      (returns (
        release s1 pcb (before ++ (x, b) ∷ after) (before ++ (x, b') ∷ after) pn wide
          (unlink s s.udp_pcbs before x b pcb c after l d) (same_addresses before x b b' after)
          (Distinct-insert before x b' after d'' x_before x_out) gone s refl))

last_of :
    (cs : Pcbs)
    → (cs ≡ []) ⊎ ((init : Pcbs) × (x : Ptr) × (b : UdpPcb) × (cs ≡ init ++ (x, b) ∷ []))
last_of [] = inl refl
last_of ((q, c) ∷ cs) = elim (last_of cs) [
  | inl e ↦ inr ([], q, c, ap (λ t. (q, c) ∷ t) e)
  | inr (init, x, b, e) ↦ inr ((q, c) ∷ init, x, b, ap (λ t. (q, c) ∷ t) e)
]

-- udp_remove of a control block on the list, wherever it stands: afterwards the list has the others
-- at the same addresses in the same order, the block is no longer in use, and it is the next one
-- that its pool gives out. The list must have no control block twice, and the pool must exist.
pub remove-Unlinked :
    (k : ℕ) (s : Udp) (before : Pcbs) (pcb : Ptr) (c : UdpPcb) (after : Pcbs)
    → Linked s.cells s.udp_pcbs (before ++ (pcb, c) ∷ after)
    → Distinct (before ++ (pcb, c) ∷ after)
    → 0 < length s.memp
    → length (before ++ after) < k
    → Returns (λ _ g. Unlinked s pcb (before ++ after) g) (remove k pcb s)
remove-Unlinked k s before pcb c after l d wide fuel = elim (last_of before) [
  | inl e ↦
      let full = ap (λ t. t ++ (pcb, c) ∷ after) e in
      Returns-mono
        (remove_head k s pcb c after (subst (Linked s.cells s.udp_pcbs) full l)
          (subst Distinct full d) wide)
        λ u g r. subst (λ t. Unlinked s pcb (t ++ after) g) (sym e) r
  | inr (init, x, b, e) ↦
      let full =
        ap (λ t. t ++ (pcb, c) ∷ after) e ∙ append_assoc init ((x, b) ∷ []) ((pcb, c) ∷ after) in
      let rest = ap (λ t. t ++ after) e ∙ append_assoc init ((x, b) ∷ []) after in
      Returns-mono
        (remove_later k s init x b pcb c after (subst (Linked s.cells s.udp_pcbs) full l)
          (subst Distinct full d) wide (subst (λ t. length t < k) rest fuel))
        λ u g r. subst (λ t. Unlinked s pcb t g) (sym rest) r
]
