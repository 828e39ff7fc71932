-- ===== src/Udp/Unlink.antt =====
-- The loop of udp_remove of lwip/src/core/udp.c.
use ocaml_lwip.Base.{
  ℕ, zero, suc, ◌<◌, ◌≡◌, ◌≢◌, refl, sym, ◌∙◌, true, false, ◌&&◌, Option, some, [], ◌∷◌, ◌++◌,
  length, arith, ◌==◌, ne→==, ok,
}
use mathlib.Core.Bool.{not}
use ocaml_lwip.Memp.{Ptr, null}
use ocaml_lwip.Udp.{Udp, UdpPcb, write, remove_loop}
use ocaml_lwip.Udp.Port.{Pcbs, Linked, load-eq}
use ocaml_lwip.Udp.Bind.{has, Linked-write, cells-write}
use ocaml_lwip.Udp.Order.{Distinct, has-append}

-- A pointer into a list is not the address of a block outside it.
Linked-ne :
    (cells : Ptr → Option UdpPcb) (n pcb : Ptr) (cs : Pcbs)
    → Linked cells n cs
    → has pcb cs ≡ false
    → pcb ≢ null
    → n ≢ pcb
Linked-ne cells n pcb [] l out ne e = ne (sym e ∙ l)
Linked-ne cells n pcb ((q, c) ∷ cs) l out ne e = ground (arith, out, l.0, e)

-- Behind the place the loop changes nothing.
remove_loop-rest :
    (k : ℕ) (s : Udp) (pcb p : Ptr) (cs : Pcbs)
    → Linked s.cells p cs
    → has pcb cs ≡ false
    → pcb ≢ null
    → length cs < k
    → remove_loop k pcb p s ≡ ok tt s
unfolding remove_loop
remove_loop-rest zero s pcb p cs l out pn fuel = absurd (omega arith)
remove_loop-rest (suc k) s pcb p [] l out pn fuel =
    let end : (p == null) ≡ true = ground (arith, l) in rw end refl
remove_loop-rest (suc k) s pcb p ((q, c) ∷ cs) l out pn fuel =
    let here : p ≢ null = λ z. l.1 (sym l.0 ∙ z) in
    let rest : has pcb cs ≡ false = ground (arith, out) in
    let ahead : c.next ≢ pcb = Linked-ne s.cells c.next pcb cs l.3 rest pn in
    let skip : (not (c.next == null) && (c.next == pcb)) ≡ false = ground (arith, ahead) in
    rw (ne→== p null here, load-eq s l.0 l.1 l.2, skip, load-eq s l.0 l.1 l.2)
      (remove_loop-rest k s pcb c.next cs l.3 rest pn (omega (arith, fuel)))

-- Nothing before `x` leads to the block behind it.
pub next_ne :
    (cells : Ptr → Option UdpPcb) (n : Ptr) (before : Pcbs) (x : Ptr) (b : UdpPcb) (pcb : Ptr)
    (c : UdpPcb) (after : Pcbs)
    → Linked cells n (before ++ (x, b) ∷ (pcb, c) ∷ after)
    → Distinct (before ++ (x, b) ∷ (pcb, c) ∷ after)
    → (pcb ≢ null) × (n ≢ pcb)
next_ne cells n [] x b pcb c after l d = (l.3.1, λ z. ground (arith, d.0, l.0, z))
next_ne cells n ((r, e) ∷ before) x b pcb c after l d =
    let (pn, ahead) = next_ne cells e.next before x b pcb c after l.3 d.1 in
    let h = has-append r before ((x, b) ∷ (pcb, c) ∷ after) in
    (pn, λ z. ground (arith, d.0, h, l.0, z))

-- The block ahead of `pcb` is linked past it.
pub remove_loop-eq :
    (k : ℕ) (s : Udp) (p : Ptr) (before : Pcbs) (x : Ptr) (b : UdpPcb) (pcb : Ptr) (c : UdpPcb)
    (after : Pcbs)
    → Linked s.cells p (before ++ (x, b) ∷ (pcb, c) ∷ after)
    → Distinct (before ++ (x, b) ∷ (pcb, c) ∷ after)
    → length (before ++ (x, b) ∷ after) < k
    → remove_loop k pcb p s ≡ ok tt (write s x (some (record b { next = c.next })))
unfolding remove_loop
remove_loop-eq zero s p before x b pcb c after l d fuel = absurd (omega arith)
remove_loop-eq (suc k) s p [] x b pcb c after l d fuel =
    let here : p ≢ null = λ z. l.1 (sym l.0 ∙ z) in
    let b' : UdpPcb = record b { next = c.next } in
    let pn : pcb ≢ null = l.3.1 in
    let found : (not (b.next == null) && (b.next == pcb)) ≡ true = ground (arith, pn, l.3.0) in
    let other : (x == pcb) ≡ false = ground (arith, d.0) in
    let out : has pcb after ≡ false = d.1.0 in
    let x_out : has x after ≡ false = ground (arith, d.0) in
    rw
      (
        l.0,
        ne→== x null l.1,
        load-eq s refl l.1 l.2,
        found,
        load-eq s refl pn l.3.2,
        load-eq (write s x (some b')) refl l.1 (cells-write s x (some b')),
      )
      (remove_loop-rest k (write s x (some b')) pcb c.next after
        (Linked-write s x (some b') c.next after l.3.3 x_out) out pn (omega (arith, fuel)))
remove_loop-eq (suc k) s p ((r, e) ∷ before) x b pcb c after l d fuel =
    let here : p ≢ null = λ z. l.1 (sym l.0 ∙ z) in
    let (pn, ahead) = next_ne s.cells e.next before x b pcb c after l.3 d.1 in
    let skip : (not (e.next == null) && (e.next == pcb)) ≡ false = ground (arith, ahead) in
    rw (ne→== p null here, load-eq s l.0 l.1 l.2, skip, load-eq s l.0 l.1 l.2)
      (remove_loop-eq k s e.next before x b pcb c after l.3 d.1 (omega (arith, fuel)))
