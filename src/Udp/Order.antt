-- ===== src/Udp/Order.antt =====
-- The control blocks of lwip/src/core/udp.c in another order: the move to the front in udp_input.
use ocaml_lwip.Base.{
  ◌≡◌, ◌≢◌, inl, inr, refl, sym, ap, ◌∙◌, Bool, true, false, ◌||◌, Option, some, none, [], ◌∷◌,
  ◌++◌, arith, ◌==◌, ==→eq, ==_self, ne→==, Returns, returns, Bool-cases,
}
use ocaml_lwip.Memp.{Ptr, null}
use ocaml_lwip.Udp.{Udp, UdpPcb, write, move_front}
use ocaml_lwip.Udp.Port.{Pcbs, Linked, load-eq}
use ocaml_lwip.Udp.Bind.{has, Linked-write, cells-write}

-- No control block is on the list twice.
abbrev pub Distinct : Pcbs → Type 0
Distinct [] = Unit {0}
Distinct ((q, c) ∷ cs) = (has q cs ≡ false) × Distinct cs

abbrev pub relink : Ptr → Option UdpPcb → Option UdpPcb
relink n none = none
relink n (some c) = some (record c { next = n })

-- The control blocks of `cs`, perhaps in another order; nothing but `next` differs.
pub record Reordered (s : Udp) (cs : Pcbs) (t : Udp) : Type 0 where
  pub order : Pcbs
  pub linked : Linked t.cells t.udp_pcbs order
  pub distinct : Distinct order
  pub members : (a : Ptr) → has a order ≡ has a cs
  pub fields : (a : Ptr) → (n : Ptr) × (t.cells a ≡ relink n (s.cells a))

pub has-append : (a : Ptr) (xs ys : Pcbs) → has a (xs ++ ys) ≡ has a xs || has a ys
has-append a [] ys = refl
has-append a ((q, c) ∷ xs) ys = elim (Bool-cases (a == q)) [
  | inl y ↦ rw y refl
  | inr n ↦ rw n (has-append a xs ys)
]

pub Distinct-split :
    (xs : Pcbs) (q : Ptr) (c : UdpPcb) (ys : Pcbs)
    → Distinct (xs ++ (q, c) ∷ ys)
    → (has q xs ≡ false) × (has q ys ≡ false) × Distinct (xs ++ ys)
Distinct-split [] q c ys d = (refl, d.0, d.1)
Distinct-split ((r, e) ∷ xs) q c ys d =
    let (out, after, rest) = Distinct-split xs q c ys d.1 in
    let h = has-append r xs ((q, c) ∷ ys) in
    let h' = has-append r xs ys in
    (ground (arith, out, d.0, h), after, (ground (arith, d.0, h, h'), rest))

-- A control block taken out behind `x`.
pub unlink :
    (s : Udp) (p : Ptr) (before : Pcbs) (x : Ptr) (b : UdpPcb) (q : Ptr) (c : UdpPcb) (after : Pcbs)
    → Linked s.cells p (before ++ (x, b) ∷ (q, c) ∷ after)
    → Distinct (before ++ (x, b) ∷ (q, c) ∷ after)
    → Linked
        (write s x (some (record b { next = c.next }))).cells
        p
        (before ++ (x, record b { next = c.next }) ∷ after)
unlink s p [] x b q c after l d =
    let b' : UdpPcb = record b { next = c.next } in
    (
      l.0,
      l.1,
      cells-write s x (some b'),
      Linked-write s x (some b') c.next after l.3.3 (ground (arith, d.0)),
    )
unlink s p ((r, e) ∷ before) x b q c after l d =
    let h = has-append r before ((x, b) ∷ (q, c) ∷ after) in
    let ne : (r == x) ≡ false = ground (arith, d.0, h) in
    (l.0, l.1, rw ne l.2, unlink s e.next before x b q c after l.3 d.1)

relink_self : (o : Option UdpPcb) → (n : Ptr) × (o ≡ relink n o)
relink_self none = (null, refl)
relink_self (some c) = (c.next, refl)

pub Reordered-self :
    (s : Udp) (cs : Pcbs) → Linked s.cells s.udp_pcbs cs → Distinct cs → Reordered s cs s
Reordered-self s cs l d = record {
  order = cs;
  linked = l;
  distinct = d;
  members = λ a. refl;
  fields = λ a. relink_self (s.cells a);
}

pub Linked-at :
    (cells : Ptr → Option UdpPcb) (p : Ptr) (before : Pcbs) (x : Ptr) (b : UdpPcb) (after : Pcbs)
    → Linked cells p (before ++ (x, b) ∷ after)
    → (x ≢ null) × (cells x ≡ some b) × Linked cells b.next after
Linked-at cells p [] x b after l = (l.1, l.2, l.3)
Linked-at cells p ((r, e) ∷ before) x b after l = Linked-at cells e.next before x b after l.3

pub Distinct-insert :
    (xs : Pcbs) (x : Ptr) (b : UdpPcb) (ys : Pcbs)
    → Distinct (xs ++ ys)
    → has x xs ≡ false
    → has x ys ≡ false
    → Distinct (xs ++ (x, b) ∷ ys)
Distinct-insert [] x b ys d out after = (after, d)
Distinct-insert ((r, e) ∷ xs) x b ys d out after =
    let h = has-append r xs ((x, b) ∷ ys) in
    let h' = has-append r xs ys in
    let apart : (r == x) ≡ false = ne→== r x (λ z. ground (arith, out, z)) in
    let rest : has x xs ≡ false = ground (arith, out) in
    (ground (arith, d.0, h, h', apart), Distinct-insert xs x b ys d.1 rest after)

exchange : (p q x r : Bool) → q || (p || (x || r)) ≡ p || (x || (q || r))
exchange true true x r = refl
exchange true false x r = refl
exchange false true true r = refl
exchange false true false r = refl
exchange false false x r = refl

pub move_front-Reordered :
    (s : Udp) (before : Pcbs) (x : Ptr) (b : UdpPcb) (q : Ptr) (c : UdpPcb) (after : Pcbs)
    → Linked s.cells s.udp_pcbs (before ++ (x, b) ∷ (q, c) ∷ after)
    → Distinct (before ++ (x, b) ∷ (q, c) ∷ after)
    → Returns
        (λ _ t. (t.udp_pcbs ≡ q) × Reordered s (before ++ (x, b) ∷ (q, c) ∷ after) t)
        (move_front x q s)
unfolding move_front
move_front-Reordered s before x b q c after l d =
    let (xn, at_x, l_q) = Linked-at s.cells s.udp_pcbs before x b ((q, c) ∷ after) l in
    let (x_before, x_after, d') = Distinct-split before x b ((q, c) ∷ after) d in
    let (q_before, q_after, d'') = Distinct-split before q c after d' in
    let qn : q ≢ null = l_q.1 in
    let at_q : s.cells q ≡ some c = l_q.2 in
    let other : (q == x) ≡ false = ne→== q x (λ z. ground (arith, x_after, z)) in
    let b' : UdpPcb = record b { next = c.next } in
    let s1 : Udp = write s x (some b') in
    let at_q1 : s1.cells q ≡ some c = rw other at_q in
    let c' : UdpPcb = record c { next = s.udp_pcbs } in
    let s2 : Udp = write s1 q (some c') in
    let joined : Pcbs = before ++ (x, b') ∷ after in
    let q_out : has q joined ≡ false =
      ground (arith, has-append q before ((x, b') ∷ after), q_before, q_after, other) in
    let l1 = unlink s s.udp_pcbs before x b q c after l d in
    let l2 = Linked-write s1 q (some c') s.udp_pcbs joined l1 q_out in
    let x_out : has x after ≡ false = ground (arith, x_after) in
    rw (ne→== x null xn, load-eq s refl xn at_x, load-eq s refl qn at_q, load-eq s1 refl qn at_q1)
      (returns (
        refl,
        record {
          order = (q, c') ∷ joined;
          linked = (refl, qn, cells-write s1 q (some c'), l2);
          distinct = (q_out, Distinct-insert before x b' after d'' x_before x_out);
          members = λ a.
              ap (λ z. (a == q) || z) (has-append a before ((x, b') ∷ after))
              ∙ exchange (has a before) (a == q) (a == x) (has a after)
              ∙ sym (has-append a before ((x, b) ∷ (q, c) ∷ after));
          fields = λ a. elim (Bool-cases (a == q)) [
            | inl y ↦ rw (==→eq a q y, at_q, ==_self q) (s.udp_pcbs, refl)
            | inr n ↦ elim (Bool-cases (a == x)) [
              | inl z ↦ rw (n, z, ==→eq a x z, at_x) (c.next, refl)
              | inr m ↦ rw (n, m) (relink_self (s.cells a))
            ]
          ];
        },
      ))
