-- ===== src/Udp/Demux.antt =====
-- The loop of udp_input of lwip/src/core/udp.c that finds the control block of a datagram.
use ocaml_lwip.Base.{
  ℕ, zero, suc, ◌<◌, ◌≡◌, ◌≢◌, inl, inr, refl, sym, ap, subst, ◌∙◌, Bool, true, false, ◌&&◌, [],
  ◌∷◌, ◌++◌, append_assoc, length, arith, ◌==◌, ==→eq, ne→==, Returns, returns, Returns-mono,
  Returns-bind, Bool-cases, if◌then◌else◌,
}
use ocaml_lwip.Memp.{Ptr, null}
use ocaml_lwip.Udp.{Udp, UdpPcb, Datagram, local_match, full_match, is_free, move_front, demux}
use ocaml_lwip.Udp.Port.{Pcbs, Linked, load-eq}
use ocaml_lwip.Udp.Order.{Distinct, Reordered, Reordered-self, move_front-Reordered}

-- The first control block that passes a test, NULL where none does.
abbrev pub find : (UdpPcb → Bool) → Pcbs → Ptr
find test [] = null
find test ((q, c) ∷ cs) = if test c then q else find test cs

abbrev pub or_else : Ptr → Ptr → Ptr
or_else p q = if p == null then q else p

abbrev pub unconnected : Datagram → UdpPcb → Bool
unconnected d c = local_match d c && is_free c

or_else-null : (p : Ptr) → p ≡ or_else p null
or_else-null p = elim (Bool-cases (p == null)) [
  | inl y ↦ rw (y, ==→eq p null y) refl
  | inr n ↦ rw n refl
]

-- The first unconnected match is remembered once.
or_else-remember :
    (m f : Bool) (uncon q r : Ptr)
    → q ≢ null
    → or_else (if m && (uncon == null) && f then q else uncon) r
      ≡ or_else uncon (if m && f then q else r)
or_else-remember false f uncon q r ne = refl
or_else-remember true true uncon q r ne = elim (Bool-cases (uncon == null)) [
  | inl y ↦ rw (y, ne→== q null ne) refl
  | inr n ↦ rw (n, n) refl
]
or_else-remember true false uncon q r ne = elim (Bool-cases (uncon == null)) [
  | inl y ↦ rw (y, y) refl
  | inr n ↦ rw (n, n) refl
]

-- The result is `full` or else `other`; `full`, if any, is at the head of the list.
abbrev pub Picked : Udp → Pcbs → (full other : Ptr) → Ptr → Udp → Type 0
Picked s cs full other r t =
    (r ≡ or_else full other) × (full ≢ null → t.udp_pcbs ≡ full) × Reordered s cs t

demux_later :
    (k : ℕ) (s : Udp) (d : Datagram) (before : Pcbs) (x : Ptr) (b : UdpPcb) (p : Ptr) (rest : Pcbs)
    (uncon : Ptr)
    → Linked s.cells s.udp_pcbs (before ++ (x, b) ∷ rest)
    → Distinct (before ++ (x, b) ∷ rest)
    → Linked s.cells p rest
    → length rest < k
    → Returns
        (Picked s
          (before ++ (x, b) ∷ rest)
          (find (full_match d) rest)
          (or_else uncon (find (unconnected d) rest)))
        (demux k d p x uncon s)
unfolding demux
demux_later zero s d before x b p rest uncon l u r fuel = absurd (omega arith)
demux_later (suc k) s d before x b p [] uncon l u r fuel =
    let end : (p == null) ≡ true = ground (arith, r) in
    rw end (
      returns (
        or_else-null uncon,
        (λ ne. absurd (ne refl)),
        Reordered-self s (before ++ (x, b) ∷ []) l u,
      ))
demux_later (suc k) s d before x b p ((q, c) ∷ after) uncon l u r fuel =
    rw (r.0, ne→== q null r.1, load-eq s refl r.1 r.2)
      (elim (Bool-cases (full_match d c)) [
        | inl y ↦ rw y (
            Returns-bind (move_front-Reordered s before x b q c after l u)
              λ _ t w. returns (rw (ne→== q null r.1) refl, (λ _. w.0), w.1))
        | inr n ↦
            let assoc = append_assoc before ((x, b) ∷ []) ((q, c) ∷ after) in
            let l' = subst (Linked s.cells s.udp_pcbs) (sym assoc) l in
            let u' = subst Distinct (sym assoc) u in
            let uncon' : Ptr =
              if local_match d c && (uncon == null) && is_free c then q else uncon in
            let same =
              or_else-remember (local_match d c) (is_free c) uncon q (find (unconnected d) after)
                r.1 in
            rw n (
              Returns-mono
                (demux_later k s d (before ++ (x, b) ∷ []) q c c.next after uncon' l' u' r.3
                  (omega (arith, fuel)))
                λ r t (picked, front, order). (
                  picked ∙ ap (or_else (find (full_match d) after)) same,
                  front,
                  subst (λ z. Reordered s z t) assoc order,
                ))
      ])

-- The control block for a datagram is the first on the list that matches both ends or, if there is
-- none, the first unconnected one that matches the local end, or NULL. One that matches both ends is
-- at the head of the list afterwards; the list has the same control blocks, none twice, and nothing
-- but `next` has changed in any. The list must have no control block twice.
pub demux-Picked :
    (k : ℕ) (s : Udp) (d : Datagram) (cs : Pcbs)
    → Linked s.cells s.udp_pcbs cs
    → Distinct cs
    → length cs < k
    → Returns
        (Picked s cs (find (full_match d) cs) (find (unconnected d) cs))
        (demux k d s.udp_pcbs null null s)
unfolding demux move_front
demux-Picked zero s d cs l u fuel = absurd (omega arith)
demux-Picked (suc k) s d [] l u fuel =
    let end : (s.udp_pcbs == null) ≡ true = ground (arith, l) in
    rw end (returns (refl, (λ ne. absurd (ne refl)), Reordered-self s [] l u))
demux-Picked (suc k) s d ((q, c) ∷ after) l u fuel =
    let here : s.udp_pcbs ≢ null = λ z. l.1 (sym l.0 ∙ z) in
    rw (ne→== s.udp_pcbs null here, load-eq s l.0 l.1 l.2)
      (elim (Bool-cases (full_match d c)) [
        | inl y ↦ rw y (
            returns
              (l.0 ∙ rw (ne→== q null l.1) refl, (λ _. l.0), Reordered-self s ((q, c) ∷ after) l u))
        | inr n ↦
            let uncon : Ptr → Ptr =
              λ z. if local_match d c && (null == null) && is_free c then z else null in
            let result : Ptr → Udp → Type 0 = λ r t.
              Picked s ((q, c) ∷ after) (find (full_match d) after)
                (find (unconnected d) ((q, c) ∷ after)) r t in
            let same =
              or_else-remember (local_match d c) (is_free c) null q (find (unconnected d) after)
                l.1 in
            rw n (
              subst (λ z. Returns result (demux k d c.next z (uncon z) s)) (sym l.0)
                (Returns-mono
                  (demux_later k s d [] q c c.next after (uncon q) l u l.3 (omega (arith, fuel)))
                  λ r t (picked, front, order).
                    (picked ∙ ap (or_else (find (full_match d) after)) same, front, order)))
      ])
