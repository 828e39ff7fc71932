-- ===== src/Netif/Remove.antt =====
-- netif_remove of lwip/src/core/netif.c: the list of interfaces.
use ocaml_lwip.Base.{
  ℕ, zero, suc, ◌<◌, ◌≡◌, refl, ◌≢◌, Bool, true, false, Option, none, some, List, [], ◌∷◌, ◌&&◌,
  arith, Returns, returns, pure, ◌>>=◌, Returns-mono, Returns-bind, ok, length, among, ◌==◌,
  if◌then◌else◌, Bool-cases, inl, inr, ==_self, ne→==, ==→eq, sym, ap, ◌∙◌,
}
use ocaml_lwip.Memp.{Ptr, null}
use ocaml_lwip.Netif.{Net, Netif, load, store, with_netif, remove_loop, remove, set_default, get}

-- From `p` the `next` pointers lead through `l` to NULL.
abbrev pub Linked : Net → Ptr → List Ptr → Type 0
Linked s p [] = p ≡ null
Linked s p (q ∷ l) =
    (p ≡ q) × (q ≢ null) × ((n : Netif) × (s.netifs q ≡ some n) × Linked s n.next l)

abbrev pub NoRepeat : List Ptr → Type 0
NoRepeat [] = Unit {0}
NoRepeat (q ∷ l) = (among q l ≡ false) × NoRepeat l

abbrev pub without : Ptr → List Ptr → List Ptr
without a [] = []
without a (q ∷ l) = if a == q then l else q ∷ without a l

pub load-eq : (s : Net) (p : Ptr) (n : Netif) → p ≢ null → s.netifs p ≡ some n → load p s ≡ ok n s
unfolding load
load-eq s p n ne e = rw (ne→== p null ne, e)

pub Linked-frame :
    (s g : Net) (p : Ptr) (l : List Ptr)
    → Linked s p l
    → ((a : Ptr) → among a l ≡ true → g.netifs a ≡ s.netifs a)
    → Linked g p l
Linked-frame s g p [] c same = c
Linked-frame s g p (q ∷ l) c same =
    let (n, at, rest) = c.2 in
    (
      c.0,
      c.1,
      (
        n,
        same q (rw (==_self q)) ∙ at,
        Linked-frame s g n.next l rest (λ a m. same a (ground (arith, m))),
      ),
    )

pub among_ne : (a q : Ptr) (l : List Ptr) → among a l ≡ true → among q l ≡ false → (a == q) ≡ false
among_ne a q l i out = elim (Bool-cases (a == q)) [
  | inl e ↦ let same : among a l ≡ false = rw (==→eq a q e) out in absurd (ground (arith, i, same))
  | inr ne ↦ ne
]

abbrev pub relink : Ptr → Option Netif → Option Netif
relink next none = none
relink next (some n) = some (record n { next = next })

-- No interface has changed but in `next`, and nothing else of the state has but the list's head and
-- the default.
pub record Kept (s g : Net) : Type 0 where
  pub fields : (a : Ptr) → (next : Ptr) × (g.netifs a ≡ relink next (s.netifs a))
  pub pcbs : g.pcbs ≡ s.pcbs
  pub netifnum : g.netifnum ≡ s.netifnum
  pub announced : g.announced ≡ s.announced

relink_self : (o : Option Netif) → (next : Ptr) × (o ≡ relink next o)
relink_self none = (null, refl)
relink_self (some n) = (n.next, refl)

Kept-self : (s : Net) → Kept s s
Kept-self s = record {
  fields = λ a. relink_self (s.netifs a);
  pcbs = refl;
  netifnum = refl;
  announced = refl;
}

Kept-relinked :
    (s : Net) (q : Ptr) (n : Netif) (next : Ptr)
    → s.netifs q ≡ some n
    → Kept s (with_netif s q (record n { next = next }))
Kept-relinked s q n next at = record {
  fields = λ a. elim (Bool-cases (a == q)) [
    | inl e ↦ rw (e, ==→eq a q e, at) (next, refl)
    | inr ne ↦ rw ne (relink_self (s.netifs a))
  ];
  pcbs = refl;
  netifnum = refl;
  announced = refl;
}

-- What the loop of netif_remove leaves of the list from `tmp` on.
record Unlinked (s : Net) (netif tmp : Ptr) (l : List Ptr) (found : Bool) (g : Net) : Type 0 where
  found_it : found ≡ among netif l
  leads : Linked g tmp (without netif l)
  same_list : g.netif_list ≡ s.netif_list
  same_default : g.netif_default ≡ s.netif_default
  outside : (a : Ptr) → among a l ≡ false → g.netifs a ≡ s.netifs a
  absent : among netif l ≡ false → g ≡ s
  kept : Kept s g

module _ (s : Net) (netif q : Ptr) (n : Netif) (qn : q ≢ null) (at : s.netifs q ≡ some n)
    (other : q ≢ netif) where
  Unlinked-cons :
      (l : List Ptr) (found : Bool) (g : Net)
      → among q l ≡ false
      → Unlinked s netif n.next l found g
      → Unlinked s netif q (q ∷ l) found g
  Unlinked-cons l found g fresh f =
      let ne : netif ≢ q = λ e. other (sym e) in
      record {
        found_it = rw (ne→== netif q ne) f.found_it;
        leads = rw (ne→== netif q ne) (refl, qn, (n, f.outside q fresh ∙ at, f.leads));
        same_list = f.same_list;
        same_default = f.same_default;
        outside = λ a e. f.outside a (ground (arith, e));
        absent = λ e. f.absent (ground (arith, e));
        kept = f.kept;
      }

  Unlinked-here :
      (m : Netif) (l : List Ptr)
      → among q l ≡ false
      → Linked s m.next l
      → Unlinked s netif q (q ∷ netif ∷ l) true (with_netif s q (record n { next = m.next }))
  Unlinked-here m l fresh rest =
      let ne : netif ≢ q = λ e. other (sym e) in
      record {
        found_it = rw (ne→== netif q ne, ==_self netif) refl;
        leads =
            rw (ne→== netif q ne, ==_self netif)
              (
                refl,
                qn,
                (
                  record n { next = m.next },
                  rw (==_self q) refl,
                  Linked-frame s (with_netif s q (record n { next = m.next })) m.next l rest
                      (λ a i. let d : (a == q) ≡ false = among_ne a q l i fresh in rw d refl),
                ),
              );
        same_list = refl;
        same_default = refl;
        outside = λ a e. let d : (a == q) ≡ false = ground (arith, e) in rw d refl;
        absent =
            λ e. let it : (netif == netif) ≡ true = ==_self netif in absurd (ground (arith, e, it));
        kept = Kept-relinked s q n m.next at;
      }

remove_loop-Unlinked :
    (k : ℕ) (s : Net) (netif tmp : Ptr) (l : List Ptr)
    → netif ≢ null
    → Linked s tmp l
    → NoRepeat l
    → tmp ≢ netif
    → length l < k
    → Returns (Unlinked s netif tmp l) (remove_loop k netif tmp s)
unfolding remove_loop store
remove_loop-Unlinked zero s netif tmp l ne c d t fuel = absurd (omega arith)
remove_loop-Unlinked (suc k) s netif tmp [] ne c d t fuel = rw c (
    returns (record {
      found_it = refl;
      leads = refl;
      same_list = refl;
      same_default = refl;
      outside = λ a e. refl;
      absent = λ e. refl;
      kept = Kept-self s;
    }))
remove_loop-Unlinked (suc k) s netif tmp (q ∷ []) ne c d t fuel =
    let (n, at, rest) = c.2 in
    let other : q ≢ netif = rw (sym c.0) t in
    let next : n.next ≢ netif = λ e. ne (sym e ∙ rest) in
    rw (c.0, ne→== q null c.1, load-eq s q n c.1 at, ne→== n.next netif next)
      (Returns-mono (remove_loop-Unlinked k s netif n.next [] ne rest tt next (omega arith))
        λ found g f. Unlinked-cons s netif q n c.1 at other [] found g refl f)
remove_loop-Unlinked (suc k) s netif tmp (q ∷ u ∷ l) ne c d t fuel =
    let (n, at, rest) = c.2 in
    let (m, mat, mrest) = rest.2 in
    let other : q ≢ netif = rw (sym c.0) t in
    elim (Bool-cases (n.next == netif)) [
      | inl here ↦
          let e : u ≡ netif = sym rest.0 ∙ ==→eq n.next netif here in
          rw
            (
              c.0,
              ne→== q null c.1,
              load-eq s q n c.1 at,
              here,
              load-eq s netif m ne (ap s.netifs (sym e) ∙ mat),
              e,
            )
            (returns (Unlinked-here s netif q n c.1 at other m l (ground (arith, d.0)) mrest))
      | inr there ↦
          let next : n.next ≢ netif = ground (arith, there) in
          rw (c.0, ne→== q null c.1, load-eq s q n c.1 at, there)
            (Returns-mono
              (remove_loop-Unlinked k s netif n.next (u ∷ l) ne rest d.1 next (omega arith))
              λ found g f. Unlinked-cons s netif q n c.1 at other (u ∷ l) found g d.0 f)
    ]

-- `g` is `s` with `netif` taken out of the list `l`, and no longer the default.
pub record Removed (s : Net) (netif : Ptr) (l : List Ptr) (g : Net) : Type 0 where
  pub leads : Linked g g.netif_list (without netif l)
  pub default_left :
      g.netif_default
      ≡ (if among netif l && (s.netif_default == netif) then null else s.netif_default)
  pub outside : (a : Ptr) → among a l ≡ false → g.netifs a ≡ s.netifs a
  pub absent : among netif l ≡ false → g ≡ s
  pub kept : Kept s g

-- The end of netif_remove: the default.
module _ (s : Net) (netif : Ptr) (l : List Ptr) where
  settled :
      (g : Net)
      → Linked g g.netif_list (without netif l)
      → g.netif_default ≡ s.netif_default
      → ((a : Ptr) → among a l ≡ false → g.netifs a ≡ s.netifs a)
      → (among netif l ≡ false → g ≡ s)
      → Kept s g
      → Returns
          (λ _ g'. Removed s netif l g')
          ((if among netif l
              then (do s ← get; if s.netif_default == netif then set_default null else pure tt)
              else pure tt)
            g)
  unfolding set_default
  settled g c e out same k = elim (Bool-cases (among netif l)) [
    | inr absent ↦ rw absent (
        returns (record {
          leads = c;
          default_left = rw absent e;
          outside = out;
          absent = λ z. same absent;
          kept = k;
        }))
    | inl present ↦ rw present (elim (Bool-cases (g.netif_default == netif)) [
      | inl it ↦
          let it' : (s.netif_default == netif) ≡ true = ap (λ d. d == netif) (sym e) ∙ it in
          rw it (
            returns (record {
              leads =
                  Linked-frame g (record g { netif_default = null }) g.netif_list (without netif l)
                    c (λ a m. refl);
              default_left = rw (present, it') refl;
              outside = out;
              absent = λ z. absurd (ground (arith, present, z));
              kept = record {
                fields = k.fields;
                pcbs = k.pcbs;
                netifnum = k.netifnum;
                announced = k.announced;
              };
            }))
      | inr other ↦
          let other' : (s.netif_default == netif) ≡ false = ap (λ d. d == netif) (sym e) ∙ other in
          rw other (
            returns (record {
              leads = c;
              default_left = rw (present, other') e;
              outside = out;
              absent = λ z. absurd (ground (arith, present, z));
              kept = k;
            }))
    ])
  ]

-- netif_remove takes the interface out of the list, keeps the others in order, and clears the
-- default if it was that interface; nothing else changes, in particular no other field of an
-- interface but `next`. For an interface that is not in the list the state is the same as before.
-- The list has no cycle.
pub remove-Removed :
    (k : ℕ) (s : Net) (netif : Ptr) (l : List Ptr)
    → netif ≢ null
    → Linked s s.netif_list l
    → NoRepeat l
    → length l < k
    → Returns (λ _ g. Removed s netif l g) (remove k netif s)
unfolding remove
remove-Removed k s netif l ne c d fuel = elim (Bool-cases (s.netif_list == netif)) [
  | inl first ↦ first_one l c first
  | inr later ↦
      rw (ne→== netif null ne, later)
        (Returns-bind
          (remove_loop-Unlinked k s netif s.netif_list l ne c d (ground (arith, later)) fuel)
          λ found g f.
            rw f.found_it (
              settled s netif l g (rw f.same_list f.leads) f.same_default f.outside f.absent
                f.kept))
]
  where
    first_one :
        (l : List Ptr)
        → Linked s s.netif_list l
        → (s.netif_list == netif) ≡ true
        → Returns (λ _ g. Removed s netif l g) (remove k netif s)
    first_one [] c first = absurd (ne (sym (==→eq s.netif_list netif first) ∙ c))
    first_one (q ∷ l) c first =
        let (n, at, rest) = c.2 in
        let e : q ≡ netif = sym c.0 ∙ ==→eq s.netif_list netif first in
        let t : (netif == q) ≡ true = ground arith in
        let present : among netif (q ∷ l) ≡ true = rw t refl in
        let g = record s { netif_list = n.next } in
        let leads : Linked g n.next (without netif (q ∷ l)) =
          rw t (Linked-frame s g n.next l rest (λ a m. refl)) in
        rw (ne→== netif null ne, first, load-eq s netif n ne (ap s.netifs (sym e) ∙ at))
          (rw present at (
            settled s netif (q ∷ l) g leads refl (λ a m. refl)
              (λ z. absurd (ground (arith, present, z)))
              (record {
                fields = λ a. relink_self (s.netifs a);
                pcbs = refl;
                netifnum = refl;
                announced = refl;
              })))
