-- ===== src/Mem/Plugged.antt =====
-- plug_holes of lwip/src/core/mem.c joins a block that has become free with its free neighbours.
use ocaml_lwip.Base.{
  ℕ, ◌+◌, ◌<◌, ◌≤◌, ◌≡◌, refl, ap, sym, ◌∙◌, subst, Bool, false, [], ◌∷◌, arith, Bool-cases, inl,
  inr, if◌then◌else◌,
}
use ocaml_lwip.Mem.{Heap, Block, plug_forward, plug_backward, fuse}
use ocaml_lwip.Mem.Parts.{
  Part, Parts, total, onto, join, coalesce, Plugged, lowest, first_free-onto, coalesce-Plugged,
  coalesce-onto, Apart-free, free_Apart, Plugged-onto, join-Apart, used-Apart, Apart-unflip,
  lowest-le,
}
use ocaml_lwip.Mem.Zip.{Zip, onto-Zip, step_out}
use ocaml_lwip.Mem.Edit.{Zip-fuse}
use ocaml_lwip.Mem.Layout.{Layout}
use ocaml_lwip.Mem.Data.{Same, Same-self, Same-trans, Clear, OffAfter, first-Off, fuse-Same}
use ocaml_lwip.Mem.Plug.{forward_none, forward_fuses, backward_first, backward_none, backward_fuses}

abbrev pub hole : ℕ → Part
hole n = record { size = n; used = false }

-- `n` bytes are free at the block, once the next one is joined to it if it is free.
pub record Ahead (P : ℕ → Type 0) (h g : Heap) (ls : Parts) (m : ℕ) (rs : Parts) (n : ℕ)
    (ts : Parts) : Type 0 where
  zip : Zip g.cells ls (hole n ∷ ts)
  lfree : g.lfree ≡ h.lfree
  same : Same P h g
  off : OffAfter P (total ls + n) ts
  plugged : Plugged (hole n ∷ ts)
  joins : coalesce (hole m ∷ rs) ≡ hole n ∷ ts

pub ahead :
    (P : ℕ → Type 0) (h : Heap) (ls : Parts) (m : ℕ) (rs : Parts)
    → Clear P ls (hole m ∷ rs)
    → Zip h.cells ls (hole m ∷ rs)
    → h.lfree ≤ total ls
    → Plugged rs
    → (n : ℕ) × (ts : Parts) × Ahead P h (plug_forward (total ls) h) ls m rs n ts
unfolding fuse
ahead P h ls m [] d z low p =
    let still : plug_forward (total ls) h ≡ h =
      forward_none h ls (hole m) [] z (ap (λ (o : ℕ). (h.cells o).used) z.after.2 ∙ z.end.0) in
    rw still (
      m,
      [],
      record {
        zip = z;
        lfree = refl;
        same = Same-self P h;
        off = d.1.1;
        plugged = (tt, tt);
        joins = refl;
      },
    )
ahead P h ls m (s ∷ rs) d z low p = elim (Bool-cases s.used) [
  | inl u ↦
      let still : plug_forward (total ls) h ≡ h =
        forward_none h ls (hole m) (s ∷ rs) z (ap (λ (b : Block). b.used) z.after.2.0 ∙ u) in
      rw still (
        m,
        s ∷ rs,
        record {
          zip = z;
          lfree = refl;
          same = Same-self P h;
          off = d.1.1;
          plugged = (u, p);
          joins = ap (join (hole m)) (coalesce-Plugged (s ∷ rs) p) ∙ join-Apart (hole m) (s ∷ rs) u;
        },
      )
  | inr u ↦
      let assoc : total ls + m + s.size ≡ total ls + (m + s.size) = omega arith in
      let rest : OffAfter P (total ls + (m + s.size)) rs =
        subst (λ o. OffAfter P o rs) assoc d.1.1.1 in
      rw (forward_fuses h ls (hole m) s rs z low u) (
        m + s.size,
        rs,
        record {
          zip = Zip-fuse h ls (hole m) s rs z;
          lfree = refl;
          same =
              fuse-Same P (total ls) (total ls + m + s.size) h d.1.0
                (first-Off P (total ls + m + s.size) rs d.1.1.1);
          off = rest;
          plugged = (Apart-free s (m + s.size) [] rs u p.0, p.1);
          joins = ap (join (hole m)) (coalesce-Plugged (s ∷ rs) p) ∙ rw u refl;
        },
      )
]

-- The block is joined with the one before it, if that is free, and the heap is in order again.
pub behind :
    (P : ℕ → Type 0) (h g : Heap) (ls : Parts) (m : ℕ) (rs : Parts) (n : ℕ) (ts : Parts)
    → Clear P ls (hole m ∷ rs)
    → Ahead P h g ls m rs n ts
    → h.lfree ≡ lowest ls (total ls)
    → Plugged ls
    → 0 < h.ram
    → Layout (plug_backward (total ls) g) (coalesce (onto ls (hole m ∷ rs)))
      × Same P h (plug_backward (total ls) g)
unfolding fuse
behind P h g [] m rs n ts d a low p pos =
    rw (backward_first g (hole n) ts a.zip, a.joins)
      (
        record {
          zip = a.zip;
          lfree = a.lfree ∙ low;
          plugged = a.plugged;
          based = omega (arith, a.same.ram);
        },
        a.same,
      )
behind P h g (l ∷ ls) m rs n ts d a low p pos = elim (Bool-cases l.used) [
  | inl u ↦
      let whole : Plugged (onto (l ∷ ls) (hole n ∷ ts)) =
        Plugged-onto (l ∷ ls) (hole n ∷ ts) p a.plugged (used-Apart l ls (hole n ∷ ts) u) in
      let result : coalesce (onto (l ∷ ls) (hole m ∷ rs)) ≡ onto (l ∷ ls) (hole n ∷ ts) =
        coalesce-onto (l ∷ ls) (hole m ∷ rs) (hole n ∷ ts)
          (a.joins ∙ sym (coalesce-Plugged (hole n ∷ ts) a.plugged))
        ∙ coalesce-Plugged (onto (l ∷ ls) (hole n ∷ ts)) whole in
      rw (backward_none g l ls (hole n) ts a.zip u, result)
        (
          record {
            zip = onto-Zip g.cells (l ∷ ls) (hole n ∷ ts) a.zip;
            lfree = a.lfree ∙ low ∙ sym (first_free-onto (l ∷ ls) (hole n ∷ ts));
            plugged = whole;
            based = omega (arith, a.same.ram);
          },
          a.same,
        )
  | inr u ↦
      let big : ℕ = l.size + n in
      let lowered : h.lfree ≡ lowest ls (total ls) =
        low ∙ ap (λ (b : Bool). lowest ls (if b then total (l ∷ ls) else total ls)) u in
      let zip : Zip (fuse (total ls) (total ls + l.size + n) g).cells ls (hole big ∷ ts) =
        subst
          (λ (b : Bool).
            Zip (fuse (total ls) (total ls + l.size + n) g).cells ls
              (record { size = big; used = b } ∷ ts))
          u (Zip-fuse g ls l (hole n) ts (step_out g.cells l ls (hole n ∷ ts) a.zip)) in
      let last : Plugged (hole big ∷ ts) =
        (Apart-free (hole n) big [] ts refl a.plugged.0, a.plugged.1) in
      let whole : Plugged (onto ls (hole big ∷ ts)) =
        Plugged-onto ls (hole big ∷ ts) p.1 last
          (free_Apart l big ls ts u (Apart-unflip l ls ts p.0)) in
      let joined : coalesce (l ∷ hole m ∷ rs) ≡ hole big ∷ ts = ap (join l) a.joins ∙ rw u refl in
      let result : coalesce (onto ls (l ∷ hole m ∷ rs)) ≡ onto ls (hole big ∷ ts) =
        coalesce-onto ls (l ∷ hole m ∷ rs) (hole big ∷ ts)
          (joined ∙ sym (coalesce-Plugged (hole big ∷ ts) last))
        ∙ coalesce-Plugged (onto ls (hole big ∷ ts)) whole in
      let under : g.lfree ≤ total ls = rw (a.lfree, lowered) (lowest-le ls) in
      rw (backward_fuses g l ls (hole n) ts a.zip under u, result)
        (
          record {
            zip = onto-Zip (fuse (total ls) (total ls + l.size + n) g).cells ls (hole big ∷ ts) zip;
            lfree = a.lfree ∙ lowered ∙ sym (first_free-onto ls (hole big ∷ ts));
            plugged = whole;
            based = omega (arith, a.same.ram);
          },
          Same-trans P h g (fuse (total ls) (total ls + l.size + n) g) a.same (
              fuse-Same P (total ls) (total ls + l.size + n) g d.0.0
                (first-Off P (total ls + l.size + n) ts a.off)),
        )
]
