-- ===== src/Mem/Shrink.antt =====
-- mem_realloc of lwip/src/core/mem.c.
use ocaml_lwip.Base.{
  ℕ, ◌+◌, ◌-◌, ◌<◌, ◌≤◌, ◌≡◌, refl, ap, sym, ◌∙◌, subst, Bool, true, false, [], ◌∷◌, arith, inl,
  inr, if◌then◌else◌, leb, ◌==◌,
}
use ocaml_lwip.Mem.{Heap, Block, carve, set_lfree, write, link_back}
use ocaml_lwip.Mem.Parts.{
  Part, Parts, total, onto, Plugged, lowest, lowest-cases, first_free-onto, Plugged-onto,
  Apart-used,
}
use ocaml_lwip.Mem.Zip.{Zip, onto-Zip, After, prev_of, least, write_ne}
use ocaml_lwip.Mem.Edit.{Zip-cut}
use ocaml_lwip.Mem.Layout.{Layout}
use ocaml_lwip.Mem.Data.{
  Same, Same-self, Same-trans, Clear, Off, first-Off, write-Same, link_back-Same,
}
use ocaml_lwip.Mem.Plugged.{hole}

abbrev pub busy : ℕ → Part
busy n = record { size = n; used = true }

-- The blocks from one in use on, once it is cut to `size` bytes of user data.
abbrev pub shrunk : ℕ → Part → Parts → Parts
shrunk size r [] =
    if leb (size + 24) r.size then busy (size + 6) ∷ hole (r.size - (size + 6)) ∷ [] else r ∷ []
shrunk size r (s ∷ rs) =
    if r.size == size + 6
    then r ∷ s ∷ rs
    else if s.used
    then (if leb (size + 24) r.size
        then busy (size + 6) ∷ hole (r.size - (size + 6)) ∷ s ∷ rs
        else r ∷ s ∷ rs)
    else busy (size + 6) ∷ hole (r.size - (size + 6) + s.size) ∷ rs

carve-eq :
    (h : Heap) (ls : Parts) (r : Part) (rs : Parts) (n e : ℕ)
    → Zip h.cells ls (r ∷ rs)
    → r.used ≡ true
    → least ≤ n
    → carve (total ls) (total ls + n) e h
      ≡ link_back e (total ls + n) (
          write
            (total ls)
            (record { next = total ls + n; prev = prev_of ls; used = true })
            (write (total ls + n) (record { next = e; prev = total ls; used = false }) h))
unfolding carve
carve-eq h ls r rs n e z u pos =
    let o : ℕ = total ls in
    let b : Block = record { next = e; prev = o; used = false } in
    let still : (write (o + n) b h).cells o
        ≡ record { next = o + r.size; prev = prev_of ls; used = true } =
      write_ne h (o + n) o b (inl (omega arith))
      ∙ z.after.0
      ∙ ap (λ (t : Bool). record { next = o + r.size; prev = prev_of ls; used = t }) u in
    rw still refl

-- The free block that is carved out is at the right place, with `lfree` as given.
carve-Layout :
    (P : ℕ → Type 0) (h : Heap) (ls : Parts) (r : Part) (rs ts : Parts) (n m e p : ℕ)
    → Clear P ls (busy n ∷ hole m ∷ ts)
    → Zip h.cells ls (r ∷ rs)
    → r.used ≡ true
    → After h.cells e p ts
    → total ls + n + m ≡ e
    → least ≤ n
    → least ≤ m
    → h.lfree ≡ lowest ls (total ls + n)
    → Plugged ls
    → Plugged (hole m ∷ ts)
    → 0 < h.ram
    → Layout (carve (total ls) (total ls + n) e h) (onto ls (busy n ∷ hole m ∷ ts))
      × Same P h (carve (total ls) (total ls + n) e h)
unfolding write
carve-Layout P h ls r rs ts n m e p d z u after at ln lm low q s pos =
    let o : ℕ = total ls in
    let b : Block = record { next = e; prev = o; used = false } in
    let c : Block = record { next = o + n; prev = prev_of ls; used = true } in
    let v : Heap = write (o + n) b h in
    let w : Heap = write o c v in
    let g : Heap = link_back e (o + n) w in
    let next : Off P e = subst (Off P) at (first-Off P (o + n + m) ts d.1.1.1) in
    let (k, l) = link_back-Same P e (o + n) w next in
    rw (carve-eq h ls r rs n e z u (omega arith)) (
      record {
        zip =
            onto-Zip g.cells ls (busy n ∷ hole m ∷ ts)
              (Zip-cut h ls ts e p n m true false z.before after z.end at ln lm);
        lfree = l ∙ low ∙ sym (first_free-onto ls (busy n ∷ hole m ∷ ts));
        plugged =
            Plugged-onto ls (busy n ∷ hole m ∷ ts) q (refl, s)
              (Apart-used ls (busy n) (hole m ∷ ts) refl);
        based = omega (arith, k.ram);
      },
      Same-trans P h w g
          (Same-trans P h v w (write-Same P (o + n) b h d.1.1.0) (write-Same P o c v d.1.0)) k,
    )

-- The test and the change of `lfree` of both cases.
abbrev pub moved : Bool → ℕ → Heap → Heap
moved c o h = if c then set_lfree o h else h

record Moved (P : ℕ → Type 0) (h g : Heap) (ls : Parts) (o : ℕ) : Type 0 where
  cells : g.cells ≡ h.cells
  lfree : g.lfree ≡ lowest ls o
  same : Same P h g

moved-Moved :
    (P : ℕ → Type 0) (c : Bool) (h : Heap) (ls : Parts) (y o : ℕ)
    → h.lfree ≡ lowest ls y
    → (h.lfree ≡ y → c ≡ true)
    → (h.lfree ≤ total ls → c ≡ false)
    → Moved P h (moved c o h) ls o
unfolding set_lfree
moved-Moved P c h ls y o low hit miss = elim (lowest-cases ls) [
  | inl all ↦ rw (hit (low ∙ all y)) (record {
    cells = refl;
    lfree = sym (all o);
    same = record { ram = refl; bytes = λ a p. refl; sync = λ s. s };
  })
  | inr (x, le, same) ↦
      rw (miss (omega (arith, same y)))
        (record { cells = refl; lfree = low ∙ same y ∙ sym (same o); same = Same-self P h })
]

-- `carve` once `lfree` has been moved.
pub cut_off :
    (P : ℕ → Type 0) (c : Bool) (h : Heap) (ls : Parts) (r : Part) (rs ts : Parts) (n m e p y : ℕ)
    → Clear P ls (busy n ∷ hole m ∷ ts)
    → Zip h.cells ls (r ∷ rs)
    → r.used ≡ true
    → After h.cells e p ts
    → total ls + n + m ≡ e
    → least ≤ n
    → least ≤ m
    → h.lfree ≡ lowest ls y
    → (h.lfree ≡ y → c ≡ true)
    → (h.lfree ≤ total ls → c ≡ false)
    → Plugged ls
    → Plugged (hole m ∷ ts)
    → 0 < h.ram
    → let g : Heap = carve (total ls) (total ls + n) e (moved c (total ls + n) h) in
      Layout g (onto ls (busy n ∷ hole m ∷ ts)) × Same P h g
cut_off P c h ls r rs ts n m e p y d z u after at ln lm low hit miss q s pos =
    let g : Heap = moved c (total ls + n) h in
    let t : Moved P h g ls (total ls + n) = moved-Moved P c h ls y (total ls + n) low hit miss in
    let (lay, k) =
      carve-Layout P g ls r rs ts n m e p d (subst (λ f. Zip f ls (r ∷ rs)) (sym t.cells) z) u
        (subst (λ f. After f e p ts) (sym t.cells) after) at ln lm t.lfree q s
        (omega (arith, t.same.ram)) in
    (lay, Same-trans P h g (carve (total ls) (total ls + n) e g) t.same k)
