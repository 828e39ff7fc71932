-- ===== src/Mem/Free.antt =====
-- mem_free of lwip/src/core/mem.c.
use ocaml_lwip.Base.{
  ℕ, ◌+◌, ◌-◌, ◌<◌, ◌≤◌, ◌≡◌, refl, ap, sym, ◌∙◌, Bool, true, false, [], ◌∷◌, arith, Bool-cases,
  inl, inr, if◌then◌else◌, Returns, returns, Returns-mono, subst, ltb, leb, ◌==◌, ne→==, le→leb,
  lt→ltb, le→ltb,
}
use ocaml_lwip.Mem.{
  Heap, Block, mem_size, free, plug_holes, plug_forward, set_used, set_lfree, null, write,
}
use ocaml_lwip.Mem.Parts.{
  Part, Parts, total, onto, coalesce, Plugged, lowest, lowest-cases, lowest-le, first_free,
  first_free-onto, onto-Plugged,
}
use ocaml_lwip.Mem.Zip.{Zip, Zip-onto, After-le, head, prev_of}
use ocaml_lwip.Mem.Edit.{Zip-set_used}
use ocaml_lwip.Mem.Layout.{Layout}
use ocaml_lwip.Mem.Data.{Same, Same-self, Same-trans, Clear, Data, Data-Clear, set_used-Same}
use ocaml_lwip.Mem.Plugged.{hole, ahead, behind}

pub plug_holes-Layout :
    (P : ℕ → Type 0) (h : Heap) (ls : Parts) (m : ℕ) (rs : Parts)
    → Clear P ls (hole m ∷ rs)
    → Zip h.cells ls (hole m ∷ rs)
    → h.lfree ≡ lowest ls (total ls)
    → Plugged ls
    → Plugged rs
    → 0 < h.ram
    → Returns
        (λ _ g. Layout g (coalesce (onto ls (hole m ∷ rs))) × Same P h g)
        (plug_holes (total ls) h)
unfolding plug_holes
plug_holes-Layout P h ls m rs d z low p q pos =
    let o : ℕ = total ls in
    let here : h.cells o ≡ head o (prev_of ls) (hole m) = z.after.0 in
    let end : o + m ≤ mem_size = After-le h.cells (o + m) o rs z.after.2 in
    let inside : ltb o mem_size ≡ true = lt→ltb o mem_size (omega (arith, z.after.1)) in
    let last : leb (o + m) mem_size ≡ true = le→leb (o + m) mem_size end in
    let under : h.lfree ≤ o = rw low (lowest-le ls) in
    let (n, ts, a) = ahead P h ls m rs d z under q in
    rw (inside, here, last) (returns (behind P h (plug_forward o h) ls m rs n ts d a low p pos))

pub first_free-ge : (o : ℕ) (rs : Parts) → o ≤ first_free o rs
first_free-ge o [] = omega arith
first_free-ge o (r ∷ rs) = elim (Bool-cases r.used) [
  | inl u ↦ rw u (omega (arith, first_free-ge (o + r.size) rs))
  | inr u ↦ rw u (omega arith)
]

abbrev lowered : ℕ → Heap → Heap
lowered o g = if ltb o g.lfree then set_lfree o g else g

lowered-lfree :
    (g : Heap) (ls rs : Parts) (n : ℕ)
    → 0 < n
    → g.lfree ≡ lowest ls (first_free (total ls + n) rs)
    → (lowered (total ls) g).lfree ≡ lowest ls (total ls)
unfolding set_lfree
lowered-lfree g ls rs n pos low = elim (lowest-cases ls) [
  | inl all ↦
      let up : ltb (total ls) g.lfree ≡ true =
        lt→ltb (total ls) g.lfree
          (omega (arith, first_free-ge (total ls + n) rs, all (first_free (total ls + n) rs))) in
      rw up (sym (all (total ls)))
  | inr (x, le, same) ↦
      let down : ltb (total ls) g.lfree ≡ false =
        le→ltb (total ls) g.lfree (omega (arith, same (first_free (total ls + n) rs))) in
      rw down (low ∙ same (first_free (total ls + n) rs) ∙ sym (same (total ls)))
]

lowered_only : (o : ℕ) (g : Heap) → (lowered o g).cells ≡ g.cells
unfolding set_lfree
lowered_only o g = elim (Bool-cases (ltb o g.lfree)) [ inl u ↦ rw u refl | inr u ↦ rw u refl ]

lowered-Same : (P : ℕ → Type 0) (o : ℕ) (g : Heap) → Same P g (lowered o g)
unfolding set_lfree
lowered-Same P o g = elim (Bool-cases (ltb o g.lfree)) [
  | inl u ↦ rw u (record { ram = refl; bytes = λ a p. refl; sync = λ s. s })
  | inr u ↦ rw u (Same-self P g)
]

set_used-lfree : (o : ℕ) (u : Bool) (h : Heap) → (set_used o u h).lfree ≡ h.lfree
unfolding set_used write
set_used-lfree o u h = refl

-- On a heap in order mem_free of the data of a block in use, wherever it lies, fails no assertion.
-- The blocks are then those before with this one free and all free neighbours joined, in order
-- again, no byte of user data of a block that was in use has changed, and `cells` and `bytes` are in
-- step if they were.
pub free-Layout :
    (h : Heap) (ls : Parts) (r : Part) (rs : Parts)
    → r.used ≡ true
    → Layout h (onto ls (r ∷ rs))
    → Returns
        (λ _ g.
          Layout g (coalesce (onto ls (record { size = r.size; used = false } ∷ rs)))
          × Same (Data ls (r ∷ rs)) h g)
        (free (h.ram + total ls + 6) h)
unfolding free
free-Layout h ls r rs u y =
    let o : ℕ = total ls in
    let z : Zip h.cells ls (r ∷ rs) = Zip-onto h.cells ls (r ∷ rs) y.zip in
    let end : o + r.size ≤ mem_size = After-le h.cells (o + r.size) o rs z.after.2 in
    let (p, q, a) = onto-Plugged ls (r ∷ rs) y.plugged in
    let low : h.lfree ≡ lowest ls (first_free (o + r.size) rs) =
      y.lfree
      ∙ first_free-onto ls (r ∷ rs)
      ∙ ap (λ (b : Bool). lowest ls (if b then first_free (o + r.size) rs else o)) u in
    let some_one : (h.ram + o + 6 == null) ≡ false =
      ne→== (h.ram + o + 6) null (λ e. omega arith) in
    let lower : leb h.ram (h.ram + o + 6) ≡ true = le→leb h.ram (h.ram + o + 6) (omega arith) in
    let upper : ltb (h.ram + o + 6) (h.ram + mem_size) ≡ true =
      lt→ltb (h.ram + o + 6) (h.ram + mem_size) (omega (arith, z.after.1)) in
    let data_of : ltb (h.ram + o + 6) (h.ram + 6) ≡ false =
      le→ltb (h.ram + o + 6) (h.ram + 6) (omega arith) in
    let mem : h.ram + o + 6 - 6 - h.ram ≡ o = omega arith in
    let used : (h.cells o).used ≡ true = ap (λ (b : Block). b.used) z.after.0 ∙ u in
    let g : Heap = set_used o false h in
    let w : Zip g.cells ls (hole r.size ∷ rs) = Zip-set_used h false ls r rs z in
    let P : ℕ → Type 0 = Data ls (r ∷ rs) in
    let d : Clear P ls (r ∷ rs) = Data-Clear h.cells ls (r ∷ rs) z.before in
    let k : Same P h (lowered o g) =
      Same-trans P h g (lowered o g) (set_used-Same P o false h d.1.0) (lowered-Same P o g) in
    rw (some_one, lower, upper, data_of, mem, used)
      (Returns-mono
        (plug_holes-Layout P (lowered o g) ls r.size rs d
          (subst (λ c. Zip c ls (hole r.size ∷ rs)) (sym (lowered_only o g)) w)
          (lowered-lfree g ls rs r.size (omega (arith, z.after.1)) (set_used-lfree o false h ∙ low))
          p q.1 (omega (arith, k.ram, y.based)))
        (λ _ f t. (t.0, Same-trans P h (lowered o g) f k t.1)))
