-- ===== src/Mem/Split.antt =====
-- The block that mem_malloc of lwip/src/core/mem.c marks as used, and the one that it leaves over.
use ocaml_lwip.Base.{
  ℕ, ◌+◌, ◌-◌, ◌<◌, ◌≤◌, ◌≡◌, refl, subst, ◌∙◌, true, false, ◌∷◌, arith, Bool-cases, inl, inr, leb,
  le→leb, lt→leb, u16,
}
use ocaml_lwip.Mem.{Heap, Block, mem_size, split, set_used, write, link_back}
use ocaml_lwip.Mem.Parts.{Part, Parts, total, fits, placed}
use ocaml_lwip.Mem.Zip.{Zip, After-le, head, prev_of, write_ne}
use ocaml_lwip.Mem.Edit.{Zip-set_used, Zip-split}
use ocaml_lwip.Mem.Data.{
  Same, Same-trans, Clear, Off, first-Off, write-Same, set_used-Same, link_back-Same,
}

-- What fits is free, and leaves the heap.
pub fits-free : (size : ℕ) (r : Part) → fits size r ≡ true → (r.used ≡ false) × (size + 6 ≤ r.size)
fits-free size r h = ground arith

pub record Cut (P : ℕ → Type 0) (h g : Heap) (ls xs : Parts) : Type 0 where
  pub zip : Zip g.cells ls xs
  pub lfree : g.lfree ≡ h.lfree
  pub same : Same P h g

split_two :
    (h : Heap) (ls : Parts) (r : Part) (rs : Parts) (size : ℕ)
    → Zip h.cells ls (r ∷ rs)
    → size + 24 ≤ r.size
    → let o : ℕ = total ls in
      let n : ℕ = size + 6 in
      split o size h
      ≡ link_back (o + r.size) (o + n) (
          write o
            (record { next = o + n; prev = prev_of ls; used = true })
            (write (o + n) (record { next = o + r.size; prev = o; used = false }) h))
unfolding split
split_two h ls r rs size z m =
    let o : ℕ = total ls in
    let n : ℕ = size + 6 in
    let here : h.cells o ≡ head o (prev_of ls) r = z.after.0 in
    let end : o + r.size ≤ mem_size = After-le h.cells (o + r.size) o rs z.after.2 in
    let at : u16 (o + 6 + size) ≡ o + n = omega arith in
    let b : Block = record { next = o + r.size; prev = o; used = false } in
    let still : (write (o + n) b h).cells o ≡ head o (prev_of ls) r =
      write_ne h (o + n) o b (inl (omega arith)) ∙ here in
    let wide : leb (size + 6 + 12) (o + r.size - (o + 6)) ≡ true =
      le→leb (size + 6 + 12) (o + r.size - (o + 6)) (omega arith) in
    rw (here, wide, at, still) refl

split_one :
    (h : Heap) (ls : Parts) (r : Part) (rs : Parts) (size : ℕ)
    → Zip h.cells ls (r ∷ rs)
    → r.size < size + 24
    → split (total ls) size h ≡ set_used (total ls) true h
unfolding split
split_one h ls r rs size z m =
    let o : ℕ = total ls in
    let here : h.cells o ≡ head o (prev_of ls) r = z.after.0 in
    let narrow : leb (size + 6 + 12) (o + r.size - (o + 6)) ≡ false =
      lt→leb (size + 6 + 12) (o + r.size - (o + 6)) (omega (arith, z.after.1)) in
    rw (here, narrow) refl

pub split-Cut :
    (P : ℕ → Type 0) (h : Heap) (ls : Parts) (r : Part) (rs : Parts) (size : ℕ)
    → Zip h.cells ls (r ∷ rs)
    → 12 ≤ size
    → Clear P ls (placed size r rs)
    → Cut P h (split (total ls) size h) ls (placed size r rs)
unfolding write set_used
split-Cut P h ls r rs size z m d =
    let o : ℕ = total ls in
    let n : ℕ = size + 6 in
    elim (Bool-cases (leb (size + 24) r.size)) [
      | inl y ↦
          let b : Block = record { next = o + r.size; prev = o; used = false } in
          let c : Block = record { next = o + n; prev = prev_of ls; used = true } in
          let v : Heap = write (o + n) b h in
          let w : Heap = write o c v in
          let left : Part = record { size = r.size - n; used = false } in
          let d' : Clear P ls (record { size = n; used = true } ∷ left ∷ rs) = rw y at d in
          let all : o + n + (r.size - n) ≡ o + r.size = ground arith in
          let next : Off P (o + r.size) =
            subst (Off P) all (first-Off P (o + n + (r.size - n)) rs d'.1.1.1) in
          let (k, l) = link_back-Same P (o + r.size) (o + n) w next in
          rw (y, split_two h ls r rs size z (ground arith))
            (record {
              zip =
                  Zip-split h ls r rs n (r.size - n) true false z (ground arith) (omega arith)
                    (ground arith);
              lfree = l;
              same =
                  Same-trans P h w (link_back (o + r.size) (o + n) w)
                    (Same-trans P h v w (write-Same P (o + n) b h d'.1.1.0)
                      (write-Same P o c v d'.1.0))
                    k;
            })
      | inr x ↦
          rw (x, split_one h ls r rs size z (ground arith))
            (record {
              zip = Zip-set_used h true ls r rs z;
              lfree = refl;
              same = set_used-Same P o true h (first-Off P o (placed size r rs) d.1);
            })
    ]
