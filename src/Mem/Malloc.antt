-- ===== src/Mem/Malloc.antt =====
-- mem_malloc of lwip/src/core/mem.c.
use ocaml_lwip.Base.{
  ℕ, zero, suc, ◌+◌, ◌-◌, ◌<◌, ◌≤◌, ◌≡◌, refl, ap, sym, ◌∙◌, subst, Bool, true, false, [], ◌∷◌,
  arith, Bool-cases, inl, inr, if◌then◌else◌, Returns, returns, ltb, leb, ◌==◌, ◌&&◌, Option, none,
  some, le→ltb, le→leb, lt→leb, length,
}
use ocaml_lwip.Mem.{Heap, mem_size, null, occupy, search, malloc, request, split, set_lfree, negb}
use ocaml_lwip.Mem.Parts.{
  Part, Parts, total, onto, fits, first_fit, placed, Plugged, lowest, first_free, first_free-onto,
  onto-Plugged, Plugged-onto, Apart-used, used-Apart, Apart-free,
}
use ocaml_lwip.Mem.Zip.{Cells, After, Zip, Zip-onto, onto-Zip, After-le, head, prev_of}
use ocaml_lwip.Mem.Layout.{Layout}
use ocaml_lwip.Mem.Data.{Same, Data, Data-Clear}
use ocaml_lwip.Mem.Split.{Cut, split-Cut, fits-free}
use ocaml_lwip.Mem.Raise.{raise_lfree-eq, After-length}

-- What mem_malloc returns and leaves for the block that it is to take.
abbrev pub Granted : Heap → ℕ → Option (Parts × Part × Parts) → ℕ → Heap → Type 0
Granted h size none a g = (a ≡ null) × (g ≡ h)
Granted h size (some (ls, r, rs)) a g =
    (a ≡ h.ram + total ls + 6)
    × Layout g (onto ls (placed size r rs))
    × Same (Data ls (placed size r rs)) h g

placed-Plugged :
    (size : ℕ) (ls : Parts) (r : Part) (rs : Parts)
    → r.used ≡ false
    → Plugged (onto ls (r ∷ rs))
    → Plugged (onto ls (placed size r rs))
placed-Plugged size ls r rs u h =
    let (p, q, a) = onto-Plugged ls (r ∷ rs) h in
    elim (Bool-cases (leb (size + 24) r.size)) [
      | inl y ↦
          let taken : Part = record { size = size + 6; used = true } in
          let left : Part = record { size = r.size - (size + 6); used = false } in
          rw y (
            Plugged-onto ls (taken ∷ left ∷ rs) p (refl, (Apart-free r left.size [] rs u q.0, q.1))
              (Apart-used ls taken (left ∷ rs) refl))
      | inr n ↦
          let taken : Part = record { size = r.size; used = true } in
          rw n (
            Plugged-onto ls (taken ∷ rs) p (used-Apart taken [] rs refl, q.1)
              (Apart-used ls taken rs refl))
    ]

occupy-Granted :
    (h : Heap) (ls : Parts) (r : Part) (rs : Parts) (size : ℕ)
    → Layout h (onto ls (r ∷ rs))
    → fits size r ≡ true
    → 12 ≤ size
    → Returns (Granted h size (some (ls, r, rs))) (occupy (total ls) size h)
unfolding occupy set_lfree
occupy-Granted h ls r rs size y f m =
    let o : ℕ = total ls in
    let z : Zip h.cells ls (r ∷ rs) = Zip-onto h.cells ls (r ∷ rs) y.zip in
    let (free, room) = fits-free size r f in
    let end : o + r.size ≤ mem_size = After-le h.cells (o + r.size) o rs z.after.2 in
    let inside : leb (o + 6 + size) mem_size ≡ true =
      le→leb (o + 6 + size) mem_size (omega arith) in
    let low : h.lfree ≡ lowest ls o =
      y.lfree
      ∙ first_free-onto ls (r ∷ rs)
      ∙ ap (λ (b : Bool). lowest ls (if b then first_free (o + r.size) rs else o)) free in
    let g : Heap = split o size h in
    let xs : Parts = placed size r rs in
    let P : ℕ → Type 0 = Data ls xs in
    let c : Cut P h g ls xs = split-Cut P h ls r rs size z m (Data-Clear h.cells ls xs z.before) in
    rw (raise_lfree-eq g ls xs c.zip (c.lfree ∙ low), inside)
      (returns (
        refl,
        record {
          zip = onto-Zip g.cells ls xs c.zip;
          lfree = refl;
          plugged = placed-Plugged size ls r rs free y.plugged;
          based = omega (arith, c.same.ram, y.based);
        },
        record { ram = c.same.ram; bytes = λ a p. c.same.bytes a p; sync = c.same.sync },
      ))

and_false : (b : Bool) → (b && false) ≡ false
and_false true = refl
and_false false = refl

-- Close to the end of the heap nothing fits: the loop may stop there.
first_fit-none :
    (c : Cells) (o p size : ℕ) (ls rs : Parts)
    → After c o p rs
    → mem_size ≤ o + size
    → first_fit size ls rs ≡ none
unfolding first_fit
first_fit-none c o p size ls [] a le = refl
first_fit-none c o p size ls (r ∷ rs) a le =
    let end : o + r.size ≤ mem_size = After-le c (o + r.size) o rs a.2 in
    let small : leb (size + 6) r.size ≡ false = lt→leb (size + 6) r.size (omega arith) in
    let never : fits size r ≡ false = rw small (and_false (negb r.used)) in
    rw never (first_fit-none c (o + r.size) o size (r ∷ ls) rs a.2 (omega arith))

search-Granted :
    (fuel : ℕ) (h : Heap) (ls rs : Parts) (size : ℕ)
    → Layout h (onto ls rs)
    → length rs < fuel
    → 12 ≤ size
    → size ≤ mem_size
    → Returns (Granted h size (first_fit size ls rs)) (search fuel (total ls) size h)
unfolding search first_fit
search-Granted zero h ls rs size y f m n = absurd (omega arith)
search-Granted (suc fuel) h ls [] size y f m n =
    let z : Zip h.cells ls [] = Zip-onto h.cells ls [] y.zip in
    let stop : ltb (total ls) (mem_size - size) ≡ false =
      le→ltb (total ls) (mem_size - size) (omega (arith, z.after)) in
    rw stop (returns (refl, refl))
search-Granted (suc fuel) h ls (r ∷ rs) size y f m n =
    let o : ℕ = total ls in
    let z : Zip h.cells ls (r ∷ rs) = Zip-onto h.cells ls (r ∷ rs) y.zip in
    let here : h.cells o ≡ head o (prev_of ls) r = z.after.0 in
    elim (Bool-cases (ltb o (mem_size - size))) [
      | inr b ↦
          rw (b, first_fit-none h.cells o (prev_of ls) size ls (r ∷ rs) z.after (ground arith))
            (returns (refl, refl))
      | inl b ↦
          let same : leb size (o + r.size - (o + 6)) ≡ leb (size + 6) r.size =
            ground (arith, z.after.1) in
          elim (Bool-cases (fits size r)) [
            | inl t ↦ rw (b, here, same, t) (occupy-Granted h ls r rs size y t m)
            | inr t ↦
                rw (b, here, same, t) (search-Granted fuel h (r ∷ ls) rs size y (omega arith) m n)
          ]
    ]

pub request-ge : (size : ℕ) → 12 ≤ request size
unfolding request
request-ge size = ground arith

-- The loop may start at `lfree`: no block before it is free.
start-Granted :
    (h : Heap) (ls rs : Parts) (size : ℕ)
    → Layout h (onto ls rs)
    → h.lfree ≡ first_free (total ls) rs
    → 12 ≤ size
    → size ≤ mem_size
    → Returns (Granted h size (first_fit size ls rs)) (search (suc mem_size) h.lfree size h)
unfolding first_fit
start-Granted h ls [] size y low m n =
    subst (λ (o : ℕ). Returns (Granted h size none) (search (suc mem_size) o size h)) (sym low)
      (search-Granted (suc mem_size) h ls [] size y (omega arith) m n)
start-Granted h ls (r ∷ rs) size y low m n =
    let z : Zip h.cells ls (r ∷ rs) = Zip-onto h.cells ls (r ∷ rs) y.zip in
    let at : h.lfree ≡ (if r.used then first_free (total ls + r.size) rs else total ls) = low in
    elim (Bool-cases r.used) [
      | inl u ↦
          let never : fits size r ≡ false = rw u refl in
          rw never (
            start-Granted h (r ∷ ls) rs size y
              (at ∙ ap (λ (b : Bool). if b then first_free (total ls + r.size) rs else total ls) u)
              m n)
      | inr u ↦
          subst
            (λ (o : ℕ).
              Returns (Granted h size (first_fit size ls (r ∷ rs)))
                (search (suc mem_size) o size h))
            (sym
              (at ∙ ap (λ (b : Bool). if b then first_free (total ls + r.size) rs else total ls) u))
            (search-Granted (suc mem_size) h ls (r ∷ rs) size y
              (omega (arith, After-length h.cells (total ls) (prev_of ls) (r ∷ rs) z.after)) m n)
    ]

-- On a heap in order mem_malloc returns. It takes the first free block of the heap that is large
-- enough, though it looks only from `lfree` on and only below MEM_SIZE_ALIGNED less the size: the
-- address is that of the block's data, the block is in use, what it has to spare for another is a
-- free block behind it, the heap is in order, no byte of user data of the blocks then in use has
-- changed, and `cells` and `bytes` are in step if they were. For no bytes, and where no block is large enough, it returns NULL and changes nothing.
pub malloc-Granted :
    (h : Heap) (bs : Parts) (size : ℕ)
    → Layout h bs
    → Returns
        (Granted h (request size) (if size == 0 then none else first_fit (request size) [] bs))
        (malloc size h)
unfolding malloc
malloc-Granted h bs size y =
    let n : ℕ = request size in
    elim (Bool-cases (size == 0)) [
      | inl nothing ↦ rw nothing (returns (refl, refl))
      | inr some_bytes ↦ elim (Bool-cases (ltb mem_size n)) [
        | inl much ↦
            rw (some_bytes, much, first_fit-none h.cells 0 0 n [] bs y.zip.after (ground arith))
              (returns (refl, refl))
        | inr room ↦
            rw (some_bytes, room)
              (start-Granted h [] bs n y y.lfree (request-ge size) (ground arith))
      ]
    ]
