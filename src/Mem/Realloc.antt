-- ===== src/Mem/Realloc.antt =====
-- mem_realloc of lwip/src/core/mem.c: a block is cut to a smaller size in place.
use ocaml_lwip.Base.{
  ℕ, ◌+◌, ◌-◌, ◌≤◌, ◌≡◌, refl, ap, ap₂, sym, ◌∙◌, subst, Bool, true, false, [], ◌∷◌, arith,
  Bool-cases, inl, inr, if◌then◌else◌, Returns, returns, ltb, leb, ◌==◌, u16, lt→ltb, le→ltb,
  le→leb, lt→leb, ne→==,
}
use ocaml_lwip.Mem.{Heap, Block, mem_size, shrink, realloc, request}
use ocaml_lwip.Mem.Parts.{
  Part, Parts, total, onto, Plugged, Apart, lowest, first_free, first_free-onto, onto-Plugged,
  Apart-free,
}
use ocaml_lwip.Mem.Zip.{Cells, Zip, Zip-onto, After, After-le, head, prev_of}
use ocaml_lwip.Mem.Layout.{Layout}
use ocaml_lwip.Mem.Data.{Same, Same-self, Clear, Data, Data-Clear}
use ocaml_lwip.Mem.Free.{first_free-ge}
use ocaml_lwip.Mem.Plugged.{hole}
use ocaml_lwip.Mem.Malloc.{request-ge}
use ocaml_lwip.Mem.Shrink.{busy, shrunk, cut_off}

-- What is free stands next to a block in use, or to the end of the heap.
used-end :
    (c : Cells) (o p m : ℕ) (rs : Parts)
    → After c o p rs
    → (c o).used ≡ true
    → Apart (hole m ∷ []) rs
used-end c o p m [] a u = tt
used-end c o p m (s ∷ rs) a u = sym (ap (λ (b : Block). b.used) a.0) ∙ u

module _ (P : ℕ → Type 0) (h : Heap) (ls : Parts) (r : Part) (rs : Parts) (n : ℕ)
    (y : Layout h (onto ls (r ∷ rs))) (u : r.used ≡ true) (small : 12 ≤ n)
    (large : n + 6 ≤ r.size) where
  zip : Zip h.cells ls (r ∷ rs)
  zip = Zip-onto h.cells ls (r ∷ rs) y.zip

  end : total ls + r.size ≤ mem_size
  end = After-le h.cells (total ls + r.size) (total ls) rs zip.after.2

  low : h.lfree ≡ lowest ls (first_free (total ls + r.size) rs)
  low =
      y.lfree
      ∙ first_free-onto ls (r ∷ rs)
      ∙ ap (λ (b : Bool). lowest ls (if b then first_free (total ls + r.size) rs else total ls)) u

  plugs : Plugged ls × Plugged (r ∷ rs) × Apart ls (r ∷ rs)
  plugs = onto-Plugged ls (r ∷ rs) y.plugged

  -- The next block is in use, or there is none.
  shrink_next_used :
      Clear P ls
        (if leb (n + 24) r.size then busy (n + 6) ∷ hole (r.size - (n + 6)) ∷ rs else r ∷ rs)
      → (h.cells (total ls + r.size)).used ≡ true
      → Layout (shrink (total ls) n h) (
          onto ls
            (if leb (n + 24) r.size then busy (n + 6) ∷ hole (r.size - (n + 6)) ∷ rs else r ∷ rs))
        × Same P h (shrink (total ls) n h)
  unfolding shrink
  shrink_next_used d taken =
      let o : ℕ = total ls in
      let here : h.cells o ≡ head o (prev_of ls) r = zip.after.0 in
      let at : u16 (o + 6 + n) ≡ o + (n + 6) = omega (arith, end) in
      let room : leb (n + 6 + 12) (o + r.size - o - 6) ≡ leb (n + 24) r.size = ground arith in
      elim (Bool-cases (leb (n + 24) r.size)) [
        | inr t ↦ rw (here, taken, room, t) (y, Same-self P h)
        | inl t ↦
            let wide : n + 24 ≤ r.size = ground arith in
            let two : Clear P ls (busy (n + 6) ∷ hole (r.size - (n + 6)) ∷ rs) = rw t at d in
            rw (here, taken, room, at, t)
              (cut_off P (ltb (o + (n + 6)) h.lfree) h ls r rs rs (n + 6) (r.size - (n + 6))
                (o + r.size) o (first_free (o + r.size) rs) two zip u zip.after.2 (omega arith)
                (omega arith) (ground arith) low
                (λ e.
                  lt→ltb (o + (n + 6)) h.lfree (omega (arith, e, first_free-ge (o + r.size) rs)))
                (λ le. le→ltb (o + (n + 6)) h.lfree (omega (arith, le))) plugs.0
                (used-end h.cells (o + r.size) o (r.size - (n + 6)) rs zip.after.2 taken, plugs.1.1)
                y.based)
      ]

shrink-Layout :
    (P : ℕ → Type 0) (h : Heap) (ls : Parts) (r : Part) (rs : Parts) (n : ℕ)
    → Layout h (onto ls (r ∷ rs))
    → r.used ≡ true
    → 12 ≤ n
    → n + 6 ≤ r.size
    → (r.size == n + 6) ≡ false
    → Clear P ls (shrunk n r rs)
    → Layout (shrink (total ls) n h) (onto ls (shrunk n r rs)) × Same P h (shrink (total ls) n h)
unfolding shrink
shrink-Layout P h ls r [] n y u small large more d =
    let z : Zip h.cells ls (r ∷ []) = Zip-onto h.cells ls (r ∷ []) y.zip in
    shrink_next_used P h ls r [] n y u small large d
      (ap (λ (o : ℕ). (h.cells o).used) z.after.2 ∙ z.end.0)
shrink-Layout P h ls r (s ∷ rs) n y u small large more d =
    let z : Zip h.cells ls (r ∷ s ∷ rs) = Zip-onto h.cells ls (r ∷ s ∷ rs) y.zip in
    elim (Bool-cases s.used) [
      | inl v ↦
          let own : Parts =
            if leb (n + 24) r.size
            then busy (n + 6) ∷ hole (r.size - (n + 6)) ∷ s ∷ rs
            else r ∷ s ∷ rs in
          let shape : shrunk n r (s ∷ rs) ≡ own =
            ap₂
              (λ (a b : Bool).
                if a
                then r ∷ s ∷ rs
                else if b
                then own
                else busy (n + 6) ∷ hole (r.size - (n + 6) + s.size) ∷ rs)
              more v in
          subst
            (λ ts. Layout (shrink (total ls) n h) (onto ls ts) × Same P h (shrink (total ls) n h))
            (sym shape)
            (shrink_next_used P h ls r (s ∷ rs) n y u small large (subst (Clear P ls) shape d)
              (ap (λ (b : Block). b.used) z.after.2.0 ∙ v))
      | inr v ↦
          let o : ℕ = total ls in
          let e : ℕ = o + r.size in
          let here : h.cells o ≡ head o (prev_of ls) r = z.after.0 in
          let there : h.cells e ≡ head e o s = z.after.2.0 in
          let end : e + s.size ≤ mem_size = After-le h.cells (e + s.size) e rs z.after.2.2 in
          let at : u16 (o + 6 + n) ≡ o + (n + 6) = omega arith in
          let joined : Clear P ls (busy (n + 6) ∷ hole (r.size - (n + 6) + s.size) ∷ rs) =
            rw (more, v) at d in
          let (p, q, a) = onto-Plugged ls (r ∷ s ∷ rs) y.plugged in
          let low : h.lfree ≡ lowest ls e =
            y.lfree
            ∙ first_free-onto ls (r ∷ s ∷ rs)
            ∙ ap₂
                (λ (b c : Bool).
                  lowest ls (if b then (if c then first_free (e + s.size) rs else e) else o))
                u v in
          rw (more, here, there, v, at)
            (cut_off P (h.lfree == e) h ls r (s ∷ rs) rs (n + 6) (r.size - (n + 6) + s.size)
              (e + s.size) e e joined z u z.after.2.2 (omega arith) (omega arith)
              (omega (arith, z.after.2.1)) low (λ t. ground arith)
              (λ le. ne→== h.lfree e (λ t. omega (arith, z.after.1))) p
              (Apart-free s (r.size - (n + 6) + s.size) [] rs v q.1.0, q.1.1) y.based)
    ]

shrunk_same : (n : ℕ) (r : Part) (rs : Parts) → r.size ≡ n + 6 → shrunk n r rs ≡ r ∷ rs
shrunk_same n r [] e =
    let short : leb (n + 24) r.size ≡ false = lt→leb (n + 24) r.size (omega arith) in rw short refl
shrunk_same n r (s ∷ rs) e = let same : (r.size == n + 6) ≡ true = ground arith in rw same refl

-- On a heap in order mem_realloc of a block in use, wherever it lies, to a size that is no larger
-- than the block's, fails no assertion and returns the same address. The bytes that are no longer
-- wanted go to the next block, if that is free, or else become a free block if they are enough for
-- one; `lfree` is the lowest free block again, no byte of user data of the blocks in use has changed,
-- among them what this block keeps, and `cells` and `bytes` are in step if they were.
pub realloc-Layout :
    (h : Heap) (ls : Parts) (r : Part) (rs : Parts) (newsize : ℕ)
    → Layout h (onto ls (r ∷ rs))
    → r.used ≡ true
    → request newsize + 6 ≤ r.size
    → Returns
        (λ a g.
          (a ≡ h.ram + total ls + 6)
          × Layout g (onto ls (shrunk (request newsize) r rs))
          × Same (Data ls (shrunk (request newsize) r rs)) h g)
        (realloc (h.ram + total ls + 6) newsize h)
unfolding realloc
realloc-Layout h ls r rs newsize y u large =
    let n : ℕ = request newsize in
    let o : ℕ = total ls in
    let z : Zip h.cells ls (r ∷ rs) = Zip-onto h.cells ls (r ∷ rs) y.zip in
    let here : h.cells o ≡ head o (prev_of ls) r = z.after.0 in
    let end : o + r.size ≤ mem_size = After-le h.cells (o + r.size) o rs z.after.2 in
    let few : ltb mem_size n ≡ false = le→ltb mem_size n (omega arith) in
    let lower : leb h.ram (h.ram + o + 6) ≡ true = le→leb h.ram (h.ram + o + 6) (omega arith) in
    let upper : ltb (h.ram + o + 6) (h.ram + mem_size) ≡ true =
      lt→ltb (h.ram + o + 6) (h.ram + mem_size) (omega (arith, z.after.1)) in
    let data_of : ltb (h.ram + o + 6) (h.ram + 6) ≡ false =
      le→ltb (h.ram + o + 6) (h.ram + 6) (omega arith) in
    let mem : h.ram + o + 6 - 6 - h.ram ≡ o = omega arith in
    let size : o + r.size - o - 6 ≡ r.size - 6 = omega arith in
    let can : leb n (r.size - 6) ≡ true = le→leb n (r.size - 6) (omega arith) in
    let kept : ltb (r.size - 6) n ≡ false = le→ltb (r.size - 6) n (omega arith) in
    elim (Bool-cases (n == r.size - 6)) [
      | inl t ↦
          rw
            (
              few,
              lower,
              upper,
              data_of,
              mem,
              here,
              size,
              can,
              kept,
              t,
              shrunk_same n r rs (ground arith),
            )
            (returns (refl, y, record { ram = refl; bytes = λ a p. refl; sync = λ s. s }))
      | inr t ↦
          let P : ℕ → Type 0 = Data ls (shrunk n r rs) in
          let cut : Layout (shrink o n h) (onto ls (shrunk n r rs)) × Same P h (shrink o n h) =
            shrink-Layout P h ls r rs n y u (request-ge newsize) large (ground arith)
              (Data-Clear h.cells ls (shrunk n r rs) z.before) in
          rw (few, lower, upper, data_of, mem, here, size, can, kept, t)
            (returns (refl, cut.0, cut.1))
    ]
