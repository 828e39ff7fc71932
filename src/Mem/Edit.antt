-- ===== src/Mem/Edit.antt =====
-- What the writes of lwip/src/core/mem.c to a struct mem and its neighbours do to the blocks.
use ocaml_lwip.Base.{
  ℕ, ◌+◌, ◌≤◌, ◌≡◌, ◌⊎◌, refl, ap, sym, subst, ◌∙◌, Bool, false, [], ◌∷◌, arith, ◌==◌, ne→==, inl,
  inr, Bool-cases,
}
use ocaml_lwip.Mem.{Heap, Block, mem_size, write, set_prev, set_used, fuse, link_back}
use ocaml_lwip.Mem.Parts.{Part, Parts, total}
use ocaml_lwip.Mem.Zip.{
  head, least, prev_of, Before, After, End, Zip, write_self, write_ne, Before-write, After-write,
  After-set_prev, After-le,
}

End-write :
    (h : Heap) (o : ℕ) (b : Block) → o + 5 ≤ mem_size → End h.cells → End (write o b h).cells
End-write h o b lt e =
    let same : (write o b h).cells mem_size ≡ h.cells mem_size =
      write_ne h o mem_size b (inr (omega arith)) in
    (ap (λ (c : Block). c.used) same ∙ e.0, ap (λ (c : Block). c.next) same ∙ e.1)

End-set_prev :
    (h : Heap) (o q : ℕ)
    → (o ≡ mem_size) ⊎ (o + 5 ≤ mem_size)
    → End h.cells
    → End (set_prev o q h).cells
unfolding set_prev
End-set_prev h o q (inl y) e =
    let b : Block = record (h.cells mem_size) { prev = q } in
    let same : (write mem_size b h).cells mem_size ≡ b = write_self h mem_size b in
    subst (λ (n : ℕ). End (set_prev n q h).cells) (sym y)
      (ap (λ (c : Block). c.used) same ∙ e.0, ap (λ (c : Block). c.next) same ∙ e.1)
End-set_prev h o q (inr n) e = End-write h o (record (h.cells o) { prev = q }) n e

-- The end of the heap, or a block.
After-place :
    (c : ℕ → Block) (o p : ℕ) (rs : Parts) → After c o p rs → (o ≡ mem_size) ⊎ (o + 5 ≤ mem_size)
After-place c o p [] a = inl a
After-place c o p (r ∷ rs) a = inr (omega (arith, a.1, After-le c (o + r.size) o rs a.2))

-- The block is marked used or unused.
pub Zip-set_used :
    (h : Heap) (u : Bool) (ls : Parts) (r : Part) (rs : Parts)
    → Zip h.cells ls (r ∷ rs)
    → Zip (set_used (total ls) u h).cells ls (record { size = r.size; used = u } ∷ rs)
unfolding set_used
Zip-set_used h u ls r rs z =
    let b : Block = record (h.cells (total ls)) { used = u } in
    let o : ℕ = total ls in
    let end : o + r.size ≤ mem_size = After-le h.cells (o + r.size) o rs z.after.2 in
    record {
      before = Before-write h o b ls (omega arith) z.before;
      after = (
        write_self h o b ∙ ap (λ (c : Block). record c { used = u }) z.after.0,
        z.after.1,
        After-write h o b (o + r.size) o rs (omega (arith, z.after.1)) z.after.2,
      );
      end = End-write h o b (omega (arith, z.after.1)) z.end;
    }

-- A block takes the next one in.
pub Zip-fuse :
    (h : Heap) (ls : Parts) (r s : Part) (rs : Parts)
    → Zip h.cells ls (r ∷ s ∷ rs)
    → Zip
        (fuse (total ls) (total ls + r.size + s.size) h).cells
        ls
        (record { size = r.size + s.size; used = r.used } ∷ rs)
unfolding fuse
Zip-fuse h ls r s rs z =
    let o : ℕ = total ls in
    let e : ℕ = o + r.size + s.size in
    let b : Block = record (h.cells o) { next = e } in
    let g : Heap = write o b h in
    let stop : e ≤ mem_size = After-le h.cells e (o + r.size) rs z.after.2.2 in
    let rest : After g.cells e (o + r.size) rs =
      After-write h o b e (o + r.size) rs (omega (arith, z.after.1)) z.after.2.2 in
    let assoc : o + (r.size + s.size) ≡ e = omega arith in
    let there : g.cells o ≡ head o (prev_of ls) (record { size = r.size + s.size; used = r.used }) =
      write_self h o b
      ∙ ap (λ (c : Block). record c { next = e }) z.after.0
      ∙ ap (λ (n : ℕ). record { next = n; prev = prev_of ls; used = r.used }) (omega arith) in
    record {
      before =
          Before-write g e (record (g.cells e) { prev = o }) ls (omega arith)
            (Before-write h o b ls (omega arith) z.before);
      after = (
        write_ne g e o (record (g.cells e) { prev = o }) (inl (omega (arith, z.after.1))) ∙ there,
        omega (arith, z.after.1),
        rw assoc (After-set_prev g e (o + r.size) o rs rest),
      );
      end =
          End-set_prev g e o (After-place g.cells e (o + r.size) rs rest)
            (End-write h o b (omega (arith, z.after.1)) z.end);
    }

-- The block behind is linked back; at the end of the heap there is none.
link_back_ne : (h : Heap) (e q a : ℕ) → a + 5 ≤ e → (link_back e q h).cells a ≡ h.cells a
unfolding link_back set_prev
link_back_ne h e q a ne = elim (Bool-cases (e == mem_size)) [
  | inl y ↦ rw y refl
  | inr n ↦ rw n (write_ne h e a (record (h.cells e) { prev = q }) (inl ne))
]

After-link_back :
    (h : Heap) (e p q : ℕ) (rs : Parts)
    → After h.cells e p rs
    → After (link_back e q h).cells e q rs
unfolding link_back
After-link_back h e p q [] z = z
After-link_back h e p q (r ∷ rs) z =
    let le : e + r.size ≤ mem_size = After-le h.cells (e + r.size) e rs z.2 in
    let more : (e == mem_size) ≡ false = ne→== e mem_size (λ y. omega (arith, z.1)) in
    let same : link_back e q h ≡ set_prev e q h = rw more refl in
    subst (λ g. After g.cells e q (r ∷ rs)) (sym same) (After-set_prev h e p q (r ∷ rs) z)

Before-link_back :
    (h : Heap) (e q : ℕ) (ls : Parts)
    → total ls ≤ e
    → Before h.cells ls
    → Before (link_back e q h).cells ls
unfolding link_back set_prev
Before-link_back h e q ls le z = elim (Bool-cases (e == mem_size)) [
  | inl y ↦ rw y z
  | inr n ↦ rw n (Before-write h e (record (h.cells e) { prev = q }) ls le z)
]

End-link_back :
    (h : Heap) (e q : ℕ)
    → (e ≡ mem_size) ⊎ (e + 5 ≤ mem_size)
    → End h.cells
    → End (link_back e q h).cells
unfolding link_back
End-link_back h e q d z = elim (Bool-cases (e == mem_size)) [
  | inl y ↦ rw y z
  | inr n ↦ rw n (End-set_prev h e q d z)
]

-- Two blocks, of `n` and `m` bytes, between those before and those from `e` on.
pub Zip-cut :
    (h : Heap) (ls rs : Parts) (e p n m : ℕ) (u v : Bool)
    → Before h.cells ls
    → After h.cells e p rs
    → End h.cells
    → total ls + n + m ≡ e
    → least ≤ n
    → least ≤ m
    → let o : ℕ = total ls in
      let g : Heap =
        write o
          (record { next = o + n; prev = prev_of ls; used = u })
          (write (o + n) (record { next = e; prev = o; used = v }) h) in
      Zip
        (link_back e (o + n) g).cells
        ls
        (record { size = n; used = u } ∷ record { size = m; used = v } ∷ rs)
Zip-cut h ls rs e p n m u v before after end eq ln lm =
    let o : ℕ = total ls in
    let b : Block = record { next = e; prev = o; used = v } in
    let c : Block = record { next = o + n; prev = prev_of ls; used = u } in
    let g : Heap = write (o + n) b h in
    let f : Heap = write o c g in
    let stop : e ≤ mem_size = After-le h.cells e p rs after in
    let rest : After f.cells e p rs =
      After-write g o c e p rs (omega arith) (After-write h (o + n) b e p rs (omega arith) after) in
    let assoc : o + n + m ≡ e = omega arith in
    record {
      before =
          Before-link_back f e (o + n) ls (omega arith) (
            Before-write g o c ls (omega arith) (Before-write h (o + n) b ls (omega arith) before));
      after = (
        link_back_ne f e (o + n) o (omega arith) ∙ write_self g o c,
        ln,
        (
          link_back_ne f e (o + n) (o + n) (omega arith)
              ∙ write_ne g o (o + n) c (inr (omega arith))
              ∙ write_self h (o + n) b
              ∙ rw assoc refl,
          lm,
          rw assoc (After-link_back f e p (o + n) rs rest),
        ),
      );
      end =
          End-link_back f e (o + n) (After-place f.cells e p rs rest)
            (End-write g o c (omega arith) (End-write h (o + n) b (omega arith) end));
    }

-- A block cut in two.
pub Zip-split :
    (h : Heap) (ls : Parts) (r : Part) (rs : Parts) (n m : ℕ) (u v : Bool)
    → Zip h.cells ls (r ∷ rs)
    → n + m ≡ r.size
    → least ≤ n
    → least ≤ m
    → let o : ℕ = total ls in
      let g : Heap =
        write o
          (record { next = o + n; prev = prev_of ls; used = u })
          (write (o + n) (record { next = o + r.size; prev = o; used = v }) h) in
      Zip
        (link_back (o + r.size) (o + n) g).cells
        ls
        (record { size = n; used = u } ∷ record { size = m; used = v } ∷ rs)
Zip-split h ls r rs n m u v z eq ln lm =
    Zip-cut h ls rs (total ls + r.size) (total ls) n m u v z.before z.after.2 z.end (omega arith) ln
      lm
