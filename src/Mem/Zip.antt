-- ===== src/Mem/Zip.antt =====
-- The blocks of lwip/src/core/mem.c in memory: each struct mem links the next block and the one
-- before it. A heap is read at a block: those before it backwards, those from it on forwards.
use ocaml_lwip.Base.{
  ℕ, ◌+◌, ◌≤◌, ◌<◌, ◌≡◌, ◌⊎◌, inl, inr, refl, ap, ◌∙◌, ◌||◌, leb, ◌==◌, true, false, [], ◌∷◌, arith,
  ==_self, ne→==,
}
use ocaml_lwip.Mem.{Heap, Block, mem_size, write, set_prev}
use ocaml_lwip.Mem.Parts.{Part, Parts, total, onto}

-- The struct mem of a block.
abbrev pub head : ℕ → ℕ → Part → Block
head o p r = record { next = o + r.size; prev = p; used = r.used }

-- The smallest block: a struct mem and MIN_SIZE_ALIGNED bytes.
abbrev pub least : ℕ
least = 18

-- `prev` of the block behind those of a list; the first block is its own.
abbrev pub prev_of : Parts → ℕ
prev_of [] = 0
prev_of (l ∷ ls) = total ls

-- `ram`, read as a struct mem at each offset.
abbrev pub Cells : Type 0
Cells = ℕ → Block

abbrev pub Before : Cells → Parts → Type 0
Before c [] = Unit {0}
Before c (l ∷ ls) = (c (total ls) ≡ head (total ls) (prev_of ls) l) × (least ≤ l.size) × Before c ls

-- The blocks of a list from `o` to the end of the heap, the first linked back to `p`.
abbrev pub After : Cells → ℕ → ℕ → Parts → Type 0
After c o p [] = o ≡ mem_size
After c o p (r ∷ rs) = (c o ≡ head o p r) × (least ≤ r.size) × After c (o + r.size) o rs

-- The struct mem at `ram_end`.
abbrev pub End : Cells → Type 0
End c = ((c mem_size).used ≡ true) × ((c mem_size).next ≡ mem_size)

-- The blocks and the struct mem at `ram_end`, which is in use for ever.
pub record Zip (c : Cells) (ls rs : Parts) : Type 0 where
  pub before : Before c ls
  pub after : After c (total ls) (prev_of ls) rs
  pub end : End c

pub step_in : (c : Cells) (l : Part) (ls rs : Parts) → Zip c ls (l ∷ rs) → Zip c (l ∷ ls) rs
step_in c l ls rs z = record {
  before = (z.after.0, z.after.1, z.before);
  after = z.after.2;
  end = z.end;
}

pub step_out : (c : Cells) (l : Part) (ls rs : Parts) → Zip c (l ∷ ls) rs → Zip c ls (l ∷ rs)
step_out c l ls rs z = record {
  before = z.before.2;
  after = (z.before.0, z.before.1, z.after);
  end = z.end;
}

pub Zip-onto : (c : Cells) (ls rs : Parts) → Zip c [] (onto ls rs) → Zip c ls rs
Zip-onto c [] rs z = z
Zip-onto c (l ∷ ls) rs z = step_in c l ls rs (Zip-onto c ls (l ∷ rs) z)

pub onto-Zip : (c : Cells) (ls rs : Parts) → Zip c ls rs → Zip c [] (onto ls rs)
onto-Zip c [] rs z = z
onto-Zip c (l ∷ ls) rs z = onto-Zip c ls (l ∷ rs) (step_out c l ls rs z)

pub After-le : (c : Cells) (o p : ℕ) (rs : Parts) → After c o p rs → o ≤ mem_size
After-le c o p [] a = omega arith
After-le c o p (r ∷ rs) a = omega (arith, After-le c (o + r.size) o rs a.2)

pub write_self : (h : Heap) (o : ℕ) (b : Block) → (write o b h).cells o ≡ b
unfolding write
write_self h o b = rw (==_self o) refl

pub write_ne :
    (h : Heap) (o a : ℕ) (b : Block) → (a + 5 ≤ o) ⊎ (o + 5 ≤ a) → (write o b h).cells a ≡ h.cells a
unfolding write
write_ne h o a b d =
    let ne : (a == o) ≡ false =
      ne→== a o (λ e. elim d [ inl x ↦ omega (arith, x, e) | inr x ↦ omega (arith, x, e) ]) in
    let far : (leb (a + 5) o || leb (o + 5) a) ≡ true = ground arith in rw (ne, far) refl

pub Before-write :
    (h : Heap) (o : ℕ) (b : Block) (ls : Parts)
    → total ls ≤ o
    → Before h.cells ls
    → Before (write o b h).cells ls
Before-write h o b [] le z = tt
Before-write h o b (l ∷ ls) le z =
    let lt : total ls < o = omega (arith, z.1) in
    (
      write_ne h o (total ls) b (inl (omega (arith, z.1))) ∙ z.0,
      z.1,
      Before-write h o b ls (omega arith) z.2,
    )

pub After-write :
    (h : Heap) (a : ℕ) (b : Block) (o p : ℕ) (rs : Parts)
    → a + 5 ≤ o
    → After h.cells o p rs
    → After (write a b h).cells o p rs
After-write h a b o p [] lt z = z
After-write h a b o p (r ∷ rs) lt z = (
  write_ne h a o b (inr (omega arith)) ∙ z.0,
  z.1,
  After-write h a b (o + r.size) o rs (omega arith) z.2,
)

-- The first block, or the end of the heap, linked back elsewhere.
pub After-set_prev :
    (h : Heap) (o p q : ℕ) (rs : Parts) → After h.cells o p rs → After (set_prev o q h).cells o q rs
unfolding set_prev
After-set_prev h o p q [] z = z
After-set_prev h o p q (r ∷ rs) z = (
  write_self h o (record (h.cells o) { prev = q }) ∙ ap (λ (b : Block). record b { prev = q }) z.0,
  z.1,
  After-write h o (record (h.cells o) { prev = q }) (o + r.size) o rs (omega (arith, z.1)) z.2,
)
