-- ===== src/Mem/Calloc.antt =====
-- mem_calloc of lwip/src/core/mem.c.
use ocaml_lwip.Base.{
  ℕ, ◌+◌, ◌-◌, ◌*◌, ◌^◌, ◌<◌, ◌≤◌, ◌≡◌, ◌≢◌, inl, inr, refl, subst, [], ◌∷◌, true, false, arith,
  Bool-cases, Returns, returns, Returns-bind, ltb, leb, ◌==◌, ◌&&◌, ok, fault, u16, le→leb, lt→leb,
  lt→ltb, ne→==, ==→eq, ==→ne, Option, none, some,
}
use ocaml_lwip.Mem.{Heap, mem_size, null, malloc, calloc, clear, request}
use ocaml_lwip.Mem.Parts.{Part, Parts, placed}
use ocaml_lwip.Mem.Layout.{Layout}
use ocaml_lwip.Mem.Data.{Same, Same-self, Same-mono, Data, Data-onto, Data-placed}
use ocaml_lwip.Mem.Split.{fits-free}
use ocaml_lwip.Mem.Malloc.{Granted, malloc-Granted}
use ocaml_lwip.Mem.Fit.{FoundIn, granted, Granted-Spare, granted-FoundIn}

-- The `n` bytes at `p` are zero, and those of the other blocks in use among `bs` as before.
pub record Cleared (h g : Heap) (bs : Parts) (n p : ℕ) : Type 0 where
  pub zeroed : (i : ℕ) → i < n → g.bytes (p - h.ram + i) ≡ 0
  pub lower : (x : ℕ) → Data [] bs x → x < p - h.ram → g.bytes x ≡ h.bytes x
  pub upper : (x : ℕ) → Data [] bs x → p - h.ram + n ≤ x → g.bytes x ≡ h.bytes x

Granted-Same :
    (h g : Heap) (bs : Parts) (size a : ℕ) (o : Option (Parts × Part × Parts))
    → FoundIn size bs o
    → Granted h size o a g
    → Same (Data [] bs) h g
Granted-Same h g bs size a none f (isnull, same) = rw same (Same-self (Data [] bs) h)
Granted-Same h g bs size a (some (ls, r, rs)) (whole, large) (at, after, same) =
    let (free, room) = fits-free size r large in
    Same-mono (Data ls (placed size r rs)) (Data [] bs) h g
      (λ x d.
        Data-placed size ls r rs x free room
          (Data-onto ls (r ∷ rs) x (subst (λ t. Data [] t x) whole d)))
      same

clear-Cleared :
    (h g : Heap) (bs : Parts) (n p : ℕ)
    → Same (Data [] bs) h g
    → p - h.ram + n ≤ mem_size
    → Returns (λ _ f. Cleared h f bs n p) (clear (p - g.ram) n g)
unfolding clear
clear-Cleared h g bs n p same le =
    let fits : leb (p - h.ram + n) mem_size ≡ true = le→leb (p - h.ram + n) mem_size le in
    rw (same.ram, fits)
      (returns (record {
        zeroed = λ i lt.
            let a : leb (p - h.ram) (p - h.ram + i) ≡ true =
              le→leb (p - h.ram) (p - h.ram + i) (omega arith) in
            let b : ltb (p - h.ram + i - (p - h.ram)) n ≡ true =
              lt→ltb (p - h.ram + i - (p - h.ram)) n (omega arith) in
            rw (a, b) refl;
        lower = λ x d lt.
            let a : leb (p - h.ram) x ≡ false = lt→leb (p - h.ram) x lt in rw a (same.bytes x d);
        upper = λ x d le.
            let a : (leb (p - h.ram) x && ltb (x - (p - h.ram)) n) ≡ false = ground arith in
            rw a (same.bytes x d);
      }))

-- Where the product fits into mem_size_t and the heap is in order mem_calloc returns, and unless it
-- returns NULL the bytes asked for are zero and those of the blocks in use before are as they were.
pub calloc-Cleared :
    (h : Heap) (bs : Parts) (count size : ℕ)
    → Layout h bs
    → count * size < 2 ^ 16
    → Returns (λ p g. p ≢ null → Cleared h g bs (count * size) p) (calloc count size h)
unfolding calloc
calloc-Cleared h bs count size y lt =
    let n : ℕ = count * size in
    let whole : u16 n ≡ n = omega arith in
    let o : Option (Parts × Part × Parts) = granted n bs in
    rw whole (
      Returns-bind (malloc-Granted h bs n y) (λ p g t. elim (Bool-cases (p == null)) [
        | inl z ↦ rw z (returns (λ nn. absurd (nn (==→eq p null z))))
        | inr z ↦
            let (low, high, spare) =
              Granted-Spare h g bs n p o y (granted-FoundIn n bs) t (==→ne p null z) in
            let same : Same (Data [] bs) h g =
              Granted-Same h g bs (request n) p o (granted-FoundIn n bs) t in
            rw z (
              Returns-bind (clear-Cleared h g bs n p same (omega arith))
                (λ _ f c. returns (λ _. c)))
      ]))

-- For a product of 2^16 or more mem_malloc is asked for its low 16 bits only; whenever it has room
-- for them, memset then writes past the end of the heap.
pub calloc_overflow :
    (h g : Heap) (count size p : ℕ)
    → 2 ^ 16 ≤ count * size
    → malloc (u16 (count * size)) h ≡ ok p g
    → p ≢ null
    → calloc count size h ≡ fault
unfolding calloc clear
calloc_overflow h g count size p le got nn =
    let there : (p == null) ≡ false = ne→== p null nn in
    let past : leb (p - g.ram + count * size) mem_size ≡ false =
      lt→leb (p - g.ram + count * size) mem_size (omega arith) in
    rw (got, there, past) refl
