-- ===== src/Mem/Data.antt =====
-- The user data of the blocks of lwip/src/core/mem.c, and the places of their struct mem, which the
-- functions write.
use ocaml_lwip.Base.{
  ℕ, ◌+◌, ◌-◌, ◌≤◌, ◌<◌, ◌≡◌, ◌⊎◌, inl, inr, refl, ◌∙◌, Bool, true, false, [], ◌∷◌, arith, ◌==◌,
  leb, Bool-cases, ne→==, ap, sym, subst,
}
use ocaml_lwip.Mem.{
  Heap, Block, mem_size, write, set_next, set_prev, set_used, fuse, link_back, sizeof_struct_mem,
  image,
}
use ocaml_lwip.Mem.Parts.{Part, Parts, total, onto, placed}
use ocaml_lwip.Mem.Sync.{InSync, write-InSync}
use ocaml_lwip.Mem.Zip.{Cells, Before}

-- `a` is a byte of user data of the block at `o`, which is in use.
abbrev pub Inside : (o : ℕ) → Part → (a : ℕ) → Type 0
Inside o r a = (r.used ≡ true) × (o + sizeof_struct_mem ≤ a) × (a < o + r.size)

abbrev pub DataBefore : Parts → ℕ → Type 0
DataBefore [] a = 1 ≤ 0
DataBefore (l ∷ ls) a = Inside (total ls) l a ⊎ DataBefore ls a

abbrev pub DataAfter : ℕ → Parts → ℕ → Type 0
DataAfter o [] a = 1 ≤ 0
DataAfter o (r ∷ rs) a = Inside o r a ⊎ DataAfter (o + r.size) rs a

-- `a` is a byte of user data of a block in use, of those of a heap read at a block.
abbrev pub Data : (ls rs : Parts) → ℕ → Type 0
Data ls rs a = DataBefore ls a ⊎ DataAfter (total ls) rs a

-- A struct mem at `o` has none of the bytes of `P`.
abbrev pub Off : (ℕ → Type 0) → ℕ → Type 0
Off P o = (a : ℕ) → P a → (a < o) ⊎ (o + sizeof_struct_mem ≤ a)

abbrev pub OffBefore : (ℕ → Type 0) → Parts → Type 0
OffBefore P [] = Unit {0}
OffBefore P (l ∷ ls) = Off P (total ls) × OffBefore P ls

abbrev pub OffAfter : (ℕ → Type 0) → ℕ → Parts → Type 0
OffAfter P o [] = Off P o
OffAfter P o (r ∷ rs) = Off P o × OffAfter P (o + r.size) rs

-- No struct mem of a heap read at a block has any of the bytes of `P`.
abbrev pub Clear : (ℕ → Type 0) → (ls rs : Parts) → Type 0
Clear P ls rs = OffBefore P ls × OffAfter P (total ls) rs

pub first-Off : (P : ℕ → Type 0) (o : ℕ) (rs : Parts) → OffAfter P o rs → Off P o
first-Off P o [] d = d
first-Off P o (r ∷ rs) d = d.0

below : (ls : Parts) (a : ℕ) → DataBefore ls a → a < total ls
below [] a d = absurd (omega (arith, d))
below (l ∷ ls) a (inl i) = omega (arith, i.2)
below (l ∷ ls) a (inr d) = omega (arith, below ls a d)

above : (o : ℕ) (rs : Parts) (a : ℕ) → DataAfter o rs a → o + 6 ≤ a
above o [] a d = absurd (omega (arith, d))
above o (r ∷ rs) a (inl i) = i.1
above o (r ∷ rs) a (inr d) = omega (arith, above (o + r.size) rs a d)

OffAfter-mono :
    (P Q : ℕ → Type 0)
    → ((a : ℕ) → Q a → P a)
    → (o : ℕ) (rs : Parts) → OffAfter P o rs
    → OffAfter Q o rs
OffAfter-mono P Q f o [] d = λ a q. d a (f a q)
OffAfter-mono P Q f o (r ∷ rs) d = ((λ a q. d.0 a (f a q)), OffAfter-mono P Q f (o + r.size) rs d.1)

OffBefore-mono :
    (P Q : ℕ → Type 0) → ((a : ℕ) → Q a → P a) → (ls : Parts) → OffBefore P ls → OffBefore Q ls
OffBefore-mono P Q f [] d = tt
OffBefore-mono P Q f (l ∷ ls) d = ((λ a q. d.0 a (f a q)), OffBefore-mono P Q f ls d.1)

behind-Off :
    (Q : ℕ → Type 0) (o : ℕ) (rs : Parts)
    → ((a : ℕ) → Q a → a < o)
    → OffAfter (λ a. Q a ⊎ DataAfter o rs a) o rs
behind-Off Q o [] lt = λ a d. elim d [ inl q ↦ inl (lt a q) | inr n ↦ absurd (omega (arith, n)) ]
behind-Off Q o (r ∷ rs) lt = (
  (λ a d. elim d [ inl q ↦ inl (lt a q) | inr n ↦ inr (above o (r ∷ rs) a n) ]),
  OffAfter-mono (λ a. (Q a ⊎ Inside o r a) ⊎ DataAfter (o + r.size) rs a)
      (λ a. Q a ⊎ DataAfter o (r ∷ rs) a)
      (λ a d. elim d [
        | inl q ↦ inl (inl q)
        | inr n ↦ elim n [ inl i ↦ inl (inr i) | inr m ↦ inr m ]
      ])
      (o + r.size) rs
      (behind-Off (λ a. Q a ⊎ Inside o r a) (o + r.size) rs
        (λ a d. elim d [ inl q ↦ omega (arith, lt a q) | inr i ↦ i.2 ])),
)

ahead-Off :
    (c : Cells) (Q : ℕ → Type 0) (ls : Parts)
    → Before c ls
    → ((a : ℕ) → Q a → total ls ≤ a)
    → OffBefore (λ a. DataBefore ls a ⊎ Q a) ls
ahead-Off c Q [] z ge = tt
ahead-Off c Q (l ∷ ls) z ge = (
  (λ a d. elim d [
    | inl n ↦ elim n [ inl i ↦ inr i.1 | inr m ↦ inl (below ls a m) ]
    | inr q ↦ inr (omega (arith, ge a q, z.1))
  ]),
  OffBefore-mono (λ a. DataBefore ls a ⊎ (Inside (total ls) l a ⊎ Q a))
      (λ a. DataBefore (l ∷ ls) a ⊎ Q a)
      (λ a d. elim d [
        | inl n ↦ elim n [ inl i ↦ inr (inl i) | inr m ↦ inl m ]
        | inr q ↦ inr (inr q)
      ])
      ls
      (ahead-Off c (λ a. Inside (total ls) l a ⊎ Q a) ls z.2
        (λ a d. elim d [ inl i ↦ omega (arith, i.1) | inr q ↦ omega (arith, ge a q) ])),
)

at_least : (o : ℕ) (rs : Parts) (a : ℕ) → DataAfter o rs a → o ≤ a
at_least o rs a d = omega (arith, above o rs a d)

-- No struct mem has a byte of user data.
pub Data-Clear : (c : Cells) (ls rs : Parts) → Before c ls → Clear (Data ls rs) ls rs
Data-Clear c ls rs z = (
  ahead-Off c (λ a. DataAfter (total ls) rs a) ls z (λ a d. at_least (total ls) rs a d),
  behind-Off (λ a. DataBefore ls a) (total ls) rs (λ a d. below ls a d),
)

pub Data-onto : (ls rs : Parts) (a : ℕ) → Data [] (onto ls rs) a → Data ls rs a
Data-onto [] rs a d = d
Data-onto (l ∷ ls) rs a d = elim (Data-onto ls (l ∷ rs) a d) [
  | inl n ↦ inl (inr n)
  | inr n ↦ elim n [ inl i ↦ inl (inl i) | inr m ↦ inr m ]
]

-- `g` is at the address of `h`, with the same bytes where `P` holds; its two views of `ram` are in
-- step where those of `h` are.
pub record Same (P : ℕ → Type 0) (h g : Heap) : Type 0 where
  pub ram : g.ram ≡ h.ram
  pub bytes : (a : ℕ) → P a → g.bytes a ≡ h.bytes a
  pub sync : InSync h → InSync g

pub Same-self : (P : ℕ → Type 0) (h : Heap) → Same P h h
Same-self P h = record { ram = refl; bytes = λ a p. refl; sync = λ s. s }

pub Same-trans : (P : ℕ → Type 0) (f g h : Heap) → Same P f g → Same P g h → Same P f h
Same-trans P f g h a b = record {
  ram = b.ram ∙ a.ram;
  bytes = λ x p. b.bytes x p ∙ a.bytes x p;
  sync = λ s. b.sync (a.sync s);
}

pub Same-mono : (P Q : ℕ → Type 0) (h g : Heap) → ((a : ℕ) → Q a → P a) → Same P h g → Same Q h g
Same-mono P Q h g f s = record { ram = s.ram; bytes = λ a q. s.bytes a (f a q); sync = s.sync }

image-Off : (o : ℕ) (b : Block) (m : ℕ → ℕ) (a : ℕ) → (a < o) ⊎ (o + 6 ≤ a) → image o b m a ≡ m a
image-Off o b m a d =
    let ne : (k : ℕ) → k < 6 → (a == o + k) ≡ false = λ k lt.
      ne→== a (o + k)
        (λ z. elim d [ inl x ↦ omega (arith, x, z, lt) | inr y ↦ omega (arith, y, z, lt) ]) in
    let zero_off : o + 0 ≡ o = omega arith in
    let first : (a == o) ≡ false = ap (λ (n : ℕ). a == n) (sym zero_off) ∙ ne 0 (omega arith) in
    rw (first, ne 1 (omega arith), ne 2 (omega arith), ne 3 (omega arith), ne 4 (omega arith)) refl

pub write-Same : (P : ℕ → Type 0) (o : ℕ) (b : Block) (h : Heap) → Off P o → Same P h (write o b h)
unfolding write
write-Same P o b h off = record {
  ram = refl;
  bytes = λ a p. image-Off o b h.bytes a (off a p);
  sync = write-InSync o b h;
}

pub set_used-Same :
    (P : ℕ → Type 0) (o : ℕ) (u : Bool) (h : Heap) → Off P o → Same P h (set_used o u h)
unfolding set_used
set_used-Same P o u h off = write-Same P o (record (h.cells o) { used = u }) h off

pub fuse-Same :
    (P : ℕ → Type 0) (mem next : ℕ) (h : Heap) → Off P mem → Off P next → Same P h (fuse mem next h)
unfolding fuse set_next set_prev
fuse-Same P mem next h off off' =
    let g : Heap = write mem (record (h.cells mem) { next = next }) h in
    Same-trans P h g (write next (record (g.cells next) { prev = mem }) g)
      (write-Same P mem (record (h.cells mem) { next = next }) h off)
      (write-Same P next (record (g.cells next) { prev = mem }) g off')

pub link_back-Same :
    (P : ℕ → Type 0) (e q : ℕ) (h : Heap)
    → Off P e
    → Same P h (link_back e q h) × ((link_back e q h).lfree ≡ h.lfree)
unfolding link_back set_prev write
link_back-Same P e q h off = elim (Bool-cases (e == mem_size)) [
  | inl y ↦ rw y (Same-self P h, refl)
  | inr n ↦ rw n (write-Same P e (record (h.cells e) { prev = q }) h off, refl)
]

-- What a free block becomes when it is taken has the user data of the others.
pub Data-placed :
    (size : ℕ) (ls : Parts) (r : Part) (rs : Parts) (a : ℕ)
    → r.used ≡ false
    → size + 6 ≤ r.size
    → Data ls (r ∷ rs) a
    → Data ls (placed size r rs) a
Data-placed size ls r rs a free room (inl d) = inl d
Data-placed size ls r rs a free room (inr (inl i)) = absurd (ground (arith, i.0, free))
Data-placed size ls r rs a free room (inr (inr d)) = elim (Bool-cases (leb (size + 24) r.size)) [
  | inl y ↦
      let all : total ls + r.size ≡ total ls + (size + 6) + (r.size - (size + 6)) = omega arith in
      rw y (inr (inr (inr (subst (λ o. DataAfter o rs a) all d))))
  | inr n ↦ rw n (inr (inr d))
]
