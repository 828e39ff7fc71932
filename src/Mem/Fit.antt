-- ===== src/Mem/Fit.antt =====
-- What the block that mem_malloc of lwip/src/core/mem.c takes is good for.
use ocaml_lwip.Base.{
  ℕ, ◌+◌, ◌-◌, ◌<◌, ◌≤◌, ◌≡◌, ◌≢◌, refl, ap, sym, ◌∙◌, subst, Bool, true, false, [], ◌∷◌, arith,
  Bool-cases, inl, inr, if◌then◌else◌, Returns, returns, Returns-mono, Returns-bind, ltb, leb, ◌==◌,
  Option, none, some, lt→ltb, le→ltb, ◌>>=◌,
}
use ocaml_lwip.Mem.{Heap, mem_size, null, malloc, free, request}
use ocaml_lwip.Mem.Parts.{
  Part, Parts, total, onto, fits, first_fit, Plugged, coalesce, placed, join, coalesce-onto,
  coalesce-Plugged, join-Apart, onto-Plugged, Apart-free,
}
use ocaml_lwip.Mem.Zip.{Zip, Zip-onto, After-le}
use ocaml_lwip.Mem.Layout.{Layout}
use ocaml_lwip.Mem.Data.{Same, Same-self, Same-trans, Same-mono, Data, Data-onto, Data-placed}
use ocaml_lwip.Mem.Split.{fits-free}
use ocaml_lwip.Mem.Plugged.{hole}
use ocaml_lwip.Mem.Free.{free-Layout}
use ocaml_lwip.Mem.Malloc.{Granted, malloc-Granted}

-- Whether the byte at offset `x` lies in a block in use, among those from `o` on.
pub in_use : ℕ → ℕ → Parts → Bool
in_use x o [] = false
in_use x o (r ∷ rs) = if ltb x (o + r.size) then r.used else in_use x (o + r.size) rs

in_use-onto :
    (x : ℕ) (ls rs : Parts) → total ls ≤ x → in_use x 0 (onto ls rs) ≡ in_use x (total ls) rs
unfolding in_use
in_use-onto x [] rs le = refl
in_use-onto x (l ∷ ls) rs le =
    let past : ltb x (total ls + l.size) ≡ false = le→ltb x (total ls + l.size) le in
    in_use-onto x ls (l ∷ rs) (omega arith) ∙ rw past refl

-- The block that is found is one of the list's, and large enough.
abbrev pub FoundIn : ℕ → Parts → Option (Parts × Part × Parts) → Type 0
FoundIn size bs none = Unit {0}
FoundIn size bs (some (ls, r, rs)) = (bs ≡ onto ls (r ∷ rs)) × (fits size r ≡ true)

first_fit-FoundIn : (size : ℕ) (ls rs : Parts) → FoundIn size (onto ls rs) (first_fit size ls rs)
unfolding first_fit
first_fit-FoundIn size ls [] = tt
first_fit-FoundIn size ls (r ∷ rs) = elim (Bool-cases (fits size r)) [
  | inl t ↦ rw t (refl, t)
  | inr t ↦ rw t (first_fit-FoundIn size (r ∷ ls) rs)
]

abbrev pub granted : ℕ → Parts → Option (Parts × Part × Parts)
granted size bs = if size == 0 then none else first_fit (request size) [] bs

pub granted-FoundIn : (size : ℕ) (bs : Parts) → FoundIn (request size) bs (granted size bs)
granted-FoundIn size bs = elim (Bool-cases (size == 0)) [
  | inl z ↦ rw z tt
  | inr z ↦ rw z (first_fit-FoundIn (request size) [] bs)
]

request-ge_size : (size : ℕ) → size ≤ request size
unfolding request
request-ge_size size = ground arith

-- The data at an address: within the heap, and no byte of it in use by another block.
abbrev pub Spare : Heap → Parts → ℕ → ℕ → Type 0
Spare h bs size a =
    a ≢ null
    → (h.ram + 6 ≤ a)
      × (a + size ≤ h.ram + mem_size)
      × ((i : ℕ) → i < size → in_use (a - h.ram + i) 0 bs ≡ false)

pub Granted-Spare :
    (h g : Heap) (bs : Parts) (size a : ℕ) (o : Option (Parts × Part × Parts))
    → Layout h bs
    → FoundIn (request size) bs o
    → Granted h (request size) o a g
    → Spare h bs size a
unfolding in_use
Granted-Spare h g bs size a none y f (isnull, same) nn = absurd (nn isnull)
Granted-Spare h g bs size a (some (ls, r, rs)) y (whole, large) (at, after, same) nn =
    let z : Zip h.cells ls (r ∷ rs) =
      Zip-onto h.cells ls (r ∷ rs) (subst (λ t. Zip h.cells [] t) whole y.zip) in
    let end : total ls + r.size ≤ mem_size =
      After-le h.cells (total ls + r.size) (total ls) rs z.after.2 in
    let (free, room) = fits-free (request size) r large in
    (
      omega arith,
      omega (arith, request-ge_size size),
      λ i lt.
          let place : a - h.ram + i ≡ total ls + 6 + i = omega arith in
          let within : ltb (total ls + 6 + i) (total ls + r.size) ≡ true =
            lt→ltb (total ls + 6 + i) (total ls + r.size) (omega (arith, request-ge_size size)) in
          rw (place, whole, in_use-onto (total ls + 6 + i) ls (r ∷ rs) (omega arith), within) free,
    )

-- On a heap in order mem_malloc returns, and what it returns, unless it is NULL, is the address of
-- `size` bytes that lie within the heap, behind a struct mem, and of which none was in a block in
-- use.
pub malloc-Spare :
    (h : Heap) (bs : Parts) (size : ℕ)
    → Layout h bs
    → Returns (λ a _. Spare h bs size a) (malloc size h)
malloc-Spare h bs size y =
    Returns-mono (malloc-Granted h bs size y)
      (λ a g t. Granted-Spare h g bs size a (granted size bs) y (granted-FoundIn size bs) t)

-- A free block that is cut in two is whole again once neighbours are joined.
rejoined :
    (size : ℕ) (r : Part) (rs : Parts)
    → fits size r ≡ true
    → Plugged (r ∷ rs)
    → leb (size + 24) r.size ≡ true
    → coalesce (hole (size + 6) ∷ hole (r.size - (size + 6)) ∷ rs) ≡ coalesce (r ∷ rs)
rejoined size r rs f p y =
    let (free, room) = fits-free size r f in
    let apart : join (hole (r.size - (size + 6))) rs ≡ hole (r.size - (size + 6)) ∷ rs =
      join-Apart (hole (r.size - (size + 6))) rs
        (Apart-free r (r.size - (size + 6)) [] rs free p.0) in
    let all : size + 6 + (r.size - (size + 6)) ≡ r.size = omega arith in
    rw (coalesce-Plugged rs p.1, apart, all, join-Apart r rs p.0)
      (ap (λ (u : Bool). record { size = r.size; used = u } ∷ rs) (sym free))

-- What mem_free leaves of a heap with one more block in use, if the rest joins up again.
freed-Layout :
    (P : ℕ → Type 0) (h g : Heap) (bs ls : Parts) (r : Part) (rs : Parts) (a : ℕ)
    → a ≡ h.ram + total ls + 6
    → Layout g (onto ls (r ∷ rs))
    → r.used ≡ true
    → Same P h g
    → ((x : ℕ) → P x → Data ls (r ∷ rs) x)
    → coalesce (onto ls (hole r.size ∷ rs)) ≡ bs
    → Returns (λ _ f. Layout f bs × Same P h f) (free a g)
freed-Layout P h g bs ls r rs a at y u same kept whole =
    let here : g.ram + total ls + 6 ≡ a = omega (arith, same.ram) in
    subst (λ (n : ℕ). Returns (λ _ f. Layout f bs × Same P h f) (free n g)) here
      (Returns-mono (free-Layout g ls r rs u y) (λ _ f t. (
        subst (λ b. Layout f b) whole t.0,
        Same-trans P h g f same (Same-mono (Data ls (r ∷ rs)) P g f kept t.1),
      )))

Granted-freed :
    (h g : Heap) (bs : Parts) (size a : ℕ) (o : Option (Parts × Part × Parts))
    → Layout h bs
    → FoundIn size bs o
    → Granted h size o a g
    → Returns (λ _ f. Layout f bs × Same (Data [] bs) h f) (free a g)
unfolding free
Granted-freed h g bs size a none y f (isnull, same) =
    rw (isnull, same) (returns (y, Same-self (Data [] bs) h))
Granted-freed h g bs size a (some (ls, r, rs)) y (whole, large) (at, after, same) =
    let p : Plugged (onto ls (r ∷ rs)) = subst (λ t. Plugged t) whole y.plugged in
    let (q, s, e) = onto-Plugged ls (r ∷ rs) p in
    let back : coalesce (onto ls (r ∷ rs)) ≡ bs =
      coalesce-Plugged (onto ls (r ∷ rs)) p ∙ sym whole in
    let (free, room) = fits-free size r large in
    let P : ℕ → Type 0 = Data [] bs in
    let kept : (x : ℕ) → P x → Data ls (placed size r rs) x = λ x d.
      Data-placed size ls r rs x free room
        (Data-onto ls (r ∷ rs) x (subst (λ t. Data [] t x) whole d)) in
    let same' : Same P h g = Same-mono (Data ls (placed size r rs)) P h g kept same in
    elim (Bool-cases (leb (size + 24) r.size)) [
      | inl t ↦
          freed-Layout P h g bs ls (record { size = size + 6; used = true })
            (hole (r.size - (size + 6)) ∷ rs) a at (rw t at after) refl same' (rw t at kept)
            (coalesce-onto ls (hole (size + 6) ∷ hole (r.size - (size + 6)) ∷ rs) (r ∷ rs)
                (rejoined size r rs large s t)
              ∙ back)
      | inr t ↦
          freed-Layout P h g bs ls (record { size = r.size; used = true }) rs a at (rw t at after)
            refl same' (rw t at kept)
            (coalesce-onto ls (hole r.size ∷ rs) (r ∷ rs)
                (ap (λ (u : Bool). coalesce (record { size = r.size; used = u } ∷ rs)) (sym free))
              ∙ back)
    ]

-- mem_free undoes mem_malloc on a heap in order: whether or not there was room, the heap has the
-- blocks that it had, it is in order, no byte of user data of a block in use has changed, and `cells`
-- and `bytes` are in step if they were.
pub free-malloc :
    (h : Heap) (bs : Parts) (size : ℕ)
    → Layout h bs
    → Returns (λ _ f. Layout f bs × Same (Data [] bs) h f) ((malloc size >>= free) h)
free-malloc h bs size y =
    Returns-bind (malloc-Granted h bs size y) (λ a g t.
      Granted-freed h g bs (request size) a (granted size bs) y (granted-FoundIn size bs) t)
