-- ===== src/Mem/Parts.antt =====
-- What the heap of lwip/src/core/mem.c promises, with no offset in it: the blocks from the lowest
-- on, each with the bytes that it takes, its struct mem included, and whether it is in use.
use ocaml_lwip.Base.{
  ℕ, ◌+◌, ◌-◌, ◌≤◌, ◌≡◌, ◌⊎◌, inl, inr, refl, ap, Bool, true, false, ◌&&◌, ◌||◌, List, [], ◌∷◌,
  Option, none, some, if◌then◌else◌, leb, arith, Bool-cases,
}
use ocaml_lwip.Mem.{negb}

pub record Part : Type 0 where
  pub size : ℕ
  pub used : Bool

abbrev pub Parts : Type 0
Parts = List Part

-- The blocks of a list read backwards, and those of another behind them.
abbrev pub onto : Parts → Parts → Parts
onto [] rs = rs
onto (l ∷ ls) rs = onto ls (l ∷ rs)

-- Where the block behind those of a list starts.
abbrev pub total : Parts → ℕ
total [] = 0
total (l ∷ ls) = total ls + l.size

-- The offset of the lowest free block from `o` on, or the end.
abbrev pub first_free : ℕ → Parts → ℕ
first_free o [] = o
first_free o (r ∷ rs) = if r.used then first_free (o + r.size) rs else o

-- Each neighbour of a free block is in use.
abbrev pub Apart : Parts → Parts → Type 0
Apart [] rs = Unit {0}
Apart (l ∷ ls) [] = Unit {0}
Apart (l ∷ ls) (r ∷ rs) = (l.used || r.used) ≡ true

abbrev pub Plugged : Parts → Type 0
Plugged [] = Unit {0}
Plugged (r ∷ rs) = Apart (r ∷ []) rs × Plugged rs

-- Neighbours that are free become one block.
abbrev pub join : Part → Parts → Parts
join r [] = r ∷ []
join r (s ∷ rs) =
    if r.used || s.used then r ∷ s ∷ rs else record { size = r.size + s.size; used = false } ∷ rs

abbrev pub coalesce : Parts → Parts
coalesce [] = []
coalesce (r ∷ rs) = join r (coalesce rs)

-- A block of `size` bytes of user data fits into a free block.
abbrev pub fits : ℕ → Part → Bool
fits size r = negb r.used && leb (size + 6) r.size

-- The lowest free block that is large enough, with those before it, backwards, and those behind.
unfoldable pub first_fit : ℕ → Parts → Parts → Option (Parts × Part × Parts)
first_fit size ls [] = none
first_fit size ls (r ∷ rs) = if fits size r then some (ls, r, rs) else first_fit size (r ∷ ls) rs

-- That block in use, what is left over a block of its own if it can hold 12 bytes.
abbrev pub placed : ℕ → Part → Parts → Parts
placed size r rs =
    if leb (size + 24) r.size
    then record { size = size + 6; used = true }
      ∷ record { size = r.size - (size + 6); used = false }
      ∷ rs
    else record { size = r.size; used = true } ∷ rs

-- Lists that are split at a block.

Apart-flip : (l : Part) (ls rs : Parts) → Apart ls (l ∷ rs) → Apart (l ∷ []) ls
Apart-flip l [] rs h = tt
Apart-flip l (k ∷ ls) rs h = ground arith

pub Apart-unflip : (l : Part) (ls rs : Parts) → Apart (l ∷ []) ls → Apart ls (l ∷ rs)
Apart-unflip l [] rs h = tt
Apart-unflip l (k ∷ ls) rs h = ground arith

Apart-grow : (l : Part) (ls rs : Parts) → Apart (l ∷ []) rs → Apart (l ∷ ls) rs
Apart-grow l ls [] h = tt
Apart-grow l ls (r ∷ rs) h = h

pub Apart-shrink : (l : Part) (ls rs : Parts) → Apart (l ∷ ls) rs → Apart (l ∷ []) rs
Apart-shrink l ls [] h = tt
Apart-shrink l ls (r ∷ rs) h = h

pub onto-Plugged : (ls rs : Parts) → Plugged (onto ls rs) → Plugged ls × Plugged rs × Apart ls rs
onto-Plugged [] rs h = (tt, h, tt)
onto-Plugged (l ∷ ls) rs h =
    let (a, b, c) = onto-Plugged ls (l ∷ rs) h in
    ((Apart-flip l ls rs c, a), b.1, Apart-grow l ls rs b.0)

pub Plugged-onto : (ls rs : Parts) → Plugged ls → Plugged rs → Apart ls rs → Plugged (onto ls rs)
Plugged-onto [] rs a b c = b
Plugged-onto (l ∷ ls) rs a b c =
    Plugged-onto ls (l ∷ rs) a.1 (Apart-shrink l ls rs c, b) (Apart-unflip l ls rs a.0)

-- A block in use stands next to any block.
pub Apart-used : (ls : Parts) (r : Part) (rs : Parts) → r.used ≡ true → Apart ls (r ∷ rs)
Apart-used [] r rs h = tt
Apart-used (l ∷ ls) r rs h = ground arith

pub used-Apart : (l : Part) (ls rs : Parts) → l.used ≡ true → Apart (l ∷ ls) rs
used-Apart l ls [] h = tt
used-Apart l ls (r ∷ rs) h = ground arith

-- Where no free block has a free neighbour nothing is joined.
pub join-Apart : (r : Part) (rs : Parts) → Apart (r ∷ []) rs → join r rs ≡ r ∷ rs
join-Apart r [] h = refl
join-Apart r (s ∷ rs) h = rw h refl

pub coalesce-Plugged : (rs : Parts) → Plugged rs → coalesce rs ≡ rs
coalesce-Plugged [] h = refl
coalesce-Plugged (r ∷ rs) h = rw (coalesce-Plugged rs h.1) (join-Apart r rs h.0)

-- The offset of the lowest free block, for a list that is split; `d` is that of the second part.
abbrev pub lowest : Parts → ℕ → ℕ
lowest [] d = d
lowest (l ∷ ls) d = lowest ls (if l.used then d else total ls)

pub first_free-onto :
    (ls rs : Parts) → first_free 0 (onto ls rs) ≡ lowest ls (first_free (total ls) rs)
first_free-onto [] rs = refl
first_free-onto (l ∷ ls) rs = first_free-onto ls (l ∷ rs)

-- Either all blocks are in use, or the offset does not depend on what follows.
pub lowest-cases :
    (ls : Parts)
    → ((d : ℕ) → lowest ls d ≡ d) ⊎ ((x : ℕ) × (x ≤ total ls) × ((d : ℕ) → lowest ls d ≡ x))
lowest-cases [] = inl (λ d. refl)
lowest-cases (l ∷ ls) = elim (lowest-cases ls) [
  | inl all ↦ elim (Bool-cases l.used) [
    | inl u ↦ inl (λ d. rw u (all d))
    | inr u ↦ inr (total ls, omega arith, λ d. rw u (all (total ls)))
  ]
  | inr (x, le, same) ↦ inr (x, omega arith, λ d. same (if l.used then d else total ls))
]

pub lowest-le : (ls : Parts) → lowest ls (total ls) ≤ total ls
lowest-le ls = elim (lowest-cases ls) [
  | inl all ↦ omega (arith, all (total ls))
  | inr (x, le, same) ↦ omega (arith, le, same (total ls))
]

-- Joining neighbours once they are joined behind changes nothing.
pub coalesce-onto :
    (ls xs ys : Parts) → coalesce xs ≡ coalesce ys → coalesce (onto ls xs) ≡ coalesce (onto ls ys)
coalesce-onto [] xs ys e = e
coalesce-onto (l ∷ ls) xs ys e = coalesce-onto ls (l ∷ xs) (l ∷ ys) (ap (join l) e)

-- A free block's size does not matter to its neighbours.
pub Apart-free :
    (s : Part) (n : ℕ) (ls rs : Parts)
    → s.used ≡ false
    → Apart (s ∷ ls) rs
    → Apart (record { size = n; used = false } ∷ ls) rs
Apart-free s n ls [] u a = tt
Apart-free s n ls (r ∷ rs) u a = ground arith

pub free_Apart :
    (s : Part) (n : ℕ) (ls rs : Parts)
    → s.used ≡ false
    → Apart ls (s ∷ rs)
    → Apart ls (record { size = n; used = false } ∷ rs)
free_Apart s n [] rs u a = tt
free_Apart s n (l ∷ ls) rs u a = ground arith
