-- ===== src/Memp/Carve.antt =====
-- memp_init of lwip/src/core/memp.c: how the pools divide memp_memory.
use ocaml_lwip.Base.{ℕ, zero, suc, ◌+◌, ◌*◌, ◌≡◌, refl, List, [], ◌∷◌, length, arith}
use ocaml_lwip.Memp.{Ptr, Memp, Pool, carve, init}

-- The free list `l` holds blocks of `size` bytes, the last block first, that fill `lo` to `hi`.
abbrev pub Fills : ℕ → Ptr → Ptr → List Ptr → Type 0
Fills size lo hi [] = lo ≡ hi
Fills size lo hi (p ∷ l) = (p + size ≡ hi) × Fills size lo p l

-- What the inner loop leaves: a free list of `n` blocks that fill `lo` to `hi`, the next address.
record Carved (size n : ℕ) (lo hi : Ptr) (r : List Ptr × Ptr) : Type 0 where
  fills : Fills size lo hi r.0
  count : length r.0 ≡ n
  next : r.1 ≡ hi

carve-Carved :
    (j size : ℕ) (lo memp : Ptr) (tab : List Ptr) (n : ℕ) (hi : Ptr)
    → Fills size lo memp tab
    → j + length tab ≡ n
    → memp + j * size ≡ hi
    → Carved size n lo hi (carve j size memp tab)
unfolding carve
carve-Carved zero size lo memp tab n hi h count e = record {
  fills = rw (← moved) h;
  count = omega arith;
  next = moved;
}
  where
    moved : memp ≡ hi
    moved = omega arith
carve-Carved (suc j) size lo memp tab n hi h count e =
    carve-Carved j size lo (memp + size) (memp ∷ tab) n hi (refl, h) (omega arith) (omega arith)

-- The pools of the table follow one another in memory from `memp` on: each free list has the
-- pool's number of elements, and its blocks fill the pool's share.
abbrev pub Laid : List Pool → Ptr → Memp → Type 0
Laid [] memp [] = Unit {0}
Laid [] memp (l ∷ ls) = ⊥
Laid (pool ∷ pools) memp [] = ⊥
Laid (pool ∷ pools) memp (l ∷ ls) =
    (length l ≡ pool.num)
    × Fills pool.size memp (memp + pool.num * pool.size) l
    × Laid pools (memp + pool.num * pool.size) ls

-- memp_init cuts memp_memory into the pools of the table, in order and without gap or overlap:
-- each pool starts with exactly its number of free elements, which fill its share of the memory.
pub init-Laid : (pools : List Pool) (memp : Ptr) → Laid pools memp (init pools memp)
unfolding init
init-Laid [] memp = tt
init-Laid (pool ∷ pools) memp =
    (c.count, c.fills, rw c.next (init-Laid pools (memp + pool.num * pool.size)))
  where
    c :
        Carved pool.size pool.num memp
          (memp + pool.num * pool.size)
          (carve pool.num pool.size memp [])
    c = carve-Carved pool.num pool.size memp memp [] pool.num _ refl (omega arith) refl
