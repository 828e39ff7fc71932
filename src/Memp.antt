-- ===== src/Memp.antt =====
-- lwip/src/core/memp.c: the fixed-size pools. `memp_tab` is a list of free lists, one for each
-- pool; a free list, linked in C through the first word of each free element, is the list of its
-- elements' addresses. The build has MEMP_OVERFLOW_CHECK, MEMP_SANITY_CHECK, MEMP_STATS and
-- SYS_LIGHTWEIGHT_PROT off and MEM_ALIGNMENT 1, so an element has the size of the pool's table.
pub mod Carve
pub mod Reuse
mod Tests
use ocaml_lwip.Base.{
  ℕ, zero, suc, ◌+◌, ◌<◌, List, [], ◌∷◌, Run, Cmd, ok, fault, ◌>>=◌, ◌>>◌, pure, assert, ◌==◌, ltb,
  if◌then◌else◌, length, get_or, set,
}

abbrev pub Ptr : Type 0
Ptr = ℕ

abbrev pub null : Ptr
null = 0

-- memp_tab.
abbrev pub Memp : Type 0
Memp = List (List Ptr)

-- A line of memp_std.h: memp_num and memp_sizes of one pool.
pub record Pool : Type 0 where
  pub num : ℕ
  pub size : ℕ

-- The inner loop of memp_init, over the `j` elements left: the free list and the running `memp`.
pub carve : ℕ → ℕ → Ptr → List Ptr → List Ptr × Ptr
carve zero size memp tab = (tab, memp)
carve (suc j) size memp tab = carve j size (memp + size) (memp ∷ tab)

-- The outer loop of memp_init.
pub init : List Pool → Ptr → Memp
init [] memp = []
init (pool ∷ pools) memp =
    let (tab, memp') = carve pool.num pool.size memp [] in tab ∷ init pools memp'

-- The first free element of a pool, NULL where there is none, and the elements behind it.
abbrev pub first : List Ptr → Ptr
first [] = null
first (memp ∷ rest) = memp

abbrev pub behind : List Ptr → List Ptr
behind [] = []
behind (memp ∷ rest) = rest

pub malloc : ℕ → Cmd Memp Ptr
malloc type tab =
    if ltb type (length tab)
    then ok (first (get_or tab type [])) (set tab type (behind (get_or tab type [])))
    else Run.abort

-- C checks no `type` here: one out of range writes outside memp_tab.
pub free : ℕ → Ptr → Cmd Memp (Unit {0})
free type mem tab =
    if mem == null
    then ok tt tab
    else if ltb type (length tab)
    then ok tt (set tab type (mem ∷ get_or tab type []))
    else fault
