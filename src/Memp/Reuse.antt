-- ===== src/Memp/Reuse.antt =====
-- memp_malloc and memp_free of lwip/src/core/memp.c undo one another.
use ocaml_lwip.Base.{
  ℕ, ◌<◌, ◌≡◌, ◌≢◌, List, [], ◌∷◌, ok, length, get_or, set, lt→ltb, ne→==, length-set, set-set_self,
  set-get_or, get_or-set_self, ap, ◌∙◌,
}
use ocaml_lwip.Memp.{Ptr, null, Memp, first, behind, malloc, free}

-- The table with one pool's free list replaced.
abbrev pub with_pool : ℕ → List Ptr → Memp → Memp
with_pool type l tab = set tab type l

module _ (type : ℕ) (tab : Memp) (known : type < length tab) where
  pub malloc_eq :
      (l : List Ptr)
      → get_or tab type [] ≡ l
      → malloc type tab ≡ ok (first l) (with_pool type (behind l) tab)
  unfolding malloc
  malloc_eq l e = rw (lt→ltb _ _ known, e)

  pub free_eq :
      (mem : Ptr)
      → mem ≢ null
      → free type mem tab ≡ ok tt (with_pool type (mem ∷ get_or tab type []) tab)
  unfolding free
  free_eq mem ne = rw (ne→== _ _ ne, lt→ltb _ _ known)

  -- An element that memp_free puts back is the next one that memp_malloc hands out, and the
  -- table is then what it was before both calls.
  pub malloc-free :
      (mem : Ptr)
      → mem ≢ null
      → (tab' : Memp) × (free type mem tab ≡ ok tt tab') × (malloc type tab' ≡ ok mem tab)
  malloc-free mem ne = (with_pool type (mem ∷ get_or tab type []) tab, free_eq mem ne, back)
    where
      back : malloc type (with_pool type (mem ∷ get_or tab type []) tab) ≡ ok mem tab
      back =
          unfold malloc in
          rw
            (
              length-set tab type (mem ∷ get_or tab type []),
              lt→ltb _ _ known,
              get_or-set_self tab type (mem ∷ get_or tab type []) [] known,
            )
            (ap (λ t. ok mem t) (set-set_self tab type _ _ ∙ set-get_or tab type []))
