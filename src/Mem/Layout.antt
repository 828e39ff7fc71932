-- ===== src/Mem/Layout.antt =====
-- The state of the heap of lwip/src/core/mem.c between two calls.
use ocaml_lwip.Base.{ℕ, ◌<◌, ◌≡◌, refl, false, [], ◌∷◌, arith}
use ocaml_lwip.Mem.{Heap, mem_size, write, set_lfree, init}
use ocaml_lwip.Mem.Parts.{Parts, first_free, Plugged}
use ocaml_lwip.Mem.Zip.{Zip}

-- The blocks tile the heap and are doubly linked, no two neighbours are free, and `lfree` is the
-- lowest free block.
pub record Layout (h : Heap) (bs : Parts) : Type 0 where
  pub zip : Zip h.cells [] bs
  pub lfree : h.lfree ≡ first_free 0 bs
  pub plugged : Plugged bs
  pub based : 0 < h.ram

-- After mem_init the heap is one free block of MEM_SIZE_ALIGNED bytes, whatever the memory held.
pub init-Layout :
    (ram_heap : ℕ) (h : Heap)
    → 0 < ram_heap
    → Layout (init ram_heap h) (record { size = mem_size; used = false } ∷ [])
unfolding init write set_lfree
init-Layout ram_heap h pos = record {
  zip = record { before = tt; after = (refl, omega arith, refl); end = (refl, refl) };
  lfree = refl;
  plugged = (tt, tt);
  based = pos;
}
