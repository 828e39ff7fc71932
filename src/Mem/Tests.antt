-- ===== src/Mem/Tests.antt =====
-- Runs of lwip/src/core/mem.c, and its theorems at small heaps.
use ocaml_lwip.Base.{
  ℕ, ◌≡◌, refl, true, false, [], ◌∷◌, arith, Returns, ok, fault, ◌>>=◌, Run, u16, ◌*◌,
}
use ocaml_lwip.Mem.{
  Heap, mem_size, init, malloc, free, realloc, calloc, request, search, occupy, split, raise_lfree,
  skip_used, set_lfree, set_used, link_back, write, set_prev, image, decode,
}
use ocaml_lwip.Mem.Parts.{coalesce}
use ocaml_lwip.Mem.Layout.{Layout, init-Layout}
use ocaml_lwip.Mem.Sync.{InSync}
use ocaml_lwip.Mem.Data.{Same, Data}
use ocaml_lwip.Mem.Plugged.{hole}
use ocaml_lwip.Mem.Shrink.{busy, shrunk}
use ocaml_lwip.Mem.Free.{free-Layout}
use ocaml_lwip.Mem.Malloc.{Granted, malloc-Granted}
use ocaml_lwip.Mem.Fit.{free-malloc, granted}
use ocaml_lwip.Mem.Realloc.{realloc-Layout}
use ocaml_lwip.Mem.Calloc.{calloc_overflow}

abbrev blank : Heap
blank = record {
  ram = 0;
  cells = λ _. record { next = 0; prev = 0; used = true };
  bytes = λ _. 7;
  lfree = 0;
}

-- A block of 40 bytes in use, and the rest free.
abbrev taken_bytes : ℕ → ℕ
taken_bytes =
    image 0 (record { next = 46; prev = 0; used = true })
      (image 46 (record { next = mem_size; prev = 0; used = false })
        (image mem_size (record { next = mem_size; prev = mem_size; used = true }) (λ _. 7)))

abbrev taken : Heap
taken = record { ram = 1000; cells = λ o. decode taken_bytes o; bytes = taken_bytes; lfree = 46 }

taken-InSync : InSync taken
taken-InSync o = refl

taken-Layout : Layout taken (busy 46 ∷ hole 15954 ∷ [])
taken-Layout = record {
  zip = record {
    before = tt;
    after = (refl, omega arith, (refl, omega arith, refl));
    end = (refl, refl);
  };
  lfree = refl;
  plugged = (refl, (tt, tt));
  based = omega arith;
}

-- The result of a run, without the heap.
abbrev result : Run Heap ℕ → ℕ
result (ok a h) = a
result other = 9

malloc_run : result (malloc 100 (init 1000 blank)) ≡ 1006
unfolding malloc request search occupy split raise_lfree skip_used set_lfree set_used link_back
    write set_prev init
malloc_run = refl

init-Layout_example : Layout (init 1000 blank) (hole mem_size ∷ [])
init-Layout_example = init-Layout 1000 blank (omega arith)

free-Layout_example :
    Returns
      (λ _ g.
        Layout g (coalesce (hole 46 ∷ hole 15954 ∷ []))
        × Same (Data [] (busy 46 ∷ hole 15954 ∷ [])) taken g)
      (free 1006 taken)
free-Layout_example = free-Layout taken [] (busy 46) (hole 15954 ∷ []) refl taken-Layout

malloc-Granted_example :
    Returns
      (Granted taken (request 100) (granted 100 (busy 46 ∷ hole 15954 ∷ [])))
      (malloc 100 taken)
malloc-Granted_example = malloc-Granted taken (busy 46 ∷ hole 15954 ∷ []) 100 taken-Layout

free-malloc_example :
    Returns
      (λ _ f.
        Layout f (busy 46 ∷ hole 15954 ∷ []) × Same (Data [] (busy 46 ∷ hole 15954 ∷ [])) taken f)
      ((malloc 100 >>= free) taken)
free-malloc_example = free-malloc taken (busy 46 ∷ hole 15954 ∷ []) 100 taken-Layout

realloc-Layout_example :
    Returns
      (λ a g.
        (a ≡ 1006)
        × Layout g (shrunk (request 20) (busy 46) (hole 15954 ∷ []))
        × Same (Data [] (shrunk (request 20) (busy 46) (hole 15954 ∷ []))) taken g)
      (realloc 1006 20 taken)
unfolding request
realloc-Layout_example =
    realloc-Layout taken [] (busy 46) (hole 15954 ∷ []) 20 taken-Layout refl (omega arith)

abbrev state : Run Heap ℕ → Heap
state (ok a h) = h
state other = blank

-- 256 * 257 bytes are 65792, of which mem_size_t keeps 256.
overflow_run : malloc (u16 (256 * 257)) taken ≡ ok 1052 (state (malloc 256 taken))
unfolding malloc request search occupy split raise_lfree skip_used set_lfree set_used link_back
    write set_prev
overflow_run = refl

calloc_overflow_example : calloc 256 257 taken ≡ fault
calloc_overflow_example =
    calloc_overflow taken (state (malloc 256 taken)) 256 257 1052 (omega arith) overflow_run
      (λ e. omega (arith, e))
