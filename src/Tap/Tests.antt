-- ===== src/Tap/Tests.antt =====
-- Runs of lib_test/mintapif.c, and its theorems at small heaps.
use ocaml_lwip.Base.{ℕ, ◌≡◌, refl, List, [], ◌∷◌, some, Returns, ok, arith, err_ok, ◌>>=◌}
use ocaml_lwip.Pbuf.{Heap}
use ocaml_lwip.Pbuf.Samples.{heap, packet, packet-IsPacket}
use ocaml_lwip.Tap.{low_level_output, low_level_input}
use ocaml_lwip.Tap.Output.{low_level_output-contents}
use ocaml_lwip.Tap.Input.{Received, low_level_input-Received, output-input}

abbrev stack : ℕ → ℕ
stack i = 255

-- A heap with two free elements of PBUF_POOL.
abbrev free_heap : Heap
free_heap = record heap { memp = [] ∷ [] ∷ [] ∷ [] ∷ [] ∷ [] ∷ [] ∷ (400 ∷ 1000 ∷ []) ∷ [] }

abbrev frame : List ℕ
frame = 1 ∷ 2 ∷ 3 ∷ []

low_level_output-contents_example :
    low_level_output 3 100 stack heap ≡ ok (err_ok, 14 ∷ 15 ∷ 16 ∷ 50 ∷ 51 ∷ []) heap
low_level_output-contents_example =
    low_level_output-contents 3 heap 100 packet stack (omega arith) packet-IsPacket.leads
      packet-IsPacket.counted packet-IsPacket.inside (omega arith)

low_level_input-Received_example :
    Returns
      (Received free_heap frame (400 ∷ 1000 ∷ []))
      (low_level_input 3 (some frame) stack free_heap)
low_level_input-Received_example =
    low_level_input-Received 3 free_heap frame 400 (1000 ∷ []) stack refl
      (omega arith, refl, (omega arith, refl, tt)) (omega arith) (omega arith) (omega arith)
      (omega arith)

output-input_example :
    Returns
      (λ r _. r ≡ (err_ok, frame))
      ((low_level_input 3 (some frame) stack >>= λ q. low_level_output 3 q stack) free_heap)
output-input_example =
    output-input 3 free_heap frame 400 (1000 ∷ []) stack stack refl
      (omega arith, refl, (omega arith, refl, tt)) (omega arith) (omega arith) (omega arith)
      (omega arith)
