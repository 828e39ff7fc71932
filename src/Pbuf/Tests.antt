-- ===== src/Pbuf/Tests.antt =====
-- Runs of lwip/src/core/pbuf.c, and its theorems at the sample heap.
use ocaml_lwip.Base.{ℕ, ◌≡◌, refl, inl, false, [], ◌∷◌, ◌++◌, pos, ok, Returns, arith, take}
use ocaml_lwip.Pbuf.Chain.{Cells, Chain, Holds, has, contents}
use ocaml_lwip.Pbuf.{Heap, pool}
use ocaml_lwip.Pbuf.Take.{take_data}
use ocaml_lwip.Pbuf.Take.Overwrite.{Taken, take_data-Taken}
use ocaml_lwip.Pbuf.Alloc.{alloc, transport}
use ocaml_lwip.Pbuf.Alloc.Empty.{Nothing, alloc-Nothing}
use ocaml_lwip.Pbuf.Alloc.Pool.{Allocated, alloc-Allocated}
use ocaml_lwip.Pbuf.Free.{free, Freed, free-Freed}
use ocaml_lwip.Pbuf.Header.{header, revealed, header-reveal}
use ocaml_lwip.Pbuf.Link.{cat, dechain, Appended, alone, cut, parted, cat-Appended, dechain-Freed}
use ocaml_lwip.Pbuf.Read.{copy_partial, copy_partial-slice}
use ocaml_lwip.Pbuf.Shrink.{realloc, realloc-take}
use ocaml_lwip.Pbuf.Samples.{
  first_pbuf, second_pbuf, heap, packet, other, packet-IsPacket, other-IsPacket,
}

copy_partial-slice_example : copy_partial 3 100 7 3 1 heap ≡ ok (3, 15 ∷ 16 ∷ 50 ∷ []) heap
copy_partial-slice_example =
    copy_partial-slice 3 100 7 packet 3 1 (omega arith) (omega arith) packet-IsPacket.leads
      packet-IsPacket.inside (omega arith) (omega arith)

free-Freed_example : Returns (λ n g. (n ≡ 2) × Freed heap packet g) (free 3 100 heap)
free-Freed_example =
    free-Freed 3 100 packet heap (omega arith) packet-IsPacket.leads packet-IsPacket.distinct
      packet-IsPacket.live packet-IsPacket.pools (omega arith)

cat-Appended_example : Returns (λ _ g. Appended heap 100 packet other g) (cat 2 100 300 heap)
cat-Appended_example =
    cat-Appended 2 heap 100 300 packet other (omega arith) (omega arith) packet-IsPacket.leads
      other-IsPacket.leads packet-IsPacket.distinct (ground arith) packet-IsPacket.counted
      other-IsPacket.counted (omega arith) (omega arith)

dechain-Freed_example :
    let rest : Cells = (200, cut first_pbuf second_pbuf) ∷ [] in
    Returns
      (λ r g.
        Chain g 100 ((100, alone first_pbuf) ∷ [])
        × Freed (parted heap 100 first_pbuf second_pbuf) rest g
        × (r ≡ 0))
      (dechain 2 100 heap)
dechain-Freed_example =
    dechain-Freed 2 heap 100 first_pbuf 200 second_pbuf [] packet-IsPacket.leads
      packet-IsPacket.distinct packet-IsPacket.counted packet-IsPacket.live.1 (omega arith)
      packet-IsPacket.pools (omega arith) (omega arith)

header-reveal_example :
    Returns
      (λ r g.
        (r ≡ 0)
        × Holds g 100
            ((100, revealed first_pbuf 4) ∷ (200, second_pbuf) ∷ [])
            ((10 ∷ 11 ∷ 12 ∷ 13 ∷ []) ++ contents packet))
      (header 100 (pos 4) heap)
header-reveal_example =
    header-reveal heap 100 first_pbuf ((200, second_pbuf) ∷ []) packet-IsPacket.leads refl
      packet-IsPacket.counted packet-IsPacket.inside (omega arith) 3 (inl refl) (omega arith)
      (omega arith)

realloc-take_example :
    Returns
      (λ _ g.
        (cs : Cells) × Holds g 100 cs (take 4 (contents packet))
        × ((a : ℕ) → has a packet ≡ false → g.cells a ≡ heap.cells a))
      (realloc 3 100 4 heap)
realloc-take_example = realloc-take 3 heap 100 packet 4 (omega arith) packet-IsPacket (omega arith)

take_data-Taken_example :
    Returns
      (Taken heap 100 packet (1 ∷ 2 ∷ 3 ∷ 4 ∷ 51 ∷ []))
      (take_data 3 100 7 (1 ∷ 2 ∷ 3 ∷ 4 ∷ 5 ∷ []) 4 heap)
take_data-Taken_example =
    take_data-Taken 3 heap 100 7 packet (1 ∷ 2 ∷ 3 ∷ 4 ∷ 5 ∷ []) 4 (omega arith) (omega arith)
      packet-IsPacket.leads packet-IsPacket.distinct packet-IsPacket.counted packet-IsPacket.inside
      (omega arith) (omega arith) (omega arith) (omega arith)

-- A heap with two free elements of PBUF_POOL.
abbrev free_heap : Heap
free_heap = record heap { memp = [] ∷ [] ∷ [] ∷ [] ∷ [] ∷ [] ∷ [] ∷ (400 ∷ 1000 ∷ []) ∷ [] }

alloc-Allocated_example :
    Returns (Allocated free_heap 56 600 (400 ∷ 1000 ∷ [])) (alloc 3 transport 600 pool 0 free_heap)
alloc-Allocated_example =
    alloc-Allocated 3 free_heap transport 600 0 400 (1000 ∷ []) refl
      (omega arith, refl, (omega arith, refl, tt)) (omega arith) (omega arith) (omega arith)
      (omega arith)

alloc-Nothing_example :
    Returns (Nothing free_heap (400 ∷ 1000 ∷ [])) (alloc 4 transport 3000 pool 0 free_heap)
alloc-Nothing_example =
    alloc-Nothing 4 free_heap transport 3000 0 400 (1000 ∷ []) refl
      (omega arith, refl, (omega arith, refl, tt)) (omega arith) (omega arith) (omega arith)
      (omega arith)
