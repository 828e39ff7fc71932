-- ===== src/Stubs/Queue.antt =====
-- The pbuf lists of lib/lwip_stubs.c, over the pbuf functions of lwip/src/core/pbuf.c.
pub mod Held
use ocaml_lwip.Base.{
  ℕ, zero, suc, ◌+◌, ◌-◌, List, [], ◌∷◌, ◌++◌, Cmd, ok, fault, ◌>>=◌, ◌>>◌, pure, u32,
  if◌then◌else◌,
}
use ocaml_lwip.Memp.{Ptr}
use ocaml_lwip.Pbuf.{Pbuf, Heap, load}
use ocaml_lwip.Pbuf.Free
use ocaml_lwip.Pbuf.Read.{copy_partial}

-- pbuf_list_append.
unfoldable pub append : List Ptr → Ptr → List Ptr
append pl p = pl ++ p ∷ []

-- pbuf_list_free frees each pbuf chain with the node that holds it. The do-while loop faults on
-- an empty list.
free_all : ℕ → List Ptr → Cmd Heap (Unit {0})
free_all k [] = pure tt
free_all k (p ∷ pl) = do count ← Free.free k p; free_all k pl

pub free : ℕ → List Ptr → Cmd Heap (Unit {0})
unfolding free_all
free k [] = λ _. fault
free k (p ∷ pl) = free_all k (p ∷ pl)

-- pbuf_list_length, from `len` on.
length_from : ℕ → List Ptr → Cmd Heap ℕ
length_from len [] = pure len
length_from len (p ∷ pl) = do b ← load p; length_from (u32 (len + b.tot_len)) pl

pub length : List Ptr → Cmd Heap ℕ
unfolding length_from
length [] = λ _. fault
length (p ∷ pl) = length_from 0 (p ∷ pl)

-- The address of the OCaml string's bytes, of which only matters that it is not null.
abbrev string_val : Ptr
string_val = 1

-- Bytes of the fresh string that no copy reaches.
abbrev unwritten : ℕ → List ℕ
unwritten zero = []
unwritten (suc n) = 0 ∷ unwritten n

-- The loop of caml_tcp_read: each chain is copied to `s`, and `s` moves on by its tot_len.
pub copy : ℕ → List Ptr → Cmd Heap (List ℕ)
copy k [] = pure []
copy k (p ∷ pl) = do
  b ← load p
  (n, xs) ← copy_partial k p string_val b.tot_len 0
  rest ← copy k pl
  pure ((xs ++ unwritten (b.tot_len - n)) ++ rest)
