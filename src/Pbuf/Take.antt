-- ===== src/Pbuf/Take.antt =====
-- pbuf_take of lwip/src/core/pbuf.c. `src` is what `dataptr` points to.
pub mod Loop
pub mod Overwrite
use ocaml_lwip.Base.{
  drop-drop, take_split, drop_all, ℕ, zero, suc, ◌+◌, ◌-◌, ◌^◌, ◌≤◌, ◌<◌, ◌≡◌, refl, ◌≢◌, true,
  false, some, List, [], ◌∷◌, ◌++◌, Cmd, ok, fault, out_of_fuel, assert, pure, ◌>>=◌, ◌>>◌, Returns,
  returns, Returns-mono, Returns-bind, Err, err_ok, err_code, arith, ◌==◌, ltb, leb, if◌then◌else◌,
  u16, length, take, drop, length-take, length-drop, drop-append_le, drop-append_ge, ne→==, le→leb,
  lt→ltb, ltb→lt, append-nil, Bool-cases, inl, inr, ap, ap₂, sym, ◌∙◌,
}
use mathlib.Core.Bool.{not}
use mathlib.Core.List.{append_assoc}
use ocaml_lwip.Memp.{Ptr, null}
use ocaml_lwip.Pbuf.{Heap, Pbuf, load, store, put, copy_in, write}
use ocaml_lwip.Pbuf.Bytes.{read-put}
use ocaml_lwip.Pbuf.Chain.{
  Cells, Chain, Holds, has, Distinct, total, Counted, Inside, bytes, contents, load-eq, Seg-write,
  cells-write_self, cells-write_ne, length-read, drop-read,
}

-- `n` bytes of the src from `copied_total` on; the source reads past its end unchecked.
abbrev source : List ℕ → ℕ → ℕ → Cmd Heap (List ℕ)
source src copied_total n =
    if leb (copied_total + n) (length src)
    then pure (take n (drop copied_total src))
    else (λ _. fault)

-- buf_copy_len, for a pbuf of `len` bytes.
abbrev part : (len total_copy_len : ℕ) → ℕ
part len total_copy_len = if ltb len total_copy_len then len else total_copy_len

-- The loop of pbuf_take: the final copied_total.
pub take_loop : ℕ → Ptr → List ℕ → (total_copy_len copied_total : ℕ) → Cmd Heap ℕ
take_loop zero p src total_copy_len copied_total = λ _. out_of_fuel
take_loop (suc k) p src total_copy_len copied_total =
    if total_copy_len == 0 then pure copied_total else (do
      assert (not (p == null))
      b ← load p
      let n = part b.len total_copy_len
      xs ← source src copied_total n
      copy_in p b b.payload xs
      take_loop k b.next src (total_copy_len - n) (u16 (copied_total + n)))

-- ERR_ARG is -10.
pub take_data : ℕ → Ptr → Ptr → List ℕ → ℕ → Cmd Heap Err
unfolding take_loop
take_data k buf dataptr src len = do
  assert (not (buf == null))
  assert (not (dataptr == null))
  b ← load buf
  if ltb b.tot_len len
      then pure (err_code 10)
      else (do copied_total ← take_loop k buf src len 0; assert (copied_total == len); pure err_ok)
