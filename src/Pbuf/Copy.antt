-- ===== src/Pbuf/Copy.antt =====
-- pbuf_copy and pbuf_coalesce of lwip/src/core/pbuf.c. LWIP_ERROR aborts in this build.
pub mod Loop
pub mod Coalesce
use ocaml_lwip.Base.{
  ℕ, zero, suc, ◌+◌, ◌-◌, Cmd, out_of_fuel, ◌>>=◌, ◌>>◌, pure, assert, ◌==◌, leb, if◌then◌else◌,
  u16, Err, err_ok, ◌&&◌, Bool, true, false, is_ok,
}
use mathlib.Core.Bool.{not}
use ocaml_lwip.Memp.{Ptr, null}
use ocaml_lwip.Pbuf.{Heap, load, copy_out, copy_in, ram}
use ocaml_lwip.Pbuf.Free
use ocaml_lwip.Pbuf.Alloc.{PbufLayer, alloc}

-- The tests at the end of a round, of `p_from` and then of `p_to`: no pbuf behind the end of a packet.
unfoldable pub one_packet : Ptr → Cmd Heap (Unit {0})
one_packet p =
    if p == null
    then pure tt
    else (do b ← load p; if b.len == b.tot_len then assert (b.next == null) else pure tt)

-- The bytes of one round.
abbrev pub part : (room left : ℕ) → ℕ
part room left = if leb left room then left else room

-- The loop of pbuf_copy.
unfoldable pub copy_loop : ℕ → (p_to p_from : Ptr) → (offset_to offset_from : ℕ) → Cmd Heap Err
copy_loop zero p_to p_from offset_to offset_from = λ _. out_of_fuel
copy_loop (suc k) p_to p_from offset_to offset_from = do
  assert (not (p_to == null))
  t ← load p_to
  f ← load p_from
  let len = part (t.len - offset_to) (f.len - offset_from)
  xs ← copy_out f (f.payload + offset_from) len
  copy_in p_to t (t.payload + offset_to) xs
  let to = u16 (offset_to + len)
  let from = u16 (offset_from + len)
  assert (leb to t.len)
  let full = to == t.len
  let next_to = if full then t.next else p_to
  assert (leb from f.len)
  let over = leb f.len from
  let next_from = if over then f.next else p_from
  one_packet next_from
  one_packet next_to
  let rest = copy_loop k next_to next_from (if full then 0 else to) (if over then 0 else from)
  if next_from == null then pure err_ok else rest

unfoldable pub copy : ℕ → (p_to p_from : Ptr) → Cmd Heap Err
copy k p_to p_from = do
  assert (not (p_to == null))
  assert (not (p_from == null))
  t ← load p_to
  f ← load p_from
  assert (leb f.tot_len t.tot_len)
  copy_loop k p_to p_from 0 0

-- `block` is what mem_malloc returns.
unfoldable pub coalesce : ℕ → Ptr → PbufLayer → (block : Ptr) → Cmd Heap Ptr
coalesce k p layer block = do
  b ← load p
  if b.next == null then pure p else (do
    q ← alloc k layer b.tot_len ram block
    if q == null
        then pure p
        else (do err ← copy k q p; assert (is_ok err); count ← Free.free k p; pure q))
