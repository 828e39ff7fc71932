-- ===== src/Tap.antt =====
-- lib_test/mintapif.c: the driver of the tap device. The file descriptor is not in the model: what
-- read() gives and what is handed to write() are values, and so is what the stack holds where the
-- local buffer `buf` lies. The result of write() only decides on a message. A `memcpy` that leaves a
-- buffer faults.
pub mod Output
pub mod Input
mod Tests
use ocaml_lwip.Base.{
  ℕ, zero, suc, ◌+◌, Option, none, some, List, Cmd, fault, out_of_fuel, ◌>>=◌, ◌>>◌, pure, ◌==◌,
  leb, if◌then◌else◌, u16, length, Err, err_ok,
}
use ocaml_lwip.Memp.{Ptr, null}
use ocaml_lwip.Pbuf.{Heap, load, copy_out, copy_in, read, put, pool}
use ocaml_lwip.Pbuf.Alloc.{alloc, link}

-- The size of `buf`.
abbrev pub buf_size : ℕ
buf_size = 1514

-- The loop of low_level_output; `o` is where `bufptr` points.
pub output_loop : ℕ → Ptr → ℕ → (ℕ → ℕ) → Cmd Heap (ℕ → ℕ)
output_loop zero q o buf = λ _. out_of_fuel
output_loop (suc k) q o buf = if q == null then pure buf else (do
  b ← load q
  xs ← copy_out b b.payload b.len
  if leb (o + b.len) buf_size
      then output_loop k b.next (o + b.len) (put buf o xs)
      else (λ _. fault))

-- The bytes handed to write(), and the result.
pub low_level_output : ℕ → Ptr → (ℕ → ℕ) → Cmd Heap (Err × List ℕ)
low_level_output k p buf = do
  buf' ← output_loop k p 0 buf
  b ← load p
  if leb b.tot_len buf_size then pure (err_ok, read buf' 0 b.tot_len) else (λ _. fault)

-- What read() gives: `none` is its result -1.
abbrev pub Got : Type 0
Got = Option (List ℕ)

-- `len`, a u16_t.
abbrev pub got_len : Got → ℕ
got_len none = 65535
got_len (some xs) = u16 (length xs)

abbrev pub got_buf : Got → (ℕ → ℕ) → ℕ → ℕ
got_buf none buf = buf
got_buf (some xs) buf = put buf 0 xs

-- The loop of low_level_input.
pub input_loop : ℕ → Ptr → ℕ → (ℕ → ℕ) → Cmd Heap (Unit {0})
input_loop zero q o buf = λ _. out_of_fuel
input_loop (suc k) q o buf = if q == null then pure tt else (do
  b ← load q
  if leb (o + b.len) buf_size
      then copy_in q b b.payload (read buf o b.len) >> input_loop k b.next (o + b.len) buf
      else (λ _. fault))

pub low_level_input : ℕ → Got → (ℕ → ℕ) → Cmd Heap Ptr
low_level_input k got buf = do
  p ← alloc k link (got_len got) pool null
  if p == null then pure p else (input_loop k p 0 (got_buf got buf) >> pure p)

-- mintapif_input; `input` is the interface's input function.
pub mintapif_input : ℕ → Got → (ℕ → ℕ) → (Ptr → Cmd Heap (Unit {0})) → Cmd Heap (Unit {0})
mintapif_input k got buf input = do
  p ← low_level_input k got buf
  if p == null then pure tt else input p
