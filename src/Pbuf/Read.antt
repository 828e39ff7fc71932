-- ===== src/Pbuf/Read.antt =====
-- pbuf_clen and pbuf_copy_partial of lwip/src/core/pbuf.c. The loops take fuel, and each theorem
-- gives them one round more than the chain has pbufs.
use ocaml_lwip.Base.{
  ℕ, zero, suc, ◌+◌, ◌-◌, ◌^◌, ◌≤◌, ◌<◌, ◌≡◌, ◌≢◌, Bool, true, false, ◌&&◌, ◌||◌, List, [], ◌∷◌,
  ◌++◌, Cmd, ok, out_of_fuel, ◌>>=◌, ◌>>◌, pure, assert, u8, u16, arith, ◌==◌, ltb, leb,
  if◌then◌else◌, length, ap, ◌∙◌, sym, ap₂, append-nil, ==→eq, ne→==, append_assoc, ltb→lt,
  length-append, Bool-cases, inl, inr,
}
use native.Mathlib.Nat.{sub_self}
use mathlib.Core.Bool.{not, or-true}
use ocaml_lwip.Memp.{Ptr, null}
use ocaml_lwip.Pbuf.{Pbuf, Heap, load, copy_out, read}
use ocaml_lwip.Pbuf.Chain.{
  Cells, Chain, Inside, slice, slice_nil, slice_skip, slice_within, slice_across, load-eq,
  copy_out-eq, length-read,
}

clen_loop : ℕ → Ptr → ℕ → Cmd Heap ℕ
clen_loop zero p len = λ _. out_of_fuel
clen_loop (suc k) p len =
    if p == null then pure len else do b ← load p; clen_loop k b.next (u8 (len + 1))

pub clen : ℕ → Ptr → Cmd Heap ℕ
unfolding clen_loop
clen k p = clen_loop k p 0

-- The test of pbuf_copy_partial that moves on to the next pbuf.
abbrev skips : ℕ → ℕ → Bool
skips offset len = not (offset == 0) && leb len offset

abbrev buf_copy_len : ℕ → ℕ → ℕ
buf_copy_len len room = if ltb len room then len else room

-- `left` and `copied_total` of the source are always equal; `left` stands for both, and `out` for
-- the bytes written to `dataptr` so far.
copy_loop : ℕ → Ptr → ℕ → ℕ → ℕ → List ℕ → Cmd Heap (ℕ × List ℕ)
copy_loop zero p offset len left out = λ _. out_of_fuel
copy_loop (suc k) p offset len left out = if (len == 0) || (p == null) then pure (left, out) else do
  b ← load p
  if skips offset b.len then copy_loop k b.next (offset - b.len) len left out else do
    let n = buf_copy_len len (b.len - offset)
    bs ← copy_out b (b.payload + offset) n
    copy_loop k b.next 0 (len - n) (u16 (left + n)) (out ++ bs)

pub copy_partial : ℕ → Ptr → Ptr → ℕ → ℕ → Cmd Heap (ℕ × List ℕ)
unfolding copy_loop
copy_partial k buf dataptr len offset = do
  assert (not (buf == null))
  assert (not (dataptr == null))
  copy_loop k buf offset len 0 []

skips-le : (offset len : ℕ) → skips offset len ≡ true → len ≤ offset
skips-le offset len skip = ground arith

stays-le : (offset len : ℕ) → skips offset len ≡ false → offset ≤ len
stays-le offset len stay = ground arith

buf_copy_len-le : (len room : ℕ) → buf_copy_len len room ≤ len
buf_copy_len-le len room = ground arith

-- One round takes from the first pbuf, and what is left of `len` from the next ones.
slice_step :
    (len offset : ℕ) (q : Ptr) (b : Pbuf) (bs : Cells)
    → offset ≤ b.len
    → let n = buf_copy_len len (b.len - offset) in
      slice len offset ((q, b) ∷ bs) ≡ read b.mem (b.payload + offset) n ++ slice (len - n) 0 bs
slice_step len offset q b bs h = elim (Bool-cases (ltb len (b.len - offset))) [
  | inl less ↦
      let lt : len < b.len - offset = ltb→lt len (b.len - offset) less in
      rw (less, slice_within len offset q b bs h (omega arith), sub_self len) (sym (append-nil _))
  | inr more ↦ rw more (slice_across len offset q b bs h (ground arith))
]

module _ {h : Heap} where
  clen_loop-eq :
      (k : ℕ) (p : Ptr) (bs : Cells) (len : ℕ)
      → Chain h p bs
      → length bs < k
      → len < 2 ^ 8
      → clen_loop k p len h ≡ ok (u8 (len + length bs)) h
  unfolding clen_loop
  clen_loop-eq zero p bs len c fuel small = absurd (omega arith)
  clen_loop-eq (suc k) p [] len c fuel small = rw c (ap (λ n. ok n h) (omega arith))
  clen_loop-eq (suc k) p ((q, b) ∷ bs) len c fuel small =
      rw (c.0, ne→== _ _ c.1, load-eq h c.1 c.2)
        (clen_loop-eq k b.next bs (u8 (len + 1)) c.3 (omega arith) (omega arith)
          ∙ ap (λ n. ok n h) (omega arith))

  -- pbuf_clen counts the pbufs of a chain modulo 256, whatever their lengths, and writes nothing.
  pub clen-length :
      (k : ℕ) (p : Ptr) (bs : Cells)
      → Chain h p bs
      → length bs < k
      → clen k p h ≡ ok (u8 (length bs)) h
  unfolding clen
  clen-length k p bs c fuel =
      clen_loop-eq k p bs 0 c fuel (omega arith) ∙ ap (λ n. ok n h) (omega arith)

  copy_loop-eq :
      (k : ℕ) (p : Ptr) (bs : Cells) (offset len left : ℕ) (out : List ℕ)
      → Chain h p bs
      → Inside bs
      → length bs < k
      → left + len < 2 ^ 16
      → copy_loop k p offset len left out h
        ≡ ok (left + length (slice len offset bs), out ++ slice len offset bs) h
  unfolding copy_loop
  copy_loop-eq zero p bs offset len left out c i fuel small = absurd (omega arith)
  copy_loop-eq (suc k) p [] offset len left out c i fuel small =
      rw (c, or-true, slice_nil len offset)
        (ap₂ (λ n t. ok (n, t) h) (omega arith) (sym (append-nil out)))
  copy_loop-eq (suc k) p ((q, b) ∷ bs) offset len left out c i fuel small =
      elim (Bool-cases (len == 0)) [
        | inl done ↦
            rw (done, ==→eq len 0 done)
              (ap₂ (λ n t. ok (n, t) h) (omega arith) (sym (append-nil out)))
        | inr more ↦
            rw (more, c.0, ne→== _ _ c.1, load-eq h c.1 c.2)
              (elim (Bool-cases (skips offset b.len)) [
                | inl skip ↦
                    rw (skip, slice_skip len offset q b bs (skips-le offset b.len skip))
                      (copy_loop-eq k b.next bs (offset - b.len) len left out c.3 i.1 (omega arith)
                        small)
                | inr here ↦
                    let fits : b.payload + offset + buf_copy_len len (b.len - offset) ≤ b.size =
                      ground (arith, stays-le offset b.len) in
                    rw
                      (
                        here,
                        copy_out-eq h b _ _ fits,
                        slice_step len offset q b bs (stays-le offset b.len here),
                      )
                      (copy_loop-eq k b.next bs 0 (len - buf_copy_len len (b.len - offset))
                          (u16 (left + buf_copy_len len (b.len - offset))) _ c.3 i.1 (omega arith)
                          (omega (arith, buf_copy_len-le len (b.len - offset)))
                        ∙ ap₂ (λ n t. ok (n, t) h)
                            (omega (
                              arith,
                              buf_copy_len-le len (b.len - offset),
                              length-append
                                  (read b.mem (b.payload + offset)
                                    (buf_copy_len len (b.len - offset)))
                                  (slice (len - buf_copy_len len (b.len - offset)) 0 bs),
                              length-read b.mem (b.payload + offset)
                                  (buf_copy_len len (b.len - offset)),
                            ))
                            (append_assoc out _ _))
              ])
      ]

  -- pbuf_copy_partial copies the bytes of the whole chain from `offset` on, `len` of them or as
  -- many as there are, whatever pbufs they are spread over; it returns their number and writes no
  -- pbuf. It needs non-null pointers, payloads inside their buffers, and a `len` of 16 bits.
  pub copy_partial-slice :
      (k : ℕ) (p dataptr : Ptr) (bs : Cells) (len offset : ℕ)
      → p ≢ null
      → dataptr ≢ null
      → Chain h p bs
      → Inside bs
      → length bs < k
      → len < 2 ^ 16
      → copy_partial k p dataptr len offset h
        ≡ ok (length (slice len offset bs), slice len offset bs) h
  unfolding copy_partial
  copy_partial-slice k p dataptr bs len offset ne ne' c i fuel small =
      rw (ne→== _ _ ne, ne→== _ _ ne')
        (copy_loop-eq k p bs offset len 0 [] c i fuel (omega arith)
          ∙ ap (λ (n : ℕ). ok (n, slice len offset bs) h) (omega arith))
