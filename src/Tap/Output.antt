-- ===== src/Tap/Output.antt =====
-- low_level_output of lib_test/mintapif.c.
use ocaml_lwip.Base.{
  ℕ, zero, suc, ◌+◌, ◌-◌, ◌<◌, ◌≤◌, ◌≡◌, ◌≢◌, refl, ap, ap₂, sym, ◌∙◌, true, List, [], ◌∷◌, ◌++◌,
  some, ok, fault, arith, leb, if◌then◌else◌, length, ne→==, le→leb, Bool-cases, inl, inr, err_ok,
  append_assoc, append-nil,
}
use ocaml_lwip.Memp.{Ptr, null}
use ocaml_lwip.Pbuf.{Heap, read, put}
use ocaml_lwip.Pbuf.Chain.{
  Cells, Chain, Counted, Inside, total, contents, bytes, load-eq, copy_out-eq, length-read,
}
use ocaml_lwip.Pbuf.Bytes.{read-put, read_split, read-put_below}
use ocaml_lwip.Tap.{output_loop, low_level_output, buf_size}

-- The bytes that one round adds behind those that are there.
read-put_behind :
    (buf : ℕ → ℕ) (o n : ℕ) (xs : List ℕ)
    → length xs ≡ n
    → read (put buf o xs) 0 (o + n) ≡ read buf 0 o ++ xs
read-put_behind buf o n xs e =
    let start : 0 + o ≡ o = omega arith in
    let rest : n - length xs ≡ 0 = omega arith in
    read_split (put buf o xs) 0 o n
    ∙ ap₂ (λ s t. s ++ t) (read-put_below buf 0 o o xs (omega arith))
        (ap (λ (a : ℕ). read (put buf o xs) a n) start
          ∙ read-put buf o xs n (omega arith)
          ∙ ap (λ (m : ℕ). xs ++ read buf (o + length xs) m) rest
          ∙ append-nil xs)

output_loop-copies :
    (k : ℕ) (h : Heap) (p : Ptr) (bs : Cells) (o : ℕ) (buf : ℕ → ℕ)
    → Chain h p bs
    → Inside bs
    → length bs < k
    → o + total bs ≤ buf_size
    → (buf' : ℕ → ℕ) × (output_loop k p o buf h ≡ ok buf' h)
      × (read buf' 0 (o + total bs) ≡ read buf 0 o ++ contents bs)
unfolding output_loop
output_loop-copies zero h p bs o buf c i fuel le = absurd (omega arith)
output_loop-copies (suc k) h p [] o buf c i fuel le =
    let here : o + 0 ≡ o = omega arith in
    (buf, rw c refl, ap (λ (n : ℕ). read buf 0 n) here ∙ sym (append-nil (read buf 0 o)))
output_loop-copies (suc k) h p ((q, b) ∷ bs) o buf c i fuel le =
    let room : leb (o + b.len) buf_size ≡ true = le→leb (o + b.len) buf_size (omega arith) in
    let next : o + (b.len + total bs) ≡ o + b.len + total bs = omega arith in
    let (buf', run, reads) =
      output_loop-copies k h b.next bs (o + b.len) (put buf o (bytes b)) c.3 i.1 (omega arith)
        (omega arith) in
    (
      buf',
      rw (c.0, ne→== q null c.1, load-eq h c.1 c.2, copy_out-eq h b b.payload b.len i.0, room) run,
      ap (λ (n : ℕ). read buf' 0 n) next
          ∙ reads
          ∙ ap (λ ys. ys ++ contents bs)
              (read-put_behind buf o b.len (bytes b) (length-read b.mem b.payload b.len))
          ∙ append_assoc (read buf 0 o) (bytes b) (contents bs),
    )

output_loop-fault :
    (k : ℕ) (h : Heap) (p : Ptr) (bs : Cells) (o : ℕ) (buf : ℕ → ℕ)
    → Chain h p bs
    → Inside bs
    → length bs < k
    → o ≤ buf_size
    → buf_size < o + total bs
    → output_loop k p o buf h ≡ fault
unfolding output_loop
output_loop-fault zero h p bs o buf c i fuel start more = absurd (omega arith)
output_loop-fault (suc k) h p [] o buf c i fuel start more = absurd (omega arith)
output_loop-fault (suc k) h p ((q, b) ∷ bs) o buf c i fuel start more =
    elim (Bool-cases (leb (o + b.len) buf_size)) [
      | inl room ↦
          rw (c.0, ne→== q null c.1, load-eq h c.1 c.2, copy_out-eq h b b.payload b.len i.0, room)
            (output_loop-fault k h b.next bs (o + b.len) (put buf o (bytes b)) c.3 i.1 (omega arith)
              (ground arith) (omega arith))
      | inr none_left ↦
          rw
            (
              c.0,
              ne→== q null c.1,
              load-eq h c.1 c.2,
              copy_out-eq h b b.payload b.len i.0,
              none_left,
            )
            refl
    ]

-- low_level_output of a well-formed packet: up to the 1514 bytes of its buffer it hands the bytes of
-- the whole chain to write(), in order, whatever the stack held before, returns ERR_OK and changes no
-- packet; for a longer packet it writes past the end of the buffer.
pub low_level_output-contents :
    (k : ℕ) (h : Heap) (p : Ptr) (bs : Cells) (buf : ℕ → ℕ)
    → p ≢ null
    → Chain h p bs
    → Counted bs
    → Inside bs
    → length bs < k
    → low_level_output k p buf h
      ≡ (if leb (total bs) buf_size then ok (err_ok, contents bs) h else fault)
unfolding low_level_output
low_level_output-contents k h p [] buf pn c m i fuel = absurd (pn c)
low_level_output-contents k h p ((q, b) ∷ bs) buf pn c m i fuel =
    let cs : Cells = (q, b) ∷ bs in
    elim (Bool-cases (leb (total cs) buf_size)) [
      | inl fits ↦
          let (buf', run, reads) = output_loop-copies k h p cs 0 buf c i fuel (ground arith) in
          let same : b.tot_len ≡ 0 + total cs = omega (arith, m.0) in
          let room : leb (0 + total cs) buf_size ≡ true =
            le→leb (0 + total cs) buf_size (ground arith) in
          let own : h.cells p ≡ some b = ap h.cells c.0 ∙ c.2 in
          rw (fits, run, load-eq h pn own, same, room) (ap (λ xs. ok (err_ok, xs) h) reads)
      | inr long ↦
          rw (output_loop-fault k h p cs 0 buf c i fuel (omega arith) (ground arith), long) refl
    ]
