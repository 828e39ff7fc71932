-- ===== src/Pbuf/Header.antt =====
-- pbuf_header of lwip/src/core/pbuf.c: hiding and revealing headers in front of the payload.
use ocaml_lwip.Base.{
  ℕ, zero, suc, ◌+◌, ◌-◌, ◌^◌, ◌≤◌, ◌<◌, ◌≡◌, refl, false, ◌∷◌, ◌++◌, ℤ, pos, negsuc, Cmd, ◌>>=◌,
  ◌>>◌, pure, assert, u16, Returns, returns, arith, ◌==◌, ltb, leb, if◌then◌else◌, drop, ap, ◌∙◌,
  append_assoc, ne→==, ◌⊎◌, drop-append_ge, sym, le→leb, le→ltb,
}
use native.Mathlib.Nat.{add-zero, zero-add, add-suc, suc-add}
use mathlib.Core.Bool.{not}
use ocaml_lwip.Memp.{Ptr, null}
use ocaml_lwip.Pbuf.{Pbuf, PbufType, ram, rom, ref, pool, Heap, load, store, read}
use ocaml_lwip.Pbuf.Chain.{
  Holds, Cells, Chain, has, Counted, Inside, total, contents, bytes, load-eq, Chain-write_head,
  length-read, drop-read,
}

-- The payload pointer moves back, unless that takes it before the buffer; 1 is failure.
move_back : Ptr → Pbuf → ℕ → Cmd Heap ℕ
move_back p b n = if ltb b.payload n then pure 1 else (do
  store p
      (record b { payload = b.payload - n; len = u16 (b.len + n); tot_len = u16 (b.tot_len + n) })
  pure 0)

reveal : PbufType → Ptr → Pbuf → ℕ → Cmd Heap ℕ
unfolding move_back
reveal ram p b n = move_back p b n
reveal pool p b n = move_back p b n
reveal ref p b n = pure 1
reveal rom p b n = pure 1

-- `n` bytes less in front, for every type: the payload pointer moves forward, so the test against
-- the front of the buffer passes. `-` stops at 0, so 2^16 is added first.
hide : Ptr → Pbuf → ℕ → Cmd Heap ℕ
hide p b n = do
  assert (leb n b.len)
  store p (record b {
    payload = b.payload + n;
    len = u16 (b.len + 2 ^ 16 - n);
    tot_len = u16 (b.tot_len + 2 ^ 16 - n);
  })
  pure 0

pub header : Ptr → ℤ → Cmd Heap ℕ
unfolding reveal hide
header p (pos zero) = do assert (not (p == null)); pure 0
header p (pos (suc n)) = do assert (not (p == null)); b ← load p; reveal b.type p b (suc n)
header p (negsuc n) = do assert (not (p == null)); b ← load p; hide p b (suc n)

abbrev pub hidden : Pbuf → ℕ → Pbuf
hidden b n = record b {
  payload = b.payload + n;
  len = u16 (b.len + 2 ^ 16 - n);
  tot_len = u16 (b.tot_len + 2 ^ 16 - n);
}

abbrev pub revealed : Pbuf → ℕ → Pbuf
revealed b n = record b {
  payload = b.payload - n;
  len = u16 (b.len + n);
  tot_len = u16 (b.tot_len + n);
}

read-append : (mem : ℕ → ℕ) (o n m : ℕ) → read mem o (n + m) ≡ read mem o n ++ read mem (o + n) m
read-append mem o zero m = rw (zero-add, add-zero)
read-append mem o (suc n) m =
    rw (suc-add n m, add-suc o n, ← suc-add o n) (ap (λ t. mem o ∷ t) (read-append mem (suc o) n m))

reveal-own :
    (type : PbufType) (p : Ptr) (b : Pbuf) (n : ℕ)
    → (type ≡ ram) ⊎ (type ≡ pool)
    → reveal type p b n ≡ move_back p b n
unfolding reveal
reveal-own ram p b n own = refl
reveal-own pool p b n own = refl
reveal-own rom p b n own = ground arith
reveal-own ref p b n own = ground arith

module _ (h : Heap) (p : Ptr) (b : Pbuf) (bs : Cells) (c : Chain h p ((p, b) ∷ bs))
    (single : has p bs ≡ false) (counted : Counted ((p, b) ∷ bs)) (inside : Inside ((p, b) ∷ bs))
    (fits : total ((p, b) ∷ bs) < 2 ^ 16) where
  -- pbuf_header with a negative increment hides that many bytes at the front of the chain, for
  -- every type of pbuf, if the first pbuf has them: it returns 0, and what is left is well formed
  -- and holds the other bytes. The chain is well formed, below 2^16 bytes, with `p` in it once.
  pub header-hide :
      (n : ℕ)
      → suc n ≤ b.len
      → Returns
          (λ r g.
            (r ≡ 0)
            × Holds g p ((p, hidden b (suc n)) ∷ bs) (drop (suc n) (contents ((p, b) ∷ bs))))
          (header p (negsuc n) h)
  unfolding header store
  header-hide n room =
      rw (ne→== p null c.1, load-eq h c.1 c.2, le→leb _ _ room)
        (returns (
          refl,
          record {
            leads = Chain-write_head h p b (hidden b (suc n)) bs c single refl;
            counted = (omega arith, counted.1);
            inside = (omega arith, inside.1);
            holds = sym (
                drop-append_ge (suc n) (bytes b) (contents bs) (rw length-read room)
                ∙ ap (λ xs. xs ++ contents bs)
                    (drop-read b.mem b.payload b.len (suc n) room
                      ∙ ap (read b.mem (b.payload + suc n)) kept));
          },
        ))
    where
      kept : b.len - suc n ≡ u16 (b.len + 2 ^ 16 - suc n)
      kept = omega arith

  -- pbuf_header with a positive increment on a pbuf that holds its payload, with room in front
  -- of it and in the 16-bit lengths, puts the bytes that stand there in front of the chain.
  pub header-reveal :
      (n : ℕ)
      → (b.type ≡ ram) ⊎ (b.type ≡ pool)
      → suc n ≤ b.payload
      → total ((p, b) ∷ bs) + suc n < 2 ^ 16
      → Returns
          (λ r g.
            (r ≡ 0)
            × Holds g p
                ((p, revealed b (suc n)) ∷ bs)
                (read b.mem (b.payload - suc n) (suc n) ++ contents ((p, b) ∷ bs)))
          (header p (pos (suc n)) h)
  unfolding header store move_back
  header-reveal n own room small =
      rw
        (
          ne→== p null c.1,
          load-eq h c.1 c.2,
          reveal-own b.type p b (suc n) own,
          move_back,
          le→ltb _ _ room,
        )
        (returns (
          refl,
          record {
            leads = Chain-write_head h p b (revealed b (suc n)) bs c single refl;
            counted = (omega arith, counted.1);
            inside = (omega arith, inside.1);
            holds =
                ap (λ xs. xs ++ contents bs)
                  (ap (read b.mem (b.payload - suc n)) longer
                    ∙ read-append b.mem (b.payload - suc n) (suc n) b.len
                    ∙ ap (λ (o : ℕ). read b.mem (b.payload - suc n) (suc n) ++ read b.mem o b.len)
                        back)
                ∙ append_assoc (read b.mem (b.payload - suc n) (suc n)) (bytes b) (contents bs);
          },
        ))
    where
      longer : u16 (b.len + suc n) ≡ suc n + b.len
      longer = omega arith

      back : b.payload - suc n + suc n ≡ b.payload
      back = omega arith
