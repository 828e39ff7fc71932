-- ===== src/Pbuf/Copy/Loop.antt =====
-- The loop of pbuf_copy of lwip/src/core/pbuf.c, into a single pbuf.
use ocaml_lwip.Base.{
  ℕ, zero, suc, ◌+◌, ◌-◌, ◌^◌, ◌<◌, ◌≤◌, ◌≡◌, ◌≢◌, refl, ap, ap₂, sym, ◌∙◌, subst, Bool, true,
  false, some, List, [], ◌∷◌, ◌++◌, arith, ◌==◌, leb, if◌then◌else◌, length, ok, u16, Err, err_ok,
  ne→==, le→leb, Bool-cases, inl, inr, Returns, returns, Returns-mono, append-nil, append_assoc,
}
use ocaml_lwip.Memp.{Ptr, null}
use ocaml_lwip.Pbuf.{Heap, Pbuf, read, put, write, store, copy_in}
use ocaml_lwip.Pbuf.Bytes.{read-put, read_split, read-put_below}
use ocaml_lwip.Pbuf.Chain.{
  Cells, Chain, Counted, Inside, has, total, contents, bytes, load-eq, copy_out-eq, length-read,
  Seg-write, cells-write_self, cells-write_ne,
}
use ocaml_lwip.Pbuf.Copy.{copy_loop, one_packet}

-- No pbuf of the chain is empty.
abbrev pub Solid : Cells → Type 0
Solid [] = Unit {0}
Solid ((p, b) ∷ bs) = (0 < b.len) × Solid bs

-- The pbuf `t` at `q` holds `xs` in its first `n` bytes; nothing else has changed.
pub record Poured (h : Heap) (q : Ptr) (t : Pbuf) (n : ℕ) (xs : List ℕ) (g : Heap) : Type 0 where
  pub mem : ℕ → ℕ
  pub at : g.cells q ≡ some (record t { mem = mem })
  pub reads : read mem t.payload n ≡ xs
  pub others : (a : Ptr) → a ≢ q → g.cells a ≡ h.cells a
  pub memp : g.memp ≡ h.memp

read-put_on :
    (mem : ℕ → ℕ) (a o n : ℕ) (xs : List ℕ)
    → length xs ≡ n
    → read (put mem (a + o) xs) a (o + n) ≡ read mem a o ++ xs
read-put_on mem a o n xs e =
    let rest : n - length xs ≡ 0 = omega arith in
    read_split (put mem (a + o) xs) a o n
    ∙ ap₂ (λ s t. s ++ t) (read-put_below mem a o (a + o) xs (omega arith))
        (read-put mem (a + o) xs n (omega arith)
          ∙ ap (λ (m : ℕ). xs ++ read mem (a + o + length xs) m) rest
          ∙ append-nil xs)

-- The head of a well-counted chain without empty pbufs passes the test.
one_packet-head :
    (h : Heap) (p : Ptr) (bs : Cells)
    → Chain h p bs
    → Counted bs
    → Solid bs
    → one_packet p h ≡ ok tt h
unfolding one_packet
one_packet-head h p [] c m s = rw c refl
one_packet-head h p ((q, b) ∷ []) c m s =
    let same : (b.len == b.tot_len) ≡ true = ground (arith, m.0) in
    let last : (b.next == null) ≡ true = ground (arith, c.3) in
    rw (c.0, ne→== q null c.1, load-eq h c.1 c.2, same, last) refl
one_packet-head h p ((q, b) ∷ (r, d) ∷ bs) c m s =
    let more : (b.len == b.tot_len) ≡ false =
      ne→== b.len b.tot_len (λ e. omega (arith, e, m.0, s.1.0)) in
    rw (c.0, ne→== q null c.1, load-eq h c.1 c.2, more) refl

-- A pbuf without a successor passes it.
one_packet-last :
    (h : Heap) (q : Ptr) (t : Pbuf)
    → q ≢ null
    → h.cells q ≡ some t
    → t.next ≡ null
    → one_packet q h ≡ ok tt h
unfolding one_packet
one_packet-last h q t qn at end =
    let last : (t.next == null) ≡ true = ground (arith, end) in
    elim (Bool-cases (t.len == t.tot_len)) [
      | inl y ↦ rw (ne→== q null qn, load-eq h qn at, y, last) refl
      | inr n ↦ rw (ne→== q null qn, load-eq h qn at, n) refl
    ]

-- What a round leaves at `q`.
abbrev filled : Pbuf → (o : ℕ) → Pbuf → Pbuf
filled t o b = record t { mem = put t.mem (t.payload + o) (bytes b) }

abbrev poured : Heap → Ptr → Pbuf → (o : ℕ) → Pbuf → Heap
poured h q t o b = write h q (some (filled t o b))

-- The pbuf that the next round fills passes the test.
one_packet-next :
    (h : Heap) (q : Ptr) (t : Pbuf) (full : Bool)
    → q ≢ null
    → h.cells q ≡ some t
    → t.next ≡ null
    → one_packet (if full then t.next else q) h ≡ ok tt h
one_packet-next h q t true qn at end = one_packet-head h t.next [] end tt tt
one_packet-next h q t false qn at end = one_packet-last h q t qn at end

-- A round into the pbuf, with more to come or with `n` no more than what was copied.
poured-Poured :
    (h : Heap) (q : Ptr) (t : Pbuf) (o : ℕ) (b : Pbuf)
    → Poured h q t (o + (b.len + 0)) (read t.mem t.payload o ++ (bytes b ++ [])) (poured h q t o b)
unfolding write
poured-Poured h q t o b =
    let xs : List ℕ = bytes b in
    let mem : ℕ → ℕ = put t.mem (t.payload + o) xs in
    let e : o + (b.len + 0) ≡ o + b.len = omega arith in
    record {
      mem = mem;
      at = cells-write_self h q (some (filled t o b));
      reads =
          ap (λ (n : ℕ). read mem t.payload n) e
          ∙ read-put_on t.mem t.payload o b.len xs (length-read b.mem b.payload b.len)
          ∙ ap (λ ys. read t.mem t.payload o ++ ys) (sym (append-nil xs));
      others = λ a ne. cells-write_ne h q a (some (filled t o b)) ne;
      memp = refl;
    }

Poured-step :
    (h : Heap) (q : Ptr) (t : Pbuf) (o n : ℕ) (b : Pbuf) (xs : List ℕ) (g : Heap)
    → Poured
        (poured h q t o b)
        q
        (filled t o b)
        (o + b.len + n)
        (read (put t.mem (t.payload + o) (bytes b)) t.payload (o + b.len) ++ xs)
        g
    → Poured h q t (o + (b.len + n)) (read t.mem t.payload o ++ (bytes b ++ xs)) g
unfolding write
Poured-step h q t o n b xs g w =
    let e : o + (b.len + n) ≡ o + b.len + n = omega arith in
    record {
      mem = w.mem;
      at = w.at;
      reads =
          ap (λ (n : ℕ). read w.mem t.payload n) e
          ∙ w.reads
          ∙ ap (λ ys. ys ++ xs)
              (read-put_on t.mem t.payload o b.len (bytes b) (length-read b.mem b.payload b.len))
          ∙ append_assoc (read t.mem t.payload o) (bytes b) xs;
      others = λ a ne. w.others a ne ∙ cells-write_ne h q a (some (filled t o b)) ne;
      memp = w.memp;
    }

module _ (q : Ptr) (qn : q ≢ null) where
  pub copy_loop-Poured :
      (k : ℕ) (h : Heap) (t : Pbuf) (p : Ptr) (b : Pbuf) (bs : Cells) (o : ℕ)
      → h.cells q ≡ some t
      → t.next ≡ null
      → t.payload + t.len ≤ t.size
      → t.len < 2 ^ 16
      → Chain h p ((p, b) ∷ bs)
      → has q ((p, b) ∷ bs) ≡ false
      → Counted ((p, b) ∷ bs)
      → Inside ((p, b) ∷ bs)
      → Solid ((p, b) ∷ bs)
      → o + total ((p, b) ∷ bs) ≤ t.len
      → length bs < k
      → Returns
          (λ e g.
            (e ≡ err_ok)
            × Poured h q t
                (o + total ((p, b) ∷ bs))
                (read t.mem t.payload o ++ contents ((p, b) ∷ bs))
                g)
          (copy_loop k q p o 0 h)
  unfolding copy_loop copy_in store
  copy_loop-Poured zero h t p b bs o at end room small c out m i s fits fuel = absurd (omega arith)
  copy_loop-Poured (suc k) h t p b [] o at end room small c out m i s fits fuel =
      let xs : List ℕ = bytes b in
      let t' : Pbuf = filled t o b in
      let g : Heap = poured h q t o b in
      let zero_off : b.len - 0 ≡ b.len = omega arith in
      let all : leb b.len (t.len - o) ≡ true = le→leb b.len (t.len - o) (omega arith) in
      let start : b.payload + 0 ≡ b.payload = omega arith in
      let e : length xs ≡ b.len = length-read b.mem b.payload b.len in
      let within : leb (t.payload + o + length xs) t.size ≡ true =
        le→leb (t.payload + o + length xs) t.size (omega arith) in
      let to : u16 (o + b.len) ≡ o + b.len = omega arith in
      let from : u16 (0 + b.len) ≡ b.len = omega arith in
      let under : leb (o + b.len) t.len ≡ true = le→leb (o + b.len) t.len (omega arith) in
      let whole : leb b.len b.len ≡ true = le→leb b.len b.len (omega arith) in
      let last : (b.next == null) ≡ true = ground (arith, c.3) in
      rw
        (
          ne→== q null qn,
          load-eq h qn at,
          load-eq h c.1 c.2,
          zero_off,
          all,
          start,
          copy_out-eq h b b.payload b.len i.0,
          within,
          to,
          from,
          under,
          whole,
          one_packet-head g b.next [] c.3 tt tt,
          one_packet-next g q t' (o + b.len == t.len) qn (cells-write_self h q (some t')) end,
          last,
        )
        (returns (refl, poured-Poured h q t o b))
  copy_loop-Poured (suc k) h t p b ((r, d) ∷ bs) o at end room small c out m i s fits fuel =
      let xs : List ℕ = bytes b in
      let t' : Pbuf = filled t o b in
      let g : Heap = poured h q t o b in
      let zero_off : b.len - 0 ≡ b.len = omega arith in
      let all : leb b.len (t.len - o) ≡ true = le→leb b.len (t.len - o) (omega arith) in
      let start : b.payload + 0 ≡ b.payload = omega arith in
      let e : length xs ≡ b.len = length-read b.mem b.payload b.len in
      let within : leb (t.payload + o + length xs) t.size ≡ true =
        le→leb (t.payload + o + length xs) t.size (omega arith) in
      let to : u16 (o + b.len) ≡ o + b.len = omega arith in
      let from : u16 (0 + b.len) ≡ b.len = omega arith in
      let under : leb (o + b.len) t.len ≡ true = le→leb (o + b.len) t.len (omega arith) in
      let whole : leb b.len b.len ≡ true = le→leb b.len b.len (omega arith) in
      let apart : has q ((r, d) ∷ bs) ≡ false = ground (arith, out) in
      let after : Chain g b.next ((r, d) ∷ bs) =
        Seg-write h null q (some t') b.next ((r, d) ∷ bs) c.3 apart in
      let Q : Err → Heap → Type 0 = λ e f.
        (e ≡ err_ok)
        × Poured h q t (o + total ((p, b) ∷ (r, d) ∷ bs))
            (read t.mem t.payload o ++ contents ((p, b) ∷ (r, d) ∷ bs)) f in
      let onwards : b.next ≢ null = λ z. c.3.1 (sym c.3.0 ∙ z) in
      let more : (o + b.len == t.len) ≡ false =
        ne→== (o + b.len) t.len (λ x. omega (arith, x, s.1.0)) in
      let rest =
        copy_loop-Poured k g t' r d bs (o + b.len) (cells-write_self h q (some t')) end room small
          (refl, after.1, after.2, after.3) apart m.1 i.1 s.1 (omega arith) (omega arith) in
      rw
        (
          ne→== q null qn,
          load-eq h qn at,
          load-eq h c.1 c.2,
          zero_off,
          all,
          start,
          copy_out-eq h b b.payload b.len i.0,
          within,
          to,
          from,
          under,
          whole,
          one_packet-head g b.next ((r, d) ∷ bs) after m.1 s.1,
          one_packet-next g q t' (o + b.len == t.len) qn (cells-write_self h q (some t')) end,
          ne→== b.next null onwards,
          more,
        )
        (subst (λ r. Returns Q (copy_loop k q r (o + b.len) 0 g)) (sym c.3.0)
          (Returns-mono rest λ x g' w.
            (w.0, Poured-step h q t o (total ((r, d) ∷ bs)) b (contents ((r, d) ∷ bs)) g' w.1)))
