-- ===== src/Pbuf/Take/Overwrite.antt =====
-- pbuf_take of lwip/src/core/pbuf.c: what it writes.
use ocaml_lwip.Base.{
  ℕ, ◌^◌, ◌≤◌, ◌<◌, ◌≡◌, refl, ◌≢◌, true, false, List, [], ◌∷◌, ◌++◌, ok, Returns, returns,
  Returns-bind, Err, err_ok, err_code, arith, ◌==◌, ltb, length, take, drop, ne→==, lt→ltb,
}
use ocaml_lwip.Memp.{Ptr, null}
use ocaml_lwip.Pbuf.{Heap, Pbuf}
use ocaml_lwip.Pbuf.Chain.{
  Cells, Chain, Holds, has, Distinct, total, Counted, Inside, contents, load-eq,
}
use ocaml_lwip.Pbuf.Take.{take_data}
use ocaml_lwip.Pbuf.Take.Loop.{take_loop-Filled, fields}

-- What pbuf_take leaves: a well-formed chain in the place of the old one.
pub record Taken (h : Heap) (p : Ptr) (bs : Cells) (xs : List ℕ) (e : Err) (g : Heap) : Type 0 where
  pub done : e ≡ err_ok
  pub cs : Cells
  pub packet : Holds g p cs xs
  pub same_fields : fields cs ≡ fields bs
  pub outside : (a : Ptr) → has a bs ≡ false → g.cells a ≡ h.cells a
  pub pools : g.memp ≡ h.memp

-- pbuf_take overwrites the first `len` bytes of a packet with those at `dataptr` and returns ERR_OK;
-- the bytes behind them stay. Every pbuf of the packet keeps its place and all its fields, so also
-- its lengths, and nothing outside the packet changes. The chain is well formed and without cycle,
-- `len` is no more than its length nor than the data, and 16 bits wide.
pub take_data-Taken :
    (k : ℕ) (h : Heap) (p dataptr : Ptr) (bs : Cells) (src : List ℕ) (len : ℕ)
    → p ≢ null
    → dataptr ≢ null
    → Chain h p bs
    → Distinct bs
    → Counted bs
    → Inside bs
    → len ≤ total bs
    → len ≤ length src
    → len < 2 ^ 16
    → length bs < k
    → Returns
        (Taken h p bs (take len src ++ drop len (contents bs)))
        (take_data k p dataptr src len h)
unfolding take_data
take_data-Taken k h p dataptr [] src len pn dn l d m i fits long small fuel = absurd (pn l)
take_data-Taken k h p dataptr ((q, b) ∷ bs) src len pn dn l d m i fits long small fuel =
    let room : ltb b.tot_len len ≡ false = ground (arith, m.0) in
    rw (ne→== p null pn, ne→== dataptr null dn, l.0, load-eq h l.1 l.2, room)
      (Returns-bind
        (take_loop-Filled k h q ((q, b) ∷ bs) src len 0 (refl, l.1, l.2, l.3) d i fits (omega arith)
          (omega arith) fuel)
        λ n g (e, f).
          let all : (n == len) ≡ true = ground arith in
          rw all (
            returns (record {
              done = refl;
              cs = f.cs;
              packet = record {
                leads = f.leads;
                counted = f.counted m;
                inside = f.inside;
                holds = f.holds;
              };
              same_fields = f.same_fields;
              outside = f.outside;
              pools = f.pools;
            })))

-- A packet shorter than `len` is left alone, and the result is ERR_ARG.
pub take_data-short :
    (k : ℕ) (h : Heap) (p dataptr : Ptr) (q : Ptr) (b : Pbuf) (bs : Cells) (src : List ℕ) (len : ℕ)
    → dataptr ≢ null
    → Chain h p ((q, b) ∷ bs)
    → b.tot_len < len
    → take_data k p dataptr src len h ≡ ok (err_code 10) h
unfolding take_data
take_data-short k h p dataptr q b bs src len dn l less =
    rw (l.0, ne→== q null l.1, ne→== dataptr null dn, load-eq h l.1 l.2, lt→ltb b.tot_len len less)
      refl
