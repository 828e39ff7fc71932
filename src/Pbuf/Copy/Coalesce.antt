-- ===== src/Pbuf/Copy/Coalesce.antt =====
-- pbuf_copy into a single pbuf, and pbuf_coalesce, of lwip/src/core/pbuf.c.
use ocaml_lwip.Base.{
  ℕ, ◌+◌, ◌^◌, ◌<◌, ◌≤◌, ◌≡◌, ◌≢◌, subst, true, false, some, none, ◌∷◌, arith, leb, length, err_ok,
  ne→==, le→leb, Returns, Returns-mono,
}
use ocaml_lwip.Memp.{Ptr, null}
use ocaml_lwip.Pbuf.{Heap, Pbuf, ram, read}
use ocaml_lwip.Pbuf.Alloc.{PbufLayer, offset_of, fresh}
use ocaml_lwip.Pbuf.Chain.{Cells, has, total, contents, load-eq}
use ocaml_lwip.Pbuf.Packet.{IsPacket}
use ocaml_lwip.Pbuf.Copy.{copy}
use ocaml_lwip.Pbuf.Copy.Loop.{Solid, Poured, copy_loop-Poured}

-- pbuf_copy into one pbuf without a successor that is long enough.
pub copy-Poured :
    (k : ℕ) (h : Heap) (q : Ptr) (t : Pbuf) (p : Ptr) (b : Pbuf) (bs : Cells)
    → q ≢ null
    → h.cells q ≡ some t
    → t.next ≡ null
    → t.payload + t.len ≤ t.size
    → t.len ≡ t.tot_len
    → IsPacket h p ((p, b) ∷ bs)
    → has q ((p, b) ∷ bs) ≡ false
    → Solid ((p, b) ∷ bs)
    → b.tot_len ≤ t.tot_len
    → t.len < 2 ^ 16
    → length bs < k
    → Returns
        (λ e g. (e ≡ err_ok) × Poured h q t (total ((p, b) ∷ bs)) (contents ((p, b) ∷ bs)) g)
        (copy k q p h)
unfolding copy
copy-Poured k h q t p b bs qn at end room whole packet out s fits small fuel =
    let enough : leb b.tot_len t.tot_len ≡ true = le→leb b.tot_len t.tot_len fits in
    let c = packet.leads in
    let none_yet : 0 + total ((p, b) ∷ bs) ≡ total ((p, b) ∷ bs) = omega arith in
    rw (ne→== q null qn, ne→== p null c.1, load-eq h qn at, load-eq h c.1 c.2, enough)
      (Returns-mono
        (copy_loop-Poured q qn k h t p b bs 0 at end room small c out packet.counted packet.inside s
          (omega (arith, packet.counted.0)) fuel)
        λ x g w. (w.0, subst (λ n. Poured h q t n (contents ((p, b) ∷ bs)) g) none_yet w.1))

-- The single pbuf that pbuf_coalesce makes of a chain.
pub record Coalesced (h : Heap) (bs : Cells) (layer : PbufLayer) (q : Ptr) (g : Heap) : Type 0 where
  pub mem : ℕ → ℕ
  pub at :
      g.cells q
      ≡ some (fresh ram (offset_of layer) (total bs) (total bs) (offset_of layer + total bs) mem)
  pub holds : read mem (offset_of layer) (total bs) ≡ contents bs
  pub dead : (a : Ptr) → has a bs ≡ true → g.cells a ≡ none
  pub outside : (a : Ptr) → a ≢ q → has a bs ≡ false → g.cells a ≡ h.cells a
