-- ===== src/Pbuf/Alloc/Pool.antt =====
-- pbuf_alloc of lwip/src/core/pbuf.c, of type PBUF_POOL.
use ocaml_lwip.Base.{
  among, ℕ, ◌+◌, ◌-◌, ◌*◌, ◌^◌, ◌≤◌, ◌<◌, ◌≡◌, refl, ◌≢◌, false, some, List, [], ◌∷◌, ◌++◌, Returns,
  Returns-mono, arith, length, drop, min, get_or, length-set, get_or-set_self, get_or-set_ne, ne→==,
  le→leb, lt→ltb, ap, sym, ◌∙◌,
}
use ocaml_lwip.Memp.{Ptr, null}
use ocaml_lwip.Memp.Reuse.{malloc_eq, with_pool}
use ocaml_lwip.Pbuf.{Heap, Pbuf, pool, store, memp_pbuf_pool, write}
use ocaml_lwip.Pbuf.Free
use ocaml_lwip.Pbuf.Chain.{
  Cells, addresses, has, total, cells-write_self, cells-write_ne, in_memp-eq,
}
use ocaml_lwip.Pbuf.Packet.{Owned, IsPacket, Owned-Live}
use ocaml_lwip.Pbuf.Alloc.{bufsize, fresh, PbufLayer, transport, ip, link, raw, offset_of, alloc}
use ocaml_lwip.Pbuf.Alloc.Loop.{Ready, Tail, alloc_tail-Tail}

-- A new packet at `p` of `length` bytes with `offset` bytes of room in front, made of the first
-- elements of the free list `l`; the rest of memory and the other pools are as before.
pub record Allocated (h : Heap) (offset size : ℕ) (l : List Ptr) (p : Ptr) (g : Heap) : Type 0 where
  pub cs : Cells
  pub found : p ≢ null
  pub packet : IsPacket g p cs
  pub owned : Owned cs
  pub all : total cs ≡ size
  pub head : Pbuf
  pub at : g.cells p ≡ some head
  pub room : head.payload ≡ offset
  pub from : (a : Ptr) → among a l ≡ false → has a cs ≡ false
  pub outside : (a : Ptr) → among a l ≡ false → g.cells a ≡ h.cells a
  pub within : length cs ≤ length l
  pub pool_left : get_or g.memp memp_pbuf_pool [] ≡ drop (length cs) l
  pub front : addresses cs ++ get_or g.memp memp_pbuf_pool [] ≡ l
  pub pools_left : (i : ℕ) → i ≢ memp_pbuf_pool → get_or g.memp i [] ≡ get_or h.memp i []

abbrev pub first_pbuf : Heap → PbufLayer → ℕ → Ptr → Pbuf
first_pbuf h layer size p =
    fresh pool (offset_of layer) size (min size (bufsize - offset_of layer)) bufsize (h.stale p)

abbrev pub begun : Heap → PbufLayer → ℕ → Ptr → List Ptr → Heap
begun h layer size p l =
    write (record h { memp = with_pool memp_pbuf_pool l h.memp }) p
      (some (first_pbuf h layer size p))

pub offset-le : (layer : PbufLayer) → offset_of layer ≤ 56
offset-le transport = omega arith
offset-le ip = omega arith
offset-le link = omega arith
offset-le raw = omega arith

Tail-Allocated :
    (h g : Heap) (layer : PbufLayer) (size : ℕ) (p : Ptr) (l : List Ptr)
    → p ≢ null
    → among p l ≡ false
    → size < 2 ^ 16
    → memp_pbuf_pool < length h.memp
    → Tail
        (begun h layer size p l)
        p
        (first_pbuf h layer size p)
        (size - min size (bufsize - offset_of layer))
        l
        g
    → Allocated h (offset_of layer) size (p ∷ l) p g
Tail-Allocated h g layer size p l pn pl small wide f =
    let room = offset-le layer in
    let memp : (begun h layer size p l).memp ≡ with_pool memp_pbuf_pool l h.memp =
      unfold write in refl in
    record {
      cs = (p, record (first_pbuf h layer size p) { next = Free.start f.tail }) ∷ f.tail;
      found = pn;
      packet = record {
        leads = (refl, pn, f.at, f.leads);
        distinct = (f.from p pl, f.distinct);
        counted = (omega (arith, f.size), f.counted);
        inside = (omega arith, f.inside);
        live = (omega arith, Owned-Live f.tail f.owned);
        fits = omega (arith, f.size);
        pools = omega (arith, f.pools, ap (λ m. length m) memp, length-set h.memp memp_pbuf_pool l);
      };
      owned = (refl, f.owned);
      all = omega (arith, f.size);
      head = record (first_pbuf h layer size p) { next = Free.start f.tail };
      at = f.at;
      room = refl;
      from = λ a e.
          let rest : has a f.tail ≡ false = f.from a (ground (arith, e)) in ground (arith, e, rest);
      outside = λ a e.
          f.outside a (ground (arith, e)) (ground (arith, e))
          ∙ cells-write_ne (record h { memp = with_pool memp_pbuf_pool l h.memp }) p a
              (some (first_pbuf h layer size p)) (ground (arith, e));
      within = omega (arith, f.within);
      pool_left = f.pool_left;
      front = ap (λ t. p ∷ t) f.front;
      pools_left = λ i ne.
          f.pools_left i ne
          ∙ ap (λ m. get_or m i []) memp
          ∙ get_or-set_ne h.memp memp_pbuf_pool i l [] (λ e'. ne (sym e'));
    }

-- pbuf_alloc from PBUF_POOL gives a well-formed packet of the length asked for, whose pbufs have
-- one reference each and whose first has room for the layer's headers; it takes just as many
-- elements from the front of the free list, and nothing else in memory changes. The free list is
-- sound, and long enough.
pub alloc-Allocated :
    (k : ℕ) (h : Heap) (layer : PbufLayer) (size : ℕ) (block p : Ptr) (l : List Ptr)
    → get_or h.memp memp_pbuf_pool [] ≡ p ∷ l
    → Ready (p ∷ l)
    → memp_pbuf_pool < length h.memp
    → size < 2 ^ 16
    → size ≤ (bufsize - offset_of layer) + bufsize * length l
    → length l < k
    → Returns (Allocated h (offset_of layer) size (p ∷ l)) (alloc k layer size pool block h)
unfolding alloc store
alloc-Allocated k h layer size block p l e ready wide small enough fuel =
    let room = offset-le layer in
    let len = min size (bufsize - offset_of layer) in
    let memp : (begun h layer size p l).memp ≡ with_pool memp_pbuf_pool l h.memp =
      unfold write in refl in
    let g = begun h layer size p l in
    let at =
      cells-write_self (record h { memp = with_pool memp_pbuf_pool l h.memp }) p
        (some (first_pbuf h layer size p)) in
    rw
      (
        in_memp-eq _ p _ h (malloc_eq memp_pbuf_pool h.memp wide (p ∷ l) e),
        ne→== p null ready.0,
        le→leb (offset_of layer + len) bufsize (omega arith),
        lt→ltb 0 (bufsize - offset_of layer) (omega arith),
      )
      (Returns-mono
        (alloc_tail-Tail k p ready.0 k g p (first_pbuf h layer size p) (size - len) l ready.0 at
          refl (rw at (omega arith)) ready.1 ready.1 ready.2
          (rw memp (get_or-set_self h.memp memp_pbuf_pool l [] wide))
          (rw memp (omega (arith, length-set h.memp memp_pbuf_pool l))) (omega arith) (omega arith)
          fuel)
        λ q g' (same, f). rw same (Tail-Allocated h g' layer size p l ready.0 ready.1 small wide f))
