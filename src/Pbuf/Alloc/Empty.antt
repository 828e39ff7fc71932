-- ===== src/Pbuf/Alloc/Empty.antt =====
-- pbuf_alloc of lwip/src/core/pbuf.c, of type PBUF_POOL, where the pool runs out.
use ocaml_lwip.Base.{
  among, ◌^◌, ℕ, suc, ◌+◌, ◌-◌, ◌*◌, ◌<◌, ◌≡◌, refl, false, some, List, [], ◌∷◌, Returns,
  Returns-mono, arith, length, min, get_or, length-set, get_or-set_self, get_or-set_ne, sym, ap,
  ◌≢◌, ne→==, le→leb, lt→ltb, ◌∙◌,
}
use ocaml_lwip.Memp.{Ptr, null}
use ocaml_lwip.Memp.Reuse.{malloc_eq, with_pool}
use ocaml_lwip.Pbuf.{Heap, pool, store, memp_pbuf_pool, write}
use ocaml_lwip.Pbuf.Chain.{cells-write_self, cells-write_ne, in_memp-eq}
use ocaml_lwip.Pbuf.Alloc.{bufsize, alloc, PbufLayer, offset_of}
use ocaml_lwip.Pbuf.Alloc.Pool.{first_pbuf, begun, offset-le}
use ocaml_lwip.Pbuf.Alloc.Loop.{Ready}
use ocaml_lwip.Pbuf.Alloc.Snoc.{among_apart, onto}
use ocaml_lwip.Pbuf.Alloc.Undo.{Started, alloc_tail-Failed}

-- NULL is returned, the pool has the elements of `l`, those given back last in front, and nothing
-- but the memory of its elements has changed.
pub record Nothing (h : Heap) (l : List Ptr) (s : Ptr) (g : Heap) : Type 0 where
  pub none_left : s ≡ null
  pub outside : (a : Ptr) → among a l ≡ false → g.cells a ≡ h.cells a
  pub pool_left : get_or g.memp memp_pbuf_pool [] ≡ onto l []
  pub pools_left : (i : ℕ) → i ≢ memp_pbuf_pool → get_or g.memp i [] ≡ get_or h.memp i []

-- pbuf_alloc from PBUF_POOL of more than the pool has left takes nothing: it returns NULL, and each
-- free element is back in the pool, once, in the opposite order; the other pools are as they were,
-- and no memory outside the pool's free elements has changed. The free list is sound and not empty.
pub alloc-Nothing :
    (k : ℕ) (h : Heap) (layer : PbufLayer) (size : ℕ) (block p : Ptr) (l : List Ptr)
    → get_or h.memp memp_pbuf_pool [] ≡ p ∷ l
    → Ready (p ∷ l)
    → memp_pbuf_pool < length h.memp
    → size < 2 ^ 16
    → (bufsize - offset_of layer) + bufsize * length l < size
    → suc (length l) < k
    → Returns (Nothing h (p ∷ l)) (alloc k layer size pool block h)
unfolding alloc store
alloc-Nothing k h layer size block p l e ready wide small short fuel =
    let room = offset-le layer in
    let len = min size (bufsize - offset_of layer) in
    let first = first_pbuf h layer size p in
    let h1 = record h { memp = with_pool memp_pbuf_pool l h.memp } in
    let g = begun h layer size p l in
    let at = cells-write_self h1 p (some first) in
    let memp : g.memp ≡ with_pool memp_pbuf_pool l h.memp = unfold write in refl in
    let started : Started g p [] p first l = record {
      leads = refl;
      set = ready.0;
      at = at;
      end = refl;
      single = refl;
      pooled = refl;
      distinct = tt;
      fresh_r = refl;
      owned = tt;
      all_pooled = tt;
      apart = λ a i. ground (arith, among_apart a p l i ready.1);
      ready = ready.2;
      left = rw memp (get_or-set_self h.memp memp_pbuf_pool l [] wide);
      wide = rw memp (omega (arith, length-set h.memp memp_pbuf_pool l));
    } in
    rw
      (
        in_memp-eq _ p _ h (malloc_eq memp_pbuf_pool h.memp wide (p ∷ l) e),
        ne→== p null ready.0,
        le→leb (offset_of layer + len) bufsize (omega arith),
        lt→ltb 0 (bufsize - offset_of layer) (omega arith),
      )
      (Returns-mono
        (alloc_tail-Failed k p ready.0 k g [] p first (size - len) l started (rw at (omega arith))
          ready.1 (omega arith) (omega arith) (omega arith) (omega arith))
        λ s g' (none_left, f). record {
          none_left = none_left;
          outside = λ a o.
              f.outside a (ground (arith, o)) (ground (arith, o))
              ∙ cells-write_ne h1 p a (some first) (ground (arith, o));
          pool_left = f.pool_left;
          pools_left = λ i ne.
              f.pools_left i ne
              ∙ ap (λ m. get_or m i []) memp
              ∙ get_or-set_ne h.memp memp_pbuf_pool i l [] (λ z. ne (sym z));
        })
