-- ===== src/Pbuf/Alloc/Undo.antt =====
-- The loop of pbuf_alloc of lwip/src/core/pbuf.c where the pool runs out: the pbufs taken so far are
-- given back.
use ocaml_lwip.Base.{
  among, ==_self, ℕ, zero, suc, ◌+◌, ◌-◌, ◌*◌, ◌<◌, ◌≡◌, refl, ◌≢◌, true, false, some, none, List,
  [], ◌∷◌, ◌++◌, ap₂, append-nil, get_or-set_ne, ◌||◌, Returns, returns, Returns-mono, Returns-bind,
  arith, ◌==◌, u16, length, min, get_or, length-set, get_or-set_self, ne→==, lt→ltb, ap, sym, ◌∙◌,
  length-append,
}
use ocaml_lwip.Memp.{Ptr, null}
use ocaml_lwip.Memp.Reuse.{malloc_eq, with_pool}
use ocaml_lwip.Pbuf.{Heap, Pbuf, pool, store, memp_pbuf_pool}
use ocaml_lwip.Pbuf.Free
use ocaml_lwip.Pbuf.Free.{
  Freed, free-Freed, returned, give_back, gone, length-returned, length-give_back,
}
use ocaml_lwip.Pbuf.Chain.{
  Cells, Seg, addresses, has, Distinct, load-eq, cells-write_self, cells-write_ne, in_memp-eq,
  Seg-append, Seg-frame,
}
use ocaml_lwip.Pbuf.Packet.{Owned, Owned-Live, gone-Owned}
use ocaml_lwip.Pbuf.Alloc.{bufsize, alloc_tail}
use ocaml_lwip.Pbuf.Alloc.Loop.{
  Ready, Roomy, Roomy-load, Roomy-linked, linked, taken, next_pbuf, linked-memp, linked-left,
}
use ocaml_lwip.Pbuf.Alloc.Snoc.{
  snoc, has-snoc, Distinct-snoc, Owned-snoc, Pooled, Pooled-snoc, onto, returned-Pooled,
  returned-Pooled_ne, addresses-snoc, has_apart, among_apart,
}

-- `g` is `h` without the pbufs of `bs` and the elements `l`, which are all free.
pub record Undone (h : Heap) (bs : Cells) (l : List Ptr) (g : Heap) : Type 0 where
  pub dead : (a : Ptr) → has a bs ≡ true → g.cells a ≡ none
  pub outside : (a : Ptr) → has a bs ≡ false → among a l ≡ false → g.cells a ≡ h.cells a
  pub pool_left : get_or g.memp memp_pbuf_pool [] ≡ onto (addresses bs ++ l) []
  pub pools_left : (i : ℕ) → i ≢ memp_pbuf_pool → get_or g.memp i [] ≡ get_or h.memp i []

-- The pbufs so far: `pre`, then the last one, `r`.
pub record Started (h : Heap) (p : Ptr) (pre : Cells) (r : Ptr) (b : Pbuf) (l : List Ptr)
    : Type 0 where
  pub leads : Seg h r p pre
  pub set : r ≢ null
  pub at : h.cells r ≡ some b
  pub end : b.next ≡ null
  pub single : b.refs ≡ 1
  pub pooled : b.type ≡ pool
  pub distinct : Distinct pre
  pub fresh_r : has r pre ≡ false
  pub owned : Owned pre
  pub all_pooled : Pooled pre
  pub apart : (a : Ptr) → among a l ≡ true → (has a pre || (a == r)) ≡ false
  pub ready : Ready l
  pub left : get_or h.memp memp_pbuf_pool [] ≡ l
  pub wide : memp_pbuf_pool < length h.memp

free-Undone :
    (m : ℕ) (h : Heap) (p : Ptr) (pre : Cells) (r : Ptr) (b : Pbuf)
    → p ≢ null
    → Started h p pre r b []
    → suc (length pre) < m
    → Returns
        (λ _ g. Undone h (snoc pre r b) [] g)
        (Free.free m p (record h { memp = with_pool memp_pbuf_pool [] h.memp }))
free-Undone m h p pre r b pn st fuel =
    let h' = record h { memp = with_pool memp_pbuf_pool [] h.memp } in
    let bs = snoc pre r b in
    let owned = Owned-snoc r b pre st.owned st.single in
    let wide : memp_pbuf_pool < length h'.memp = rw (length-set h.memp memp_pbuf_pool []) st.wide in
    Returns-mono
      (free-Freed m p bs h' pn
        (Seg-append h' null r p pre ((r, b) ∷ []) (Seg-frame h h' r p pre st.leads (λ a i. refl))
          (refl, st.set, st.at, st.end))
        (Distinct-snoc r b pre st.distinct st.fresh_r) (Owned-Live bs owned) wide
        (omega (arith, length-append pre ((r, b) ∷ []))))
      λ n g (counted, f). record {
        dead = λ a i. f.dead a (rw (gone-Owned bs owned) i);
        outside = λ a o o'. f.outside a o;
        pool_left =
            ap (λ t. get_or t memp_pbuf_pool [])
              (f.pools ∙ ap (λ cs. returned cs h'.memp) (gone-Owned bs owned))
            ∙ returned-Pooled bs h'.memp (Pooled-snoc r b pre st.all_pooled st.pooled) wide
            ∙ ap₂ onto (sym (append-nil (addresses bs)))
                (get_or-set_self h.memp memp_pbuf_pool [] [] st.wide);
        pools_left = λ i ne.
            ap (λ t. get_or t i []) (f.pools ∙ ap (λ cs. returned cs h'.memp) (gone-Owned bs owned))
            ∙ returned-Pooled_ne i bs h'.memp (Pooled-snoc r b pre st.all_pooled st.pooled) ne
            ∙ get_or-set_ne h.memp memp_pbuf_pool i [] [] (λ z. ne (sym z));
      }

-- One more pbuf `q` behind `r`.
module _ (h : Heap) (p : Ptr) (pre : Cells) (r : Ptr) (b : Pbuf) (rem : ℕ) (q : Ptr) (l : List Ptr)
    (st : Started h p pre r b (q ∷ l)) where
  rq : r ≢ q
  rq = let o = st.apart q (rw (==_self q) refl) in λ e. ground (arith, o, e)

  fresh_q : has q pre ≡ false
  fresh_q = let o = st.apart q (rw (==_self q) refl) in ground (arith, o)

  spared : (a : Ptr) → a ≢ r → a ≢ q → (linked h q r b rem l).cells a ≡ h.cells a
  spared a ar aq =
      cells-write_ne (taken h q rem l) r a (some (record b { next = q })) ar
      ∙ cells-write_ne (record h { memp = with_pool memp_pbuf_pool l h.memp }) q a
          (some (next_pbuf h q rem)) aq

  Started-next :
      Started (linked h q r b rem l) p (snoc pre r (record b { next = q })) q (next_pbuf h q rem) l
  Started-next = record {
    leads =
        Seg-append (linked h q r b rem l) q r p pre ((r, record b { next = q }) ∷ [])
          (Seg-frame h (linked h q r b rem l) r p pre st.leads
            (λ a i. spared a (has_apart a r pre i st.fresh_r) (has_apart a q pre i fresh_q)))
          (refl, st.set, cells-write_self (taken h q rem l) r (some (record b { next = q })), refl);
    set = st.ready.0;
    at =
        cells-write_ne (taken h q rem l) r q (some (record b { next = q })) (λ e. rq (sym e))
        ∙ cells-write_self (record h { memp = with_pool memp_pbuf_pool l h.memp }) q
            (some (next_pbuf h q rem));
    end = refl;
    single = refl;
    pooled = refl;
    distinct = Distinct-snoc r (record b { next = q }) pre st.distinct st.fresh_r;
    fresh_r = rw (has-snoc q r (record b { next = q }) pre) (st.apart q (rw (==_self q) refl));
    owned = Owned-snoc r (record b { next = q }) pre st.owned st.single;
    all_pooled = Pooled-snoc r (record b { next = q }) pre st.all_pooled st.pooled;
    apart = λ a i.
        rw (has-snoc a r (record b { next = q }) pre)
          (ground (arith, st.apart a (ground (arith, i)), among_apart a q l i st.ready.1));
    ready = st.ready.2;
    left = linked-left h r q b rem l st.wide;
    wide =
        rw (linked-memp h r q b rem l) (omega (arith, st.wide, length-set h.memp memp_pbuf_pool l));
  }

-- The loop has failed: the pbufs before it and the last one are free again, the pool has them and
-- the elements it had, and nothing but its elements has changed.
pub record Failed (h : Heap) (pre : Cells) (r : Ptr) (l : List Ptr) (g : Heap) : Type 0 where
  pub dead : (a : Ptr) → (has a pre || (a == r)) ≡ true → g.cells a ≡ none
  pub outside :
      (a : Ptr) → (has a pre || (a == r)) ≡ false → among a l ≡ false → g.cells a ≡ h.cells a
  pub pool_left : get_or g.memp memp_pbuf_pool [] ≡ onto (addresses pre ++ r ∷ l) []
  pub pools_left : (i : ℕ) → i ≢ memp_pbuf_pool → get_or g.memp i [] ≡ get_or h.memp i []

module _ (m : ℕ) (p : Ptr) (pn : p ≢ null) where
  pub alloc_tail-Failed :
      (k : ℕ) (h : Heap) (pre : Cells) (r : Ptr) (b : Pbuf) (rem : ℕ) (l : List Ptr)
      → Started h p pre r b l
      → Roomy (h.cells p)
      → among p l ≡ false
      → bufsize * length l < rem
      → rem < 65535
      → length l < k
      → suc (length pre + length l) < m
      → Returns (λ s g. (s ≡ null) × Failed h pre r l g) (alloc_tail m k p r rem h)
  unfolding alloc_tail store
  alloc_tail-Failed zero h pre r b rem l st ro pl short small fuel fuel' = absurd (omega arith)
  alloc_tail-Failed (suc k) h pre r b rem [] st ro pl short small fuel fuel' =
      let more : (rem == 0) ≡ false = ground arith in
      rw (more, in_memp-eq _ null _ h (malloc_eq memp_pbuf_pool h.memp st.wide [] st.left))
        (Returns-bind (free-Undone m h p pre r b pn st (omega arith)) λ n g u. returns (
          refl,
          record {
            dead = λ a i. u.dead a (rw (has-snoc a r b pre) i);
            outside = λ a o o'. u.outside a (rw (has-snoc a r b pre) o) o';
            pool_left = u.pool_left ∙ ap (λ t. onto t []) (addresses-snoc r b pre []);
            pools_left = u.pools_left;
          },
        ))
  alloc_tail-Failed (suc k) h pre r b rem (q ∷ l) st ro pl short small fuel fuel' =
      let more : (rem == 0) ≡ false = ground arith in
      let g1 = linked h q r b rem l in
      let apart_q = rq h p pre r b rem q l st in
      let (c, loads, fits) =
        Roomy-load g1 p pn (Roomy-linked h r q b rem l apart_q st.at p (ground (arith, pl)) ro) in
      rw
        (
          more,
          in_memp-eq _ q _ h (malloc_eq memp_pbuf_pool h.memp st.wide (q ∷ l) st.left),
          ne→== q null st.ready.0,
          load-eq (taken h q rem l) st.set (
              cells-write_ne (record h { memp = with_pool memp_pbuf_pool l h.memp }) q r
                (some (next_pbuf h q rem)) apart_q
              ∙ st.at),
          lt→ltb rem 65535 small,
          loads,
          fits,
        )
        (Returns-mono
          (alloc_tail-Failed k g1 (snoc pre r (record b { next = q })) q (next_pbuf h q rem)
            (rem - min (u16 rem) bufsize) l (Started-next h p pre r b rem q l st)
            (Roomy-linked h r q b rem l apart_q st.at p (ground (arith, pl)) ro)
            (ground (arith, pl)) (omega arith) (omega arith) (omega arith)
            (omega (arith, length-append pre ((r, record b { next = q }) ∷ []))))
          λ s g (none_left, f). (
            none_left,
            record {
              dead = λ a i.
                  f.dead a (rw (has-snoc a r (record b { next = q }) pre) (ground (arith, i)));
              outside = λ a o o'.
                  f.outside a
                    (rw (has-snoc a r (record b { next = q }) pre) (ground (arith, o, o')))
                    (ground (arith, o'))
                  ∙ spared h p pre r b rem q l st a (ground (arith, o)) (ground (arith, o'));
              pool_left =
                  f.pool_left
                  ∙ ap (λ t. onto t []) (addresses-snoc r (record b { next = q }) pre (q ∷ l));
              pools_left = λ i ne.
                  f.pools_left i ne
                  ∙ ap (λ m. get_or m i []) (linked-memp h r q b rem l)
                  ∙ get_or-set_ne h.memp memp_pbuf_pool i l [] (λ z. ne (sym z));
            },
          ))
