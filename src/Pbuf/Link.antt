-- ===== src/Pbuf/Link.antt =====
-- pbuf_ref, pbuf_cat, pbuf_chain and pbuf_dechain of lwip/src/core/pbuf.c.
use ocaml_lwip.Base.{
  ℕ, zero, suc, ◌+◌, ◌-◌, ◌^◌, ◌≤◌, ◌<◌, ◌≡◌, refl, ◌≢◌, true, false, some, [], ◌∷◌, ◌++◌, Cmd,
  out_of_fuel, ◌>>=◌, ◌>>◌, pure, assert, u16, arith, ◌==◌, ltb, if◌then◌else◌, length, ap, ◌∙◌,
  ◌||◌, ne→==, Returns, returns, Returns-mono, Returns-bind, ◌&&◌, sym, ==_self,
}
use mathlib.Core.Bool.{not}
use ocaml_lwip.Memp.{Ptr, null}
use ocaml_lwip.Pbuf.{Pbuf, Heap, write, load, store}
use ocaml_lwip.Pbuf.Chain.{
  Cells, Seg, Chain, has, Distinct, Counted, total, contents, bytes, load-eq, Seg-frame, Seg-write,
  cells-write_self, cells-write_ne, Seg-append, total-append, contents-append,
}
use ocaml_lwip.Pbuf.Free.{free, Live, Freed, length-gone, free-Freed}

pub ref : Ptr → Cmd Heap (Unit {0})
ref p = if p == null then pure tt else do b ← load p; store p (record b { refs = u16 (b.refs + 1) })

-- The loop of pbuf_cat over the pbufs with a successor, and what it does to the last one.
cat_loop : ℕ → Ptr → Ptr → Cmd Heap (Unit {0})
cat_loop zero p t = λ _. out_of_fuel
cat_loop (suc k) p t = do
  b ← load p
  tail ← load t
  if b.next == null
      then (do
        assert (b.tot_len == b.len)
        store p (record b { tot_len = u16 (b.tot_len + tail.tot_len); next = t }))
      else (do store p (record b { tot_len = u16 (b.tot_len + tail.tot_len) }); cat_loop k b.next t)

pub cat : ℕ → Ptr → Ptr → Cmd Heap (Unit {0})
unfolding cat_loop
cat k h t = do assert (not (h == null) && not (t == null)); cat_loop k h t

pub chain : ℕ → Ptr → Ptr → Cmd Heap (Unit {0})
chain k h t = do cat k h t; ref t

-- The pbuf behind `p`, or NULL if it was freed or there was none.
pub dechain : ℕ → Ptr → Cmd Heap Ptr
dechain k p = do
  b ← load p
  if b.next == null then (do assert (b.tot_len == b.len); pure null) else (do
    q ← load b.next
    assert (q.tot_len + b.len == b.tot_len)
    store b.next (record q { tot_len = u16 (b.tot_len - b.len) })
    store p (record b { next = null; tot_len = b.len })
    tail_gone ← free k b.next
    pure (if ltb 0 tail_gone then null else b.next))

-- `g` is `h` where the pbufs `bs` at `p` now lead to `t`, and their lengths count `n` more bytes.
pub record Joined (h : Heap) (p t : Ptr) (n : ℕ) (bs : Cells) (g : Heap) : Type 0 where
  pub front : Cells
  pub leads : Seg g t p front
  pub same_bytes : contents front ≡ contents bs
  pub same_places : (a : Ptr) → has a front ≡ has a bs
  pub same_total : total front ≡ total bs
  pub counted : (ts : Cells) → total ts ≡ n → Counted ts → Counted (front ++ ts)
  pub outside : (a : Ptr) → has a bs ≡ false → g.cells a ≡ h.cells a
  pub pools : g.memp ≡ h.memp

module _ (h : Heap) (q t : Ptr) (b : Pbuf) (n : ℕ) (ne : q ≢ null) where
  abbrev grown : Pbuf
  grown = record b { tot_len = u16 (b.tot_len + n) }

  Joined-last :
      b.tot_len ≡ b.len + 0
      → b.len + n < 2 ^ 16
      → Joined h q t n ((q, b) ∷ []) (write h q (some (record grown { next = t })))
  Joined-last e fits = record {
    front = (q, record grown { next = t }) ∷ [];
    leads = (refl, ne, cells-write_self h q _, refl);
    same_bytes = refl;
    same_places = λ a. refl;
    same_total = refl;
    counted = λ ts s c. (omega arith, c);
    outside = λ a o. cells-write_ne h q a _ (ground arith);
    pools = unfold write in refl;
  }

  Joined-cons :
      (bs : Cells) (g : Heap)
      → has q bs ≡ false
      → b.tot_len ≡ b.len + total bs
      → b.len + total bs + n < 2 ^ 16
      → Joined (write h q (some grown)) b.next t n bs g
      → Joined h q t n ((q, b) ∷ bs) g
  Joined-cons bs g fresh e fits j = record {
    front = (q, grown) ∷ j.front;
    leads = (refl, ne, j.outside q fresh ∙ cells-write_self h q _, j.leads);
    same_bytes = ap (λ t. bytes b ++ t) j.same_bytes;
    same_places = λ a. ap (λ m. (a == q) || m) (j.same_places a);
    same_total = ap (λ (m : ℕ). b.len + m) j.same_total;
    counted = λ ts s c. (omega (arith, total-append j.front ts, j.same_total), j.counted ts s c);
    outside = λ a o. j.outside a (ground arith) ∙ cells-write_ne h q a _ (ground arith);
    pools = j.pools ∙ unfold write in refl;
  }

cat_loop-Joined :
    (k : ℕ) (h : Heap) (p t : Ptr) (tb : Pbuf) (q : Ptr) (b : Pbuf) (bs : Cells)
    → Chain h p ((q, b) ∷ bs)
    → Distinct ((q, b) ∷ bs)
    → Counted ((q, b) ∷ bs)
    → t ≢ null
    → h.cells t ≡ some tb
    → has t ((q, b) ∷ bs) ≡ false
    → total ((q, b) ∷ bs) + tb.tot_len < 2 ^ 16
    → length bs < k
    → Returns (λ _ g. Joined h p t tb.tot_len ((q, b) ∷ bs) g) (cat_loop k p t h)
unfolding cat_loop store
cat_loop-Joined zero h p t tb q b bs c d n tne te apart fits fuel = absurd (omega arith)
cat_loop-Joined (suc k) h p t tb q b [] c d n tne te apart fits fuel =
    let e : (b.tot_len == b.len) ≡ true = ground arith in
    let z : (b.next == null) ≡ true = ground arith in
    rw (c.0, load-eq h c.1 c.2, load-eq h tne te, z, e)
      (returns (Joined-last h q t b tb.tot_len c.1 n.0 (omega arith)))
cat_loop-Joined (suc k) h p t tb q b ((q', b') ∷ bs) c d n tne te apart fits fuel =
    rw (c.0, load-eq h c.1 c.2, load-eq h tne te, ne→== b.next null (rw (c.3.0) c.3.1))
      (Returns-mono
        (cat_loop-Joined k (write h q (some (grown h q t b tb.tot_len c.1))) b.next t tb q' b' bs
          (Seg-write h null q _ b.next ((q', b') ∷ bs) c.3 d.0) d.1 n.1 tne
          (cells-write_ne h q t _ (ground arith) ∙ te) (ground arith) (omega arith) (omega arith))
        λ _ g j. Joined-cons h q t b tb.tot_len c.1 ((q', b') ∷ bs) g d.0 n.0 (omega arith) j)

-- `cs` is a well-counted chain at `p` with the bytes of `bs` and then those of `ts`; outside the
-- pbufs of `bs` nothing has changed.
pub record Appended (h : Heap) (p : Ptr) (bs ts : Cells) (g : Heap) : Type 0 where
  pub cs : Cells
  pub leads : Chain g p cs
  pub counted : Counted cs
  pub all_bytes : contents cs ≡ contents bs ++ contents ts
  pub outside : (a : Ptr) → has a bs ≡ false → g.cells a ≡ h.cells a
  pub pools : g.memp ≡ h.memp

Joined-Appended :
    (h g : Heap) (p t : Ptr) (n : ℕ) (bs ts : Cells)
    → Joined h p t n bs g
    → Chain h t ts
    → ((a : Ptr) → has a ts ≡ true → has a bs ≡ false)
    → total ts ≡ n
    → Counted ts
    → Appended h p bs ts g
Joined-Appended h g p t n bs ts j c apart e m = record {
  cs = j.front ++ ts;
  leads =
      Seg-append g null t p j.front ts j.leads
        (Seg-frame h g null t ts c (λ a i. j.outside a (apart a i)));
  counted = j.counted ts e m;
  all_bytes = contents-append j.front ts ∙ ap (λ xs. xs ++ contents ts) j.same_bytes;
  outside = j.outside;
  pools = j.pools;
}

-- pbuf_cat puts the chain `ts` at `t` behind the chain `bs` at `p`: the result is one chain with
-- the bytes of both in order and correct length fields, and only the pbufs of `bs` are written.
-- The chains must share no pbuf, be well counted, and fit a 16-bit total length together.
pub cat-Appended :
    (k : ℕ) (h : Heap) (p t : Ptr) (bs ts : Cells)
    → p ≢ null
    → t ≢ null
    → Chain h p bs
    → Chain h t ts
    → Distinct bs
    → ((a : Ptr) → has a ts ≡ true → has a bs ≡ false)
    → Counted bs
    → Counted ts
    → total bs + total ts < 2 ^ 16
    → length bs ≤ k
    → Returns (λ _ g. Appended h p bs ts g) (cat k p t h)
unfolding cat
cat-Appended k h p t [] ts pn tn c d _ _ _ _ _ _ = absurd (pn c)
cat-Appended k h p t ((q, b) ∷ bs) [] pn tn c d _ _ _ _ _ _ = absurd (tn d)
cat-Appended k h p t ((q, b) ∷ bs) ((u, tb) ∷ ts) pn tn c d dis apart m m' fits fuel =
    rw (ne→== p null pn, ne→== t null tn)
      (Returns-mono
        (cat_loop-Joined k h p t tb q b bs c dis m tn (rw d.0 (d.2)) (apart t (rw (d.0, ==_self u)))
          (omega arith) fuel)
        λ _ g j.
          Joined-Appended h g p t tb.tot_len ((q, b) ∷ bs) ((u, tb) ∷ ts) j d apart (sym m'.0) m')

-- The pbuf on its own, and the tail with the length that pbuf_dechain writes into it.
abbrev pub alone : Pbuf → Pbuf
alone b = record b { next = null; tot_len = b.len }

abbrev pub cut : Pbuf → Pbuf → Pbuf
cut b q = record q { tot_len = u16 (b.tot_len - b.len) }

-- The heap in which pbuf_dechain frees the tail.
abbrev pub parted : Heap → Ptr → Pbuf → Pbuf → Heap
parted h p b q = write (write h b.next (some (cut b q))) p (some (alone b))

Chain-parted :
    (h : Heap) (p : Ptr) (b : Pbuf) (u : Ptr) (q : Pbuf) (bs : Cells)
    → Chain h p ((p, b) ∷ (u, q) ∷ bs)
    → Distinct ((p, b) ∷ (u, q) ∷ bs)
    → Chain (parted h p b q) b.next ((u, cut b q) ∷ bs)
unfolding write
Chain-parted h p b u q bs c d = (
  c.3.0,
  c.3.1,
  ground (arith, c.3.0, d.0),
  Seg-frame h (parted h p b q) null q.next bs c.3.3 λ a i. ground (arith, c.3.0, d.0, d.1.0),
)

-- pbuf_dechain takes the first pbuf off a chain: it is left alone with its own length, and the
-- tail loses the reference from it as by pbuf_free. The result is the tail, or NULL if the tail's
-- first pbuf is freed (while fewer than 256 pbufs are). The chain must be well counted, without
-- cycle, and every pbuf behind the first referred to.
pub dechain-Freed :
    (k : ℕ) (h : Heap) (p : Ptr) (b : Pbuf) (u : Ptr) (q : Pbuf) (bs : Cells)
    → Chain h p ((p, b) ∷ (u, q) ∷ bs)
    → Distinct ((p, b) ∷ (u, q) ∷ bs)
    → Counted ((p, b) ∷ (u, q) ∷ bs)
    → Live ((u, q) ∷ bs)
    → total ((u, q) ∷ bs) < 2 ^ 16
    → 7 < length h.memp
    → length ((u, q) ∷ bs) < k
    → length ((u, q) ∷ bs) < 2 ^ 8
    → let rest = (u, cut b q) ∷ bs in
      Returns
        (λ r g.
          Chain g p ((p, alone b) ∷ [])
          × Freed (parted h p b q) rest g
          × (r ≡ (if q.refs == 1 then null else u)))
        (dechain k p h)
unfolding dechain store
dechain-Freed k h p b u q bs c d m l fits wide fuel few =
    let nx : b.next ≢ null = rw c.3.0 c.3.1 in
    let tail : h.cells b.next ≡ some q = ap h.cells c.3.0 ∙ c.3.2 in
    let ne : (b.next == null) ≡ false = ne→== b.next null nx in
    let e : (q.tot_len + b.len == b.tot_len) ≡ true = ground arith in
    rw (load-eq h c.1 c.2, ne, load-eq h nx tail, e)
      (Returns-bind
        (free-Freed k b.next ((u, cut b q) ∷ bs) (parted h p b q) nx (Chain-parted h p b u q bs c d)
          d.1 l (unfold write in wide) fuel)
        λ n g (count, f). returns (
          (refl, c.1, f.outside p d.0 ∙ cells-write_self (write h b.next _) p _, refl),
          f,
          ground (arith, length-gone bs, c.3.0),
        ))
