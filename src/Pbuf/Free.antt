-- ===== src/Pbuf/Free.antt =====
-- pbuf_free of lwip/src/core/pbuf.c: the walk over the references of a chain.
use ocaml_lwip.Base.{
  ℕ, zero, suc, ◌+◌, ◌-◌, ◌<◌, ◌≤◌, ◌≡◌, refl, ◌≢◌, true, false, some, none, [], ◌∷◌, Cmd, ok,
  out_of_fuel, ◌>>=◌, ◌>>◌, pure, assert, u8, arith, ◌==◌, ltb, ◌∙◌, if◌then◌else◌, length,
  Bool-cases, inl, inr, ne→==, lt→ltb, get_or, set, length-set, Returns, returns, Returns-mono,
}
use mathlib.Core.Bool.{not}
use ocaml_lwip.Memp
use ocaml_lwip.Memp.{Ptr, null, Memp}
use ocaml_lwip.Memp.Reuse.{free_eq}
use ocaml_lwip.Pbuf.{
  Pbuf, PbufType, ram, rom, ref, pool, Heap, memp_pbuf, memp_pbuf_pool, write, load, store, in_memp,
}
use ocaml_lwip.Pbuf.Chain.{
  Cells, Chain, has, Distinct, load-eq, Seg-frame, Seg-write, cells-write_self, cells-write_ne,
  in_memp-eq,
}

-- The struct is no more.
vanish : Ptr → Cmd Heap (Unit {0})
vanish p h = ok tt (write h p none)

-- memp_free or mem_free, by the type.
release : PbufType → Ptr → Cmd Heap (Unit {0})
unfolding in_memp vanish
release pool p = do in_memp (Memp.free memp_pbuf_pool p); vanish p
release rom p = do in_memp (Memp.free memp_pbuf p); vanish p
release ref p = do in_memp (Memp.free memp_pbuf p); vanish p
release ram p = vanish p

free_loop : ℕ → Ptr → ℕ → Cmd Heap ℕ
free_loop zero p count = λ _. out_of_fuel
free_loop (suc k) p count = if p == null then pure count else do
  b ← load p
  assert (ltb 0 b.refs)
  store p (record b { refs = b.refs - 1 })
  if b.refs - 1 == 0 then (do release b.type p; free_loop k b.next (u8 (count + 1))) else pure count

pub free : ℕ → Ptr → Cmd Heap ℕ
unfolding free_loop release
free k p = do assert (not (p == null)); free_loop k p 0

-- Every pbuf of the chain has a reference.
abbrev pub Live : Cells → Type 0
Live [] = Unit {0}
Live ((p, b) ∷ bs) = (0 < b.refs) × Live bs

-- The pbufs at the head whose only reference is given up, and the pbufs behind them.
abbrev pub gone : Cells → Cells
gone [] = []
gone ((p, b) ∷ bs) = if b.refs == 1 then (p, b) ∷ gone bs else []

abbrev pub kept : Cells → Cells
kept [] = []
kept ((p, b) ∷ bs) = if b.refs == 1 then kept bs else (p, b) ∷ bs

abbrev pub start : Cells → Ptr
start [] = null
start ((p, b) ∷ bs) = p

pub length-gone : (bs : Cells) → length (gone bs) ≤ length bs
length-gone [] = omega arith
length-gone ((p, b) ∷ bs) = ground (arith, length-gone bs)

-- One reference less to the first pbuf.
abbrev pub unref : Cells → Cells
unref [] = []
unref ((p, b) ∷ bs) = (p, record b { refs = b.refs - 1 }) ∷ bs

-- The free lists after an element comes back, and after a list of them.
abbrev pub give_back : PbufType → Ptr → Memp → Memp
give_back pool p m = set m memp_pbuf_pool (p ∷ get_or m memp_pbuf_pool [])
give_back rom p m = set m memp_pbuf (p ∷ get_or m memp_pbuf [])
give_back ref p m = set m memp_pbuf (p ∷ get_or m memp_pbuf [])
give_back ram p m = m

abbrev pub returned : Cells → Memp → Memp
returned [] m = m
returned ((p, b) ∷ bs) m = returned bs (give_back b.type p m)

-- `g` is `h` without the pbufs of `bs` that lost their last reference.
pub record Freed (h : Heap) (bs : Cells) (g : Heap) : Type 0 where
  pub dead : (a : Ptr) → has a (gone bs) ≡ true → g.cells a ≡ none
  pub rest : Chain g (start (kept bs)) (unref (kept bs))
  pub outside : (a : Ptr) → has a bs ≡ false → g.cells a ≡ h.cells a
  pub pools : g.memp ≡ returned (gone bs) h.memp

release-eq :
    (type : PbufType) (p : Ptr) (h : Heap)
    → p ≢ null
    → 7 < length h.memp
    → release type p h ≡ ok tt (write (record h { memp = give_back type p h.memp }) p none)
unfolding release write
release-eq ram p h ne wide = refl
release-eq rom p h ne wide = rw (in_memp-eq _ tt _ h (free_eq memp_pbuf h.memp (omega arith) p ne))
release-eq ref p h ne wide = rw (in_memp-eq _ tt _ h (free_eq memp_pbuf h.memp (omega arith) p ne))
release-eq pool p h ne wide = rw (in_memp-eq _ tt _ h (free_eq memp_pbuf_pool h.memp wide p ne))

pub length-give_back :
    (type : PbufType) (p : Ptr) (m : Memp) → length (give_back type p m) ≡ length m
length-give_back ram p m = refl
length-give_back rom p m = length-set m memp_pbuf _
length-give_back ref p m = length-set m memp_pbuf _
length-give_back pool p m = length-set m memp_pbuf_pool _

pub length-returned : (bs : Cells) (m : Memp) → length (returned bs m) ≡ length m
length-returned [] m = refl
length-returned ((p, b) ∷ bs) m =
    length-returned bs (give_back b.type p m) ∙ length-give_back b.type p m

module _ (h : Heap) (q : Ptr) (b : Pbuf) (bs : Cells) (fresh : has q bs ≡ false) where
  -- The heap after the head of a chain is released.
  abbrev released : Heap
  released =
      let h' = write h q (some (record b { refs = b.refs - 1 })) in
      write (record h' { memp = give_back b.type q h'.memp }) q none

  released-same : (a : Ptr) → has a bs ≡ true → released.cells a ≡ h.cells a
  unfolding write
  released-same a m = ground arith

  Freed-cons : (b.refs == 1) ≡ true → (g : Heap) → Freed released bs g → Freed h ((q, b) ∷ bs) g
  unfolding write
  Freed-cons last g f = record {
    dead = λ a m. ground (arith, f.dead a, f.outside q);
    rest = rw last f.rest;
    outside = λ a o. ground (arith, f.outside a);
    pools = rw last f.pools;
  }

  Freed-kept :
      (b.refs == 1) ≡ false
      → q ≢ null
      → Chain h b.next bs
      → Freed h ((q, b) ∷ bs) (write h q (some (record b { refs = b.refs - 1 })))
  Freed-kept more ne c = record {
    dead = λ a m. ground arith;
    rest = rw more (refl, ne, cells-write_self h q _, Seg-write h null q _ b.next bs c fresh);
    outside = λ a o. cells-write_ne h q a _ (ground arith);
    pools = rw more (unfold write in refl);
  }

-- The walk of pbuf_free, from `count` pbufs already freed.
free_loop-Freed :
    (k : ℕ) (p : Ptr) (count : ℕ) (bs : Cells) (h : Heap)
    → Chain h p bs
    → Distinct bs
    → Live bs
    → 7 < length h.memp
    → length bs < k
    → Returns
        (λ n g. (n ≡ u8 (count + length (gone bs))) × Freed h bs g)
        (free_loop k p (u8 count) h)
unfolding free_loop store write
free_loop-Freed zero p count bs h c d l wide fuel = absurd (omega arith)
free_loop-Freed (suc k) p count [] h c d l wide fuel = rw c (
    returns
      (omega arith, record { dead = λ a m. cc; rest = refl; outside = λ a o. refl; pools = refl }))
free_loop-Freed (suc k) p count ((q, b) ∷ bs) h c d l wide fuel =
    rw (c.0, ne→== _ _ c.1, load-eq h c.1 c.2, lt→ltb _ _ l.0)
      (elim (Bool-cases (b.refs == 1)) [
        | inl last ↦
            let e : (b.refs - 1 == 0) ≡ true = ground arith in
            rw (e, release-eq b.type q (write h q (some (record b { refs = b.refs - 1 }))) c.1 wide)
              (Returns-mono
                (free_loop-Freed k b.next (u8 count + 1) bs (released h q b bs d.0)
                  (Seg-frame h (released h q b bs d.0) null b.next bs c.3
                    (released-same h q b bs d.0))
                  d.1 l.1 (rw (length-give_back b.type q h.memp) wide) (omega arith))
                λ n g (counted, f). (rw last (omega arith), Freed-cons h q b bs d.0 last g f))
        | inr more ↦
            let e : (b.refs - 1 == 0) ≡ false = ground arith in
            rw e (returns (rw more (omega arith), Freed-kept h q b bs d.0 more c.1 c.3))
      ])

-- pbuf_free gives up one reference to a chain: the pbufs at its head that nobody else refers to
-- are freed and go back to their pools, the next one loses a reference, and no other pbuf
-- changes. It returns the number of freed pbufs modulo 256. The chain must have no cycle, a
-- positive reference count in every pbuf, and the table of pools its eight entries.
pub free-Freed :
    (k : ℕ) (p : Ptr) (bs : Cells) (h : Heap)
    → p ≢ null
    → Chain h p bs
    → Distinct bs
    → Live bs
    → 7 < length h.memp
    → length bs < k
    → Returns (λ n g. (n ≡ u8 (length (gone bs))) × Freed h bs g) (free k p h)
unfolding free
free-Freed k p bs h ne c d l wide fuel =
    rw (ne→== _ _ ne) (
      Returns-mono (free_loop-Freed k p 0 bs h c d l wide fuel)
        λ n g (counted, f). (omega arith, f))
