-- ===== src/Pbuf/Alloc/Loop.antt =====
-- The loop of pbuf_alloc over the pool of lwip/src/core/memp.c.
use ocaml_lwip.Base.{
  among, ℕ, zero, suc, ◌+◌, ◌-◌, ◌*◌, ◌^◌, ◌≤◌, ◌<◌, ◌≡◌, refl, ◌≢◌, true, false, some, none, List,
  [], ◌∷◌, ◌++◌, ok, Returns, returns, Returns-mono, arith, ◌==◌, leb, u16, length, drop, min,
  get_or, length-set, get_or-set_self, Option-cases, Option, get_or-set_ne, ne→==, le→leb, lt→ltb,
  ==→eq, Bool-cases, inl, inr, ap, sym, ◌∙◌,
}
use ocaml_lwip.Memp.{Ptr, null}
use ocaml_lwip.Memp.Reuse.{malloc_eq, with_pool}
use ocaml_lwip.Pbuf.{Heap, Pbuf, pool, load, store, memp_pbuf_pool, write}
use ocaml_lwip.Pbuf.Free
use ocaml_lwip.Pbuf.Chain.{
  Cells, Chain, has, addresses, Distinct, total, Counted, Inside, load-eq, cells-write_self,
  cells-write_ne, in_memp-eq,
}
use ocaml_lwip.Pbuf.Packet.{Owned}
use ocaml_lwip.Pbuf.Alloc.{bufsize, fresh, alloc_tail}

-- A free list of memp.c: no NULL, and no element twice.
abbrev pub Ready : List Ptr → Type 0
Ready [] = Unit {0}
Ready (q ∷ l) = (q ≢ null) × (among q l ≡ false) × Ready l

-- The first pbuf's bytes fit its buffer, as the loop asserts.
abbrev pub Roomy : Option Pbuf → Type 0
Roomy none = 1 ≤ 0
Roomy (some c) = c.payload + c.len ≤ bufsize

pub Roomy-load :
    (h : Heap) (p : Ptr)
    → p ≢ null
    → Roomy (h.cells p)
    → (c : Pbuf) × (load p h ≡ ok c h) × (leb (c.payload + c.len) bufsize ≡ true)
Roomy-load h p ne r = elim (Option-cases (h.cells p)) [
  | inl e ↦ absurd (omega (arith, rw e at r))
  | inr (c, e) ↦ (c, load-eq h ne e, le→leb _ _ (rw e at r))
]

-- What is left of the heap by the loop from the last pbuf `r`, which was `b`, on.
pub record Tail (h : Heap) (r : Ptr) (b : Pbuf) (rem : ℕ) (l : List Ptr) (g : Heap) : Type 0 where
  pub tail : Cells
  pub at : g.cells r ≡ some (record b { next = Free.start tail })
  pub leads : Chain g (Free.start tail) tail
  pub distinct : Distinct tail
  pub size : total tail ≡ rem
  pub counted : Counted tail
  pub inside : Inside tail
  pub owned : Owned tail
  pub from : (a : Ptr) → among a l ≡ false → has a tail ≡ false
  pub outside : (a : Ptr) → a ≢ r → among a l ≡ false → g.cells a ≡ h.cells a
  pub within : length tail ≤ length l
  pub pool_left : get_or g.memp memp_pbuf_pool [] ≡ drop (length tail) l
  pub front : addresses tail ++ get_or g.memp memp_pbuf_pool [] ≡ l
  pub pools_left : (i : ℕ) → i ≢ memp_pbuf_pool → get_or g.memp i [] ≡ get_or h.memp i []
  pub pools : length g.memp ≡ length h.memp

-- One round: `q` comes off the free list and is linked behind `r`.
abbrev pub next_pbuf : (h : Heap) (q : Ptr) → ℕ → Pbuf
next_pbuf h q rem = fresh pool 0 (u16 rem) (min (u16 rem) bufsize) bufsize (h.stale q)

abbrev pub taken : Heap → (q : Ptr) → ℕ → List Ptr → Heap
taken h q rem l =
    write (record h { memp = with_pool memp_pbuf_pool l h.memp }) q (some (next_pbuf h q rem))

abbrev pub linked : Heap → (q r : Ptr) → Pbuf → ℕ → List Ptr → Heap
linked h q r b rem l = write (taken h q rem l) r (some (record b { next = q }))

module _ (h : Heap) (r q : Ptr) (b : Pbuf) (rem : ℕ) (l : List Ptr) (rq : r ≢ q)
    (at : h.cells r ≡ some b) where
  pub Roomy-linked : (p : Ptr) → p ≢ q → Roomy (h.cells p) → Roomy ((linked h q r b rem l).cells p)
  Roomy-linked p pq ro = elim (Bool-cases (p == r)) [
    | inl e ↦
        rw (==→eq p r e, cells-write_self _ r (some (record b { next = q })))
          (rw (==→eq p r e, at) at ro)
    | inr ne ↦
        rw
          (
            cells-write_ne _ r p (some (record b { next = q })) (ground arith),
            cells-write_ne _ q p (some (next_pbuf h q rem)) pq,
          )
          ro
  ]

  Tail-cons :
      (g : Heap)
      → q ≢ null
      → among q l ≡ false
      → among r l ≡ false
      → memp_pbuf_pool < length h.memp
      → 0 < rem
      → rem < 2 ^ 16
      → Tail (linked h q r b rem l) q (next_pbuf h q rem) (rem - min (u16 rem) bufsize) l g
      → Tail h r b rem (q ∷ l) g
  unfolding write
  Tail-cons g qn ql rl wide some_left small f = record {
    tail = (q, record (next_pbuf h q rem) { next = Free.start f.tail }) ∷ f.tail;
    at = f.outside r rq rl ∙ cells-write_self (taken h q rem l) r (some (record b { next = q }));
    leads = (refl, qn, f.at, f.leads);
    distinct = (f.from q ql, f.distinct);
    size = omega (arith, f.size);
    counted = (omega (arith, f.size), f.counted);
    inside = (omega arith, f.inside);
    owned = (refl, f.owned);
    from = λ a e. ground (arith, f.from a);
    outside = λ a ar e.
        f.outside a (ground (arith, e)) (ground (arith, e))
        ∙ cells-write_ne (taken h q rem l) r a (some (record b { next = q })) ar
        ∙ cells-write_ne (record h { memp = with_pool memp_pbuf_pool l h.memp }) q a
            (some (next_pbuf h q rem)) (ground (arith, e));
    within = omega (arith, f.within);
    pool_left = f.pool_left;
    front = ap (λ t. q ∷ t) f.front;
    pools_left =
        λ i ne. f.pools_left i ne ∙ get_or-set_ne h.memp memp_pbuf_pool i l [] (λ e'. ne (sym e'));
    pools = f.pools ∙ length-set h.memp memp_pbuf_pool l;
  }

module _ (h : Heap) (r q : Ptr) (b : Pbuf) (rem : ℕ) (l : List Ptr) where
  pub linked-memp : (linked h q r b rem l).memp ≡ with_pool memp_pbuf_pool l h.memp
  unfolding write
  linked-memp = refl

  pub linked-left :
      memp_pbuf_pool < length h.memp → get_or (linked h q r b rem l).memp memp_pbuf_pool [] ≡ l
  linked-left wide = rw linked-memp (get_or-set_self h.memp memp_pbuf_pool l [] wide)

nothing :
    (h : Heap) (r : Ptr) (b : Pbuf) (l : List Ptr)
    → h.cells r ≡ some b
    → b.next ≡ null
    → get_or h.memp memp_pbuf_pool [] ≡ l
    → Tail h r b 0 l h
nothing h r b l at end e = record {
  tail = [];
  at = at ∙ ap (λ n. some (record b { next = n })) end;
  leads = refl;
  distinct = tt;
  size = refl;
  counted = tt;
  inside = tt;
  owned = tt;
  from = λ a e. refl;
  outside = λ a ar e. refl;
  within = omega arith;
  pool_left = e;
  front = e;
  pools_left = λ i ne. refl;
  pools = refl;
}

module _ (m : ℕ) (p : Ptr) (pn : p ≢ null) where
  pub alloc_tail-Tail :
      (k : ℕ) (h : Heap) (r : Ptr) (b : Pbuf) (rem : ℕ) (l : List Ptr)
      → r ≢ null
      → h.cells r ≡ some b
      → b.next ≡ null
      → Roomy (h.cells p)
      → among r l ≡ false
      → among p l ≡ false
      → Ready l
      → get_or h.memp memp_pbuf_pool [] ≡ l
      → memp_pbuf_pool < length h.memp
      → rem ≤ bufsize * length l
      → rem < 65535
      → length l < k
      → Returns (λ q g. (q ≡ p) × Tail h r b rem l g) (alloc_tail m k p r rem h)
  unfolding alloc_tail store
  alloc_tail-Tail zero h r b rem l rn at end ro rl pl ready e wide enough small fuel =
      absurd (omega arith)
  alloc_tail-Tail (suc k) h r b zero l rn at end ro rl pl ready e wide enough small fuel =
      returns (refl, nothing h r b l at end e)
  alloc_tail-Tail (suc k) h r b (suc rem) [] rn at end ro rl pl ready e wide enough small fuel =
      absurd (omega arith)
  alloc_tail-Tail (suc k) h r b (suc rem) (q ∷ l) rn at end ro rl pl ready e wide enough small
        fuel =
      let more : (suc rem == 0) ≡ false = ground arith in
      let rq : r ≢ q = ground (arith, rl) in
      let (c, loads, fits) =
        Roomy-load (linked h q r b (suc rem) l) p pn
          (Roomy-linked h r q b (suc rem) l rq at p (ground (arith, pl)) ro) in
      rw
        (
          more,
          in_memp-eq _ q _ h (malloc_eq memp_pbuf_pool h.memp wide (q ∷ l) e),
          ne→== q null ready.0,
          load-eq (taken h q (suc rem) l) rn (cells-write_ne _ q r _ rq ∙ at),
          lt→ltb (suc rem) 65535 small,
          loads,
          fits,
        )
        (Returns-mono
          (alloc_tail-Tail k (linked h q r b (suc rem) l) q (next_pbuf h q (suc rem))
            (suc rem - min (u16 (suc rem)) bufsize) l ready.0
            (cells-write_ne (taken h q (suc rem) l) r q (some (record b { next = q }))
                (λ e'. rq (sym e'))
              ∙ cells-write_self (record h { memp = with_pool memp_pbuf_pool l h.memp }) q
                  (some (next_pbuf h q (suc rem))))
            refl (Roomy-linked h r q b (suc rem) l rq at p (ground (arith, pl)) ro) ready.1
            (ground (arith, pl)) ready.2 (linked-left h r q b (suc rem) l wide)
            (rw (linked-memp h r q b (suc rem) l)
              (omega (arith, length-set h.memp memp_pbuf_pool l)))
            (omega arith) (omega arith) (omega arith))
          λ s g (same, f). (
            same,
            Tail-cons h r q b (suc rem) l rq at g ready.0 ready.1 (ground (arith, rl)) wide
                (omega arith) (omega arith) f,
          ))
