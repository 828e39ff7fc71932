-- ===== src/Pbuf/Alloc/Snoc.antt =====
-- Chains that grow at their end, for the loop of pbuf_alloc of lwip/src/core/pbuf.c.
use ocaml_lwip.Base.{
  among, ℕ, ◌<◌, ◌≡◌, refl, ◌≢◌, true, false, List, [], ◌∷◌, ◌++◌, ◌||◌, arith, ◌==◌, length,
  get_or, set, get_or-set_self, get_or-set_ne, sym, ap, ◌∙◌,
}
use ocaml_lwip.Memp.{Ptr, Memp}
use ocaml_lwip.Pbuf.{Pbuf, pool, memp_pbuf_pool}
use ocaml_lwip.Pbuf.Free.{returned, give_back, length-give_back}
use ocaml_lwip.Pbuf.Chain.{Cells, addresses, has, Distinct}
use ocaml_lwip.Pbuf.Packet.{Owned}

abbrev pub snoc : Cells → Ptr → Pbuf → Cells
snoc bs r b = bs ++ ((r, b) ∷ [])

pub has-snoc : (a r : Ptr) (b : Pbuf) (bs : Cells) → has a (snoc bs r b) ≡ (has a bs || (a == r))
has-snoc a r b [] = ground arith
has-snoc a r b ((q, c) ∷ bs) = rw (has-snoc a r b bs) (ground arith)

pub Distinct-snoc :
    (r : Ptr) (b : Pbuf) (bs : Cells) → Distinct bs → has r bs ≡ false → Distinct (snoc bs r b)
Distinct-snoc r b [] d o = (refl, tt)
Distinct-snoc r b ((q, c) ∷ bs) d o =
    (rw (has-snoc q r b bs) (ground (arith, d.0, o)), Distinct-snoc r b bs d.1 (ground (arith, o)))

pub Owned-snoc : (r : Ptr) (b : Pbuf) (bs : Cells) → Owned bs → b.refs ≡ 1 → Owned (snoc bs r b)
Owned-snoc r b [] o e = (e, tt)
Owned-snoc r b ((q, c) ∷ bs) o e = (o.0, Owned-snoc r b bs o.1 e)

-- All the pbufs are from the pool.
abbrev pub Pooled : Cells → Type 0
Pooled [] = Unit {0}
Pooled ((q, c) ∷ bs) = (c.type ≡ pool) × Pooled bs

pub Pooled-snoc :
    (r : Ptr) (b : Pbuf) (bs : Cells) → Pooled bs → b.type ≡ pool → Pooled (snoc bs r b)
Pooled-snoc r b [] o e = (e, tt)
Pooled-snoc r b ((q, c) ∷ bs) o e = (o.0, Pooled-snoc r b bs o.1 e)

-- A free list after the elements of another were put back, one after another.
abbrev pub onto : List Ptr → List Ptr → List Ptr
onto [] m = m
onto (q ∷ l) m = onto l (q ∷ m)

pub returned-Pooled :
    (bs : Cells) (m : Memp)
    → Pooled bs
    → memp_pbuf_pool < length m
    → get_or (returned bs m) memp_pbuf_pool [] ≡ onto (addresses bs) (get_or m memp_pbuf_pool [])
returned-Pooled [] m o wide = refl
returned-Pooled ((q, c) ∷ bs) m o wide =
    let m' = give_back c.type q m in
    let e : m' ≡ set m memp_pbuf_pool (q ∷ get_or m memp_pbuf_pool []) =
      ap (λ t. give_back t q m) o.0 in
    returned-Pooled bs m' o.1 (rw (length-give_back c.type q m) wide)
    ∙ ap (onto (addresses bs)) (
        ap (λ t. get_or t memp_pbuf_pool []) e
        ∙ get_or-set_self m memp_pbuf_pool (q ∷ get_or m memp_pbuf_pool []) [] wide)

pub returned-Pooled_ne :
    (i : ℕ) (bs : Cells) (m : Memp)
    → Pooled bs
    → i ≢ memp_pbuf_pool
    → get_or (returned bs m) i [] ≡ get_or m i []
returned-Pooled_ne i [] m o ne = refl
returned-Pooled_ne i ((q, c) ∷ bs) m o ne =
    let e : give_back c.type q m ≡ set m memp_pbuf_pool (q ∷ get_or m memp_pbuf_pool []) =
      ap (λ t. give_back t q m) o.0 in
    returned-Pooled_ne i bs (give_back c.type q m) o.1 ne
    ∙ ap (λ t. get_or t i []) e
    ∙ get_or-set_ne m memp_pbuf_pool i (q ∷ get_or m memp_pbuf_pool []) [] (λ z. ne (sym z))

pub addresses-snoc :
    (r : Ptr) (b : Pbuf) (bs : Cells) (l : List Ptr)
    → addresses (snoc bs r b) ++ l ≡ addresses bs ++ r ∷ l
addresses-snoc r b [] l = refl
addresses-snoc r b ((q, c) ∷ bs) l = ap (λ t. q ∷ t) (addresses-snoc r b bs l)

pub has_apart : (a r : Ptr) (bs : Cells) → has a bs ≡ true → has r bs ≡ false → a ≢ r
has_apart a r bs i o e =
    let same : has a bs ≡ false = ap (λ x. has x bs) e ∙ o in ground (arith, i, same)

pub among_apart : (a q : Ptr) (l : List Ptr) → among a l ≡ true → among q l ≡ false → a ≢ q
among_apart a q l i o e =
    let same : among a l ≡ false = ap (λ x. among x l) e ∙ o in ground (arith, i, same)
