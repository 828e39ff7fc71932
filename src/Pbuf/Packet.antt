-- ===== src/Pbuf/Packet.antt =====
-- Well-formed packets: what the functions of lwip/src/core/pbuf.c expect of a chain, and a chain
-- that nobody else refers to.
use ocaml_lwip.Base.{
  ℕ, ◌^◌, ◌<◌, ◌≡◌, ◌≢◌, refl, true, [], ◌∷◌, length, ap, none, arith, Returns, Returns-mono, Bool,
  ◌==◌,
}
use ocaml_lwip.Memp.{Ptr, null}
use ocaml_lwip.Pbuf.{Heap}
use ocaml_lwip.Pbuf.Chain.{Cells, Chain, has, Distinct, Counted, Inside, total}
use ocaml_lwip.Pbuf.Free.{free, Live, gone, free-Freed, length-returned}

-- A chain, all of whose pbufs are referred to, with well-formed lengths.
pub record IsPacket (h : Heap) (p : Ptr) (bs : Cells) : Type 0 where
  pub leads : Chain h p bs
  pub distinct : Distinct bs
  pub counted : Counted bs
  pub inside : Inside bs
  pub live : Live bs
  pub fits : total bs < 2 ^ 16
  pub pools : 7 < length h.memp

-- The chain has the only reference to each of its pbufs.
abbrev pub Owned : Cells → Type 0
Owned [] = Unit {0}
Owned ((p, b) ∷ bs) = (b.refs ≡ 1) × Owned bs

pub gone-Owned : (bs : Cells) → Owned bs → gone bs ≡ bs
gone-Owned [] o = refl
gone-Owned ((p, b) ∷ bs) o =
    let last : (b.refs == 1) ≡ true = ground (arith, o.0) in
    rw last (ap (λ t. (p, b) ∷ t) (gone-Owned bs o.1))

pub Owned-Live : (bs : Cells) → Owned bs → Live bs
Owned-Live [] o = tt
Owned-Live ((p, b) ∷ bs) o = (omega (arith, o.0), Owned-Live bs o.1)

-- `g` is `h` without the pbufs of `bs`.
pub record Without (h : Heap) (bs : Cells) (g : Heap) : Type 0 where
  pub dead : (a : Ptr) → has a bs ≡ true → g.cells a ≡ none
  pub outside : (a : Ptr) → has a bs ≡ Bool.false → g.cells a ≡ h.cells a
  pub wide : 7 < length g.memp

-- pbuf_free of a chain that nobody else refers to frees all of it.
pub free-Without :
    (k : ℕ) (h : Heap) (p : Ptr) (bs : Cells)
    → p ≢ null
    → IsPacket h p bs
    → Owned bs
    → length bs < k
    → Returns (λ _ g. Without h bs g) (free k p h)
free-Without k h p bs ne packet owned fuel =
    Returns-mono (free-Freed k p bs h ne packet.leads packet.distinct packet.live packet.pools fuel)
      λ n g (count, f). record {
        dead = λ a m. f.dead a (rw (gone-Owned bs owned) m);
        outside = f.outside;
        wide = rw (f.pools, length-returned (gone bs) h.memp) packet.pools;
      }
