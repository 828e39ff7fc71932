-- ===== src/Pbuf/Take/Loop.antt =====
-- The loop of pbuf_take of lwip/src/core/pbuf.c.
use ocaml_lwip.Base.{
  drop-drop, take_split, drop_all, ℕ, zero, suc, ◌+◌, ◌-◌, ◌^◌, ◌≤◌, ◌<◌, ◌≡◌, refl, ◌≢◌, false,
  some, List, [], ◌∷◌, ◌++◌, ok, Returns, returns, Returns-mono, arith, ◌==◌, ltb, u16, length,
  take, drop, length-take, length-drop, drop-append_le, drop-append_ge, ne→==, le→leb, ltb→lt,
  append-nil, Bool-cases, inl, inr, ap, ap₂, sym, ◌∙◌,
}
use mathlib.Core.List.{append_assoc}
use ocaml_lwip.Memp.{Ptr, null}
use ocaml_lwip.Pbuf.{Heap, Pbuf, store, put, copy_in, write}
use ocaml_lwip.Pbuf.Bytes.{read-put}
use ocaml_lwip.Pbuf.Chain.{
  Cells, Chain, has, addresses, Distinct, total, Counted, Inside, bytes, contents, load-eq,
  Seg-write, cells-write_self, cells-write_ne, length-read, drop-read,
}
use ocaml_lwip.Pbuf.Take.{source, part, take_loop}

-- The places and the fields of the pbufs, whatever the bytes of their buffers.
abbrev pub fields : Cells → Cells
fields [] = []
fields ((p, b) ∷ bs) = (p, record b { mem = λ i. 0 }) ∷ fields bs

pub addresses-fields : (bs : Cells) → addresses (fields bs) ≡ addresses bs
addresses-fields [] = refl
addresses-fields ((p, b) ∷ bs) = ap (λ t. p ∷ t) (addresses-fields bs)

-- `g` is `h` with the pbufs `bs` at `p` holding `xs`, in the same places.
pub record Filled (h : Heap) (p : Ptr) (bs : Cells) (xs : List ℕ) (g : Heap) : Type 0 where
  pub cs : Cells
  pub leads : Chain g p cs
  pub holds : contents cs ≡ xs
  pub count : length cs ≡ length bs
  pub same_fields : fields cs ≡ fields bs
  pub same_total : total cs ≡ total bs
  pub counted : Counted bs → Counted cs
  pub inside : Inside cs
  pub outside : (a : Ptr) → has a bs ≡ false → g.cells a ≡ h.cells a
  pub pools : g.memp ≡ h.memp

abbrev pub holding : Pbuf → List ℕ → Pbuf
holding b xs = record b { mem = put b.mem b.payload xs }

bytes-holding :
    (b : Pbuf) (xs : List ℕ)
    → length xs ≤ b.len
    → bytes (holding b xs) ≡ xs ++ drop (length xs) (bytes b)
bytes-holding b xs l =
    read-put b.mem b.payload xs b.len l
    ∙ ap (λ ys. xs ++ ys) (sym (drop-read b.mem b.payload b.len (length xs) l))

module _ (h : Heap) (q : Ptr) (b : Pbuf) (ne : q ≢ null) (at : h.cells q ≡ some b) (xs : List ℕ)
    (n : ℕ) (size : length xs ≡ n) (room : n ≤ b.len) (ins : b.payload + b.len ≤ b.size) where
  pub Filled-cons :
      (bs : Cells) (ys : List ℕ) (g : Heap)
      → has q bs ≡ false
      → Filled (write h q (some (holding b xs))) b.next bs ys g
      → Filled h q ((q, b) ∷ bs) ((xs ++ drop n (bytes b)) ++ ys) g
  Filled-cons bs ys g fresh f = record {
    cs = (q, holding b xs) ∷ f.cs;
    leads = (refl, ne, f.outside q fresh ∙ cells-write_self h q _, f.leads);
    holds =
        ap₂ (λ s t. s ++ t)
          (bytes-holding b xs (omega arith) ∙ ap (λ (m : ℕ). xs ++ drop m (bytes b)) size) f.holds;
    count = ap suc f.count;
    same_fields = ap (λ t. (q, record b { mem = λ i. 0 }) ∷ t) f.same_fields;
    same_total = ap (λ (m : ℕ). b.len + m) f.same_total;
    counted = λ c. (omega (arith, c.0, f.same_total), f.counted c.1);
    inside = (ins, f.inside);
    outside = λ a o. f.outside a (ground arith) ∙ cells-write_ne h q a _ (ground arith);
    pools = f.pools ∙ unfold write in refl;
  }

  pub copy_in-eq : copy_in q b b.payload xs h ≡ ok tt (write h q (some (holding b xs)))
  unfolding copy_in store
  copy_in-eq = rw (le→leb (b.payload + length xs) b.size (omega arith))

part-le : (len t : ℕ) → part len t ≤ len
part-le len t = ground arith

part-total : (len t : ℕ) → part len t ≤ t
part-total len t = ground arith

part-rest : (len t m : ℕ) → t ≤ len + m → t - part len t ≤ m
part-rest len t m l = ground arith

source-eq :
    (src : List ℕ) (c n : ℕ) (h : Heap)
    → c + n ≤ length src
    → source src c n h ≡ ok (take n (drop c src)) h
source-eq src c n h l = rw (le→leb (c + n) (length src) l)

take-drop_split :
    (n t c : ℕ) (src : List ℕ)
    → n ≤ t
    → take n (drop c src) ++ take (t - n) (drop (c + n) src) ≡ take t (drop c src)
take-drop_split n t c src l = rw (sym (drop-drop n c src)) (take_split n t (drop c src) l)

-- What a round writes, and what the later rounds write behind it.
filled_step :
    (b : Pbuf) (bs : Cells) (t c : ℕ) (src : List ℕ)
    → let n = part b.len t in
      (take n (drop c src) ++ drop n (bytes b))
        ++ (take (t - n) (drop (c + n) src) ++ drop (t - n) (contents bs))
      ≡ take t (drop c src) ++ drop t (bytes b ++ contents bs)
filled_step b bs t c src = elim (Bool-cases (ltb b.len t)) [
  | inl more ↦ rw more (
      let lt : b.len < t = ltb→lt b.len t more in
      let e : length (bytes b) ≡ b.len = length-read b.mem b.payload b.len in
      rw
        (
          drop_all b.len (bytes b) (omega arith),
          append-nil (take b.len (drop c src)),
          drop-append_le t (bytes b) (contents bs) (omega arith),
          e,
          sym (
              append_assoc (take b.len (drop c src)) (take (t - b.len) (drop (c + b.len) src))
                (drop (t - b.len) (contents bs))),
          take-drop_split b.len t c src (omega arith),
        )
        refl)
  | inr all ↦ rw all (
      let ge : t ≤ b.len = ground arith in
      let e : length (bytes b) ≡ b.len = length-read b.mem b.payload b.len in
      let z : t - t ≡ 0 = omega arith in
      rw
        (
          z,
          drop-append_ge t (bytes b) (contents bs) (omega arith),
          append_assoc (take t (drop c src)) (drop t (bytes b)) (contents bs),
        )
        refl)
]

pub take_loop-Filled :
    (k : ℕ) (h : Heap) (p : Ptr) (bs : Cells) (src : List ℕ) (t c : ℕ)
    → Chain h p bs
    → Distinct bs
    → Inside bs
    → t ≤ total bs
    → c + t ≤ length src
    → c + t < 2 ^ 16
    → length bs < k
    → Returns
        (λ n g. (n ≡ c + t) × Filled h p bs (take t (drop c src) ++ drop t (contents bs)) g)
        (take_loop k p src t c h)
unfolding take_loop
take_loop-Filled zero h p bs src t c l d i fits long small fuel = absurd (omega arith)
take_loop-Filled (suc k) h p bs src zero c l d i fits long small fuel = returns (
  omega arith,
  record {
    cs = bs;
    leads = l;
    holds = refl;
    count = refl;
    same_fields = refl;
    same_total = refl;
    counted = λ m. m;
    inside = i;
    outside = λ a o. refl;
    pools = refl;
  },
)
take_loop-Filled (suc k) h p [] src (suc t) c l d i fits long small fuel = absurd (omega arith)
take_loop-Filled (suc k) h p ((q, b) ∷ bs) src (suc t) c l d i fits long small fuel =
    let n = part b.len (suc t) in
    let ln : n ≤ b.len = part-le b.len (suc t) in
    let lt : n ≤ suc t = part-total b.len (suc t) in
    let xs = take n (drop c src) in
    let e : length xs ≡ n = omega (arith, length-take n (drop c src), length-drop c src) in
    let same : u16 (c + n) ≡ c + n = omega arith in
    let more : (suc t == 0) ≡ false = ground arith in
    rw
      (
        more,
        l.0,
        ne→== q null l.1,
        load-eq h l.1 l.2,
        source-eq src c n h (omega arith),
        copy_in-eq h q b l.1 l.2 xs n e ln i.0,
        same,
      )
      (Returns-mono
        (take_loop-Filled k (write h q (some (holding b xs))) b.next bs src (suc t - n) (c + n)
          (Seg-write h null q _ b.next bs l.3 d.0) d.1 i.1 (part-rest b.len (suc t) (total bs) fits)
          (omega arith) (omega arith) (omega arith))
        λ m g (r, f). (
          r ∙ omega arith,
          rw (sym (filled_step b bs (suc t) c src))
              (Filled-cons h q b l.1 l.2 xs n e ln i.0 bs _ g d.0 f),
        ))
