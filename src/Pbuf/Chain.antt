-- ===== src/Pbuf/Chain.antt =====
-- Chains of pbufs: the addresses and structs behind a pointer, the invariant on the length fields
-- that lwip/src/include/lwip/pbuf.h states, and the bytes that a chain holds.
use ocaml_lwip.Base.{
  ℕ, zero, suc, ◌+◌, ◌-◌, ◌≤◌, ◌≡◌, refl, ◌≢◌, Bool, true, false, Option, ==_self, sym,
  append_assoc, ◌||◌, some, Cmd, ok, ne→==, le→leb, List, [], ◌∷◌, ◌++◌, arith, ◌==◌, length,
  length-append, take, drop, ap, ◌∙◌, take-append_le, take-append_ge, drop-append_le,
  drop-append_ge,
}
use ocaml_lwip.Memp.{Ptr, null, Memp}
use ocaml_lwip.Pbuf.{Pbuf, Heap, in_memp, load, write, copy_out, read}

abbrev pub Cells : Type 0
Cells = List (Ptr × Pbuf)

-- From `p` the `next` pointers lead through the pbufs `bs` to `stop`.
abbrev pub Seg : Heap → Ptr → Ptr → Cells → Type 0
Seg h stop p [] = p ≡ stop
Seg h stop p ((q, b) ∷ bs) = (p ≡ q) × (q ≢ null) × (h.cells q ≡ some b) × Seg h stop b.next bs

abbrev pub Chain : Heap → Ptr → Cells → Type 0
Chain h p bs = Seg h null p bs

abbrev pub has : Ptr → Cells → Bool
has a [] = false
has a ((p, b) ∷ bs) = (a == p) || has a bs

-- No pbuf comes twice.
abbrev pub Distinct : Cells → Type 0
Distinct [] = Unit {0}
Distinct ((p, b) ∷ bs) = (has p bs ≡ false) × Distinct bs

abbrev pub addresses : Cells → List Ptr
addresses [] = []
addresses ((p, b) ∷ bs) = p ∷ addresses bs

abbrev pub total : Cells → ℕ
total [] = 0
total ((p, b) ∷ bs) = b.len + total bs

-- Every pbuf's `tot_len` counts its own bytes and those behind it.
abbrev pub Counted : Cells → Type 0
Counted [] = Unit {0}
Counted ((p, b) ∷ bs) = (b.tot_len ≡ b.len + total bs) × Counted bs

-- Every pbuf's bytes lie in its buffer.
abbrev pub Inside : Cells → Type 0
Inside [] = Unit {0}
Inside ((p, b) ∷ bs) = (b.payload + b.len ≤ b.size) × Inside bs

abbrev pub bytes : Pbuf → List ℕ
bytes b = read b.mem b.payload b.len

abbrev pub contents : Cells → List ℕ
contents [] = []
contents ((p, b) ∷ bs) = bytes b ++ contents bs

pub length-read : (mem : ℕ → ℕ) (o n : ℕ) → length (read mem o n) ≡ n
length-read mem o zero = refl
length-read mem o (suc n) = ap suc (length-read mem (suc o) n)

pub length-contents : (bs : Cells) → length (contents bs) ≡ total bs
length-contents [] = refl
length-contents ((p, b) ∷ bs) = omega (
  arith,
  length-append (bytes b) (contents bs),
  length-read b.mem b.payload b.len,
  length-contents bs,
)

pub take-read : (mem : ℕ → ℕ) (o n k : ℕ) → k ≤ n → take k (read mem o n) ≡ read mem o k
take-read mem o n zero h = refl
take-read mem o zero (suc k) h = absurd (omega arith)
take-read mem o (suc n) (suc k) h = ap (λ t. mem o ∷ t) (take-read mem (suc o) n k (omega arith))

pub drop-read : (mem : ℕ → ℕ) (o n k : ℕ) → k ≤ n → drop k (read mem o n) ≡ read mem (o + k) (n - k)
drop-read mem o n zero h =
    ap (λ (m : ℕ). read mem m n) (omega arith) ∙ ap (λ (m : ℕ). read mem (o + 0) m) (omega arith)
drop-read mem o zero (suc k) h = absurd (omega arith)
drop-read mem o (suc n) (suc k) h =
    drop-read mem (suc o) n k (omega arith)
    ∙ ap (λ (m : ℕ). read mem m (n - k)) (omega arith)
    ∙ ap (λ (m : ℕ). read mem (o + suc k) m) (omega arith)

-- The bytes that a copy of `len` bytes from `offset` on takes from a chain.
abbrev pub slice : ℕ → ℕ → Cells → List ℕ
slice len offset bs = take len (drop offset (contents bs))

pub slice_nil : (len offset : ℕ) → slice len offset [] ≡ []
slice_nil zero offset = refl
slice_nil (suc len) zero = refl
slice_nil (suc len) (suc offset) = refl

pub slice_skip :
    (len offset : ℕ) (p : Ptr) (b : Pbuf) (bs : Cells)
    → b.len ≤ offset
    → slice len offset ((p, b) ∷ bs) ≡ slice len (offset - b.len) bs
slice_skip len offset p b bs h = ap (take len) (
    drop-append_le offset (bytes b) (contents bs) (rw n h)
    ∙ ap (λ (m : ℕ). drop (offset - m) (contents bs)) n)
  where
    n : length (bytes b) ≡ b.len
    n = length-read b.mem b.payload b.len

-- What is left of the first pbuf's bytes behind `offset`, then the next pbufs.
slice_into :
    (len offset : ℕ) (p : Ptr) (b : Pbuf) (bs : Cells)
    → offset ≤ b.len
    → slice len offset ((p, b) ∷ bs)
      ≡ take len (read b.mem (b.payload + offset) (b.len - offset) ++ contents bs)
slice_into len offset p b bs h = ap (take len) (
    drop-append_ge offset (bytes b) (contents bs) (rw (length-read b.mem b.payload b.len) h)
    ∙ ap (λ t. t ++ contents bs) (drop-read b.mem b.payload b.len offset h))

pub slice_within :
    (len offset : ℕ) (p : Ptr) (b : Pbuf) (bs : Cells)
    → offset ≤ b.len
    → len ≤ b.len - offset
    → slice len offset ((p, b) ∷ bs) ≡ read b.mem (b.payload + offset) len
slice_within len offset p b bs h fits =
    slice_into len offset p b bs h
    ∙ take-append_ge len _ (contents bs) (rw length-read fits)
    ∙ take-read b.mem (b.payload + offset) (b.len - offset) len fits

pub slice_across :
    (len offset : ℕ) (p : Ptr) (b : Pbuf) (bs : Cells)
    → offset ≤ b.len
    → b.len - offset ≤ len
    → slice len offset ((p, b) ∷ bs)
      ≡ read b.mem (b.payload + offset) (b.len - offset) ++ slice (len - (b.len - offset)) 0 bs
slice_across len offset p b bs h past =
    slice_into len offset p b bs h
    ∙ take-append_le len _ (contents bs) (rw length-read past)
    ∙ ap
        (λ (m : ℕ).
          read b.mem (b.payload + offset) (b.len - offset) ++ take (len - m) (contents bs))
        (length-read b.mem (b.payload + offset) (b.len - offset))

module _ (h : Heap) {p : Ptr} {b : Pbuf} (ne : p ≢ null) (e : h.cells p ≡ some b) where
  pub load-eq : load p h ≡ ok b h
  unfolding load
  load-eq = rw (ne→== _ _ ne, e)

pub copy_out-eq :
    (h : Heap) (b : Pbuf) (o n : ℕ) → o + n ≤ b.size → copy_out b o n h ≡ ok (read b.mem o n) h
unfolding copy_out
copy_out-eq h b o n fits = rw (le→leb _ _ fits)

-- A segment survives any change that spares its pbufs.
pub Seg-frame :
    (h g : Heap) (stop p : Ptr) (bs : Cells)
    → Seg h stop p bs
    → ((a : Ptr) → has a bs ≡ true → g.cells a ≡ h.cells a)
    → Seg g stop p bs
Seg-frame h g stop p [] s same = s
Seg-frame h g stop p ((q, b) ∷ bs) s same = (
  s.0,
  s.1,
  same q (rw (==_self q)) ∙ s.2,
  Seg-frame h g stop b.next bs s.3 (λ a m. same a (ground (arith, m))),
)

pub cells-write_self : (h : Heap) (p : Ptr) (c : Option Pbuf) → (write h p c).cells p ≡ c
unfolding write
cells-write_self h p c = rw (==_self p)

pub cells-write_ne :
    (h : Heap) (p a : Ptr) (c : Option Pbuf) → a ≢ p → (write h p c).cells a ≡ h.cells a
unfolding write
cells-write_ne h p a c ne = rw (ne→== _ _ ne)

pub Seg-write :
    (h : Heap) (stop q : Ptr) (c : Option Pbuf) (p : Ptr) (bs : Cells)
    → Seg h stop p bs
    → has q bs ≡ false
    → Seg (write h q c) stop p bs
unfolding write
Seg-write h stop q c p bs s out = Seg-frame h (write h q c) stop p bs s λ a m. ground arith

pub Seg-append :
    (h : Heap) (stop mid p : Ptr) (bs cs : Cells)
    → Seg h mid p bs
    → Seg h stop mid cs
    → Seg h stop p (bs ++ cs)
Seg-append h stop mid p [] cs s t = rw s t
Seg-append h stop mid p ((q, b) ∷ bs) cs s t =
    (s.0, s.1, s.2, Seg-append h stop mid b.next bs cs s.3 t)

pub contents-append : (bs cs : Cells) → contents (bs ++ cs) ≡ contents bs ++ contents cs
contents-append [] cs = refl
contents-append ((p, b) ∷ bs) cs =
    ap (λ t. bytes b ++ t) (contents-append bs cs)
    ∙ sym (append_assoc (bytes b) (contents bs) (contents cs))

-- A call of memp.c that returns.
pub in_memp-eq :
    {A : Type 0} (m : Cmd Memp A) (a : A) (tab : Memp) (h : Heap)
    → m h.memp ≡ ok a tab
    → in_memp m h ≡ ok a (record h { memp = tab })
unfolding in_memp
in_memp-eq m a tab h e = rw (e, in_memp)

pub total-append : (bs cs : Cells) → total (bs ++ cs) ≡ total bs + total cs
total-append [] cs = omega arith
total-append ((p, b) ∷ bs) cs = omega (arith, total-append bs cs)

-- A write to the head of a chain that keeps its successor.
pub Chain-write_head :
    (h : Heap) (p : Ptr) (b b' : Pbuf) (bs : Cells)
    → Chain h p ((p, b) ∷ bs)
    → has p bs ≡ false
    → b'.next ≡ b.next
    → Chain (write h p (some b')) p ((p, b') ∷ bs)
Chain-write_head h p b b' bs c out e = (
  refl,
  c.1,
  cells-write_self h p (some b'),
  Seg-write h null p (some b') b'.next bs (rw e c.3) out,
)

-- A chain at `p` with well-formed lengths that holds `xs`.
pub record Holds (h : Heap) (p : Ptr) (cs : Cells) (xs : List ℕ) : Type 0 where
  pub leads : Chain h p cs
  pub counted : Counted cs
  pub inside : Inside cs
  pub holds : contents cs ≡ xs
