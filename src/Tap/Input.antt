-- ===== src/Tap/Input.antt =====
-- low_level_input and mintapif_input of lib_test/mintapif.c.
use ocaml_lwip.Base.{
  ℕ, zero, suc, ◌+◌, ◌-◌, ◌*◌, ◌^◌, ◌<◌, ◌≤◌, ◌≡◌, ◌≢◌, refl, ap, ap₂, sym, ◌∙◌, true, false, List,
  [], ◌∷◌, ◌++◌, none, some, among, arith, ◌==◌, leb, length, drop, get_or, ne→==, le→leb, u16,
  append-nil, drop_all, Returns, returns, Returns-mono, Returns-bind, subst, err_ok, ◌>>=◌,
}
use ocaml_lwip.Memp.{Ptr, null}
use ocaml_lwip.Pbuf.{Heap, read, put, write, memp_pbuf_pool}
use ocaml_lwip.Pbuf.Chain.{
  Cells, Chain, addresses, Distinct, Inside, Holds, total, bytes, load-eq, length-read,
  length-contents, Seg-write,
}
use ocaml_lwip.Pbuf.Bytes.{read-put, read_split}
use ocaml_lwip.Pbuf.Take.Loop.{Filled, addresses-fields, Filled-cons, copy_in-eq, holding}
use ocaml_lwip.Pbuf.Alloc.{link}
use ocaml_lwip.Pbuf.Alloc.Loop.{Ready}
use ocaml_lwip.Pbuf.Alloc.Pool.{Allocated, alloc-Allocated}
use ocaml_lwip.Pbuf.Alloc.Empty.{Nothing, alloc-Nothing}
use ocaml_lwip.Tap.{Got, got_len, input_loop, low_level_input, low_level_output, buf_size}
use ocaml_lwip.Tap.Output.{low_level_output-contents}

pub input_loop-Filled :
    (k : ℕ) (h : Heap) (p : Ptr) (bs : Cells) (o : ℕ) (buf : ℕ → ℕ)
    → Chain h p bs
    → Distinct bs
    → Inside bs
    → o + total bs ≤ buf_size
    → length bs < k
    → Returns (λ _ g. Filled h p bs (read buf o (total bs)) g) (input_loop k p o buf h)
unfolding input_loop
input_loop-Filled zero h p bs o buf c d i le fuel = absurd (omega arith)
input_loop-Filled (suc k) h p [] o buf c d i le fuel = rw c (
    returns (record {
      cs = [];
      leads = refl;
      holds = refl;
      count = refl;
      same_fields = refl;
      same_total = refl;
      counted = λ m. m;
      inside = tt;
      outside = λ a e. refl;
      pools = refl;
    }))
input_loop-Filled (suc k) h p ((q, b) ∷ bs) o buf c d i le fuel =
    let xs : List ℕ = read buf o b.len in
    let e : length xs ≡ b.len = length-read buf o b.len in
    let room : leb (o + b.len) buf_size ≡ true = le→leb (o + b.len) buf_size (omega arith) in
    let none_left : drop b.len (bytes b) ≡ [] =
      drop_all b.len (bytes b) (omega (arith, length-read b.mem b.payload b.len)) in
    let all : read buf o (b.len + total bs)
        ≡ (xs ++ drop b.len (bytes b)) ++ read buf (o + b.len) (total bs) =
      read_split buf o b.len (total bs)
      ∙ ap (λ ys. ys ++ read buf (o + b.len) (total bs))
          (sym (ap (λ ys. xs ++ ys) none_left ∙ append-nil xs)) in
    rw
      (
        c.0,
        ne→== q null c.1,
        load-eq h c.1 c.2,
        room,
        copy_in-eq h q b c.1 c.2 xs b.len e (omega arith) i.0,
      )
      (Returns-mono
        (input_loop-Filled k (write h q (some (holding b xs))) b.next bs (o + b.len) buf
          (Seg-write h null q (some (holding b xs)) b.next bs c.3 d.0) d.1 i.1 (omega arith)
          (omega arith))
        (λ _ g f.
          subst (λ ys. Filled h q ((q, b) ∷ bs) ys g) (sym all)
            (Filled-cons h q b c.1 c.2 xs b.len e (omega arith) i.0 bs
              (read buf (o + b.len) (total bs)) g d.0 f)))

-- A packet at `p`, of pbufs from the free list `l`, that holds the frame `xs`.
pub record Received (h : Heap) (xs : List ℕ) (l : List Ptr) (p : Ptr) (g : Heap) : Type 0 where
  pub found : p ≢ null
  pub cs : Cells
  pub packet : Holds g p cs xs
  pub few : length cs ≤ length l
  pub outside : (a : Ptr) → among a l ≡ false → g.cells a ≡ h.cells a
  pub front : addresses cs ++ get_or g.memp memp_pbuf_pool [] ≡ l
  pub pools_left : (i : ℕ) → i ≢ memp_pbuf_pool → get_or g.memp i [] ≡ get_or h.memp i []

filled :
    (k : ℕ) (h g : Heap) (xs : List ℕ) (l : List Ptr) (p : Ptr) (buf : ℕ → ℕ)
    → length xs ≤ buf_size
    → Allocated h 16 (length xs) l p g
    → length l < k
    → Returns (λ _ f. Received h xs l p f) (input_loop k p 0 (put buf 0 xs) g)
filled k h g xs l p buf le a fuel =
    let all : total a.cs ≡ length xs = a.all in
    let whole : read (put buf 0 xs) 0 (length xs) ≡ xs =
      read-put buf 0 xs (length xs) (omega arith)
      ∙ ap (λ (m : ℕ). xs ++ read buf (0 + length xs) m) nothing
      ∙ append-nil xs in
    Returns-mono
      (input_loop-Filled k g p a.cs 0 (put buf 0 xs) a.packet.leads a.packet.distinct
        a.packet.inside (omega arith) (omega (arith, a.within)))
      (λ _ f t.
        let places : addresses t.cs ≡ addresses a.cs =
          sym (addresses-fields t.cs) ∙ ap addresses t.same_fields ∙ addresses-fields a.cs in
        record {
          found = a.found;
          cs = t.cs;
          packet = record {
            leads = t.leads;
            counted = t.counted a.packet.counted;
            inside = t.inside;
            holds = t.holds ∙ ap (λ (n : ℕ). read (put buf 0 xs) 0 n) all ∙ whole;
          };
          few = omega (arith, t.count, a.within);
          outside = λ b e. t.outside b (a.from b e) ∙ a.outside b e;
          front = ap₂ (λ s m. s ++ get_or m memp_pbuf_pool []) places t.pools ∙ a.front;
          pools_left = λ i ne. ap (λ m. get_or m i []) t.pools ∙ a.pools_left i ne;
        })
  where
    nothing : length xs - length xs ≡ 0
    nothing = omega arith

-- low_level_input of a frame of at most 1514 bytes, when the pool has the elements for it, returns a
-- packet that holds the frame; its pbufs are the first elements of the free list, in order, and the
-- others are still there. No other memory changes. The free list is sound.
pub low_level_input-Received :
    (k : ℕ) (h : Heap) (xs : List ℕ) (p : Ptr) (l : List Ptr) (buf : ℕ → ℕ)
    → get_or h.memp memp_pbuf_pool [] ≡ p ∷ l
    → Ready (p ∷ l)
    → memp_pbuf_pool < length h.memp
    → length xs ≤ buf_size
    → length xs ≤ 576 + 592 * length l
    → length (p ∷ l) < k
    → Returns (Received h xs (p ∷ l)) (low_level_input k (some xs) buf h)
unfolding low_level_input
low_level_input-Received k h xs p l buf e ready wide le enough fuel =
    let small : u16 (length xs) ≡ length xs = omega arith in
    rw small (
      Returns-bind
        (alloc-Allocated k h link (length xs) null p l e ready wide (omega arith) (omega arith)
          (omega arith))
        (λ q g a.
          rw (ne→== q null a.found)
            (Returns-bind (filled k h g xs (p ∷ l) q buf le a fuel) (λ _ f r. returns r))))

got_len-lt : (got : Got) → got_len got < 2 ^ 16
got_len-lt none = omega arith
got_len-lt (some xs) = omega arith

-- low_level_input of a frame that needs more than the pool has returns NULL; the pool has the same
-- elements as before, and nothing but the memory of its elements has changed. A read() that fails
-- is such a frame, of 65535 bytes, unless the pool has as much. The free list is sound and not
-- empty.
pub low_level_input-Nothing :
    (k : ℕ) (h : Heap) (got : Got) (p : Ptr) (l : List Ptr) (buf : ℕ → ℕ)
    → get_or h.memp memp_pbuf_pool [] ≡ p ∷ l
    → Ready (p ∷ l)
    → memp_pbuf_pool < length h.memp
    → 576 + 592 * length l < got_len got
    → suc (length l) < k
    → Returns (Nothing h (p ∷ l)) (low_level_input k got buf h)
unfolding low_level_input
low_level_input-Nothing k h got p l buf e ready wide short fuel =
    Returns-bind
      (alloc-Nothing k h link (got_len got) null p l e ready wide (got_len-lt got) (omega arith)
        fuel)
      (λ q g n. let z : (q == null) ≡ true = ground (arith, n.none_left) in rw z (returns n))

-- A frame of at most 1514 bytes that is read, with enough elements in the pool, and then written is
-- the same frame, whatever the stack holds.
pub output-input :
    (k : ℕ) (h : Heap) (xs : List ℕ) (p : Ptr) (l : List Ptr) (buf stack : ℕ → ℕ)
    → get_or h.memp memp_pbuf_pool [] ≡ p ∷ l
    → Ready (p ∷ l)
    → memp_pbuf_pool < length h.memp
    → length xs ≤ buf_size
    → length xs ≤ 576 + 592 * length l
    → length (p ∷ l) < k
    → Returns
        (λ r _. r ≡ (err_ok, xs))
        ((low_level_input k (some xs) buf >>= λ q. low_level_output k q stack) h)
output-input k h xs p l buf stack e ready wide le enough fuel =
    Returns-bind (low_level_input-Received k h xs p l buf e ready wide le enough fuel) (λ q g r.
      let size : total r.cs ≡ length xs =
        sym (length-contents r.cs) ∙ ap (λ ys. length ys) r.packet.holds in
      let room : leb (total r.cs) buf_size ≡ true = le→leb (total r.cs) buf_size (omega arith) in
      rw
        (
          low_level_output-contents k g q r.cs stack r.found r.packet.leads r.packet.counted
              r.packet.inside (omega (arith, r.few)),
          room,
        )
        (returns (ap (λ ys. (err_ok, ys)) r.packet.holds)))
