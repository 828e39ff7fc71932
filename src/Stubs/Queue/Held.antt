-- ===== src/Stubs/Queue/Held.antt =====
-- A receive queue of lib/lwip_stubs.c and the packets that it holds: what the list functions give.
use ocaml_lwip.Base.{
  ℕ, ◌+◌, ◌-◌, ◌^◌, ◌<◌, ◌≡◌, refl, ◌≢◌, Bool, true, false, some, none, List, [], ◌∷◌, ◌++◌, ok,
  arith, length, ap, ◌∙◌, take_all, append-nil, Returns, returns, Returns-bind, Returns-mono, ◌||◌,
}
use ocaml_lwip.Memp.{Ptr, null}
use ocaml_lwip.Pbuf.{Pbuf, Heap}
use ocaml_lwip.Pbuf.Chain.{Cells, has, total, contents, load-eq, Seg-frame, length-contents, slice}
use ocaml_lwip.Pbuf.Packet.{IsPacket, Owned, Without, free-Without}
use ocaml_lwip.Pbuf.Read.{copy_partial-slice}
use ocaml_lwip.Stubs.Queue
use ocaml_lwip.Stubs.Queue.{length_from, copy, free_all, string_val, unwritten}

-- The packets, in order.
abbrev pub Packets : Type 0
Packets = List Cells

abbrev pub among : Ptr → Packets → Bool
among a [] = false
among a (bs ∷ bss) = has a bs || among a bss

abbrev pub all_bytes : Packets → List ℕ
all_bytes [] = []
all_bytes (bs ∷ bss) = contents bs ++ all_bytes bss

abbrev pub all_total : Packets → ℕ
all_total [] = 0
all_total (bs ∷ bss) = total bs + all_total bss

-- Each entry of the queue leads to its packet; nobody else refers to the packets, and no pbuf is
-- in two of them. The fuel `k` is above the length of each.
abbrev pub Held : ℕ → Heap → List Ptr → Packets → Type 0
Held k h [] [] = Unit {0}
Held k h [] (bs ∷ bss) = ⊥
Held k h (p ∷ pl) [] = ⊥
Held k h (p ∷ pl) (bs ∷ bss) =
    (p ≢ null)
    × IsPacket h p bs
    × Owned bs
    × (length bs < k)
    × ((a : Ptr) → has a bs ≡ true → among a bss ≡ false)
    × Held k h pl bss

-- The first pbuf of a packet holds its length.
tot_len-total :
    (h : Heap) (p : Ptr) (bs : Cells)
    → p ≢ null
    → IsPacket h p bs
    → (b : Pbuf) × (h.cells p ≡ some b) × (b.tot_len ≡ total bs)
tot_len-total h p [] ne packet = absurd (ne packet.leads)
tot_len-total h p ((q, b) ∷ bs) ne packet =
    (b, ap h.cells packet.leads.0 ∙ packet.leads.2, packet.counted.0)

length_from-total :
    (k len : ℕ) (h : Heap) (pl : List Ptr) (bss : Packets)
    → Held k h pl bss
    → len + all_total bss < 2 ^ 32
    → length_from len pl h ≡ ok (len + all_total bss) h
unfolding length_from
length_from-total k len h [] [] held fits = ap (λ n. ok n h) (omega arith)
length_from-total k len h [] (bs ∷ bss) held fits = absurd held
length_from-total k len h (p ∷ pl) [] held fits = absurd held
length_from-total k len h (p ∷ pl) (bs ∷ bss) held fits =
    let (b, at, e) = tot_len-total h p bs held.0 held.1 in
    rw (load-eq h held.0 at) (
      ap (λ (n : ℕ). length_from n pl h) (omega (arith, e))
      ∙ length_from-total k (len + total bs) h pl bss held.5 (omega arith)
      ∙ ap (λ n. ok n h) (omega arith))

pub copy-all_bytes :
    (k : ℕ) (h : Heap) (pl : List Ptr) (bss : Packets)
    → Held k h pl bss
    → copy k pl h ≡ ok (all_bytes bss) h
unfolding copy
copy-all_bytes k h [] [] held = refl
copy-all_bytes k h [] (bs ∷ bss) held = absurd held
copy-all_bytes k h (p ∷ pl) [] held = absurd held
copy-all_bytes k h (p ∷ pl) (bs ∷ bss) held =
    let (b, at, e) = tot_len-total h p bs held.0 held.1 in
    let len16 : total bs < 2 ^ 16 = held.1.fits in
    let whole : slice b.tot_len 0 bs ≡ contents bs =
      take_all b.tot_len (contents bs) (omega (arith, length-contents bs, e)) in
    let none_left : b.tot_len - length (contents bs) ≡ 0 = omega (arith, length-contents bs, e) in
    rw (
      load-eq h held.0 at,
      copy_partial-slice {h = h} k p string_val bs b.tot_len 0 held.0 (omega arith) held.1.leads
          held.1.inside held.3 (rw e len16),
      whole,
      none_left,
      copy-all_bytes k h pl bss held.5,
      append-nil,
    )

Held-frame :
    (k : ℕ) (h g : Heap) (pl : List Ptr) (bss : Packets)
    → Held k h pl bss
    → ((a : Ptr) → among a bss ≡ true → g.cells a ≡ h.cells a)
    → 7 < length g.memp
    → Held k g pl bss
Held-frame k h g [] [] held same wide = tt
Held-frame k h g [] (bs ∷ bss) held same wide = absurd held
Held-frame k h g (p ∷ pl) [] held same wide = absurd held
Held-frame k h g (p ∷ pl) (bs ∷ bss) held same wide = (
  held.0,
  record {
    leads = Seg-frame h g null p bs held.1.leads (λ a m. same a (ground (arith, m)));
    distinct = held.1.distinct;
    counted = held.1.counted;
    inside = held.1.inside;
    live = held.1.live;
    fits = held.1.fits;
    pools = wide;
  },
  held.2,
  held.3,
  held.4,
  Held-frame k h g pl bss held.5 (λ a m. same a (ground (arith, m))) wide,
)

-- `g` is `h` without the pbufs of the packets.
pub record Cleared (h : Heap) (bss : Packets) (g : Heap) : Type 0 where
  pub dead : (a : Ptr) → among a bss ≡ true → g.cells a ≡ none
  pub outside : (a : Ptr) → among a bss ≡ false → g.cells a ≡ h.cells a

Cleared-cons :
    (h h' g : Heap) (bs : Cells) (bss : Packets)
    → Without h bs h'
    → ((a : Ptr) → has a bs ≡ true → among a bss ≡ false)
    → Cleared h' bss g
    → Cleared h (bs ∷ bss) g
Cleared-cons h h' g bs bss w apart c = record {
  dead = λ a m. ground (arith, c.dead a, c.outside a, w.dead a, apart a);
  outside = λ a o. ground (arith, c.outside a, w.outside a);
}

free_all-Cleared :
    (k : ℕ) (h : Heap) (pl : List Ptr) (bss : Packets)
    → Held k h pl bss
    → 7 < length h.memp
    → Returns (λ _ g. Cleared h bss g) (free_all k pl h)
unfolding free_all
free_all-Cleared k h [] [] held wide = returns (record { dead = λ a m. cc; outside = λ a o. refl })
free_all-Cleared k h [] (bs ∷ bss) held wide = absurd held
free_all-Cleared k h (p ∷ pl) [] held wide = absurd held
free_all-Cleared k h (p ∷ pl) (bs ∷ bss) held wide =
    Returns-bind (free-Without k h p bs held.0 held.1 held.2 held.3) λ n h' w.
      Returns-mono
        (free_all-Cleared k h' pl bss
          (Held-frame k h h' pl bss held.5 (λ a m. w.outside a (ground (arith, m, held.4 a)))
            w.wide)
          w.wide)
        λ _ g c. Cleared-cons h h' g bs bss w held.4 c

module _ (k : ℕ) (h : Heap) (p : Ptr) (pl : List Ptr) (bss : Packets)
    (held : Held k h (p ∷ pl) bss) where
  pub length-total : all_total bss < 2 ^ 32 → Queue.length (p ∷ pl) h ≡ ok (all_total bss) h
  unfolding Queue.length
  length-total fits =
      length_from-total k 0 h (p ∷ pl) bss held (omega arith) ∙ ap (λ n. ok n h) (omega arith)

  pub free-Cleared : 7 < length h.memp → Returns (λ _ g. Cleared h bss g) (Queue.free k (p ∷ pl) h)
  unfolding Queue.free
  free-Cleared = free_all-Cleared k h (p ∷ pl) bss held
