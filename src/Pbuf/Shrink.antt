-- ===== src/Pbuf/Shrink.antt =====
-- pbuf_realloc of lwip/src/core/pbuf.c.
use ocaml_lwip.Base.{
  ℕ, zero, suc, ◌+◌, ◌-◌, ◌^◌, ◌≤◌, ◌<◌, ◌≡◌, refl, ◌≢◌, Bool, true, false, some, [], ◌∷◌, ◌++◌,
  Cmd, out_of_fuel, ◌>>=◌, ◌>>◌, pure, assert, u16, Returns, returns, Returns-mono, Returns-bind,
  arith, ◌==◌, ltb, leb, if◌then◌else◌, length, take, ap, ◌∙◌, ne→==, ==→eq, ==→ne, append-nil,
  ltb→lt, le→ltb, Bool-cases, inl, inr, sym, take-append_le, take-append_ge, take_all, ◌&&◌,
}
use mathlib.Core.Bool.{not}
use ocaml_lwip.Memp.{Ptr, null}
use ocaml_lwip.Pbuf.{Pbuf, PbufType, ram, Heap, write, load, store, read}
use ocaml_lwip.Pbuf.Chain.{
  Cells, Chain, has, Counted, Inside, total, contents, bytes, load-eq, length-read, take-read,
  cells-write_self, cells-write_ne, Seg-write, Holds, length-contents,
}
use ocaml_lwip.Pbuf.Packet.{IsPacket}
use ocaml_lwip.Pbuf.Free.{free, free-Freed}

abbrev is_ram : PbufType → Bool
is_ram ram = true
is_ram _ = false

-- The new last pbuf: mem_realloc gives back the end of a PBUF_RAM's block, in place.
abbrev pub trimmed : Pbuf → ℕ → Pbuf
trimmed b rem_len = record b {
  len = rem_len;
  tot_len = rem_len;
  size = if is_ram b.type && not (rem_len == b.len) then b.payload + rem_len else b.size;
}

-- The pbufs behind the new last one are freed before `next` is cleared.
trim : ℕ → Ptr → Pbuf → ℕ → Cmd Heap (Unit {0})
trim k q b rem_len = do
  store q (trimmed b rem_len)
  if b.next == null
      then pure tt
      else (do count ← free k b.next; b' ← load q; store q (record b' { next = null }))

-- `less` is -grow; 2^16 is added first, as `-` stops at 0.
realloc_loop : ℕ → Ptr → ℕ → ℕ → Cmd Heap (Unit {0})
realloc_loop zero q rem_len less = λ _. out_of_fuel
realloc_loop (suc k) q rem_len less = do
  b ← load q
  if ltb b.len rem_len
      then (do
        store q (record b { tot_len = u16 (b.tot_len + 2 ^ 16 - less) })
        assert (not (b.next == null))
        realloc_loop k b.next (rem_len - b.len) less)
      else trim k q b rem_len

pub realloc : ℕ → Ptr → ℕ → Cmd Heap (Unit {0})
unfolding realloc_loop trim
realloc k p new_len = do
  assert (not (p == null))
  b ← load p
  if leb b.tot_len new_len then pure tt else realloc_loop k p new_len (b.tot_len - new_len)

-- The chain at `q` was `bs` in `h`; in `g` it is cut to its first `n` bytes.
record Cut (h : Heap) (q : Ptr) (bs : Cells) (n : ℕ) (g : Heap) : Type 0 where
  cs : Cells
  leads : Chain g q cs
  counted : Counted cs
  inside : Inside cs
  bytes_left : contents cs ≡ take n (contents bs)
  count : total cs ≡ n
  outside : (a : Ptr) → has a bs ≡ false → g.cells a ≡ h.cells a

module _ (q : Ptr) (b : Pbuf) (bs : Cells) (n : ℕ) (less : n ≤ b.len) where
  last_bytes : read b.mem b.payload n ++ [] ≡ take n (contents ((q, b) ∷ bs))
  last_bytes =
      append-nil _
      ∙ sym (
          take-append_ge n (bytes b) (contents bs) (rw length-read less)
          ∙ take-read b.mem b.payload b.len n less)

  trimmed_inside : b.payload + b.len ≤ b.size → b.payload + n ≤ (trimmed b n).size
  trimmed_inside fits = ground arith

  -- The outcome, where the last pbuf is written into `g` with no successor.
  Cut-last :
      (h g : Heap) (b' : Pbuf)
      → q ≢ null
      → b.payload + b.len ≤ b.size
      → b' ≡ record (trimmed b n) { next = null }
      → ((a : Ptr) → has a ((q, b) ∷ bs) ≡ false → g.cells a ≡ h.cells a)
      → Cut h q ((q, b) ∷ bs) n (write g q (some b'))
  Cut-last h g b' ne fits e same = rw e record {
    cs = (q, record (trimmed b n) { next = null }) ∷ [];
    leads = (refl, ne, cells-write_self g q _, refl);
    counted = (omega arith, tt);
    inside = (trimmed_inside fits, tt);
    bytes_left = last_bytes;
    count = omega arith;
    outside = λ a o. cells-write_ne g q a _ (ground arith) ∙ same a o;
  }

  trim-Cut :
      (k : ℕ) (h : Heap)
      → IsPacket h q ((q, b) ∷ bs)
      → length bs < k
      → Returns (λ _ g. Cut h q ((q, b) ∷ bs) n g) (trim k q b n h)
  unfolding trim store
  trim-Cut k h packet fuel = elim (Bool-cases (b.next == null)) [
    | inl z ↦ rw z (
        returns (
          Cut-last h h (trimmed b n) packet.leads.1 packet.inside.0
            (λ i. record (trimmed b n) { next = ==→eq b.next null z i }) (λ a o. refl)))
    | inr nz ↦ rw nz (
        Returns-bind
          (free-Freed k b.next bs (write h q (some (trimmed b n))) (==→ne b.next null nz)
            (Seg-write h null q _ b.next bs packet.leads.3 packet.distinct.0) packet.distinct.1
            packet.live.1 (unfold write in packet.pools) fuel)
          λ m g (count, f).
            rw (load-eq g packet.leads.1 (f.outside q packet.distinct.0 ∙ cells-write_self h q _)) (
              returns (
                Cut-last h g _ packet.leads.1 packet.inside.0 refl
                  (λ a o. f.outside a (ground arith) ∙ cells-write_ne h q a _ (ground arith)))))
  ]

-- A pbuf that stays, with the bytes behind it counted anew.
abbrev shorter : Pbuf → ℕ → Pbuf
shorter b less = record b { tot_len = u16 (b.tot_len + 2 ^ 16 - less) }

module _ (h : Heap) (q : Ptr) (b : Pbuf) (bs : Cells) (n less : ℕ)
    (packet : IsPacket h q ((q, b) ∷ bs)) (all : n + less ≡ b.len + total bs)
    (past : b.len ≤ n) where
  IsPacket-next : IsPacket (write h q (some (shorter b less))) b.next bs
  IsPacket-next = record {
    leads = Seg-write h null q _ b.next bs packet.leads.3 packet.distinct.0;
    distinct = packet.distinct.1;
    counted = packet.counted.1;
    inside = packet.inside.1;
    live = packet.live.1;
    fits = omega (arith, packet.fits);
    pools = unfold write in packet.pools;
  }

  Cut-cons :
      (g : Heap)
      → Cut (write h q (some (shorter b less))) b.next bs (n - b.len) g
      → Cut h q ((q, b) ∷ bs) n g
  Cut-cons g rest = record {
    cs = (q, shorter b less) ∷ rest.cs;
    leads = (
      refl,
      packet.leads.1,
      rest.outside q packet.distinct.0 ∙ cells-write_self h q _,
      rest.leads,
    );
    counted = (omega (arith, packet.counted.0, packet.fits, rest.count), rest.counted);
    inside = (packet.inside.0, rest.inside);
    bytes_left =
        ap (λ xs. bytes b ++ xs) rest.bytes_left
        ∙ ap (λ (m : ℕ). bytes b ++ take (n - m) (contents bs)) (sym size)
        ∙ sym (take-append_le n (bytes b) (contents bs) (rw size past));
    count = omega (arith, rest.count);
    outside = λ a o. rest.outside a (ground arith) ∙ cells-write_ne h q a _ (ground arith);
  }
    where
      size : length (bytes b) ≡ b.len
      size = length-read b.mem b.payload b.len

realloc_loop-Cut :
    (k : ℕ) (h : Heap) (p q : Ptr) (b : Pbuf) (bs : Cells) (n less : ℕ)
    → IsPacket h p ((q, b) ∷ bs)
    → n + less ≡ b.len + total bs
    → suc (length bs) < k
    → Returns (λ _ g. Cut h p ((q, b) ∷ bs) n g) (realloc_loop k p n less h)
unfolding realloc_loop store
realloc_loop-Cut zero h p q b bs n less packet all fuel = absurd (omega arith)
realloc_loop-Cut (suc k) h p q b [] n less packet all fuel =
    let stop : ltb b.len n ≡ false = le→ltb b.len n (omega arith) in
    rw (packet.leads.0, load-eq h packet.leads.1 packet.leads.2, stop)
      (trim-Cut q b [] n (omega arith) k h (rw packet.leads.0 at packet) (omega arith))
realloc_loop-Cut (suc k) h p q b ((q', b') ∷ bs) n less packet all fuel =
    let here : IsPacket h q ((q, b) ∷ (q', b') ∷ bs) = rw packet.leads.0 at packet in
    elim (Bool-cases (ltb b.len n)) [
      | inl on ↦
          let past : b.len < n = ltb→lt b.len n on in
          let ne : b.next ≢ null = rw packet.leads.3.0 packet.leads.3.1 in
          let next = IsPacket-next h q b ((q', b') ∷ bs) n less here all (omega arith) in
          rw (packet.leads.0, load-eq h packet.leads.1 packet.leads.2, on, ne→== b.next null ne)
            (Returns-mono
              (realloc_loop-Cut k (write h q (some (shorter b less))) b.next q' b' bs (n - b.len)
                less next (omega arith) (omega arith))
              λ _ g c. Cut-cons h q b ((q', b') ∷ bs) n less here all (omega arith) g c)
      | inr stop ↦
          rw (packet.leads.0, load-eq h packet.leads.1 packet.leads.2, stop)
            (trim-Cut q b ((q', b') ∷ bs) n (ground arith) k h here (omega arith))
    ]

-- pbuf_realloc cuts a packet to its first `new_len` bytes, or leaves it alone if it is no longer
-- than that: the chain at `p` is then well formed and holds exactly those bytes, and no pbuf
-- outside the chain is written. The packet must be well formed, below 2^16 bytes, without cycle,
-- and each of its pbufs referred to.
pub realloc-take :
    (k : ℕ) (h : Heap) (p : Ptr) (bs : Cells) (new_len : ℕ)
    → p ≢ null
    → IsPacket h p bs
    → length bs < k
    → Returns
        (λ _ g.
          (cs : Cells) × Holds g p cs (take new_len (contents bs))
          × ((a : Ptr) → has a bs ≡ false → g.cells a ≡ h.cells a))
        (realloc k p new_len h)
unfolding realloc
realloc-take k h p [] new_len ne packet fuel = absurd (ne packet.leads)
realloc-take k h p ((q, b) ∷ bs) new_len ne packet fuel =
    let d : h.cells p ≡ some b = ap h.cells packet.leads.0 ∙ packet.leads.2 in
    elim (Bool-cases (leb b.tot_len new_len)) [
      | inl long ↦
          let all : b.len + total bs ≤ new_len = ground (arith, packet.counted.0) in
          rw (ne→== p null ne, load-eq h ne d, long)
            (returns (
              (q, b) ∷ bs,
              record {
                leads = packet.leads;
                counted = packet.counted;
                inside = packet.inside;
                holds = sym (
                    take_all new_len (contents ((q, b) ∷ bs))
                      (rw (length-contents ((q, b) ∷ bs)) all));
              },
              λ a o. refl,
            ))
      | inr short ↦
          rw (ne→== p null ne, load-eq h ne d, short)
            (Returns-mono
              (realloc_loop-Cut k h p q b bs new_len (b.tot_len - new_len) packet
                (ground (arith, packet.counted.0)) (omega arith))
              λ _ g c. (
                c.cs,
                record {
                  leads = c.leads;
                  counted = c.counted;
                  inside = c.inside;
                  holds = c.bytes_left;
                },
                c.outside,
              ))
    ]
