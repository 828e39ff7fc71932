-- ===== src/Stubs/Calls/Read.antt =====
-- caml_tcp_read and caml_tcp_read_len of lib/lwip_stubs.c.
use ocaml_lwip.Base.{
  ℕ, ◌^◌, ◌<◌, ◌≡◌, refl, ◌≢◌, some, none, List, [], ◌∷◌, arith, length, ne→==, u16, ◌==◌,
  if◌then◌else◌, Bool-cases, inl, inr, ==_self, length-append,
}
use ocaml_lwip.Memp.{Ptr, null}
use ocaml_lwip.Pbuf.{Heap}
use ocaml_lwip.Pbuf.Chain.{contents, length-contents}
use ocaml_lwip.Stubs.Queue.Held.{
  Packets, all_bytes, all_total, Held, Cleared, length-total, copy-all_bytes, free-Cleared,
}
use ocaml_lwip.Stubs.State.{
  TcpApi, Wrap, World, done, Gives, gives, Gives-run, Gives-mono, get-eq, with_rx, put, set_to,
}
use ocaml_lwip.Stubs.Calls.{read, read_len, wrap_of_value, is_closing}

module _ (api : TcpApi) (k tw : ℕ) (w : World api.Net) (d : Wrap) where
  -- What caml_tcp_read leaves of a queue that holds the packets `bss`.
  pub record Drained (bss : Packets) (bytes : List ℕ) (w' : World api.Net) : Type 0 where
    pub all : bytes ≡ all_bytes bss
    pub empty : w'.wraps tw ≡ some (with_rx d [])
    pub others : (a : ℕ) → a ≢ tw → w'.wraps a ≡ w.wraps a
    pub freed : Cleared w.heap bss w'.heap
    pub acked :
        w'.net ≡ (if d.pcb == null then w.net else api.recved d.pcb (u16 (all_total bss)) w.net)
    pub silent : w'.events ≡ w.events

  -- caml_tcp_read of a queue that holds well-formed packets returns all their bytes in order,
  -- empties the queue, frees the packets, changes no other wrap and calls no closure; the number of
  -- bytes, modulo 2^16, is acknowledged if the connection is open on this side. Nobody else refers
  -- to the packets, and they have less than 2^32 bytes together.
  pub read-all_bytes :
      (p : Ptr) (pl : List Ptr) (bss : Packets)
      → w.wraps tw ≡ some (with_rx d (p ∷ pl))
      → Held k w.heap (p ∷ pl) bss
      → all_total bss < 2 ^ 32
      → 7 < length w.heap.memp
      → Gives (Drained bss) (read api k tw w)
  unfolding read put set_to
  read-all_bytes p pl bss at held fits wide =
      rw
        (
          get-eq tw (with_rx d (p ∷ pl)) w at,
          length-total k w.heap p pl bss held fits,
          copy-all_bytes k w.heap (p ∷ pl) bss held,
        )
        (elim (Bool-cases (d.pcb == null)) [
          | inl closed ↦ rw closed (
              Gives-run _ w (free-Cleared k w.heap p pl bss held wide)
                λ u h c. gives (left h w.net c (rw closed)))
          | inr live ↦
              let w' = record w { net = api.recved d.pcb (u16 (all_total bss)) w.net } in
              rw live (
                Gives-run _ w' (free-Cleared k w.heap p pl bss held wide)
                  λ u h c. gives (left h w'.net c (rw live)))
        ])
    where
      left :
          (h : Heap) (net : api.Net)
          → Cleared w.heap bss h
          → net ≡ (if d.pcb == null then w.net else api.recved d.pcb (u16 (all_total bss)) w.net)
          → Drained bss (all_bytes bss) (record w {
            heap = h;
            net = net;
            wraps = λ a. if a == tw then some (with_rx d []) else w.wraps a;
          })
      left h net c acked = record {
        all = refl;
        empty = rw (==_self tw);
        others = λ a ne. rw (ne→== a tw ne);
        freed = c;
        acked = acked;
        silent = refl;
      }

length-all_bytes : (bss : Packets) → length (all_bytes bss) ≡ all_total bss
length-all_bytes [] = refl
length-all_bytes (bs ∷ bss) =
    omega
      (arith, length-append (contents bs) (all_bytes bss), length-contents bs, length-all_bytes bss)

module _ (api : TcpApi) (k tw : ℕ) (w : World api.Net) (d : Wrap) (live : d.pcb ≢ null) where
  -- With packets queued on an open connection, caml_tcp_read_len is the number of bytes that
  -- caml_tcp_read returns when it is called next, and changes nothing.
  pub read_len-length :
      (p : Ptr) (pl : List Ptr) (bss : Packets)
      → w.wraps tw ≡ some (with_rx d (p ∷ pl))
      → Held k w.heap (p ∷ pl) bss
      → all_total bss < 2 ^ 32
      → 7 < length w.heap.memp
      → (read_len api tw w ≡ done (some (all_total bss)) w)
        × Gives (λ bytes w'. length bytes ≡ all_total bss) (read api k tw w)
  unfolding read_len wrap_of_value
  read_len-length p pl bss at held fits wide = (
    rw (
      get-eq tw (with_rx d (p ∷ pl)) w at,
      ne→== d.pcb null live,
      length-total k w.heap p pl bss held fits,
    ),
    Gives-mono (read-all_bytes api k tw w d p pl bss at held fits wide)
        λ bytes w' r. rw r.all (length-all_bytes bss),
  )

  -- With nothing queued it is -1 if the peer has closed, and 0 if not.
  pub read_len-empty :
      w.wraps tw ≡ some (with_rx d [])
      → read_len api tw w ≡ done (if is_closing d.state then none else some 0) w
  unfolding read_len wrap_of_value
  read_len-empty at =
      rw (get-eq tw (with_rx d []) w at, ne→== d.pcb null live)
        (elim (Bool-cases (is_closing d.state)) [ inl e ↦ rw e | inr e ↦ rw e ])
