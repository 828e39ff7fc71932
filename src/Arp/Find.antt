-- ===== src/Arp/Find.antt =====
-- find_entry of lwip/src/netif/etharp.c.
use ocaml_lwip.Base.{
  ℕ, ◌<◌, ◌≡◌, ◌≢◌, refl, ap, sym, ◌∙◌, Bool, true, false, ◌&&◌, ◌||◌, Option, none, some, [], ◌++◌,
  ◌⊎◌, inl, inr, arith, ◌==◌, ltb, get_or, set, length, Bool-cases, subst, Returns, returns,
  Returns-mono, lt→ltb, length-set, get_or-set_self, get_or-set_ne,
}
use mathlib.Core.Bool.{not}
use ocaml_lwip.Arp.{
  Arp, Entry, EtharpState, empty, pending, stable, Candidates, nobody, scan, same_ip, is_empty,
  is_stable, no_packets, blank, table_size, entry, Flags, find_entry, conclude, choose, recycle,
  free_queue, set_entry,
}
use ocaml_lwip.Arp.Scan.{is_for, Valid, has_one, nobody-Valid, Scanned, scan-Scanned}

-- The table has its size, and only pending entries have packets waiting.
pub record Sound (s : Arp) : Type 0 where
  pub size : length s.table ≡ table_size
  pub cached : s.cached < table_size
  pub quiet : (j : ℕ) → no_packets (entry s j).q ≡ true ⊎ (entry s j).state ≡ pending

-- An entry for the address was there, and all are as before.
pub record Hit (s : Arp) (ip i : ℕ) (g : Arp) : Type 0 where
  pub bound : i < table_size
  pub table : g.table ≡ s.table
  pub freed : g.freed ≡ s.freed
  pub sent : g.sent ≡ s.sent
  pub cached : g.cached ≡ i
  pub for_ip : is_for (some ip) (entry s i) ≡ true

-- There was none; one entry is empty and has the address, and all others are as before.
pub record Fresh (s : Arp) (ip i : ℕ) (g : Arp) : Type 0 where
  pub bound : i < table_size
  pub size : length g.table ≡ table_size
  pub absent : (j : ℕ) → is_for (some ip) (entry s j) ≡ false
  pub empty_now : (entry g i).state ≡ empty
  pub ip_now : (entry g i).ipaddr ≡ ip
  pub quiet_now : no_packets (entry g i).q ≡ true
  pub others : (j : ℕ) → j ≢ i → entry g j ≡ entry s j
  pub sent : g.sent ≡ s.sent
  pub cached : g.cached ≡ i

-- ERR_MEM: there was none, nothing has changed, and recycling was not allowed.
pub record Refused (s : Arp) (ip : ℕ) (flags : Flags) (g : Arp) : Type 0 where
  pub absent : (j : ℕ) → is_for (some ip) (entry s j) ≡ false
  pub same : g ≡ s
  pub not_hard : (flags.try_hard && not flags.find_only) ≡ false

abbrev pub Outcome : Arp → ℕ → Flags → Option ℕ → Arp → Type 0
Outcome s ip flags none g = Refused s ip flags g
Outcome s ip flags (some i) g = Hit s ip i g ⊎ Fresh s ip i g

recycle-Fresh :
    (s s' : Arp) (ip i : ℕ)
    → length s'.table ≡ table_size
    → i < table_size
    → ((j : ℕ) → is_for (some ip) (entry s j) ≡ false)
    → ((j : ℕ) → j ≢ i → entry s' j ≡ entry s j)
    → s'.sent ≡ s.sent
    → no_packets (entry s' i).q ≡ true
    → Returns (λ r g. (r ≡ some i) × Fresh s ip i g) (recycle (some ip) i s')
unfolding recycle
recycle-Fresh s s' ip i size lt absent others sent quiet =
    let e : Entry = record (entry s' i) { state = empty; ipaddr = ip; ctime = 0 } in
    let at : get_or (set s'.table i e) i blank ≡ e =
      get_or-set_self s'.table i e blank (omega arith) in
    rw (lt→ltb i table_size lt) (
      returns (
        refl,
        record {
          bound = lt;
          size = length-set s'.table i e ∙ size;
          absent = absent;
          empty_now = ap (λ (x : Entry). x.state) at;
          ip_now = ap (λ (x : Entry). x.ipaddr) at;
          quiet_now = ap (λ (x : Entry). no_packets x.q) at ∙ quiet;
          others = λ j ne. get_or-set_ne s'.table i j e blank (λ q. ne (sym q)) ∙ others j ne;
          sent = sent;
          cached = refl;
        },
      ))

-- An entry that is empty or stable has no packets waiting.
not_pending :
    (s : Arp) (j : ℕ)
    → Sound s
    → (is_empty (entry s j).state || is_stable (entry s j).state) ≡ true
    → no_packets (entry s j).q ≡ true
not_pending s j v h = elim (v.quiet j) [
  | inl q ↦ q
  | inr p ↦
      let other : (is_empty (entry s j).state || is_stable (entry s j).state) ≡ false =
        ap (λ (x : EtharpState). is_empty x || is_stable x) p in
      absurd (ground (arith, h, other))
]

or_right : (b : Bool) → (b || true) ≡ true
or_right true = refl
or_right false = refl

choose-Fresh :
    (s : Arp) (ip : ℕ) (c : Candidates)
    → Sound s
    → Valid s.table c
    → has_one c ≡ true
    → ((j : ℕ) → is_for (some ip) (entry s j) ≡ false)
    → Returns (λ r g. (i : ℕ) × (r ≡ some i) × Fresh s ip i g) (choose (some ip) c s)
unfolding choose free_queue
choose-Fresh s ip c v w one absent =
    let direct : (i : ℕ)
        → i < table_size
        → no_packets (entry s i).q ≡ true
        → Returns (λ r g. (i : ℕ) × (r ≡ some i) × Fresh s ip i g) (recycle (some ip) i s) =
      λ i lt quiet.
        Returns-mono (recycle-Fresh s s ip i v.size lt absent (λ j ne. refl) refl quiet)
          (λ r g t. (i, t.0, t.1)) in
    elim (Bool-cases (ltb c.empty_one table_size)) [
      | inl a ↦
          let lt : c.empty_one < table_size = ground arith in
          let e : is_empty (entry s c.empty_one).state ≡ true = w.empties lt in
          rw a (direct c.empty_one lt (not_pending s c.empty_one v (rw e refl)))
      | inr a ↦ elim (Bool-cases (ltb c.old_stable table_size)) [
        | inl b ↦
            let lt : c.old_stable < table_size = ground arith in
            let e : is_stable (entry s c.old_stable).state ≡ true = w.stables lt in
            let quiet : no_packets (entry s c.old_stable).q ≡ true =
              not_pending s c.old_stable v
                (rw e (or_right (is_empty (entry s c.old_stable).state))) in
            rw (a, b, quiet) (direct c.old_stable lt quiet)
        | inr b ↦ elim (Bool-cases (ltb c.old_pending table_size)) [
          | inl d ↦
              let lt : c.old_pending < table_size = ground arith in
              rw (a, b, d) (direct c.old_pending lt (w.pendings lt))
          | inr d ↦ elim (Bool-cases (ltb c.old_queue table_size)) [
            | inr f ↦ absurd (ground (arith, one, a, b, d, f))
            | inl f ↦
                let k : ℕ = c.old_queue in
                let lt : k < table_size = ground arith in
                let some_packet : no_packets (entry s k).q ≡ false = w.queues lt in
                let e : Entry = record (entry s k) { q = [] } in
                let s' : Arp = record (set_entry k e s) { freed = (entry s k).q ++ s.freed } in
                let at : get_or (set s.table k e) k blank ≡ e =
                  get_or-set_self s.table k e blank (omega (arith, v.size)) in
                rw (a, b, d, f, some_packet)
                  (Returns-mono
                    (recycle-Fresh s s' ip k (length-set s.table k e ∙ v.size) lt absent
                      (λ j ne. get_or-set_ne s.table k j e blank (λ q. ne (sym q))) refl
                      (ap (λ (x : Entry). no_packets x.q) at))
                    (λ r g t. (k, t.0, t.1)))
          ]
        ]
      ]
    ]

stable_not_empty : (x : EtharpState) → is_stable x ≡ true → is_empty x ≡ false
stable_not_empty empty h = cc
stable_not_empty pending h = cc
stable_not_empty stable h = refl

soft :
    (flags : Flags) (full : Bool)
    → ((full && not flags.try_hard) || flags.find_only) ≡ true
    → (flags.try_hard && not flags.find_only) ≡ false
soft flags full h = ground (arith, h)

stable_is_for :
    (ip : ℕ) (e : Entry)
    → (is_stable e.state && same_ip (some ip) e) ≡ true
    → is_for (some ip) e ≡ true
stable_is_for ip e t = elim (Bool-cases (is_stable e.state)) [
  | inl y ↦ rw (stable_not_empty e.state y) (rw y at t)
  | inr n ↦ let never : false ≡ true = rw n at t in cc
]

conclude-Outcome :
    (s : Arp) (ip : ℕ) (flags : Flags) (r : ℕ ⊎ Candidates)
    → Sound s
    → Scanned (some ip) s.table s.table r
    → Returns (λ o g. Outcome s ip flags o g) (conclude (some ip) flags r s)
unfolding conclude
conclude-Outcome s ip flags (inl i) v (lt, mine) = returns (
    inl (record {
      bound = lt;
      table = refl;
      freed = refl;
      sent = refl;
      cached = refl;
      for_ip = mine;
    }))
conclude-Outcome s ip flags (inr c) v (w, one, absent) =
    elim (Bool-cases (((c.empty_one == table_size) && not flags.try_hard) || flags.find_only)) [
      | inl t ↦ rw t (
          returns (record {
            absent = absent;
            same = refl;
            not_hard = soft flags (c.empty_one == table_size) t;
          }))
      | inr t ↦ rw t (
          Returns-mono (choose-Fresh s ip c v w one absent)
            (λ o g (i, same, fresh). subst (λ o'. Outcome s ip flags o' g) (sym same) (inr fresh)))
    ]

-- find_entry of an address: it always returns, and fails no assertion. If an entry for the address is
-- in use, it is that entry's index, and nothing changes but the cached index. If none is, the result
-- is the index of an entry that is now empty and has the address, the only one that has changed; or
-- ERR_MEM, and then nothing has changed, and the caller does not try hard or only looks. The table is
-- sound.
pub find_entry-Outcome :
    (s : Arp) (ip : ℕ) (flags : Flags)
    → Sound s
    → Returns (λ r g. Outcome s ip flags r g) (find_entry (some ip) flags s)
unfolding find_entry
find_entry-Outcome s ip flags v =
    elim (Bool-cases (is_stable (entry s s.cached).state && same_ip (some ip) (entry s s.cached))) [
      | inl t ↦ rw t (
          returns (
            inl (record {
              bound = v.cached;
              table = refl;
              freed = refl;
              sent = refl;
              cached = refl;
              for_ip = stable_is_for ip (entry s s.cached) t;
            })))
      | inr t ↦ rw t (
          conclude-Outcome s ip flags (scan (some ip) 0 s.table nobody) v (
            scan-Scanned (some ip) s.table 0 s.table nobody
              (λ j. ap (λ (n : ℕ). get_or s.table n blank) (omega arith)) (omega (arith, v.size))
              (nobody-Valid s.table) (inl refl)))
    ]
