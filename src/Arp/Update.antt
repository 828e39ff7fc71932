-- ===== src/Arp/Update.antt =====
-- update_arp_entry and etharp_find_addr of lwip/src/netif/etharp.c.
use ocaml_lwip.Base.{
  ℕ, ◌<◌, ◌≡◌, ◌≢◌, refl, ap, ap₂, sym, ◌∙◌, true, false, ◌&&◌, Option, none, some, List, [], ◌∷◌,
  ◌⊎◌, inl, inr, arith, ◌==◌, if◌then◌else◌, get_or, length, Bool-cases, subst, Returns, returns,
  Returns-bind, length-set, get_or-set_self, get_or-set_ne, ==→eq, ==→ne, ok, Err, err_ok, err_code,
}
use mathlib.Core.Bool.{not}
use ocaml_lwip.Memp.{Ptr}
use ocaml_lwip.Arp.{
  Arp, Entry, pending, stable, is_stable, no_packets, blank, table_size, entry, Flags, find_entry,
  set_entry, Link, not_unicast, flush, record_in, update_arp_entry, find_addr,
}
use ocaml_lwip.Arp.Scan.{is_for}
use ocaml_lwip.Arp.Find.{Sound, Outcome, find_entry-Outcome}

-- The packets of a queue, sent one after the other behind those of `before`, the last first.
abbrev pub deliveries : List ℕ → List Ptr → List (Ptr × List ℕ) → List (Ptr × List ℕ)
deliveries ethaddr [] before = before
deliveries ethaddr (p ∷ ps) before = deliveries ethaddr ps ((p, ethaddr) ∷ before)

record Flushed (s : Arp) (ethaddr : List ℕ) (ps : List Ptr) (g : Arp) : Type 0 where
  table : g.table ≡ s.table
  cached : g.cached ≡ s.cached
  sent : g.sent ≡ deliveries ethaddr ps s.sent

flush-Flushed :
    (ethaddr : List ℕ) (ps : List Ptr) (s : Arp) → Flushed s ethaddr ps (flush ethaddr ps s)
unfolding flush
flush-Flushed ethaddr [] s = record { table = refl; cached = refl; sent = refl }
flush-Flushed ethaddr (p ∷ ps) s =
    let f : Flushed (record s { freed = p ∷ s.freed; sent = (p, ethaddr) ∷ s.sent }) ethaddr ps
        (flush ethaddr ps (record s { freed = p ∷ s.freed; sent = (p, ethaddr) ∷ s.sent })) =
      flush-Flushed ethaddr ps (record s { freed = p ∷ s.freed; sent = (p, ethaddr) ∷ s.sent }) in
    record { table = f.table; cached = f.cached; sent = f.sent }

-- The pair is in the table: etharp_find_addr finds it, the packets that waited for it have been sent,
-- and the other entries are as before.
pub record Learnt (s : Arp) (ip : ℕ) (ethaddr : List ℕ) (i : ℕ) (g : Arp) : Type 0 where
  pub known : find_addr ip g ≡ ok (some (i, ethaddr, ip)) g
  pub sent :
      g.sent
      ≡ deliveries ethaddr (if is_for (some ip) (entry s i) then (entry s i).q else []) s.sent
  pub others : (j : ℕ) → j ≢ i → entry g j ≡ entry s j
  pub sound : Sound g

abbrev pub Updated : Arp → ℕ → List ℕ → Flags → Err → Arp → Type 0
Updated s ip ethaddr flags r g =
    ((r ≡ err_ok) × ((i : ℕ) × Learnt s ip ethaddr i g))
    ⊎ ((r ≡ err_code 1) × (g ≡ s) × ((flags.try_hard && not flags.find_only) ≡ false))

known-at :
    (g : Arp) (ip : ℕ) (e : Entry)
    → entry g g.cached ≡ e
    → e.state ≡ stable
    → e.ipaddr ≡ ip
    → find_addr ip g ≡ ok (some (g.cached, e.ethaddr, ip)) g
unfolding find_addr find_entry
known-at g ip e at st same =
    let now : is_stable (entry g g.cached).state ≡ true =
      ap (λ (x : Entry). is_stable x.state) at ∙ ap is_stable st in
    let addr : (entry g g.cached).ipaddr ≡ ip = ap (λ (x : Entry). x.ipaddr) at ∙ same in
    let test : (ip == (entry g g.cached).ipaddr) ≡ true = ground (arith, addr) in
    rw (now, test, now)
      (ap₂ (λ (x : List ℕ) (a : ℕ). ok (some (g.cached, x, a)) g) (ap (λ (x : Entry). x.ethaddr) at)
        addr)

-- What update_arp_entry writes into the entry that find_entry gave.
module _ (s m : Arp) (l : Link) (ip : ℕ) (ethaddr : List ℕ) (i : ℕ) (lt : i < table_size)
    (size : length m.table ≡ table_size) (cached : m.cached ≡ i) (ip_now : (entry m i).ipaddr ≡ ip)
    (others : (j : ℕ) → j ≢ i → entry m j ≡ entry s j)
    (sent : deliveries ethaddr (entry m i).q m.sent
      ≡ deliveries ethaddr (if is_for (some ip) (entry s i) then (entry s i).q else []) s.sent)
    (v : Sound s) where
  learnt : Entry
  learnt = record {
    q = [];
    ipaddr = (entry m i).ipaddr;
    ethaddr = ethaddr;
    state = stable;
    ctime = 0;
    netif = l.netif;
  }

  after : Arp
  after = flush ethaddr (entry m i).q (set_entry i learnt m)

  flushed : Flushed (set_entry i learnt m) ethaddr (entry m i).q after
  unfolding after
  flushed = flush-Flushed ethaddr (entry m i).q (set_entry i learnt m)

  here : entry after i ≡ learnt
  here =
      ap (λ (t : List Entry). get_or t i blank) flushed.table
      ∙ get_or-set_self m.table i learnt blank (omega arith)

  elsewhere : (j : ℕ) → j ≢ i → entry after j ≡ entry s j
  elsewhere j ne =
      ap (λ (t : List Entry). get_or t j blank) flushed.table
      ∙ get_or-set_ne m.table i j learnt blank (λ q. ne (sym q))
      ∙ others j ne

  at_cached : after.cached ≡ i
  at_cached = flushed.cached ∙ cached

  updated-Learnt : Learnt s ip ethaddr i after
  unfolding learnt
  updated-Learnt = record {
    known =
        known-at after ip learnt (ap (λ (n : ℕ). entry after n) at_cached ∙ here) refl ip_now
        ∙ ap (λ (n : ℕ). ok (some (n, ethaddr, ip)) after) at_cached;
    sent = flushed.sent ∙ sent;
    others = elsewhere;
    sound = record {
      size = ap (λ (t : List Entry). length t) flushed.table ∙ length-set m.table i learnt ∙ size;
      cached = omega (arith, at_cached);
      quiet = λ j. elim (Bool-cases (j == i)) [
        | inl y ↦ inl (
            ap (λ (x : Entry). no_packets x.q) (ap (λ (n : ℕ). entry after n) (==→eq j i y) ∙ here))
        | inr n ↦
            subst (λ (x : Entry). (no_packets x.q ≡ true) ⊎ (x.state ≡ pending))
              (sym (elsewhere j (==→ne j i n))) (v.quiet j)
      ];
    };
  }

waiting_none : (ps : List Ptr) → no_packets ps ≡ true → ps ≡ []
waiting_none [] h = refl
waiting_none (p ∷ ps) h = cc

for_ip : (ip : ℕ) (e : Entry) → is_for (some ip) e ≡ true → e.ipaddr ≡ ip
for_ip ip e h = ground (arith, h)

concluded :
    (s m : Arp) (l : Link) (ip : ℕ) (ethaddr : List ℕ) (flags : Flags) (r : Option ℕ)
    → Sound s
    → Outcome s ip flags r m
    → Returns (λ e g. Updated s ip ethaddr flags e g) (record_in l ethaddr r m)
unfolding record_in after learnt
concluded s m l ip ethaddr flags none v o = returns (inr (refl, o.same, o.not_hard))
concluded s m l ip ethaddr flags (some i) v (inl hit) =
    let same : entry m i ≡ entry s i = ap (λ (t : List Entry). get_or t i blank) hit.table in
    let here : (entry m i).ipaddr ≡ ip =
      ap (λ (x : Entry). x.ipaddr) same ∙ for_ip ip (entry s i) hit.for_ip in
    let waits : (if is_for (some ip) (entry s i) then (entry s i).q else []) ≡ (entry m i).q =
      rw hit.for_ip (ap (λ (x : Entry). x.q) (sym same)) in
    returns (
      inl (
        refl,
        (
          i,
          updated-Learnt s m l ip ethaddr i hit.bound
              (ap (λ (t : List Entry). length t) hit.table ∙ v.size) hit.cached here
              (λ j ne. ap (λ (t : List Entry). get_or t j blank) hit.table)
              (ap₂ (λ ps t. deliveries ethaddr ps t) (sym waits) hit.sent) v,
        ),
      ))
concluded s m l ip ethaddr flags (some i) v (inr f) =
    let waits : (if is_for (some ip) (entry s i) then (entry s i).q else []) ≡ (entry m i).q =
      rw (f.absent i) (sym (waiting_none (entry m i).q f.quiet_now)) in
    returns (
      inl (
        refl,
        (
          i,
          updated-Learnt s m l ip ethaddr i f.bound f.size f.cached f.ip_now f.others
              (ap₂ (λ ps t. deliveries ethaddr ps t) (sym waits) f.sent) v,
        ),
      ))

-- update_arp_entry of a unicast address on a sound table returns ERR_OK, and then etharp_find_addr
-- gives the Ethernet address for it, the packets that waited for the address have been sent there in
-- order, no other entry has changed and the table is sound; or ERR_MEM, and then nothing has changed,
-- which does not happen to a caller that tries hard.
pub update_arp_entry-Updated :
    (s : Arp) (l : Link) (ip : ℕ) (ethaddr : List ℕ) (flags : Flags)
    → Sound s
    → l.hwaddr_len ≡ 6
    → not_unicast l ip ≡ false
    → Returns (λ r g. Updated s ip ethaddr flags r g) (update_arp_entry l ip ethaddr flags s)
unfolding update_arp_entry
update_arp_entry-Updated s l ip ethaddr flags v six uni =
    let ok_len : (l.hwaddr_len == 6) ≡ true = ground arith in
    rw (ok_len, uni)
      (Returns-bind (find_entry-Outcome s ip flags v)
        (λ r m o. concluded s m l ip ethaddr flags r v o))
