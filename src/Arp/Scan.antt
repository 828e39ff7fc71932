-- ===== src/Arp/Scan.antt =====
-- The search of find_entry in lwip/src/netif/etharp.c, and the entries that it remembers.
use ocaml_lwip.Base.{
  ℕ, zero, suc, ◌+◌, ◌<◌, ◌≤◌, ◌≡◌, refl, ap, ◌∙◌, Bool, true, false, ◌&&◌, ◌||◌, Option, List, [],
  ◌∷◌, ◌⊎◌, inl, inr, arith, ◌==◌, ltb, leb, get_or, length, Bool-cases,
}
use mathlib.Core.Bool.{not}
use ocaml_lwip.Arp.{
  Entry, EtharpState, empty, pending, stable, Candidates, nobody, scan, remember, same_ip, is_empty,
  is_stable, no_packets, blank, table_size,
}

-- Whether an entry is in use for the address.
abbrev pub is_for : Option ℕ → Entry → Bool
is_for ip e = not (is_empty e.state) && same_ip ip e

-- What the candidates are: an empty entry, a stable one, a pending one without packets, an
-- entry with packets; an age above 0 belongs to one.
pub record Valid (table : List Entry) (c : Candidates) : Type 0 where
  pub bounded : c.empty_one ≤ table_size
  pub empties : c.empty_one < table_size → is_empty (get_or table c.empty_one blank).state ≡ true
  pub stables : c.old_stable < table_size → is_stable (get_or table c.old_stable blank).state ≡ true
  pub pendings : c.old_pending < table_size → no_packets (get_or table c.old_pending blank).q ≡ true
  pub queues : c.old_queue < table_size → no_packets (get_or table c.old_queue blank).q ≡ false
  pub aged_stable : 0 < c.age_stable → c.old_stable < table_size
  pub aged_pending : 0 < c.age_pending → c.old_pending < table_size
  pub aged_queue : 0 < c.age_queue → c.old_queue < table_size

abbrev pub has_one : Candidates → Bool
has_one c =
    ltb c.empty_one table_size
    || ltb c.old_stable table_size
    || ltb c.old_pending table_size
    || ltb c.old_queue table_size

pub nobody-Valid : (table : List Entry) → Valid table nobody
nobody-Valid table = record {
  bounded = omega arith;
  empties = λ l. absurd (omega arith);
  stables = λ l. absurd (omega arith);
  pendings = λ l. absurd (omega arith);
  queues = λ l. absurd (omega arith);
  aged_stable = λ l. absurd (omega arith);
  aged_pending = λ l. absurd (omega arith);
  aged_queue = λ l. absurd (omega arith);
}

-- The loop turns from an entry to the next with one candidate at least.
remember-Valid :
    (table : List Entry) (i : ℕ) (e : Entry) (st : EtharpState) (c : Candidates)
    → get_or table i blank ≡ e
    → e.state ≡ st
    → i < table_size
    → Valid table c
    → Valid table (remember i e st c) × (has_one (remember i e st c) ≡ true)
remember-Valid table i e empty c at es lt v = elim (Bool-cases (c.empty_one == table_size)) [
  | inl y ↦
      let here : is_empty (get_or table i blank).state ≡ true =
        ap (λ (x : Entry). is_empty x.state) at ∙ ap is_empty es in
      rw y (
        record {
          bounded = omega arith;
          empties = λ l. here;
          stables = v.stables;
          pendings = v.pendings;
          queues = v.queues;
          aged_stable = v.aged_stable;
          aged_pending = v.aged_pending;
          aged_queue = v.aged_queue;
        },
        ground arith,
      )
  | inr n ↦ rw n (v, let b = v.bounded in ground (arith, b))
]
remember-Valid table i e stable c at es lt v = elim (Bool-cases (leb c.age_stable e.ctime)) [
  | inl y ↦
      let here : is_stable (get_or table i blank).state ≡ true =
        ap (λ (x : Entry). is_stable x.state) at ∙ ap is_stable es in
      rw y (
        record {
          bounded = v.bounded;
          empties = v.empties;
          stables = λ l. here;
          pendings = v.pendings;
          queues = v.queues;
          aged_stable = λ l. lt;
          aged_pending = v.aged_pending;
          aged_queue = v.aged_queue;
        },
        ground arith,
      )
  | inr n ↦ rw n (v, let old = v.aged_stable (ground arith) in ground (arith, old))
]
remember-Valid table i e pending c at es lt v = elim (Bool-cases (no_packets e.q)) [
  | inl y ↦ elim (Bool-cases (leb c.age_pending e.ctime)) [
    | inl o ↦
        let here : no_packets (get_or table i blank).q ≡ true =
          ap (λ (x : Entry). no_packets x.q) at ∙ y in
        rw (y, o)
          (
            record {
              bounded = v.bounded;
              empties = v.empties;
              stables = v.stables;
              pendings = λ l. here;
              queues = v.queues;
              aged_stable = v.aged_stable;
              aged_pending = λ l. lt;
              aged_queue = v.aged_queue;
            },
            ground arith,
          )
    | inr o ↦ rw (y, o) (v, let old = v.aged_pending (ground arith) in ground (arith, old))
  ]
  | inr y ↦ elim (Bool-cases (leb c.age_queue e.ctime)) [
    | inl o ↦
        let here : no_packets (get_or table i blank).q ≡ false =
          ap (λ (x : Entry). no_packets x.q) at ∙ y in
        rw (y, o)
          (
            record {
              bounded = v.bounded;
              empties = v.empties;
              stables = v.stables;
              pendings = v.pendings;
              queues = λ l. here;
              aged_stable = v.aged_stable;
              aged_pending = v.aged_pending;
              aged_queue = λ l. lt;
            },
            ground arith,
          )
    | inr o ↦ rw (y, o) (v, let old = v.aged_queue (ground arith) in ground (arith, old))
  ]
]

-- What the loop says: an entry for the address, or that there is none and candidates.
abbrev pub Scanned : Option ℕ → List Entry → List Entry → ℕ ⊎ Candidates → Type 0
Scanned ip table es (inl k) = (k < table_size) × (is_for ip (get_or table k blank) ≡ true)
Scanned ip table es (inr c) =
    Valid table c × (has_one c ≡ true) × ((j : ℕ) → is_for ip (get_or es j blank) ≡ false)

Scanned-cons :
    (ip : Option ℕ) (table : List Entry) (e : Entry) (es : List Entry) (r : ℕ ⊎ Candidates)
    → is_for ip e ≡ false
    → Scanned ip table es r
    → Scanned ip table (e ∷ es) r
Scanned-cons ip table e es (inl k) f s = s
Scanned-cons ip table e es (inr c) f (v, one, nobody_else) = (v, one, each)
  where
    each : (j : ℕ) → is_for ip (get_or (e ∷ es) j blank) ≡ false
    each zero = f
    each (suc j) = nobody_else j

pub scan-Scanned :
    (ip : Option ℕ) (table : List Entry) (i : ℕ) (es : List Entry) (c : Candidates)
    → ((j : ℕ) → get_or table (i + j) blank ≡ get_or es j blank)
    → i + length es ≡ table_size
    → Valid table c
    → (i ≡ 0) ⊎ (has_one c ≡ true)
    → Scanned ip table es (scan ip i es c)
unfolding scan
scan-Scanned ip table i [] c same size v one =
    (v, elim one [ inl z ↦ absurd (omega arith) | inr h ↦ h ], λ j. refl)
scan-Scanned ip table i (e ∷ es) c same size v one =
    let at : get_or table i blank ≡ e =
      ap (λ (n : ℕ). get_or table n blank) (omega arith) ∙ same 0 in
    elim (Bool-cases (is_for ip e)) [
      | inl t ↦ rw t (omega arith, ap (λ (x : Entry). is_for ip x) at ∙ t)
      | inr f ↦
          let (v', one') = remember-Valid table i e e.state c at refl (omega arith) v in
          rw f (
            Scanned-cons ip table e es (scan ip (suc i) es (remember i e e.state c)) f (
              scan-Scanned ip table (suc i) es (remember i e e.state c)
                (λ j. ap (λ (n : ℕ). get_or table n blank) (omega arith) ∙ same (suc j))
                (omega arith) v' (inr one')))
    ]
