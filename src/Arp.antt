-- ===== src/Arp.antt =====
-- lwip/src/netif/etharp.c: the table of Ethernet addresses. The build has ARP_QUEUEING, ten entries
-- and one cached index for all (no LWIP_NETIF_HWADDRHINT). The queue of an entry is the list of its
-- packets. What is done with packets is recorded: `freed` are those of a queue that is given up, and
-- `sent` those that are sent, with the address that they are sent to; each list has the last first.
pub mod Scan
pub mod Find
pub mod Update
pub mod Timer
mod Tests
use ocaml_lwip.Base.{
  ℕ, zero, suc, ◌+◌, Bool, true, false, ◌&&◌, ◌||◌, Option, none, some, List, [], ◌∷◌, ◌++◌, ◌⊎◌,
  inl, inr, Cmd, ok, ◌>>=◌, ◌>>◌, pure, assert, ◌==◌, ltb, leb, if◌then◌else◌, get_or, set, map, u8,
  Err, err_ok, err_code,
}
use mathlib.Core.Bool.{not}
use ocaml_lwip.Memp.{Ptr}
use ocaml_lwip.Inet.Address.{isbroadcast, ismulticast}

-- enum etharp_state.
pub data EtharpState : Type 0 where
  empty pending stable : EtharpState

-- struct etharp_entry; `ethaddr` is the six bytes.
pub record Entry : Type 0 where
  pub q : List Ptr
  pub ipaddr : ℕ
  pub ethaddr : List ℕ
  pub state : EtharpState
  pub ctime : ℕ
  pub netif : Ptr

-- arp_table and etharp_cached_entry.
pub record Arp : Type 0 where
  pub table : List Entry
  pub cached : ℕ
  pub freed : List Ptr
  pub sent : List (Ptr × List ℕ)

-- ETHARP_TRY_HARD and ETHARP_FIND_ONLY.
pub record Flags : Type 0 where
  pub try_hard : Bool
  pub find_only : Bool

-- ARP_TABLE_SIZE, ARP_MAXAGE and ARP_MAXPENDING.
abbrev pub table_size : ℕ
table_size = 10

abbrev pub maxage : ℕ
maxage = 240

abbrev pub maxpending : ℕ
maxpending = 2

-- What stands for an entry outside the table, which is never read.
abbrev pub blank : Entry
blank = record { q = []; ipaddr = 0; ethaddr = []; state = empty; ctime = 0; netif = 0 }

abbrev pub entry : Arp → ℕ → Entry
entry s i = get_or s.table i blank

abbrev pub is_empty : EtharpState → Bool
is_empty empty = true
is_empty pending = false
is_empty stable = false

abbrev pub is_stable : EtharpState → Bool
is_stable empty = false
is_stable pending = false
is_stable stable = true

abbrev pub no_packets : List Ptr → Bool
no_packets [] = true
no_packets (p ∷ ps) = false

-- The candidates that find_entry remembers; table_size is none.
pub record Candidates : Type 0 where
  pub empty_one : ℕ
  pub old_stable : ℕ
  pub old_pending : ℕ
  pub old_queue : ℕ
  pub age_stable : ℕ
  pub age_pending : ℕ
  pub age_queue : ℕ

abbrev pub nobody : Candidates
nobody = record {
  empty_one = table_size;
  old_stable = table_size;
  old_pending = table_size;
  old_queue = table_size;
  age_stable = 0;
  age_pending = 0;
  age_queue = 0;
}

-- `ipaddr && ip_addr_cmp(ipaddr, &arp_table[i].ipaddr)`.
abbrev pub same_ip : Option ℕ → Entry → Bool
same_ip none e = false
same_ip (some a) e = a == e.ipaddr

-- What the loop remembers of the entry `e` at `i`, which is not the one that is looked for.
abbrev pub remember : ℕ → Entry → EtharpState → Candidates → Candidates
remember i e empty c = if c.empty_one == table_size then record c { empty_one = i } else c
remember i e pending c =
    if no_packets e.q
    then (if leb c.age_pending e.ctime
        then record c { old_pending = i; age_pending = e.ctime }
        else c)
    else if leb c.age_queue e.ctime
    then record c { old_queue = i; age_queue = e.ctime }
    else c
remember i e stable c =
    if leb c.age_stable e.ctime then record c { old_stable = i; age_stable = e.ctime } else c

-- The loop of find_entry: the entry that is looked for, or the candidates.
unfoldable pub scan : Option ℕ → ℕ → List Entry → Candidates → ℕ ⊎ Candidates
scan ip i [] c = inr c
scan ip i (e ∷ es) c =
    let rest = scan ip (suc i) es (remember i e e.state c) in
    if not (is_empty e.state) && same_ip ip e then inl i else rest

abbrev pub set_entry : ℕ → Entry → Arp → Arp
set_entry i e s = record s { table = set s.table i e }

-- The end of find_entry, for the entry that is chosen.
unfoldable pub recycle : Option ℕ → ℕ → Cmd Arp (Option ℕ)
recycle ip i s =
    let e = entry s i in
    let ipaddr : ℕ = elim ip [ none ↦ e.ipaddr | some a ↦ a ] in
    (assert (ltb i table_size) >> λ s.
    ok (some i) (record (set_entry i (record e { state = empty; ipaddr = ipaddr; ctime = 0 }) s) {
      cached = i;
    }))
      s

-- free_etharp_q on the queue of the entry `i`. A packet on a queue is a pbuf: `p` is not NULL.
unfoldable pub free_queue : ℕ → Cmd Arp (Unit {0})
free_queue i s =
    let e = entry s i in
    (assert (not (no_packets e.q)) >> λ s.
    ok tt (record (set_entry i (record e { q = [] }) s) { freed = e.q ++ s.freed }))
      s

-- The choice between the candidates.
unfoldable pub choose : Option ℕ → Candidates → Cmd Arp (Option ℕ)
choose ip c s =
    (if ltb c.empty_one table_size
        then recycle ip c.empty_one
        else if ltb c.old_stable table_size
        then assert (no_packets (entry s c.old_stable).q) >> recycle ip c.old_stable
        else if ltb c.old_pending table_size
        then recycle ip c.old_pending
        else if ltb c.old_queue table_size
        then free_queue c.old_queue >> recycle ip c.old_queue
        else pure none)
      s

-- What find_entry does with what its loop says.
unfoldable pub conclude : Option ℕ → Flags → ℕ ⊎ Candidates → Cmd Arp (Option ℕ)
conclude ip flags (inl i) s = ok (some i) (record s { cached = i })
conclude ip flags (inr c) s =
    if ((c.empty_one == table_size) && not flags.try_hard) || flags.find_only
    then ok none s
    else choose ip c s

-- `none` is ERR_MEM.
unfoldable pub find_entry : Option ℕ → Flags → Cmd Arp (Option ℕ)
find_entry ip flags s =
    let e = entry s s.cached in
    if is_stable e.state && same_ip ip e
    then ok (some s.cached) s
    else conclude ip flags (scan ip 0 s.table nobody) s

-- The fields of a netif that etharp.c reads, and its address.
pub record Link : Type 0 where
  pub netif : Ptr
  pub ip_addr : ℕ
  pub netmask : ℕ
  pub broadcast : Bool
  pub hwaddr_len : ℕ

-- ip_addr_isany, ip_addr_isbroadcast and ip_addr_ismulticast, the last on a little-endian machine.
pub not_unicast : Link → ℕ → Bool
not_unicast l a = a == 0 || isbroadcast a l.broadcast l.ip_addr l.netmask || ismulticast a

-- The loop that sends the queue, each packet in turn, and frees it.
unfoldable pub flush : List ℕ → List Ptr → Arp → Arp
flush ethaddr [] s = s
flush ethaddr (p ∷ ps) s =
    flush ethaddr ps (record s { freed = p ∷ s.freed; sent = (p, ethaddr) ∷ s.sent })

-- What update_arp_entry writes for the entry that find_entry gave; ERR_MEM is -1.
unfoldable pub record_in : Link → List ℕ → Option ℕ → Cmd Arp Err
record_in l ethaddr none s = ok (err_code 1) s
record_in l ethaddr (some i) s =
    let e = entry s i in
    let e' : Entry = record {
      q = [];
      ipaddr = e.ipaddr;
      ethaddr = ethaddr;
      state = stable;
      ctime = 0;
      netif = l.netif;
    } in
    ok err_ok (flush ethaddr e.q (set_entry i e' s))

-- ERR_ARG is -10.
unfoldable pub update_arp_entry : Link → ℕ → List ℕ → Flags → Cmd Arp Err
update_arp_entry l ip ethaddr flags = do
  assert (l.hwaddr_len == 6)
  if not_unicast l ip
      then pure (err_code 10)
      else (do r ← find_entry (some ip) flags; record_in l ethaddr r)

abbrev pub only_find : Flags
only_find = record { try_hard = false; find_only = true }

-- The index, the Ethernet address and the IP address; `none` is -1.
unfoldable pub find_addr : ℕ → Cmd Arp (Option (ℕ × List ℕ × ℕ))
find_addr ip = do
  r ← find_entry (some ip) only_find
  elim r [
    | none ↦ pure none
    | some i ↦ λ s.
        ok
          (if is_stable (entry s i).state
            then some (i, (entry s i).ethaddr, (entry s i).ipaddr)
            else none)
          s
  ]

-- Whether etharp_tmr gives up an entry of this state and age.
abbrev pub expired : EtharpState → ℕ → Bool
expired empty ctime = false
expired pending ctime = leb maxpending ctime
expired stable ctime = leb maxage ctime

abbrev pub older : Entry → Entry
older e =
    let ctime = u8 (e.ctime + 1) in
    if expired e.state ctime
    then record e { q = []; state = empty; ctime = ctime }
    else record e { ctime = ctime }

abbrev pub given_up : Entry → List Ptr
given_up e = if expired e.state (u8 (e.ctime + 1)) then e.q else []

-- The loop of etharp_tmr: the table afterwards, and the packets that are freed.
unfoldable pub tmr_loop : List Entry → List Ptr → List Entry × List Ptr
tmr_loop [] freed = ([], freed)
tmr_loop (e ∷ es) freed =
    let (rest, freed') = tmr_loop es (given_up e ++ freed) in (older e ∷ rest, freed')

unfoldable pub tmr : Cmd Arp (Unit {0})
tmr s =
    let (table, freed) = tmr_loop s.table s.freed in
    ok tt (record s { table = table; freed = freed })
