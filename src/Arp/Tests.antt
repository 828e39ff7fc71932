-- ===== src/Arp/Tests.antt =====
-- Runs of lwip/src/netif/etharp.c, and its theorems at a table with a pending and a stable entry.
use ocaml_lwip.Base.{
  ℕ, ◌≡◌, refl, true, false, List, [], ◌∷◌, ◌⊎◌, inl, inr, some, arith, Returns, ok, zero, suc,
}
use ocaml_lwip.Arp.{
  Arp, Entry, pending, stable, blank, entry, Flags, Link, find_entry, update_arp_entry, only_find,
  no_packets, conclude, scan, not_unicast,
}
use ocaml_lwip.Inet.Address.{isbroadcast, ismulticast}
use ocaml_lwip.Arp.Find.{Sound, Outcome, find_entry-Outcome}
use ocaml_lwip.Arp.Update.{Updated, update_arp_entry-Updated}
use ocaml_lwip.Arp.Timer.{ticks, survives, ticks-survives}

-- 10.0.0.7 waits with two packets, 10.0.0.8 is known and old.
abbrev waiting : Entry
waiting = record {
  q = 400 ∷ 500 ∷ [];
  ipaddr = 117440522;
  ethaddr = [];
  state = pending;
  ctime = 1;
  netif = 10;
}

abbrev known : Entry
known = record {
  q = [];
  ipaddr = 134217738;
  ethaddr = 2 ∷ 0 ∷ 0 ∷ 0 ∷ 0 ∷ 8 ∷ [];
  state = stable;
  ctime = 200;
  netif = 10;
}

abbrev two : Arp
two = record {
  table = waiting ∷ known ∷ blank ∷ blank ∷ blank ∷ blank ∷ blank ∷ blank ∷ blank ∷ blank ∷ [];
  cached = 0;
  freed = [];
  sent = [];
}

two-quiet : (j : ℕ) → (no_packets (entry two j).q ≡ true) ⊎ ((entry two j).state ≡ pending)
two-quiet zero = inr refl
two-quiet (suc zero) = inl refl
two-quiet (suc (suc zero)) = inl refl
two-quiet (suc (suc (suc zero))) = inl refl
two-quiet (suc (suc (suc (suc zero)))) = inl refl
two-quiet (suc (suc (suc (suc (suc zero))))) = inl refl
two-quiet (suc (suc (suc (suc (suc (suc zero)))))) = inl refl
two-quiet (suc (suc (suc (suc (suc (suc (suc zero))))))) = inl refl
two-quiet (suc (suc (suc (suc (suc (suc (suc (suc zero)))))))) = inl refl
two-quiet (suc (suc (suc (suc (suc (suc (suc (suc (suc zero))))))))) = inl refl
two-quiet (suc (suc (suc (suc (suc (suc (suc (suc (suc (suc j)))))))))) = inl refl

two-Sound : Sound two
two-Sound = record { size = refl; cached = omega arith; quiet = two-quiet }

abbrev hard : Flags
hard = record { try_hard = true; find_only = false }

abbrev link : Link
link = record {
  netif = 10;
  ip_addr = 33554442;
  netmask = 16777215;
  broadcast = true;
  hwaddr_len = 6;
}

abbrev mac : List ℕ
mac = 2 ∷ 0 ∷ 0 ∷ 0 ∷ 0 ∷ 7 ∷ []

find_known : find_entry (some 134217738) only_find two ≡ ok (some 1) (record two { cached = 1 })
unfolding find_entry scan conclude
find_known = refl

broadcast_run : isbroadcast 4278190090 true 33554442 16777215 ≡ true
unfolding isbroadcast
broadcast_run = refl

find_entry-Outcome_example :
    Returns (λ r g. Outcome two 117440522 hard r g) (find_entry (some 117440522) hard two)
find_entry-Outcome_example = find_entry-Outcome two 117440522 hard two-Sound

unicast : not_unicast link 117440522 ≡ false
unfolding not_unicast isbroadcast ismulticast
unicast = refl

update_arp_entry-Updated_example :
    Returns
      (λ r g. Updated two 117440522 mac hard r g)
      (update_arp_entry link 117440522 mac hard two)
update_arp_entry-Updated_example =
    update_arp_entry-Updated two link 117440522 mac hard two-Sound refl unicast

ticks-survives_example : Returns (λ _ g. (entry g 1).state ≡ survives 39 stable 200) (ticks 39 two)
ticks-survives_example = ticks-survives 39 two 1 (omega arith) (omega arith)
