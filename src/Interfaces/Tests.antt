-- ===== src/Interfaces/Tests.antt =====
-- The theorems of the interface primitives of lib/lwip_stubs.c at one interface that is there and one
-- that is new.
use ocaml_lwip.Base.{
  ℕ, ◌≡◌, refl, none, some, false, [], ◌∷◌, ◌==◌, if◌then◌else◌, arith, Cmd, Err, err_ok, ok, fault,
  Returns, returns, ◌>>=◌, suc,
}
use ocaml_lwip.Memp.{Ptr}
use ocaml_lwip.Netif
use ocaml_lwip.Netif.{Net, Netif}
use ocaml_lwip.Netif.Add.{Starts}
use ocaml_lwip.Interfaces.{Quad, netif_new, netif_finalize, finalize_dangling}

-- One interface, and a driver that starts at once.
abbrev some_netif : Ptr → Netif
some_netif next = record {
  next = next;
  ip_addr = 0;
  netmask = 0;
  gw = 0;
  state = 0;
  input = 0;
  up = false;
  broadcast = false;
  etharp = false;
  num = 0;
  name = (101, 116);
}

abbrev one_netif : Net
one_netif = record {
  netifs = λ a. if a == 10 then some (some_netif 0) else none;
  netif_list = 10;
  netif_default = 10;
  netifnum = 1;
  pcbs = record { active = []; listening = [] };
  announced = [];
}

abbrev starts_at_once : Ptr → Cmd Net Err
starts_at_once p s = ok err_ok s

starts_at_once-Starts : Starts (λ p pcbs. pcbs) 30 (omega arith) starts_at_once
starts_at_once-Starts s n at =
    returns (
      refl,
      (n, record { here = at; others = λ a an. refl; same_list = refl; same_default = refl }),
    )

abbrev ip_quad : Quad
ip_quad = record { a = 10; b = 0; c = 0; d = 2 }

finalize_dangling_example :
    Returns
      (λ _ g. (k : ℕ) (name : ℕ × ℕ) (digit : ℕ) → Netif.find (suc k) name digit g ≡ fault)
      ((netif_new (λ p pcbs. pcbs) starts_at_once 7 30 (some_netif 5) ip_quad ip_quad ip_quad
          >>= netif_finalize)
        one_netif)
finalize_dangling_example =
    finalize_dangling (λ p pcbs. pcbs) starts_at_once 7 one_netif 30 (some_netif 5) (10 ∷ [])
      ip_quad ip_quad ip_quad (refl, omega arith, (some_netif 0, refl, refl)) refl (omega arith)
      starts_at_once-Starts
