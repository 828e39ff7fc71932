-- ===== src/Netif/Tests.antt =====
-- The theorems of lwip/src/core/netif.c at two interfaces.
use ocaml_lwip.Base.{
  ◌≡◌, Cmd, Err, err_ok, ok, fault, returns, ne→==, ◌≢◌, ℕ, refl, some, none, [], ◌∷◌, true,
  Returns, arith, ◌==◌, if◌then◌else◌,
}
use ocaml_lwip.Memp.{Ptr}
use ocaml_lwip.Netif.{Netif, Net, remove, add, with_netif}
use ocaml_lwip.Netif.Add.{Starts, add-Linked}
use ocaml_lwip.Netif.Remove.{Linked, Removed, remove-Removed}

abbrev tap : Ptr → ℕ → Netif
tap next num = record {
  next = next;
  ip_addr = 16777343;
  netmask = 255;
  gw = 0;
  state = 0;
  input = 0;
  up = true;
  broadcast = true;
  etharp = true;
  num = num;
  name = (116, 112);
}

abbrev two : Net
two = record {
  netifs = λ a. if a == 10 then some (tap 20 1) else if a == 20 then some (tap 0 0) else none;
  netif_list = 10;
  netif_default = 20;
  netifnum = 2;
  pcbs = record { active = []; listening = [] };
  announced = [];
}

two-Linked : Linked two 10 (10 ∷ 20 ∷ [])
two-Linked = (refl, omega arith, (tap 20 1, refl, (refl, omega arith, (tap 0 0, refl, refl))))

remove-Removed_example : Returns (λ _ g. Removed two 20 (10 ∷ 20 ∷ []) g) (remove 3 20 two)
remove-Removed_example =
    remove-Removed 3 two 20 (10 ∷ 20 ∷ []) (omega arith) two-Linked (refl, (refl, tt)) (omega arith)

-- A driver that sets its name and raises nothing else.
abbrev names_itself : Ptr → Cmd Net Err
names_itself p s = elim (s.netifs p) [
  | none ↦ fault
  | some n ↦ ok err_ok (with_netif s p (record n { name = (101, 110) }))
]

names_itself-Starts : Starts (λ p pcbs. pcbs) 30 (omega arith) names_itself
names_itself-Starts s n at =
    rw (names_itself, at)
      (returns (
        refl,
        (
          record n { name = (101, 110) },
          record {
            here = refl;
            others = λ a an. rw (ne→== a 30 an) refl;
            same_list = refl;
            same_default = refl;
          },
        ),
      ))

abbrev three : Net
three = record two { netifs = λ a. if a == 30 then some (tap 0 0) else two.netifs a }

three-Linked : Linked three 10 (10 ∷ 20 ∷ [])
three-Linked = (refl, omega arith, (tap 20 1, refl, (refl, omega arith, (tap 0 0, refl, refl))))

add-Linked_example :
    Returns
      (λ p g.
        (p ≡ 30)
        × Linked g g.netif_list (30 ∷ 10 ∷ 20 ∷ [])
        × (g.netif_default ≡ 20)
        × ((a : Ptr) → a ≢ 30 → g.netifs a ≡ three.netifs a))
      (add (λ p pcbs. pcbs) 30 1 255 2 0 names_itself 0 three)
add-Linked_example =
    add-Linked (λ p pcbs. pcbs) 30 (omega arith) three (tap 0 0) (10 ∷ 20 ∷ []) 1 255 2 0 0
      names_itself refl three-Linked refl names_itself-Starts
