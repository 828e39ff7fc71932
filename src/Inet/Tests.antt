-- ===== src/Inet/Tests.antt =====
-- Runs of lwip/src/core/ipv4/inet.c, and its theorems at 127.0.0.1.
use ocaml_lwip.Base.{ℕ, ◌≡◌, refl, some, none, List, [], ◌∷◌, arith}
use ocaml_lwip.Inet.{
  htonl, number, collect, collect_parts, concoct, inet_aton, inet_ntoa, htonl-htonl,
}
use ocaml_lwip.Inet.Text.{inet_aton-inet_ntoa}

inet_aton-inet_ntoa_example :
    (text : List ℕ) × (inet_ntoa 16777343 ≡ some text) × (inet_aton text ≡ some 16777343)
inet_aton-inet_ntoa_example = inet_aton-inet_ntoa 16777343 (omega arith)

htonl-htonl_example : htonl (htonl 2130706433) ≡ 2130706433
htonl-htonl_example = htonl-htonl 2130706433 (omega arith)

-- "0x7f.1" is 127.0.0.1, "1.2.3.256" is refused, and "257.0.0.1" is taken for 1.0.0.1.
hexadecimal : inet_aton (48 ∷ 120 ∷ 55 ∷ 102 ∷ 46 ∷ 49 ∷ []) ≡ some 16777343
unfolding inet_aton collect_parts number collect concoct htonl
hexadecimal = refl

too_large : inet_aton (49 ∷ 46 ∷ 50 ∷ 46 ∷ 51 ∷ 46 ∷ 50 ∷ 53 ∷ 54 ∷ []) ≡ none
unfolding inet_aton collect_parts number collect concoct
too_large = refl

first_part : inet_aton (50 ∷ 53 ∷ 55 ∷ 46 ∷ 48 ∷ 46 ∷ 48 ∷ 46 ∷ 49 ∷ []) ≡ some 16777217
unfolding inet_aton collect_parts number collect concoct htonl
first_part = refl
