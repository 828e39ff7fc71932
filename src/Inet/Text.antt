-- ===== src/Inet/Text.antt =====
-- inet_aton and inet_ntoa of lwip/src/core/ipv4/inet.c undo one another.
use ocaml_lwip.Base.{ℕ, ◌/◌, ◌%◌, ◌^◌, ◌<◌, ◌≡◌, some, List, arith, ap, sym, ◌∙◌}
use ocaml_lwip.Inet.{htonl, inet_aton, inet_ntoa}
use ocaml_lwip.Inet.Dotted.{dotted, collect_parts-dotted, word, inet_ntoa-dotted}
use ocaml_lwip.Inet.Words.{from_bytes, concoct_bytes}

inet_aton-dotted :
    (a b c d : ℕ)
    → a < 256
    → b < 256
    → c < 256
    → d < 256
    → inet_aton (dotted a b c d) ≡ some (from_bytes a b c d)
unfolding inet_aton htonl
inet_aton-dotted a b c d la lb lc ld =
    rw (inet_aton, collect_parts-dotted a b c d la lb lc ld, concoct_bytes a b c d la lb lc ld)
      (ap some (omega arith))

-- inet_ntoa of any address of 32 bits gives a text (three digits are room enough for each byte),
-- and inet_aton reads that text back as the address.
pub inet_aton-inet_ntoa :
    (addr : ℕ)
    → addr < 2 ^ 32
    → (text : List ℕ) × (inet_ntoa addr ≡ some text) × (inet_aton text ≡ some addr)
unfolding word
inet_aton-inet_ntoa addr l =
    let a = addr % 2 ^ 8 in
    let b = addr / 2 ^ 8 % 2 ^ 8 in
    let c = addr / 2 ^ 16 % 2 ^ 8 in
    let d = addr / 2 ^ 24 in
    let la : a < 256 = omega arith in
    let lb : b < 256 = omega arith in
    let lc : c < 256 = omega arith in
    let ld : d < 256 = omega arith in
    let e : from_bytes a b c d ≡ addr = omega arith in
    (
      dotted a b c d,
      ap inet_ntoa (sym e) ∙ inet_ntoa-dotted a b c d la lb lc ld,
      inet_aton-dotted a b c d la lb lc ld ∙ ap some e,
    )
