-- ===== src/Inet/Address.antt =====
-- lwip/src/core/ipv4/ip_addr.c, and ip_addr_ismulticast of lwip/src/include/ipv4/lwip/ip_addr.h, for
-- addresses as a little-endian machine has them.
use ocaml_lwip.Base.{ℕ, ◌-◌, Bool, true, false, ◌&&◌, ◌||◌, ◌==◌, bit_and, if◌then◌else◌}
use mathlib.Core.Bool.{not}

-- ~x on 32 bits.
abbrev pub complement : ℕ → ℕ
complement x = 4294967295 - x

-- ip_addr_isbroadcast; `broadcast`, `ip_addr` and `netmask` are what the interface has.
unfoldable pub isbroadcast : ℕ → (broadcast : Bool) → (ip_addr netmask : ℕ) → Bool
isbroadcast addr broadcast ip_addr netmask =
    if complement addr == 0 || addr == 0
    then true
    else if not broadcast
    then false
    else if addr == ip_addr
    then false
    else bit_and addr netmask == bit_and ip_addr netmask
      && bit_and addr (complement netmask) == bit_and 4294967295 (complement netmask)

unfoldable pub ismulticast : ℕ → Bool
ismulticast addr = bit_and addr 0xf0 == 0xe0
