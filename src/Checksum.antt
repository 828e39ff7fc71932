-- ===== src/Checksum.antt =====
-- lwip/src/core/ipv4/inet_chksum.c, with LWIP_CHKSUM_ALGORITHM 1 and without LWIP_UDPLITE. A
-- buffer is the list of its bytes. `|` of numbers that share no bit is written `+`.
pub mod Sum
pub mod Chain
pub mod Packet
mod Tests
use ocaml_lwip.Base.{
  ℕ, zero, suc, ◌+◌, ◌-◌, ◌*◌, ◌/◌, ◌%◌, ◌^◌, Bool, true, false, List, [], ◌∷◌, Cmd, out_of_fuel,
  pure, ◌>>=◌, ◌==◌, ltb, if◌then◌else◌, u16, u32,
}
use mathlib.Core.Bool.{not}
use ocaml_lwip.Memp.{Ptr, null}
use ocaml_lwip.Pbuf.{Heap, Pbuf, load, copy_out}
use ocaml_lwip.Inet.{htons}

-- The while loop of lwip_standard_chksum and the octet that remains.
unfoldable pub sum_octets : ℕ → List ℕ → ℕ
sum_octets acc [] = acc
sum_octets acc (x ∷ []) = u32 (acc + u16 (x * 2 ^ 8))
sum_octets acc (x ∷ y ∷ xs) = sum_octets (u32 (acc + u16 (x * 2 ^ 8 + y))) xs

-- FOLD_U32T.
abbrev pub fold : ℕ → ℕ
fold u = u / 2 ^ 16 + u % 2 ^ 16

-- SWAP_BYTES_IN_WORD.
abbrev pub swap_bytes : ℕ → ℕ
swap_bytes w = w % 2 ^ 8 * 2 ^ 8 + w / 2 ^ 8 % 2 ^ 8

-- The deferred carry bits: the second fold only where the first leaves more than 16 bits.
abbrev pub carry : ℕ → ℕ
carry acc = let a = fold acc in if ltb 65535 a then fold a else a

unfoldable pub standard_chksum : List ℕ → ℕ
standard_chksum xs = htons (u16 (carry (sum_octets 0 xs)))

-- ~ on 16 bits.
abbrev pub invert : ℕ → ℕ
invert acc = 65535 - acc % 2 ^ 16

abbrev pub inet_chksum : List ℕ → ℕ
inet_chksum xs = invert (standard_chksum xs)

abbrev pub odd : ℕ → Bool
odd n = not (n % 2 == 0)

-- One pbuf of inet_chksum_pbuf and inet_chksum_pseudo: the sum and `swapped` behind it.
abbrev pub add_pbuf : ℕ → Bool → ℕ → List ℕ → ℕ × Bool
add_pbuf acc swapped len xs =
    let a = fold (u32 (acc + standard_chksum xs)) in
    if odd len then (swap_bytes a, not swapped) else (a, swapped)

-- The loop over the chain and the test of `swapped` behind it.
unfoldable pub chain_loop : ℕ → Ptr → ℕ → Bool → Cmd Heap ℕ
chain_loop zero q acc swapped = λ _. out_of_fuel
chain_loop (suc k) q acc swapped =
    if q == null then pure (if swapped then swap_bytes acc else acc) else (do
      b ← load q
      xs ← copy_out b b.payload b.len
      let r = add_pbuf acc swapped b.len xs
      chain_loop k b.next r.0 r.1)

unfoldable pub inet_chksum_pbuf : ℕ → Ptr → Cmd Heap ℕ
inet_chksum_pbuf k p = do acc ← chain_loop k p 0 false; pure (invert acc)

-- The addresses are in network order, as they lie in memory.
abbrev pub add_header : ℕ → (src dest proto proto_len : ℕ) → ℕ
add_header acc src dest proto proto_len = u32 (
    acc
    + src % 2 ^ 16
    + src / 2 ^ 16 % 2 ^ 16
    + dest % 2 ^ 16
    + dest / 2 ^ 16 % 2 ^ 16
    + htons proto
    + htons proto_len)

unfoldable pub inet_chksum_pseudo : ℕ → Ptr → (src dest proto proto_len : ℕ) → Cmd Heap ℕ
inet_chksum_pseudo k p src dest proto proto_len = do
  acc ← chain_loop k p 0 false
  pure (invert (fold (fold (add_header acc src dest proto proto_len))))
