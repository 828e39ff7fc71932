-- ===== src/Inet.antt =====
-- lwip/src/core/ipv4/inet.c: byte order, on a little-endian machine, and addresses as text. A string
-- is the list of its characters' codes without the final zero.
pub mod Address
pub mod Digits
pub mod Dotted
pub mod Words
pub mod Text
mod Tests
use ocaml_lwip.Base.{
  ℕ, zero, suc, ◌+◌, ◌-◌, ◌*◌, ◌/◌, ◌%◌, ◌^◌, ◌<◌, ◌≡◌, Bool, true, false, Option, none, some, List,
  [], ◌∷◌, ◌++◌, ◌&&◌, ◌||◌, bit_or, arith, ◌==◌, ltb, leb, if◌then◌else◌, u8, u32, take, length,
}
use mathlib.Core.Bool.{not}
use mathlib.Core.Option

unfoldable pub htons : ℕ → ℕ
htons n = n % 2 ^ 8 * 2 ^ 8 + n / 2 ^ 8 % 2 ^ 8

unfoldable pub htonl : ℕ → ℕ
htonl n =
    n % 2 ^ 8 * 2 ^ 24
    + n / 2 ^ 8 % 2 ^ 8 * 2 ^ 16
    + n / 2 ^ 16 % 2 ^ 8 * 2 ^ 8
    + n / 2 ^ 24 % 2 ^ 8

-- ntohs is htons, and undoes it on 16 bits.
pub htons-htons : (n : ℕ) → n < 2 ^ 16 → htons (htons n) ≡ n
unfolding htons
htons-htons n small = omega arith

-- ntohl is htonl, and undoes it on 32 bits.
pub htonl-htonl : (n : ℕ) → n < 2 ^ 32 → htonl (htonl n) ≡ n
unfolding htonl
htonl-htonl n small = omega arith

abbrev pub in_range : (c lo up : ℕ) → Bool
in_range c lo up = leb lo c && leb c up

abbrev pub is_digit : ℕ → Bool
is_digit c = in_range c 48 57

abbrev pub is_lower : ℕ → Bool
is_lower c = in_range c 97 122

abbrev pub is_xdigit : ℕ → Bool
is_xdigit c = is_digit c || in_range c 97 102 || in_range c 65 70

abbrev pub is_space : ℕ → Bool
is_space c = (c == 32) || in_range c 9 13

-- *cp.
abbrev pub char_at : List ℕ → ℕ
char_at [] = 0
char_at (c ∷ cp) = c

-- The value behind a further digit: `|` of a number that ends in four zero bits and a digit is `+`.
abbrev pub next_val : (base val c : ℕ) → ℕ
next_val base val c =
    if is_digit c
    then u32 (val * base + (c - 48))
    else u32 (val * 16) + (c + 10 - (if is_lower c then 97 else 65))

-- The inner loop of inet_aton: the number and what is left of the string.
unfoldable pub collect : (base val : ℕ) → List ℕ → ℕ × List ℕ
collect base val [] = (val, [])
collect base val (c ∷ cp) =
    let rest = collect base (next_val base val c) cp in
    if is_digit c || ((base == 16) && is_xdigit c) then rest else (val, c ∷ cp)

-- A number in C's notation, by its prefix.
unfoldable pub number : List ℕ → ℕ × List ℕ
number [] = collect 10 0 []
number (c ∷ []) = if c == 48 then collect 8 0 [] else collect 10 0 (c ∷ [])
number (c ∷ x ∷ cp) =
    if c == 48
    then (if (x == 120) || (x == 88) then collect 16 0 cp else collect 8 0 (x ∷ cp))
    else collect 10 0 (c ∷ x ∷ cp)

abbrev pub next_char : List ℕ → List ℕ
next_char [] = []
next_char (c ∷ cp) = cp

-- The outer loop, with room for that many more entries of `parts`: parts, the last number, the rest.
unfoldable pub collect_parts : (room : ℕ) → (parts cp : List ℕ) → Option (List ℕ × ℕ × List ℕ)
collect_parts zero parts cp =
    let r = number cp in
    if not (is_digit (char_at cp))
    then none
    else if char_at (r.1) == 46
    then none
    else some (parts, r.0, r.1)
collect_parts (suc room) parts cp =
    let r = number cp in
    let more = collect_parts room (parts ++ r.0 ∷ []) (next_char (r.1)) in
    if not (is_digit (char_at cp))
    then none
    else if char_at (r.1) == 46
    then more
    else some (parts, r.0, r.1)

-- `|` of two words of 32 bits, byte by byte.
abbrev pub or32 : ℕ → ℕ → ℕ
or32 x y =
    bit_or (x % 2 ^ 8) (y % 2 ^ 8)
    + bit_or (x / 2 ^ 8 % 2 ^ 8) (y / 2 ^ 8 % 2 ^ 8) * 2 ^ 8
    + bit_or (x / 2 ^ 16 % 2 ^ 8) (y / 2 ^ 16 % 2 ^ 8) * 2 ^ 16
    + bit_or (x / 2 ^ 24 % 2 ^ 8) (y / 2 ^ 24 % 2 ^ 8) * 2 ^ 24

abbrev pub shift : ℕ → ℕ → ℕ
shift n k = u32 (n * 2 ^ k)

-- The switch on the number of parts. The parts before the last one are not checked.
unfoldable pub concoct : (parts : List ℕ) → (val : ℕ) → Option ℕ
concoct [] val = some val
concoct (a ∷ []) val = if ltb 16777215 val then none else some (or32 val (shift a 24))
concoct (a ∷ b ∷ []) val =
    if ltb 65535 val then none else some (or32 val (or32 (shift a 24) (shift b 16)))
concoct (a ∷ b ∷ c ∷ []) val =
    if ltb 255 val
    then none
    else some (or32 val (or32 (or32 (shift a 24) (shift b 16)) (shift c 8)))
concoct (a ∷ b ∷ c ∷ d ∷ parts) val = some val

-- 0 is none.
unfoldable pub inet_aton : List ℕ → Option ℕ
inet_aton cp = elim (collect_parts 3 [] cp) [
  | none ↦ none
  | some (parts, val, rest) ↦
      if not (char_at rest == 0) && not (is_space (char_at rest))
      then none
      else Option.map htonl (concoct parts val)
]

-- INADDR_NONE on failure.
unfoldable pub inet_addr : List ℕ → ℕ
inet_addr cp = elim (inet_aton cp) [ none ↦ 4294967295 | some addr ↦ addr ]

-- The two inner loops of inet_ntoa: `inv` holds the digits, the last one pushed first. With `room`
-- of its three places left; none if they do not suffice.
unfoldable pub digits : (room ap : ℕ) → (inv : List ℕ) → Option (List ℕ)
digits zero ap inv = none
digits (suc room) ap inv =
    let inv' = (48 + ap % 10) ∷ inv in
    let more = digits room (ap / 10) inv' in if ap / 10 == 0 then some inv' else more

-- The outer loop over the bytes in memory, each followed by a dot.
unfoldable pub bytes_text : List ℕ → Option (List ℕ)
bytes_text [] = some []
bytes_text (ap ∷ aps) = elim (digits 3 ap []) [
  | none ↦ none
  | some ds ↦ Option.map (λ str. ds ++ 46 ∷ str) (bytes_text aps)
]

-- The last dot makes way for the final zero.
unfoldable pub inet_ntoa : ℕ → Option (List ℕ)
inet_ntoa addr =
    Option.map (λ str. take (length str - 1) str)
      (bytes_text
        (addr % 2 ^ 8 ∷ addr / 2 ^ 8 % 2 ^ 8 ∷ addr / 2 ^ 16 % 2 ^ 8 ∷ addr / 2 ^ 24 % 2 ^ 8 ∷ []))
