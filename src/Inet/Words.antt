-- ===== src/Inet/Words.antt =====
-- How inet_aton of lwip/src/core/ipv4/inet.c puts the parts of an address together.
use ocaml_lwip.Base.{
  Bool-cases, inl, inr, ℕ, zero, suc, ◌+◌, ◌*◌, ◌/◌, ◌%◌, ◌^◌, ◌<◌, ◌≡◌, refl, Bool, true, false,
  some, [], ◌∷◌, ◌&&◌, bit_or, arith, ◌==◌, ltb, ==→eq, ap, ap₂, ◌∙◌,
}
use ocaml_lwip.Inet.{or32, shift, concoct}

-- A byte or'ed with 0, for all the bytes below `n`.
abbrev bytes_stay : ℕ → Bool
bytes_stay zero = true
bytes_stay (suc n) = (bit_or n 0 == n) && (bit_or 0 n == n) && bytes_stay n

bytes_stay-or : (n x : ℕ) → bytes_stay n ≡ true → x < n → (bit_or x 0 ≡ x) × (bit_or 0 x ≡ x)
bytes_stay-or zero x e l = absurd (omega arith)
bytes_stay-or (suc n) x e l = elim (Bool-cases (x == n)) [
  | inl last ↦
      rw (==→eq x n last)
        (==→eq (bit_or n 0) n (ground (arith, e)), ==→eq (bit_or 0 n) n (ground (arith, e)))
  | inr before ↦ bytes_stay-or n x (ground (arith, e)) (ground (arith, before))
]

or_zero : (x : ℕ) → x < 256 → bit_or x 0 ≡ x
or_zero x l = (bytes_stay-or 256 x refl l).0

zero_or : (x : ℕ) → x < 256 → bit_or 0 x ≡ x
zero_or x l = (bytes_stay-or 256 x refl l).1

-- A word by its bytes, the lowest one first.
abbrev pub from_bytes : (a b c d : ℕ) → ℕ
from_bytes a b c d = a + b * 2 ^ 8 + c * 2 ^ 16 + d * 2 ^ 24

or32-from_bytes :
    (a b c d a' b' c' d' : ℕ)
    → a < 256
    → b < 256
    → c < 256
    → d < 256
    → a' < 256
    → b' < 256
    → c' < 256
    → d' < 256
    → or32 (from_bytes a b c d) (from_bytes a' b' c' d')
      ≡ from_bytes (bit_or a a') (bit_or b b') (bit_or c c') (bit_or d d')
or32-from_bytes a b c d a' b' c' d' la lb lc ld la' lb' lc' ld' =
    let x0 : from_bytes a b c d % 2 ^ 8 ≡ a = omega arith in
    let x1 : from_bytes a b c d / 2 ^ 8 % 2 ^ 8 ≡ b = omega arith in
    let x2 : from_bytes a b c d / 2 ^ 16 % 2 ^ 8 ≡ c = omega arith in
    let x3 : from_bytes a b c d / 2 ^ 24 % 2 ^ 8 ≡ d = omega arith in
    let y0 : from_bytes a' b' c' d' % 2 ^ 8 ≡ a' = omega arith in
    let y1 : from_bytes a' b' c' d' / 2 ^ 8 % 2 ^ 8 ≡ b' = omega arith in
    let y2 : from_bytes a' b' c' d' / 2 ^ 16 % 2 ^ 8 ≡ c' = omega arith in
    let y3 : from_bytes a' b' c' d' / 2 ^ 24 % 2 ^ 8 ≡ d' = omega arith in
    rw (x0, x1, x2, x3, y0, y1, y2, y3) refl

pub concoct_bytes :
    (a b c d : ℕ)
    → a < 256
    → b < 256
    → c < 256
    → d < 256
    → concoct (a ∷ b ∷ c ∷ []) d ≡ some (from_bytes d c b a)
unfolding concoct
concoct_bytes a b c d la lb lc ld =
    let fits : ltb 255 d ≡ false = ground arith in
    let z : 0 < 256 = omega arith in
    let sa : shift a 24 ≡ from_bytes 0 0 0 a = omega arith in
    let sb : shift b 16 ≡ from_bytes 0 0 b 0 = omega arith in
    let sc : shift c 8 ≡ from_bytes 0 c 0 0 = omega arith in
    let ab : or32 (from_bytes 0 0 0 a) (from_bytes 0 0 b 0) ≡ from_bytes 0 0 b a =
      or32-from_bytes 0 0 0 a 0 0 b 0 z z z la z z lb z
      ∙ ap₂ (from_bytes 0 0) (zero_or b lb) (or_zero a la) in
    let abc : or32 (from_bytes 0 0 b a) (from_bytes 0 c 0 0) ≡ from_bytes 0 c b a =
      or32-from_bytes 0 0 b a 0 c 0 0 z z lb la z lc z z
      ∙ rw (zero_or c lc, or_zero b lb, or_zero a la) refl in
    let all : or32 d (from_bytes 0 c b a) ≡ from_bytes d c b a =
      ap (λ x. or32 x (from_bytes 0 c b a)) (omega arith)
      ∙ or32-from_bytes d 0 0 0 0 c b a ld z z z z lc lb la
      ∙ rw (or_zero d ld, zero_or c lc, zero_or b lb, zero_or a la) refl in
    rw (fits, sa, sb, sc, ab, abc, all) refl
