-- ===== src/Checksum/Sum.antt =====
-- One's complement sums, and lwip_standard_chksum of lwip/src/core/ipv4/inet_chksum.c.
use ocaml_lwip.Base.{
  ℕ, zero, suc, ◌+◌, ◌*◌, ◌%◌, ◌^◌, ◌<◌, ◌≤◌, ◌≡◌, refl, List, [], ◌∷◌, ltb, u16, u32, arith,
  length, Bool-cases, inl, inr, ◌∙◌, ap, sym,
}
use ocaml_lwip.Inet.{htons}
use ocaml_lwip.Checksum.{sum_octets, fold, swap_bytes, carry, standard_chksum}

abbrev pub Octets : List ℕ → Type 0
Octets [] = Unit {0}
Octets (x ∷ xs) = (x < 256) × Octets xs

-- The sum of the 16-bit words of the bytes in memory, the first byte of each the lower one, and the
-- same with the bytes of each word swapped; a last odd byte is filled up with a zero.
abbrev mutual
  pub words : List ℕ → ℕ
  words [] = 0
  words (x ∷ xs) = x + swapped_words xs

  pub swapped_words : List ℕ → ℕ
  swapped_words [] = 0
  swapped_words (x ∷ xs) = 256 * x + words xs

-- The 16-bit number that a sum with end-around carry gives: 0 only for 0.
abbrev pub ones : ℕ → ℕ
ones zero = zero
ones (suc n) = suc (n % 65535)

pub ones_cong :
    (a b : ℕ) → a % 65535 ≡ b % 65535 → (a ≡ 0 → b ≡ 0) → (b ≡ 0 → a ≡ 0) → ones a ≡ ones b
ones_cong zero zero e f g = refl
ones_cong zero (suc b) e f g = let z = f refl in absurd (omega arith)
ones_cong (suc a) zero e f g = let z = g refl in absurd (omega arith)
ones_cong (suc a) (suc b) e f g = ap suc (omega arith)

-- What is known of the result.
pub ones-mod : (a : ℕ) → ones a % 65535 ≡ a % 65535
ones-mod zero = refl
ones-mod (suc a) = omega arith

pub ones-zero : (a : ℕ) → ones a ≡ 0 → a ≡ 0
ones-zero zero e = refl
ones-zero (suc a) e = absurd (omega arith)

pub zero-ones : (a : ℕ) → a ≡ 0 → ones a ≡ 0
zero-ones zero e = refl
zero-ones (suc a) e = absurd (omega arith)

pub ones-le : (a : ℕ) → ones a < 2 ^ 16
ones-le zero = omega arith
ones-le (suc a) = omega arith

pub ones-fold : (u : ℕ) → ones (fold u) ≡ ones u
ones-fold u = ones_cong (fold u) u (omega arith) (λ e. omega arith) (λ e. omega arith)

pub ones_small : (u : ℕ) → u < 2 ^ 16 → ones u ≡ u
ones_small zero l = refl
ones_small (suc n) l = ap suc (omega arith)

pub ones-swap_bytes : (u : ℕ) → u < 2 ^ 16 → ones (swap_bytes u) ≡ ones (256 * u)
ones-swap_bytes u l =
    ones_cong (swap_bytes u) (256 * u) (omega arith) (λ e. omega arith) (λ e. omega arith)

pub ones_add : (a b : ℕ) → ones (ones a + b) ≡ ones (a + b)
ones_add a b =
    let m = ones-mod a in
    ones_cong (ones a + b) (a + b) (omega arith)
      (λ e. let z = ones-zero a (omega arith) in omega arith)
      (λ e. let z = zero-ones a (omega arith) in omega arith)

-- One set of bytes: the two sums are the same up to a factor of 256, which end-around carry turns
-- into an exchange of bytes.
mutual
  pub words-swap : (xs : List ℕ) → (256 * swapped_words xs) % 65535 ≡ words xs % 65535
  words-swap [] = refl
  words-swap (x ∷ xs) = let e = swapped_words-swap xs in omega arith

  pub swapped_words-swap : (xs : List ℕ) → (256 * words xs) % 65535 ≡ swapped_words xs % 65535
  swapped_words-swap [] = refl
  swapped_words-swap (x ∷ xs) = let e = words-swap xs in omega arith

mutual
  pub words-zero : (xs : List ℕ) → swapped_words xs ≡ 0 → words xs ≡ 0
  words-zero [] e = refl
  words-zero (x ∷ xs) e = let z = swapped_words-zero xs (omega arith) in omega arith

  pub swapped_words-zero : (xs : List ℕ) → words xs ≡ 0 → swapped_words xs ≡ 0
  swapped_words-zero [] e = refl
  swapped_words-zero (x ∷ xs) e = let z = words-zero xs (omega arith) in omega arith

mutual
  words-bound : (xs : List ℕ) → Octets xs → words xs ≤ 65280 * length xs
  words-bound [] o = omega arith
  words-bound (x ∷ xs) o = let e = swapped_words-bound xs o.1 in let l = o.0 in omega arith

  swapped_words-bound : (xs : List ℕ) → Octets xs → swapped_words xs ≤ 65280 * length xs
  swapped_words-bound [] o = omega arith
  swapped_words-bound (x ∷ xs) o = let e = words-bound xs o.1 in let l = o.0 in omega arith

sum_octets-words :
    (acc : ℕ) (xs : List ℕ)
    → Octets xs
    → acc + swapped_words xs < 2 ^ 32
    → sum_octets acc xs ≡ acc + swapped_words xs
unfolding sum_octets
sum_octets-words acc [] o l = omega arith
sum_octets-words acc (x ∷ []) o l = let lx = o.0 in omega arith
sum_octets-words acc (x ∷ y ∷ xs) o l =
    let lx = o.0 in
    let ly = o.1.0 in
    let next = u32 (acc + u16 (x * 2 ^ 8 + y)) in
    let same : next ≡ acc + (256 * x + y) = omega arith in
    sum_octets-words next xs o.1.1 (omega arith) ∙ omega arith

carry-small : (a : ℕ) → a < 2 ^ 32 → carry a < 2 ^ 16
carry-small a l = ground arith

ones-carry : (a : ℕ) → ones (carry a) ≡ ones a
ones-carry a = elim (Bool-cases (ltb 65535 (fold a))) [
  | inl more ↦ rw more (ones-fold (fold a) ∙ ones-fold a)
  | inr less ↦ rw less (ones-fold a)
]

carry-mod : (a : ℕ) → carry a % 65535 ≡ a % 65535
carry-mod a = sym (ones-mod (carry a)) ∙ ap (λ n. n % 65535) (ones-carry a) ∙ ones-mod a

carry-zero : (a : ℕ) → carry a ≡ 0 → a ≡ 0
carry-zero a e = ones-zero a (sym (ones-carry a) ∙ zero-ones (carry a) e)

zero-carry : (a : ℕ) → a ≡ 0 → carry a ≡ 0
zero-carry a e = ones-zero (carry a) (ones-carry a ∙ zero-ones a e)

-- lwip_standard_chksum of a buffer is the sum of its 16-bit words, as they lie in memory, with
-- end-around carry. The buffer has less than 2^16 bytes, the width of `len`.
pub standard_chksum-words :
    (xs : List ℕ) → Octets xs → length xs < 2 ^ 16 → standard_chksum xs ≡ ones (words xs)
unfolding standard_chksum htons
standard_chksum-words xs o l =
    let b = swapped_words-bound xs o in
    let c = carry (swapped_words xs) in
    let small : c < 2 ^ 16 = carry-small (swapped_words xs) (omega arith) in
    let sum : sum_octets 0 xs ≡ swapped_words xs =
      sum_octets-words 0 xs o (omega arith) ∙ omega arith in
    rw sum (
      sym (ones_small (swap_bytes (u16 c)) (omega arith))
      ∙ ones_cong (swap_bytes (u16 c)) (words xs)
          (omega (arith, carry-mod (swapped_words xs), words-swap xs))
          (λ e. words-zero xs (carry-zero (swapped_words xs) (omega arith)))
          (λ e. let z = zero-carry (swapped_words xs) (swapped_words-zero xs e) in omega arith))
