-- ===== src/Inet/Dotted.antt =====
-- The text of an address: what inet_ntoa writes and the loops of inet_aton read.
use ocaml_lwip.Base.{
  ℕ, suc, ◌+◌, ◌-◌, ◌*◌, ◌/◌, ◌%◌, ◌^◌, ◌<◌, ◌≡◌, refl, some, List, [], ◌∷◌, ◌++◌, arith, take,
  length, length-append, take-append_le, ap,
}
use ocaml_lwip.Inet.{collect_parts, digits, bytes_text, inet_ntoa}
use ocaml_lwip.Inet.Digits.{nil, at_end, at_dot, decimal, decimal-Reads}

-- The text of four bytes.
abbrev pub from_d : ℕ → List ℕ
from_d d = decimal d ++ []

abbrev pub from_c : ℕ → ℕ → List ℕ
from_c c d = decimal c ++ (46 ∷ from_d d)

abbrev pub from_b : ℕ → ℕ → ℕ → List ℕ
from_b b c d = decimal b ++ (46 ∷ from_c c d)

abbrev pub dotted : (a b c d : ℕ) → List ℕ
dotted a b c d = decimal a ++ (46 ∷ from_b b c d)

drop_last :
    (xs : List ℕ) (y : ℕ) → take (length (xs ++ (y ∷ nil)) - 1) (xs ++ (y ∷ nil)) ≡ xs ++ nil
drop_last xs y =
    let n : length (xs ++ (y ∷ nil)) - 1 - length xs ≡ 0 =
      omega (arith, length-append xs (y ∷ nil)) in
    rw
      (
        take-append_le (length (xs ++ (y ∷ nil)) - 1) xs (y ∷ nil)
            (omega (arith, length-append xs (y ∷ nil))),
        n,
      )
      refl

drop_later :
    (xs : List ℕ) (y : ℕ) (ys zs : List ℕ)
    → 0 < length ys
    → take (length ys - 1) ys ≡ zs
    → take (length (xs ++ (y ∷ ys)) - 1) (xs ++ (y ∷ ys)) ≡ xs ++ (y ∷ zs)
drop_later xs y ys zs l e =
    let n : length (xs ++ (y ∷ ys)) - 1 - length xs ≡ suc (length ys - 1) =
      omega (arith, length-append xs (y ∷ ys)) in
    rw
      (
        take-append_le (length (xs ++ (y ∷ ys)) - 1) xs (y ∷ ys)
            (omega (arith, length-append xs (y ∷ ys))),
        n,
        e,
      )
      refl

some_text : (xs : List ℕ) (y : ℕ) (ys : List ℕ) → 0 < length (xs ++ (y ∷ ys))
some_text xs y ys = omega (arith, length-append xs (y ∷ ys))

bytes_text-cons :
    (n : ℕ) (aps ds str : List ℕ)
    → digits 3 n [] ≡ some ds
    → bytes_text aps ≡ some str
    → bytes_text (n ∷ aps) ≡ some (ds ++ (46 ∷ str))
unfolding bytes_text
bytes_text-cons n aps ds str e f = rw (bytes_text, e, f) refl

module _ (a b c d : ℕ) (la : a < 256) (lb : b < 256) (lc : c < 256) (ld : d < 256) where
  pub collect_parts-dotted : collect_parts 3 [] (dotted a b c d) ≡ some (a ∷ b ∷ c ∷ [], d, [])
  unfolding collect_parts
  collect_parts-dotted =
      let rd = decimal-Reads d [] ld at_end in
      let rc = decimal-Reads c (46 ∷ from_d d) lc (at_dot (from_d d)) in
      let rb = decimal-Reads b (46 ∷ from_c c d) lb (at_dot (from_c c d)) in
      let ra = decimal-Reads a (46 ∷ from_b b c d) la (at_dot (from_b b c d)) in
      rw (ra.value, ra.digit, rb.value, rb.digit, rc.value, rc.digit, rd.value, rd.digit) refl

  unfoldable pub word : ℕ
  word = a + b * 2 ^ 8 + c * 2 ^ 16 + d * 2 ^ 24

  pub inet_ntoa-dotted : inet_ntoa word ≡ some (dotted a b c d)
  unfolding inet_ntoa bytes_text word
  inet_ntoa-dotted =
      let rd = decimal-Reads d [] ld at_end in
      let rc = decimal-Reads c [] lc at_end in
      let rb = decimal-Reads b [] lb at_end in
      let ra = decimal-Reads a [] la at_end in
      let ea : word % 2 ^ 8 ≡ a = omega arith in
      let eb : word / 2 ^ 8 % 2 ^ 8 ≡ b = omega arith in
      let ec : word / 2 ^ 16 % 2 ^ 8 ≡ c = omega arith in
      let ed : word / 2 ^ 24 % 2 ^ 8 ≡ d = omega arith in
      let text : bytes_text (a ∷ b ∷ c ∷ d ∷ [])
          ≡ some (
              decimal a
              ++ (46 ∷ (decimal b ++ (46 ∷ (decimal c ++ (46 ∷ (decimal d ++ (46 ∷ nil)))))))) =
        bytes_text-cons a (b ∷ c ∷ d ∷ []) _ _ ra.text (
          bytes_text-cons b (c ∷ d ∷ []) _ _ rb.text
            (bytes_text-cons c (d ∷ []) _ _ rc.text (bytes_text-cons d [] _ _ rd.text refl))) in
      rw (ea, eb, ec, ed, text)
        (ap some (
          drop_later (decimal a) 46 _ _ (some_text (decimal b) 46 _) (
            drop_later (decimal b) 46 _ _ (some_text (decimal c) 46 _) (
              drop_later (decimal c) 46 _ _ (some_text (decimal d) 46 [])
                (drop_last (decimal d) 46)))))
