-- ===== src/Pbuf/Bytes.antt =====
-- Bytes put into a buffer and read back.
use ocaml_lwip.Base.{
  ℕ, zero, suc, ◌+◌, ◌-◌, ◌≤◌, ◌<◌, ◌≡◌, refl, true, false, List, [], ◌∷◌, ◌++◌, arith, ltb, length,
  le→leb, lt→leb, leb, lt→ltb, Bool-cases, inl, inr, ap, ap₂, ◌∙◌,
}
use ocaml_lwip.Pbuf.{read, put}

read_cong : (f g : ℕ → ℕ) (o n : ℕ) → ((i : ℕ) → o ≤ i → f i ≡ g i) → read f o n ≡ read g o n
read_cong f g o zero e = refl
read_cong f g o (suc n) e =
    ap₂ (λ x xs. x ∷ xs) (e o (omega arith)) (read_cong f g (suc o) n (λ i l. e i (omega arith)))

put_behind :
    (mem : ℕ → ℕ) (o x : ℕ) (xs : List ℕ) (i : ℕ)
    → o < i
    → put mem o (x ∷ xs) i ≡ put mem (suc o) xs i
put_behind mem o x xs i l =
    let e : i - o ≡ suc (i - suc o) = omega arith in
    elim (Bool-cases (ltb (i - suc o) (length xs))) [
      | inl inside ↦
          let t : ltb (suc (i - suc o)) (suc (length xs)) ≡ true = ground arith in
          rw (e, t, inside, le→leb o i (omega arith), le→leb (suc o) i (omega arith)) refl
      | inr outside ↦
          let t : ltb (suc (i - suc o)) (suc (length xs)) ≡ false = ground arith in
          rw (e, t, outside, le→leb o i (omega arith), le→leb (suc o) i (omega arith)) refl
    ]

pub read-put :
    (mem : ℕ → ℕ) (o : ℕ) (xs : List ℕ) (n : ℕ)
    → length xs ≤ n
    → read (put mem o xs) o n ≡ xs ++ read mem (o + length xs) (n - length xs)
read-put mem o [] n l =
    read_cong (put mem o []) mem o n
      (λ i le. let t : ltb (i - o) 0 ≡ false = ground arith in rw (le→leb o i le, t) refl)
    ∙ ap₂ (λ a m. read mem a m) (omega arith) (omega arith)
read-put mem o (x ∷ xs) zero l = absurd (omega arith)
read-put mem o (x ∷ xs) (suc n) l =
    let here : put mem o (x ∷ xs) o ≡ x =
      let z : o - o ≡ 0 = omega arith in
      rw (le→leb o o (omega arith), z, lt→ltb 0 (suc (length xs)) (omega arith)) refl in
    ap₂ (λ y ys. y ∷ ys) here
      (read_cong (put mem o (x ∷ xs)) (put mem (suc o) xs) (suc o) n
          (λ i l. put_behind mem o x xs i (omega arith))
        ∙ read-put mem (suc o) xs n (omega arith)
        ∙ ap₂ (λ a m. xs ++ read mem a m) (omega arith) (omega arith))

-- A stretch of memory read in two pieces.
pub read_split : (f : ℕ → ℕ) (o m n : ℕ) → read f o (m + n) ≡ read f o m ++ read f (o + m) n
read_split f o zero n = ap₂ (λ a k. read f a k) (omega arith) (omega arith)
read_split f o (suc m) n =
    let e : suc m + n ≡ suc (m + n) = omega arith in
    ap (λ (k : ℕ). read f o k) e
    ∙ ap (λ xs. f o ∷ xs)
        (read_split f (suc o) m n ∙ ap (λ (a : ℕ). read f (suc o) m ++ read f a n) (omega arith))

-- What lies below the bytes that are put is as before.
pub read-put_below :
    (mem : ℕ → ℕ) (a n o : ℕ) (xs : List ℕ) → a + n ≤ o → read (put mem o xs) a n ≡ read mem a n
read-put_below mem a zero o xs le = refl
read-put_below mem a (suc n) o xs le =
    let below : leb o a ≡ false = lt→leb o a (omega arith) in
    ap₂ (λ x ys. x ∷ ys) (rw below refl) (read-put_below mem (suc a) n o xs (omega arith))
