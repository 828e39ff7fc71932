-- ===== src/Inet/Digits.antt =====
-- The decimal numbers in the text of an address, in lwip/src/core/ipv4/inet.c.
use ocaml_lwip.Base.{
  ℕ, ◌+◌, ◌-◌, ◌*◌, ◌/◌, ◌%◌, ◌<◌, ◌≤◌, ◌≡◌, refl, true, false, some, List, [], ◌∷◌, ◌++◌, arith,
  ◌==◌, ltb, if◌then◌else◌, u32, length, lt→ltb, ltb→lt, Bool-cases, inl, inr, ap, sym, ◌∙◌,
}
use ocaml_lwip.Inet.{is_digit, char_at, collect, number, digits}

abbrev pub nil : List ℕ
nil = []

-- A number's end in an address: the end of the string, or a dot.
pub data Stop : List ℕ → Type 0 where
  at_end : Stop []
  at_dot : (cp : List ℕ) → Stop (46 ∷ cp)

collect-Stop :
    (val : ℕ) (r : List ℕ) → Stop r → (collect 10 val r ≡ (val, r)) × (collect 8 val r ≡ (val, r))
unfolding collect
collect-Stop val r at_end = (refl, refl)
collect-Stop val r (at_dot cp) = (refl, refl)

is_digit_48 : (d : ℕ) → d < 10 → is_digit (48 + d) ≡ true
is_digit_48 d l = ground arith

collect-digit :
    (val d : ℕ) (cp : List ℕ)
    → d < 10
    → val < 1000
    → collect 10 val ((48 + d) ∷ cp) ≡ collect 10 (val * 10 + d) cp
unfolding collect
collect-digit val d cp l small =
    let e : u32 (val * 10 + (48 + d - 48)) ≡ val * 10 + d = omega arith in
    rw (is_digit_48 d l, e) refl

collect_one :
    (base d : ℕ) (r : List ℕ)
    → base < 100
    → d < 10
    → Stop r
    → collect 10 base ((48 + d) ∷ r) ≡ (base * 10 + d, r)
collect_one base d r small l stop =
    collect-digit base d r l (omega arith) ∙ (collect-Stop (base * 10 + d) r stop).0

number_one : (d : ℕ) (r : List ℕ) → d < 10 → Stop r → number ((48 + d) ∷ r) ≡ (d, r)
unfolding number
number_one d r l at_end = elim (Bool-cases (48 + d == 48)) [
  | inl e ↦
      let z : d ≡ 0 = ground arith in
      rw (e, (collect-Stop 0 [] at_end).1) (ap (λ n. (n, nil)) (sym z))
  | inr ne ↦ rw (ne, collect_one 0 d [] (omega arith) l at_end) (ap (λ n. (n, nil)) (omega arith))
]
number_one d r l (at_dot cp) = elim (Bool-cases (48 + d == 48)) [
  | inl e ↦
      let z : d ≡ 0 = ground arith in
      rw (e, (collect-Stop 0 (46 ∷ cp) (at_dot cp)).1) (ap (λ n. (n, 46 ∷ cp)) (sym z))
  | inr ne ↦
      rw (ne, collect_one 0 d (46 ∷ cp) (omega arith) l (at_dot cp))
        (ap (λ n. (n, 46 ∷ cp)) (omega arith))
]

number_two :
    (a b : ℕ) (r : List ℕ)
    → 0 < a
    → a < 10
    → b < 10
    → Stop r
    → number ((48 + a) ∷ (48 + b) ∷ r) ≡ (a * 10 + b, r)
unfolding number
number_two a b r pos la lb stop =
    let ne : (48 + a == 48) ≡ false = ground arith in
    rw
      (
        ne,
        collect-digit 0 a ((48 + b) ∷ r) la (omega arith),
        collect_one (0 * 10 + a) b r (omega arith) lb stop,
      )
      (ap (λ n. (n, r)) (omega arith))

number_three :
    (a b c : ℕ) (r : List ℕ)
    → 0 < a
    → a < 10
    → b < 10
    → c < 10
    → Stop r
    → number ((48 + a) ∷ (48 + b) ∷ (48 + c) ∷ r) ≡ (a * 100 + b * 10 + c, r)
unfolding number
number_three a b c r pos la lb lc stop =
    let ne : (48 + a == 48) ≡ false = ground arith in
    rw
      (
        ne,
        collect-digit 0 a ((48 + b) ∷ (48 + c) ∷ r) la (omega arith),
        collect-digit (0 * 10 + a) b ((48 + c) ∷ r) lb (omega arith),
        collect_one ((0 * 10 + a) * 10 + b) c r (omega arith) lc stop,
      )
      (ap (λ n. (n, r)) (omega arith))

-- What inet_ntoa writes for a byte.
abbrev pub decimal : ℕ → List ℕ
decimal n =
    if ltb n 10
    then (48 + n) ∷ []
    else if ltb n 100
    then (48 + n / 10) ∷ (48 + n % 10) ∷ []
    else (48 + n / 100) ∷ (48 + n / 10 % 10) ∷ (48 + n % 10) ∷ []

-- A byte's text is read back as the byte, and starts with a digit.
pub record Reads (n : ℕ) (r : List ℕ) : Type 0 where
  pub value : number (decimal n ++ r) ≡ (n, r)
  pub digit : is_digit (char_at (decimal n ++ r)) ≡ true
  pub text : digits 3 n [] ≡ some (decimal n)
  pub size : 0 < length (decimal n)

Reads-one : (n : ℕ) (r : List ℕ) → n < 10 → Stop r → Reads n r
unfolding digits
Reads-one n r l stop =
    let one : ltb n 10 ≡ true = lt→ltb n 10 l in
    let t : (n / 10 == 0) ≡ true = ground arith in
    record {
      value = rw one (number_one n r l stop);
      digit = rw one (is_digit_48 n l);
      text = rw (one, t) (ap (λ d. some ((48 + d) ∷ nil)) (omega arith));
      size = rw one (omega arith);
    }

Reads-two : (n : ℕ) (r : List ℕ) → 10 ≤ n → n < 100 → Stop r → Reads n r
unfolding digits
Reads-two n r g l stop =
    let one : ltb n 10 ≡ false = ground arith in
    let two : ltb n 100 ≡ true = lt→ltb n 100 l in
    let t : (n / 10 == 0) ≡ false = ground arith in
    let u : (n / 10 / 10 == 0) ≡ true = ground arith in
    record {
      value =
          rw (one, two)
            (number_two (n / 10) (n % 10) r (omega arith) (omega arith) (omega arith) stop
              ∙ ap (λ m. (m, r)) (omega arith));
      digit = rw (one, two) (is_digit_48 (n / 10) (omega arith));
      text = rw (one, two, t, u) (ap (λ d. some ((48 + d) ∷ (48 + n % 10) ∷ nil)) (omega arith));
      size = rw (one, two) (omega arith);
    }

Reads-three : (n : ℕ) (r : List ℕ) → 100 ≤ n → n < 256 → Stop r → Reads n r
unfolding digits
Reads-three n r g l stop =
    let one : ltb n 10 ≡ false = ground arith in
    let two : ltb n 100 ≡ false = ground arith in
    let t : (n / 10 == 0) ≡ false = ground arith in
    let u : (n / 10 / 10 == 0) ≡ false = ground arith in
    let v : (n / 10 / 10 / 10 == 0) ≡ true = ground arith in
    record {
      value =
          rw (one, two)
            (number_three (n / 100) (n / 10 % 10) (n % 10) r (omega arith) (omega arith)
                (omega arith) (omega arith) stop
              ∙ ap (λ m. (m, r)) (omega arith));
      digit = rw (one, two) (is_digit_48 (n / 100) (omega arith));
      text =
          rw (one, two, t, u, v)
            (ap (λ d. some ((48 + d) ∷ (48 + n / 10 % 10) ∷ (48 + n % 10) ∷ nil)) (omega arith));
      size = rw (one, two) (omega arith);
    }

pub decimal-Reads : (n : ℕ) (r : List ℕ) → n < 256 → Stop r → Reads n r
decimal-Reads n r l stop = elim (Bool-cases (ltb n 10)) [
  | inl one ↦ Reads-one n r (ltb→lt n 10 one) stop
  | inr more ↦ elim (Bool-cases (ltb n 100)) [
    | inl two ↦ Reads-two n r (ground arith) (ltb→lt n 100 two) stop
    | inr most ↦ Reads-three n r (ground arith) l stop
  ]
]
