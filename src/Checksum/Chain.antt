-- ===== src/Checksum/Chain.antt =====
-- The loop over a chain that inet_chksum_pbuf and inet_chksum_pseudo of
-- lwip/src/core/ipv4/inet_chksum.c share.
use ocaml_lwip.Base.{
  ℕ, zero, suc, ◌+◌, ◌*◌, ◌%◌, ◌^◌, ◌<◌, ◌≡◌, refl, Bool, true, false, List, [], ◌∷◌, ◌++◌, ◌==◌,
  if◌then◌else◌, u32, arith, length, Bool-cases, inl, inr, ◌∙◌, ap, sym, ok, ne→==,
}
use mathlib.Core.Bool.{not}
use ocaml_lwip.Memp.{Ptr}
use ocaml_lwip.Pbuf.{Heap}
use ocaml_lwip.Pbuf.Chain.{
  Cells, Chain, Inside, contents, total, bytes, load-eq, copy_out-eq, length-read,
}
use ocaml_lwip.Checksum.{fold, swap_bytes, odd, add_pbuf, chain_loop}
use ocaml_lwip.Checksum.Sum.{
  Octets, words, swapped_words, ones, ones_cong, ones-mod, ones-zero, zero-ones, ones-le,
  ones_small, words-swap, words-zero, swapped_words-zero, standard_chksum-words,
}

-- The sum of bytes that start inside a word, `s`, or at the start of one.
abbrev pub sum_from : Bool → List ℕ → ℕ
sum_from false xs = words xs
sum_from true xs = swapped_words xs

odd-suc : (n : ℕ) → odd (suc n) ≡ not (odd n)
odd-suc n = elim (Bool-cases (n % 2 == 0)) [
  | inl e ↦ let z : (suc n % 2 == 0) ≡ false = ground arith in rw (e, z)
  | inr e ↦ let z : (suc n % 2 == 0) ≡ true = ground arith in rw (e, z)
]

abbrev pub turn : Bool → Bool → Bool
turn s o = if o then not s else s

turn-not : (s o : Bool) → turn s (not o) ≡ turn (not s) o
turn-not true true = refl
turn-not true false = refl
turn-not false true = refl
turn-not false false = refl

pub sum_from_append :
    (s : Bool) (xs ys : List ℕ)
    → sum_from s (xs ++ ys) ≡ sum_from s xs + sum_from (turn s (odd (length xs))) ys
sum_from_append true [] ys = omega arith
sum_from_append false [] ys = omega arith
sum_from_append true (x ∷ xs) ys =
    let e = sum_from_append false xs ys in
    rw (odd-suc (length xs), turn-not true (odd (length xs)), e) (omega arith)
sum_from_append false (x ∷ xs) ys =
    let e = sum_from_append true xs ys in
    rw (odd-suc (length xs), turn-not false (odd (length xs)), e) (omega arith)

fold-ones : (a b : ℕ) → fold (u32 (ones a + ones b)) ≡ ones (a + b)
fold-ones a b =
    let ma = ones-mod a in
    let mb = ones-mod b in
    let la = ones-le a in
    let lb = ones-le b in
    let n = fold (u32 (ones a + ones b)) in
    sym (ones_small n (omega arith))
    ∙ ones_cong n (a + b) (omega arith)
        (λ e.
          let za = ones-zero a (omega arith) in let zb = ones-zero b (omega arith) in omega arith)
        (λ e.
          let za = zero-ones a (omega arith) in let zb = zero-ones b (omega arith) in omega arith)

swap_bytes-ones : (a : ℕ) → swap_bytes (ones a) ≡ ones (256 * a)
swap_bytes-ones a =
    let m = ones-mod a in
    let l = ones-le a in
    let n = swap_bytes (ones a) in
    sym (ones_small n (omega arith))
    ∙ ones_cong n (256 * a) (omega arith) (λ e. let z = ones-zero a (omega arith) in omega arith)
        (λ e. let z = zero-ones a (omega arith) in omega arith)

ones-swapped :
    (t : ℕ) (xs : List ℕ) → ones (256 * t + words xs) ≡ ones (256 * (t + swapped_words xs))
ones-swapped t xs =
    ones_cong _ _ (omega (arith, words-swap xs))
      (λ e. let z = swapped_words-zero xs (omega arith) in omega arith)
      (λ e. let z = words-zero xs (omega arith) in omega arith)

ones_twice : (t : ℕ) → ones (256 * (256 * t)) ≡ ones t
ones_twice t = ones_cong _ _ (omega arith) (λ e. omega arith) (λ e. omega arith)

-- The sum kept for `t`: where `swapped` is set, with its bytes swapped.
abbrev pub kept : Bool → ℕ → ℕ
kept s t = ones (if s then 256 * t else t)

add_pbuf-kept :
    (t : ℕ) (s : Bool) (n : ℕ) (xs : List ℕ)
    → Octets xs
    → length xs ≡ n
    → n < 2 ^ 16
    → add_pbuf (kept s t) s n xs ≡ (kept (turn s (odd n)) (t + sum_from s xs), turn s (odd n))
add_pbuf-kept t false n xs o e l =
    rw (standard_chksum-words xs o (omega arith), fold-ones t (words xs))
      (elim (Bool-cases (odd n)) [
        | inl one ↦ rw (one, swap_bytes-ones (t + words xs)) refl
        | inr two ↦ rw two refl
      ])
add_pbuf-kept t true n xs o e l =
    rw (standard_chksum-words xs o (omega arith), fold-ones (256 * t) (words xs), ones-swapped t xs)
      (elim (Bool-cases (odd n)) [
        | inl one ↦
            rw
              (
                one,
                swap_bytes-ones (256 * (t + swapped_words xs)),
                ones_twice (t + swapped_words xs),
              )
              refl
        | inr two ↦ rw two refl
      ])

Octets-append : (xs ys : List ℕ) → Octets (xs ++ ys) → Octets xs × Octets ys
Octets-append [] ys o = (tt, o)
Octets-append (x ∷ xs) ys o = let r = Octets-append xs ys o.1 in ((o.0, r.0), r.1)

pub Octets-join : (xs ys : List ℕ) → Octets xs → Octets ys → Octets (xs ++ ys)
Octets-join [] ys o o' = o'
Octets-join (x ∷ xs) ys o o' = (o.0, Octets-join xs ys o.1 o')

-- The loop of inet_chksum_pbuf over a chain, from the sum of `t` on.
pub chain_loop-ones :
    (h : Heap) (k : ℕ) (q : Ptr) (bs : Cells) (t : ℕ) (s : Bool)
    → Chain h q bs
    → Inside bs
    → Octets (contents bs)
    → total bs < 2 ^ 16
    → length bs < k
    → chain_loop k q (kept s t) s h ≡ ok (ones (t + sum_from s (contents bs))) h
unfolding chain_loop
chain_loop-ones h zero q bs t s c i o l fuel = absurd (omega arith)
chain_loop-ones h (suc k) q [] t true c i o l fuel =
    rw (c, swap_bytes-ones (256 * t), ones_twice t) (ap (λ n. ok (ones n) h) (omega arith))
chain_loop-ones h (suc k) q [] t false c i o l fuel = rw c (ap (λ n. ok (ones n) h) (omega arith))
chain_loop-ones h (suc k) q ((a, b) ∷ bs) t s c i o l fuel =
    let parts = Octets-append (bytes b) (contents bs) o in
    rw
      (
        c.0,
        ne→== _ _ c.1,
        load-eq h c.1 c.2,
        copy_out-eq h b b.payload b.len i.0,
        add_pbuf-kept t s b.len (bytes b) parts.0 (length-read b.mem b.payload b.len) (omega arith),
        sum_from_append s (bytes b) (contents bs),
        length-read b.mem b.payload b.len,
      )
      (chain_loop-ones h k b.next bs (t + sum_from s (bytes b)) (turn s (odd b.len)) c.3 i.1 parts.1
          (omega arith) (omega arith)
        ∙ ap (λ n. ok (ones n) h) (omega arith))
