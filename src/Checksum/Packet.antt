-- ===== src/Checksum/Packet.antt =====
-- inet_chksum_pbuf and inet_chksum_pseudo of lwip/src/core/ipv4/inet_chksum.c: the checksum of a
-- chain is that of the bytes it holds, however they are divided.
use ocaml_lwip.Base.{
  ℕ, ◌+◌, ◌*◌, ◌/◌, ◌%◌, ◌^◌, ◌<◌, ◌≡◌, refl, false, List, [], ◌∷◌, ◌++◌, arith, length, ◌∙◌, ap,
  sym, ok, length-append,
}
use ocaml_lwip.Memp.{Ptr}
use ocaml_lwip.Pbuf.{Heap}
use ocaml_lwip.Pbuf.Chain.{Cells, Chain, Inside, contents, total, length-contents}
use ocaml_lwip.Inet.{htons}
use ocaml_lwip.Checksum.{
  fold, odd, inet_chksum_pbuf, inet_chksum, invert, add_header, inet_chksum_pseudo,
}
use ocaml_lwip.Checksum.Sum.{
  Octets, words, ones, ones_cong, ones-mod, zero-ones, ones-le, ones_small, ones-fold, ones_add,
  standard_chksum-words,
}
use ocaml_lwip.Checksum.Chain.{sum_from_append, Octets-join, chain_loop-ones}

-- inet_chksum_pbuf of a chain is inet_chksum of the bytes it holds in one piece, however they are
-- divided into pbufs of odd and even lengths. The chain lies in its buffers, holds less than 2^16
-- bytes, and each is below 256.
pub inet_chksum_pbuf-inet_chksum :
    (h : Heap) (k : ℕ) (p : Ptr) (bs : Cells)
    → Chain h p bs
    → Inside bs
    → Octets (contents bs)
    → total bs < 2 ^ 16
    → length bs < k
    → inet_chksum_pbuf k p h ≡ ok (inet_chksum (contents bs)) h
unfolding inet_chksum_pbuf
inet_chksum_pbuf-inet_chksum h k p bs c i o l fuel =
    rw
      (
        chain_loop-ones h k p bs 0 false c i o l fuel,
        standard_chksum-words (contents bs) o (rw (length-contents bs) l),
      )
      (ap (λ n. ok (invert (ones n)) h) (omega arith))

-- The bytes of a number in memory, low ones first, and of the pseudo header of RFC 793.
abbrev pub in_memory : ℕ → List ℕ
in_memory n = n % 2 ^ 8 ∷ n / 2 ^ 8 % 2 ^ 8 ∷ n / 2 ^ 16 % 2 ^ 8 ∷ n / 2 ^ 24 ∷ []

abbrev pub pseudo_header : (src dest proto proto_len : ℕ) → List ℕ
pseudo_header src dest proto proto_len =
    in_memory src ++ in_memory dest ++ 0 ∷ proto ∷ proto_len / 2 ^ 8 ∷ proto_len % 2 ^ 8 ∷ []

halves : (n : ℕ) → n < 2 ^ 32 → n % 2 ^ 16 + n / 2 ^ 16 % 2 ^ 16 ≡ words (in_memory n)
halves n l = omega arith

add_header-words :
    (acc src dest proto proto_len : ℕ)
    → acc < 2 ^ 16
    → src < 2 ^ 32
    → dest < 2 ^ 32
    → proto < 2 ^ 8
    → proto_len < 2 ^ 16
    → add_header acc src dest proto proto_len ≡ acc + words (pseudo_header src dest proto proto_len)
unfolding htons
add_header-words acc src dest proto proto_len la ls ld lp ll =
    let a : src % 2 ^ 16 + src / 2 ^ 16 % 2 ^ 16 ≡ words (in_memory src) = halves src ls in
    let b : dest % 2 ^ 16 + dest / 2 ^ 16 % 2 ^ 16 ≡ words (in_memory dest) = halves dest ld in
    omega arith

fold_twice : (a : ℕ) → a < 2 ^ 32 → fold (fold a) ≡ ones a
fold_twice a l = sym (ones_small (fold (fold a)) (omega arith)) ∙ ones-fold (fold a) ∙ ones-fold a

-- inet_chksum_pseudo of a chain is inet_chksum of the pseudo header of RFC 793 (source and
-- destination, zero, the protocol and the length in network order) followed by the bytes that the
-- chain holds. Both together have less than 2^16 bytes, and each is below 256.
pub inet_chksum_pseudo-inet_chksum :
    (h : Heap) (k : ℕ) (p : Ptr) (bs : Cells) (src dest proto proto_len : ℕ)
    → Chain h p bs
    → Inside bs
    → Octets (contents bs)
    → 12 + total bs < 2 ^ 16
    → length bs < k
    → src < 2 ^ 32
    → dest < 2 ^ 32
    → proto < 2 ^ 8
    → proto_len < 2 ^ 16
    → inet_chksum_pseudo k p src dest proto proto_len h
      ≡ ok (inet_chksum (pseudo_header src dest proto proto_len ++ contents bs)) h
unfolding inet_chksum_pseudo htons
inet_chksum_pseudo-inet_chksum h k p bs src dest proto proto_len c i o l fuel ls ld lp ll =
    let all = pseudo_header src dest proto proto_len ++ contents bs in
    let octets : Octets all = (
      omega arith,
      (
        omega arith,
        (
          omega arith,
          (
            omega arith,
            (
              omega arith,
              (
                omega arith,
                (omega arith, (omega arith, (omega arith, (lp, (omega arith, (omega arith, o)))))),
              ),
            ),
          ),
        ),
      ),
    ) in
    let w = words (contents bs) in
    let head = words (pseudo_header src dest proto proto_len) in
    let sum : add_header (ones (0 + w)) src dest proto proto_len ≡ ones (0 + w) + head =
      add_header-words (ones (0 + w)) src dest proto proto_len (ones-le (0 + w)) ls ld lp ll in
    let small : head < 2 ^ 19 = omega arith in
    let same : fold (fold (add_header (ones (0 + w)) src dest proto proto_len)) ≡ ones (words all) =
      fold_twice (add_header (ones (0 + w)) src dest proto proto_len)
        (omega (arith, ones-le (0 + w)))
      ∙ ap ones sum
      ∙ ones_add (0 + w) head
      ∙ ap ones (omega arith) in
    rw
      (
        chain_loop-ones h k p bs 0 false c i o (omega arith) fuel,
        standard_chksum-words all octets (omega (arith, length-contents bs)),
      )
      (ap (λ n. ok (invert n) h) same)

-- A checksum in memory: its two bytes, low one first.
abbrev pub with_checksum : List ℕ → ℕ → List ℕ → List ℕ
with_checksum xs sum ys = xs ++ sum % 2 ^ 8 ∷ sum / 2 ^ 8 ∷ ys

-- A receiver finds 0: once inet_chksum of a header or packet, taken with zeros in its checksum
-- field, is stored there, inet_chksum of the whole is 0. The field stands at an even offset, the
-- bytes are below 256, and there are less than 2^16 of them.
pub with_checksum-verifies :
    (xs ys : List ℕ)
    → Octets xs
    → Octets ys
    → length xs % 2 ≡ 0
    → length xs + (2 + length ys) < 2 ^ 16
    → inet_chksum (with_checksum xs (inet_chksum (with_checksum xs 0 ys)) ys) ≡ 0
with_checksum-verifies xs ys ox oy even l =
    let z : odd (length xs) ≡ false = ground arith in
    let a = words (with_checksum xs 0 ys) in
    let c = invert (ones a) in
    let b = ones-le a in
    let m = ones-mod a in
    let here : (s : ℕ)
        → words (with_checksum xs s ys) ≡ words xs + (s % 2 ^ 8 + (256 * (s / 2 ^ 8) + words ys)) =
      λ s. rw (sum_from_append false xs (s % 2 ^ 8 ∷ s / 2 ^ 8 ∷ ys), z) refl in
    let sum : words (with_checksum xs c ys) ≡ a + c = omega (arith, here 0, here c) in
    let full : ones (a + c) ≡ 65535 =
      ones_cong (a + c) 65535 (omega arith) (λ e. let za = zero-ones a (omega arith) in omega arith)
        (λ e. absurd (omega arith)) in
    let octets : (s : ℕ) → s < 2 ^ 16 → Octets (with_checksum xs s ys) =
      λ s ls. Octets-join xs (s % 2 ^ 8 ∷ s / 2 ^ 8 ∷ ys) ox (omega arith, (omega arith, oy)) in
    let short : (s : ℕ) → length (with_checksum xs s ys) < 2 ^ 16 =
      λ s. omega (arith, length-append xs (s % 2 ^ 8 ∷ s / 2 ^ 8 ∷ ys)) in
    rw
      (
        standard_chksum-words (with_checksum xs 0 ys) (octets 0 (omega arith)) (short 0),
        standard_chksum-words (with_checksum xs c ys) (octets c (omega arith)) (short c),
        sum,
        full,
      )
      refl
