-- ===== src/Mem/Sync.antt =====
-- The two views of `ram` in the model of lwip/src/core/mem.c are of the same bytes.
use ocaml_lwip.Base.{
  ℕ, ◌+◌, ◌≡◌, ◌||◌, refl, ◌∙◌, Bool, true, false, arith, ◌==◌, leb, sym, ==→eq, ◌/◌, ◌%◌, ◌<◌,
  if◌then◌else◌, subst,
}
use ocaml_lwip.Mem.{Heap, Block, write, image, decode, negb}

-- A cell is what the bytes at its offset say.
abbrev pub InSync : Heap → Type 0
InSync h = (o : ℕ) → h.cells o ≡ decode h.bytes o

Block_eq : (x y : Block) → x.next ≡ y.next → x.prev ≡ y.prev → x.used ≡ y.used → x ≡ y
Block_eq x y p q r i = record { next = p i; prev = q i; used = r i }

flag : (u : Bool) → negb ((if u then 1 else 0) == 0) ≡ u
flag true = refl
flag false = refl

own : (o : ℕ) (b : Block) (m : ℕ → ℕ) → decode (image o b m) o ≡ b
own o b m =
    let one : image o b m o ≡ b.next % 256 = ground arith in
    let two : image o b m (o + 1) ≡ b.next / 256 = ground arith in
    let three : image o b m (o + 2) ≡ b.prev % 256 = ground arith in
    let four : image o b m (o + 3) ≡ b.prev / 256 = ground arith in
    let five : image o b m (o + 4) ≡ (if b.used then 1 else 0) = ground arith in
    Block_eq (decode (image o b m) o) b (rw (one, two) (omega arith))
      (rw (three, four) (omega arith)) (rw five (flag b.used))

apart :
    (o : ℕ) (b : Block) (m : ℕ → ℕ) (a : ℕ)
    → (leb (a + 5) o || leb (o + 5) a) ≡ true
    → decode (image o b m) a ≡ decode m a
apart o b m a h =
    let each : (k : ℕ) → k < 5 → image o b m (a + k) ≡ m (a + k) = λ k l. ground (arith, h, l) in
    let zero_off : a + 0 ≡ a = omega arith in
    let first : image o b m a ≡ m a =
      subst (λ (n : ℕ). image o b m n ≡ m n) zero_off (each 0 (omega arith)) in
    rw
      (
        first,
        each 1 (omega arith),
        each 2 (omega arith),
        each 3 (omega arith),
        each 4 (omega arith),
      )
      refl

agree :
    (t f : Bool) (b c d : Block)
    → (t ≡ true → b ≡ d)
    → (f ≡ true → c ≡ d)
    → (if t then b else if f then c else d) ≡ d
agree true f b c d p q = p refl
agree false true b c d p q = q refl
agree false false b c d p q = refl

-- A write to a struct mem keeps the two views of `ram` in step.
pub write-InSync : (o : ℕ) (b : Block) (h : Heap) → InSync h → InSync (write o b h)
unfolding write
write-InSync o b h s a =
    let ram : ℕ → ℕ = image o b h.bytes in
    agree (a == o) (leb (a + 5) o || leb (o + 5) a) b (h.cells a) (decode ram a)
      (λ y. subst (λ n. b ≡ decode ram n) (sym (==→eq a o y)) (sym (own o b h.bytes)))
      (λ far. s a ∙ sym (apart o b h.bytes a far))
