-- ===== src/Base/Split.antt =====
-- Where `take` and `drop` cut a list twice.
use Prim.Native.Nat.{ℕ, zero, suc, ◌+◌, ◌-◌, ◌≤◌}
use mathlib.Core.Path.{◌≡◌, refl, sym, ap, ◌∙◌}
use mathlib.Core.List.{List, [], ◌∷◌, ◌++◌}
use native.Mathlib.Omega.{arith}
use ocaml_lwip.Base.Lists.{length, take, drop}

abbrev nil : List ℕ
nil = []

drop-nil : (n : ℕ) → drop n nil ≡ nil
drop-nil zero = refl
drop-nil (suc n) = refl

take-nil : (n : ℕ) → take n nil ≡ nil
take-nil zero = refl
take-nil (suc n) = refl

pub drop-drop : (n c : ℕ) (src : List ℕ) → drop n (drop c src) ≡ drop (c + n) src
drop-drop n zero src = ap (λ (m : ℕ). drop m src) (omega arith)
drop-drop n (suc c) [] = drop-nil n ∙ sym (drop-nil (suc c + n))
drop-drop n (suc c) (x ∷ src) =
    let z : suc c + n ≡ suc (c + n) = omega arith in rw z (drop-drop n c src)

pub take_split : (n t : ℕ) (ys : List ℕ) → n ≤ t → take n ys ++ take (t - n) (drop n ys) ≡ take t ys
take_split zero t ys l = ap (λ (m : ℕ). take m ys) (omega arith)
take_split (suc n) zero ys l = absurd (omega arith)
take_split (suc n) (suc t) [] l = take-nil (suc t - suc n)
take_split (suc n) (suc t) (y ∷ ys) l =
    ap (λ zs. y ∷ zs)
      (ap (λ (m : ℕ). take n ys ++ take m (drop n ys)) (omega arith)
        ∙ take_split n t ys (omega arith))

pub drop_all : (n : ℕ) (ys : List ℕ) → length ys ≤ n → drop n ys ≡ []
drop_all zero [] l = refl
drop_all zero (y ∷ ys) l = absurd (omega arith)
drop_all (suc n) [] l = refl
drop_all (suc n) (y ∷ ys) l = drop_all n ys (omega arith)
