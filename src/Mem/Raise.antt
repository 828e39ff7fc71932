-- ===== src/Mem/Raise.antt =====
-- How mem_malloc of lwip/src/core/mem.c moves `lfree` to the next free block.
use ocaml_lwip.Base.{
  ℕ, zero, suc, ◌+◌, ◌<◌, ◌≤◌, ◌≡◌, refl, ap, sym, ◌∙◌, Bool, true, false, [], ◌∷◌, arith,
  Bool-cases, inl, inr, if◌then◌else◌, ◌||◌, ◌==◌, ne→==, length, ok,
}
use ocaml_lwip.Mem.{Heap, Block, mem_size, skip_used, raise_lfree, set_lfree, negb}
use ocaml_lwip.Mem.Parts.{
  Parts, total, first_free, lowest, lowest-cases, lowest-le, onto, first_free-onto,
}
use ocaml_lwip.Mem.Zip.{Cells, Before, After, Zip, After-le, head, step_in, prev_of}

pub After-length : (c : Cells) (o p : ℕ) (rs : Parts) → After c o p rs → length rs + o ≤ mem_size
After-length c o p [] a = omega arith
After-length c o p (r ∷ rs) a = omega (arith, After-length c (o + r.size) o rs a.2)

or_true : (b : Bool) → (b || true) ≡ true
or_true true = refl
or_true false = refl

-- Where `lfree` points there is a free block, or the end of the heap.
pub first_free-unused :
    (c : Cells) (o p : ℕ) (rs : Parts)
    → After c o p rs
    → ((first_free o rs == mem_size) || negb (c (first_free o rs)).used) ≡ true
first_free-unused c o p [] a = let end : (o == mem_size) ≡ true = ground arith in rw end refl
first_free-unused c o p (r ∷ rs) a = elim (Bool-cases r.used) [
  | inl u ↦ rw u (first_free-unused c (o + r.size) o rs a.2)
  | inr u ↦
      let free : (c o).used ≡ false = ap (λ (b : Block). b.used) a.0 ∙ u in
      rw (u, free) (or_true (o == mem_size))
]

-- The loop ends at the lowest free block from where it starts.
pub skip_used-eq :
    (fuel : ℕ) (h : Heap) (ls rs : Parts)
    → Zip h.cells ls rs
    → length rs < fuel
    → h.lfree ≡ total ls
    → skip_used fuel h ≡ ok tt (set_lfree (first_free (total ls) rs) h)
unfolding skip_used set_lfree
skip_used-eq zero h ls rs z f low = absurd (omega arith)
skip_used-eq (suc fuel) h ls [] z f low =
    let stop : h.lfree ≡ mem_size = low ∙ z.after in
    let used : (h.cells h.lfree).used ≡ true = ap (λ (o : ℕ). (h.cells o).used) stop ∙ z.end.0 in
    let end : (h.lfree == mem_size) ≡ true = ground arith in rw (used, end, ← low) refl
skip_used-eq (suc fuel) h ls (r ∷ rs) z f low =
    let le : total ls + r.size ≤ mem_size =
      After-le h.cells (total ls + r.size) (total ls) rs z.after.2 in
    let here : h.cells h.lfree ≡ head (total ls) (prev_of ls) r = ap h.cells low ∙ z.after.0 in
    elim (Bool-cases r.used) [
      | inl u ↦
          let more : (h.lfree == mem_size) ≡ false =
            ne→== h.lfree mem_size (λ e. omega (arith, z.after.1)) in
          rw (here, u, more)
            (skip_used-eq fuel (set_lfree (total ls + r.size) h) (r ∷ ls) rs
              (step_in h.cells r ls rs z) (omega arith) refl)
      | inr u ↦ rw (here, u, ← low) refl
    ]

-- A block that the lowest one does not depend on lies behind it.
lowest-lt :
    (c : Cells) (ls : Parts) (x : ℕ) → Before c ls → ((d : ℕ) → lowest ls d ≡ x) → x < total ls
lowest-lt c [] x b s = absurd (omega (arith, s 0, s 1))
lowest-lt c (l ∷ ls) x b s = elim (Bool-cases l.used) [
  | inl u ↦
      let rest : x < total ls =
        lowest-lt c ls x b.2
          (λ d. ap (λ (t : Bool). lowest ls (if t then d else total ls)) (sym u) ∙ s d) in
      omega (arith, b.1)
  | inr u ↦
      let here : lowest ls (total ls) ≡ x =
        ap (λ (t : Bool). lowest ls (if t then 0 else total ls)) (sym u) ∙ s 0 in
      omega (arith, b.1, lowest-le ls)
]

-- `lfree` is right again once a block has been marked.
pub raise_lfree-eq :
    (h : Heap) (ls rs : Parts)
    → Zip h.cells ls rs
    → h.lfree ≡ lowest ls (total ls)
    → raise_lfree (total ls) h ≡ ok tt (set_lfree (first_free 0 (onto ls rs)) h)
unfolding raise_lfree set_lfree
raise_lfree-eq h ls rs z low = elim (lowest-cases ls) [
  | inl all ↦
      let at : h.lfree ≡ total ls = low ∙ all (total ls) in
      let here : (total ls == h.lfree) ≡ true = ground arith in
      let goal : first_free 0 (onto ls rs) ≡ first_free (total ls) rs =
        first_free-onto ls rs ∙ all (first_free (total ls) rs) in
      rw
        (
          here,
          skip_used-eq (suc mem_size) h ls rs z
              (omega (arith, After-length h.cells (total ls) (prev_of ls) rs z.after)) at,
          goal,
          first_free-unused h.cells (total ls) (prev_of ls) rs z.after,
        )
        refl
  | inr (x, le, same) ↦
      let at : h.lfree ≡ x = low ∙ same (total ls) in
      let under : x < total ls = lowest-lt h.cells ls x z.before same in
      let away : (total ls == h.lfree) ≡ false = ne→== (total ls) h.lfree (λ e. omega arith) in
      let goal : first_free 0 (onto ls rs) ≡ h.lfree =
        first_free-onto ls rs ∙ same (first_free (total ls) rs) ∙ sym at in
      rw (away, goal) refl
]
