-- ===== src/Mem/Plug.antt =====
-- plug_holes of lwip/src/core/mem.c, at a block that has become free.
use ocaml_lwip.Base.{
  ℕ, ◌+◌, ◌≤◌, ◌≡◌, refl, true, false, [], ◌∷◌, arith, ◌==◌, ne→==, if◌then◌else◌,
}
use ocaml_lwip.Mem.{Heap, mem_size, plug_forward, plug_backward, fuse}
use ocaml_lwip.Mem.Parts.{Part, Parts, total}
use ocaml_lwip.Mem.Zip.{Zip, After-le, prev_of, head}

-- The blocks behind, once the first has been joined if it is free.
abbrev pub absorb : Part → Parts → Parts
absorb r [] = r ∷ []
absorb r (s ∷ rs) =
    if s.used then r ∷ s ∷ rs else record { size = r.size + s.size; used = r.used } ∷ rs

pub forward_none :
    (h : Heap) (ls : Parts) (r : Part) (rs : Parts)
    → Zip h.cells ls (r ∷ rs)
    → (h.cells (total ls + r.size)).used ≡ true
    → plug_forward (total ls) h ≡ h
unfolding plug_forward
forward_none h ls r rs z u =
    let here : h.cells (total ls) ≡ head (total ls) (prev_of ls) r = z.after.0 in
    let more : (total ls == total ls + r.size) ≡ false =
      ne→== (total ls) (total ls + r.size) (λ e. omega (arith, z.after.1)) in
    rw (here, more, u) refl

pub forward_fuses :
    (h : Heap) (ls : Parts) (r s : Part) (rs : Parts)
    → Zip h.cells ls (r ∷ s ∷ rs)
    → h.lfree ≤ total ls
    → s.used ≡ false
    → plug_forward (total ls) h ≡ fuse (total ls) (total ls + r.size + s.size) h
unfolding plug_forward
forward_fuses h ls r s rs z low u =
    let o : ℕ = total ls in
    let n : ℕ = total ls + r.size in
    let here : h.cells o ≡ head o (prev_of ls) r = z.after.0 in
    let there : h.cells n ≡ head n o s = z.after.2.0 in
    let le : n + s.size ≤ mem_size = After-le h.cells (n + s.size) n rs z.after.2.2 in
    let more : (o == n) ≡ false = ne→== o n (λ e. omega (arith, z.after.1)) in
    let inner : (n == mem_size) ≡ false = ne→== n mem_size (λ e. omega (arith, z.after.2.1)) in
    let above : (h.lfree == n) ≡ false = ne→== h.lfree n (λ e. omega (arith, z.after.1)) in
    rw (here, there, u, more, inner, above) refl

pub backward_first :
    (h : Heap) (r : Part) (rs : Parts) → Zip h.cells [] (r ∷ rs) → plug_backward 0 h ≡ h
unfolding plug_backward
backward_first h r rs z = let here : h.cells 0 ≡ head 0 0 r = z.after.0 in rw here refl

pub backward_none :
    (h : Heap) (l : Part) (ls : Parts) (r : Part) (rs : Parts)
    → Zip h.cells (l ∷ ls) (r ∷ rs)
    → l.used ≡ true
    → plug_backward (total ls + l.size) h ≡ h
unfolding plug_backward
backward_none h l ls r rs z u =
    let here : h.cells (total ls + l.size) ≡ head (total ls + l.size) (total ls) r = z.after.0 in
    let there : h.cells (total ls) ≡ head (total ls) (prev_of ls) l = z.before.0 in
    let more : (total ls == total ls + l.size) ≡ false =
      ne→== (total ls) (total ls + l.size) (λ e. omega (arith, z.before.1)) in
    rw (here, there, u, more) refl

pub backward_fuses :
    (h : Heap) (l : Part) (ls : Parts) (r : Part) (rs : Parts)
    → Zip h.cells (l ∷ ls) (r ∷ rs)
    → h.lfree ≤ total ls
    → l.used ≡ false
    → plug_backward (total ls + l.size) h ≡ fuse (total ls) (total ls + l.size + r.size) h
unfolding plug_backward
backward_fuses h l ls r rs z low u =
    let n : ℕ = total ls + l.size in
    let here : h.cells n ≡ head n (total ls) r = z.after.0 in
    let there : h.cells (total ls) ≡ head (total ls) (prev_of ls) l = z.before.0 in
    let more : (total ls == n) ≡ false = ne→== (total ls) n (λ e. omega (arith, z.before.1)) in
    let above : (h.lfree == n) ≡ false = ne→== h.lfree n (λ e. omega (arith, z.before.1)) in
    rw (here, there, u, more, above) refl
