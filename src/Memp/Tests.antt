-- ===== src/Memp/Tests.antt =====
-- Runs of lwip/src/core/memp.c, and its theorems at a small table of pools.
use ocaml_lwip.Base.{◌≡◌, refl, List, [], ◌∷◌, Run, ok}
use ocaml_lwip.Memp.{Pool, init, carve, malloc}
use ocaml_lwip.Memp.Carve.{Laid, init-Laid}

abbrev pools : List Pool
pools = record { num = 2; size = 40 } ∷ record { num = 3; size = 16 } ∷ []

init_run : init pools 1000 ≡ (1040 ∷ 1000 ∷ []) ∷ (1112 ∷ 1096 ∷ 1080 ∷ []) ∷ []
unfolding init carve
init_run = refl

empty_pool : malloc 0 ([] ∷ []) ≡ ok 0 ([] ∷ [])
unfolding malloc
empty_pool = refl

bad_type : malloc 1 ([] ∷ []) ≡ Run.abort
unfolding malloc
bad_type = refl

init-Laid_example : Laid pools 1000 (init pools 1000)
init-Laid_example = init-Laid pools 1000
