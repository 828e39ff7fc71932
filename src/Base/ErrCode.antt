-- ===== src/Base/ErrCode.antt =====
-- err_t of lwip/src/include/lwip/err.h.
use mathlib.Core.Bool.{Bool, true, false}
use Prim.Native.Nat.{ℕ}

-- Any code but ERR_OK is `err_code` with its number, negated.
pub data Err : Type 0 where
  err_ok : Err
  err_code : ℕ → Err

abbrev pub is_ok : Err → Bool
is_ok err_ok = true
is_ok (err_code _) = false
