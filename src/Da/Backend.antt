-- ===== src/Da/Backend.antt =====
-- `make_da` of `common/src/engram_common/da.py`: which of the two layers a program gets.
use he_thong_chung_minh_luu.Prelude.{
  Option, Result, [], da_error, eqb, err, if◌then◌else◌, inl, inr, none, ok, some, ◌∷◌, ◌⊎◌,
}
use he_thong_chung_minh_luu.Bytes.{Bytes, bytes_eq, codes}
use he_thong_chung_minh_luu.Da.{MemoryDa, fresh_da}
use he_thong_chung_minh_luu.Da.Address.{lower, strip}
use he_thong_chung_minh_luu.Da.Celestia.{CelestiaDa, env_or}

-- `kind or os.environ.get("ENGRAM_DA", "memory")`
unfoldable pub kind_or_env : Option Bytes → Option Bytes → Bytes
kind_or_env none engram_da = env_or (codes "memory") engram_da
kind_or_env (some []) engram_da = env_or (codes "memory") engram_da
kind_or_env (some (b ∷ bs)) engram_da = b ∷ bs

-- `make_da`, for the argument and the variable `ENGRAM_DA` where they are given.
unfoldable pub make_da : Option Bytes → Option Bytes → Result (MemoryDa ⊎ CelestiaDa)
unfolding kind_or_env
make_da kind engram_da =
    let name : Bytes = lower (strip (kind_or_env kind engram_da)) in
    if eqb name (codes "memory")
    then ok (inl fresh_da)
    else (if eqb name (codes "celestia") then ok (inr (record { addr = none })) else err da_error)
