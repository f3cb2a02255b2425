-- ===== src/Config/Tests.antt =====
-- Configurations that `FromEnv` reads.
use ice_core.Base.{◌≡◌, refl, true, [], ◌∷◌, Text, codes, arith}
use ice_core.Base.Int.{pos, ltb_ℤ, to_int64, to_uint64, ◌<ℤ◌}
use ice_core.Base.Dict.{Dict, lookup}
use ice_core.Base.Decimal.{parse_int64}
use ice_core.Config.{from_env, getenv, positive_or, timeout_of, seconds}
use ice_core.Config.Limits.{from_env-limits}

abbrev deployed : Dict Text Text
deployed =
    (codes "TXN_TIMEOUT_SEC", codes "60")
    ∷ (codes "POOL_SIZE", codes "-3")
    ∷ (codes "GRPC_PORT", codes "8080")
    ∷ []

abbrev oversized : Dict Text Text
oversized = (codes "TXN_TIMEOUT_SEC", codes "9223372037") ∷ []

deployed_pool : (from_env deployed).pool_size ≡ pos 20
unfolding from_env positive_or parse_int64 getenv lookup
deployed_pool = refl

deployed_address : (from_env deployed).grpc_address ≡ codes "0.0.0.0:8080"
unfolding from_env getenv lookup
deployed_address = refl

deployed_timeout : (from_env deployed).txn_timeout ≡ pos 60000000000
unfolding from_env timeout_of parse_int64 getenv lookup seconds to_int64 to_uint64
deployed_timeout = refl

-- A timeout of 9223372037 seconds is one below zero.
oversized_timeout : ltb_ℤ (from_env oversized).txn_timeout (pos 0) ≡ true
unfolding from_env timeout_of parse_int64 getenv lookup seconds to_int64 to_uint64
oversized_timeout = refl

from_env-limits_example :
    (pos 0 <ℤ (from_env deployed).cache_capacity)
    × (pos 0 <ℤ (from_env deployed).pool_size)
    × (pos 0 <ℤ (from_env deployed).txn_timeout)
unfolding parse_int64 getenv lookup
from_env-limits_example = from_env-limits deployed (omega arith)
