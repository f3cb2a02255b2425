-- ===== src/Config.antt =====
-- internal/config/config.go: the configuration from the environment. The environment is a map of the
-- variables that are set.
pub mod Limits
mod Tests
use ice_core.Base.{
  ℕ, Bool, true, false, ◌||◌, none, some, [], ◌∷◌, ◌++◌, ◌==◌, text_eq, ◌*◌, ◌%◌, ◌^◌,
  if◌then◌else◌, Text, codes,
}
use ice_core.Base.Int.{ℤ, pos, ltb_ℤ, to_uint64, to_int64}
use ice_core.Base.Decimal.{parse_int64}
use ice_core.Base.Dict.{Dict, lookup}

-- A duration is its number of nanoseconds.
pub record Config : Type 0 where
  pub pg_conn_string : Text
  pub grpc_address : Text
  pub cache_capacity : ℤ
  pub pool_size : ℤ
  pub txn_timeout : ℤ
  pub disable_cache : Bool

abbrev pub second : ℕ
second = 1000000000

-- `time.Duration(n) * time.Second`: the product wraps as that of `int64` does.
unfoldable pub seconds : ℤ → ℤ
seconds n = to_int64 (to_uint64 n * second % 2 ^ 64)

abbrev pub defaults : Config
defaults = record {
  pg_conn_string =
      codes "host=localhost port=5432 dbname=metadata user=metadata_user password=metadata_pass";
  grpc_address = codes "0.0.0.0:50051";
  cache_capacity = pos 10000;
  pool_size = pos 20;
  txn_timeout = seconds (pos 300);
  disable_cache = false;
}

-- `os.Getenv`: empty where the variable is not set.
unfoldable pub getenv : Text → Dict Text Text → Text
getenv name env = elim (lookup name env) [ none ↦ [] | some v ↦ v ]

-- `if v != "" { if n, err := strconv.Atoi(v); err == nil && n > 0 { … } }`
unfoldable pub positive_or : ℤ → Text → ℤ
positive_or fallback v = elim (parse_int64 v) [
  | none ↦ fallback
  | some n ↦ if ltb_ℤ (pos 0) n then n else fallback
]

abbrev pub non_empty_or : Text → Text → Text
non_empty_or fallback v = if v == [] then fallback else v

-- `GRPC_PORT` goes before `GRPC_ADDRESS`.
abbrev pub address_of : Text → Text → Text → Text
address_of fallback port address =
    if port == [] then non_empty_or fallback address else codes "0.0.0.0:" ++ port

unfoldable pub disable_of : Bool → Text → Bool
disable_of fallback v =
    if v == [] then fallback else v == codes "true" || v == codes "1" || v == codes "TRUE"

unfoldable pub timeout_of : ℤ → Text → ℤ
timeout_of fallback v = elim (parse_int64 v) [
  | none ↦ fallback
  | some n ↦ if ltb_ℤ (pos 0) n then seconds n else fallback
]

unfoldable pub from_env : Dict Text Text → Config
from_env env = record {
  pg_conn_string = non_empty_or defaults.pg_conn_string (getenv (codes "PG_CONN_STRING") env);
  grpc_address =
      address_of defaults.grpc_address (getenv (codes "GRPC_PORT") env)
        (getenv (codes "GRPC_ADDRESS") env);
  cache_capacity = positive_or defaults.cache_capacity (getenv (codes "CACHE_CAPACITY") env);
  pool_size = positive_or defaults.pool_size (getenv (codes "POOL_SIZE") env);
  txn_timeout = timeout_of defaults.txn_timeout (getenv (codes "TXN_TIMEOUT_SEC") env);
  disable_cache = disable_of defaults.disable_cache (getenv (codes "DISABLE_CACHE") env);
}
