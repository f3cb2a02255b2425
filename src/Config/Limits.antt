-- ===== src/Config/Limits.antt =====
-- The limits that a configuration keeps.
use ice_core.Base.{
  ℕ, ◌≡◌, Option, none, some, Text, arith, ◌≤◌, ◌*◌, Option-cases, inl, inr, text_eq, codes,
}
use mathlib.Core.Path.{subst}
use ice_core.Base.Int.{ℤ, pos, negsuc, to_uint64, to_int64, ◌<ℤ◌, ◌≤ℤ◌}
use ice_core.Base.Decimal.{parse_int64}
use ice_core.Base.Dict.{Dict}
use ice_core.Config.{seconds, positive_or, timeout_of, from_env, getenv, second}

positive_or_positive :
    (fallback : ℤ) (v : Text) → pos 0 <ℤ fallback → pos 0 <ℤ positive_or fallback v
unfolding positive_or
positive_or_positive fallback v h = elim (Option-cases (parse_int64 v)) [
  | inl bad ↦ ground (arith, bad, h)
  | inr (n, good) ↦ ground (arith, good, h)
]

-- A number of seconds up to 9223372036 is a positive duration.
pub seconds_small : (n : ℕ) → n ≤ 9223372036 → seconds (pos n) ≡ pos (n * second)
unfolding seconds to_uint64 to_int64
seconds_small n h = ground arith

-- The value that a text gives, if it gives one, is at most so much.
abbrev pub AtMost : ℤ → Option ℤ → Type 0
AtMost m none = Unit
AtMost m (some n) = n ≤ℤ m

timeout_of_positive :
    (fallback : ℤ) (v : Text)
    → AtMost (pos 9223372036) (parse_int64 v)
    → pos 0 <ℤ fallback
    → pos 0 <ℤ timeout_of fallback v
unfolding timeout_of
timeout_of_positive fallback v k h = elim (Option-cases (parse_int64 v)) [
  | inl bad ↦ ground (arith, bad, h)
  | inr (pos n, good) ↦
      ground
        (arith, good, h, seconds_small n (omega (arith, subst (AtMost (pos 9223372036)) good k)))
  | inr (negsuc n, good) ↦ ground (arith, good, h)
]

-- Whatever the environment, the capacity of the cache and the size of the pool are positive, and so is
-- the timeout of transactions if TXN_TIMEOUT_SEC is no number or one up to 9223372036.
pub from_env-limits :
    (env : Dict Text Text)
    → AtMost (pos 9223372036) (parse_int64 (getenv (codes "TXN_TIMEOUT_SEC") env))
    → (pos 0 <ℤ (from_env env).cache_capacity)
      × (pos 0 <ℤ (from_env env).pool_size)
      × (pos 0 <ℤ (from_env env).txn_timeout)
unfolding from_env seconds to_uint64 to_int64
from_env-limits env h = (
  positive_or_positive _ _ (omega arith),
  positive_or_positive _ _ (omega arith),
  timeout_of_positive _ _ h (ground arith),
)
