-- ===== src/Base/Decimal.antt =====
-- strconv at base 10: `FormatUint`, `FormatInt` and `ParseInt`.
use Prim.Native.Nat.{ℕ, zero, suc, ◌+◌, ◌-◌, ◌*◌, ◌/◌, ◌%◌, ◌^◌}
use mathlib.Core.Bool.{Bool, ◌&&◌}
use mathlib.Core.List.{[], ◌∷◌}
use mathlib.Core.Option.{Option, none, some}
use ice_core.Base.Tests.{ltb, leb, if◌then◌else◌, ◌==◌, nat_eq}
use ice_core.Base.Bytes.{Text}
use ice_core.Base.Int.{ℤ, pos, negsuc}

-- The digits of n before `acc`; the fuel bounds their number.
unfoldable pub format_from : ℕ → ℕ → Text → Text
format_from zero n acc = acc
format_from (suc fuel) n acc =
    let rest = format_from fuel (n / 10) ((b'0' + n % 10) ∷ acc) in
    if ltb n 10 then (b'0' + n) ∷ acc else rest

unfoldable pub format_uint : ℕ → Text
unfolding format_from
format_uint n = format_from (suc n) n []

unfoldable pub format_int : ℤ → Text
format_int (pos n) = format_uint n
format_int (negsuc n) = b'-' ∷ format_uint (suc n)

abbrev pub is_digit : ℕ → Bool
is_digit c = leb b'0' c && leb c b'9'

-- The value of the digits after `acc`; none at a byte that is no digit.
unfoldable pub digits_value : ℕ → Text → Option ℕ
digits_value acc [] = some acc
digits_value acc (c ∷ cs) =
    let rest = digits_value (acc * 10 + (c - b'0')) cs in if is_digit c then rest else none

unfoldable pub parse_digits : Text → Option ℕ
parse_digits [] = none
parse_digits (c ∷ cs) = digits_value 0 (c ∷ cs)

abbrev pub in_range : Option ℕ → Option ℤ
in_range none = none
in_range (some n) = if ltb n (2 ^ 63) then some (pos n) else none

abbrev pub negated : Option ℕ → Option ℤ
negated none = none
negated (some zero) = some (pos 0)
negated (some (suc n)) = if ltb n (2 ^ 63) then some (negsuc n) else none

-- `strconv.ParseInt(s, 10, 64)`; none is its error.
unfoldable pub parse_int64 : Text → Option ℤ
unfolding parse_digits digits_value
parse_int64 [] = none
parse_int64 (c ∷ cs) =
    if c == b'-'
    then negated (parse_digits cs)
    else if c == b'+'
    then in_range (parse_digits cs)
    else in_range (parse_digits (c ∷ cs))
