-- ===== src/Base/Digits.antt =====
-- The decimal digits of a number: they read back as the number, and none of them is a colon.
use Prim.Native.Nat.{ℕ, zero, suc, ◌+◌, ◌/◌, ◌%◌, ◌^◌, ◌≤◌, ◌<◌}
use mathlib.Core.Path.{◌≡◌, refl, sym, ap, ◌∙◌}
use mathlib.Core.Logic.{◌≢◌, inl, inr}
use mathlib.Core.Bool.{true}
use mathlib.Core.List.{[], ◌∷◌, ◌++◌}
use mathlib.Core.Option.{some}
use native.Mathlib.Omega.{arith}
use ice_core.Base.Tests.{ltb, Bool-cases, nat_eq}
use ice_core.Base.Lists.{All}
use ice_core.Base.Bytes.{Text}
use ice_core.Base.Int.{ℤ, pos, negsuc, pos_part, neg_part}
use ice_core.Base.Decimal.{
  format_from, format_uint, format_int, digits_value, parse_digits, parse_int64, is_digit,
}

digits_value-format_from :
    (fuel n : ℕ) (acc : Text)
    → n < fuel
    → digits_value 0 (format_from fuel n acc) ≡ digits_value n acc
unfolding digits_value format_from
digits_value-format_from zero n acc h = ground arith
digits_value-format_from (suc fuel) n acc h =
    ground (arith, digits_value-format_from fuel (n / 10) ((48 + n % 10) ∷ acc))

no_colon_from :
    (fuel n : ℕ) (acc : Text)
    → All (λ c. c ≢ b':') acc
    → All (λ c. c ≢ b':') (format_from fuel n acc)
unfolding format_from
no_colon_from zero n acc h = h
no_colon_from (suc fuel) n acc h = ground (arith, no_colon_from fuel (n / 10) ((48 + n % 10) ∷ acc))

pub digits_value-format_uint : (n : ℕ) → digits_value 0 (format_uint n) ≡ some n
unfolding format_uint digits_value
digits_value-format_uint n = digits_value-format_from (suc n) n [] (omega arith)

pub format_uint_injective : (m n : ℕ) → format_uint m ≡ format_uint n → m ≡ n
format_uint_injective m n e =
    cc (sym (digits_value-format_uint m) ∙ ap (digits_value 0) e ∙ digits_value-format_uint n)

colon_within : (t d e : Text) → All (λ c. c ≢ b':') d → d ≢ t ++ b':' ∷ e
colon_within [] [] e p h = cc h
colon_within [] (c ∷ d) e p h = p.0 (ground (arith, h))
colon_within (k ∷ t) [] e p h = cc h
colon_within (k ∷ t) (c ∷ d) e p h = colon_within t d e p.1 (ground (arith, h))

-- Two texts that end in a colon and digits are equal only if both parts are.
pub split_at_colon :
    (s t d e : Text)
    → All (λ c. c ≢ b':') d
    → All (λ c. c ≢ b':') e
    → s ++ b':' ∷ d ≡ t ++ b':' ∷ e
    → (s ≡ t) × (d ≡ e)
split_at_colon [] [] d e p q h = (refl, ground (arith, h))
split_at_colon [] (c ∷ t) d e p q h = absurd (colon_within t d e p (ground (arith, h)))
split_at_colon (c ∷ s) [] d e p q h = absurd (colon_within s e d q (sym (ground (arith, h))))
split_at_colon (c ∷ s) (k ∷ t) d e p q h =
    let tails = split_at_colon s t d e p q (ground (arith, h)) in
    (ground (arith, h, tails.0), tails.1)

pub no_colon : (n : ℕ) → All (λ c. c ≢ b':') (format_uint n)
unfolding format_uint
no_colon n = no_colon_from (suc n) n [] tt

-- A number is printed as digits, one at least and none of them a sign.
starts_with_digit :
    (fuel n : ℕ) (acc : Text)
    → n < fuel
    → (c : ℕ) × (cs : Text) × (format_from fuel n acc ≡ c ∷ cs) × (is_digit c ≡ true)
unfolding format_from
starts_with_digit zero n acc h = absurd (omega arith)
starts_with_digit (suc fuel) n acc h = elim (Bool-cases (ltb n 10)) [
  | inl small ↦ (48 + n, acc, rw small refl, ground arith)
  | inr big ↦ rw big (starts_with_digit fuel (n / 10) _ (ground arith))
]

-- `strconv.ParseInt` reads back what `strconv.FormatInt` prints of every `int64`.
pub parse_int64-format_int :
    (z : ℤ) → neg_part z ≤ 2 ^ 63 → pos_part z < 2 ^ 63 → parse_int64 (format_int z) ≡ some z
unfolding parse_int64 format_int parse_digits format_uint
parse_int64-format_int (pos n) h k =
    let (c, cs, e, digit) = starts_with_digit (suc n) n [] (omega arith) in
    ground (arith, e, digit, digits_value-format_from (suc n) n [] (omega arith))
parse_int64-format_int (negsuc n) h k =
    let (c, cs, e, digit) = starts_with_digit (suc (suc n)) (suc n) [] (omega arith) in
    ground (arith, e, digits_value-format_from (suc (suc n)) (suc n) [] (omega arith))
