-- ===== src/Money/RoundTrip.antt =====
-- What `ParseCreditsFromUSD` makes of the texts of `FormatCreditsUSD`, and of amounts past an
-- int64.
use arkfile.Base.{
  ℕ, suc, ◌+◌, ◌*◌, ◌/◌, ◌%◌, ◌^◌, ◌≤◌, ◌<◌, ◌≡◌, ◌≢◌, refl, Bool, true, false, List, ◌∷◌, ◌++◌,
  all, arith, ◌==◌, if◌then◌else◌,
}
use arkfile.Base.Int.{ℤ, pos, negsuc, wrap64, neg64, abs}
use arkfile.Money.{
  ok, is_digit, value_from, microcents, parse_amount, parse_credits_from_usd, decimal, four_digits,
  format_abs, format_credits_usd,
}
use arkfile.Money.Digits.{
  value-decimal_fuel, all-append, all_digits-decimal_fuel, split_dot-digits, not_space,
  trim_space_id, digits-not_space, dollars_of-value, is_empty-append,
}

four_digits_digits : (n : ℕ) → n < 10000 → all is_digit (four_digits n) ≡ true
four_digits_digits n h = ground arith

four_digits_value : (n : ℕ) → n < 10000 → value_from 0 (four_digits n) ≡ n
four_digits_value n h = omega arith

-- The amount of a text of digits, a dot and four digits.
parse_amount-text :
    (negative : Bool) (dollars : List ℕ) (n : ℕ)
    → all is_digit dollars ≡ true
    → value_from 0 dollars < 2 ^ 63
    → n < 10000
    → parse_amount negative (dollars ++ 46 ∷ four_digits n)
      ≡ ok (microcents negative (value_from 0 dollars) n)
unfolding parse_amount
parse_amount-text negative dollars n d v h =
    rw
      (
        is_empty-append dollars 46 (four_digits n),
        split_dot-digits dollars (four_digits n) d,
        d,
        four_digits_digits n h,
        dollars_of-value dollars v,
        four_digits_value n h,
      )
      (ground arith)

-- The whole four-decimal steps of an amount, rounded towards zero.
abbrev pub truncated : ℤ → ℤ
truncated (pos n) = pos (n / 10000 * 10000)
truncated (negsuc n) = neg64 (pos (suc n / 10000 * 10000))

microcents-abs :
    (negative : Bool) (n : ℕ)
    → n < 2 ^ 63
    → microcents negative (n / 100000000) (n % 100000000 / 10000)
      ≡ (if negative then neg64 (pos (n / 10000 * 10000)) else pos (n / 10000 * 10000))
unfolding microcents wrap64
microcents-abs negative n h = ground arith

digit_text-not_space :
    (dollars : List ℕ) (n : ℕ)
    → all is_digit dollars ≡ true
    → n < 10000
    → all not_space (dollars ++ 46 ∷ four_digits n) ≡ true
digit_text-not_space dollars n d h =
    rw
      (
        all-append not_space dollars (46 ∷ four_digits n),
        digits-not_space dollars d,
        digits-not_space (four_digits n) (four_digits_digits n h),
      )
      refl

parse-text :
    (dollars : List ℕ) (n : ℕ)
    → all is_digit dollars ≡ true
    → value_from 0 dollars < 2 ^ 63
    → n < 10000
    → parse_credits_from_usd (36 ∷ (dollars ++ 46 ∷ four_digits n))
      ≡ ok (microcents false (value_from 0 dollars) n)
unfolding parse_credits_from_usd
parse-text dollars n d v h =
    rw (trim_space_id (36 ∷ (dollars ++ 46 ∷ four_digits n)) (digit_text-not_space dollars n d h))
      (parse_amount-text false dollars n d v h)

parse-minus_text :
    (dollars : List ℕ) (n : ℕ)
    → all is_digit dollars ≡ true
    → value_from 0 dollars < 2 ^ 63
    → n < 10000
    → parse_credits_from_usd (45 ∷ 36 ∷ (dollars ++ 46 ∷ four_digits n))
      ≡ ok (microcents true (value_from 0 dollars) n)
unfolding parse_credits_from_usd
parse-minus_text dollars n d v h =
    rw
      (trim_space_id (45 ∷ 36 ∷ (dollars ++ 46 ∷ four_digits n))
        (digit_text-not_space dollars n d h))
      (parse_amount-text true dollars n d v h)

value-decimal : (n : ℕ) → value_from 0 (decimal n) ≡ n
unfolding decimal
value-decimal n = value-decimal_fuel (suc n) n (omega arith)

digits-decimal : (n : ℕ) → all is_digit (decimal n) ≡ true
unfolding decimal
digits-decimal n = all_digits-decimal_fuel (suc n) n (omega arith)

decimal_small : (n : ℕ) → n < 2 ^ 63 → value_from 0 (decimal (n / 100000000)) < 2 ^ 63
decimal_small n h = rw (value-decimal (n / 100000000)) (omega arith)

parse-format_abs :
    (n : ℕ) → n < 2 ^ 63 → parse_credits_from_usd (format_abs n) ≡ ok (pos (n / 10000 * 10000))
unfolding format_abs
parse-format_abs n h =
    rw
      (
        parse-text (decimal (n / 100000000)) (n % 100000000 / 10000)
            (digits-decimal (n / 100000000)) (decimal_small n h) (omega arith),
        value-decimal (n / 100000000),
        microcents-abs false n h,
      )
      refl

parse-minus_abs :
    (n : ℕ)
    → n < 2 ^ 63
    → parse_credits_from_usd (45 ∷ format_abs n) ≡ ok (neg64 (pos (n / 10000 * 10000)))
unfolding format_abs
parse-minus_abs n h =
    rw
      (
        parse-minus_text (decimal (n / 100000000)) (n % 100000000 / 10000)
            (digits-decimal (n / 100000000)) (decimal_small n h) (omega arith),
        value-decimal (n / 100000000),
        microcents-abs true n h,
      )
      refl

not_equal : (a b : ℕ) → a < b → (a == b) ≡ false
not_equal a b h = ground arith

-- The text of an amount is read back as the amount cut to four decimals, towards zero: for every
-- int64 but -2^63.
pub parse-format :
    (amount : ℤ)
    → abs amount < 2 ^ 63
    → parse_credits_from_usd (format_credits_usd amount) ≡ ok (truncated amount)
unfolding format_credits_usd
parse-format (pos n) h = parse-format_abs n (omega arith)
parse-format (negsuc n) h =
    rw (not_equal (suc n) (2 ^ 63) (omega arith)) (parse-minus_abs (suc n) (omega arith))

plus_zero : (n : ℕ) → n + 0 ≡ n
plus_zero n = omega arith

wrap64_wraps : (n : ℕ) → 2 ^ 63 ≤ n → wrap64 (pos n) ≢ pos n
unfolding wrap64
wrap64_wraps n h = ground arith

-- An amount of whole dollars that an int64 holds but whose microcents it does not, is read with no
-- error, as the microcents modulo 2^64.
pub parse-overflow :
    (dollars : ℕ)
    → dollars < 2 ^ 63
    → 2 ^ 63 ≤ dollars * 100000000
    → (parse_credits_from_usd (36 ∷ (decimal dollars ++ 46 ∷ four_digits 0))
        ≡ ok (wrap64 (pos (dollars * 100000000))))
      × (wrap64 (pos (dollars * 100000000)) ≢ pos (dollars * 100000000))
unfolding microcents
parse-overflow dollars h o = (
  rw
      (
        parse-text (decimal dollars) 0 (digits-decimal dollars) (rw (value-decimal dollars) h)
            (omega arith),
        value-decimal dollars,
      )
      (rw (plus_zero (dollars * 100000000)) refl),
  wrap64_wraps (dollars * 100000000) o,
)
