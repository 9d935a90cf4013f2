-- ===== src/Money.antt =====
-- models/credits.go: `ParseCreditsFromUSD` and `FormatCreditsUSD`. A text is the list of its code
-- points: the bytes that the code compares are all ASCII, and the digits are checked before a
-- length in bytes is taken.
pub mod Digits
pub mod RoundTrip
mod Examples
use arkfile.Base.{
  ℕ, zero, suc, ◌+◌, ◌-◌, ◌*◌, ◌/◌, ◌%◌, ◌^◌, Bool, true, false, not, ◌&&◌, ◌||◌, Option, none,
  some, List, [], ◌∷◌, ◌++◌, length, all, ltb, leb, ◌==◌, if◌then◌else◌,
}
use arkfile.Base.Int.{ℤ, pos, negsuc, neg64, wrap64}

abbrev pub microcents_per_usd : ℕ
microcents_per_usd = 100000000

-- `unicode.IsSpace`
abbrev pub is_space : ℕ → Bool
is_space c =
    (leb 9 c && leb c 13)
    || c == 32
    || c == 133
    || c == 160
    || c == 5760
    || (leb 8192 c && leb c 8202)
    || c == 8232
    || c == 8233
    || c == 8239
    || c == 8287
    || c == 12288

unfoldable pub trim_left : List ℕ → List ℕ
trim_left [] = []
trim_left (c ∷ s) = if is_space c then trim_left s else c ∷ s

abbrev pub cons_unless_space : ℕ → List ℕ → List ℕ
cons_unless_space c [] = if is_space c then [] else c ∷ []
cons_unless_space c (d ∷ s) = c ∷ d ∷ s

unfoldable pub trim_right : List ℕ → List ℕ
trim_right [] = []
trim_right (c ∷ s) = cons_unless_space c (trim_right s)

-- `strings.TrimSpace`
unfoldable pub trim_space : List ℕ → List ℕ
unfolding trim_left trim_right
trim_space s = trim_left (trim_right s)

abbrev pub is_digit : ℕ → Bool
is_digit c = leb 48 c && leb c 57

pub data ParseError : Type 0 where
  amount_empty no_digits invalid_dollar_digit invalid_fraction_digit : ParseError
  too_many_decimals dollars_out_of_range : ParseError

pub data Parsed {ℓ} (A : Type ℓ) : Type ℓ where
  ok : A → Parsed A
  err : ParseError → Parsed A

-- The value of decimal digits: what `Sscanf` with `%d` makes of them, and `none` past an int64.
abbrev pub value_from : ℕ → List ℕ → ℕ
value_from acc [] = acc
value_from acc (c ∷ s) = value_from (acc * 10 + (c - 48)) s

unfoldable pub scan_decimal : List ℕ → Option ℕ
scan_decimal s = if ltb (value_from 0 s) (2 ^ 63) then some (value_from 0 s) else none

-- The part before the first dot and the part behind it, which is empty where there is none.
unfoldable pub split_dot : List ℕ → List ℕ × List ℕ
split_dot [] = ([], [])
split_dot (c ∷ s) =
    let (before, behind) = split_dot s in if c == 46 then ([], s) else (c ∷ before, behind)

-- `-` or `+` in front; then whether the amount is negative.
abbrev pub strip_sign : List ℕ → Bool × List ℕ
strip_sign [] = (false, [])
strip_sign (c ∷ s) = if c == 45 then (true, s) else if c == 43 then (false, s) else (false, c ∷ s)

abbrev pub strip_dollar : List ℕ → List ℕ
strip_dollar [] = []
strip_dollar (c ∷ s) = if c == 36 then s else c ∷ s

abbrev pub is_empty : List ℕ → Bool
is_empty [] = true
is_empty (c ∷ s) = false

-- Zeros are added until there are four digits.
abbrev pub pad : List ℕ → List ℕ
pad [] = 48 ∷ 48 ∷ 48 ∷ 48 ∷ []
pad (a ∷ []) = a ∷ 48 ∷ 48 ∷ 48 ∷ []
pad (a ∷ b ∷ []) = a ∷ b ∷ 48 ∷ 48 ∷ []
pad (a ∷ b ∷ c ∷ []) = a ∷ b ∷ c ∷ 48 ∷ []
pad (a ∷ b ∷ c ∷ d ∷ s) = a ∷ b ∷ c ∷ d ∷ s

abbrev pub dollars_of : List ℕ → Option ℕ
dollars_of [] = some 0
dollars_of (c ∷ s) = scan_decimal (c ∷ s)

-- `dollars*MicrocentsPerUSD + fractional*10_000` on int64, and its negative.
unfoldable pub microcents : Bool → ℕ → ℕ → ℤ
microcents negative dollars fractional =
    let amount = wrap64 (pos (dollars * 100000000 + fractional * 10000)) in
    if negative then neg64 amount else amount

abbrev pub of_dollars : Bool → List ℕ → Option ℕ → Parsed ℤ
of_dollars negative fraction none = err dollars_out_of_range
of_dollars negative fraction (some dollars) =
    ok (microcents negative dollars (value_from 0 (pad fraction)))

-- The amount of the two parts, of which the second is empty where there is no dot.
abbrev pub parse_parts : Bool → List ℕ → List ℕ → Parsed ℤ
parse_parts negative dollars fraction =
    if is_empty dollars && is_empty fraction
    then err no_digits
    else if not (all is_digit dollars)
    then err invalid_dollar_digit
    else if not (all is_digit fraction)
    then err invalid_fraction_digit
    else if ltb 4 (length fraction)
    then err too_many_decimals
    else of_dollars negative fraction (dollars_of dollars)

-- The amount behind the sign and the dollar.
unfoldable pub parse_amount : Bool → List ℕ → Parsed ℤ
parse_amount negative s =
    if is_empty s then err no_digits else parse_parts negative (split_dot s).0 (split_dot s).1

unfoldable pub parse_credits_from_usd : List ℕ → Parsed ℤ
parse_credits_from_usd text =
    let s = trim_space text in
    let (negative, unsigned) = strip_sign s in
    if is_empty s then err amount_empty else parse_amount negative (strip_dollar unsigned)

-- `%d` of a number that is not negative, on fuel above it.
unfoldable pub decimal_fuel : ℕ → ℕ → List ℕ
decimal_fuel zero n = []
decimal_fuel (suc f) n =
    let rest = decimal_fuel f (n / 10) ++ (48 + n % 10) ∷ [] in
    if ltb n 10 then (48 + n) ∷ [] else rest

unfoldable pub decimal : ℕ → List ℕ
unfolding decimal_fuel
decimal n = decimal_fuel (suc n) n

-- `%04d` of a number below 10,000.
abbrev pub four_digits : ℕ → List ℕ
four_digits n = (48 + n / 1000) ∷ (48 + n / 100 % 10) ∷ (48 + n / 10 % 10) ∷ (48 + n % 10) ∷ []

-- The text of an amount whose absolute value is `abs`.
unfoldable pub format_abs : ℕ → List ℕ
unfolding decimal
format_abs abs = 36 ∷ (decimal (abs / 100000000) ++ 46 ∷ four_digits (abs % 100000000 / 10000))

-- The text of -2^63, whose absolute value is no int64: the quotient and the remainder keep the
-- sign, as in `-$-92233720368.-5477`.
unfoldable pub format_min_int64 : List ℕ
unfolding decimal
format_min_int64 =
    45
    ∷ 36
    ∷ 45
    ∷ (decimal (2 ^ 63 / 100000000) ++ 46 ∷ 45 ∷ four_digits (2 ^ 63 % 100000000 / 10000))

unfoldable pub format_credits_usd : ℤ → List ℕ
unfolding format_abs format_min_int64
format_credits_usd (pos n) = format_abs n
format_credits_usd (negsuc n) =
    if suc n == 2 ^ 63 then format_min_int64 else 45 ∷ format_abs (suc n)
