-- ===== src/Money/Digits.antt =====
-- Decimal digits as models/credits.go prints and reads them.
use arkfile.Base.{
  ℕ, zero, suc, ◌+◌, ◌-◌, ◌*◌, ◌/◌, ◌%◌, ◌^◌, ◌<◌, ◌≡◌, refl, Bool, true, false, not, ◌&&◌, List,
  [], ◌∷◌, ◌++◌, all, and_true, some, arith, lt→ltb,
}
use arkfile.Money.{
  cons_unless_space, dollars_of, scan_decimal, is_empty, is_space, is_digit, trim_left, trim_right,
  trim_space, value_from, split_dot, decimal_fuel,
}

pub value_from-append :
    (acc : ℕ) (s t : List ℕ) → value_from acc (s ++ t) ≡ value_from (value_from acc s) t
value_from-append acc [] t = refl
value_from-append acc (c ∷ s) t = value_from-append (acc * 10 + (c - 48)) s t

pub value-decimal_fuel : (f n : ℕ) → n < f → value_from 0 (decimal_fuel f n) ≡ n
unfolding decimal_fuel
value-decimal_fuel zero n h = elim h [ ]
value-decimal_fuel (suc f) n h = ground (
  arith,
  value_from-append 0 (decimal_fuel f (n / 10)) ((48 + n % 10) ∷ []),
  value-decimal_fuel f (n / 10),
)

pub all-append : (p : ℕ → Bool) (s t : List ℕ) → all p (s ++ t) ≡ (all p s && all p t)
all-append p [] t = refl
all-append p (c ∷ s) t = ground (arith, all-append p s t)

pub all_digits-decimal_fuel : (f n : ℕ) → n < f → all is_digit (decimal_fuel f n) ≡ true
unfolding decimal_fuel
all_digits-decimal_fuel zero n h = elim h [ ]
all_digits-decimal_fuel (suc f) n h = ground (
  arith,
  all-append is_digit (decimal_fuel f (n / 10)) ((48 + n % 10) ∷ []),
  all_digits-decimal_fuel f (n / 10),
)

-- A text of digits is cut at the dot that follows it.
pub split_dot-digits : (s t : List ℕ) → all is_digit s ≡ true → split_dot (s ++ 46 ∷ t) ≡ (s, t)
unfolding split_dot
split_dot-digits [] t h = refl
split_dot-digits (c ∷ s) t h = ground (arith, split_dot-digits s t)

-- A text without a space is not trimmed.
not-true : (b : Bool) → not b ≡ true → b ≡ false
not-true b h = ground arith

abbrev pub not_space : ℕ → Bool
not_space c = not (is_space c)

keep_last : (c : ℕ) (s : List ℕ) → not_space c ≡ true → cons_unless_space c s ≡ c ∷ s
keep_last c [] h = rw (not-true (is_space c) h) refl
keep_last c (d ∷ s) h = refl

pub trim_right_id : (s : List ℕ) → all not_space s ≡ true → trim_right s ≡ s
unfolding trim_right
trim_right_id [] h = refl
trim_right_id (c ∷ s) h =
    let (here, later) = and_true (not_space c) (all not_space s) h in
    rw (trim_right_id s later) (keep_last c s here)

pub trim_left_id : (s : List ℕ) → all not_space s ≡ true → trim_left s ≡ s
unfolding trim_left
trim_left_id [] h = refl
trim_left_id (c ∷ s) h =
    rw (not-true (is_space c) (and_true (not_space c) (all not_space s) h).0) refl

pub trim_space_id : (s : List ℕ) → all not_space s ≡ true → trim_space s ≡ s
unfolding trim_space
trim_space_id s h = rw (trim_right_id s h) (trim_left_id s h)

digit-not_space : (c : ℕ) → is_digit c ≡ true → not_space c ≡ true
digit-not_space c h = ground arith

pub digits-not_space : (s : List ℕ) → all is_digit s ≡ true → all not_space s ≡ true
digits-not_space [] h = refl
digits-not_space (c ∷ s) h =
    let (here, later) = and_true (is_digit c) (all is_digit s) h in
    rw (digit-not_space c here, digits-not_space s later) refl

pub dollars_of-value : (s : List ℕ) → value_from 0 s < 2 ^ 63 → dollars_of s ≡ some (value_from 0 s)
unfolding scan_decimal
dollars_of-value [] h = refl
dollars_of-value (c ∷ s) h = rw (lt→ltb _ _ h) refl

pub is_empty-append : (s : List ℕ) (c : ℕ) (t : List ℕ) → is_empty (s ++ c ∷ t) ≡ false
is_empty-append [] c t = refl
is_empty-append (d ∷ s) c t = refl
