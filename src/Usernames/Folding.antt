-- ===== src/Usernames/Folding.antt =====
-- A valid username keeps more than half of its characters when it is folded.
use arkfile.Base.{
  or_false, and_true, ℕ, ◌+◌, ◌*◌, ◌≡◌, ◌≤◌, ◌<◌, refl, ap, ◌∙◌, Bool, true, false, ◌&&◌, not,
  Option, none, List, [], ◌∷◌, map, ltb, ◌==◌, if◌then◌else◌, length, arith,
}
use arkfile.Money.{is_space, trim_space, trim_left, trim_right, cons_unless_space}
use arkfile.Usernames.{
  UsernameError, is_symbol, is_allowed, all_allowed, has_suffix, at_an_end, has_consecutive,
  refuse_if, validate_username, without_symbols, fold_username,
}

refuse_if-none :
    (b : Bool) (error : UsernameError) (rest : Option UsernameError)
    → refuse_if b error rest ≡ none
    → (b ≡ false) × (rest ≡ none)
unfolding refuse_if
refuse_if-none true error rest h = cc
refuse_if-none false error rest h = (refl, h)

-- What a username that is valid passes.
record IsValid (s : List ℕ) : Type 0 where
  long_enough : ltb (length s) 10 ≡ false
  short_enough : ltb 50 (length s) ≡ false
  allowed : not (all_allowed s) ≡ false
  period : at_an_end 46 s ≡ false
  comma : at_an_end 44 s ≡ false
  hyphen : at_an_end 45 s ≡ false
  underscore : at_an_end 95 s ≡ false
  apart : has_consecutive s ≡ false

validate_username-IsValid : (s : List ℕ) → validate_username s ≡ none → IsValid s
unfolding validate_username
validate_username-IsValid s h =
    let (a, h1) = refuse_if-none _ _ _ h in
    let (b, h2) = refuse_if-none _ _ _ h1 in
    let (c, h3) = refuse_if-none _ _ _ h2 in
    let (d, h4) = refuse_if-none _ _ _ h3 in
    let (e, h5) = refuse_if-none _ _ _ h4 in
    let (f, h6) = refuse_if-none _ _ _ h5 in
    let (g, h7) = refuse_if-none _ _ _ h6 in
    let (i, h8) = refuse_if-none _ _ _ h7 in
    let (j, h9) = refuse_if-none _ _ _ h8 in
    let (k, h10) = refuse_if-none _ _ _ h9 in
    record {
      long_enough = b;
      short_enough = c;
      allowed = d;
      period = f;
      comma = g;
      hyphen = i;
      underscore = j;
      apart = k;
    }

allowed-is_space : (c : ℕ) → is_allowed c ≡ true → is_space c ≡ false
allowed-is_space c h = ground arith

cons-allowed : (c : ℕ) (s : List ℕ) → is_allowed c ≡ true → cons_unless_space c s ≡ c ∷ s
cons-allowed c [] h = rw (allowed-is_space c h) refl
cons-allowed c (d ∷ s) h = refl

trim_right-allowed : (s : List ℕ) → all_allowed s ≡ true → trim_right s ≡ s
unfolding trim_right
trim_right-allowed [] h = refl
trim_right-allowed (c ∷ s) h =
    let (here, later) = and_true (is_allowed c) (all_allowed s) h in
    ap (cons_unless_space c) (trim_right-allowed s later) ∙ cons-allowed c s here

trim_left-allowed : (s : List ℕ) → all_allowed s ≡ true → trim_left s ≡ s
unfolding trim_left
trim_left-allowed [] h = refl
trim_left-allowed (c ∷ s) h =
    rw (allowed-is_space c (and_true (is_allowed c) (all_allowed s) h).0) refl

trim_space-allowed : (s : List ℕ) → all_allowed s ≡ true → trim_space s ≡ s
unfolding trim_space
trim_space-allowed s h = ap trim_left (trim_right-allowed s h) ∙ trim_left-allowed s h

lowered :
    (to_lower : ℕ → ℕ) (s : List ℕ)
    → ((c : ℕ) → is_allowed c ≡ true → to_lower c ≡ c)
    → all_allowed s ≡ true
    → map to_lower s ≡ s
lowered to_lower [] keeps h = refl
lowered to_lower (c ∷ s) keeps h =
    let (here, later) = and_true (is_allowed c) (all_allowed s) h in
    rw (keeps c here, lowered to_lower s keeps later) refl

-- No two symbols in a row and none at the end: the others are more than the symbols, or as many
-- where a symbol comes first.
without_symbols-length :
    (c : ℕ) (s : List ℕ)
    → has_consecutive (c ∷ s) ≡ false
    → has_suffix 46 (c ∷ s) ≡ false
    → has_suffix 44 (c ∷ s) ≡ false
    → has_suffix 45 (c ∷ s) ≡ false
    → has_suffix 95 (c ∷ s) ≡ false
    → length (c ∷ s) + (if is_symbol c then 0 else 1) ≤ 2 * length (without_symbols (c ∷ s))
without_symbols-length c [] apart p q r t = ground arith
without_symbols-length c (d ∷ s) apart p q r t = ground (
  arith,
  or_false (is_symbol c && is_symbol d) (has_consecutive (d ∷ s)) apart,
  without_symbols-length d s
      (or_false (is_symbol c && is_symbol d) (has_consecutive (d ∷ s)) apart).1 p q r t,
)

neither_end :
    (k c : ℕ) (s : List ℕ)
    → at_an_end k (c ∷ s) ≡ false
    → ((c == k) ≡ false) × (has_suffix k (c ∷ s) ≡ false)
neither_end k c s h = or_false (c == k) (has_suffix k (c ∷ s)) h

no_symbol :
    (c : ℕ)
    → (c == 46) ≡ false
    → (c == 44) ≡ false
    → (c == 45) ≡ false
    → (c == 95) ≡ false
    → is_symbol c ≡ false
no_symbol c p q r t = ground arith

-- A username that is valid has 10 to 50 characters, and more than half of them are left when it is
-- folded, if lowering keeps the letters, digits and symbols that are allowed.
pub validate_username-fold_username :
    (to_lower : ℕ → ℕ) (s : List ℕ)
    → ((c : ℕ) → is_allowed c ≡ true → to_lower c ≡ c)
    → validate_username s ≡ none
    → (10 ≤ length s) × (length s ≤ 50) × (length s < 2 * length (fold_username to_lower s))
unfolding fold_username
validate_username-fold_username to_lower [] keeps valid =
    let v = validate_username-IsValid [] valid in
    let no_text : 10 ≤ 0 = ground (arith, v.long_enough) in elim no_text [ ]
validate_username-fold_username to_lower (c ∷ s) keeps valid =
    let v = validate_username-IsValid (c ∷ s) valid in
    let all_in : all_allowed (c ∷ s) ≡ true = ground (arith, v.allowed) in
    let period = neither_end 46 c s v.period in
    let comma = neither_end 44 c s v.comma in
    let hyphen = neither_end 45 c s v.hyphen in
    let underscore = neither_end 95 c s v.underscore in
    let bound : length (c ∷ s) + (if is_symbol c then 0 else 1)
        ≤ 2 * length (without_symbols (c ∷ s)) =
      without_symbols-length c s v.apart period.1 comma.1 hyphen.1 underscore.1 in
    let first : is_symbol c ≡ false = no_symbol c period.0 comma.0 hyphen.0 underscore.0 in
    let folded : fold_username to_lower (c ∷ s) ≡ without_symbols (c ∷ s) =
      ap (λ t. without_symbols (map to_lower t)) (trim_space-allowed (c ∷ s) all_in)
      ∙ ap without_symbols (lowered to_lower (c ∷ s) keeps all_in) in
    (
      ground (arith, v.long_enough),
      ground (arith, v.short_enough),
      rw (folded) (ground (arith, bound, first)),
    )
