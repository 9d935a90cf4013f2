-- ===== src/Usernames.antt =====
-- utils/username_validator.go, on the bytes of a username. Lowering a character is a parameter.
pub mod Folding
mod Examples
use arkfile.Base.{
  ℕ, zero, suc, ◌+◌, ◌-◌, Bool, true, false, ◌&&◌, ◌||◌, not, Option, none, some, List, [], ◌∷◌,
  map, ltb, leb, ◌==◌, if◌then◌else◌, length,
}
use arkfile.Money.{trim_space}

pub data UsernameError : Type 0 where
  username_empty username_too_short username_too_long invalid_character : UsernameError
  bad_period bad_comma bad_hyphen bad_underscore consecutive_symbols : UsernameError

-- a-z and 0-9
abbrev pub is_alnum : ℕ → Bool
is_alnum c = (leb 97 c && leb c 122) || (leb 48 c && leb c 57)

-- The characters of "._-,"
abbrev pub is_symbol : ℕ → Bool
is_symbol c = (c == 46) || (c == 95) || (c == 45) || (c == 44)

abbrev pub is_allowed : ℕ → Bool
is_allowed c = is_alnum c || is_symbol c

abbrev pub all_allowed : List ℕ → Bool
all_allowed [] = true
all_allowed (c ∷ s) = is_allowed c && all_allowed s

-- `UsernamePattern`
abbrev pub matches_pattern : List ℕ → Bool
matches_pattern s = all_allowed s && leb 10 (length s) && leb (length s) 50

abbrev pub has_prefix : ℕ → List ℕ → Bool
has_prefix c [] = false
has_prefix c (d ∷ s) = d == c

abbrev pub has_suffix : ℕ → List ℕ → Bool
has_suffix c [] = false
has_suffix c (d ∷ []) = d == c
has_suffix c (d ∷ e ∷ s) = has_suffix c (e ∷ s)

abbrev pub at_an_end : ℕ → List ℕ → Bool
at_an_end c s = has_prefix c s || has_suffix c s

abbrev pub has_consecutive : List ℕ → Bool
has_consecutive [] = false
has_consecutive (c ∷ []) = false
has_consecutive (c ∷ d ∷ s) = (is_symbol c && is_symbol d) || has_consecutive (d ∷ s)

unfoldable pub refuse_if : Bool → UsernameError → Option UsernameError → Option UsernameError
refuse_if true error rest = some error
refuse_if false error rest = rest

-- `ValidateUsername`: `none` is no error.
unfoldable pub validate_username : List ℕ → Option UsernameError
validate_username s = refuse_if (length s == 0) username_empty (
    refuse_if (ltb (length s) 10) username_too_short (
      refuse_if (ltb 50 (length s)) username_too_long (
        refuse_if (not (all_allowed s)) invalid_character (
          refuse_if (not (matches_pattern s)) invalid_character (
            refuse_if (at_an_end 46 s) bad_period (
              refuse_if (at_an_end 44 s) bad_comma (
                refuse_if (at_an_end 45 s) bad_hyphen (
                  refuse_if (at_an_end 95 s) bad_underscore
                    (refuse_if (has_consecutive s) consecutive_symbols none)))))))))

abbrev pub without_symbols : List ℕ → List ℕ
without_symbols [] = []
without_symbols (c ∷ s) = let rest = without_symbols s in if is_symbol c then rest else c ∷ rest

-- `FoldUsername`
unfoldable pub fold_username : (ℕ → ℕ) → List ℕ → List ℕ
fold_username to_lower s = without_symbols (map to_lower (trim_space s))

-- `SanitizeUsername`
unfoldable pub sanitize_username : (ℕ → ℕ) → List ℕ → List ℕ
sanitize_username to_lower s = map to_lower (trim_space s)
