-- ===== src/Usernames/Examples.antt =====
-- A test of the username rules at a concrete input.
use arkfile.Base.{ℕ, ◌*◌, ◌≡◌, ◌≤◌, ◌<◌, refl, none, some, List, [], ◌∷◌, length}
use arkfile.Usernames.{validate_username, refuse_if, fold_username, consecutive_symbols}
use arkfile.Usernames.Folding.{validate_username-fold_username}

-- "a.b.c.d.e.f"
abbrev name : List ℕ
name = 97 ∷ 46 ∷ 98 ∷ 46 ∷ 99 ∷ 46 ∷ 100 ∷ 46 ∷ 101 ∷ 46 ∷ 102 ∷ []

-- "user..name12"
abbrev twice : List ℕ
twice = 117 ∷ 115 ∷ 101 ∷ 114 ∷ 46 ∷ 46 ∷ 110 ∷ 97 ∷ 109 ∷ 101 ∷ 49 ∷ 50 ∷ []

twice_refused : validate_username twice ≡ some consecutive_symbols
unfolding validate_username refuse_if
twice_refused = refl

name_valid : validate_username name ≡ none
unfolding validate_username refuse_if
name_valid = refl

validate_username-fold_username_example :
    (10 ≤ length name)
    × (length name ≤ 50)
    × (length name < 2 * length (fold_username (λ c. c) name))
validate_username-fold_username_example =
    validate_username-fold_username (λ c. c) name (λ c h. refl) name_valid
