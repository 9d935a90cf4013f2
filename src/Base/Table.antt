-- ===== src/Base/Table.antt =====
-- Maps and database tables keyed by a text with a primary-key or unique constraint:
-- association lists. `insert` is Go's `m[k] = v` and SQL's upsert, `erase` is `delete(m, k)`.
use Prim.Native.String.{String}
use mathlib.Core.Path.{◌≡◌, refl}
use mathlib.Core.Bool.{true, false}
use mathlib.Core.Option.{Option, none, some}
use mathlib.Core.List.{List, [], ◌∷◌}
use native.Mathlib.Omega.{arith}
use text.Mathlib.TextEquality.{eq_iff}
use text.Mathlib.TextPositions.{eq_refl}
use arkfile.Base.Tests.{str_eq, if◌then◌else◌}

abbrev pub Table {ℓ} : Type ℓ → Type ℓ
Table V = List (String × V)

module _ {ℓ} {V : Type ℓ} where
  unfoldable pub lookup : String → Table V → Option V
  lookup key [] = none
  lookup key ((here, old) ∷ rest) = if str_eq here key then some old else lookup key rest

  unfoldable pub insert : String → V → Table V → Table V
  insert key new [] = (key, new) ∷ []
  insert key new ((here, old) ∷ rest) =
      if str_eq here key then (key, new) ∷ rest else (here, old) ∷ insert key new rest

  unfoldable pub erase : String → Table V → Table V
  erase key [] = []
  erase key ((here, old) ∷ rest) =
      if str_eq here key then erase key rest else (here, old) ∷ erase key rest

  pub lookup-insert :
      (key asked : String) (new : V) (table : Table V)
      → lookup asked (insert key new table)
        ≡ (if str_eq key asked then some new else lookup asked table)
  unfolding lookup insert
  lookup-insert key asked new [] = refl
  lookup-insert key asked new ((here, old) ∷ rest) = ground (
    eq_iff here asked,
    eq_iff here key,
    eq_iff key asked,
    lookup-insert key asked new rest,
    arith,
  )

  pub lookup-insert_self :
      (key : String) (new : V) (table : Table V) → lookup key (insert key new table) ≡ some new
  lookup-insert_self key new table = ground (arith, eq_refl key, lookup-insert key key new table)

  pub lookup-insert_ne :
      (key asked : String) (new : V) (table : Table V)
      → str_eq key asked ≡ false
      → lookup asked (insert key new table) ≡ lookup asked table
  lookup-insert_ne key asked new table h = ground (arith, lookup-insert key asked new table)

  pub lookup-erase :
      (key asked : String) (table : Table V)
      → lookup asked (erase key table) ≡ (if str_eq key asked then none else lookup asked table)
  unfolding lookup erase
  lookup-erase key asked [] = ground (arith, eq_iff key asked)
  lookup-erase key asked ((here, old) ∷ rest) =
      ground
        (arith, eq_iff here asked, eq_iff here key, eq_iff key asked, lookup-erase key asked rest)

-- No key stands twice: a Go map, or a table under its primary key.
abbrev pub IsUnique {ℓ} : {V : Type ℓ} → Table V → Type ℓ
IsUnique [] = Unit
IsUnique ((k, v) ∷ m) = (lookup k m ≡ none) × IsUnique m

pub str_eq_refl : (s : String) → str_eq s s ≡ true
str_eq_refl s = eq_refl s

pub str_eq_comm : (s t : String) → str_eq s t ≡ str_eq t s
str_eq_comm s t = ground (arith, eq_iff s t, eq_iff t s)
