-- ===== src/Storage/Fallback.antt =====
-- Reading with fallback is reading from the first provider that has the object.
use arkfile.Base.{ℕ, ◌≡◌, refl, sym, ap, ◌∙◌, Option, none, some, List, [], ◌∷◌, String}
use arkfile.Base.Int.{ℤ}
use arkfile.Storage.{
  Provider, ProviderRegistry, served_by, try_tertiary, try_secondary, get_object_with_fallback,
  get_object_chunk_with_fallback,
}

abbrev with_role : String → Option Provider → List (String × Provider) → List (String × Provider)
with_role id none later = later
with_role id (some p) later = (id, p) ∷ later

-- All providers that a registry has, with their ids, in the order of their roles.
abbrev pub configured : ProviderRegistry → List (String × Provider)
configured r =
    (r.primary_id, r.primary)
    ∷ with_role r.secondary_id r.secondary (with_role r.tertiary_id r.tertiary [])

-- The providers that a read may ask: all of them where there is a secondary, and the primary alone
-- where there is none, whether there is a tertiary or not.
pub data Asks (r : ProviderRegistry) : List (String × Provider) → Type 0 where
  all_configured : (p : Provider) → r.secondary ≡ some p → Asks r (configured r)
  primary_alone : r.secondary ≡ none → Asks r ((r.primary_id, r.primary) ∷ [])

-- The first provider that returns something, and what it returns.
abbrev pub first_with :
    (Provider → Option (List ℕ)) → List (String × Provider) → Option (List ℕ × String)
first_with read [] = none
first_with read ((id, p) ∷ rest) = elim (read p) [
  | none ↦ first_with read rest
  | some b ↦ some (b, id)
]

served_first :
    (id : String) (o : Option (List ℕ)) (otherwise : Option (List ℕ × String))
    → served_by id o otherwise ≡ (elim o [ none ↦ otherwise | some b ↦ some (b, id) ])
served_first id none otherwise = refl
served_first id (some b) otherwise = refl

from_second :
    (r : ProviderRegistry) (read : Provider → Option (List ℕ)) (p : Provider)
    (three : Option Provider)
    → r.tertiary ≡ three
    → try_secondary r read (some p)
      ≡ first_with read ((r.secondary_id, p) ∷ with_role r.tertiary_id three [])
from_second r read p none e =
    ap (λ t. served_by r.secondary_id (read p) (try_tertiary r read t)) e
    ∙ served_first r.secondary_id (read p) none
from_second r read p (some q) e =
    ap (λ t. served_by r.secondary_id (read p) (try_tertiary r read t)) e
    ∙ served_first r.secondary_id (read p) (served_by r.tertiary_id (read q) none)
    ∙ ap (λ o. elim (read p) [ none ↦ o | some b ↦ some (b, r.secondary_id) ])
        (served_first r.tertiary_id (read q) none)

-- What follows the primary.
after_primary :
    (r : ProviderRegistry) (read : Provider → Option (List ℕ)) (later : List (String × Provider))
    → try_secondary r read r.secondary ≡ first_with read later
    → served_by r.primary_id (read r.primary) (try_secondary r read r.secondary)
      ≡ first_with read ((r.primary_id, r.primary) ∷ later)
after_primary r read later e =
    served_first r.primary_id (read r.primary) (try_secondary r read r.secondary)
    ∙ ap (λ o. elim (read r.primary) [ none ↦ o | some b ↦ some (b, r.primary_id) ]) e

same_first :
    (r : ProviderRegistry) (read : Provider → Option (List ℕ)) (asked : List (String × Provider))
    → Asks r asked
    → served_by r.primary_id (read r.primary) (try_secondary r read r.secondary)
      ≡ first_with read asked
same_first r read asked (all_configured p e) =
    let later = with_role r.secondary_id r.secondary (with_role r.tertiary_id r.tertiary []) in
    after_primary r read later (
      ap (try_secondary r read) e
      ∙ from_second r read p r.tertiary refl
      ∙ ap
          (λ o.
            first_with read (with_role r.secondary_id o (with_role r.tertiary_id r.tertiary [])))
          (sym e))
same_first r read asked (primary_alone e) = after_primary r read [] (ap (try_secondary r read) e)

-- Reading an object, or a range of one, with fallback returns the bytes and the id of the first
-- provider that has it: where there is a secondary, the first of all configured providers in the
-- order primary, secondary, tertiary; without a secondary the primary is the only one that is
-- asked, also where a tertiary is configured and has the object.
pub get_object_with_fallback-first_with :
    (r : ProviderRegistry) (name : String) (offset size : ℤ) (asked : List (String × Provider))
    → Asks r asked
    → (get_object_with_fallback r name ≡ first_with (λ p. p.get_object name) asked)
      × (get_object_chunk_with_fallback r name offset size
          ≡ first_with (λ p. p.get_object_chunk name offset size) asked)
unfolding get_object_with_fallback get_object_chunk_with_fallback
get_object_with_fallback-first_with r name offset size asked h = (
  same_first r (λ p. p.get_object name) asked h,
  same_first r (λ p. p.get_object_chunk name offset size) asked h,
)
