-- ===== src/Storage/Examples.antt =====
-- Tests of the copy and of the fallback at concrete inputs.
use arkfile.Base.{ℕ, ◌≡◌, ◌≢◌, refl, false, none, some, List, [], ◌∷◌}
use arkfile.Base.Int.{pos}
use arkfile.Storage.{
  Provider, ProviderRegistry, get_object_with_fallback, get_object_chunk_with_fallback, CopyEnv,
  copied, copy_out_of_fuel, copy_object_between_providers,
}
use arkfile.Storage.Copy.{copy_object_between_providers-ends, copy_object_between_providers-copied}
use arkfile.Storage.Fallback.{configured, all_configured, get_object_with_fallback-first_with}

abbrev env : CopyEnv
env = record {
  read_fails = false;
  put_fails = false;
  initiate_fails = false;
  is_canceled = λ n. false;
  part_read_fails = λ n. false;
  part_upload_fails = λ n. false;
  complete_fails = false;
  sha256_hex = λ b. 1 ∷ b;
}

abbrev source : Provider
source = record {
  get_object = λ name. some (7 ∷ 8 ∷ []);
  get_object_chunk = λ name offset size. some (7 ∷ []);
}

abbrev broken : Provider
broken = record { get_object = λ name. none; get_object_chunk = λ name offset size. none }

abbrev registry : ProviderRegistry
registry = record {
  primary = broken;
  secondary = none;
  tertiary = some source;
  primary_id = "one";
  secondary_id = "";
  tertiary_id = "three";
}

abbrev bytes : List ℕ
bytes = 7 ∷ 8 ∷ []

abbrev hash : List ℕ
hash = 1 ∷ bytes

-- The third provider has the object, but there is no second.
skips_third : get_object_with_fallback registry "object" ≡ none
unfolding get_object_with_fallback
skips_third = refl

copies : copy_object_between_providers env "object" source (pos 2) ≡ copied hash bytes
unfolding copy_object_between_providers
copies = refl

copy_object_between_providers-ends_example :
    copy_object_between_providers env "object" source (pos 6000000) ≢ copy_out_of_fuel
copy_object_between_providers-ends_example =
    copy_object_between_providers-ends env "object" source (pos 6000000)

copy_object_between_providers-copied_example : (hash ≡ hash) × (bytes ≡ bytes)
copy_object_between_providers-copied_example =
    copy_object_between_providers-copied env "object" source (pos 2) bytes hash bytes refl copies

-- With a second provider, the third is reached.
abbrev full_registry : ProviderRegistry
full_registry = record registry { secondary = some broken; secondary_id = "two" }

get_object_with_fallback-first_with_example :
    (get_object_with_fallback full_registry "object" ≡ some (bytes, "three"))
    × (get_object_chunk_with_fallback full_registry "object" (pos 0) (pos 1)
        ≡ some (7 ∷ [], "three"))
get_object_with_fallback-first_with_example =
    get_object_with_fallback-first_with full_registry "object" (pos 0) (pos 1)
      (configured full_registry) (all_configured broken refl)
