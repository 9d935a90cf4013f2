-- ===== src/Storage.antt =====
-- storage/registry.go: the registry of providers, reading with fallback, and the copy of an object
-- from one provider to another. A provider is a parameter: what it returns for an object, and which
-- of its calls fail. A multipart upload that is completed holds its parts one behind the other. The
-- copy loop runs on fuel.
pub mod Parts
pub mod Copy
pub mod Fallback
mod Examples
use arkfile.Base.{
  ℕ, zero, suc, ◌+◌, ◌-◌, ◌*◌, min, Bool, true, false, ◌||◌, Option, none, some, List, [], ◌∷◌,
  ◌++◌, leb, ◌==◌, if◌then◌else◌, String, str_eq, length, take, drop,
}
use arkfile.Base.Int.{ℤ, pos, negsuc, leb_ℤ}

-- What a provider returns for an object, and for a range of it.
pub record Provider : Type 0 where
  pub get_object : String → Option (List ℕ)
  pub get_object_chunk : String → ℤ → ℤ → Option (List ℕ)

pub record ProviderRegistry : Type 0 where
  pub primary : Provider
  pub secondary : Option Provider
  pub tertiary : Option Provider
  pub primary_id : String
  pub secondary_id : String
  pub tertiary_id : String

-- `GetProvider`
unfoldable pub get_provider : ProviderRegistry → String → Option Provider
get_provider r id =
    if str_eq id r.primary_id
    then some r.primary
    else if str_eq id r.secondary_id
    then r.secondary
    else if str_eq id r.tertiary_id
    then r.tertiary
    else none

-- The bytes with the id of the provider that served them.
abbrev pub served_by :
    String → Option (List ℕ) → Option (List ℕ × String) → Option (List ℕ × String)
served_by id none otherwise = otherwise
served_by id (some bytes) otherwise = some (bytes, id)

abbrev pub try_tertiary :
    ProviderRegistry → (Provider → Option (List ℕ)) → Option Provider → Option (List ℕ × String)
try_tertiary r read none = none
try_tertiary r read (some p) = served_by r.tertiary_id (read p) none

-- The third provider is tried only where there is a second.
abbrev pub try_secondary :
    ProviderRegistry → (Provider → Option (List ℕ)) → Option Provider → Option (List ℕ × String)
try_secondary r read none = none
try_secondary r read (some p) = served_by r.secondary_id (read p) (try_tertiary r read r.tertiary)

-- `GetObjectWithFallback`
unfoldable pub get_object_with_fallback : ProviderRegistry → String → Option (List ℕ × String)
get_object_with_fallback r name =
    served_by r.primary_id (r.primary.get_object name)
      (try_secondary r (λ p. p.get_object name) r.secondary)

-- `GetObjectChunkWithFallback`
unfoldable pub get_object_chunk_with_fallback :
    ProviderRegistry → String → ℤ → ℤ → Option (List ℕ × String)
get_object_chunk_with_fallback r name offset size =
    served_by r.primary_id (r.primary.get_object_chunk name offset size)
      (try_secondary r (λ p. p.get_object_chunk name offset size) r.secondary)

pub data CopyError : Type 0 where
  get_failed read_failed put_failed initiate_failed copy_canceled part_read_failed : CopyError
  part_upload_failed complete_failed : CopyError

-- The calls of a copy that fail, by the part's number for those of the loop, and SHA-256.
pub record CopyEnv : Type 0 where
  pub read_fails : Bool
  pub put_fails : Bool
  pub initiate_fails : Bool
  pub is_canceled : ℕ → Bool
  pub part_read_fails : ℕ → Bool
  pub part_upload_fails : ℕ → Bool
  pub complete_fails : Bool
  pub sha256_hex : List ℕ → List ℕ

abbrev pub copy_multipart_part_size : ℕ
copy_multipart_part_size = 64 * 1024 * 1024

abbrev pub copy_multipart_threshold : ℤ
copy_multipart_threshold = pos (5 * 1024 * 1024)

-- How the loop ends: the parts with their numbers and the bytes that the hash has read, or an error.
pub data LoopEnd : Type 0 where
  loop_done : List (ℕ × List ℕ) → List ℕ → LoopEnd
  loop_failed : CopyError → LoopEnd
  out_of_fuel : LoopEnd

unfoldable pub stop_if : Bool → LoopEnd → LoopEnd → LoopEnd
stop_if true stop rest = stop
stop_if false stop rest = rest

-- The loop, from a part's number on, with what remains of the size and of the stream. A part that
-- comes out short is uploaded as it is, but an empty one is an error.
unfoldable pub copy_parts : CopyEnv → ℕ → ℕ → ℕ → List ℕ → List ℕ → List (ℕ × List ℕ) → LoopEnd
copy_parts env zero number remaining unread hashed parts = out_of_fuel
copy_parts env (suc fuel) number remaining unread hashed parts =
    let size = min copy_multipart_part_size remaining in
    let part = take size unread in
    let rest =
      copy_parts env fuel (number + 1) (remaining - size) (drop size unread) (hashed ++ part)
        (parts ++ (number, part) ∷ []) in
    stop_if (remaining == 0) (loop_done parts hashed) (
      stop_if (env.is_canceled number) (loop_failed copy_canceled) (
        stop_if (env.part_read_fails number || (length unread == 0)) (loop_failed part_read_failed)
          (stop_if (env.part_upload_fails number) (loop_failed part_upload_failed) rest)))

abbrev pub part_bytes : List (ℕ × List ℕ) → List ℕ
part_bytes [] = []
part_bytes ((number, part) ∷ rest) = part ++ part_bytes rest

-- The hash that is returned and what the destination holds then, or an error.
pub data CopyEnd : Type 0 where
  copied : List ℕ → List ℕ → CopyEnd
  copy_failed : CopyError → CopyEnd
  copy_out_of_fuel : CopyEnd

abbrev pub complete_copy : CopyEnv → LoopEnd → CopyEnd
complete_copy env out_of_fuel = copy_out_of_fuel
complete_copy env (loop_failed error) = copy_failed error
complete_copy env (loop_done parts hashed) =
    if env.complete_fails
    then copy_failed complete_failed
    else copied (env.sha256_hex hashed) (part_bytes parts)

abbrev pub copy_small : CopyEnv → List ℕ → CopyEnd
copy_small env stream =
    if env.read_fails
    then copy_failed read_failed
    else if env.put_fails
    then copy_failed put_failed
    else copied (env.sha256_hex stream) stream

-- A size above the threshold is a natural number.
abbrev pub copy_large : CopyEnv → ℤ → List ℕ → CopyEnd
copy_large env (negsuc n) stream = copy_small env stream
copy_large env (pos size) stream =
    let loop = copy_parts env (size + 1) 1 size stream [] [] in
    if env.initiate_fails then copy_failed initiate_failed else complete_copy env loop

abbrev pub copy_stream : CopyEnv → ℤ → Option (List ℕ) → CopyEnd
copy_stream env object_size none = copy_failed get_failed
copy_stream env object_size (some stream) =
    if leb_ℤ object_size copy_multipart_threshold
    then copy_small env stream
    else copy_large env object_size stream

-- `CopyObjectBetweenProviders`
unfoldable pub copy_object_between_providers : CopyEnv → String → Provider → ℤ → CopyEnd
unfolding copy_parts
copy_object_between_providers env name source object_size =
    copy_stream env object_size (source.get_object name)
