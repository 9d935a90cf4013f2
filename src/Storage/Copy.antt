-- ===== src/Storage/Copy.antt =====
-- The copy of an object ends, and what it writes is what it has hashed.
use arkfile.Base.{
  Bool-cases, ℕ, ◌+◌, ◌*◌, ◌≡◌, ◌≢◌, refl, sym, ap, inl, inr, ◌∙◌, Bool, true, false, Option, none,
  some, List, [], arith, if◌then◌else◌, String, take,
}
use arkfile.Base.Int.{ℤ, pos, negsuc, pos_part, leb_ℤ}
use arkfile.Storage.{
  Provider, CopyError, read_failed, put_failed, initiate_failed, complete_failed, CopyEnv, LoopEnd,
  part_bytes, CopyEnd, copied, copy_failed, copy_out_of_fuel, complete_copy, copy_small, copy_large,
  copy_stream, copy_object_between_providers,
}
use arkfile.Storage.Parts.{LoopWrites, wrote, gave_up, copy_parts-LoopWrites}

-- The copy has written and hashed the bytes, or has ended with an error.
data CopyWrites (env : CopyEnv) (read : List ℕ) : CopyEnd → Type 0 where
  has_copied :
      (hash held : List ℕ)
      → hash ≡ env.sha256_hex held
      → held ≡ read
      → CopyWrites env read (copied hash held)
  has_failed : (error : CopyError) → CopyWrites env read (copy_failed error)

either_copy :
    {env : CopyEnv} {read : List ℕ} (b : Bool) (error : CopyError) (end_ : CopyEnd)
    → CopyWrites env read end_
    → CopyWrites env read (if b then copy_failed error else end_)
either_copy true error end_ h = has_failed error
either_copy false error end_ h = h

complete_copy-CopyWrites :
    (env : CopyEnv) (read : List ℕ) (end_ : LoopEnd)
    → LoopWrites [] read [] end_
    → CopyWrites env read (complete_copy env end_)
complete_copy-CopyWrites env read _ (wrote done hashed d h) =
    either_copy env.complete_fails complete_failed _
      (has_copied (env.sha256_hex hashed) (part_bytes done) (ap env.sha256_hex (h ∙ sym d)) d)
complete_copy-CopyWrites env read _ (gave_up error) = has_failed error

copy_small-CopyWrites :
    (env : CopyEnv) (stream : List ℕ) → CopyWrites env stream (copy_small env stream)
copy_small-CopyWrites env stream =
    either_copy env.read_fails read_failed _
      (either_copy env.put_fails put_failed _ (has_copied (env.sha256_hex stream) stream refl refl))

-- The bytes of a source that are copied.
abbrev bytes_to_copy : ℤ → List ℕ → List ℕ
bytes_to_copy object_size stream =
    if leb_ℤ object_size (pos (5 * 1024 * 1024)) then stream else take (pos_part object_size) stream

above :
    (object_size : ℤ) (stream : List ℕ) (env : CopyEnv)
    → leb_ℤ object_size (pos (5 * 1024 * 1024)) ≡ false
    → CopyWrites env (take (pos_part object_size) stream) (copy_large env object_size stream)
above (negsuc n) stream env h = ground arith
above (pos n) stream env h = either_copy env.initiate_fails initiate_failed _ (
    complete_copy-CopyWrites env (take n stream) _
      (copy_parts-LoopWrites env (n + 1) 1 n stream [] [] (omega arith)))

copy_stream-CopyWrites :
    (env : CopyEnv) (object_size : ℤ) (stream : List ℕ)
    → CopyWrites env (bytes_to_copy object_size stream) (copy_stream env object_size (some stream))
copy_stream-CopyWrites env object_size stream =
    elim (Bool-cases (leb_ℤ object_size (pos (5 * 1024 * 1024)))) [
      | inl small ↦ rw (small) (copy_small-CopyWrites env stream)
      | inr large ↦ rw (large) (above object_size stream env large)
    ]

ended :
    {env : CopyEnv} {read : List ℕ} (end_ : CopyEnd)
    → CopyWrites env read end_
    → end_ ≢ copy_out_of_fuel
ended _ (has_copied hash held e f) no_fuel = cc
ended _ (has_failed error) no_fuel = cc

ended_stream :
    (env : CopyEnv) (object_size : ℤ) (stream : Option (List ℕ))
    → copy_stream env object_size stream ≢ copy_out_of_fuel
ended_stream env object_size none = λ no_fuel. cc
ended_stream env object_size (some stream) =
    ended (copy_stream env object_size (some stream))
      (copy_stream-CopyWrites env object_size stream)

-- Copying an object ends for every source, size and failure of calls: the fuel is never used up.
pub copy_object_between_providers-ends :
    (env : CopyEnv) (name : String) (source : Provider) (object_size : ℤ)
    → copy_object_between_providers env name source object_size ≢ copy_out_of_fuel
unfolding copy_object_between_providers
copy_object_between_providers-ends env name source object_size =
    ended_stream env object_size (source.get_object name)

copied_inj : {h h' d d' : List ℕ} → copied h d ≡ copied h' d' → (h ≡ h') × (d ≡ d')
copied_inj {h} {h'} {d} {d'} e = (cc, cc)

copied_is :
    {env : CopyEnv} {read : List ℕ} (hash held : List ℕ) (end_ : CopyEnd)
    → CopyWrites env read end_
    → end_ ≡ copied hash held
    → (hash ≡ env.sha256_hex held) × (held ≡ read)
copied_is {env} {read} hash held _ (has_copied hash' held' e f) same =
    let (one, two) = copied_inj same in (sym one ∙ e ∙ ap env.sha256_hex two, sym two ∙ f)
copied_is hash held _ (has_failed error) same = cc

-- If copying an object ends with a hash, then the hash is that of the bytes that the destination
-- holds, and those are the bytes of the source, or for a size above 5 MiB as many of them as the size
-- says.
pub copy_object_between_providers-copied :
    (env : CopyEnv) (name : String) (source : Provider) (object_size : ℤ)
    (stream hash held : List ℕ)
    → source.get_object name ≡ some stream
    → copy_object_between_providers env name source object_size ≡ copied hash held
    → (hash ≡ env.sha256_hex held)
      × (held ≡ (
          if leb_ℤ object_size (pos (5 * 1024 * 1024))
          then stream
          else take (pos_part object_size) stream))
unfolding copy_object_between_providers
copy_object_between_providers-copied env name source object_size stream hash held found same =
    copied_is hash held (copy_stream env object_size (some stream))
      (copy_stream-CopyWrites env object_size stream)
      (ap (copy_stream env object_size) (sym found) ∙ same)
