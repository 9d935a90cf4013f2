-- ===== src/Uploads.antt =====
-- handlers/uploads.go, handlers/streaming_hash.go and the storage accounting of models/user.go,
-- models/storage_provider.go and models/file_storage_location.go: upload sessions, their chunks, the
-- files they become, and the storage that a user is charged for. This file has the state: the rows of
-- the database, the hash states in memory, and a log of the calls to the storage providers. A
-- handler runs as one step; each of its statements may fail, and then changes nothing. Bytes are
-- numbers, and a text that the code looks into is the list of its code points.
pub mod Create
pub mod Cancel
pub mod Chunk
pub mod Complete
pub mod Delete
pub mod Sessions
pub mod Outcomes
pub mod Endings
pub mod Completion
pub mod Deletion
pub mod Steps
pub mod Terminal
pub mod Cap
pub mod Counting
pub mod Rows
pub mod NewRows
pub mod Whole
pub mod Replies
pub mod Sent
pub mod Hashes
pub mod FileBytes
pub mod Accounting
pub mod Scenario
mod Examples
mod HashExamples
use arkfile.Base.{
  ℕ, zero, suc, ◌+◌, ◌-◌, Bool, true, false, ◌&&◌, ◌||◌, not, Option, none, some, List, [], ◌∷◌,
  ◌++◌, map, ltb, leb, ◌==◌, if◌then◌else◌, String, str_eq, length,
}
use arkfile.Base.Int.{ℤ, pos, negsuc, add64, ltb_ℤ, leb_ℤ}
use arkfile.Base.Table.{Table, lookup, insert}

pub data SessionStatus : Type 0 where
  in_progress completed canceled abandoned : SessionStatus

abbrev pub is_in_progress : SessionStatus → Bool
is_in_progress in_progress = true
is_in_progress s = false

-- What the client encrypts; the server only stores it.
pub record Metadata : Type 0 where
  encrypted_filename : String
  filename_nonce : String
  encrypted_sha256sum : String
  sha256sum_nonce : String
  encrypted_fek : String
  password_hint : String
  password_type : String

-- A row of `upload_sessions`.
pub record Session : Type 0 where
  id : String
  file_id : String
  metadata : Metadata
  owner_username : String
  total_size : ℤ
  chunk_size : ℤ
  total_chunks : ℤ
  storage_id : String
  storage_upload_id : String
  padded_size : ℤ
  status : SessionStatus
  expires_at : ℕ

-- A row of `upload_chunks`, unique by its session and number.
pub record ChunkRow : Type 0 where
  session_id : String
  chunk_number : ℤ
  chunk_hash : List ℕ
  chunk_size : ℤ
  etag : String

-- A row of `file_metadata`.
pub record FileMetadata : Type 0 where
  file_id : String
  storage_id : String
  owner_username : String
  metadata : Metadata
  encrypted_file_sha256sum : List ℕ
  stored_blob_sha256sum : List ℕ
  size_bytes : ℤ
  padded_size : ℤ
  chunk_count : ℤ
  chunk_size_bytes : ℤ

pub data LocationStatus : Type 0 where
  active pending failed deleted delete_failed : LocationStatus

abbrev pub is_active : LocationStatus → Bool
is_active active = true
is_active s = false

pub record FileStorageLocation : Type 0 where
  file_id : String
  provider_id : String
  storage_id : String
  status : LocationStatus

-- `total_objects` and `total_size_bytes` of a provider.
pub record ProviderStats : Type 0 where
  total_objects : ℤ
  total_size_bytes : ℤ

pub record User : Type 0 where
  total_storage_bytes : ℤ
  storage_limit_bytes : ℤ
  is_approved : Bool

pub record Db : Type 0 where
  sessions : List Session
  chunks : List ChunkRow
  files : List FileMetadata
  locations : List FileStorageLocation
  providers : Table ProviderStats
  users : Table User
  credits : Table ℤ

-- `StreamingHashState`: the bytes that its hash has read.
pub record StreamingHashState : Type 0 where
  written : List ℕ
  session_id : String
  total_bytes : ℤ

-- A call to a provider, by the provider's id, and the storage id.
pub data StorageCall : Type 0 where
  initiate_multipart_upload : String → String → StorageCall
  abort_multipart_upload : String → String → String → StorageCall
  -- with the upload id, the part's number and its bytes
  upload_part : String → String → String → ℤ → List ℕ → StorageCall
  -- with the upload id and the parts' numbers and tags
  complete_multipart_upload : String → String → String → List (ℤ × String) → StorageCall
  remove_object : String → String → StorageCall

-- The state of the server; `calls` has the latest call first.
pub record State : Type 0 where
  db : Db
  streaming_hash_states : Table StreamingHashState
  stored_blob_hash_states : Table StreamingHashState
  calls : List StorageCall

-- The statements of the handlers, of which each may fail.
pub data Stmt : Type 0 where
  begin_tx commit_tx select_session select_credits read_random : Stmt
  abandon_expired select_count select_file insert_session update_upload_id : Stmt
  update_status count_chunks select_chunks insert_chunk sum_chunks : Stmt
  insert_file insert_location update_stats select_user update_usage : Stmt
  select_locations update_location delete_file_row read_body write_hash : Stmt

-- The provider's operations.
pub data StorageOp : Type 0 where
  op_initiate op_upload_part op_complete op_remove : StorageOp

-- What the handlers take from outside: the time in seconds, the statements that fail, an insertion
-- that loses a race on file_id, the outcome of calls to the primary provider and of a removal at a
-- provider, its upload ids and tags, SHA-256 in hexadecimal, random bytes, the jitter of the padded
-- size, what `uuid.Parse` says of a canonical version 4 id, and the configuration.
pub record Env : Type 0 where
  now : ℕ
  fails : Stmt → Bool
  file_id_race : Bool
  storage_fails : StorageOp → Bool
  removes : String → String → Bool
  new_upload_id : String
  new_etag : String
  sha256_hex : List ℕ → List ℕ
  random_bytes : ℕ → List ℕ
  jitter : ℤ
  is_canonical_uuid : String → Bool
  primary_id : String
  payments_enabled : Bool
  plaintext_chunk_size : ℤ

pub data Refusal : Type 0 where
  invalid_request invalid_file_id missing_encrypted_filename missing_encrypted_sha256sum : Refusal
  missing_encrypted_fek invalid_password_type failed_user not_approved payment_required : Refusal
  limit_exceeded failed_tx failed_cleanup failed_count too_many_in_progress file_id_conflict :
      Refusal
  failed_uniqueness failed_padding failed_session failed_initiate failed_upload_id failed_commit :
      Refusal
  session_not_found failed_details not_authorized wrong_status failed_status : Refusal
  invalid_chunk_number padding_too_large missing_chunk_hash invalid_chunk_hash chunk_too_small :
      Refusal
  chunk_too_large failed_body chunk_hash_mismatch failed_hash failed_upload no_upload_id : Refusal
  failed_chunk_row not_all_chunks failed_chunks no_hash_state no_blob_hash_state : Refusal
  failed_complete failed_sum size_mismatch failed_file failed_location failed_usage : Refusal
  file_not_found failed_remove failed_delete : Refusal

pub data Reply : Type 0 where
  refused : Refusal → Reply
  -- session id, file id, chunk size, number of chunks, expiry
  session_created : String → String → ℤ → ℤ → ℕ → Reply
  upload_canceled : Reply
  chunk_uploaded : ℤ → String → Reply
  -- file id, storage id, hash, and the user's usage and limit
  upload_completed : String → String → List ℕ → ℤ → ℤ → Reply
  file_deleted : ℤ → ℤ → Reply
  -- status, chunk numbers, number of chunks, total size, whether the session has expired
  upload_status : Session → List ℤ → Bool → Reply

-- A return before the end of a handler.
unfoldable pub guard : Bool → Refusal → State → State × Reply → State × Reply
guard true why st rest = (st, refused why)
guard false why st rest = rest

unfoldable pub guard_some {ℓ} :
    {A : Type ℓ} → Option A → Refusal → State → (A → State × Reply) → State × Reply
guard_some none why st rest = (st, refused why)
guard_some (some a) why st rest = rest a

abbrev pub log_call : StorageCall → State → State
log_call call st = record st { calls = call ∷ st.calls }

-- `WHERE id = ?`
unfoldable pub find_session : String → List Session → Option Session
find_session id [] = none
find_session id (s ∷ rest) = if str_eq s.id id then some s else find_session id rest

-- `WHERE file_id = ?`
unfoldable pub find_file : String → List FileMetadata → Option FileMetadata
find_file id [] = none
find_file id (f ∷ rest) = if str_eq f.file_id id then some f else find_file id rest

abbrev pub has_some {ℓ} : {A : Type ℓ} → Option A → Bool
has_some none = false
has_some (some a) = true

-- `User.UpdateStorageUsage`, on the row.
abbrev pub new_usage : ℤ → ℤ → ℤ
new_usage total delta = let sum = add64 total delta in if ltb_ℤ sum (pos 0) then pos 0 else sum

abbrev pub update_storage_usage : String → User → ℤ → Db → Db
update_storage_usage username user delta db = record db {
  users =
      insert username
        (record user { total_storage_bytes = new_usage user.total_storage_bytes delta }) db.users;
}

-- `IncrementStorageProviderStats`
abbrev pub add_stats : ℤ → ℤ → ProviderStats → ProviderStats
add_stats objects bytes stats = record {
  total_objects = add64 stats.total_objects objects;
  total_size_bytes = add64 stats.total_size_bytes bytes;
}

abbrev pub increment_found : String → ℤ → ℤ → Option ProviderStats → Db → Db
increment_found id objects bytes none db = db
increment_found id objects bytes (some stats) db = record db {
  providers = insert id (add_stats objects bytes stats) db.providers;
}

abbrev pub increment_storage_provider_stats : Env → String → ℤ → ℤ → Db → Db
increment_storage_provider_stats env id objects bytes db =
    if env.fails update_stats
    then db
    else increment_found id objects bytes (lookup id db.providers) db

-- `UPDATE upload_sessions SET status = ? WHERE id = ?`
abbrev pub set_status_if : String → SessionStatus → Session → Session
set_status_if id status s = if str_eq s.id id then record s { status = status } else s

abbrev pub set_status : String → SessionStatus → Db → Db
set_status id status db = record db { sessions = map (set_status_if id status) db.sessions }

-- `NewStreamingHashState` and `WriteChunk`
abbrev pub new_streaming_hash_state : String → StreamingHashState
new_streaming_hash_state id = record { written = []; session_id = id; total_bytes = pos 0 }

abbrev pub write_chunk : List ℕ → StreamingHashState → StreamingHashState
write_chunk data_bytes hash = record hash {
  written = hash.written ++ data_bytes;
  total_bytes = add64 hash.total_bytes (pos (length data_bytes));
}

abbrev pub finalize_hash : Env → StreamingHashState → List ℕ
finalize_hash env hash = env.sha256_hex hash.written

-- The state of a session, or a new one.
abbrev pub hash_or_new : String → Option StreamingHashState → StreamingHashState
hash_or_new id none = new_streaming_hash_state id
hash_or_new id (some hash) = hash
