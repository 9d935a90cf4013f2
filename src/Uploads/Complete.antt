-- ===== src/Uploads/Complete.antt =====
-- `CompleteUpload` of handlers/uploads.go; the replication to the secondary provider, which runs
-- after it, is left out.
use arkfile.Base.{not, List, [], ◌∷◌, ◌++◌, String, str_eq, length}
use arkfile.Base.Int.{ℤ, pos, eq_ℤ, add64}
use arkfile.Base.Table.{lookup}
use arkfile.Downloads.{completed_chunk_count}
use arkfile.Uploads.{
  completed, is_in_progress, Session, ChunkRow, FileMetadata, LocationStatus, active, User, Db,
  StreamingHashState, complete_multipart_upload, remove_object, State, begin_tx, commit_tx,
  select_session, update_status, count_chunks, select_chunks, sum_chunks, insert_file,
  insert_location, select_user, update_usage, op_complete, Env, failed_user, failed_tx,
  failed_count, file_id_conflict, failed_commit, session_not_found, failed_details, not_authorized,
  wrong_status, failed_status, not_all_chunks, failed_chunks, no_hash_state, no_blob_hash_state,
  failed_complete, failed_sum, size_mismatch, failed_file, failed_location, failed_usage, Reply,
  upload_completed, guard, guard_some, log_call, find_session, find_file, has_some, new_usage,
  update_storage_usage, increment_storage_provider_stats, set_status, finalize_hash,
}
use arkfile.Uploads.Cancel.{drop_hash_states, chunks_of}

abbrev pub complete_parts : List ChunkRow → List (ℤ × String)
complete_parts [] = []
complete_parts (c ∷ rest) = (add64 c.chunk_number (pos 1), c.etag) ∷ complete_parts rest

-- `SUM(chunk_size)`
unfoldable pub stored_size : List ChunkRow → ℤ
stored_size [] = pos 0
stored_size (c ∷ rest) = add64 c.chunk_size (stored_size rest)

abbrev pub new_file : Env → Session → StreamingHashState → StreamingHashState → FileMetadata
new_file env s hash blob_hash = record {
  file_id = s.file_id;
  storage_id = s.storage_id;
  owner_username = s.owner_username;
  metadata = s.metadata;
  encrypted_file_sha256sum = finalize_hash env hash;
  stored_blob_sha256sum = finalize_hash env blob_hash;
  size_bytes = s.total_size;
  padded_size = s.padded_size;
  chunk_count = completed_chunk_count s.total_size s.chunk_size;
  chunk_size_bytes = s.chunk_size;
}

abbrev pub insert_file_storage_location : String → String → String → LocationStatus → Db → Db
insert_file_storage_location file_id provider_id storage_id status db = record db {
  locations =
      db.locations
      ++ record {
        file_id = file_id;
        provider_id = provider_id;
        storage_id = storage_id;
        status = status;
      }
        ∷ [];
}

-- The rows that the transaction writes before the user's.
abbrev pub file_recorded : Env → Session → FileMetadata → Db → Db
file_recorded env s file db =
    increment_storage_provider_stats env env.primary_id (pos 1) s.padded_size (
      insert_file_storage_location s.file_id env.primary_id s.storage_id active
        (record (set_status s.id completed db) { files = db.files ++ file ∷ [] }))

abbrev pub user_charged : Env → Session → FileMetadata → State → User → State × Reply
user_charged env s file st user = guard (env.fails update_usage) failed_usage st (
    guard (env.fails commit_tx) failed_commit st (
      record st {
        db =
            update_storage_usage s.owner_username user s.total_size
              (file_recorded env s file st.db);
      },
      upload_completed s.file_id s.storage_id file.encrypted_file_sha256sum
          (new_usage user.total_storage_bytes s.total_size) user.storage_limit_bytes,
    ))

-- The transaction, after the upload is complete at the provider.
unfoldable pub record_file : Env → Session → FileMetadata → State → State × Reply
unfolding chunks_of stored_size find_file
record_file env s file st = guard (env.fails begin_tx) failed_tx st (
    guard (env.fails update_status) failed_status st (
      guard (env.fails sum_chunks) failed_sum st (
        guard (not (eq_ℤ (stored_size (chunks_of s.id st.db.chunks)) s.padded_size)) size_mismatch
          (log_call (remove_object env.primary_id s.storage_id) st)
          (guard (has_some (find_file s.file_id st.db.files)) file_id_conflict st (
            guard (env.fails insert_file) failed_file st (
              guard (env.fails insert_location) failed_location st (
                guard (env.fails select_user) failed_user st (
                  guard_some (lookup s.owner_username st.db.users) failed_user st
                    (user_charged env s file st)))))))))

unfoldable pub complete_hashed :
    Env → Session → State → StreamingHashState → StreamingHashState → State × Reply
unfolding record_file chunks_of
complete_hashed env s st hash blob_hash =
    let parts = complete_parts (chunks_of s.id st.db.chunks) in
    let cleaned = drop_hash_states s.id st in
    let call = complete_multipart_upload env.primary_id s.storage_id s.storage_upload_id parts in
    guard (env.storage_fails op_complete) failed_complete cleaned
      (record_file env s (new_file env s hash blob_hash) (log_call call cleaned))

abbrev pub complete_counted : Env → Session → State → State × Reply
complete_counted env s st =
    guard_some (lookup s.id st.streaming_hash_states) no_hash_state st (λ hash.
      guard_some (lookup s.id st.stored_blob_hash_states) no_blob_hash_state st
        (λ blob_hash. complete_hashed env s st hash blob_hash))

unfoldable pub complete_found : Env → String → State → Session → State × Reply
unfolding complete_hashed chunks_of
complete_found env username st s =
    guard (not (str_eq s.owner_username username)) not_authorized st (
      guard (not (is_in_progress s.status)) wrong_status st (
        guard (env.fails count_chunks) failed_count st (
          guard (not (eq_ℤ (pos (length (chunks_of s.id st.db.chunks))) s.total_chunks))
            not_all_chunks st
            (guard (env.fails select_chunks) failed_chunks st (complete_counted env s st)))))

-- `CompleteUpload`
unfoldable pub complete_upload : Env → String → String → State → State × Reply
unfolding complete_found find_session
complete_upload env username id st = guard (env.fails select_session) failed_details st (
    guard_some (find_session id st.db.sessions) session_not_found st
      (complete_found env username st))
