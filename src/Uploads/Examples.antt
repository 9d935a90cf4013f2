-- ===== src/Uploads/Examples.antt =====
-- Tests of the upload handlers at concrete inputs.
use arkfile.Base.{◌≡◌, ◌≤◌, refl, sym, ap, Option, none, some, [], ◌∷◌, arith}
use arkfile.Base.Int.{ℤ, pos, ◌+ℤ◌, ◌-ℤ◌, ◌*ℤ◌, wrap64, add64, sub64, mul64, quot64}
use arkfile.Base.Table.{lookup, insert, erase}
use arkfile.Downloads.{total_chunks, completed_chunk_count, padding_block, calculate_padded_size}
use arkfile.Uploads.{FileMetadata, User, State, guard, guard_some, find_session, find_file}
use arkfile.Uploads.Create.{
  count_in_progress, start_storage, insert_upload_session, create_checked, create_upload_session,
}
use arkfile.Uploads.Cancel.{cancel_upload, chunks_of}
use arkfile.Uploads.Chunk.{
  is_hex_string, equal_fold, hash_chunk, hash_blob, store_chunk, hash_and_store, upload_numbered,
  upload_found, upload_chunk,
}
use arkfile.Uploads.Complete.{
  stored_size, record_file, complete_hashed, complete_found, complete_upload,
}
use arkfile.Uploads.Delete.{delete_file}
use arkfile.Uploads.Steps.{cancels, stop, step}
use arkfile.Uploads.Terminal.{Steps-ended}
use arkfile.Uploads.Cap.{Steps-count_in_progress}
use arkfile.Uploads.Counting.{occurs}
use arkfile.Uploads.Whole.{Steps-completed}
use arkfile.Uploads.FileBytes.{IsAccounted}
use arkfile.Uploads.Accounting.{complete_upload-IsAccounted, delete_file-IsAccounted}
use arkfile.Uploads.Scenario.{
  hash_text, env, alice, start, request, uploaded_state, completed_state, history, done_session,
  open_session,
}

completes_there : find_session "session-1" completed_state.db.sessions ≡ some done_session
unfolding find_session create_upload_session create_checked insert_upload_session start_storage
    guard guard_some lookup insert erase upload_chunk upload_found upload_numbered hash_and_store
    store_chunk hash_chunk hash_blob is_hex_string equal_fold complete_upload complete_found
    complete_hashed record_file chunks_of stored_size find_file total_chunks calculate_padded_size
    padding_block completed_chunk_count quot64 add64 sub64 mul64 wrap64 ◌+ℤ◌ ◌-ℤ◌ ◌*ℤ◌
completes_there = refl

-- A request to cancel comes too late.
abbrev late_state : State
late_state = (cancel_upload env "alice" "session-1" completed_state).0

Steps-ended_example : find_session "session-1" late_state.db.sessions ≡ some done_session
Steps-ended_example =
    Steps-ended "session-1" completed_state late_state done_session
      (step completed_state late_state late_state (cancels env "alice" "session-1")
        (stop late_state))
      completes_there (λ e. cc)

Steps-count_in_progress_example : count_in_progress "alice" completed_state.db.sessions ≤ 4
Steps-count_in_progress_example =
    Steps-count_in_progress "alice" start completed_state history (omega arith)

Steps-completed_example :
    (occurs "session-1" 0 completed_state.db.chunks ≡ 1)
    × (stored_size (chunks_of "session-1" completed_state.db.chunks) ≡ pos 1)
unfolding find_session
Steps-completed_example =
    Steps-completed "session-1" start completed_state done_session 1 0 history refl refl
      completes_there refl refl (omega arith)

abbrev usage_of : Option User → ℤ
usage_of none = pos 0
usage_of (some user) = user.total_storage_bytes

starts-IsAccounted : IsAccounted "alice" start.db
unfolding lookup
starts-IsAccounted user e = ap usage_of (sym e)

uploads_there : find_session "session-1" uploaded_state.db.sessions ≡ some open_session
unfolding find_session create_upload_session create_checked insert_upload_session start_storage
    guard guard_some lookup insert erase upload_chunk upload_found upload_numbered hash_and_store
    store_chunk hash_chunk hash_blob is_hex_string equal_fold find_file total_chunks
    calculate_padded_size padding_block quot64 add64 sub64 mul64 wrap64 ◌+ℤ◌ ◌-ℤ◌ ◌*ℤ◌
uploads_there = refl

uploaded-IsAccounted : IsAccounted "alice" uploaded_state.db
unfolding find_session create_upload_session create_checked insert_upload_session start_storage
    guard guard_some lookup insert erase upload_chunk upload_found upload_numbered hash_and_store
    store_chunk hash_chunk hash_blob is_hex_string equal_fold find_file total_chunks
    calculate_padded_size padding_block quot64 add64 sub64 mul64 wrap64 ◌+ℤ◌ ◌-ℤ◌ ◌*ℤ◌
uploaded-IsAccounted user e = ap usage_of (sym e)

complete_upload-IsAccounted_example : IsAccounted "alice" completed_state.db
unfolding find_session create_upload_session create_checked insert_upload_session start_storage
    guard guard_some lookup insert erase upload_chunk upload_found upload_numbered hash_and_store
    store_chunk hash_chunk hash_blob is_hex_string equal_fold find_file total_chunks
    calculate_padded_size padding_block quot64 add64 sub64 mul64 wrap64 ◌+ℤ◌ ◌-ℤ◌ ◌*ℤ◌
complete_upload-IsAccounted_example =
    complete_upload-IsAccounted env "alice" "alice" "session-1" uploaded_state open_session 0
      uploads_there refl (omega arith) uploaded-IsAccounted

-- A state with one file of 40 bytes.
abbrev stored_file : FileMetadata
stored_file = record {
  file_id = "file-2";
  storage_id = "storage-2";
  owner_username = "alice";
  metadata = request.metadata;
  encrypted_file_sha256sum = hash_text;
  stored_blob_sha256sum = hash_text;
  size_bytes = pos 40;
  padded_size = pos 65536;
  chunk_count = pos 1;
  chunk_size_bytes = pos 16777216;
}

abbrev stored_state : State
stored_state = record start {
  db = record start.db {
    files = stored_file ∷ [];
    users = ("alice", record alice { total_storage_bytes = pos 40 }) ∷ [];
  };
}

stored-IsAccounted : IsAccounted "alice" stored_state.db
unfolding lookup
stored-IsAccounted user e = ap usage_of (sym e)

delete_file-IsAccounted_example :
    IsAccounted "alice" (delete_file env "alice" "file-2" stored_state).0.db
unfolding find_file
delete_file-IsAccounted_example =
    delete_file-IsAccounted env "alice" "alice" "file-2" stored_state stored_file 40 refl refl
      (omega arith) (omega arith) stored-IsAccounted
