-- ===== src/Uploads/HashExamples.antt =====
-- Tests of the hash states at concrete inputs.
use arkfile.Base.{ℕ, List, arith, ◌≡◌, refl, true, some, [], ◌∷◌, ◌++◌}
use arkfile.Base.Int.{pos, ◌+ℤ◌, ◌-ℤ◌, ◌*ℤ◌, wrap64, add64, sub64, mul64, quot64}
use arkfile.Base.Table.{lookup, insert}
use arkfile.Downloads.{total_chunks, padding_block, calculate_padded_size}
use arkfile.Uploads.{
  Session, upload_part, State, Env, failed_upload, refused, chunk_uploaded, guard, guard_some,
  find_session, find_file,
}
use arkfile.Uploads.Create.{
  start_storage, insert_upload_session, create_checked, create_upload_session,
}
use arkfile.Uploads.Chunk.{
  ChunkRequest, is_hex_string, equal_fold, hash_chunk, hash_blob, store_chunk, hash_and_store,
  upload_numbered, upload_found, upload_chunk,
}
use arkfile.Uploads.Hashes.{written_of, upload_chunk-hashes, upload_chunk-failed_upload}
use arkfile.Uploads.Sent.{IsSent}
use arkfile.Uploads.Scenario.{env, start, chunk_request, created_state, open_session, repeat}

-- A session of one chunk of 30 bytes, with 3 bytes of padding, and a request with that chunk.
abbrev padded_session : Session
padded_session = record open_session { total_size = pos 30; padded_size = pos 33 }

abbrev padded_state : State
padded_state = record start { db = record start.db { sessions = padded_session ∷ [] } }

abbrev whole_request : ChunkRequest
whole_request = record chunk_request { body = repeat 30 5 }

session_there : find_session "session-1" padded_state.db.sessions ≡ some padded_session
unfolding find_session
session_there = refl

chunk_taken :
    (upload_chunk env "alice" "session-1" whole_request padded_state).1
    ≡ chunk_uploaded (pos 0) "etag-1"
unfolding find_session guard guard_some lookup insert upload_chunk upload_found upload_numbered
    hash_and_store store_chunk hash_chunk hash_blob is_hex_string equal_fold add64 sub64 wrap64 ◌+ℤ◌
    ◌-ℤ◌
chunk_taken = refl

abbrev taken_state : State
taken_state = (upload_chunk env "alice" "session-1" whole_request padded_state).0

upload_chunk-hashes_example :
    (blob : List ℕ) × IsSent env (pos 0) 1 30 33 (repeat 30 5) blob
    × (written_of "session-1" taken_state.streaming_hash_states
        ≡ written_of "session-1" padded_state.streaming_hash_states ++ repeat 30 5)
    × (written_of "session-1" taken_state.stored_blob_hash_states
        ≡ written_of "session-1" padded_state.stored_blob_hash_states ++ blob)
    × (taken_state.calls
        ≡ upload_part "primary" "storage-1" "upload-1" (add64 (pos 0) (pos 1)) blob
          ∷ padded_state.calls)
upload_chunk-hashes_example =
    upload_chunk-hashes env "alice" "session-1" whole_request padded_state padded_session (pos 0)
      "etag-1" 1 30 33 session_there refl refl refl (omega arith) (omega arith) chunk_taken

-- The storage is down.
abbrev env_down : Env
env_down = record env { storage_fails = λ op. true }

abbrev long_request : ChunkRequest
long_request = record chunk_request { body = 7 ∷ 8 ∷ [] }

abbrev failed_state : State
failed_state = (upload_chunk env_down "alice" "session-1" long_request created_state).0

chunk_failed :
    (upload_chunk env_down "alice" "session-1" long_request created_state).1 ≡ refused failed_upload
unfolding find_session create_upload_session create_checked insert_upload_session start_storage
    guard guard_some lookup insert upload_chunk upload_found upload_numbered hash_and_store
    store_chunk hash_chunk hash_blob is_hex_string equal_fold find_file total_chunks
    calculate_padded_size padding_block quot64 add64 sub64 mul64 wrap64 ◌+ℤ◌ ◌-ℤ◌ ◌*ℤ◌
chunk_failed = refl

upload_chunk-failed_upload_example :
    (failed_state.db ≡ created_state.db)
    × (failed_state.calls ≡ created_state.calls)
    × (written_of "session-1" failed_state.streaming_hash_states
        ≡ written_of "session-1" created_state.streaming_hash_states ++ 7 ∷ 8 ∷ [])
upload_chunk-failed_upload_example =
    upload_chunk-failed_upload env_down "alice" "session-1" long_request created_state chunk_failed
