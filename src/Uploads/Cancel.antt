-- ===== src/Uploads/Cancel.antt =====
-- `CancelUpload` and `GetUploadStatus` of handlers/uploads.go.
use arkfile.Base.{◌&&◌, not, List, [], ◌∷◌, ltb, if◌then◌else◌, String, str_eq}
use arkfile.Base.Int.{ℤ, ltb_ℤ}
use arkfile.Base.Table.{erase}
use arkfile.Uploads.{
  canceled, is_in_progress, Session, ChunkRow, abort_multipart_upload, State, begin_tx, commit_tx,
  select_session, update_status, select_chunks, Env, failed_tx, failed_commit, session_not_found,
  failed_details, not_authorized, wrong_status, failed_status, failed_chunks, Reply,
  upload_canceled, upload_status, guard, guard_some, log_call, find_session, set_status,
}

abbrev pub drop_hash_states : String → State → State
drop_hash_states id st = record st {
  streaming_hash_states = erase id st.streaming_hash_states;
  stored_blob_hash_states = erase id st.stored_blob_hash_states;
}

abbrev pub abort_storage : Env → Session → State → State
abort_storage env s st =
    if not (str_eq s.storage_upload_id "") && not (str_eq s.storage_id "")
    then log_call (abort_multipart_upload env.primary_id s.storage_id s.storage_upload_id) st
    else st

unfoldable pub cancel_found : Env → String → String → State → Session → State × Reply
cancel_found env username id st s =
    let aborted = abort_storage env s st in
    guard (not (str_eq s.owner_username username)) not_authorized st (
      guard (not (is_in_progress s.status)) wrong_status st (
        guard (env.fails begin_tx) failed_tx st (
          guard (env.fails update_status) failed_status st (
            guard (env.fails commit_tx) failed_commit aborted (
              drop_hash_states id (record aborted { db = set_status id canceled st.db }),
              upload_canceled,
            )))))

-- `CancelUpload`
unfoldable pub cancel_upload : Env → String → String → State → State × Reply
unfolding cancel_found find_session
cancel_upload env username id st = guard (env.fails select_session) failed_details st (
    guard_some (find_session id st.db.sessions) session_not_found st
      (cancel_found env username id st))

-- `ORDER BY chunk_number ASC`, for rows whose numbers differ.
abbrev pub insert_by_number : ChunkRow → List ChunkRow → List ChunkRow
insert_by_number row [] = row ∷ []
insert_by_number row (c ∷ rest) =
    let later = insert_by_number row rest in
    if ltb_ℤ row.chunk_number c.chunk_number then row ∷ c ∷ rest else c ∷ later

unfoldable pub chunks_of : String → List ChunkRow → List ChunkRow
chunks_of id [] = []
chunks_of id (c ∷ rest) =
    let others = chunks_of id rest in
    if str_eq c.session_id id then insert_by_number c others else others

abbrev pub numbers : List ChunkRow → List ℤ
numbers [] = []
numbers (c ∷ rest) = c.chunk_number ∷ numbers rest

abbrev pub status_found : Env → String → String → State → Session → State × Reply
status_found env username id st s =
    guard (not (str_eq s.owner_username username)) not_authorized st (
      guard (env.fails select_chunks) failed_chunks st
        (st, upload_status s (numbers (chunks_of id st.db.chunks)) (ltb s.expires_at env.now)))

-- `GetUploadStatus`; the progress in percent is left out.
unfoldable pub get_upload_status : Env → String → String → State → State × Reply
unfolding find_session chunks_of
get_upload_status env username id st = guard (env.fails select_session) failed_details st (
    guard_some (find_session id st.db.sessions) session_not_found st
      (status_found env username id st))
