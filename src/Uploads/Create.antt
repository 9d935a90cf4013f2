-- ===== src/Uploads/Create.antt =====
-- `CreateUploadSession` of handlers/uploads.go, and `CheckStorageAvailable` of models/user.go.
use arkfile.Base.{
  ℕ, ◌+◌, ◌*◌, Bool, false, ◌&&◌, ◌||◌, not, Option, none, some, List, [], ◌∷◌, ◌++◌, map, ltb, leb,
  if◌then◌else◌, String, str_eq,
}
use arkfile.Base.Int.{ℤ, pos, ltb_ℤ, leb_ℤ, add64}
use arkfile.Base.Table.{lookup}
use arkfile.Downloads.{total_chunks, calculate_padded_size, not_approved, default_if}
use arkfile.Uploads.{
  in_progress, abandoned, is_in_progress, Metadata, Session, User, Db, initiate_multipart_upload,
  abort_multipart_upload, State, begin_tx, commit_tx, select_credits, read_random, abandon_expired,
  select_count, select_file, insert_session, update_upload_id, select_user, op_initiate, Env,
  invalid_request, invalid_file_id, missing_encrypted_filename, missing_encrypted_sha256sum,
  missing_encrypted_fek, invalid_password_type, failed_user, not_approved, payment_required,
  limit_exceeded, failed_tx, failed_cleanup, failed_count, too_many_in_progress, file_id_conflict,
  failed_uniqueness, failed_padding, failed_session, failed_initiate, failed_upload_id,
  failed_commit, Reply, session_created, guard, guard_some, log_call, find_session, find_file,
  has_some,
}

-- The request after its JSON has been read.
pub record CreateRequest : Type 0 where
  pub file_id : String
  pub metadata : Metadata
  pub total_size : ℤ
  pub chunk_size : ℤ

abbrev pub max_in_progress_upload_sessions_per_user : ℕ
max_in_progress_upload_sessions_per_user = 4

abbrev pub check_storage_available : User → ℤ → Bool
check_storage_available user size =
    leb_ℤ (add64 user.total_storage_bytes size) user.storage_limit_bytes

abbrev pub is_negative : Option ℤ → Bool
is_negative none = false
is_negative (some balance) = ltb_ℤ balance (pos 0)

-- Payments are enabled, and the balance can be read and is negative.
abbrev pub must_pay : Env → String → Db → Bool
must_pay env username db =
    env.payments_enabled
    && not (env.fails select_credits)
    && is_negative (lookup username db.credits)

abbrev pub is_password_type : String → Bool
is_password_type t = str_eq t "account" || str_eq t "custom"

-- `SET status = 'abandoned'` on the user's sessions that are in progress and have expired.
abbrev pub abandon_if_expired : ℕ → String → Session → Session
abandon_if_expired now username s =
    if str_eq s.owner_username username && is_in_progress s.status && ltb s.expires_at now
    then record s { status = abandoned }
    else s

abbrev pub count_in_progress : String → List Session → ℕ
count_in_progress username [] = 0
count_in_progress username (s ∷ rest) =
    if str_eq s.owner_username username && is_in_progress s.status
    then 1 + count_in_progress username rest
    else count_in_progress username rest

abbrev pub has_file_id : String → List Session → Bool
has_file_id file_id [] = false
has_file_id file_id (s ∷ rest) = str_eq s.file_id file_id || has_file_id file_id rest

-- The row that the insertion and the update of the upload id leave.
abbrev pub new_session : Env → String → String → String → CreateRequest → Session
new_session env session_id storage_id username request =
    let chunk_size =
      default_if (λ size. leb_ℤ size (pos 0)) env.plaintext_chunk_size request.chunk_size in
    record {
      id = session_id;
      file_id = request.file_id;
      metadata = request.metadata;
      owner_username = username;
      total_size = request.total_size;
      chunk_size = chunk_size;
      total_chunks = total_chunks request.total_size chunk_size;
      storage_id = storage_id;
      storage_upload_id = env.new_upload_id;
      padded_size = calculate_padded_size env.jitter request.total_size;
      status = in_progress;
      expires_at = env.now + 24 * 3600;
    }

abbrev pub swept : Env → String → Db → List Session
swept env username db = map (abandon_if_expired env.now username) db.sessions

-- From the call to the storage provider on; `st` is the state before the transaction.
unfoldable pub start_storage : Env → Session → List Session → State → State × Reply
start_storage env session rows st =
    let started = log_call (initiate_multipart_upload env.primary_id session.storage_id) st in
    let aborted =
      log_call (abort_multipart_upload env.primary_id session.storage_id session.storage_upload_id)
        started in
    guard (env.storage_fails op_initiate) failed_initiate st (
      guard (env.fails update_upload_id) failed_upload_id aborted (
        guard (env.fails commit_tx && not (str_eq session.storage_upload_id "")) failed_commit
          aborted
          (guard (env.fails commit_tx) failed_commit started (
            record started { db = record st.db { sessions = rows ++ session ∷ [] } },
            session_created session.id session.file_id session.chunk_size session.total_chunks
                session.expires_at,
          ))))

-- The transaction.
unfoldable pub insert_upload_session : Env → Session → State → State × Reply
unfolding start_storage find_file find_session
insert_upload_session env session st =
    let rows = swept env session.owner_username st.db in
    guard (env.fails begin_tx) failed_tx st (
      guard (env.fails abandon_expired) failed_cleanup st (
        guard (env.fails select_count) failed_count st (
          guard
            (leb max_in_progress_upload_sessions_per_user
              (count_in_progress session.owner_username rows))
            too_many_in_progress st
            (guard (env.fails select_file) failed_uniqueness st (
              guard (has_some (find_file session.file_id st.db.files)) file_id_conflict st (
                guard (has_file_id session.file_id rows) file_id_conflict st (
                  guard (env.fails read_random) failed_padding st (
                    guard env.file_id_race file_id_conflict st (
                      guard (env.fails insert_session || has_some (find_session session.id rows))
                        failed_session st (start_storage env session rows st))))))))))

-- The checks of the request.
unfoldable pub create_checked :
    Env → String → String → String → CreateRequest → User → State → State × Reply
unfolding insert_upload_session
create_checked env session_id storage_id username request user st =
    guard (not user.is_approved) not_approved st (
      guard (must_pay env username st.db) payment_required st (
        guard (not (check_storage_available user request.total_size)) limit_exceeded st
          (insert_upload_session env (new_session env session_id storage_id username request) st)))

abbrev pub create_bound : Env → String → String → String → State → CreateRequest → State × Reply
create_bound env session_id storage_id username st request =
    let m = request.metadata in
    guard (not (env.is_canonical_uuid request.file_id)) invalid_file_id st (
      guard (str_eq m.encrypted_filename "" || str_eq m.filename_nonce "")
        missing_encrypted_filename st
        (guard (str_eq m.encrypted_sha256sum "" || str_eq m.sha256sum_nonce "")
          missing_encrypted_sha256sum st
          (guard (str_eq m.encrypted_fek "") missing_encrypted_fek st (
            guard (not (is_password_type m.password_type)) invalid_password_type st (
              guard (env.fails select_user) failed_user st (
                guard_some (lookup username st.db.users) failed_user st
                  (λ user. create_checked env session_id storage_id username request user st)))))))

-- `CreateUploadSession`, with the ids that it mints; `none` is a body that is no JSON.
unfoldable pub create_upload_session :
    Env → String → String → String → Option CreateRequest → State → State × Reply
unfolding create_checked
create_upload_session env session_id storage_id username request st =
    guard_some request invalid_request st (create_bound env session_id storage_id username st)
