-- ===== src/Uploads/Completion.antt =====
-- How the handler ends that completes an upload.
use arkfile.Base.{◌≡◌, refl, true, none, some, length, String}
use arkfile.Base.Int.{pos, eq_ℤ}
use arkfile.Base.Table.{lookup}
use arkfile.Uploads.{
  Session, FileMetadata, User, Db, StreamingHashState, State, Env, find_file, update_storage_usage,
}
use arkfile.Uploads.Cancel.{chunks_of}
use arkfile.Uploads.Complete.{
  stored_size, new_file, file_recorded, record_file, complete_hashed, complete_found,
  complete_upload,
}
use arkfile.Uploads.Outcomes.{Ends, changed, guard-Ends, guard_some-Ends, no_some_file, from_not}
use arkfile.Uploads.Endings.{IsServed}

-- What holds where an upload has been completed.
pub record IsCompleted (env : Env) (username id : String) (st after : State) : Type 0 where
  pub session : Session
  pub hash : StreamingHashState
  pub blob_hash : StreamingHashState
  pub user : User
  pub served : IsServed username id st session
  pub all_there :
      eq_ℤ (pos (length (chunks_of session.id st.db.chunks))) session.total_chunks ≡ true
  pub size_right : eq_ℤ (stored_size (chunks_of session.id st.db.chunks)) session.padded_size ≡ true
  pub hash_found : lookup session.id st.streaming_hash_states ≡ some hash
  pub blob_hash_found : lookup session.id st.stored_blob_hash_states ≡ some blob_hash
  pub is_new : find_file session.file_id st.db.files ≡ none
  pub user_found : lookup session.owner_username st.db.users ≡ some user
  pub recorded :
      after.db
      ≡ update_storage_usage session.owner_username user session.total_size
          (file_recorded env session (new_file env session hash blob_hash) st.db)

record_file-Ends :
    (env : Env) (s : Session) (file : FileMetadata) (db : Db) (st : State) (Facts : State → Type 0)
    → st.db ≡ db
    → (eq_ℤ (stored_size (chunks_of s.id st.db.chunks)) s.padded_size ≡ true
        → find_file s.file_id st.db.files ≡ none
        → (user : User) → lookup s.owner_username st.db.users ≡ some user
        → (after : State)
        → after.db
          ≡ update_storage_usage s.owner_username user s.total_size (file_recorded env s file st.db)
        → Facts after)
    → Ends db Facts (record_file env s file st)
unfolding record_file
record_file-Ends env s file db st Facts same done = guard-Ends _ _ _ _ same (λ a.
    guard-Ends _ _ _ _ same (λ b. guard-Ends _ _ _ _ same (λ c. guard-Ends _ _ _ _ same (λ size.
      guard-Ends _ _ _ _ same (λ new. guard-Ends _ _ _ _ same (λ d. guard-Ends _ _ _ _ same (λ e.
        guard-Ends _ _ _ _ same (λ f. guard_some-Ends _ _ _ _ same (λ user found.
          guard-Ends _ _ _ _ same (λ g.
            guard-Ends _ _ _ _ same (λ h.
              changed (done (from_not _ size) (no_some_file _ new) user found _ refl))))))))))))

pub complete_upload-Ends :
    (env : Env) (username id : String) (st : State)
    → Ends st.db (IsCompleted env username id st) (complete_upload env username id st)
unfolding complete_upload complete_found complete_hashed
complete_upload-Ends env username id st = guard-Ends _ _ _ _ refl (λ a.
    guard_some-Ends _ _ _ _ refl (λ s found. guard-Ends _ _ _ _ refl (λ owned.
      guard-Ends _ _ _ _ refl (λ open_. guard-Ends _ _ _ _ refl (λ b.
        guard-Ends _ _ _ _ refl (λ count. guard-Ends _ _ _ _ refl (λ c.
          guard_some-Ends _ _ _ _ refl (λ hash hash_found.
            guard_some-Ends _ _ _ _ refl (λ blob_hash blob_found. guard-Ends _ _ _ _ refl (λ d.
              record_file-Ends env s (new_file env s hash blob_hash) st.db _ _ refl
                (λ size new user user_found after db. record {
                  session = s;
                  hash = hash;
                  blob_hash = blob_hash;
                  user = user;
                  served = record {
                    found = found;
                    owned = from_not _ owned;
                    open_ = from_not _ open_;
                  };
                  all_there = from_not _ count;
                  size_right = size;
                  hash_found = hash_found;
                  blob_hash_found = blob_found;
                  is_new = new;
                  user_found = user_found;
                  recorded = db;
                })))))))))))
