-- ===== src/Uploads/Endings.antt =====
-- How the handlers end that cancel and complete an upload, and that take a chunk.
use arkfile.Base.{
  or_false, ℕ, ◌≡◌, refl, true, false, ◌||◌, some, List, [], ◌∷◌, ◌++◌, String, str_eq,
}
use arkfile.Base.Int.{ℤ, pos, ltb_ℤ, leb_ℤ}
use arkfile.Uploads.{canceled, is_in_progress, Session, Db, State, Env, find_session, set_status}
use arkfile.Uploads.Cancel.{cancel_found, cancel_upload}
use arkfile.Uploads.Chunk.{
  ChunkRequest, equal_fold, upload_data, hash_chunk, hash_blob, has_chunk, chunk_row, store_chunk,
  hash_and_store, upload_numbered, upload_found, upload_chunk,
}
use arkfile.Uploads.Sessions.{abort_storage-db}
use arkfile.Uploads.Outcomes.{Ends, changed, guard-Ends, guard_some-Ends, from_not}

-- The session of a request that was served: its row, the user's own, in progress.
pub record IsServed (username id : String) (st : State) (s : Session) : Type 0 where
  pub found : find_session id st.db.sessions ≡ some s
  pub owned : str_eq s.owner_username username ≡ true
  pub open_ : is_in_progress s.status ≡ true

pub cancel_upload-Ends :
    (env : Env) (username id : String) (st : State)
    → Ends st.db
        (λ after.
          (s : Session) × IsServed username id st s × (after.db ≡ set_status id canceled st.db))
        (cancel_upload env username id st)
unfolding cancel_upload cancel_found
cancel_upload-Ends env username id st = guard-Ends _ _ _ _ refl (λ a.
    guard_some-Ends _ _ _ _ refl (λ s found. guard-Ends _ _ _ _ refl (λ owned.
      guard-Ends _ _ _ _ refl (λ open_. guard-Ends _ _ _ _ refl (λ b. guard-Ends _ _ _ _ refl (λ c.
        guard-Ends _ _ _ _ (abort_storage-db env s st) (λ d. changed (
          s,
          record { found = found; owned = from_not _ owned; open_ = from_not _ open_ },
          refl,
        ))))))))

pub record IsUploaded (env : Env) (username id : String) (request : ChunkRequest) (st after : State)
    (s : Session) (number : ℤ) : Type 0 where
  pub served : IsServed username id st s
  pub asked : request.chunk_number ≡ some number
  pub in_range : (ltb_ℤ number (pos 0) || leb_ℤ s.total_chunks number) ≡ false
  pub has_hash : equal_fold (env.sha256_hex request.body) request.chunk_hash ≡ true
  pub is_new : has_chunk s.id number st.db.chunks ≡ false
  pub row_added : after.db ≡ record st.db {
    chunks =
        st.db.chunks
        ++ chunk_row env s number request.chunk_hash (upload_data env s number request.body) ∷ [];
  }

store_chunk-Ends :
    (env : Env) (s : Session) (number : ℤ) (hash blob : List ℕ) (db : Db) (st : State)
    (Facts : State → Type 0)
    → st.db ≡ db
    → (has_chunk s.id number st.db.chunks ≡ false
        → (after : State)
        → after.db ≡ record st.db { chunks = st.db.chunks ++ chunk_row env s number hash blob ∷ [] }
        → Facts after)
    → Ends db Facts (store_chunk env s number hash blob st)
unfolding store_chunk
store_chunk-Ends env s number hash blob db st Facts same done = guard-Ends _ _ _ _ same (λ a.
    guard-Ends _ _ _ _ same
      (λ b. guard-Ends _ _ _ _ same (λ c. changed (done (or_false _ _ c).1 _ refl))))

hash_and_store-Ends :
    (env : Env) (s : Session) (number : ℤ) (hash chunk : List ℕ) (st : State)
    (Facts : State → Type 0)
    → (has_chunk s.id number st.db.chunks ≡ false
        → (after : State)
        → after.db ≡ record st.db {
          chunks =
              st.db.chunks ++ chunk_row env s number hash (upload_data env s number chunk) ∷ [];
        }
        → Facts after)
    → Ends st.db Facts (hash_and_store env s number hash chunk st)
unfolding hash_and_store hash_chunk hash_blob
hash_and_store-Ends env s number hash chunk st Facts done = guard-Ends _ _ _ _ refl (λ a.
    guard-Ends _ _ _ _ refl (λ b.
      store_chunk-Ends env s number hash (upload_data env s number chunk) st.db
        (hash_blob s (upload_data env s number chunk) (hash_chunk s chunk st)) Facts refl done))

pub upload_chunk-Ends :
    (env : Env) (username id : String) (request : ChunkRequest) (st : State)
    → Ends st.db
        (λ after.
          (s : Session) × (number : ℤ) × IsUploaded env username id request st after s number)
        (upload_chunk env username id request st)
unfolding upload_chunk upload_found upload_numbered
upload_chunk-Ends env username id request st = guard_some-Ends _ _ _ _ refl (λ number asked.
    guard-Ends _ _ _ _ refl (λ a. guard_some-Ends _ _ _ _ refl (λ s found.
      guard-Ends _ _ _ _ refl (λ b. guard-Ends _ _ _ _ refl (λ owned.
        guard-Ends _ _ _ _ refl (λ open_. guard-Ends _ _ _ _ refl (λ range.
          guard-Ends _ _ _ _ refl (λ c. guard-Ends _ _ _ _ refl (λ d. guard-Ends _ _ _ _ refl (λ e.
            guard-Ends _ _ _ _ refl (λ f. guard-Ends _ _ _ _ refl (λ g.
              guard-Ends _ _ _ _ refl (λ hash.
                hash_and_store-Ends env s number request.chunk_hash request.body st _
                  (λ new after row. (
                    s,
                    number,
                    record {
                      served = record {
                        found = found;
                        owned = from_not _ owned;
                        open_ = from_not _ open_;
                      };
                      asked = asked;
                      in_range = range;
                      has_hash = from_not _ hash;
                      is_new = new;
                      row_added = row;
                    },
                  )))))))))))))))
