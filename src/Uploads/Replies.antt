-- ===== src/Uploads/Replies.antt =====
-- What holds of the state where `UploadChunk` gives a reply.
use arkfile.Base.{
  ℕ, ◌≡◌, ◌≢◌, refl, Bool, true, false, Option, none, some, List, [], ◌∷◌, ◌++◌, String,
}
use arkfile.Base.Int.{ℤ, pos, add64}
use arkfile.Uploads.{
  Session, upload_part, State, Env, Refusal, failed_upload, Reply, refused, chunk_uploaded, guard,
  guard_some, log_call, find_session,
}
use arkfile.Uploads.Chunk.{
  ChunkRequest, upload_data, hash_chunk, hash_blob, chunk_row, store_chunk, hash_and_store,
  upload_numbered, upload_found, upload_chunk,
}

-- Both hash states after a chunk.
abbrev pub hashed_state : Env → Session → ℤ → List ℕ → State → State
hashed_state env s number body st =
    hash_blob s (upload_data env s number body) (hash_chunk s body st)

abbrev pub stored_state : Env → Session → ℤ → ChunkRequest → State → State
stored_state env s number request st =
    let blob = upload_data env s number request.body in
    let sent =
      log_call
        (upload_part env.primary_id s.storage_id s.storage_upload_id (add64 number (pos 1)) blob)
        (hashed_state env s number request.body st) in
    record sent {
      db = record st.db {
        chunks = st.db.chunks ++ chunk_row env s number request.chunk_hash blob ∷ [];
      };
    }

guard-reply :
    (asked : Reply) (Facts : State → Type 0) (b : Bool) (why : Refusal) (st : State)
    (rest : State × Reply)
    → (refused why ≡ asked → Facts st)
    → (b ≡ false → rest.1 ≡ asked → Facts rest.0)
    → (guard b why st rest).1 ≡ asked
    → Facts (guard b why st rest).0
unfolding guard
guard-reply asked Facts true why st rest stop go = stop
guard-reply asked Facts false why st rest stop go = go refl

guard_some-reply :
    {A : Type 0} (asked : Reply) (Facts : State → Type 0) (o : Option A) (why : Refusal)
    (st : State) (rest : A → State × Reply)
    → (refused why ≡ asked → Facts st)
    → ((a : A) → o ≡ some a → (rest a).1 ≡ asked → Facts (rest a).0)
    → (guard_some o why st rest).1 ≡ asked
    → Facts (guard_some o why st rest).0
unfolding guard_some
guard_some-reply asked Facts none why st rest stop go = stop
guard_some-reply asked Facts (some a) why st rest stop go = go a refl

module _ (asked : Reply) (Facts : State → Type 0)
    (other : (why : Refusal) → why ≢ failed_upload → refused why ≡ asked → ⊥) where
  stopped : (why : Refusal) (st : State) → why ≢ failed_upload → refused why ≡ asked → Facts st
  stopped why st differs e = elim (other why differs e) [ ]

  store_replies :
      (env : Env) (s : Session) (number : ℤ) (request : ChunkRequest) (st : State)
      → (refused failed_upload ≡ asked → Facts (hashed_state env s number request.body st))
      → (chunk_uploaded number env.new_etag ≡ asked → Facts (stored_state env s number request st))
      → (hash_and_store env s number request.chunk_hash request.body st).1 ≡ asked
      → Facts (hash_and_store env s number request.chunk_hash request.body st).0
  unfolding hash_and_store store_chunk hash_chunk hash_blob
  store_replies env s number request st on_failure done =
      guard-reply asked Facts _ _ _ _ (stopped _ _ (λ e. cc)) (λ a.
        guard-reply asked Facts _ _ _ _ (stopped _ _ (λ e. cc)) (λ b.
          guard-reply asked Facts _ _ _ _ (stopped _ _ (λ e. cc)) (λ c.
            guard-reply asked Facts _ _ _ _ on_failure
              (λ d. guard-reply asked Facts _ _ _ _ (stopped _ _ (λ e. cc)) (λ e. done)))))

  pub upload_replies :
      (env : Env) (username id : String) (request : ChunkRequest) (st : State)
      → ((s : Session) (number : ℤ)
          → find_session id st.db.sessions ≡ some s
          → (refused failed_upload ≡ asked → Facts (hashed_state env s number request.body st))
            × (chunk_uploaded number env.new_etag ≡ asked
                → Facts (stored_state env s number request st)))
      → (upload_chunk env username id request st).1 ≡ asked
      → Facts (upload_chunk env username id request st).0
  unfolding upload_chunk upload_found upload_numbered
  upload_replies env username id request st ends =
      guard_some-reply asked Facts _ _ _ _ (stopped _ _ (λ e. cc)) (λ number p.
        guard-reply asked Facts _ _ _ _ (stopped _ _ (λ e. cc)) (λ a.
          guard_some-reply asked Facts _ _ _ _ (stopped _ _ (λ e. cc)) (λ s found.
            guard-reply asked Facts _ _ _ _ (stopped _ _ (λ e. cc)) (λ b.
              guard-reply asked Facts _ _ _ _ (stopped _ _ (λ e. cc)) (λ c.
                guard-reply asked Facts _ _ _ _ (stopped _ _ (λ e. cc)) (λ d.
                  guard-reply asked Facts _ _ _ _ (stopped _ _ (λ e. cc)) (λ f.
                    guard-reply asked Facts _ _ _ _ (stopped _ _ (λ e. cc)) (λ g.
                      guard-reply asked Facts _ _ _ _ (stopped _ _ (λ e. cc)) (λ h.
                        guard-reply asked Facts _ _ _ _ (stopped _ _ (λ e. cc)) (λ i.
                          guard-reply asked Facts _ _ _ _ (stopped _ _ (λ e. cc)) (λ j.
                            guard-reply asked Facts _ _ _ _ (stopped _ _ (λ e. cc)) (λ k.
                              guard-reply asked Facts _ _ _ _ (stopped _ _ (λ e. cc)) (λ l.
                                store_replies env s number request st (ends s number found).0
                                  (ends s number found).1)))))))))))))
