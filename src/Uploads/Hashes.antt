-- ===== src/Uploads/Hashes.antt =====
-- The hash states of an upload, and what is sent to storage, after a chunk.
use arkfile.Base.{
  ℕ, ◌<◌, ◌^◌, ◌≡◌, refl, sym, ap, ◌∙◌, Option, none, some, List, [], ◌∷◌, ◌++◌, String,
}
use arkfile.Base.Int.{ℤ, pos, add64}
use arkfile.Base.Table.{Table, lookup, insert, lookup-insert_self}
use arkfile.Uploads.{
  Session, StreamingHashState, upload_part, State, Env, Refusal, failed_upload, refused,
  chunk_uploaded, find_session, write_chunk, hash_or_new,
}
use arkfile.Uploads.Chunk.{ChunkRequest, upload_data, hash_chunk, hash_blob, upload_chunk}
use arkfile.Uploads.Sessions.{find_session-id, some_inj}
use arkfile.Uploads.Sent.{IsSent, upload_data-IsSent}
use arkfile.Uploads.Replies.{hashed_state, stored_state, upload_replies}

-- The bytes that a hash state of a session has read.
abbrev pub written_of : String → Table StreamingHashState → List ℕ
written_of id table = elim (lookup id table) [ none ↦ [] | some hash ↦ hash.written ]

abbrev bytes_of_hash : Option StreamingHashState → List ℕ
bytes_of_hash o = elim o [ none ↦ [] | some hash ↦ hash.written ]

hash_or_new-bytes :
    (id : String) (o : Option StreamingHashState) → (hash_or_new id o).written ≡ bytes_of_hash o
hash_or_new-bytes id none = refl
hash_or_new-bytes id (some hash) = refl

written_more :
    (id : String) (body : List ℕ) (table : Table StreamingHashState)
    → written_of id (insert id (write_chunk body (hash_or_new id (lookup id table))) table)
      ≡ written_of id table ++ body
written_more id body table =
    ap bytes_of_hash
      (lookup-insert_self id (write_chunk body (hash_or_new id (lookup id table))) table)
    ∙ ap (λ w. w ++ body) (hash_or_new-bytes id (lookup id table))

hash_chunk-written :
    (s : Session) (body : List ℕ) (st : State)
    → written_of s.id (hash_chunk s body st).streaming_hash_states
      ≡ written_of s.id st.streaming_hash_states ++ body
unfolding hash_chunk
hash_chunk-written s body st = written_more s.id body st.streaming_hash_states

hash_blob-written :
    (s : Session) (body blob : List ℕ) (st : State)
    → written_of s.id (hash_blob s blob (hash_chunk s body st)).stored_blob_hash_states
      ≡ written_of s.id st.stored_blob_hash_states ++ blob
unfolding hash_chunk hash_blob
hash_blob-written s body blob st = written_more s.id blob st.stored_blob_hash_states

uploaded_inj : {n m : ℤ} {e f : String} → chunk_uploaded n e ≡ chunk_uploaded m f → n ≡ m
uploaded_inj {n} {m} {e} {f} h = cc

refused_inj : {a b : Refusal} → refused a ≡ refused b → a ≡ b
refused_inj {a} {b} h = cc

not_uploaded : {why : Refusal} {n : ℤ} {e : String} → refused why ≡ chunk_uploaded n e → ⊥
not_uploaded {why} {n} {e} h = cc

taken_hashes :
    (env : Env) (s : Session) (number : ℤ) (request : ChunkRequest) (st : State)
    → (written_of s.id (stored_state env s number request st).streaming_hash_states
        ≡ written_of s.id st.streaming_hash_states ++ request.body)
      × (written_of s.id (stored_state env s number request st).stored_blob_hash_states
          ≡ written_of s.id st.stored_blob_hash_states ++ upload_data env s number request.body)
      × ((stored_state env s number request st).calls
          ≡ upload_part env.primary_id s.storage_id s.storage_upload_id
              (add64 number (pos 1))
              (upload_data env s number request.body)
            ∷ st.calls)
unfolding hash_chunk hash_blob
taken_hashes env s number request st = (
  hash_chunk-written s request.body st,
  hash_blob-written s request.body (upload_data env s number request.body) st,
  refl,
)

failed_hashes :
    (env : Env) (s : Session) (number : ℤ) (request : ChunkRequest) (st : State)
    → ((hashed_state env s number request.body st).db ≡ st.db)
      × ((hashed_state env s number request.body st).calls ≡ st.calls)
      × (written_of s.id (hashed_state env s number request.body st).streaming_hash_states
          ≡ written_of s.id st.streaming_hash_states ++ request.body)
unfolding hash_chunk hash_blob
failed_hashes env s number request st = (refl, refl, hash_chunk-written s request.body st)

uploaded_hashes :
    (env : Env) (username id : String) (request : ChunkRequest) (st : State) (s : Session)
    (number : ℤ) (etag : String)
    → find_session id st.db.sessions ≡ some s
    → (upload_chunk env username id request st).1 ≡ chunk_uploaded number etag
    → (written_of id (upload_chunk env username id request st).0.streaming_hash_states
        ≡ written_of id st.streaming_hash_states ++ request.body)
      × (written_of id (upload_chunk env username id request st).0.stored_blob_hash_states
          ≡ written_of id st.stored_blob_hash_states ++ upload_data env s number request.body)
      × ((upload_chunk env username id request st).0.calls
          ≡ upload_part env.primary_id s.storage_id s.storage_upload_id
              (add64 number (pos 1))
              (upload_data env s number request.body)
            ∷ st.calls)
uploaded_hashes env username id request st s number etag found =
    let is_id : s.id ≡ id = find_session-id id st.db.sessions s found in
    upload_replies (chunk_uploaded number etag)
      (λ after.
        (written_of id after.streaming_hash_states
          ≡ written_of id st.streaming_hash_states ++ request.body)
        × (written_of id after.stored_blob_hash_states
            ≡ written_of id st.stored_blob_hash_states ++ upload_data env s number request.body)
        × (after.calls
            ≡ upload_part env.primary_id s.storage_id s.storage_upload_id (add64 number (pos 1))
                (upload_data env s number request.body)
              ∷ st.calls))
      (λ why differs e. not_uploaded e) env username id request st
      (λ t n found'. (
        λ e. elim (not_uploaded e) [ ],
        λ e.
            let one : t ≡ s = some_inj (sym found' ∙ found) in
            let same : n ≡ number = uploaded_inj e in
            rw (one, same, sym is_id) (taken_hashes env s number request st),
      ))

-- Where a chunk is taken, there are bytes that are its body, and behind it, for the last chunk of a
-- session whose padded size is above its size, as many random bytes as the difference: just these
-- have been sent to storage, as the part of the chunk's number and one, the hash state of the stored
-- object has read them in addition, and the hash state of the encrypted data has read the body. For
-- a chunk count and a padded size below 2^63.
pub upload_chunk-hashes :
    (env : Env) (username id : String) (request : ChunkRequest) (st : State) (s : Session)
    (number : ℤ) (etag : String) (count total padded : ℕ)
    → find_session id st.db.sessions ≡ some s
    → s.total_chunks ≡ pos count
    → s.total_size ≡ pos total
    → s.padded_size ≡ pos padded
    → count < 2 ^ 63
    → padded < 2 ^ 63
    → (upload_chunk env username id request st).1 ≡ chunk_uploaded number etag
    → (blob : List ℕ) × IsSent env number count total padded request.body blob
      × (written_of id (upload_chunk env username id request st).0.streaming_hash_states
          ≡ written_of id st.streaming_hash_states ++ request.body)
      × (written_of id (upload_chunk env username id request st).0.stored_blob_hash_states
          ≡ written_of id st.stored_blob_hash_states ++ blob)
      × ((upload_chunk env username id request st).0.calls
          ≡ upload_part env.primary_id s.storage_id s.storage_upload_id (add64 number (pos 1)) blob
            ∷ st.calls)
upload_chunk-hashes env username id request st s number etag count total padded found c t w h k e =
    let hashes = uploaded_hashes env username id request st s number etag found e in
    (
      upload_data env s number request.body,
      upload_data-IsSent env s number request.body count total padded c t w h k,
      hashes.0,
      hashes.1,
      hashes.2,
    )

-- Where a chunk is refused since the storage call failed, nothing is stored or recorded, but the hash
-- state of the encrypted data has read the chunk's bytes: they count twice if the chunk is sent again.
pub upload_chunk-failed_upload :
    (env : Env) (username id : String) (request : ChunkRequest) (st : State)
    → (upload_chunk env username id request st).1 ≡ refused failed_upload
    → ((upload_chunk env username id request st).0.db ≡ st.db)
      × ((upload_chunk env username id request st).0.calls ≡ st.calls)
      × (written_of id (upload_chunk env username id request st).0.streaming_hash_states
          ≡ written_of id st.streaming_hash_states ++ request.body)
upload_chunk-failed_upload env username id request st =
    upload_replies (refused failed_upload)
      (λ after.
        (after.db ≡ st.db)
        × (after.calls ≡ st.calls)
        × (written_of id after.streaming_hash_states
            ≡ written_of id st.streaming_hash_states ++ request.body))
      (λ why differs e. differs (refused_inj e)) env username id request st
      (λ s n found. (
        λ e.
            let is_id : s.id ≡ id = find_session-id id st.db.sessions s found in
            rw (sym is_id) (failed_hashes env s n request st),
        λ e. elim (not_uploaded (sym e)) [ ],
      ))
