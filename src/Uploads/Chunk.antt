-- ===== src/Uploads/Chunk.antt =====
-- `UploadChunk` and `isHexString` of handlers/uploads.go.
use arkfile.Base.{
  ℕ, ◌+◌, ◌*◌, Bool, true, false, ◌&&◌, ◌||◌, not, Option, List, [], ◌∷◌, ◌++◌, leb, ◌==◌,
  if◌then◌else◌, String, str_eq, length,
}
use arkfile.Base.Int.{ℤ, pos, negsuc, ltb_ℤ, leb_ℤ, eq_ℤ, add64, sub64}
use arkfile.Base.Table.{lookup, insert}
use arkfile.Uploads.{
  is_in_progress, Session, ChunkRow, upload_part, State, select_session, read_random, insert_chunk,
  read_body, op_upload_part, Env, failed_padding, session_not_found, failed_details, not_authorized,
  wrong_status, invalid_chunk_number, padding_too_large, missing_chunk_hash, invalid_chunk_hash,
  chunk_too_small, chunk_too_large, failed_body, chunk_hash_mismatch, failed_upload, no_upload_id,
  failed_chunk_row, Reply, chunk_uploaded, guard, guard_some, log_call, find_session, write_chunk,
  hash_or_new,
}

-- The request: `none` for a chunk number that is no number; a content length of -1 is unknown.
pub record ChunkRequest : Type 0 where
  pub chunk_number : Option ℤ
  pub chunk_hash : List ℕ
  pub content_length : ℤ
  pub body : List ℕ

abbrev pub max_padding_per_chunk : ℤ
max_padding_per_chunk = pos (16 * 1024 * 1024)

abbrev pub is_hex_char : ℕ → Bool
is_hex_char c = (leb 48 c && leb c 57) || (leb 97 c && leb c 102) || (leb 65 c && leb c 70)

unfoldable pub is_hex_string : List ℕ → Bool
is_hex_string [] = true
is_hex_string (c ∷ s) = is_hex_char c && is_hex_string s

-- `strings.EqualFold` for texts of hexadecimal digits.
abbrev pub lower : ℕ → ℕ
lower c = if leb 65 c && leb c 90 then c + 32 else c

unfoldable pub equal_fold : List ℕ → List ℕ → Bool
equal_fold [] [] = true
equal_fold (a ∷ s) (b ∷ t) = (lower a == lower b) && equal_fold s t
equal_fold s t = false

-- A padding of more than 16 MiB.
abbrev pub pads_too_much : Session → Bool
pads_too_much s =
    ltb_ℤ s.total_size s.padded_size
    && ltb_ℤ max_padding_per_chunk (sub64 s.padded_size s.total_size)

abbrev pub is_last_chunk : Session → ℤ → Bool
is_last_chunk s number = eq_ℤ number (sub64 s.total_chunks (pos 1))

abbrev pub is_padded : Session → ℤ → Bool
is_padded s number = is_last_chunk s number && ltb_ℤ s.total_size s.padded_size

abbrev pub nat_of : ℤ → ℕ
nat_of (pos n) = n
nat_of (negsuc n) = 0

-- What is sent to the provider: the last chunk with its padding.
abbrev pub upload_data : Env → Session → ℤ → List ℕ → List ℕ
upload_data env s number chunk =
    if is_padded s number
    then chunk ++ env.random_bytes (nat_of (sub64 s.padded_size s.total_size))
    else chunk

-- The bytes added to the hash states.
unfoldable pub hash_chunk : Session → List ℕ → State → State
hash_chunk s chunk st = record st {
  streaming_hash_states =
      insert s.id (write_chunk chunk (hash_or_new s.id (lookup s.id st.streaming_hash_states)))
        st.streaming_hash_states;
}

unfoldable pub hash_blob : Session → List ℕ → State → State
hash_blob s blob st = record st {
  stored_blob_hash_states =
      insert s.id (write_chunk blob (hash_or_new s.id (lookup s.id st.stored_blob_hash_states)))
        st.stored_blob_hash_states;
}

abbrev pub has_chunk : String → ℤ → List ChunkRow → Bool
has_chunk id number [] = false
has_chunk id number (c ∷ rest) =
    (str_eq c.session_id id && eq_ℤ c.chunk_number number) || has_chunk id number rest

abbrev pub chunk_row : Env → Session → ℤ → List ℕ → List ℕ → ChunkRow
chunk_row env s number hash blob = record {
  session_id = s.id;
  chunk_number = number;
  chunk_hash = hash;
  chunk_size = pos (length blob);
  etag = env.new_etag;
}

-- The call to the provider and the insertion, which the UNIQUE constraint refuses for a chunk that
-- is there.
unfoldable pub store_chunk : Env → Session → ℤ → List ℕ → List ℕ → State → State × Reply
store_chunk env s number hash blob st =
    let sent =
      log_call
        (upload_part env.primary_id s.storage_id s.storage_upload_id (add64 number (pos 1)) blob)
        st in
    guard (str_eq s.storage_upload_id "") no_upload_id st (
      guard (env.storage_fails op_upload_part) failed_upload st (
        guard (env.fails insert_chunk || has_chunk s.id number st.db.chunks) failed_chunk_row sent (
          record sent {
            db = record st.db { chunks = st.db.chunks ++ chunk_row env s number hash blob ∷ [] };
          },
          chunk_uploaded number env.new_etag,
        )))

-- The hash states and the padding.
unfoldable pub hash_and_store : Env → Session → ℤ → List ℕ → List ℕ → State → State × Reply
unfolding hash_chunk hash_blob store_chunk
hash_and_store env s number hash chunk st =
    let hashed = hash_chunk s chunk st in
    let blob = upload_data env s number chunk in
    guard (is_padded s number && pads_too_much s) padding_too_large hashed (
      guard (is_padded s number && env.fails read_random) failed_padding hashed
        (store_chunk env s number hash blob (hash_blob s blob hashed)))

-- The checks of the hash, the sizes and the body.
unfoldable pub upload_numbered : Env → Session → ℤ → ChunkRequest → State → State × Reply
unfolding hash_and_store is_hex_string equal_fold
upload_numbered env s number request st =
    let known = not (eq_ℤ request.content_length (negsuc 0)) in
    guard (ltb_ℤ number (pos 0) || leb_ℤ s.total_chunks number) invalid_chunk_number st (
      guard (length request.chunk_hash == 0) missing_chunk_hash st (
        guard (not (length request.chunk_hash == 64) || not (is_hex_string request.chunk_hash))
          invalid_chunk_hash st
          (guard (known && ltb_ℤ request.content_length (pos 29)) chunk_too_small st (
            guard (known && ltb_ℤ (add64 env.plaintext_chunk_size (pos 28)) request.content_length)
              chunk_too_large st
              (guard (env.fails read_body) failed_body st (
                guard (not (equal_fold (env.sha256_hex request.body) request.chunk_hash))
                  chunk_hash_mismatch st
                  (hash_and_store env s number request.chunk_hash request.body st)))))))

unfoldable pub upload_found : Env → String → ℤ → ChunkRequest → State → Session → State × Reply
unfolding upload_numbered
upload_found env username number request st s = guard (pads_too_much s) padding_too_large st (
    guard (not (str_eq s.owner_username username)) not_authorized st (
      guard (not (is_in_progress s.status)) wrong_status st
        (upload_numbered env s number request st)))

abbrev pub upload_parsed : Env → String → String → ChunkRequest → State → ℤ → State × Reply
upload_parsed env username id request st number =
    guard (env.fails select_session) failed_details st (
      guard_some (find_session id st.db.sessions) session_not_found st
        (upload_found env username number request st))

-- `UploadChunk`
unfoldable pub upload_chunk : Env → String → String → ChunkRequest → State → State × Reply
unfolding upload_found find_session
upload_chunk env username id request st =
    guard_some request.chunk_number invalid_chunk_number st
      (upload_parsed env username id request st)
