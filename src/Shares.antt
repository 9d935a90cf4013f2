-- ===== src/Shares.antt =====
-- `DownloadShareChunk` and the checks of ids and tokens in handlers/file_shares.go. A request reads
-- the share's row first and counts the access later, on the row that is there then: the row that was
-- read is an argument of its own, so that other requests can come in between.
pub mod Requests
pub mod Limit
mod Examples
use arkfile.Base.{
  ℕ, zero, suc, ◌+◌, Bool, true, false, ◌&&◌, ◌||◌, not, Option, none, some, List, [], ◌∷◌, map,
  ltb, leb, ◌==◌, if◌then◌else◌, String, str_eq, length,
}
use arkfile.Base.Int.{ℤ, pos, ltb_ℤ, leb_ℤ, eq_ℤ}
use arkfile.Base.Table.{Table, lookup}
use arkfile.Downloads.{
  ChunkRange, invalid_chunk_index, invalid_chunk_range, byte_range, check_index, range_at,
  default_if, parse_chunk_index,
}

-- A row of `file_share_keys`.
pub record Share : Type 0 where
  pub share_id : String
  pub file_id : String
  pub expires_at : Option ℕ
  pub revoked_at : Option ℕ
  pub revoked_reason : Option String
  pub download_token_hash : String
  pub access_count : ℕ
  pub max_accesses : Option ℕ

-- What the handler reads of `file_metadata`.
pub record SharedFile : Type 0 where
  pub storage_id : String
  pub size_bytes : ℤ
  pub chunk_count : ℤ
  pub chunk_size_bytes : ℤ

-- The rows, and the share ids of the failed attempts that the rate limit has been told of.
pub record ShareState : Type 0 where
  pub shares : List Share
  pub files : Table SharedFile
  pub failed_attempts : List String

pub record ChunkDownload : Type 0 where
  pub share_id : String
  pub chunk_index : List ℕ
  pub token : String

-- What the handler takes from outside: the time, whether the database and the storage serve it, the
-- base64 decoding, the base64 SHA-256 of a decoded token, and the length of a text in bytes.
pub record ShareEnv : Type 0 where
  pub now : ℕ
  pub select_fails : Bool
  pub update_fails : Bool
  pub storage_serves : Bool
  pub decode_base64 : String → Option (List ℕ)
  pub sha256_base64 : List ℕ → String
  pub byte_length : String → ℕ
  pub plaintext_chunk_size : ℤ

pub data ShareReply : Type 0 where
  invalid_index token_required share_not_found failed_request share_expired : ShareReply
  share_revoked : Option String → ShareReply
  invalid_token limit_reached failed_metadata bad_index bad_range storage_failed panicked :
      ShareReply
  -- the index, the storage id, and the range of bytes
  streams : ℤ → String → ℤ → ℤ → ShareReply

-- `hashDownloadToken`
abbrev pub hash_decoded : ShareEnv → Option (List ℕ) → Option String
hash_decoded env none = none
hash_decoded env (some token) = some (env.sha256_base64 token)

unfoldable pub hash_download_token : ShareEnv → String → Option String
hash_download_token env token = hash_decoded env (env.decode_base64 token)

abbrev pub eq_bytes : List ℕ → List ℕ → Bool
eq_bytes [] [] = true
eq_bytes (a ∷ s) (b ∷ t) = (a == b) && eq_bytes s t
eq_bytes s t = false

abbrev pub eq_decoded : Option (List ℕ) → Option (List ℕ) → Bool
eq_decoded (some a) (some b) = eq_bytes a b
eq_decoded a b = false

-- `constantTimeCompare`, of which the model has the result.
unfoldable pub constant_time_compare : ShareEnv → String → String → Bool
constant_time_compare env a b = eq_decoded (env.decode_base64 a) (env.decode_base64 b)

-- `isValidShareID`, on the code points of the id.
abbrev pub is_share_char : ℕ → Bool
is_share_char c =
    (leb 65 c && leb c 90)
    || (leb 97 c && leb c 122)
    || (leb 48 c && leb c 57)
    || (c == 45)
    || (c == 95)

abbrev pub all_share_chars : List ℕ → Bool
all_share_chars [] = true
all_share_chars (c ∷ s) = is_share_char c && all_share_chars s

unfoldable pub is_valid_share_id : List ℕ → Bool
is_valid_share_id s = (length s == 43) && all_share_chars s

-- The reasons that a revoked share tells.
abbrev pub told_reason : Option String → Option String
told_reason none = none
told_reason (some reason) =
    if str_eq reason "time" || str_eq reason "exhausted" then some reason else none

abbrev pub is_set : Option ℕ → Bool
is_set none = false
is_set (some t) = true

abbrev pub is_past : Option ℕ → ℕ → Bool
is_past none now = false
is_past (some t) now = ltb t now

abbrev pub is_exhausted : Share → Bool
is_exhausted share = elim share.max_accesses [ none ↦ false | some m ↦ leb m share.access_count ]

unfoldable pub find_share : String → List Share → Option Share
find_share id [] = none
find_share id (s ∷ rest) = if str_eq s.share_id id then some s else find_share id rest

-- `access_count = access_count + 1` where the row has the id and the limit allows it.
abbrev pub count_if : String → Share → Share
count_if id s =
    if str_eq s.share_id id && not (is_exhausted s)
    then record s { access_count = s.access_count + 1 }
    else s

-- Whether the update affects a row; a share id is unique.
abbrev pub is_counted : Option Share → Bool
is_counted none = false
is_counted (some s) = not (is_exhausted s)

abbrev pub stream_range : ShareEnv → ℤ → SharedFile → ℤ → ℤ → ShareReply
stream_range env index file start size =
    if env.storage_serves then streams index file.storage_id start size else storage_failed

-- A return before the end of the handler.
unfoldable pub guard :
    Bool → ShareReply → ShareState → ShareState × ShareReply → ShareState × ShareReply
guard true reply st rest = (st, reply)
guard false reply st rest = rest

-- From the count of the access on.
unfoldable pub count_and_stream :
    ShareEnv → String → ℤ → SharedFile → ℤ → ℤ → ShareState → ShareState × ShareReply
unfolding find_share
count_and_stream env id index file start size st =
    let counted = record st { shares = map (count_if id) st.shares } in
    let reply = stream_range env index file start size in
    guard (not (eq_ℤ index (pos 0))) reply st (
      guard env.update_fails failed_request st
        (guard (not (is_counted (find_share id st.shares))) limit_reached st (counted, reply)))

abbrev pub serve_range :
    ShareEnv → String → ℤ → SharedFile → ShareState → ChunkRange → ShareState × ShareReply
serve_range env id index file st invalid_chunk_index = (st, bad_index)
serve_range env id index file st invalid_chunk_range = (st, bad_range)
serve_range env id index file st (byte_range start size) =
    count_and_stream env id index file start size st

-- The file's row, with the defaults for files without chunk information.
abbrev pub serve_file :
    ShareEnv → String → ℤ → ShareState → Option SharedFile → ShareState × ShareReply
serve_file env id index st none = (st, failed_metadata)
serve_file env id index st (some file) = serve_range env id index file st (
    check_index index (default_if (eq_ℤ (pos 0)) (pos 1) file.chunk_count) (
      range_at index file.size_bytes
        (default_if (eq_ℤ (pos 0)) env.plaintext_chunk_size file.chunk_size_bytes)))

abbrev pub token_fits : ShareEnv → Share → Option String → Bool
token_fits env share none = false
token_fits env share (some hash) = constant_time_compare env hash share.download_token_hash

abbrev pub is_none : Option String → Bool
is_none none = true
is_none (some s) = false

-- The checks on the row that was read.
unfoldable pub serve_share :
    ShareEnv → String → ℤ → String → Share → ShareState → ShareState × ShareReply
unfolding hash_download_token constant_time_compare count_and_stream range_at
serve_share env id index token share st =
    let failed = record st { failed_attempts = id ∷ st.failed_attempts } in
    let hash = hash_download_token env token in
    guard (is_set share.revoked_at) (share_revoked (told_reason share.revoked_reason)) st (
      guard (is_past share.expires_at env.now) share_expired st (
        guard (is_none hash) invalid_token st (
          guard (not (token_fits env share hash)) invalid_token failed (
            guard (eq_ℤ index (pos 0) && is_exhausted share) limit_reached st
              (serve_file env id index st (lookup share.file_id st.files))))))

abbrev pub serve_found :
    ShareEnv → String → ℤ → String → Option Share → ShareState → ShareState × ShareReply
serve_found env id index token none st = (st, share_not_found)
serve_found env id index token (some share) st = serve_share env id index token share st

-- Without a token the log line cuts the id to 8 bytes, which panics for a shorter one.
abbrev pub no_token_reply : ShareEnv → String → ShareReply
no_token_reply env id = if ltb (env.byte_length id) 8 then panicked else token_required

abbrev pub serve_parsed :
    ShareEnv → ChunkDownload → Option Share → ShareState → Option ℤ → ShareState × ShareReply
serve_parsed env request read st none = (st, invalid_index)
serve_parsed env request read st (some index) =
    guard (str_eq request.token "") (no_token_reply env request.share_id) st (
      guard env.select_fails failed_request st
        (serve_found env request.share_id index request.token read st))

-- `DownloadShareChunk`, with the row that it read.
unfoldable pub download_share_chunk :
    ShareEnv → ChunkDownload → Option Share → ShareState → ShareState × ShareReply
unfolding serve_share parse_chunk_index
download_share_chunk env request read st =
    serve_parsed env request read st (parse_chunk_index request.chunk_index)
