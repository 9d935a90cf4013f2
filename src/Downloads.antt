-- ===== src/Downloads.antt =====
-- handlers/downloads.go, and the sizes that handlers/uploads.go, models/file.go and
-- utils/padding.go compute: the number of chunks of a file, the byte range of a chunk, and the
-- padded size. Sizes are int64; `chunk_size` is the plaintext size of a chunk, and each stored chunk
-- is 28 bytes longer. The configured plaintext size of a chunk is a parameter.
pub mod Counts
pub mod Ranges
pub mod Padding
mod Examples
use arkfile.Base.{
  ℕ, zero, suc, ◌+◌, ◌-◌, ◌*◌, Bool, true, false, ◌&&◌, ◌||◌, Option, none, some, List, [], ◌∷◌,
  ltb, leb, ◌==◌, if◌then◌else◌, String, str_eq, not,
}
use arkfile.Base.Int.{ℤ, pos, add64, sub64, mul64, quot64, ltb_ℤ, leb_ℤ}

-- nonce and tag: `AesGcmOverhead`
abbrev pub gcm_overhead : ℤ
gcm_overhead = pos 28

-- The number of chunks of a new session, for a chunk size that has been made positive.
unfoldable pub total_chunks : ℤ → ℤ → ℤ
total_chunks total_size chunk_size =
    let encrypted = add64 chunk_size gcm_overhead in
    if leb_ℤ total_size (pos 0)
    then pos 1
    else quot64 (sub64 (add64 total_size encrypted) (pos 1)) encrypted

-- The chunk count that `CompleteUpload` writes to the file's row.
unfoldable pub completed_chunk_count : ℤ → ℤ → ℤ
completed_chunk_count declared_size chunk_size_bytes =
    if ltb_ℤ (pos 0) declared_size && ltb_ℤ (pos 0) chunk_size_bytes
    then quot64 (sub64 (add64 declared_size chunk_size_bytes) (pos 1)) chunk_size_bytes
    else pos 1

-- `CalculatePaddedSize`, with the jitter that `rand.Int` draws.
abbrev pub max_ℤ : ℤ → ℤ → ℤ
max_ℤ a b = if ltb_ℤ a b then b else a

unfoldable pub padding_block : ℤ → ℤ
padding_block original_size = max_ℤ (quot64 original_size (pos 50)) (pos 65536)

unfoldable pub calculate_padded_size : ℤ → ℤ → ℤ
unfolding padding_block
calculate_padded_size jitter original_size =
    let block = padding_block original_size in
    add64 (mul64 (quot64 (sub64 (add64 original_size block) (pos 1)) block) block) jitter

-- `GetPaddingSize`
unfoldable pub get_padding_size : ℤ → ℤ → ℤ
get_padding_size original_size target_size =
    if leb_ℤ target_size original_size then pos 0 else sub64 target_size original_size

abbrev pub digit_step : ℤ → ℕ → ℤ
digit_step n c = add64 (mul64 n (pos 10)) (pos (c - 48))

-- `parseChunkIndex` on the code points of a text: `none` is its error.
abbrev pub parse_chunk_index_from : ℤ → List ℕ → Option ℤ
parse_chunk_index_from n [] = some n
parse_chunk_index_from n (c ∷ s) =
    let rest = parse_chunk_index_from (digit_step n c) s in
    if ltb c 48 || ltb 57 c then none else rest

unfoldable pub parse_chunk_index : List ℕ → Option ℤ
parse_chunk_index s = parse_chunk_index_from (pos 0) s

-- A byte range by its start and its length, or the error of the handler.
pub data ChunkRange : Type 0 where
  invalid_chunk_index invalid_chunk_range : ChunkRange
  byte_range : ℤ → ℤ → ChunkRange

abbrev pub bounded_end : ℤ → ℤ → ℤ
bounded_end size end_byte = if leb_ℤ size end_byte then sub64 size (pos 1) else end_byte

abbrev pub range_of : ℤ → ℤ → ChunkRange
range_of start actual =
    if leb_ℤ actual (pos 0) then invalid_chunk_range else byte_range start actual

-- The range of a chunk whose index has been checked.
unfoldable pub range_at : ℤ → ℤ → ℤ → ChunkRange
range_at index size chunk_size =
    let encrypted = add64 gcm_overhead chunk_size in
    let start = mul64 index encrypted in
    let end_byte = bounded_end size (sub64 (add64 start encrypted) (pos 1)) in
    range_of start (add64 (sub64 end_byte start) (pos 1))

abbrev pub check_index : ℤ → ℤ → ChunkRange → ChunkRange
check_index index count range =
    if ltb_ℤ index (pos 0) || leb_ℤ count index then invalid_chunk_index else range

-- What `DownloadFileChunk` reads of the file's row, and of the user's.
pub record FileRow : Type 0 where
  owner_username : String
  storage_id : String
  size_bytes : ℤ
  chunk_count : ℤ
  chunk_size_bytes : ℤ

pub data DownloadReply : Type 0 where
  bad_index database_failed not_found access_denied user_missing not_approved : DownloadReply
  bad_range storage_failed : DownloadReply
  -- the stream of a storage object's bytes from a start, with their number
  streamed : String → ℤ → ℤ → DownloadReply

abbrev pub default_if : (ℤ → Bool) → ℤ → ℤ → ℤ
default_if bad fallback size = if bad size then fallback else size

abbrev pub reply_range : Bool → String → ChunkRange → DownloadReply
reply_range served storage_id invalid_chunk_index = bad_index
reply_range served storage_id invalid_chunk_range = bad_range
reply_range served storage_id (byte_range start length) =
    if served then streamed storage_id start length else storage_failed

-- The user's approval, or `none` where the user cannot be read.
abbrev pub if_approved : Option Bool → DownloadReply → DownloadReply
if_approved none reply = user_missing
if_approved (some false) reply = not_approved
if_approved (some true) reply = reply

-- The row of the file is `none` where there is none.
abbrev pub download_file : ℤ → String → Option Bool → Bool → ℤ → Option FileRow → DownloadReply
download_file plaintext_chunk_size username approved served index none = not_found
download_file plaintext_chunk_size username approved served index (some file) =
    if not (str_eq file.owner_username username)
    then access_denied
    else if_approved approved (
        reply_range served file.storage_id (
          check_index index file.chunk_count (
            range_at index file.size_bytes (
              default_if (λ size. leb_ℤ size (pos 0)) plaintext_chunk_size file.chunk_size_bytes))))

-- The query for the row fails where there is no answer.
abbrev pub download_answered :
    ℤ → String → Option Bool → Bool → ℤ → Option (Option FileRow) → DownloadReply
download_answered plaintext_chunk_size username approved served index none = database_failed
download_answered plaintext_chunk_size username approved served index (some file) =
    download_file plaintext_chunk_size username approved served index file

abbrev pub download_parsed :
    ℤ → String → Option Bool → Bool → Option ℤ → Option (Option FileRow) → DownloadReply
download_parsed plaintext_chunk_size username approved served none answer = bad_index
download_parsed plaintext_chunk_size username approved served (some index) answer =
    download_answered plaintext_chunk_size username approved served index answer

-- `DownloadFileChunk`: `served` says whether one of the providers has the range.
unfoldable pub download_file_chunk :
    ℤ → String → Option Bool → Bool → List ℕ → Option (Option FileRow) → DownloadReply
unfolding parse_chunk_index range_at
download_file_chunk plaintext_chunk_size username approved served index answer =
    download_parsed plaintext_chunk_size username approved served (parse_chunk_index index) answer
