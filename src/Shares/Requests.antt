-- ===== src/Shares/Requests.antt =====
-- What one request for a chunk of a share does to the shares.
use arkfile.Base.{
  ℕ, ◌≡◌, refl, Bool, true, false, ◌&&◌, not, Option, none, some, map, arith, if◌then◌else◌, String,
  str_eq,
}
use arkfile.Base.Int.{ℤ, pos, eq_ℤ}
use arkfile.Base.Table.{lookup}
use arkfile.Downloads.{
  parse_chunk_index, ChunkRange, invalid_chunk_index, invalid_chunk_range, byte_range,
}
use arkfile.Shares.{
  Share, SharedFile, ShareState, ChunkDownload, ShareEnv, ShareReply, streams, find_share, count_if,
  is_counted, stream_range, guard, count_and_stream, serve_range, serve_file, serve_share,
  no_token_reply, serve_parsed, download_share_chunk,
}

-- A first chunk that is streamed for the share.
abbrev pub first_chunk : String → ChunkDownload → ShareReply → ℕ
first_chunk id request (streams index storage_id start size) =
    if str_eq request.share_id id && eq_ℤ index (pos 0) then 1 else 0
first_chunk id request reply = 0

-- A request either keeps the shares, and streams no first chunk of the share, or counts an access
-- that the limit allows.
pub data Served (id : String) (request : ChunkDownload) (st : ShareState)
    (result : ShareState × ShareReply) : Type 0 where
  not_counted :
      result.0.shares ≡ st.shares
      → first_chunk id request result.1 ≡ 0
      → Served id request st result
  counted :
      is_counted (find_share request.share_id st.shares) ≡ true
      → result.0.shares ≡ map (count_if request.share_id) st.shares
      → Served id request st result

stream-other :
    (env : ShareEnv) (id : String) (request : ChunkDownload) (index : ℤ) (file : SharedFile)
    (start size : ℤ)
    → eq_ℤ index (pos 0) ≡ false
    → first_chunk id request (stream_range env index file start size) ≡ 0
stream-other env id request index file start size h = ground arith

guard-Served :
    {id : String} {request : ChunkDownload} {st : ShareState} (b : Bool) (reply : ShareReply)
    (stopped : ShareState) (rest : ShareState × ShareReply)
    → stopped.shares ≡ st.shares
    → (b ≡ true → first_chunk id request reply ≡ 0)
    → (b ≡ false → Served id request st rest)
    → Served id request st (guard b reply stopped rest)
unfolding guard
guard-Served true reply stopped rest same none_ go = not_counted same (none_ refl)
guard-Served false reply stopped rest same none_ go = go refl

refute_not : (b : Bool) → not b ≡ false → b ≡ true
refute_not true e = refl
refute_not false e = cc

refute_true : (b : Bool) → not b ≡ true → b ≡ false
refute_true true e = cc
refute_true false e = refl

count_and_stream-Served :
    (env : ShareEnv) (id : String) (request : ChunkDownload) (index : ℤ) (file : SharedFile)
    (start size : ℤ) (st : ShareState)
    → Served id request st (count_and_stream env request.share_id index file start size st)
unfolding count_and_stream
count_and_stream-Served env id request index file start size st =
    guard-Served _ _ _ _ refl
      (λ h. stream-other env id request index file start size (refute_true _ h))
      (λ a.
        guard-Served _ _ _ _ refl (λ b. refl)
          (λ b. guard-Served _ _ _ _ refl (λ c. refl) (λ c. counted (refute_not _ c) refl)))

serve_range-Served :
    (env : ShareEnv) (id : String) (request : ChunkDownload) (index : ℤ) (file : SharedFile)
    (st : ShareState) (range : ChunkRange)
    → Served id request st (serve_range env request.share_id index file st range)
serve_range-Served env id request index file st invalid_chunk_index = not_counted refl refl
serve_range-Served env id request index file st invalid_chunk_range = not_counted refl refl
serve_range-Served env id request index file st (byte_range start size) =
    count_and_stream-Served env id request index file start size st

serve_file-Served :
    (env : ShareEnv) (id : String) (request : ChunkDownload) (index : ℤ) (st : ShareState)
    (file : Option SharedFile)
    → Served id request st (serve_file env request.share_id index st file)
serve_file-Served env id request index st none = not_counted refl refl
serve_file-Served env id request index st (some file) =
    serve_range-Served env id request index file st _

serve_share-Served :
    (env : ShareEnv) (id : String) (request : ChunkDownload) (index : ℤ) (share : Share)
    (st : ShareState)
    → Served id request st (serve_share env request.share_id index request.token share st)
unfolding serve_share
serve_share-Served env id request index share st =
    guard-Served _ _ _ _ refl (λ a. refl)
      (λ a.
        guard-Served _ _ _ _ refl (λ b. refl)
          (λ b.
            guard-Served _ _ _ _ refl (λ c. refl)
              (λ c.
                guard-Served _ _ _ _ refl (λ d. refl)
                  (λ d.
                    guard-Served _ _ _ _ refl (λ e. refl)
                      (λ e.
                        serve_file-Served env id request index st
                          (lookup share.file_id st.files))))))

no_token :
    (env : ShareEnv) (id : String) (request : ChunkDownload)
    → first_chunk id request (no_token_reply env request.share_id) ≡ 0
no_token env id request = ground arith

serve_parsed-Served :
    (env : ShareEnv) (id : String) (request : ChunkDownload) (read : Option Share) (st : ShareState)
    (index : Option ℤ)
    → Served id request st (serve_parsed env request read st index)
serve_parsed-Served env id request read st none = not_counted refl refl
serve_parsed-Served env id request none st (some index) =
    guard-Served _ _ _ _ refl (λ a. (no_token env id request))
      (λ a. guard-Served _ _ _ _ refl (λ b. refl) (λ b. not_counted refl refl))
serve_parsed-Served env id request (some share) st (some index) =
    guard-Served _ _ _ _ refl (λ a. (no_token env id request))
      (λ a.
        guard-Served _ _ _ _ refl (λ b. refl)
          (λ b. serve_share-Served env id request index share st))

pub download_share_chunk-Served :
    (env : ShareEnv) (id : String) (request : ChunkDownload) (read : Option Share) (st : ShareState)
    → Served id request st (download_share_chunk env request read st)
unfolding download_share_chunk
download_share_chunk-Served env id request read st =
    serve_parsed-Served env id request read st (parse_chunk_index request.chunk_index)
