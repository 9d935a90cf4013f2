-- ===== src/Shares/Examples.antt =====
-- A test of the limit of a share at a concrete history.
use arkfile.Base.{◌+◌, ◌≤◌, refl, true, false, none, some, [], ◌∷◌, arith}
use arkfile.Base.Int.{pos}
use arkfile.Shares.{Share, ShareState, ChunkDownload, ShareEnv, find_share}
use arkfile.Shares.Limit.{History, first_chunks, first_chunks-max_accesses}

abbrev share : Share
share = record {
  share_id = "share-01";
  file_id = "file";
  expires_at = none;
  revoked_at = none;
  revoked_reason = none;
  download_token_hash = "hash";
  access_count = 0;
  max_accesses = some 1;
}

abbrev state : ShareState
state = record {
  shares = share ∷ [];
  files =
      (
        "file",
        record {
          storage_id = "object";
          size_bytes = pos 30;
          chunk_count = pos 1;
          chunk_size_bytes = pos 2;
        },
      )
      ∷ [];
  failed_attempts = [];
}

abbrev env : ShareEnv
env = record {
  now = 5;
  select_fails = false;
  update_fails = false;
  storage_serves = true;
  decode_base64 = λ s. some [];
  sha256_base64 = λ b. "hash";
  byte_length = λ s. 8;
  plaintext_chunk_size = pos 16777216;
}

abbrev request : ChunkDownload
request = record { share_id = "share-01"; chunk_index = 48 ∷ []; token = "token" }

-- Two requests that have both read the row before any access was counted.
abbrev history : History
history = (env, (request, some share)) ∷ (env, (request, some share)) ∷ []

first_chunks-max_accesses_example : first_chunks "share-01" history state + 0 ≤ 1
unfolding find_share
first_chunks-max_accesses_example =
    first_chunks-max_accesses "share-01" history state share 1 refl refl (omega arith)
