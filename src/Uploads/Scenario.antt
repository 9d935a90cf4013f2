-- ===== src/Uploads/Scenario.antt =====
-- A state, requests and a history of the upload handlers, for the tests.
use arkfile.Base.{ℕ, zero, suc, true, false, some, List, [], ◌∷◌}
use arkfile.Base.Int.{pos, negsuc}
use arkfile.Uploads.{in_progress, completed, Session, User, State, Env}
use arkfile.Uploads.Create.{CreateRequest, create_upload_session}
use arkfile.Uploads.Chunk.{ChunkRequest, upload_chunk}
use arkfile.Uploads.Complete.{complete_upload}
use arkfile.Uploads.Steps.{creates, uploads, completes, Steps, stop, step}

abbrev pub repeat : ℕ → ℕ → List ℕ
repeat zero c = []
repeat (suc n) c = c ∷ repeat n c

abbrev pub hash_text : List ℕ
hash_text = repeat 64 48

abbrev pub env : Env
env = record {
  now = 1000;
  fails = λ s. false;
  file_id_race = false;
  storage_fails = λ s. false;
  removes = λ p i. true;
  new_upload_id = "upload-1";
  new_etag = "etag-1";
  sha256_hex = λ bytes. hash_text;
  random_bytes = λ n. repeat n 7;
  jitter = pos 1;
  is_canonical_uuid = λ s. true;
  primary_id = "primary";
  payments_enabled = false;
  plaintext_chunk_size = pos 16777216;
}

abbrev pub alice : User
alice = record { total_storage_bytes = pos 0; storage_limit_bytes = pos 1000; is_approved = true }

abbrev pub start : State
start = record {
  db = record {
    sessions = [];
    chunks = [];
    files = [];
    locations = [];
    providers = [];
    users = ("alice", alice) ∷ [];
    credits = [];
  };
  streaming_hash_states = [];
  stored_blob_hash_states = [];
  calls = [];
}

-- A file with no data: its one chunk is the padding.
abbrev pub request : CreateRequest
request = record {
  file_id = "file-1";
  metadata = record {
    encrypted_filename = "n";
    filename_nonce = "n";
    encrypted_sha256sum = "n";
    sha256sum_nonce = "n";
    encrypted_fek = "n";
    password_hint = "";
    password_type = "account";
  };
  total_size = pos 0;
  chunk_size = pos 2;
}

abbrev pub chunk_request : ChunkRequest
chunk_request = record {
  chunk_number = some (pos 0);
  chunk_hash = hash_text;
  content_length = negsuc 0;
  body = [];
}

abbrev pub created_state : State
created_state = (create_upload_session env "session-1" "storage-1" "alice" (some request) start).0

abbrev pub uploaded_state : State
uploaded_state = (upload_chunk env "alice" "session-1" chunk_request created_state).0

abbrev pub completed_state : State
completed_state = (complete_upload env "alice" "session-1" uploaded_state).0

abbrev pub history : Steps start completed_state
history =
    step start created_state completed_state
      (creates env "session-1" "storage-1" "alice" (some request))
      (step created_state uploaded_state completed_state
        (uploads env "alice" "session-1" chunk_request)
        (step uploaded_state completed_state completed_state (completes env "alice" "session-1")
          (stop completed_state)))

abbrev pub done_session : Session
done_session = record {
  id = "session-1";
  file_id = "file-1";
  metadata = request.metadata;
  owner_username = "alice";
  total_size = pos 0;
  chunk_size = pos 2;
  total_chunks = pos 1;
  storage_id = "storage-1";
  storage_upload_id = "upload-1";
  padded_size = pos 1;
  status = completed;
  expires_at = 87400;
}

abbrev pub open_session : Session
open_session = record done_session { status = in_progress }
