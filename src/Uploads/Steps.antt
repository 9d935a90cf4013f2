-- ===== src/Uploads/Steps.antt =====
-- The steps of the upload handlers, and what one step can do to the rows of the database.
use arkfile.Base.{◌≡◌, ◌⊎◌, ap, inl, inr, ◌∙◌, Option, map, String}
use arkfile.Base.Int.{ℤ, pos}
use arkfile.Uploads.{completed, canceled, Session, State, Env, Reply, set_status_if, set_status}
use arkfile.Uploads.Create.{CreateRequest, new_session, create_upload_session}
use arkfile.Uploads.Cancel.{cancel_upload}
use arkfile.Uploads.Chunk.{ChunkRequest, upload_chunk}
use arkfile.Uploads.Complete.{complete_upload}
use arkfile.Uploads.Delete.{delete_file}
use arkfile.Uploads.Outcomes.{Ends, unchanged, changed, IsCreated, create_upload_session-Ends}
use arkfile.Uploads.Endings.{IsServed, cancel_upload-Ends, IsUploaded, upload_chunk-Ends}
use arkfile.Uploads.Completion.{IsCompleted, complete_upload-Ends}
use arkfile.Uploads.Deletion.{IsSameCore, IsDeleted, stats-core, delete_file-Ends}

-- One call of a handler, whatever the outside does.
pub data Step (st : State) : State → Type 0 where
  creates :
      (env : Env) (id storage_id username : String) (request : Option CreateRequest)
      → Step st (create_upload_session env id storage_id username request st).0
  cancels : (env : Env) (username id : String) → Step st (cancel_upload env username id st).0
  uploads :
      (env : Env) (username id : String) (request : ChunkRequest)
      → Step st (upload_chunk env username id request st).0
  completes : (env : Env) (username id : String) → Step st (complete_upload env username id st).0
  deletes :
      (env : Env) (username file_id : String) → Step st (delete_file env username file_id st).0

-- A history: calls one after the other.
pub data Steps : State → State → Type 0 where
  stop : (st : State) → Steps st st
  step : (a b c : State) → Step a b → Steps b c → Steps a c

-- What a step can do to the database.
pub data Change (st : State) (after : State) : Type 0 where
  no_change : after.db.sessions ≡ st.db.sessions → after.db.chunks ≡ st.db.chunks → Change st after
  session_added :
      (env : Env) (id storage_id username : String) (request : CreateRequest)
      → IsCreated env (new_session env id storage_id username request) st after
      → Change st after
  session_canceled :
      (username id : String) (s : Session)
      → IsServed username id st s
      → after.db ≡ set_status id canceled st.db
      → Change st after
  chunk_added :
      (env : Env) (username id : String) (request : ChunkRequest) (s : Session) (number : ℤ)
      → IsUploaded env username id request st after s number
      → Change st after
  session_completed :
      (env : Env) (username id : String) → IsCompleted env username id st after → Change st after

unchanged_rows : {st after : State} → after.db ≡ st.db → Change st after
unchanged_rows same = no_change (ap (λ db. db.sessions) same) (ap (λ db. db.chunks) same)

from_Ends :
    {st : State} {Facts : State → Type 0} {result : State × Reply}
    → ((after : State) → Facts after → Change st after)
    → Ends st.db Facts result
    → Change st result.0
from_Ends f (unchanged same) = unchanged_rows same
from_Ends {result = result} f (changed facts) = f result.0 facts

deletion-Change :
    (username file_id : String) (st after : State)
    → IsSameCore st.db after.db ⊎ IsDeleted username file_id st after
    → Change st after
deletion-Change username file_id st after (inl core) = no_change core.same_sessions core.same_chunks
deletion-Change username file_id st after (inr d) =
    no_change (ap (λ db. db.sessions) d.removed ∙ d.core.same_sessions)
      (ap (λ db. db.chunks) d.removed ∙ d.core.same_chunks)

pub Step-Change : (st after : State) → Step st after → Change st after
Step-Change st _ (creates env id storage_id username request) =
    from_Ends (λ after (r, e, facts). session_added env id storage_id username r facts)
      (create_upload_session-Ends env id storage_id username request st)
Step-Change st _ (cancels env username id) =
    from_Ends (λ after (s, served, e). session_canceled username id s served e)
      (cancel_upload-Ends env username id st)
Step-Change st _ (uploads env username id request) =
    from_Ends (λ after (s, number, facts). chunk_added env username id request s number facts)
      (upload_chunk-Ends env username id request st)
Step-Change st _ (completes env username id) =
    from_Ends (λ after facts. session_completed env username id facts)
      (complete_upload-Ends env username id st)
Step-Change st _ (deletes env username file_id) =
    from_Ends (deletion-Change username file_id st) (delete_file-Ends env username file_id st)

-- The rows of the sessions that a completion leaves.
pub completed-sessions :
    (env : Env) (username id : String) (st after : State) (c : IsCompleted env username id st after)
    → after.db.sessions ≡ map (set_status_if c.session.id completed) st.db.sessions
completed-sessions env username id st after c =
    ap (λ db. db.sessions) c.recorded
    ∙ (stats-core env env.primary_id (pos 1) c.session.padded_size _).same_sessions

pub completed-chunks :
    (env : Env) (username id : String) (st after : State) (c : IsCompleted env username id st after)
    → after.db.chunks ≡ st.db.chunks
completed-chunks env username id st after c =
    ap (λ db. db.chunks) c.recorded
    ∙ (stats-core env env.primary_id (pos 1) c.session.padded_size _).same_chunks
