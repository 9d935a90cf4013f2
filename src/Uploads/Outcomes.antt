-- ===== src/Uploads/Outcomes.antt =====
-- How each handler of handlers/uploads.go ends: the database is as it was, or the handler has gone
-- through all of its checks.
use arkfile.Base.{
  or_false, ◌≡◌, refl, Bool, true, false, not, Option, none, some, List, [], ◌∷◌, ◌++◌, leb, String,
}
use arkfile.Uploads.{
  Session, FileMetadata, User, Db, State, Env, Refusal, Reply, guard, guard_some, find_session,
  has_some,
}
use arkfile.Uploads.Create.{
  CreateRequest, max_in_progress_upload_sessions_per_user, count_in_progress, new_session, swept,
  start_storage, insert_upload_session, create_checked, create_upload_session,
}

-- The database is unchanged, or the facts hold of the state that is left.
pub data Ends (db : Db) (Facts : State → Type 0) (result : State × Reply) : Type 0 where
  unchanged : result.0.db ≡ db → Ends db Facts result
  changed : Facts result.0 → Ends db Facts result

pub Ends-map :
    {db : Db} {Facts More : State → Type 0} {result : State × Reply}
    → ((after : State) → Facts after → More after)
    → Ends db Facts result
    → Ends db More result
Ends-map f (unchanged same) = unchanged same
Ends-map {result = result} f (changed facts) = changed (f result.0 facts)

pub guard-Ends :
    {db : Db} {Facts : State → Type 0} (b : Bool) (why : Refusal) (st : State)
    (rest : State × Reply)
    → st.db ≡ db
    → (b ≡ false → Ends db Facts rest)
    → Ends db Facts (guard b why st rest)
unfolding guard
guard-Ends true why st rest same go = unchanged same
guard-Ends false why st rest same go = go refl

pub guard_some-Ends :
    {A : Type 0} {db : Db} {Facts : State → Type 0} (o : Option A) (why : Refusal) (st : State)
    (rest : A → State × Reply)
    → st.db ≡ db
    → ((a : A) → o ≡ some a → Ends db Facts (rest a))
    → Ends db Facts (guard_some o why st rest)
unfolding guard_some
guard_some-Ends none why st rest same go = unchanged same
guard_some-Ends (some a) why st rest same go = go a refl

pub no_some : (o : Option Session) → has_some o ≡ false → o ≡ none
no_some none e = refl
no_some (some s) e = cc

pub no_some_file : (o : Option FileMetadata) → has_some o ≡ false → o ≡ none
no_some_file none e = refl
no_some_file (some f) e = cc

pub from_not : (b : Bool) → not b ≡ false → b ≡ true
from_not true e = refl
from_not false e = cc

pub record IsCreated (env : Env) (session : Session) (st after : State) : Type 0 where
  pub below_cap :
      leb max_in_progress_upload_sessions_per_user
        (count_in_progress session.owner_username (swept env session.owner_username st.db))
      ≡ false
  pub is_new : find_session session.id (swept env session.owner_username st.db) ≡ none
  pub row_added :
      after.db ≡ record st.db { sessions = swept env session.owner_username st.db ++ session ∷ [] }

start_storage-Ends :
    (env : Env) (session : Session) (rows : List Session) (st : State) (Facts : State → Type 0)
    → ((after : State) → after.db ≡ record st.db { sessions = rows ++ session ∷ [] } → Facts after)
    → Ends st.db Facts (start_storage env session rows st)
unfolding start_storage
start_storage-Ends env session rows st Facts done = guard-Ends _ _ _ _ refl (λ a.
    guard-Ends _ _ _ _ refl
      (λ b. guard-Ends _ _ _ _ refl (λ c. guard-Ends _ _ _ _ refl (λ d. changed (done _ refl)))))

insert_upload_session-Ends :
    (env : Env) (session : Session) (st : State)
    → Ends st.db (IsCreated env session st) (insert_upload_session env session st)
unfolding insert_upload_session
insert_upload_session-Ends env session st =
    let rows = swept env session.owner_username st.db in
    guard-Ends _ _ _ _ refl (λ a. guard-Ends _ _ _ _ refl (λ b. guard-Ends _ _ _ _ refl (λ c.
      guard-Ends _ _ _ _ refl (λ cap. guard-Ends _ _ _ _ refl (λ d. guard-Ends _ _ _ _ refl (λ e.
        guard-Ends _ _ _ _ refl (λ f. guard-Ends _ _ _ _ refl (λ g. guard-Ends _ _ _ _ refl (λ h.
          guard-Ends _ _ _ _ refl (λ i.
            start_storage-Ends env session rows st (IsCreated env session st) (λ after db. record {
              below_cap = cap;
              is_new = no_some (find_session session.id rows) (or_false _ _ i).1;
              row_added = db;
            })))))))))))

create_checked-Ends :
    (env : Env) (id storage_id username : String) (r : CreateRequest) (user : User) (st : State)
    → Ends st.db
        (λ after.
          (r' : CreateRequest) × (some r ≡ some r')
          × IsCreated env (new_session env id storage_id username r') st after)
        (create_checked env id storage_id username r user st)
unfolding create_checked
create_checked-Ends env id storage_id username r user st = guard-Ends _ _ _ _ refl (λ a.
    guard-Ends _ _ _ _ refl (λ b. guard-Ends _ _ _ _ refl (λ c.
      Ends-map (λ after done. (r, refl, done))
        (insert_upload_session-Ends env (new_session env id storage_id username r) st))))

-- A request for a session is refused without a change of the database, or the session is added.
pub create_upload_session-Ends :
    (env : Env) (id storage_id username : String) (request : Option CreateRequest) (st : State)
    → Ends st.db
        (λ after.
          (r : CreateRequest) × (request ≡ some r)
          × IsCreated env (new_session env id storage_id username r) st after)
        (create_upload_session env id storage_id username request st)
unfolding create_upload_session guard_some
create_upload_session-Ends env id storage_id username none st = unchanged refl
create_upload_session-Ends env id storage_id username (some r) st = guard-Ends _ _ _ _ refl (λ a.
    guard-Ends _ _ _ _ refl (λ b. guard-Ends _ _ _ _ refl (λ c. guard-Ends _ _ _ _ refl (λ d.
      guard-Ends _ _ _ _ refl (λ e. guard-Ends _ _ _ _ refl (λ f.
        guard_some-Ends _ _ _ _ refl
          (λ user g. create_checked-Ends env id storage_id username r user st)))))))
