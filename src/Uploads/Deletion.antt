-- ===== src/Uploads/Deletion.antt =====
-- How the handler ends that deletes a file.
use arkfile.Base.{
  ◌≡◌, ◌⊎◌, refl, sym, ap, inl, inr, ◌∙◌, Bool, true, false, Option, none, some, List, [], ◌∷◌,
  arith, if◌then◌else◌, String, str_eq,
}
use arkfile.Base.Int.{ℤ, negsuc, neg64}
use arkfile.Base.Table.{lookup}
use arkfile.Uploads.{
  FileMetadata, LocationStatus, deleted, delete_failed, FileStorageLocation, ProviderStats, User,
  Db, remove_object, State, update_stats, Env, Reply, log_call, find_file, update_storage_usage,
  increment_found, increment_storage_provider_stats,
}
use arkfile.Uploads.Delete.{
  update_file_storage_location_status, remove_location, remove_locations, file_removed, delete_rows,
  locations_of, delete_objects, delete_found, delete_file,
}
use arkfile.Uploads.Outcomes.{Ends, unchanged, changed, guard-Ends, guard_some-Ends, from_not}

-- The same rows but for the storage locations and the providers' statistics.
pub record IsSameCore (before after : Db) : Type 0 where
  pub same_sessions : after.sessions ≡ before.sessions
  pub same_chunks : after.chunks ≡ before.chunks
  pub same_files : after.files ≡ before.files
  pub same_users : after.users ≡ before.users

-- What holds where a file has been deleted: `between` has the results of the removals.
pub record IsDeleted (username file_id : String) (st after : State) : Type 0 where
  pub file : FileMetadata
  pub user : User
  pub between : State
  pub found : find_file file_id st.db.files ≡ some file
  pub owned : str_eq file.owner_username username ≡ true
  pub user_found : lookup username st.db.users ≡ some user
  pub core : IsSameCore st.db between.db
  pub removed :
      after.db
      ≡ update_storage_usage username user
          (neg64 file.size_bytes)
          (file_removed file.file_id between.db)

core_refl : (db : Db) → IsSameCore db db
core_refl db = record {
  same_sessions = refl;
  same_chunks = refl;
  same_files = refl;
  same_users = refl;
}

core_trans : {a b c : Db} → IsSameCore a b → IsSameCore b c → IsSameCore a c
core_trans p q = record {
  same_sessions = q.same_sessions ∙ p.same_sessions;
  same_chunks = q.same_chunks ∙ p.same_chunks;
  same_files = q.same_files ∙ p.same_files;
  same_users = q.same_users ∙ p.same_users;
}

status-core :
    (env : Env) (file_id provider_id : String) (status : LocationStatus) (db : Db)
    → IsSameCore db (update_file_storage_location_status env file_id provider_id status db)
status-core env file_id provider_id status db = record {
  same_sessions = ground arith;
  same_chunks = ground arith;
  same_files = ground arith;
  same_users = ground arith;
}

found-core :
    (id : String) (objects bytes : ℤ) (stats : Option ProviderStats) (db : Db)
    → IsSameCore db (increment_found id objects bytes stats db)
found-core id objects bytes none db = core_refl db
found-core id objects bytes (some stats) db = record {
  same_sessions = refl;
  same_chunks = refl;
  same_files = refl;
  same_users = refl;
}

either_core :
    (b : Bool) (before x y : Db)
    → IsSameCore before x
    → IsSameCore before y
    → IsSameCore before (if b then x else y)
either_core true before x y p q = p
either_core false before x y p q = q

pub stats-core :
    (env : Env) (id : String) (objects bytes : ℤ) (db : Db)
    → IsSameCore db (increment_storage_provider_stats env id objects bytes db)
stats-core env id objects bytes db =
    either_core (env.fails update_stats) db _ _ (core_refl db)
      (found-core id objects bytes (lookup id db.providers) db)

either_state :
    (b : Bool) (before : Db) (x y : State)
    → IsSameCore before x.db
    → IsSameCore before y.db
    → IsSameCore before (if b then x else y).db
either_state true before x y p q = p
either_state false before x y p q = q

remove_location-core :
    (env : Env) (file_id : String) (size : ℤ) (st : State) (l : FileStorageLocation)
    → IsSameCore st.db (remove_location env file_id size st l).db
remove_location-core env file_id size st l =
    either_state (env.removes l.provider_id l.storage_id) st.db _ _
      (core_trans (status-core env file_id l.provider_id deleted st.db)
        (stats-core env l.provider_id (negsuc 0) (neg64 size) _))
      (status-core env file_id l.provider_id delete_failed st.db)

remove_locations-core :
    (env : Env) (file_id : String) (size : ℤ) (st : State) (ls : List FileStorageLocation)
    → IsSameCore st.db (remove_locations env file_id size st ls).db
unfolding remove_locations
remove_locations-core env file_id size st [] = core_refl st.db
remove_locations-core env file_id size st (l ∷ rest) =
    core_trans (remove_location-core env file_id size st l)
      (remove_locations-core env file_id size (remove_location env file_id size st l) rest)

-- The ends of a handler that starts after the removals.
from_core :
    (before : Db) (st : State) (Facts : State → Type 0) (result : State × Reply)
    → IsSameCore before st.db
    → Ends st.db Facts result
    → Ends before (λ after. IsSameCore before after.db ⊎ Facts after) result
from_core before st Facts result core (unchanged same) = changed (inl (rw (same) core))
from_core before st Facts result core (changed facts) = changed (inr facts)

delete_rows-Ends :
    (env : Env) (username file_id : String) (file : FileMetadata) (st between : State)
    → IsSameCore st.db between.db
    → find_file file_id st.db.files ≡ some file
    → str_eq file.owner_username username ≡ true
    → Ends between.db (IsDeleted username file_id st) (delete_rows env username file between)
unfolding delete_rows
delete_rows-Ends env username file_id file st between core found owned =
    guard-Ends _ _ _ _ refl (λ a. guard-Ends _ _ _ _ refl (λ b.
      guard_some-Ends _ _ _ _ refl (λ user user_found. guard-Ends _ _ _ _ refl (λ c.
        guard-Ends _ _ _ _ refl (λ d. changed record {
          file = file;
          user = user;
          between = between;
          found = found;
          owned = owned;
          user_found = ap (lookup username) (sym core.same_users) ∙ user_found;
          core = core;
          removed = refl;
        })))))

delete_objects-Ends :
    (env : Env) (username file_id : String) (file : FileMetadata) (st : State)
    (ls : List FileStorageLocation)
    → find_file file_id st.db.files ≡ some file
    → str_eq file.owner_username username ≡ true
    → Ends st.db
        (λ after. IsSameCore st.db after.db ⊎ IsDeleted username file_id st after)
        (delete_objects env username file st ls)
delete_objects-Ends env username file_id file st [] found owned =
    let called = log_call (remove_object env.primary_id file.storage_id) st in
    guard-Ends _ _ _ _ refl (λ a.
      from_core st.db called _ _ (core_refl st.db)
        (delete_rows-Ends env username file_id file st called (core_refl st.db) found owned))
delete_objects-Ends env username file_id file st (l ∷ rest) found owned =
    let between = remove_locations env file.file_id file.padded_size st (l ∷ rest) in
    let core = remove_locations-core env file.file_id file.padded_size st (l ∷ rest) in
    from_core st.db between _ _ core
      (delete_rows-Ends env username file_id file st between core found owned)

-- A deletion changes the locations and statistics at most, or it goes through.
pub delete_file-Ends :
    (env : Env) (username file_id : String) (st : State)
    → Ends st.db
        (λ after. IsSameCore st.db after.db ⊎ IsDeleted username file_id st after)
        (delete_file env username file_id st)
unfolding delete_file delete_found
delete_file-Ends env username file_id st = guard-Ends _ _ _ _ refl (λ a.
    guard-Ends _ _ _ _ refl (λ b. guard_some-Ends _ _ _ _ refl (λ file found.
      guard-Ends _ _ _ _ refl (λ owned.
        delete_objects-Ends env username file_id file st (locations_of env file.file_id st.db) found
          (from_not _ owned)))))
