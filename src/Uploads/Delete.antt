-- ===== src/Uploads/Delete.antt =====
-- `DeleteFile` of handlers/uploads.go, with `RemoveObjectAll` of storage/registry.go. A row has its
-- padded size, as `CompleteUpload` writes it.
use arkfile.Base.{◌&&◌, not, List, [], ◌∷◌, map, if◌then◌else◌, String, str_eq}
use arkfile.Base.Int.{ℤ, negsuc, neg64}
use arkfile.Base.Table.{lookup}
use arkfile.Uploads.{
  FileMetadata, LocationStatus, deleted, delete_failed, is_active, FileStorageLocation, User, Db,
  remove_object, State, begin_tx, commit_tx, select_file, select_user, update_usage,
  select_locations, update_location, delete_file_row, op_remove, Env, failed_tx, failed_commit,
  not_authorized, failed_usage, file_not_found, failed_remove, failed_delete, Reply, file_deleted,
  guard, guard_some, log_call, find_file, new_usage, update_storage_usage,
  increment_storage_provider_stats,
}

unfoldable pub active_locations : String → List FileStorageLocation → List FileStorageLocation
active_locations file_id [] = []
active_locations file_id (l ∷ rest) =
    if str_eq l.file_id file_id && is_active l.status
    then l ∷ active_locations file_id rest
    else active_locations file_id rest

abbrev pub set_location_if :
    String → String → LocationStatus → FileStorageLocation → FileStorageLocation
set_location_if file_id provider_id status l =
    if str_eq l.file_id file_id && str_eq l.provider_id provider_id
    then record l { status = status }
    else l

abbrev pub update_file_storage_location_status : Env → String → String → LocationStatus → Db → Db
update_file_storage_location_status env file_id provider_id status db =
    if env.fails update_location
    then db
    else record db { locations = map (set_location_if file_id provider_id status) db.locations }

-- One location: the call to its provider, and what is recorded of the result. These statements are
-- outside the transaction.
abbrev pub remove_location : Env → String → ℤ → State → FileStorageLocation → State
remove_location env file_id padded_size st l =
    let called = log_call (remove_object l.provider_id l.storage_id) st in
    if env.removes l.provider_id l.storage_id
    then record called {
      db =
          increment_storage_provider_stats env l.provider_id (negsuc 0) (neg64 padded_size)
            (update_file_storage_location_status env file_id l.provider_id deleted st.db);
    }
    else record st {
      db = update_file_storage_location_status env file_id l.provider_id delete_failed st.db;
    }

unfoldable pub remove_locations : Env → String → ℤ → State → List FileStorageLocation → State
remove_locations env file_id padded_size st [] = st
remove_locations env file_id padded_size st (l ∷ rest) =
    remove_locations env file_id padded_size (remove_location env file_id padded_size st l) rest

-- `DELETE FROM file_metadata WHERE file_id = ?`, which takes the locations with it.
unfoldable pub without_file : String → List FileMetadata → List FileMetadata
without_file file_id [] = []
without_file file_id (f ∷ rest) =
    if str_eq f.file_id file_id then without_file file_id rest else f ∷ without_file file_id rest

abbrev pub without_locations : String → List FileStorageLocation → List FileStorageLocation
without_locations file_id [] = []
without_locations file_id (l ∷ rest) =
    if str_eq l.file_id file_id
    then without_locations file_id rest
    else l ∷ without_locations file_id rest

abbrev pub file_removed : String → Db → Db
file_removed file_id db = record db {
  files = without_file file_id db.files;
  locations = without_locations file_id db.locations;
}

abbrev pub user_refunded : Env → String → FileMetadata → State → User → State × Reply
user_refunded env username file st user = guard (env.fails update_usage) failed_usage st (
    guard (env.fails commit_tx) failed_commit st (
      record st {
        db =
            update_storage_usage username user (neg64 file.size_bytes)
              (file_removed file.file_id st.db);
      },
      file_deleted (new_usage user.total_storage_bytes (neg64 file.size_bytes))
          user.storage_limit_bytes,
    ))

unfoldable pub delete_rows : Env → String → FileMetadata → State → State × Reply
unfolding without_file
delete_rows env username file st = guard (env.fails delete_file_row) failed_delete st (
    guard (env.fails select_user) failed_usage st (
      guard_some (lookup username st.db.users) failed_usage st
        (user_refunded env username file st)))

-- The locations to delete at: none of them where they cannot be read.
abbrev pub locations_of : Env → String → Db → List FileStorageLocation
locations_of env file_id db =
    if env.fails select_locations then [] else active_locations file_id db.locations

abbrev pub delete_objects :
    Env → String → FileMetadata → State → List FileStorageLocation → State × Reply
delete_objects env username file st [] =
    guard (env.storage_fails op_remove) failed_remove st
      (delete_rows env username file (log_call (remove_object env.primary_id file.storage_id) st))
delete_objects env username file st (l ∷ rest) =
    delete_rows env username file (remove_locations env file.file_id file.padded_size st (l ∷ rest))

unfoldable pub delete_found : Env → String → State → FileMetadata → State × Reply
unfolding delete_rows active_locations remove_locations
delete_found env username st file =
    guard (not (str_eq file.owner_username username)) not_authorized st
      (delete_objects env username file st (locations_of env file.file_id st.db))

-- `DeleteFile`
unfoldable pub delete_file : Env → String → String → State → State × Reply
unfolding delete_found find_file
delete_file env username file_id st = guard (env.fails begin_tx) failed_tx st (
    guard (env.fails select_file) file_not_found st
      (guard_some (find_file file_id st.db.files) file_not_found st (delete_found env username st)))
