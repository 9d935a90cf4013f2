-- ===== src/Uploads/Accounting.antt =====
-- The storage that a user is charged for is the size of the files that the user owns.
use arkfile.Base.{
  ℕ, ◌+◌, ◌≡◌, ◌≤◌, ◌<◌, ◌^◌, refl, sym, ap, inl, inr, ◌∙◌, false, some, List, [], ◌∷◌, ◌++◌, arith,
  if◌then◌else◌, String, str_eq, eq_iff,
}
use arkfile.Base.Int.{pos, pos_part, neg64}
use arkfile.Base.Table.{lookup}
use arkfile.Uploads.{
  completed, Session, FileMetadata, active, Db, State, Env, Reply, find_session, find_file,
  new_usage, set_status,
}
use arkfile.Uploads.Complete.{
  new_file, insert_file_storage_location, file_recorded, complete_upload,
}
use arkfile.Uploads.Delete.{without_file, file_removed, delete_file}
use arkfile.Uploads.Sessions.{some_inj}
use arkfile.Uploads.Outcomes.{Ends, unchanged, changed}
use arkfile.Uploads.Completion.{IsCompleted, complete_upload-Ends}
use arkfile.Uploads.Deletion.{IsSameCore, IsDeleted, stats-core, delete_file-Ends}
use arkfile.Uploads.FileBytes.{
  file_bytes, count_files, IsAccounted, file_bytes-append, file_bytes-without_file, new_usage-add,
  new_usage-sub, IsAccounted-update,
}

completed-IsAccounted :
    (env : Env) (username user id : String) (st after : State) (n : ℕ)
    (c : IsCompleted env user id st after)
    → c.session.total_size ≡ pos n
    → file_bytes username st.db.files + n < 2 ^ 63
    → IsAccounted username st.db
    → IsAccounted username after.db
completed-IsAccounted env username user id st after n c size bound h =
    let s = c.session in
    let file = new_file env s c.hash c.blob_hash in
    let core = stats-core env env.primary_id (pos 1) s.padded_size (
      insert_file_storage_location s.file_id env.primary_id s.storage_id active
        (record (set_status s.id completed st.db) { files = st.db.files ++ file ∷ [] })) in
    let bytes : file_bytes username (file_recorded env s file st.db).files
        ≡ file_bytes username st.db.files + (if str_eq s.owner_username username then n else 0) =
      ap (file_bytes username) core.same_files
      ∙ file_bytes-append username st.db.files file
      ∙ ap
          (λ z.
            file_bytes username st.db.files
            + (if str_eq s.owner_username username then pos_part z else 0))
          size in
    rw (c.recorded) (
      IsAccounted-update username s.owner_username st.db (file_recorded env s file st.db) c.user
        s.total_size core.same_users c.user_found
        (λ own.
          ap (new_usage (pos (file_bytes username st.db.files))) size
          ∙ new_usage-add (file_bytes username st.db.files) n bound
          ∙ ap pos (sym (bytes ∙ (rw (own) refl))))
        (λ differs. bytes ∙ (rw (differs) (omega arith))) h)

either_end :
    {before : Db} {Facts : State → Type 0} {result : State × Reply} (P : Db → Type 0)
    → P before
    → ((after : State) → Facts after → P after.db)
    → Ends before Facts result
    → P result.0.db
either_end P h f (unchanged same) = rw (same) h
either_end {result = result} P h f (changed facts) = f result.0 facts

-- If a user is charged for the size of the user's files, and the size of a session's upload and those
-- files together fit into an int64, then so it is after a request to complete that upload, by whom
-- and with what outcome ever.
pub complete_upload-IsAccounted :
    (env : Env) (username user id : String) (st : State) (s : Session) (n : ℕ)
    → find_session id st.db.sessions ≡ some s
    → s.total_size ≡ pos n
    → file_bytes username st.db.files + n < 2 ^ 63
    → IsAccounted username st.db
    → IsAccounted username (complete_upload env user id st).0.db
complete_upload-IsAccounted env username user id st s n found size bound h =
    either_end (IsAccounted username) h
      (λ after c.
        completed-IsAccounted env username user id st after n c
          (ap (λ r. r.total_size) (some_inj (sym c.served.found ∙ found)) ∙ size) bound h)
      (complete_upload-Ends env user id st)

file_inj : {a b : FileMetadata} → some a ≡ some b → a ≡ b
file_inj {a} {b} e = cc

find_file-id :
    (id : String) (files : List FileMetadata) (f : FileMetadata)
    → find_file id files ≡ some f
    → f.file_id ≡ id
unfolding find_file
find_file-id id [] f e = cc
find_file-id id (g ∷ rest) f e = grind (arith, eq_iff g.file_id id, find_file-id id rest f)

same-IsAccounted :
    (username : String) (before after : Db)
    → IsSameCore before after
    → IsAccounted username before
    → IsAccounted username after
same-IsAccounted username before after core h user e =
    h user (ap (lookup username) (sym core.same_users) ∙ e)
    ∙ ap (λ files. pos (file_bytes username files)) (sym core.same_files)

deleted-IsAccounted :
    (username user file_id : String) (st after : State) (n : ℕ)
    (d : IsDeleted user file_id st after)
    → d.file.size_bytes ≡ pos n
    → count_files file_id st.db.files ≤ 1
    → file_bytes username st.db.files < 2 ^ 63
    → IsAccounted username st.db
    → IsAccounted username after.db
deleted-IsAccounted username user file_id st after n d size once bound h =
    let name : d.file.file_id ≡ file_id = find_file-id file_id st.db.files d.file d.found in
    let owner : d.file.owner_username ≡ user = (eq_iff d.file.owner_username user).0 d.owned in
    let bytes : file_bytes username (without_file file_id st.db.files)
          + (if str_eq user username then n else 0)
        ≡ file_bytes username st.db.files =
      ap
        (λ z.
          file_bytes username (without_file file_id st.db.files)
          + (if str_eq user username then pos_part z else 0))
        (sym size)
      ∙ ap
          (λ z.
            file_bytes username (without_file file_id st.db.files)
            + (if str_eq z username then pos_part d.file.size_bytes else 0))
          (sym owner)
      ∙ file_bytes-without_file username file_id st.db.files d.file once d.found in
    let files : file_bytes username (file_removed d.file.file_id d.between.db).files
        ≡ file_bytes username (without_file file_id st.db.files) =
      ap (λ i. file_bytes username (without_file i d.between.db.files)) name
      ∙ ap (λ fs. file_bytes username (without_file file_id fs)) d.core.same_files in
    let without_other : str_eq user username ≡ false
        → file_bytes username (without_file file_id st.db.files) ≡ file_bytes username st.db.files =
      λ differs. ground (arith, bytes, differs) in
    rw (d.removed) (
      IsAccounted-update username user st.db (file_removed d.file.file_id d.between.db) d.user
        (neg64 d.file.size_bytes) d.core.same_users d.user_found
        (λ own.
          let sum : file_bytes username (without_file file_id st.db.files) + n
              ≡ file_bytes username st.db.files =
            ground (arith, bytes, own) in
          ap (λ z. new_usage (pos (file_bytes username st.db.files)) (neg64 z)) size
          ∙ new_usage-sub (file_bytes username st.db.files) n (omega arith) bound
          ∙ ap pos (omega (arith, sum, files)))
        (λ differs. files ∙ without_other differs) h)

-- If a user is charged for the size of the user's files, those fit into an int64, and at most one row
-- has a file id, then so it is after a request to delete that file, by whom and with what outcome
-- ever.
pub delete_file-IsAccounted :
    (env : Env) (username user file_id : String) (st : State) (f : FileMetadata) (n : ℕ)
    → find_file file_id st.db.files ≡ some f
    → f.size_bytes ≡ pos n
    → count_files file_id st.db.files ≤ 1
    → file_bytes username st.db.files < 2 ^ 63
    → IsAccounted username st.db
    → IsAccounted username (delete_file env user file_id st).0.db
delete_file-IsAccounted env username user file_id st f n found size once bound h =
    either_end (IsAccounted username) h
      (λ after end_. elim end_ [
        | inl core ↦ same-IsAccounted username st.db after.db core h
        | inr d ↦
            deleted-IsAccounted username user file_id st after n d
              (ap (λ r. r.size_bytes) (file_inj (sym d.found ∙ found)) ∙ size) once bound h
      ])
      (delete_file-Ends env user file_id st)
