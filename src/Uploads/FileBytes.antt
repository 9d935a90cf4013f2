-- ===== src/Uploads/FileBytes.antt =====
-- The bytes of the files of a user, and the user's usage.
use arkfile.Base.{
  Bool-cases, ℕ, ◌+◌, ◌-◌, ◌≡◌, ◌≤◌, ◌<◌, ◌^◌, refl, sym, ap, inl, inr, ◌∙◌, true, false, some,
  List, [], ◌∷◌, ◌++◌, arith, if◌then◌else◌, String, str_eq, eq_iff,
}
use arkfile.Base.Int.{ℤ, pos, pos_part, ◌+ℤ◌, ◌-ℤ◌, wrap64, add64, neg64}
use arkfile.Base.Table.{lookup, lookup-insert}
use arkfile.Uploads.{FileMetadata, User, Db, find_file, new_usage, update_storage_usage}
use arkfile.Uploads.Delete.{without_file}

-- The bytes of the files of a user.
abbrev pub file_bytes : String → List FileMetadata → ℕ
file_bytes username [] = 0
file_bytes username (f ∷ rest) =
    (if str_eq f.owner_username username then pos_part f.size_bytes else 0)
    + file_bytes username rest

-- The number of rows with a file id.
abbrev pub count_files : String → List FileMetadata → ℕ
count_files file_id [] = 0
count_files file_id (f ∷ rest) =
    (if str_eq f.file_id file_id then 1 else 0) + count_files file_id rest

-- The user's usage is the size of the user's files.
abbrev pub IsAccounted : String → Db → Type 0
IsAccounted username db =
    (user : User)
    → lookup username db.users ≡ some user
    → user.total_storage_bytes ≡ pos (file_bytes username db.files)

pub file_bytes-append :
    (username : String) (files : List FileMetadata) (f : FileMetadata)
    → file_bytes username (files ++ f ∷ [])
      ≡ file_bytes username files
        + (if str_eq f.owner_username username then pos_part f.size_bytes else 0)
file_bytes-append username [] f = omega arith
file_bytes-append username (g ∷ rest) f = omega (arith, file_bytes-append username rest f)

without_none :
    (username file_id : String) (files : List FileMetadata)
    → count_files file_id files ≡ 0
    → file_bytes username (without_file file_id files) ≡ file_bytes username files
unfolding without_file
without_none username file_id [] h = refl
without_none username file_id (g ∷ rest) h = ground (arith, without_none username file_id rest)

pub file_bytes-without_file :
    (username file_id : String) (files : List FileMetadata) (f : FileMetadata)
    → count_files file_id files ≤ 1
    → find_file file_id files ≡ some f
    → file_bytes username (without_file file_id files)
        + (if str_eq f.owner_username username then pos_part f.size_bytes else 0)
      ≡ file_bytes username files
unfolding without_file find_file
file_bytes-without_file username file_id [] f h e = cc
file_bytes-without_file username file_id (g ∷ rest) f h e =
    grind
      (arith, file_bytes-without_file username file_id rest f, without_none username file_id rest)

pub new_usage-add : (a n : ℕ) → a + n < 2 ^ 63 → new_usage (pos a) (pos n) ≡ pos (a + n)
unfolding add64 ◌+ℤ◌ wrap64
new_usage-add a n h = ground arith

pub new_usage-sub : (a n : ℕ) → n ≤ a → a < 2 ^ 63 → new_usage (pos a) (neg64 (pos n)) ≡ pos (a - n)
unfolding add64 ◌+ℤ◌ neg64 ◌-ℤ◌ wrap64
new_usage-sub a n h l = ground arith

user_inj : {a b : User} → some a ≡ some b → a ≡ b
user_inj {a} {b} e = cc

-- An update of one user's usage keeps the account of each user, if it is right for that one.
pub IsAccounted-update :
    (username owner : String) (db mid : Db) (user : User) (delta : ℤ)
    → mid.users ≡ db.users
    → lookup owner db.users ≡ some user
    → (str_eq owner username ≡ true
        → new_usage (pos (file_bytes username db.files)) delta
          ≡ pos (file_bytes username mid.files))
    → (str_eq owner username ≡ false → file_bytes username mid.files ≡ file_bytes username db.files)
    → IsAccounted username db
    → IsAccounted username (update_storage_usage owner user delta mid)
IsAccounted-update username owner db mid user delta users found own other h after e =
    let asked =
      lookup-insert owner username
        (record user { total_storage_bytes = new_usage user.total_storage_bytes delta })
        mid.users in
    elim (Bool-cases (str_eq owner username)) [
      | inl same ↦
          let name : owner ≡ username = (eq_iff owner username).0 same in
          let before : user.total_storage_bytes ≡ pos (file_bytes username db.files) =
            h user (ap (λ n. lookup n db.users) (sym name) ∙ found) in
          let is : after
              ≡ record user { total_storage_bytes = new_usage user.total_storage_bytes delta } =
            user_inj (sym e ∙ asked ∙ (rw (same) refl)) in
          ap (λ r. r.total_storage_bytes) is ∙ ap (λ t. new_usage t delta) before ∙ own same
      | inr differs ↦
          let is : lookup username db.users ≡ some after =
            ap (lookup username) (sym users) ∙ sym (asked ∙ (rw (differs) refl)) ∙ e in
          h after is ∙ ap pos (sym (other differs))
    ]
