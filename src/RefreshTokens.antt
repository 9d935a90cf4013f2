-- ===== src/RefreshTokens.antt =====
-- models/refresh_token.go: refresh tokens, their rotation in a family and the detection of reuse.
-- A time is a number of seconds; the hash and the random bytes are parameters. Rows are in the
-- order of their insertion; a statement that fails changes nothing.
pub mod Families
pub mod Histories
mod Examples
use arkfile.Base.{
  ℕ, suc, ◌+◌, ◌*◌, Bool, true, false, not, ◌&&◌, ◌||◌, Option, none, some, List, [], ◌∷◌, ◌++◌,
  map, ltb, str_eq, if◌then◌else◌, String,
}
use arkfile.Base.Table.{Table, lookup, insert}

pub record RefreshToken : Type 0 where
  id : String
  username : String
  token_hash : String
  expires_at : ℕ
  revoked : Bool
  last_used : Option ℕ
  family_id : String
  superseded_by_hash : Option String
  family_revoked_at : Option ℕ

-- The tables `refresh_tokens` and `user_jwt_revocations`.
pub record TokenDb : Type 0 where
  tokens : List RefreshToken
  jwt_revocations : Table ℕ

pub data TokenError : Type 0 where
  token_expired token_not_found token_reuse db_error : TokenError

pub data Outcome : Type 0 where
  rotated : String → String → Outcome
  refused : TokenError → Outcome

-- The statements of the file, of which each may fail.
pub data Stmt : Type 0 where
  select_token insert_token mark_superseded revoke_family revoke_jwts : Stmt

-- What the code takes from outside: the SHA-256 of a text in hexadecimal, the time, and which
-- statement fails.
pub record Env : Type 0 where
  hash : String → String
  now : ℕ
  fails : Stmt → Bool

abbrev pub token_lifetime : ℕ
token_lifetime = 30 * 86400

abbrev pub rotated_lifetime : ℕ
rotated_lifetime = 14 * 86400

-- `WHERE token_hash = ?`
unfoldable pub find_token : String → List RefreshToken → Option RefreshToken
find_token h [] = none
find_token h (t ∷ ts) = if str_eq t.token_hash h then some t else find_token h ts

-- The row that an insertion writes: the id is the hash.
abbrev pub new_row : String → String → ℕ → String → RefreshToken
new_row h username expires_at family_id = record {
  id = h;
  username = username;
  token_hash = h;
  expires_at = expires_at;
  revoked = false;
  last_used = none;
  family_id = family_id;
  superseded_by_hash = none;
  family_revoked_at = none;
}

abbrev pub taken {ℓ} : {A : Type ℓ} → Option A → Bool
taken none = false
taken (some t) = true

-- The insertion, which the primary key and the unique hash refuse for a hash that is there.
unfoldable pub insert_token_row : Env → RefreshToken → TokenDb → Option TokenDb
unfolding find_token
insert_token_row env row db =
    if env.fails insert_token || taken (find_token row.token_hash db.tokens)
    then none
    else some (record db { tokens = db.tokens ++ row ∷ [] })

abbrev pub created : String → Option TokenDb → TokenDb → TokenDb × Option String
created raw none db = (db, none)
created raw (some after) db = (after, some raw)

-- `CreateRefreshToken`, with the raw token and the family that the random bytes give.
unfoldable pub create_refresh_token :
    Env → String → String → String → TokenDb → TokenDb × Option String
create_refresh_token env raw family_id username db =
    created raw
      (insert_token_row env (new_row (env.hash raw) username (env.now + token_lifetime) family_id)
        db)
      db

abbrev pub revoke_if_family : ℕ → String → RefreshToken → RefreshToken
revoke_if_family now family_id t =
    if str_eq t.family_id family_id then record t { family_revoked_at = some now } else t

unfoldable pub revoke_family_by_family_id : Env → String → TokenDb → TokenDb
revoke_family_by_family_id env family_id db =
    if env.fails revoke_family
    then db
    else record db { tokens = map (revoke_if_family env.now family_id) db.tokens }

unfoldable pub revoke_all_user_jwts_by_username : Env → String → TokenDb → TokenDb
revoke_all_user_jwts_by_username env username db =
    if env.fails revoke_jwts
    then db
    else record db { jwt_revocations = insert username env.now db.jwt_revocations }

abbrev pub supersede_if_id : String → ℕ → String → RefreshToken → RefreshToken
supersede_if_id new_hash now id t =
    if str_eq t.id id
    then record t { superseded_by_hash = some new_hash; last_used = some now }
    else t

abbrev pub mark_row : Env → String → RefreshToken → TokenDb → TokenDb × Outcome
mark_row env raw t db = if env.fails mark_superseded then (db, refused db_error) else (
  record db { tokens = map (supersede_if_id (env.hash raw) env.now t.id) db.tokens },
  rotated t.username raw,
)

abbrev pub after_insert : Env → String → RefreshToken → TokenDb → Option TokenDb → TokenDb × Outcome
after_insert env raw t db none = (db, refused db_error)
after_insert env raw t db (some after) = mark_row env raw t after

-- Step 4: the new token in the same family, then the mark on the row that is consumed.
unfoldable pub rotate : Env → String → RefreshToken → TokenDb → TokenDb × Outcome
rotate env raw t db = after_insert env raw t db (
    insert_token_row env
      (new_row (env.hash raw) t.username (env.now + rotated_lifetime) t.family_id) db)

-- `Valid && String != ""`
abbrev pub is_superseded : Option String → Bool
is_superseded none = false
is_superseded (some h) = not (str_eq h "")

abbrev pub is_set : Option ℕ → Bool
is_set none = false
is_set (some t) = true

-- Step 2: the family and the user's JWTs are revoked.
unfoldable pub detect_reuse : Env → RefreshToken → TokenDb → TokenDb × Outcome
detect_reuse env t db = (
  revoke_all_user_jwts_by_username env t.username (revoke_family_by_family_id env t.family_id db),
  refused token_reuse,
)

-- What `ValidateRefreshToken` does with the row that it read.
unfoldable pub validate_row : Env → String → RefreshToken → TokenDb → TokenDb × Outcome
validate_row env raw t db =
    if ltb t.expires_at env.now
    then (db, refused token_expired)
    else if t.revoked
    then (db, refused token_not_found)
    else if is_superseded t.superseded_by_hash
    then detect_reuse env t db
    else if is_set t.family_revoked_at
    then (db, refused token_not_found)
    else rotate env raw t db

abbrev pub validate_found : Env → String → Option RefreshToken → TokenDb → TokenDb × Outcome
validate_found env raw none db = (db, refused token_not_found)
validate_found env raw (some t) db = validate_row env raw t db

-- `ValidateRefreshToken` of a token; `raw` is the token that the random bytes give.
unfoldable pub validate_refresh_token : Env → String → String → TokenDb → TokenDb × Outcome
validate_refresh_token env raw token db =
    if env.fails select_token
    then (db, refused db_error)
    else validate_found env raw (find_token (env.hash token) db.tokens) db

abbrev pub revoke_if_hash : String → RefreshToken → RefreshToken
revoke_if_hash h t = if str_eq t.token_hash h then record t { revoked = true } else t

-- `RevokeRefreshToken`: whether a row was revoked, where its statement does not fail.
unfoldable pub revoke_refresh_token : Env → String → TokenDb → TokenDb × Bool
revoke_refresh_token env token db = (
  record db { tokens = map (revoke_if_hash (env.hash token)) db.tokens },
  taken (find_token (env.hash token) db.tokens),
)

abbrev pub revoke_if_user : String → RefreshToken → RefreshToken
revoke_if_user username t = if str_eq t.username username then record t { revoked = true } else t

unfoldable pub revoke_all_user_tokens : String → TokenDb → TokenDb
revoke_all_user_tokens username db = record db { tokens = map (revoke_if_user username) db.tokens }

abbrev pub unexpired : ℕ → List RefreshToken → List RefreshToken
unexpired now [] = []
unexpired now (t ∷ ts) = if ltb t.expires_at now then unexpired now ts else t ∷ unexpired now ts

-- `DELETE FROM refresh_tokens WHERE expires_at < ?`
unfoldable pub cleanup_expired_tokens : ℕ → TokenDb → TokenDb
cleanup_expired_tokens now db = record db { tokens = unexpired now db.tokens }
