-- ===== src/RefreshTokens/Families.antt =====
-- Families of refresh tokens: what a replayed token sets off, and that it lasts.
use arkfile.Base.{
  ℕ, ◌+◌, ◌≡◌, refl, sym, ap, ◌∙◌, true, false, some, List, [], ◌∷◌, ◌++◌, map, arith, ltb, str_eq,
  String, All,
}
use arkfile.Base.Table.{lookup, lookup-insert_self, str_eq_refl}
use arkfile.RefreshTokens.{
  RefreshToken, TokenDb, token_reuse, Outcome, rotated, refused, Env, Stmt, select_token,
  revoke_family, revoke_jwts, find_token, new_row, insert_token_row, revoke_if_family,
  revoke_family_by_family_id, revoke_all_user_jwts_by_username, supersede_if_id, rotate,
  is_superseded, is_set, detect_reuse, validate_row, validate_refresh_token, rotated_lifetime,
}

find_token-append :
    (h : String) (ts us : List RefreshToken) (t : RefreshToken)
    → find_token h ts ≡ some t
    → find_token h (ts ++ us) ≡ some t
unfolding find_token
find_token-append h [] us t e = cc
find_token-append h (s ∷ ts) us t e = ground (arith, find_token-append h ts us t)

find_token-supersede :
    (h new_hash : String) (now : ℕ) (id : String) (ts : List RefreshToken) (t : RefreshToken)
    → find_token h ts ≡ some t
    → find_token h (map (supersede_if_id new_hash now id) ts)
      ≡ some (supersede_if_id new_hash now id t)
unfolding find_token
find_token-supersede h new_hash now id [] t e = cc
find_token-supersede h new_hash now id (s ∷ ts) t e =
    ground (arith, find_token-supersede h new_hash now id ts t)

-- Every row of the family is marked revoked.
abbrev pub IsRevokedRow : String → RefreshToken → Type 0
IsRevokedRow family t = str_eq t.family_id family ≡ true → is_set t.family_revoked_at ≡ true

abbrev pub IsFamilyRevoked : String → TokenDb → Type 0
IsFamilyRevoked family db = All (IsRevokedRow family) db.tokens

revoke_if_family-All :
    (now : ℕ) (family : String) (ts : List RefreshToken)
    → All (IsRevokedRow family) (map (revoke_if_family now family) ts)
revoke_if_family-All now family [] = tt
revoke_if_family-All now family (t ∷ ts) = (ground arith, revoke_if_family-All now family ts)

-- The row as a rotation leaves it.
abbrev superseded_row : Env → String → RefreshToken → RefreshToken
superseded_row env raw t = record t {
  superseded_by_hash = some (env.hash raw);
  last_used = some env.now;
}

-- What a rotation says of the row that it consumed.
rotate-supersedes :
    (env : Env) (raw user new h : String) (t : RefreshToken) (db : TokenDb)
    → find_token h db.tokens ≡ some t
    → (rotate env raw t db).1 ≡ rotated user new
    → (find_token h (rotate env raw t db).0.tokens ≡ some (superseded_row env raw t))
      × (user ≡ t.username)
      × (new ≡ raw)
unfolding rotate insert_token_row
rotate-supersedes env raw user new h t db f r =
    let row = new_row (env.hash raw) t.username (env.now + rotated_lifetime) t.family_id in
    ground (
      arith,
      str_eq_refl t.id,
      find_token-append h db.tokens (row ∷ []) t,
      find_token-supersede h (env.hash raw) env.now t.id (db.tokens ++ row ∷ []) t,
    )

validate-rotates :
    (env : Env) (raw user new token : String) (t : RefreshToken) (db : TokenDb)
    → find_token (env.hash token) db.tokens ≡ some t
    → (validate_refresh_token env raw token db).1 ≡ rotated user new
    → (validate_refresh_token env raw token db ≡ rotate env raw t db) × (t.revoked ≡ false)
unfolding validate_refresh_token validate_row detect_reuse
validate-rotates env raw user new token t db f r = ground arith

detect_reuse-revokes :
    (env : Env) (t : RefreshToken) (db : TokenDb)
    → env.fails revoke_family ≡ false
    → env.fails revoke_jwts ≡ false
    → IsFamilyRevoked t.family_id (detect_reuse env t db).0
      × (lookup t.username (detect_reuse env t db).0.jwt_revocations ≡ some env.now)
unfolding detect_reuse revoke_family_by_family_id revoke_all_user_jwts_by_username
detect_reuse-revokes env t db f j =
    rw (f, j)
      (
        revoke_if_family-All env.now t.family_id db.tokens,
        lookup-insert_self t.username env.now db.jwt_revocations,
      )

validate-reuses :
    (env : Env) (raw token : String) (t : RefreshToken) (db : TokenDb)
    → env.fails select_token ≡ false
    → find_token (env.hash token) db.tokens ≡ some t
    → ltb t.expires_at env.now ≡ false
    → t.revoked ≡ false
    → is_superseded t.superseded_by_hash ≡ true
    → validate_refresh_token env raw token db ≡ detect_reuse env t db
unfolding validate_refresh_token validate_row
validate-reuses env raw token t db s f e r u = rw (s, f, e, r, u) refl

-- Reuse was detected: the family is revoked and so are the user's JWTs.
abbrev pub IsReplay : String → String → ℕ → TokenDb × Outcome → Type 0
IsReplay family user now (db, outcome) =
    (outcome ≡ refused token_reuse)
    × IsFamilyRevoked family db
    × (lookup user db.jwt_revocations ≡ some now)

reuse-IsReplay :
    (env : Env) (raw token : String) (t : RefreshToken) (db : TokenDb)
    → ((s : Stmt) → env.fails s ≡ false)
    → find_token (env.hash token) db.tokens ≡ some t
    → ltb t.expires_at env.now ≡ false
    → t.revoked ≡ false
    → is_superseded t.superseded_by_hash ≡ true
    → IsReplay t.family_id t.username env.now (validate_refresh_token env raw token db)
unfolding detect_reuse
reuse-IsReplay env raw token t db ok f e r u =
    rw (validate-reuses env raw token t db (ok select_token) f e r u) (
      let (rows, jwts) = detect_reuse-revokes env t db (ok revoke_family) (ok revoke_jwts) in
      (refl, rows, jwts))

-- A token that was rotated is good for one use: before it expires, a second use is refused as
-- reuse, marks every row of its family as revoked and writes the user's JWT revocation, where the
-- second call's statements do not fail, it hashes the token like the first, and the new token's hash
-- is not empty.
pub validate_refresh_token-IsReplay :
    (env later : Env) (raw raw_later user new token : String) (t : RefreshToken) (db : TokenDb)
    → find_token (env.hash token) db.tokens ≡ some t
    → (validate_refresh_token env raw token db).1 ≡ rotated user new
    → str_eq (env.hash raw) "" ≡ false
    → later.hash token ≡ env.hash token
    → ((s : Stmt) → later.fails s ≡ false)
    → ltb t.expires_at later.now ≡ false
    → IsReplay t.family_id user later.now
        (validate_refresh_token later raw_later token (validate_refresh_token env raw token db).0)
validate_refresh_token-IsReplay env later raw raw_later user new token t db f r n h ok e =
    let after = (validate_refresh_token env raw token db).0 in
    let (same, live) = validate-rotates env raw user new token t db f r in
    let (found, owner, _) =
      rotate-supersedes env raw user new (env.hash token) t db f (sym (ap (λ p. p.1) same) ∙ r) in
    rw (same, owner)
      (reuse-IsReplay later raw_later token (superseded_row env raw t) (rotate env raw t db).0 ok
        (ap (λ k. find_token k (rotate env raw t db).0.tokens) h ∙ found) e live (rw n refl))
