-- ===== src/RefreshTokens/Histories.antt =====
-- Histories of the token tables: a revoked family stays revoked.
use arkfile.Base.{
  ℕ, ◌+◌, ◌≡◌, ◌≢◌, refl, sym, Bool, true, false, ◌||◌, Option, none, some, List, [], ◌∷◌, ◌++◌,
  map, arith, ltb, str_eq, if◌then◌else◌, String, All,
}
use arkfile.RefreshTokens.{
  RefreshToken, TokenDb, Outcome, rotated, Env, select_token, insert_token, mark_superseded,
  revoke_family, revoke_jwts, taken, find_token, new_row, insert_token_row, created,
  create_refresh_token, revoke_if_family, revoke_family_by_family_id,
  revoke_all_user_jwts_by_username, supersede_if_id, after_insert, rotate, is_superseded, is_set,
  detect_reuse, validate_row, validate_found, validate_refresh_token, revoke_if_hash,
  revoke_refresh_token, revoke_if_user, revoke_all_user_tokens, unexpired, cleanup_expired_tokens,
  token_lifetime, rotated_lifetime,
}
use arkfile.RefreshTokens.Families.{IsRevokedRow, IsFamilyRevoked}

All-append :
    (P : RefreshToken → Type 0) (before later : List RefreshToken)
    → All P before
    → All P later
    → All P (before ++ later)
All-append P [] later none_before all_later = all_later
All-append P (t ∷ before) later (here, all_before) all_later =
    (here, All-append P before later all_before all_later)

All-map :
    {A : Type 0} (P : A → Type 0) (f : A → A) (xs : List A)
    → ((x : A) → P x → P (f x))
    → All P xs
    → All P (map f xs)
All-map P f [] keeps h = tt
All-map P f (x ∷ xs) keeps (p, h) = (keeps x p, All-map P f xs keeps h)

either : {A : Type 0} (P : A → Type 0) (b : Bool) (x y : A) → P x → P y → P (if b then x else y)
either P true x y p q = p
either P false x y p q = q

find_here :
    (P : RefreshToken → Type 0) (b : Bool) (s t : RefreshToken) (later : Option RefreshToken)
    → P s
    → (later ≡ some t → P t)
    → (if b then some s else later) ≡ some t
    → P t
find_here P true s t later p k e = let same : s ≡ t = cc in rw (sym same) p
find_here P false s t later p k e = k e

if_All :
    {A : Type 0} (P : A → Type 0) (b : Bool) (x : A) (xs : List A)
    → P x
    → All P xs
    → All P (if b then xs else x ∷ xs)
if_All P true x xs p h = h
if_All P false x xs p h = (p, h)

All-find :
    (P : RefreshToken → Type 0) (h : String) (ts : List RefreshToken) (t : RefreshToken)
    → All P ts
    → find_token h ts ≡ some t
    → P t
unfolding find_token
All-find P h [] t a e = cc
All-find P h (s ∷ ts) t (p, a) e =
    find_here P (str_eq s.token_hash h) s t (find_token h ts) p (All-find P h ts t a) e

All-unexpired :
    (P : RefreshToken → Type 0) (now : ℕ) (ts : List RefreshToken)
    → All P ts
    → All P (unexpired now ts)
All-unexpired P now [] h = tt
All-unexpired P now (t ∷ ts) (p, h) =
    if_All P (ltb t.expires_at now) t (unexpired now ts) p (All-unexpired P now ts h)

-- Every way in which `insert_token_row` ends keeps a predicate on the rows.
insert_token_row-cases :
    (P : Option TokenDb → Type 0) (env : Env) (row : RefreshToken) (db : TokenDb)
    → P none
    → P (some (record db { tokens = db.tokens ++ row ∷ [] }))
    → P (insert_token_row env row db)
unfolding insert_token_row
insert_token_row-cases P env row db n s =
    either P (env.fails insert_token || taken (find_token row.token_hash db.tokens)) _ _ n s

revoke_if_family-keeps :
    (family other : String) (now : ℕ) (t : RefreshToken)
    → IsRevokedRow family t
    → IsRevokedRow family (revoke_if_family now other t)
revoke_if_family-keeps family other now t h = ground arith

supersede_if_id-keeps :
    (family new_hash id : String) (now : ℕ) (t : RefreshToken)
    → IsRevokedRow family t
    → IsRevokedRow family (supersede_if_id new_hash now id t)
supersede_if_id-keeps family new_hash id now t h = ground arith

revoke_if_hash-keeps :
    (family h : String) (t : RefreshToken)
    → IsRevokedRow family t
    → IsRevokedRow family (revoke_if_hash h t)
revoke_if_hash-keeps family h t r = ground arith

revoke_if_user-keeps :
    (family username : String) (t : RefreshToken)
    → IsRevokedRow family t
    → IsRevokedRow family (revoke_if_user username t)
revoke_if_user-keeps family username t r = ground arith

either_if :
    {A : Type 0} (P : A → Type 0) (b : Bool) (x y : A)
    → (b ≡ true → P x)
    → (b ≡ false → P y)
    → P (if b then x else y)
either_if P true x y p q = p refl
either_if P false x y p q = q refl

rotate-keeps :
    (family : String) (env : Env) (raw : String) (t : RefreshToken) (db : TokenDb)
    → IsFamilyRevoked family db
    → str_eq t.family_id family ≡ false
    → IsFamilyRevoked family (rotate env raw t db).0
unfolding rotate
rotate-keeps family env raw t db h n =
    let row = new_row (env.hash raw) t.username (env.now + rotated_lifetime) t.family_id in
    let larger = All-append (IsRevokedRow family) db.tokens (row ∷ []) h (λ e. cc, tt) in
    insert_token_row-cases (λ o. IsFamilyRevoked family (after_insert env raw t db o).0) env row db
      h
      (either (λ (z : TokenDb × Outcome). IsFamilyRevoked family z.0) (env.fails mark_superseded) _
        _ larger
        (All-map (IsRevokedRow family) (supersede_if_id (env.hash raw) env.now t.id)
          (db.tokens ++ row ∷ []) (supersede_if_id-keeps family (env.hash raw) t.id env.now)
          larger))

revoke_family-keeps :
    (family other : String) (env : Env) (db : TokenDb)
    → IsFamilyRevoked family db
    → IsFamilyRevoked family (revoke_family_by_family_id env other db)
unfolding revoke_family_by_family_id
revoke_family-keeps family other env db h =
    either (IsFamilyRevoked family) (env.fails revoke_family) _ _ h (
      All-map (IsRevokedRow family) (revoke_if_family env.now other) db.tokens
        (revoke_if_family-keeps family other env.now) h)

detect_reuse-keeps :
    (family : String) (env : Env) (t : RefreshToken) (db : TokenDb)
    → IsFamilyRevoked family db
    → IsFamilyRevoked family (detect_reuse env t db).0
unfolding detect_reuse revoke_all_user_jwts_by_username
detect_reuse-keeps family env t db h =
    let after = revoke_family_by_family_id env t.family_id db in
    let kept = revoke_family-keeps family t.family_id env db h in
    either (IsFamilyRevoked family) (env.fails revoke_jwts) _ _ kept kept

-- A row of no revoked family is not in the family.
outside :
    (family : String) (t : RefreshToken)
    → IsRevokedRow family t
    → is_set t.family_revoked_at ≡ false
    → str_eq t.family_id family ≡ false
outside family t r u = ground arith

validate_row-keeps :
    (family : String) (env : Env) (raw : String) (t : RefreshToken) (db : TokenDb)
    → IsFamilyRevoked family db
    → IsRevokedRow family t
    → IsFamilyRevoked family (validate_row env raw t db).0
unfolding validate_row
validate_row-keeps family env raw t db h r =
    let P : TokenDb × Outcome → Type 0 = λ z. IsFamilyRevoked family z.0 in
    either P (ltb t.expires_at env.now) _ _ h (
      either P t.revoked _ _ h (
        either P (is_superseded t.superseded_by_hash) _ _ (detect_reuse-keeps family env t db h) (
          either_if P (is_set t.family_revoked_at) _ _ (λ e. h)
            (λ e. rotate-keeps family env raw t db h (outside family t r e)))))

found-keeps :
    (family : String) (env : Env) (raw : String) (o : Option RefreshToken) (db : TokenDb)
    → IsFamilyRevoked family db
    → ((t : RefreshToken) → o ≡ some t → IsRevokedRow family t)
    → IsFamilyRevoked family (validate_found env raw o db).0
found-keeps family env raw none db h k = h
found-keeps family env raw (some t) db h k = validate_row-keeps family env raw t db h (k t refl)

validate-keeps :
    (family : String) (env : Env) (raw token : String) (db : TokenDb)
    → IsFamilyRevoked family db
    → IsFamilyRevoked family (validate_refresh_token env raw token db).0
unfolding validate_refresh_token
validate-keeps family env raw token db h =
    either (λ (z : TokenDb × Outcome). IsFamilyRevoked family z.0) (env.fails select_token) _ _ h
      (found-keeps family env raw (find_token (env.hash token) db.tokens) db h
        (λ t e. All-find (IsRevokedRow family) (env.hash token) db.tokens t h e))

create-keeps :
    (family : String) (env : Env) (raw fresh_family user : String) (db : TokenDb)
    → IsFamilyRevoked family db
    → str_eq fresh_family family ≡ false
    → IsFamilyRevoked family (create_refresh_token env raw fresh_family user db).0
unfolding create_refresh_token
create-keeps family env raw fresh_family user db h n =
    let row = new_row (env.hash raw) user (env.now + token_lifetime) fresh_family in
    insert_token_row-cases (λ o. IsFamilyRevoked family (created raw o db).0) env row db h
      (All-append (IsRevokedRow family) db.tokens (row ∷ []) h (λ e. cc, tt))

-- A history of the tables: the operations of models/refresh_token.go, in any order and with any
-- statements failing. A login draws a family of its own, which is not `family`.
pub data History (family : String) (start : TokenDb) : TokenDb → Type 0 where
  begun : History family start start
  create_step :
      {db : TokenDb} (env : Env) (raw fresh_family user : String)
      → str_eq fresh_family family ≡ false
      → History family start db
      → History family start (create_refresh_token env raw fresh_family user db).0
  validate_step :
      {db : TokenDb} (env : Env) (raw token : String)
      → History family start db
      → History family start (validate_refresh_token env raw token db).0
  revoke_step :
      {db : TokenDb} (env : Env) (token : String)
      → History family start db
      → History family start (revoke_refresh_token env token db).0
  revoke_all_step :
      {db : TokenDb} (user : String)
      → History family start db
      → History family start (revoke_all_user_tokens user db)
  cleanup_step :
      {db : TokenDb} (now : ℕ)
      → History family start db
      → History family start (cleanup_expired_tokens now db)

-- Every operation keeps the marks of a revoked family.
History-keeps :
    (family : String) (start db : TokenDb)
    → IsFamilyRevoked family start
    → History family start db
    → IsFamilyRevoked family db
unfolding revoke_refresh_token revoke_all_user_tokens cleanup_expired_tokens
History-keeps family start _ h begun = h
History-keeps family start _ h (create_step {db} env raw fresh_family user n past) =
    create-keeps family env raw fresh_family user db (History-keeps family start db h past) n
History-keeps family start _ h (validate_step {db} env raw token past) =
    validate-keeps family env raw token db (History-keeps family start db h past)
History-keeps family start _ h (revoke_step {db} env token past) =
    All-map (IsRevokedRow family) (revoke_if_hash (env.hash token)) db.tokens
      (revoke_if_hash-keeps family (env.hash token)) (History-keeps family start db h past)
History-keeps family start _ h (revoke_all_step {db} user past) =
    All-map (IsRevokedRow family) (revoke_if_user user) db.tokens (revoke_if_user-keeps family user)
      (History-keeps family start db h past)
History-keeps family start _ h (cleanup_step {db} now past) =
    All-unexpired (IsRevokedRow family) now db.tokens (History-keeps family start db h past)

validate_revoked :
    (env : Env) (raw token user new : String) (t : RefreshToken) (db : TokenDb)
    → find_token (env.hash token) db.tokens ≡ some t
    → is_set t.family_revoked_at ≡ true
    → (validate_refresh_token env raw token db).1 ≢ rotated user new
unfolding validate_refresh_token validate_row detect_reuse
validate_revoked env raw token user new t db f s = ground arith

-- Once every row of a family is marked as revoked, no token of the family is rotated again, behind
-- any history of the operations in which no login draws the same family.
pub validate_refresh_token-stays_revoked :
    (family : String) (start db : TokenDb) (env : Env) (raw token user new : String)
    (t : RefreshToken)
    → IsFamilyRevoked family start
    → History family start db
    → find_token (env.hash token) db.tokens ≡ some t
    → str_eq t.family_id family ≡ true
    → (validate_refresh_token env raw token db).1 ≢ rotated user new
validate_refresh_token-stays_revoked family start db env raw token user new t h past f m =
    let marked =
      All-find (IsRevokedRow family) (env.hash token) db.tokens t
        (History-keeps family start db h past) f in
    validate_revoked env raw token user new t db f (marked m)
