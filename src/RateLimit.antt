-- ===== src/RateLimit.antt =====
-- handlers/rate_limiting.go: the table `share_access_attempts`, the penalties for failed share
-- accesses and failed authentications, and the middlewares. A time is a number of nanoseconds, and
-- the one `now` of an operation is the time of its call and of the database's `CURRENT_TIMESTAMP`.
pub mod Growth
pub mod Records
mod Examples
use Prim.Native.String.{◌++◌ as text_append}
use arkfile.Base.{
  ℕ, zero, suc, ◌+◌, ◌-◌, ◌*◌, ◌/◌, Bool, true, false, ◌&&◌, ◌||◌, Option, none, some, List, [],
  ◌∷◌, ◌++◌, ltb, leb, ◌==◌, str_eq, if◌then◌else◌, String,
}

abbrev pub second : ℕ
second = 1000000000

abbrev pub share_access_attempt_retention : ℕ
share_access_attempt_retention = 30 * 24 * 3600 * second

abbrev pub share_access_attempt_cleanup_interval : ℕ
share_access_attempt_cleanup_interval = 3600 * second

-- A row; the trigger of the schema keeps `updated_at`.
pub record Entry : Type 0 where
  share_id : String
  entity_id : String
  failed_count : ℕ
  last_failed_attempt : Option ℕ
  next_allowed_attempt : Option ℕ
  created_at : ℕ
  updated_at : ℕ

-- The table, and `lastShareAccessAttemptCleanupAt`.
pub record Store : Type 0 where
  rows : List Entry
  last_cleanup_at : ℕ

-- The statements, of which each may fail.
pub data Stmt : Type 0 where
  prune insert_or_ignore select_entry begin_tx select_count update_count commit_tx : Stmt
  select_next_allowed : Stmt

pub record Env : Type 0 where
  now : ℕ
  fails : Stmt → Bool

-- The array from the fourth attempt on, and the cap behind its end.
abbrev pub nth_or_cap : ℕ → List ℕ → ℕ
nth_or_cap n [] = 1800 * second
nth_or_cap zero (d ∷ ds) = d
nth_or_cap (suc n) (d ∷ ds) = nth_or_cap n ds

abbrev pub penalty_from : List ℕ → ℕ → ℕ
penalty_from penalties count = if leb count 3 then 0 else nth_or_cap (count - 4) penalties

abbrev pub share_penalties : List ℕ
share_penalties =
    30 * second ∷ 60 * second ∷ 120 * second ∷ 240 * second ∷ 480 * second ∷ 900 * second ∷ []

unfoldable pub calculate_share_penalty : ℕ → ℕ
calculate_share_penalty count = penalty_from share_penalties count

abbrev pub base_penalties : String → List ℕ
base_penalties endpoint =
    if str_eq endpoint "login"
    then 60 * second
      ∷ 120 * second
      ∷ 300 * second
      ∷ 600 * second
      ∷ 1200 * second
      ∷ 1800 * second
      ∷ []
    else if str_eq endpoint "register"
    then 30 * second ∷ 60 * second ∷ 120 * second ∷ 300 * second ∷ 600 * second ∷ 900 * second ∷ []
    else share_penalties

unfoldable pub calculate_auth_penalty : ℕ → String → ℕ
calculate_auth_penalty count endpoint = penalty_from (base_penalties endpoint) count

abbrev pub is_key : String → String → Entry → Bool
is_key share entity e = str_eq e.share_id share && str_eq e.entity_id entity

-- `WHERE share_id = ? AND entity_id = ?`
unfoldable pub find_entry : String → String → List Entry → Option Entry
find_entry share entity [] = none
find_entry share entity (e ∷ es) =
    if is_key share entity e then some e else find_entry share entity es

abbrev pub new_entry : String → String → ℕ → Entry
new_entry share entity now = record {
  share_id = share;
  entity_id = entity;
  failed_count = 0;
  last_failed_attempt = none;
  next_allowed_attempt = none;
  created_at = now;
  updated_at = now;
}

-- `INSERT OR IGNORE` under the unique pair.
unfoldable pub ensure_row : ℕ → String → String → List Entry → List Entry
ensure_row now share entity [] = new_entry share entity now ∷ []
ensure_row now share entity (e ∷ es) =
    if is_key share entity e then e ∷ es else e ∷ ensure_row now share entity es

-- The `UPDATE` of a failure.
unfoldable pub update_rows : ℕ → String → String → ℕ → ℕ → List Entry → List Entry
update_rows now share entity count next_allowed [] = []
update_rows now share entity count next_allowed (e ∷ es) =
    let rest = update_rows now share entity count next_allowed es in
    if is_key share entity e
    then record e {
      failed_count = count;
      last_failed_attempt = some now;
      next_allowed_attempt = some next_allowed;
      updated_at = now;
    }
      ∷ rest
    else e ∷ rest

unfoldable pub newer_rows : ℕ → List Entry → List Entry
newer_rows cutoff [] = []
newer_rows cutoff (e ∷ es) =
    let rest = newer_rows cutoff es in if ltb e.updated_at cutoff then rest else e ∷ rest

unfoldable pub maybe_prune_share_access_attempts : Env → Store → Store
maybe_prune_share_access_attempts env s =
    if ltb (env.now - s.last_cleanup_at) share_access_attempt_cleanup_interval
    then s
    else if env.fails prune
    then s
    else record {
      rows = newer_rows (env.now - share_access_attempt_retention) s.rows;
      last_cleanup_at = env.now;
    }

abbrev pub ensure_entry : Env → String → String → Store → Store
ensure_entry env share entity s = record s { rows = ensure_row env.now share entity s.rows }

abbrev pub select_row : Env → Stmt → String → String → Store → Option Entry
select_row env stmt share entity s = if env.fails stmt then none else find_entry share entity s.rows

abbrev pub ensured_entry : Env → String → String → Store → Store × Option Entry
ensured_entry env share entity s = if env.fails insert_or_ignore then (s, none) else (
  ensure_entry env share entity s,
  select_row env select_entry share entity (ensure_entry env share entity s),
)

-- `none` is an error.
unfoldable pub get_or_create_rate_limit_entry : Env → String → String → Store → Store × Option Entry
get_or_create_rate_limit_entry env share entity s =
    ensured_entry env share entity (maybe_prune_share_access_attempts env s)

-- The transaction of a recorded failure, with the row that it read: whether it was committed.
unfoldable pub record_in_tx : Env → (ℕ → ℕ) → String → String → Option Entry → Store → Store × Bool
record_in_tx env penalty share entity none s = (s, false)
record_in_tx env penalty share entity (some e) s =
    if env.fails update_count || env.fails commit_tx then (s, false) else (
      record s {
        rows =
            update_rows env.now share entity (suc e.failed_count)
              (env.now + penalty (suc e.failed_count)) s.rows;
      },
      true,
    )

abbrev pub record_ensured : Env → (ℕ → ℕ) → String → String → Store → Store × Bool
record_ensured env penalty share entity s =
    if env.fails begin_tx
    then (s, false)
    else record_in_tx env penalty share entity (select_row env select_count share entity s) s

-- What `recordFailedAttempt` and `recordAuthFailedAttempt` share: whether there was no error.
unfoldable pub record_failure : Env → (ℕ → ℕ) → String → String → Store → Store × Bool
record_failure env penalty share entity s =
    if env.fails insert_or_ignore
    then (s, false)
    else record_ensured env penalty share entity (ensure_entry env share entity s)

unfoldable pub record_failed_attempt : Env → String → String → Store → Store × Bool
unfolding record_failure
record_failed_attempt env share entity s = record_failure env calculate_share_penalty share entity s

-- `allowed`, or the delay that remains; `unknown` is an error.
pub data Decision : Type 0 where
  allowed unknown : Decision
  delayed : ℕ → Decision

abbrev pub until : ℕ → Option ℕ → Decision
until now none = allowed
until now (some next) = if ltb now next then delayed (next - now) else allowed

abbrev pub decide : ℕ → Option Entry → Decision
decide now none = unknown
decide now (some e) = if e.failed_count == 0 then allowed else until now e.next_allowed_attempt

unfoldable pub check_rate_limit : Env → String → String → Store → Store × Decision
unfolding get_or_create_rate_limit_entry
check_rate_limit env share entity s =
    let (after, entry) = get_or_create_rate_limit_entry env share entity s in
    (after, decide env.now entry)

abbrev pub limited : ℕ → Option Entry → Decision
limited now none = allowed
limited now (some e) = until now e.next_allowed_attempt

-- The time that stays until the next allowed attempt.
unfoldable pub is_entity_rate_limited : Env → String → String → Store → Decision
is_entity_rate_limited env share entity s =
    if env.fails select_next_allowed
    then unknown
    else limited env.now (find_entry share entity s.rows)

-- What the client is sent: what the next handler answers, 429 with the seconds, or 503.
pub data Reply : Type 0 where
  passed_on unavailable : Reply
  too_many_requests : ℕ → Reply

abbrev pub reply_share : Env → String → String → Store → Decision → Store × Reply
reply_share env share entity s allowed = (s, passed_on)
reply_share env share entity s unknown = (s, passed_on)
reply_share env share entity s (delayed d) =
    ((record_failed_attempt env share entity s).0, too_many_requests (d / second))

-- `ShareRateLimitMiddleware` up to the call of the next handler.
unfoldable pub share_rate_limit_middleware : Env → String → String → Store → Store × Reply
share_rate_limit_middleware env share entity s =
    if str_eq share ""
    then (s, passed_on)
    else reply_share env share entity s (is_entity_rate_limited env share entity s)

-- `"auth_" + endpointType + "_" + entityID`
abbrev pub auth_share_id : String → String → String
auth_share_id endpoint entity = text_append (text_append (text_append "auth_" endpoint) "_") entity

unfoldable pub check_auth_rate_limit : Env → String → String → Store → Store × Decision
unfolding check_rate_limit
check_auth_rate_limit env endpoint entity s =
    check_rate_limit env (auth_share_id endpoint entity) entity s

unfoldable pub record_auth_failed_attempt : Env → String → String → Store → Store × Bool
unfolding record_failure
record_auth_failed_attempt env endpoint entity s =
    record_failure env (λ n. calculate_auth_penalty n endpoint) (auth_share_id endpoint entity)
      entity s

abbrev pub reply_auth : Decision → Reply
reply_auth allowed = passed_on
reply_auth unknown = unavailable
reply_auth (delayed d) = too_many_requests (d / second)

-- `LoginRateLimitMiddleware`, `RegisterRateLimitMiddleware` and `MFARateLimitMiddleware`, which
-- differ in the endpoint.
unfoldable pub auth_rate_limit_middleware : Env → String → String → Store → Store × Reply
unfolding check_auth_rate_limit
auth_rate_limit_middleware env endpoint entity s =
    let (after, decision) = check_auth_rate_limit env endpoint entity s in
    (after, reply_auth decision)
