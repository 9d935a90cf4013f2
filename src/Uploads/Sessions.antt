-- ===== src/Uploads/Sessions.antt =====
-- Lemmas on the rows of `upload_sessions`: finding a row by its id after an update or an insertion.
use arkfile.Base.{
  ℕ, ◌≡◌, refl, ap, ◌∙◌, Bool, true, false, Option, none, some, List, [], ◌∷◌, ◌++◌, map, arith,
  if◌then◌else◌, String, str_eq, eq_iff,
}
use arkfile.Uploads.{SessionStatus, Session, State, Env, find_session, set_status_if}
use arkfile.Uploads.Cancel.{abort_storage}
use arkfile.Uploads.Create.{abandon_if_expired}

-- The row of an id, or `none`.
abbrev pub session_of : String → State → Option Session
session_of id st = find_session id st.db.sessions

abbrev pub map_some : (Session → Session) → Option Session → Option Session
map_some f none = none
map_some f (some s) = some (f s)

pub find_session-id :
    (id : String) (rows : List Session) (s : Session) → find_session id rows ≡ some s → s.id ≡ id
unfolding find_session
find_session-id id [] s e = cc
find_session-id id (r ∷ rest) s e = grind (arith, eq_iff r.id id, find_session-id id rest s)

pub find_session-append :
    (id : String) (rows more : List Session) (s : Session)
    → find_session id rows ≡ some s
    → find_session id (rows ++ more) ≡ some s
unfolding find_session
find_session-append id [] more s e = cc
find_session-append id (r ∷ rest) more s e = ground (arith, find_session-append id rest more s)

pub find_session-append_none :
    (id : String) (rows more : List Session)
    → find_session id rows ≡ none
    → find_session id (rows ++ more) ≡ find_session id more
unfolding find_session
find_session-append_none id [] more e = refl
find_session-append_none id (r ∷ rest) more e =
    ground (arith, find_session-append_none id rest more)

if_map :
    (f : Session → Session) (b : Bool) (r : Session) (mapped found : Option Session)
    → mapped ≡ map_some f found
    → (if b then some (f r) else mapped) ≡ map_some f (if b then some r else found)
if_map f true r mapped found e = refl
if_map f false r mapped found e = e

pub find_session-map :
    (f : Session → Session) (id : String) (rows : List Session)
    → ((s : Session) → (f s).id ≡ s.id)
    → find_session id (map f rows) ≡ map_some f (find_session id rows)
unfolding find_session
find_session-map f id [] keeps = refl
find_session-map f id (r ∷ rest) keeps =
    ap (λ i. if str_eq i id then some (f r) else find_session id (map f rest)) (keeps r)
    ∙ if_map f (str_eq r.id id) r (find_session id (map f rest)) (find_session id rest)
        (find_session-map f id rest keeps)

pub abandon_if_expired-id :
    (now : ℕ) (username : String) (s : Session) → (abandon_if_expired now username s).id ≡ s.id
abandon_if_expired-id now username s = ground arith

pub set_status_if-id :
    (id : String) (status : SessionStatus) (s : Session) → (set_status_if id status s).id ≡ s.id
set_status_if-id id status s = ground arith

pub abort_storage-db : (env : Env) (s : Session) (st : State) → (abort_storage env s st).db ≡ st.db
abort_storage-db env s st = ground arith

pub some_inj : {a b : Session} → some a ≡ some b → a ≡ b
some_inj {a} {b} e = cc
