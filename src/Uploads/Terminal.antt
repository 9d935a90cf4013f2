-- ===== src/Uploads/Terminal.antt =====
-- The status of an upload session: what has ended stays as it is.
use arkfile.Base.{
  ℕ, ◌≡◌, ◌≢◌, refl, sym, ap, ◌∙◌, true, false, some, List, [], ◌∷◌, map, arith, String, str_eq,
  eq_iff,
}
use arkfile.Uploads.{
  SessionStatus, in_progress, completed, canceled, abandoned, is_in_progress, Session, State,
  find_session, set_status_if,
}
use arkfile.Uploads.Create.{abandon_if_expired, new_session, swept}
use arkfile.Uploads.Sessions.{
  map_some, find_session-id, find_session-append, find_session-map, abandon_if_expired-id,
  set_status_if-id, some_inj,
}
use arkfile.Uploads.Endings.{IsServed}
use arkfile.Uploads.Steps.{
  Steps, stop, step, Change, no_change, session_added, session_canceled, chunk_added,
  session_completed, Step-Change, completed-sessions,
}

-- A served request was for another session than one that has ended.
other_session :
    (username id other : String) (st : State) (s t : Session)
    → find_session id st.db.sessions ≡ some s
    → is_in_progress s.status ≡ false
    → IsServed username other st t
    → (str_eq s.id other ≡ true → ⊥)
other_session username id other st s t found ended served same =
    let first : s.id ≡ id = find_session-id id st.db.sessions s found in
    let equal : s.id ≡ other = (eq_iff s.id other).0 same in
    let one : s ≡ t =
      some_inj
        (sym found ∙ ap (λ i. find_session i st.db.sessions) (sym first ∙ equal) ∙ served.found) in
    let open_ : is_in_progress s.status ≡ true =
      ap (λ r. is_in_progress r.status) one ∙ served.open_ in
    cc

set_status_if_other :
    (id : String) (status : SessionStatus) (s : Session)
    → (str_eq s.id id ≡ true → ⊥)
    → set_status_if id status s ≡ s
set_status_if_other id status s differs = ground arith

abandon_if_ended :
    (now : ℕ) (username : String) (s : Session)
    → is_in_progress s.status ≡ false
    → abandon_if_expired now username s ≡ s
abandon_if_ended now username s ended = ground arith

not_open : (status : SessionStatus) → status ≢ in_progress → is_in_progress status ≡ false
not_open in_progress differs = elim (differs refl) [ ]
not_open completed differs = refl
not_open canceled differs = refl
not_open abandoned differs = refl

-- The rows after a change of the status of another session.
kept_by_status :
    (id other : String) (status : SessionStatus) (rows : List Session) (s : Session)
    → find_session id rows ≡ some s
    → (str_eq s.id other ≡ true → ⊥)
    → find_session id (map (set_status_if other status) rows) ≡ some s
kept_by_status id other status rows s found differs =
    find_session-map (set_status_if other status) id rows (set_status_if-id other status)
    ∙ ap (map_some (set_status_if other status)) found
    ∙ ap some (set_status_if_other other status s differs)

kept_by-Change :
    (id : String) (st after : State) (s : Session)
    → find_session id st.db.sessions ≡ some s
    → is_in_progress s.status ≡ false
    → Change st after
    → find_session id after.db.sessions ≡ some s
kept_by-Change id st after s found ended (no_change same chunks) = ap (find_session id) same ∙ found
kept_by-Change id st after s found ended (session_added env new storage_id username request c) =
    ap (λ db. find_session id db.sessions) c.row_added
    ∙ find_session-append id (swept env username st.db)
        (new_session env new storage_id username request ∷ []) s
        (find_session-map (abandon_if_expired env.now username) id st.db.sessions
            (abandon_if_expired-id env.now username)
          ∙ ap (map_some (abandon_if_expired env.now username)) found
          ∙ ap some (abandon_if_ended env.now username s ended))
kept_by-Change id st after s found ended (session_canceled username other t served e) =
    ap (λ db. find_session id db.sessions) e
    ∙ kept_by_status id other canceled st.db.sessions s found
        (other_session username id other st s t found ended served)
kept_by-Change id st after s found ended (chunk_added env username other request t number c) =
    ap (λ db. find_session id db.sessions) c.row_added ∙ found
kept_by-Change id st after s found ended (session_completed env username other c) =
    let same : c.session.id ≡ other =
      find_session-id other st.db.sessions c.session c.served.found in
    ap (find_session id) (completed-sessions env username other st after c)
    ∙ kept_by_status id c.session.id completed st.db.sessions s found (λ e.
      other_session username id other st s c.session found ended c.served
        (ap (str_eq s.id) (sym same) ∙ e))

-- In every history of the handlers, a session that is completed, canceled or abandoned keeps its row
-- as it is, and the row is found under its id.
pub Steps-ended :
    (id : String) (st after : State) (s : Session)
    → Steps st after
    → find_session id st.db.sessions ≡ some s
    → s.status ≢ in_progress
    → find_session id after.db.sessions ≡ some s
Steps-ended id st after s (stop _) found ended = found
Steps-ended id st after s (step _ b _ first rest) found ended =
    Steps-ended id b after s rest
      (kept_by-Change id st b s found (not_open s.status ended) (Step-Change st b first)) ended
