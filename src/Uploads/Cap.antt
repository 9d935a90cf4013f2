-- ===== src/Uploads/Cap.antt =====
-- The cap on the uploads that a user has in progress.
use arkfile.Base.{
  Bool-cases, ℕ, ◌+◌, ◌≡◌, ◌≤◌, refl, sym, ap, inl, inr, ◌∙◌, true, false, List, [], ◌∷◌, ◌++◌, map,
  arith, leb, String, str_eq, eq_iff,
}
use arkfile.Uploads.{
  SessionStatus, completed, canceled, is_in_progress, Session, Db, State, Env, set_status_if,
}
use arkfile.Uploads.Create.{
  max_in_progress_upload_sessions_per_user, abandon_if_expired, count_in_progress, new_session,
  swept,
}
use arkfile.Uploads.Chunk.{lower}
use arkfile.Uploads.Steps.{
  Steps, stop, step, Change, no_change, session_added, session_canceled, chunk_added,
  session_completed, Step-Change, completed-sessions,
}

count_cons :
    (username : String) (s : Session) (rows : List Session)
    → count_in_progress username (s ∷ rows)
      ≡ count_in_progress username (s ∷ []) + count_in_progress username rows
count_cons username s rows = ground arith

count_append :
    (username : String) (rows : List Session) (s : Session)
    → count_in_progress username (rows ++ s ∷ [])
      ≡ count_in_progress username rows + count_in_progress username (s ∷ [])
count_append username [] s = omega arith
count_append username (r ∷ rest) s = ground (arith, count_append username rest s)

count_one : (username : String) (s : Session) → count_in_progress username (s ∷ []) ≤ 1
count_one username s = ground arith

count_other :
    (username : String) (s : Session)
    → str_eq s.owner_username username ≡ false
    → count_in_progress username (s ∷ []) ≡ 0
count_other username s other = ground arith

-- An update that starts no upload of the user does not raise the count.
count_map :
    (username : String) (f : Session → Session) (rows : List Session)
    → ((s : Session) → count_in_progress username (f s ∷ []) ≤ count_in_progress username (s ∷ []))
    → count_in_progress username (map f rows) ≤ count_in_progress username rows
count_map username f [] lower = omega arith
count_map username f (r ∷ rest) lower = omega (
  arith,
  count_cons username (f r) (map f rest),
  count_cons username r rest,
  lower r,
  count_map username f rest lower,
)

count-set_status :
    (username id : String) (status : SessionStatus) (s : Session)
    → is_in_progress status ≡ false
    → count_in_progress username (set_status_if id status s ∷ [])
      ≤ count_in_progress username (s ∷ [])
count-set_status username id status s ended = ground arith

count-abandon :
    (username owner : String) (now : ℕ) (s : Session)
    → count_in_progress username (abandon_if_expired now owner s ∷ [])
      ≤ count_in_progress username (s ∷ [])
count-abandon username owner now s = ground arith

below : (n : ℕ) → leb 4 n ≡ false → n ≤ 3
below n h = ground arith

added :
    (rows : List Session) (username : String) (s : Session)
    → (str_eq s.owner_username username ≡ true → leb 4 (count_in_progress username rows) ≡ false)
    → count_in_progress username rows ≤ 4
    → count_in_progress username (rows ++ s ∷ []) ≤ 4
added rows username s cap h = elim (Bool-cases (str_eq s.owner_username username)) [
  | inl own ↦ omega (
    arith,
    count_append username rows s,
    count_one username s,
    below (count_in_progress username rows) (cap own),
  )
  | inr other ↦ omega (arith, count_append username rows s, count_other username s other)
]

cap_of :
    (env : Env) (username owner : String) (db : Db)
    → leb max_in_progress_upload_sessions_per_user (count_in_progress owner (swept env owner db))
      ≡ false
    → str_eq owner username ≡ true
    → leb 4 (count_in_progress username (swept env owner db)) ≡ false
cap_of env username owner db cap own =
    let same : owner ≡ username = (eq_iff owner username).0 own in
    ap (λ u. leb 4 (count_in_progress u (swept env owner db))) (sym same) ∙ cap

capped-Change :
    (username : String) (st after : State)
    → Change st after
    → count_in_progress username st.db.sessions ≤ 4
    → count_in_progress username after.db.sessions ≤ 4
capped-Change username st after (no_change same chunks) h = rw (same) h
capped-Change username st after (session_added env id storage_id owner request c) h =
    let lower : count_in_progress username (swept env owner st.db)
        ≤ count_in_progress username st.db.sessions =
      count_map username (abandon_if_expired env.now owner) st.db.sessions
        (count-abandon username owner env.now) in
    rw (ap (λ db. db.sessions) c.row_added) (
      added (swept env owner st.db) username (new_session env id storage_id owner request)
        (cap_of env username owner st.db c.below_cap) (omega arith))
capped-Change username st after (session_canceled user id s served e) h =
    let lower =
      count_map username (set_status_if id canceled) st.db.sessions
        (λ s. count-set_status username id canceled s refl) in
    rw (ap (λ db. db.sessions) e) (omega (arith, lower))
capped-Change username st after (chunk_added env user id request s number c) h =
    rw (ap (λ db. db.sessions) c.row_added) h
capped-Change username st after (session_completed env user id c) h =
    let lower =
      count_map username (set_status_if c.session.id completed) st.db.sessions
        (λ s. count-set_status username c.session.id completed s refl) in
    rw (completed-sessions env user id st after c) (omega (arith, lower))

-- In every history of the handlers, a user who starts with at most 4 uploads in progress never has
-- more than 4 in progress.
pub Steps-count_in_progress :
    (username : String) (st after : State)
    → Steps st after
    → count_in_progress username st.db.sessions ≤ 4
    → count_in_progress username after.db.sessions ≤ 4
Steps-count_in_progress username st after (stop _) h = h
Steps-count_in_progress username st after (step _ b _ first rest) h =
    Steps-count_in_progress username b after rest
      (capped-Change username st b (Step-Change st b first) h)
