-- ===== src/Uploads/Rows.antt =====
-- The chunk rows of a session, over a history: each in range and there once, and all of them there
-- when the session is completed.
use arkfile.Base.{
  Bool-cases, ℕ, ◌≡◌, ◌⊎◌, ◌≤◌, refl, sym, ap, inl, inr, ◌∙◌, true, false, Option, none, some, List,
  map, arith, length, String, str_eq, eq_iff,
}
use arkfile.Base.Int.{pos, eq_ℤ}
use arkfile.Uploads.{
  completed, canceled, Session, ChunkRow, State, Env, find_session, set_status_if, set_status,
}
use arkfile.Uploads.Cancel.{chunks_of}
use arkfile.Uploads.Complete.{stored_size}
use arkfile.Uploads.Sessions.{
  map_some, find_session-id, find_session-map, set_status_if-id, some_inj,
}
use arkfile.Uploads.Completion.{IsCompleted}
use arkfile.Uploads.Steps.{completed-sessions, completed-chunks}
use arkfile.Uploads.Counting.{count_rows, occurs, AreRanged}

-- All chunks are there, and their sizes add up to the padded size.
abbrev pub IsWhole : String → Session → List ChunkRow → Type 0
IsWhole id s rows =
    (eq_ℤ (pos (length (chunks_of id rows))) s.total_chunks ≡ true)
    × (eq_ℤ (stored_size (chunks_of id rows)) s.padded_size ≡ true)

-- The rows of a session id are those that the handlers can have left.
pub record IsTracked (id : String) (st : State) : Type 0 where
  pub orphans : find_session id st.db.sessions ≡ none → count_rows id st.db.chunks ≡ 0
  pub ranged :
      (s : Session)
      → find_session id st.db.sessions ≡ some s
      → AreRanged id s.total_chunks st.db.chunks
  pub once : (k : ℕ) → occurs id k st.db.chunks ≤ 1
  pub whole :
      (s : Session)
      → find_session id st.db.sessions ≡ some s
      → s.status ≡ completed
      → IsWhole id s st.db.chunks

-- The row of an id after an update of the sessions, with the row before it.
pub record IsUpdated (id : String) (rows : List ChunkRow) (before : Option Session) (s : Session)
    : Type 0 where
  pub old : Session
  pub was : before ≡ some old
  pub same_total : s.total_chunks ≡ old.total_chunks
  pub same_padded : s.padded_size ≡ old.padded_size
  pub status_back : s.status ≡ completed → (old.status ≡ completed) ⊎ IsWhole id old rows

IsWhole-of :
    (id : String) (st : State) (old : Session)
    → IsTracked id st
    → find_session id st.db.sessions ≡ some old
    → (old.status ≡ completed) ⊎ IsWhole id old st.db.chunks
    → IsWhole id old st.db.chunks
IsWhole-of id st old t found (inl done) = t.whole old found done
IsWhole-of id st old t found (inr whole) = whole

-- An update of the sessions that keeps the chunks.
pub carried :
    (id : String) (st after : State)
    → after.db.chunks ≡ st.db.chunks
    → (find_session id after.db.sessions ≡ none → find_session id st.db.sessions ≡ none)
    → ((s : Session)
        → find_session id after.db.sessions ≡ some s
        → IsUpdated id st.db.chunks (find_session id st.db.sessions) s)
    → IsTracked id st
    → IsTracked id after
carried id st after same gone back t = record {
  orphans = λ e. rw (same) (t.orphans (gone e));
  ranged = λ s found. let u = back s found in rw (same, u.same_total) (t.ranged u.old u.was);
  once = λ k. rw (same) (t.once k);
  whole = λ s found done.
      let u = back s found in
      rw (same, u.same_total, u.same_padded) (IsWhole-of id st u.old t u.was (u.status_back done));
}

mapped :
    (id : String) (rows : List ChunkRow) (f : Session → Session) (o : Option Session)
    → ((s : Session) → (f s).total_chunks ≡ s.total_chunks)
    → ((s : Session) → (f s).padded_size ≡ s.padded_size)
    → ((s : Session)
        → o ≡ some s
        → (f s).status ≡ completed
        → (s.status ≡ completed) ⊎ IsWhole id s rows)
    → (s : Session) → map_some f o ≡ some s
    → IsUpdated id rows o s
mapped id rows f none total padded back s e = cc
mapped id rows f (some old) total padded back s e =
    let same : f old ≡ s = some_inj e in
    record {
      old = old;
      was = refl;
      same_total = ap (λ r. r.total_chunks) (sym same) ∙ total old;
      same_padded = ap (λ r. r.padded_size) (sym same) ∙ padded old;
      status_back = λ done. back old refl (ap (λ r. r.status) same ∙ done);
    }

mapped_none : (f : Session → Session) (o : Option Session) → map_some f o ≡ none → o ≡ none
mapped_none f none e = refl
mapped_none f (some s) e = cc

-- The same update of each row.
pub carried_map :
    (id : String) (st after : State) (f : Session → Session)
    → after.db.chunks ≡ st.db.chunks
    → after.db.sessions ≡ map f st.db.sessions
    → ((s : Session) → (f s).id ≡ s.id)
    → ((s : Session) → (f s).total_chunks ≡ s.total_chunks)
    → ((s : Session) → (f s).padded_size ≡ s.padded_size)
    → ((s : Session)
        → find_session id st.db.sessions ≡ some s
        → (f s).status ≡ completed
        → (s.status ≡ completed) ⊎ IsWhole id s st.db.chunks)
    → IsTracked id st
    → IsTracked id after
carried_map id st after f chunks sessions ids total padded back t =
    let found : find_session id after.db.sessions ≡ map_some f (find_session id st.db.sessions) =
      ap (find_session id) sessions ∙ find_session-map f id st.db.sessions ids in
    carried id st after chunks (λ e. mapped_none f (find_session id st.db.sessions) (sym found ∙ e))
      (λ s e.
        mapped id st.db.chunks f (find_session id st.db.sessions) total padded back s
          (sym found ∙ e))
      t

canceled_back :
    (other : String) (s : Session)
    → (set_status_if other canceled s).status ≡ completed
    → s.status ≡ completed
canceled_back other s done = ground arith

completed_back :
    (other : String) (s : Session)
    → str_eq s.id other ≡ false
    → (set_status_if other completed s).status ≡ completed
    → s.status ≡ completed
completed_back other s differs done = ground arith

completed-IsWhole :
    (id : String) (env : Env) (username other : String) (st after : State)
    (c : IsCompleted env username other st after) (s : Session)
    → find_session id st.db.sessions ≡ some s
    → str_eq s.id c.session.id ≡ true
    → IsWhole id s st.db.chunks
completed-IsWhole id env username other st after c s found same =
    let first : s.id ≡ id = find_session-id id st.db.sessions s found in
    let second : c.session.id ≡ other =
      find_session-id other st.db.sessions c.session c.served.found in
    let equal : s.id ≡ c.session.id = (eq_iff s.id c.session.id).0 same in
    let one : s ≡ c.session = some_inj (
      sym found
      ∙ ap (λ i. find_session i st.db.sessions) (sym first ∙ equal ∙ second)
      ∙ c.served.found) in
    rw (one, sym first ∙ equal) (c.all_there, c.size_right)

pub IsTracked-cancel :
    (id other : String) (st after : State)
    → after.db ≡ set_status other canceled st.db
    → IsTracked id st
    → IsTracked id after
IsTracked-cancel id other st after e t =
    carried_map id st after (set_status_if other canceled) (ap (λ db. db.chunks) e)
      (ap (λ db. db.sessions) e) (set_status_if-id other canceled) (λ s. ground arith)
      (λ s. ground arith) (λ s found done. inl (canceled_back other s done)) t

pub IsTracked-completion :
    (id : String) (env : Env) (username other : String) (st after : State)
    → IsCompleted env username other st after
    → IsTracked id st
    → IsTracked id after
IsTracked-completion id env username other st after c t =
    carried_map id st after (set_status_if c.session.id completed)
      (completed-chunks env username other st after c)
      (completed-sessions env username other st after c) (set_status_if-id c.session.id completed)
      (λ s. ground arith) (λ s. ground arith)
      (λ s found done. elim (Bool-cases (str_eq s.id c.session.id)) [
        | inl same ↦ inr (completed-IsWhole id env username other st after c s found same)
        | inr differs ↦ inl (completed_back c.session.id s differs done)
      ])
      t
