-- ===== src/Uploads/Whole.antt =====
-- In every history of the upload handlers, a completed session has all of its chunks.
use arkfile.Base.{
  Option-cases, ℕ, ◌≡◌, ◌<◌, refl, sym, ap, inl, inr, ◌∙◌, none, some, List, [], ◌∷◌, ◌++◌, map,
  arith, length, String,
}
use arkfile.Base.Int.{pos, pos_part, eq_ℤ-eq}
use arkfile.Uploads.{in_progress, completed, Session, ChunkRow, State, Env, find_session}
use arkfile.Uploads.Create.{CreateRequest, abandon_if_expired, new_session, swept}
use arkfile.Uploads.Cancel.{chunks_of}
use arkfile.Uploads.Complete.{stored_size}
use arkfile.Uploads.Sessions.{
  map_some, find_session-append, find_session-append_none, find_session-map, abandon_if_expired-id,
  some_inj,
}
use arkfile.Uploads.Outcomes.{IsCreated}
use arkfile.Uploads.Steps.{
  Steps, stop, step, Change, no_change, session_added, session_canceled, chunk_added,
  session_completed, Step-Change,
}
use arkfile.Uploads.Counting.{
  count_rows, occurs, length-chunks_of, every_number, AreRanged-count_rows,
}
use arkfile.Uploads.Rows.{
  IsTracked, IsUpdated, carried, carried_map, IsTracked-cancel, IsTracked-completion,
}
use arkfile.Uploads.NewRows.{IsTracked-chunk}

new-IsTracked :
    (id : String) (st after : State)
    → after.db.chunks ≡ st.db.chunks
    → find_session id st.db.sessions ≡ none
    → ((r : Session) → find_session id after.db.sessions ≡ some r → r.status ≡ in_progress)
    → IsTracked id st
    → IsTracked id after
new-IsTracked id st after same gone fresh t = record {
  orphans = λ e. rw (same) (t.orphans gone);
  ranged = λ r e. rw (same) (AreRanged-count_rows id r.total_chunks st.db.chunks (t.orphans gone));
  once = λ k. rw (same) (t.once k);
  whole = λ r e done. let clash : in_progress ≡ completed = sym (fresh r e) ∙ done in cc;
}

nothing_is : (s : Session) → none ≡ some s → ⊥
nothing_is s e = cc

map_same : (rows : List Session) → map (λ s. s) rows ≡ rows
map_same [] = refl
map_same (r ∷ rest) = ap (λ q. r ∷ q) (map_same rest)

occurs_nothing :
    (id : String) (k : ℕ) (rows : List ChunkRow) → count_rows id rows ≡ 0 → occurs id k rows ≡ 0
occurs_nothing id k [] h = refl
occurs_nothing id k (c ∷ rest) h = ground (arith, occurs_nothing id k rest)

IsTracked-empty :
    (id : String) (st : State)
    → find_session id st.db.sessions ≡ none
    → count_rows id st.db.chunks ≡ 0
    → IsTracked id st
IsTracked-empty id st gone empty = record {
  orphans = λ e. empty;
  ranged = λ s e. AreRanged-count_rows id s.total_chunks st.db.chunks empty;
  once = λ k. omega (arith, occurs_nothing id k st.db.chunks empty);
  whole = λ s e done. elim (nothing_is s (sym gone ∙ e)) [ ];
}

abandon_back :
    (now : ℕ) (username : String) (s : Session)
    → (abandon_if_expired now username s).status ≡ completed
    → s.status ≡ completed
abandon_back now username s done = ground arith

updated_old :
    (id : String) (now : ℕ) (username : String) (st : State) (old r : Session)
    → find_session id st.db.sessions ≡ some old
    → abandon_if_expired now username old ≡ r
    → IsUpdated id st.db.chunks (find_session id st.db.sessions) r
updated_old id now username st old r found same = record {
  old = old;
  was = found;
  same_total = ap (λ q. q.total_chunks) (sym same) ∙ ground arith;
  same_padded = ap (λ q. q.padded_size) (sym same) ∙ ground arith;
  status_back = λ done. inl (abandon_back now username old (ap (λ q. q.status) same ∙ done));
}

find_one : (id : String) (s r : Session) → find_session id (s ∷ []) ≡ some r → s ≡ r
unfolding find_session
find_one id s r e = ground arith

IsTracked-creation :
    (id : String) (env : Env) (new storage_id username : String) (request : CreateRequest)
    (st after : State)
    → IsCreated env (new_session env new storage_id username request) st after
    → IsTracked id st
    → IsTracked id after
IsTracked-creation id env new storage_id username request st after c t =
    let s = new_session env new storage_id username request in
    let f = abandon_if_expired env.now username in
    let rows = swept env username st.db in
    let chunks = ap (λ db. db.chunks) c.row_added in
    let sessions : after.db.sessions ≡ rows ++ s ∷ [] = ap (λ db. db.sessions) c.row_added in
    let mapped_ = find_session-map f id st.db.sessions (abandon_if_expired-id env.now username) in
    elim (Option-cases (find_session id st.db.sessions)) [
      | inl gone ↦
          let none_ : find_session id rows ≡ none = mapped_ ∙ ap (map_some f) gone in
          let last =
            ap (find_session id) sessions ∙ find_session-append_none id rows (s ∷ []) none_ in
          new-IsTracked id st after chunks gone
            (λ r e. sym (ap (λ q. q.status) (find_one id s r (sym last ∙ e)))) t
      | inr (old, found) ↦
          let kept : find_session id after.db.sessions ≡ some (f old) =
            ap (find_session id) sessions
            ∙ find_session-append id rows (s ∷ []) (f old) (mapped_ ∙ ap (map_some f) found) in
          carried id st after chunks (λ e. elim (nothing_is (f old) (sym e ∙ kept)) [ ])
            (λ r e. updated_old id env.now username st old r found (some_inj (sym kept ∙ e))) t
    ]

IsTracked-Change :
    (id : String) (st after : State) → Change st after → IsTracked id st → IsTracked id after
IsTracked-Change id st after (no_change sessions chunks) t =
    carried_map id st after (λ s. s) chunks (sessions ∙ sym (map_same st.db.sessions)) (λ s. refl)
      (λ s. refl) (λ s. refl) (λ s found done. inl done) t
IsTracked-Change id st after (session_added env new storage_id username request c) t =
    IsTracked-creation id env new storage_id username request st after c t
IsTracked-Change id st after (session_canceled username other s served e) t =
    IsTracked-cancel id other st after e t
IsTracked-Change id st after (chunk_added env username other request s number u) t =
    IsTracked-chunk id env username other request st after s number u t
IsTracked-Change id st after (session_completed env username other c) t =
    IsTracked-completion id env username other st after c t

Steps-IsTracked :
    (id : String) (st after : State) → Steps st after → IsTracked id st → IsTracked id after
Steps-IsTracked id st after (stop _) t = t
Steps-IsTracked id st after (step _ b _ first rest) t =
    Steps-IsTracked id b after rest (IsTracked-Change id st b (Step-Change st b first) t)

-- In every history of the handlers that starts without the rows of a session id, a session that is
-- found under the id as completed has exactly one row for each chunk number below its number of
-- chunks, and the sizes of its rows add up, on int64, to its padded size.
pub Steps-completed :
    (id : String) (st after : State) (s : Session) (n k : ℕ)
    → Steps st after
    → find_session id st.db.sessions ≡ none
    → count_rows id st.db.chunks ≡ 0
    → find_session id after.db.sessions ≡ some s
    → s.status ≡ completed
    → s.total_chunks ≡ pos n
    → k < n
    → (occurs id k after.db.chunks ≡ 1)
      × (stored_size (chunks_of id after.db.chunks) ≡ s.padded_size)
Steps-completed id st after s n k steps gone empty found done total h =
    let t = Steps-IsTracked id st after steps (IsTracked-empty id st gone empty) in
    let (count, size) = t.whole s found done in
    let all_there : pos (length (chunks_of id after.db.chunks)) ≡ pos n =
      eq_ℤ-eq _ _ count ∙ total in
    let counted : count_rows id after.db.chunks ≡ n =
      sym (length-chunks_of id after.db.chunks) ∙ ap pos_part all_there in
    (
      every_number id n k after.db.chunks (rw (sym total) (t.ranged s found)) t.once counted h,
      eq_ℤ-eq _ _ size,
    )
