-- ===== src/Uploads/NewRows.antt =====
-- A new chunk row keeps the rows of each session id in order.
use arkfile.Base.{
  and_true, Bool-cases, ==_iff, ℕ, ◌≡◌, ◌≤◌, sym, ap, inl, inr, ◌∙◌, true, false, ◌&&◌, ◌||◌, none,
  some, List, [], ◌∷◌, ◌++◌, arith, String, str_eq, eq_iff,
}
use arkfile.Base.Int.{ℤ, pos, negsuc, ltb_ℤ, leb_ℤ, eq_ℤ}
use arkfile.Uploads.{completed, is_in_progress, Session, ChunkRow, State, Env, find_session}
use arkfile.Uploads.Chunk.{ChunkRequest, upload_data, has_chunk, chunk_row}
use arkfile.Uploads.Sessions.{find_session-id, some_inj}
use arkfile.Uploads.Endings.{IsServed, IsUploaded}
use arkfile.Uploads.Counting.{
  occurs, count_rows-append, occurs-append, occurs-has_chunk, AreRanged-append, chunks_of-append,
}
use arkfile.Uploads.Rows.{IsTracked}

eq_ℤ-pos : (a : ℤ) (k : ℕ) → eq_ℤ a (pos k) ≡ true → a ≡ pos k
eq_ℤ-pos (pos n) k h = ap pos ((==_iff n k).0 h)
eq_ℤ-pos (negsuc n) k h = cc

chunk_once :
    (env : Env) (id : String) (k : ℕ) (s : Session) (number : ℤ) (hash blob : List ℕ)
    (rows : List ChunkRow)
    → has_chunk s.id number rows ≡ false
    → occurs id k rows ≤ 1
    → occurs id k (rows ++ chunk_row env s number hash blob ∷ []) ≤ 1
chunk_once env id k s number hash blob rows new h =
    elim (Bool-cases (str_eq s.id id && eq_ℤ number (pos k))) [
      | inl hit ↦
          let same : s.id ≡ id = (eq_iff s.id id).0 (and_true _ _ hit).0 in
          let equal : number ≡ pos k = eq_ℤ-pos number k (and_true _ _ hit).1 in
          let fresh : has_chunk id (pos k) rows ≡ false = rw (sym same, sym equal) new in
          ground (
            arith,
            occurs-append id k rows (chunk_row env s number hash blob),
            occurs-has_chunk id k rows fresh,
          )
      | inr miss ↦ ground (arith, occurs-append id k rows (chunk_row env s number hash blob))
    ]

-- A row of the session that is asked about belongs to the session that was served.
own_session :
    (username id other : String) (st : State) (s : Session)
    → IsServed username other st s
    → str_eq s.id id ≡ true
    → find_session id st.db.sessions ≡ some s
own_session username id other st s served own =
    let same : s.id ≡ id = (eq_iff s.id id).0 own in
    let asked : s.id ≡ other = find_session-id other st.db.sessions s served.found in
    ap (λ i. find_session i st.db.sessions) (sym same ∙ asked) ∙ served.found

foreign_row :
    (username id other : String) (st : State) (s : Session)
    → IsServed username other st s
    → find_session id st.db.sessions ≡ none
    → str_eq s.id id ≡ false
foreign_row username id other st s served gone = elim (Bool-cases (str_eq s.id id)) [
  | inl own ↦
      let found : find_session id st.db.sessions ≡ some s =
        own_session username id other st s served own in
      cc
  | inr foreign ↦ foreign
]

foreign_ended :
    (username id other : String) (st : State) (s t : Session)
    → IsServed username other st s
    → find_session id st.db.sessions ≡ some t
    → t.status ≡ completed
    → str_eq s.id id ≡ false
foreign_ended username id other st s t served found done = elim (Bool-cases (str_eq s.id id)) [
  | inl own ↦
      let one : s ≡ t = some_inj (sym (own_session username id other st s served own) ∙ found) in
      let open_ : is_in_progress completed ≡ true =
        sym (ap is_in_progress (ap (λ r. r.status) one ∙ done)) ∙ served.open_ in
      cc
  | inr foreign ↦ foreign
]

pub IsTracked-chunk :
    (id : String) (env : Env) (username other : String) (request : ChunkRequest) (st after : State)
    (s : Session) (number : ℤ)
    → IsUploaded env username other request st after s number
    → IsTracked id st
    → IsTracked id after
IsTracked-chunk id env username other request st after s number u t =
    let c = chunk_row env s number request.chunk_hash (upload_data env s number request.body) in
    let rows = ap (λ db. db.chunks) u.row_added in
    let sessions = ap (λ db. db.sessions) u.row_added in
    record {
      orphans = λ e.
          let gone : find_session id st.db.sessions ≡ none =
            sym (ap (find_session id) sessions) ∙ e in
          let foreign = foreign_row username id other st s u.served gone in
          rw (rows) (ground (arith, count_rows-append id st.db.chunks c, foreign, t.orphans gone));
      ranged = λ r e.
          let found : find_session id st.db.sessions ≡ some r =
            sym (ap (find_session id) sessions) ∙ e in
          rw (rows) (
            AreRanged-append id r.total_chunks st.db.chunks c (t.ranged r found) (λ own.
              ap (λ q. ltb_ℤ number (pos 0) || leb_ℤ q.total_chunks number)
                (some_inj (sym found ∙ own_session username id other st s u.served own))
              ∙ u.in_range));
      once = λ k. rw (rows) (
          chunk_once env id k s number request.chunk_hash (upload_data env s number request.body)
            st.db.chunks u.is_new (t.once k));
      whole = λ r e done.
          let found : find_session id st.db.sessions ≡ some r =
            sym (ap (find_session id) sessions) ∙ e in
          let foreign = foreign_ended username id other st s r u.served found done in
          rw (rows, chunks_of-append id st.db.chunks c foreign) (t.whole r found done);
    }
