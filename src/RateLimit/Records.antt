-- ===== src/RateLimit/Records.antt =====
-- What a recorded failure does to the table of handlers/rate_limiting.go.
use arkfile.Base.{
  ℕ, suc, ◌+◌, ◌-◌, ◌≡◌, refl, Bool, true, false, ◌&&◌, Option, none, some, List, [], ◌∷◌, arith,
  ltb, str_eq, if◌then◌else◌, String, eq_iff,
}
use arkfile.Base.Table.{str_eq_refl}
use arkfile.RateLimit.{
  Entry, Store, Stmt, Env, find_entry, new_entry, ensure_row, update_rows, ensure_entry, select_row,
  record_in_tx, record_failure, Decision, allowed, delayed, is_entity_rate_limited,
  select_next_allowed, insert_or_ignore, begin_tx, select_count, update_count, commit_tx,
}

-- The failures that the table holds for a pair.
abbrev pub count_of : Option Entry → ℕ
count_of none = 0
count_of (some e) = e.failed_count

abbrev pub row_or_new : ℕ → String → String → Option Entry → Entry
row_or_new now share entity none = new_entry share entity now
row_or_new now share entity (some e) = e

find_entry-ensure_row :
    (now : ℕ) (share entity : String) (es : List Entry)
    → find_entry share entity (ensure_row now share entity es)
      ≡ some (row_or_new now share entity (find_entry share entity es))
unfolding find_entry ensure_row
find_entry-ensure_row now share entity [] = ground (arith, str_eq_refl share, str_eq_refl entity)
find_entry-ensure_row now share entity (e ∷ es) =
    ground (arith, find_entry-ensure_row now share entity es)

-- Two keys are told apart.
abbrev pub is_other : String → String → String → String → Bool
is_other share entity share2 entity2 = str_eq share share2 && str_eq entity entity2

find_entry-ensure_row_ne :
    (now : ℕ) (share entity share2 entity2 : String) (es : List Entry)
    → is_other share entity share2 entity2 ≡ false
    → find_entry share2 entity2 (ensure_row now share entity es) ≡ find_entry share2 entity2 es
unfolding find_entry ensure_row
find_entry-ensure_row_ne now share entity share2 entity2 [] h = ground arith
find_entry-ensure_row_ne now share entity share2 entity2 (e ∷ es) h =
    ground (arith, find_entry-ensure_row_ne now share entity share2 entity2 es)

abbrev updated : ℕ → ℕ → ℕ → Entry → Entry
updated now count next e = record e {
  failed_count = count;
  last_failed_attempt = some now;
  next_allowed_attempt = some next;
  updated_at = now;
}

find_entry-update_rows :
    (now : ℕ) (share entity : String) (count next : ℕ) (es : List Entry) (e : Entry)
    → find_entry share entity es ≡ some e
    → find_entry share entity (update_rows now share entity count next es)
      ≡ some (updated now count next e)
unfolding find_entry update_rows
find_entry-update_rows now share entity count next [] e h = cc
find_entry-update_rows now share entity count next (f ∷ es) e h =
    ground (arith, find_entry-update_rows now share entity count next es e)

find_entry-update_rows_ne :
    (now : ℕ) (share entity share2 entity2 : String) (count next : ℕ) (es : List Entry)
    → is_other share entity share2 entity2 ≡ false
    → find_entry share2 entity2 (update_rows now share entity count next es)
      ≡ find_entry share2 entity2 es
unfolding find_entry update_rows
find_entry-update_rows_ne now share entity share2 entity2 count next [] h = refl
find_entry-update_rows_ne now share entity share2 entity2 count next (e ∷ es) h = ground (
  arith,
  eq_iff share share2,
  eq_iff entity entity2,
  eq_iff e.share_id share,
  eq_iff e.share_id share2,
  eq_iff e.entity_id entity,
  eq_iff e.entity_id entity2,
  find_entry-update_rows_ne now share entity share2 entity2 count next es,
)

count-row_or_new :
    (now : ℕ) (share entity : String) (o : Option Entry)
    → (row_or_new now share entity o).failed_count ≡ count_of o
count-row_or_new now share entity none = refl
count-row_or_new now share entity (some e) = refl

abbrev pub NeverFails : Env → Type 0
NeverFails env = (s : Stmt) → env.fails s ≡ false

-- The wait that a row with this many failures asks for, measured `later - now` behind the failure.
abbrev pub is_delayed_until : ℕ → ℕ → Decision
is_delayed_until later next = if ltb later next then delayed (next - later) else allowed

-- Where no statement fails, now or later, a failure is recorded: the pair's count is one more, and the pair
-- is refused from then until the penalty of the new count is over, with the wait that remains.
pub record_failure-delays :
    (env later : Env) (penalty : ℕ → ℕ) (share entity : String) (s : Store)
    → NeverFails env
    → NeverFails later
    → let old = count_of (find_entry share entity s.rows) in
      let after = record_failure env penalty share entity s in
      (after.1 ≡ true)
      × (count_of (find_entry share entity after.0.rows) ≡ suc old)
      × (is_entity_rate_limited later share entity after.0
          ≡ is_delayed_until later.now (env.now + penalty (suc old)))
unfolding record_failure record_in_tx is_entity_rate_limited
record_failure-delays env later penalty share entity s ok ok2 =
    let rows = ensure_row env.now share entity s.rows in
    let e = row_or_new env.now share entity (find_entry share entity s.rows) in
    let found = find_entry-ensure_row env.now share entity s.rows in
    rw
      (
        ok insert_or_ignore,
        ok begin_tx,
        ok select_count,
        found,
        ok update_count,
        ok commit_tx,
        ok2 select_next_allowed,
        find_entry-update_rows env.now share entity (suc e.failed_count)
            (env.now + penalty (suc e.failed_count)) rows e found,
      )
      (rw (count-row_or_new env.now share entity (find_entry share entity s.rows))
        (refl, refl, refl))

in_tx_ne :
    (env : Env) (penalty : ℕ → ℕ) (share entity share2 entity2 : String) (o : Option Entry)
    (s : Store)
    → is_other share entity share2 entity2 ≡ false
    → find_entry share2 entity2 (record_in_tx env penalty share entity o s).0.rows
      ≡ find_entry share2 entity2 s.rows
unfolding record_in_tx
in_tx_ne env penalty share entity share2 entity2 none s h = refl
in_tx_ne env penalty share entity share2 entity2 (some e) s h = ground (
  arith,
  find_entry-update_rows_ne env.now share entity share2 entity2 (suc e.failed_count)
      (env.now + penalty (suc e.failed_count)) s.rows,
)

rows_ne :
    (env : Env) (penalty : ℕ → ℕ) (share entity share2 entity2 : String) (s : Store)
    → is_other share entity share2 entity2 ≡ false
    → find_entry share2 entity2 (record_failure env penalty share entity s).0.rows
      ≡ find_entry share2 entity2 s.rows
unfolding record_failure
rows_ne env penalty share entity share2 entity2 s h =
    let ensured = ensure_entry env share entity s in
    ground (
      arith,
      find_entry-ensure_row_ne env.now share entity share2 entity2 s.rows,
      in_tx_ne env penalty share entity share2 entity2
          (select_row env select_count share entity ensured) ensured,
    )

-- A failure of one pair, recorded or not, leaves what another pair is told.
record_failure-isolated :
    (env later : Env) (penalty : ℕ → ℕ) (share entity share2 entity2 : String) (s : Store)
    → is_other share entity share2 entity2 ≡ false
    → is_entity_rate_limited later share2 entity2 (record_failure env penalty share entity s).0
      ≡ is_entity_rate_limited later share2 entity2 s
unfolding is_entity_rate_limited
record_failure-isolated env later penalty share entity share2 entity2 s h =
    rw (rows_ne env penalty share entity share2 entity2 s h) refl
