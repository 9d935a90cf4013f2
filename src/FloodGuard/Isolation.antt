-- ===== src/FloodGuard/Isolation.antt =====
-- What one request of handlers/flood_guard.go can change, and for whom.
use arkfile.Base.{
  ℕ, ◌≡◌, refl, Bool, true, false, Option, none, some, String, str_eq, arith, ◌≤◌, Bool-cases, inl,
  inr, eq_iff,
}
use arkfile.Base.Table.{lookup, lookup-insert, lookup-insert_ne, lookup-insert_self}
use mathlib.Core.Bool.{false≢true}
use mathlib.Core.Path.{subst}
use arkfile.FloodGuard.Bounds.{IsValid}
use arkfile.FloodGuard.Penalty.{hit-IsValid, hit-fresh-IsValid, hit-penalty_mono}
use arkfile.FloodGuard.{
  FloodTracker, blocked_option, blocked_tracker, count_hit, Trackers, Outcome,
  record_unauthorized_hit, is_blocked, hit, get_or_fresh, middleware,
}

-- A hit of one entity leaves every other entity's answer as it was.
pub is_blocked-record_ne :
    (m : Trackers) (k j : String) (now later : ℕ)
    → str_eq k j ≡ false
    → is_blocked (record_unauthorized_hit m k now).0 j later ≡ is_blocked m j later
unfolding is_blocked record_unauthorized_hit
is_blocked-record_ne m k j now later h =
    rw (lookup-insert_ne k j (hit (get_or_fresh (lookup k m) now) now).0 m h)

-- Every tracker satisfies the invariant, and none was hit after `now`.
abbrev pub AreValid : Trackers → ℕ → Type 0
AreValid m now =
    (k : String) (t : FloodTracker) → lookup k m ≡ some t → IsValid t × (t.last_hit ≤ now)

-- The tracker that a hit of `k` leaves.
abbrev hit_of : Trackers → String → ℕ → FloodTracker
hit_of m k now = (hit (get_or_fresh (lookup k m) now) now).0

hit-last_hit : (t : FloodTracker) (now : ℕ) → (hit t now).0.last_hit ≡ now
unfolding hit count_hit
hit-last_hit t now = ground arith

-- What is asked of the tracker that an entity has, if it has one.
abbrev IsValidEntry : Option FloodTracker → ℕ → Type 0
IsValidEntry o now = (t : FloodTracker) → o ≡ some t → IsValid t × (t.last_hit ≤ now)

hit_of-IsValid :
    (o : Option FloodTracker) (now : ℕ)
    → IsValidEntry o now
    → IsValid (hit (get_or_fresh o now) now).0
unfolding get_or_fresh
hit_of-IsValid none now v = hit-fresh-IsValid now
hit_of-IsValid (some t) now v = hit-IsValid t now (v t refl).0 (v t refl).1

-- Where every tracker is valid and has its last hit at or before now, a hit at that time keeps it
-- so for all trackers.
record-AreValid :
    (m : Trackers) (k : String) (now : ℕ)
    → AreValid m now
    → AreValid (record_unauthorized_hit m k now).0 now
unfolding record_unauthorized_hit
record-AreValid m k now v j t e = ground (
  arith,
  lookup-insert k j (hit_of m k now) m,
  hit_of-IsValid (lookup k m) now (v k),
  hit-last_hit (get_or_fresh (lookup k m) now) now,
  v j t,
)

blocked_tracker_mono :
    (t u : FloodTracker) (later : ℕ)
    → t.penalty_until ≤ u.penalty_until
    → (blocked_tracker t later).0 ≡ true
    → (blocked_tracker u later).0 ≡ true
unfolding blocked_tracker
blocked_tracker_mono t u later h b = ground arith

hit_of-blocked :
    (o : Option FloodTracker) (now later : ℕ)
    → IsValidEntry o now
    → (blocked_option o later).0 ≡ true
    → (blocked_tracker (hit (get_or_fresh o now) now).0 later).0 ≡ true
unfolding blocked_option get_or_fresh
hit_of-blocked none now later v b = absurd (false≢true b)
hit_of-blocked (some t) now later v b =
    blocked_tracker_mono t (hit t now).0 later (hit-penalty_mono t now (v t refl).0 (v t refl).1) b

is_blocked-record_self :
    (m : Trackers) (k : String) (now later : ℕ)
    → (blocked_tracker (hit_of m k now) later).0 ≡ true
    → (is_blocked (record_unauthorized_hit m k now).0 k later).0 ≡ true
unfolding is_blocked record_unauthorized_hit
is_blocked-record_self m k now later h = rw (lookup-insert_self k (hit_of m k now) m) h

is_blocked-eq :
    (m : Trackers) (k j : String) (later : ℕ)
    → k ≡ j
    → (is_blocked m j later).0 ≡ true
    → (blocked_option (lookup k m) later).0 ≡ true
unfolding is_blocked
is_blocked-eq m k j later e b = rw e b

-- Recording a hit lifts nobody's block.
record-keeps_block :
    (m : Trackers) (k j : String) (now later : ℕ)
    → AreValid m now
    → (is_blocked m j later).0 ≡ true
    → (is_blocked (record_unauthorized_hit m k now).0 j later).0 ≡ true
record-keeps_block m k j now later v b = elim (Bool-cases (str_eq k j)) [
  | inr other ↦ rw (is_blocked-record_ne m k j now later other) b
  | inl same ↦
      let e = (eq_iff k j).0 same in
      subst (λ i. (is_blocked (record_unauthorized_hit m k now).0 i later).0 ≡ true) e
        (is_blocked-record_self m k now later
          (hit_of-blocked (lookup k m) now later (v k) (is_blocked-eq m k j later e b)))
]

-- Where every tracker is valid and has its last hit at or before the time of a hit, no request, of
-- this entity or of another, lifts a block: whoever would be blocked at a time without the request
-- is blocked at that time with it.
pub middleware-keeps_block :
    (m : Trackers) (path k j : String) (authenticated : Bool) (outcome : Outcome) (t₀ t₁ later : ℕ)
    → AreValid m t₁
    → (is_blocked m j later).0 ≡ true
    → (is_blocked (middleware m path k authenticated outcome t₀ t₁).0 j later).0 ≡ true
unfolding middleware
middleware-keeps_block m path k j authenticated outcome t₀ t₁ later v b =
    ground (arith, record-keeps_block m k j t₁ later v b)

-- A request of one entity leaves what the flood guard answers, at any time, for every other entity.
middleware-isolated :
    (m : Trackers) (path k j : String) (authenticated : Bool) (outcome : Outcome) (t₀ t₁ later : ℕ)
    → str_eq k j ≡ false
    → is_blocked (middleware m path k authenticated outcome t₀ t₁).0 j later ≡ is_blocked m j later
unfolding middleware
middleware-isolated m path k j authenticated outcome t₀ t₁ later h =
    ground (arith, is_blocked-record_ne m k j t₁ later h)
