-- ===== src/FloodGuard/Cleanup.antt =====
-- The cleanup of handlers/flood_guard.go is invisible: it removes only trackers that behave like
-- none.
use arkfile.Base.{
  ℕ, ◌≡◌, refl, ◌+◌, ◌≤◌, ◌<◌, sym, ◌∙◌, true, Option, none, some, [], ◌∷◌, String, arith, eq_iff,
  if◌then◌else◌, Bool-cases, inl, inr,
}
use arkfile.Base.Table.{IsUnique, lookup}
use arkfile.FloodGuard.{
  FloodTracker, Trackers, is_stale, cleanup, blocked_option, is_blocked, record_unauthorized_hit,
  hit, tier_for_hits, get_or_fresh, fresh,
}
use arkfile.FloodGuard.Bounds.{IsValid}
use arkfile.FloodGuard.Penalty.{hit_forgets}

abbrev keep : Option FloodTracker → ℕ → Option FloodTracker
keep none now = none
keep (some t) now = if is_stale t now then none else some t

lookup-cleanup :
    (m : Trackers) (k : String) (now : ℕ)
    → IsUnique m
    → lookup k (cleanup m now) ≡ keep (lookup k m) now
unfolding lookup cleanup
lookup-cleanup [] k now u = refl
lookup-cleanup ((j, t) ∷ m) k now u = ground (arith, lookup-cleanup m k now u.1, eq_iff j k, u.0)

-- A stale tracker blocks nobody, now or later.
blocked_stale :
    (o : Option FloodTracker) (now later : ℕ)
    → now ≤ later
    → blocked_option (keep o now) later ≡ blocked_option o later
unfolding blocked_option is_stale
blocked_stale none now later h = refl
blocked_stale (some t) now later h = ground arith

-- A hit on a stale tracker carries no penalty, like the first hit of a new entity.
penalty_fresh : (now : ℕ) → (hit (fresh now) now).1 ≡ 0
unfolding hit fresh tier_for_hits
penalty_fresh now = ground arith

stale_silent :
    (t : FloodTracker) (now : ℕ) → is_stale t now ≡ true → t.last_hit + 21600000000000 ≤ now
unfolding is_stale
stale_silent t now h = ground arith

penalty_stale :
    (o : Option FloodTracker) (now later : ℕ)
    → ((t : FloodTracker) → o ≡ some t → IsValid t × (0 < t.last_hit))
    → now ≤ later
    → (hit (get_or_fresh (keep o now) later) later).1 ≡ (hit (get_or_fresh o later) later).1
unfolding get_or_fresh
penalty_stale none now later v h = refl
penalty_stale (some t) now later v h = elim (Bool-cases (is_stale t now)) [
  | inr live ↦ rw live refl
  | inl stale ↦ rw stale (
      penalty_fresh later
      ∙ sym
          (hit_forgets t later (v t refl).0 (v t refl).1 (omega (arith, stale_silent t now stale))))
]

-- Where no entity has two trackers and the asked entity's tracker, if any, is valid with a last hit
-- behind 0, the cleanup changes no answer at its time or later: whether the entity is blocked, and
-- the penalty of its next hit.
pub cleanup_invisible :
    (m : Trackers) (k : String) (now later : ℕ)
    → IsUnique m
    → ((t : FloodTracker) → lookup k m ≡ some t → IsValid t × (0 < t.last_hit))
    → now ≤ later
    → (is_blocked (cleanup m now) k later ≡ is_blocked m k later)
      × ((record_unauthorized_hit (cleanup m now) k later).1
          ≡ (record_unauthorized_hit m k later).1)
unfolding is_blocked record_unauthorized_hit
cleanup_invisible m k now later u v h = (
  rw (lookup-cleanup m k now u) (blocked_stale (lookup k m) now later h),
  rw (lookup-cleanup m k now u) (penalty_stale (lookup k m) now later v h),
)
