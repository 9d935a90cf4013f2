-- ===== src/RateLimit/Examples.antt =====
-- The theorems on rate limits at a table with one failure.
use arkfile.Base.{ℕ, ◌+◌, ◌≡◌, refl, true, false, some, [], ◌∷◌}
use arkfile.RateLimit.{
  Entry, Store, Env, calculate_share_penalty, find_entry, record_failure, is_entity_rate_limited,
}
use arkfile.RateLimit.Records.{count_of, is_delayed_until, record_failure-delays}

abbrev three_failures : Entry
three_failures = record {
  share_id = "s";
  entity_id = "e";
  failed_count = 3;
  last_failed_attempt = some 90;
  next_allowed_attempt = some 90;
  created_at = 10;
  updated_at = 90;
}

abbrev store : Store
store = record { rows = three_failures ∷ []; last_cleanup_at = 0 }

abbrev at : ℕ → Env
at now = record { now = now; fails = λ s. false }

record_failure-delays_example :
    ((record_failure (at 100) calculate_share_penalty "s" "e" store).1 ≡ true)
    × (count_of (
          find_entry "s" "e" (record_failure (at 100) calculate_share_penalty "s" "e" store).0.rows)
        ≡ 4)
    × (is_entity_rate_limited
          (at 200)
          "s"
          "e"
          (record_failure (at 100) calculate_share_penalty "s" "e" store).0
        ≡ is_delayed_until 200 (100 + calculate_share_penalty 4))
unfolding find_entry
record_failure-delays_example =
    record_failure-delays (at 100) (at 200) calculate_share_penalty "s" "e" store (λ s. refl)
      (λ s. refl)
