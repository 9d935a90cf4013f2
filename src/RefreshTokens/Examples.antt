-- ===== src/RefreshTokens/Examples.antt =====
-- The theorems on refresh tokens at one family of one user; the hash puts a text in front.
use Prim.Native.String.{◌++◌ as text_append}
use arkfile.Base.{ℕ, ◌≢◌, refl, false, some, none, Option, [], ◌∷◌}
use arkfile.RefreshTokens.{
  RefreshToken, TokenDb, Env, rotated, find_token, insert_token_row, rotate, validate_row,
  validate_refresh_token, cleanup_expired_tokens,
}
use arkfile.RefreshTokens.Families.{IsReplay, validate_refresh_token-IsReplay}
use arkfile.RefreshTokens.Histories.{begun, cleanup_step, validate_refresh_token-stays_revoked}

abbrev at : ℕ → Env
at now = record { hash = λ s. text_append "h" s; now = now; fails = λ s. false }

abbrev head : Option ℕ → RefreshToken
head revoked_at = record {
  id = "hone";
  username = "ada";
  token_hash = "hone";
  expires_at = 1000;
  revoked = false;
  last_used = none;
  family_id = "f";
  superseded_by_hash = none;
  family_revoked_at = revoked_at;
}

abbrev tables : Option ℕ → TokenDb
tables revoked_at = record { tokens = head revoked_at ∷ []; jwt_revocations = [] }

validate_refresh_token-IsReplay_example : IsReplay "f" "ada" 30 (
    validate_refresh_token
      (at 30)
      "three"
      "one"
      (validate_refresh_token (at 20) "two" "one" (tables none)).0)
unfolding validate_refresh_token validate_row rotate insert_token_row find_token
validate_refresh_token-IsReplay_example =
    validate_refresh_token-IsReplay (at 20) (at 30) "two" "three" "ada" "two" "one" (head none)
      (tables none) refl refl refl refl (λ s. refl) refl

validate_refresh_token-stays_revoked_example :
    (validate_refresh_token (at 40) "two" "one" (cleanup_expired_tokens 25 (tables (some 20)))).1
    ≢ rotated "ada" "two"
unfolding find_token cleanup_expired_tokens
validate_refresh_token-stays_revoked_example =
    validate_refresh_token-stays_revoked "f" (tables (some 20))
      (cleanup_expired_tokens 25 (tables (some 20))) (at 40) "two" "one" "ada" "two"
      (head (some 20)) ((λ e. refl), tt) (cleanup_step 25 begun) refl refl
