-- ===== src/Billing/Gift.antt =====
-- billing/gift.go: `GiftCredits`.
use arkfile.Base.{not, none, some, String, str_eq, if◌then◌else◌}
use arkfile.Base.Int.{ℤ, pos, add64, ltb_ℤ}
use arkfile.Billing.State.{
  CreditTransaction, gift, Db, Env, Result, err, empty_username, not_positive, empty_reason,
  empty_admin, Tx, ◌>>=◌, ◌>>◌, pure, run_tx,
}
use arkfile.Billing.Balance.{read_or_create_balance, write_balance, append_row}

unfoldable pub gift_row : String → ℤ → ℤ → String → String → CreditTransaction
gift_row username amount balance reason admin = record {
  transaction_id = none;
  username = username;
  amount_usd_microcents = amount;
  balance_after_usd_microcents = balance;
  transaction_type = gift;
  reason = reason;
  admin_username = some admin;
  metadata = none;
}

-- The body of the transaction.
unfoldable pub gift_body : Env → String → ℤ → String → String → Tx CreditTransaction
unfolding read_or_create_balance write_balance append_row
gift_body env username amount reason admin = do
  current ← read_or_create_balance env username
  write_balance env username (add64 current amount)
  append_row env (gift_row username amount (add64 current amount) reason admin)
  pure (gift_row username amount (add64 current amount) reason admin)

unfoldable pub gift_credits :
    Env → String → ℤ → String → String → Db → Db × Result CreditTransaction
unfolding gift_body
gift_credits env username amount reason admin db =
    if str_eq username ""
    then (db, err empty_username)
    else if not (ltb_ℤ (pos 0) amount)
    then (db, err not_positive)
    else if str_eq reason ""
    then (db, err empty_reason)
    else if str_eq admin ""
    then (db, err empty_admin)
    else run_tx env username (gift_body env username amount reason admin) db
