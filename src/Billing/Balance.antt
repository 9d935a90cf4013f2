-- ===== src/Billing/Balance.antt =====
-- The transaction steps that billing/gift.go, billing/payments.go and billing/sweep.go each write
-- out: read or create the balance row, write the new balance, append a ledger row.
use arkfile.Base.{Option, none, some, ◌∷◌, String}
use arkfile.Base.Int.{ℤ, pos}
use arkfile.Base.Table.{lookup, insert}
use arkfile.Billing.State.{
  CreditTransaction, Env, Tx, ◌>>=◌, ◌>>◌, pure, exec, query, select_balance, insert_credits,
  update_balance, insert_transaction,
}

-- `sql.ErrNoRows` inserts a row with balance 0; any other error has returned already.
unfoldable pub create_if_missing : Env → String → Option ℤ → Tx ℤ
create_if_missing env user none = do
  exec env insert_credits user (λ d. record d { user_credits = insert user (pos 0) d.user_credits })
  pure (pos 0)
create_if_missing env user (some balance) = pure (env.scan balance)

unfoldable pub read_or_create_balance : Env → String → Tx ℤ
unfolding create_if_missing
read_or_create_balance env user = do
  row ← query env select_balance user (λ d. lookup user d.user_credits)
  create_if_missing env user row

unfoldable pub write_balance : Env → String → ℤ → Tx (Unit {0})
write_balance env user balance =
    exec env update_balance user
      (λ d. record d { user_credits = insert user balance d.user_credits })

unfoldable pub append_row : Env → CreditTransaction → Tx (Unit {0})
append_row env row =
    exec env insert_transaction row.username
      (λ d. record d { credit_transactions = row ∷ d.credit_transactions })
