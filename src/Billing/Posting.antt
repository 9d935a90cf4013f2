-- ===== src/Billing/Posting.antt =====
-- Gifts and payments post to the books as a whole or not at all, on every way that a statement can
-- fail.
use arkfile.Base.{◌≤◌, ◌^◌, ◌≡◌, refl, List, ◌∷◌, String, arith}
use arkfile.Base.Int.{ℤ, abs, ◌+ℤ◌, add64, add64_exact}
use arkfile.Base.Table.{insert, lookup-insert_self}
use arkfile.Billing.State.{
  CreditTransaction, Db, Env, IsExact, Tx, ◌>>◌, pure, balance_of, insert_transaction,
  update_balance,
}
use arkfile.Billing.Balance.{read_or_create_balance, write_balance, append_row}
use arkfile.Billing.Triples.{Ensures, Atomic, Ensures-exec, Ensures-bind, run_tx-Atomic}
use arkfile.Billing.Ledger.{
  Posts, SameBooks, ReadsBalance, read_or_create_balance_lem, write_append-Posts,
}
use arkfile.Billing.Gift.{gift_row, gift_body, gift_credits}

-- What a posted row says of the tables that it leaves.
abbrev pub Posted : String → ℤ → Db → CreditTransaction → Db → Type 0
Posted user amount db row db' =
    Posts user amount db db'
    × (row.username ≡ user)
    × (row.amount_usd_microcents ≡ amount)
    × (row.balance_after_usd_microcents ≡ balance_of db' user)
    × (db'.credit_transactions ≡ row ∷ db.credit_transactions)
    × (db'.accumulators ≡ db.accumulators)

balance_of-write :
    (db : Db) (user : String) (b : ℤ) (rows : List CreditTransaction)
    → b
      ≡ balance_of
          (record db { user_credits = insert user b db.user_credits; credit_transactions = rows })
          user
unfolding balance_of
balance_of-write db user b rows = rw (lookup-insert_self user b db.user_credits)

-- The tail of every posting: write the balance, append the row.
pub write_append-Posted :
    (user : String) (amount : ℤ) (row : CreditTransaction) (db db₁ : Db)
    → SameBooks db db₁
    → row.username ≡ user
    → row.amount_usd_microcents ≡ amount
    → row.balance_after_usd_microcents ≡ balance_of db user +ℤ amount
    → Posted user amount db row (record db₁ {
      user_credits = insert user row.balance_after_usd_microcents db₁.user_credits;
      credit_transactions = row ∷ db₁.credit_transactions;
    })
write_append-Posted user amount row db db₁ s u a b = (
  write_append-Posts user amount row.balance_after_usd_microcents row db₁ db s u a b,
  u,
  a,
  balance_of-write db₁ user row.balance_after_usd_microcents (row ∷ db₁.credit_transactions),
  rw s.rows,
  s.accumulators,
)

-- Two writes in a row, and what follows them.
pub Ensures-write_append :
    {A : Type 0} (Q : A → Db → Type 0) (env : Env) (user : String) (balance : ℤ)
    (row : CreditTransaction) (rest : Tx A) (db : Db)
    → Ensures Q (
        rest (record db {
          user_credits = insert user balance db.user_credits;
          credit_transactions = row ∷ db.credit_transactions;
        }))
    → Ensures Q ((write_balance env user balance >> (append_row env row >> rest)) db)
unfolding write_balance append_row
Ensures-write_append Q env user balance row rest db h =
    Ensures-exec Q env update_balance user
      (λ d. record d { user_credits = insert user balance d.user_credits })
      (λ u. append_row env row >> rest) db
      (Ensures-exec Q env insert_transaction row.username
        (λ d. record d { credit_transactions = row ∷ d.credit_transactions }) (λ u. rest)
        (record db { user_credits = insert user balance db.user_credits }) h)

-- The new balance is the exact sum.
pub add64_balance :
    (user : String) (amount current : ℤ) (db : Db)
    → abs (balance_of db user) ≤ 2 ^ 53
    → abs amount ≤ 2 ^ 53
    → current ≡ balance_of db user
    → add64 current amount ≡ balance_of db user +ℤ amount
add64_balance user amount current db h k e =
    rw e (add64_exact (balance_of db user) amount (omega arith))

module _ (env : Env) (user : String) (amount : ℤ) (reason admin : String) where
  gift_tail : ℤ → Tx CreditTransaction
  gift_tail current =
      write_balance env user (add64 current amount)
      >> (append_row env (gift_row user amount (add64 current amount) reason admin)
          >> pure (gift_row user amount (add64 current amount) reason admin))

  gift_body-Posted :
      (db : Db)
      → IsExact env
      → abs (balance_of db user) ≤ 2 ^ 53
      → abs amount ≤ 2 ^ 53
      → Ensures (Posted user amount db) (gift_body env user amount reason admin db)
  unfolding gift_body gift_row gift_tail
  gift_body-Posted db x h k =
      Ensures-bind (Posted user amount db) (ReadsBalance user db) (read_or_create_balance env user)
        gift_tail db (read_or_create_balance_lem env user db x h)
        (λ current db₁ r.
          Ensures-write_append (Posted user amount db) env user (add64 current amount)
            (gift_row user amount (add64 current amount) reason admin)
            (pure (gift_row user amount (add64 current amount) reason admin)) db₁
            (write_append-Posted user amount
              (gift_row user amount (add64 current amount) reason admin) db db₁ r.1 refl refl
              (add64_balance user amount current db h k r.0)))

  -- A gift that succeeds adds its amount to the user's balance and one row of that amount to the
  -- ledger, and touches no other user; a gift that fails, by a refused argument or at any
  -- statement, changes nothing. For balances and amounts up to 2^53 microcents.
  pub gift_credits-Atomic :
      (db : Db)
      → IsExact env
      → abs (balance_of db user) ≤ 2 ^ 53
      → abs amount ≤ 2 ^ 53
      → Atomic db (Posted user amount db) (gift_credits env user amount reason admin db)
  unfolding gift_credits
  gift_credits-Atomic db x h k = ground (
    arith,
    run_tx-Atomic (Posted user amount db) env user (gift_body env user amount reason admin) db
        (gift_body-Posted db x h k),
  )
