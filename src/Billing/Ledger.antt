-- ===== src/Billing/Ledger.antt =====
-- The books of billing/: every balance is the sum of the user's ledger rows.
use arkfile.Base.{
  ◌≤◌, ◌^◌, ◌≡◌, refl, Option, none, some, List, [], ◌∷◌, String, str_eq, arith, eq_iff,
  if◌then◌else◌,
}
use arkfile.Base.Int.{ℤ, pos, abs, ◌+ℤ◌}
use arkfile.Base.Table.{Table, lookup, insert, lookup-insert}
use arkfile.Billing.State.{
  CreditTransaction, Db, Env, IsExact, balance_or_zero, pure, insert_credits, select_balance,
  balance_of,
}
use arkfile.Billing.Triples.{Ensures, Ensures-exec, Ensures-query}
use arkfile.Billing.Balance.{read_or_create_balance, create_if_missing}

-- The sum of a user's ledger rows.
unfoldable pub total : String → List CreditTransaction → ℤ
total user [] = pos 0
total user (row ∷ rows) =
    if str_eq row.username user
    then total user rows +ℤ row.amount_usd_microcents
    else total user rows

abbrev pub IsBalanced : Db → Type 0
IsBalanced db = (user : String) → balance_of db user ≡ total user db.credit_transactions

-- The step from one state of the books to the next adds the amount to one user's balance and to
-- the same user's rows, and touches no other user.
pub record Posts (user : String) (amount : ℤ) (before after : Db) : Type 0 where
  pub balances :
      (v : String)
      → balance_of after v
        ≡ (if str_eq user v then balance_of before v +ℤ amount else balance_of before v)
  pub totals :
      (v : String)
      → total v after.credit_transactions ≡ (
          if str_eq user v
          then total v before.credit_transactions +ℤ amount
          else total v before.credit_transactions)

pub Posts-IsBalanced :
    (user : String) (amount : ℤ) (before after : Db)
    → Posts user amount before after
    → IsBalanced before
    → IsBalanced after
Posts-IsBalanced user amount before after p b v = ground (arith, p.balances v, p.totals v, b v)

-- A transaction's view in which no balance, no ledger row and no invoice has changed yet.
pub record SameBooks (before after : Db) : Type 0 where
  pub balances : (v : String) → balance_of after v ≡ balance_of before v
  pub rows : after.credit_transactions ≡ before.credit_transactions
  pub invoices : after.invoices ≡ before.invoices
  pub accumulators : after.accumulators ≡ before.accumulators
  pub users : after.users ≡ before.users

-- What a successful read of the balance gives.
abbrev pub ReadsBalance : String → Db → ℤ → Db → Type 0
ReadsBalance user db b db' = (b ≡ balance_of db user) × SameBooks db db'

-- A new row with balance 0 changes no balance.
insert_zero :
    (user v : String) (m : Table ℤ)
    → lookup user m ≡ none
    → balance_or_zero (lookup v (insert user (pos 0) m)) ≡ balance_or_zero (lookup v m)
insert_zero user v m e = ground (arith, lookup-insert user v (pos 0) m, eq_iff user v)

create_if_missing_lem :
    (env : Env) (user : String) (db : Db) (o : Option ℤ)
    → IsExact env
    → lookup user db.user_credits ≡ o
    → abs (balance_of db user) ≤ 2 ^ 53
    → Ensures (ReadsBalance user db) (create_if_missing env user o db)
unfolding create_if_missing balance_of
create_if_missing_lem env user db none x e h =
    Ensures-exec (ReadsBalance user db) env insert_credits user
      (λ d. record d { user_credits = insert user (pos 0) d.user_credits }) (λ u. pure (pos 0)) db
      (
        rw e refl,
        record {
          balances = λ v. insert_zero user v db.user_credits e;
          rows = refl;
          invoices = refl;
          accumulators = refl;
          users = refl;
        },
      )
create_if_missing_lem env user db (some b) x e h = (
  rw e (x b (rw e at h)),
  record { balances = λ v. refl; rows = refl; invoices = refl; accumulators = refl; users = refl },
)

pub read_or_create_balance_lem :
    (env : Env) (user : String) (db : Db)
    → IsExact env
    → abs (balance_of db user) ≤ 2 ^ 53
    → Ensures (ReadsBalance user db) (read_or_create_balance env user db)
unfolding read_or_create_balance
read_or_create_balance_lem env user db x h =
    Ensures-query (ReadsBalance user db) env select_balance user (λ d. lookup user d.user_credits)
      (create_if_missing env user) db
      (create_if_missing_lem env user db (lookup user db.user_credits) x refl h)

-- Writing a balance and appending the row of the same change posts it.
pub write_append-Posts :
    (user : String) (amount balance : ℤ) (row : CreditTransaction) (db before : Db)
    → SameBooks before db
    → row.username ≡ user
    → row.amount_usd_microcents ≡ amount
    → balance ≡ balance_of before user +ℤ amount
    → Posts user amount before (record db {
      user_credits = insert user balance db.user_credits;
      credit_transactions = row ∷ db.credit_transactions;
    })
unfolding balance_of total
write_append-Posts user amount balance row db before s u a b = record {
  balances = λ v.
      ground (arith, lookup-insert user v balance db.user_credits, s.balances v, eq_iff user v);
  totals = λ v. ground (arith, s.rows);
}
