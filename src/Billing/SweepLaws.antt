-- ===== src/Billing/SweepLaws.antt =====
-- The settlement of one user: as a whole or not at all.
use arkfile.Base.{
  ℕ, ◌≤◌, ◌^◌, ◌≡◌, refl, Option, none, some, ◌∷◌, String, str_eq, arith, eq_iff, if◌then◌else◌,
}
use arkfile.Base.Int.{ℤ, pos, abs, ◌+ℤ◌, ◌-ℤ◌, sub64, neg64, sub64_exact, neg64_exact, int_laws}
use arkfile.Base.Table.{Table, insert, lookup, lookup-insert}
use arkfile.Billing.State.{
  SettlementMetadata, CreditTransaction, usage, Accumulator, Db, Env, IsExact, Tx, ◌>>◌, pure,
  balance_of, reset_accumulator,
}
use arkfile.Billing.Balance.{read_or_create_balance, write_balance, append_row}
use arkfile.Billing.Triples.{Ensures, Atomic, Ensures-exec, Ensures-bind, run_tx-Atomic}
use arkfile.Billing.Ledger.{Posts, ReadsBalance, read_or_create_balance_lem}
use arkfile.Billing.Posting.{Posted, write_append-Posted, Ensures-write_append}
use arkfile.Billing.Meter.{Rate}
use arkfile.Billing.MeterLaws.{unbilled_of, unbilled_or_zero}
use arkfile.Billing.Sweep.{
  usage_row, reset_row, put, reset_unbilled, settle_user_body, settle_one_user,
}

-- The amount in a row's metadata.
abbrev pub drained_of : Option SettlementMetadata → Option ℤ
drained_of none = none
drained_of (some m) = some m.drained_microcents

-- A usage row of a drained amount: no provider transaction, the negative of the amount, and the
-- amount in its metadata.
pub record IsUsageRow (user : String) (drained balance : ℤ) (row : CreditTransaction) : Type 0 where
  pub owner : row.username ≡ user
  pub amount : row.amount_usd_microcents ≡ pos 0 -ℤ drained
  pub balance_after : row.balance_after_usd_microcents ≡ balance
  pub is_usage : row.transaction_type ≡ usage
  pub no_id : row.transaction_id ≡ none
  pub in_metadata : drained_of row.metadata ≡ some drained

-- What a settled user's transaction leaves: the amount has moved from the accumulator to the
-- balance and the ledger, which has one usage row more, and no other user is touched.
pub record Settles (user : String) (drained : ℤ) (before : Db) (balance : ℤ) (after : Db)
    : Type 0 where
  pub posts : Posts user (pos 0 -ℤ drained) before after
  pub row : CreditTransaction
  pub row_is : IsUsageRow user drained balance row
  pub rows : after.credit_transactions ≡ row ∷ before.credit_transactions
  pub returned : balance ≡ balance_of after user
  pub unbilled :
      (v : String) → unbilled_of after v ≡ (if str_eq user v then pos 0 else unbilled_of before v)

reset_entry :
    (user v billed : String) (m : Table Accumulator) (o : Option Accumulator)
    → lookup user m ≡ o
    → unbilled_or_zero (lookup v (put user (reset_row billed o) m))
      ≡ (if str_eq user v then pos 0 else unbilled_or_zero (lookup v m))
reset_entry user v billed m none e = ground (arith, eq_iff user v)
reset_entry user v billed m (some a) e = ground (
  arith,
  lookup-insert user v (record a { unbilled_microcents = pos 0; last_billed_at = some billed }) m,
)

reset_unbilled_lem :
    (user v billed : String) (m : Table Accumulator)
    → unbilled_or_zero (lookup v (put user (reset_row billed (lookup user m)) m))
      ≡ (if str_eq user v then pos 0 else unbilled_or_zero (lookup v m))
reset_unbilled_lem user v billed m = reset_entry user v billed m (lookup user m) refl

drained_balance :
    (user : String) (drained current : ℤ) (db : Db)
    → abs (balance_of db user) ≤ 2 ^ 53
    → abs drained ≤ 2 ^ 53
    → current ≡ balance_of db user
    → sub64 current drained ≡ balance_of db user +ℤ (pos 0 -ℤ drained)
drained_balance user drained current db h k e =
    rw (e, sub64_exact (balance_of db user) drained (omega arith)) (omega int_laws)

drained_amount : (drained : ℤ) → abs drained ≤ 2 ^ 53 → neg64 drained ≡ pos 0 -ℤ drained
drained_amount drained h = neg64_exact drained (omega arith)

module _ (env : Env) (rate : Rate) (now : ℕ) (user : String) (drained : ℤ)
    (billed : Option String) where
  abbrev row_of : ℤ → CreditTransaction
  row_of current = usage_row env rate now user drained billed (sub64 current drained)

  settle_tail : ℤ → Tx ℤ
  settle_tail current =
      write_balance env user (sub64 current drained)
      >> (append_row env (row_of current)
          >> (reset_unbilled env now user >> pure (sub64 current drained)))

  reset-Settles :
      (db db₁ : Db) (row : CreditTransaction)
      → Posted user (pos 0 -ℤ drained) db row db₁
      → IsUsageRow user drained row.balance_after_usd_microcents row
      → Ensures
          (Settles user drained db)
          ((reset_unbilled env now user >> pure row.balance_after_usd_microcents) db₁)
  unfolding reset_unbilled unbilled_of balance_of
  reset-Settles db db₁ row p is =
      Ensures-exec (Settles user drained db) env reset_accumulator user
        (λ d. record d {
          accumulators =
              put user (reset_row (env.stored_time now) (lookup user d.accumulators))
                d.accumulators;
        })
        (λ u. pure row.balance_after_usd_microcents) db₁
        (record {
          posts = record { balances = p.0.balances; totals = p.0.totals };
          row = row;
          row_is = is;
          rows = p.4;
          returned = p.3;
          unbilled =
              λ v. rw (← p.5) (reset_unbilled_lem user v (env.stored_time now) db₁.accumulators);
        })

  usage_row-IsUsageRow :
      (balance : ℤ)
      → abs drained ≤ 2 ^ 53
      → IsUsageRow user drained balance (usage_row env rate now user drained billed balance)
  unfolding usage_row
  usage_row-IsUsageRow balance k = record {
    owner = refl;
    amount = drained_amount drained k;
    balance_after = refl;
    is_usage = refl;
    no_id = refl;
    in_metadata = refl;
  }

  settle_user_body-Settles :
      (db : Db)
      → IsExact env
      → abs (balance_of db user) ≤ 2 ^ 53
      → abs drained ≤ 2 ^ 53
      → Ensures (Settles user drained db) (settle_user_body env rate now user drained billed db)
  unfolding settle_user_body settle_tail usage_row
  settle_user_body-Settles db x h k =
      Ensures-bind (Settles user drained db) (ReadsBalance user db)
        (read_or_create_balance env user) settle_tail db
        (read_or_create_balance_lem env user db x h)
        (λ current db₁ r.
          Ensures-write_append (Settles user drained db) env user (sub64 current drained)
            (row_of current) (reset_unbilled env now user >> pure (sub64 current drained)) db₁
            (reset-Settles db
              (record db₁ {
                user_credits = insert user (sub64 current drained) db₁.user_credits;
                credit_transactions = row_of current ∷ db₁.credit_transactions;
              })
              (row_of current)
              (write_append-Posted user (pos 0 -ℤ drained) (row_of current) db db₁ r.1 refl
                (drained_amount drained k) (drained_balance user drained current db h k r.0))
              (usage_row-IsUsageRow (sub64 current drained) k)))

  -- A settlement that succeeds takes the drained amount from the user's balance, puts one row of
  -- type usage before the ledger's rows, with the user, the negative of the amount, the new balance
  -- and the amount in its metadata, empties the user's accumulator, and touches no other user; one
  -- that fails at any statement changes nothing. For balances and amounts up to 2^53 microcents.
  pub settle_one_user-Atomic :
      (db : Db)
      → IsExact env
      → abs (balance_of db user) ≤ 2 ^ 53
      → abs drained ≤ 2 ^ 53
      → Atomic db (Settles user drained db) (settle_one_user env rate now user drained billed db)
  unfolding settle_one_user
  settle_one_user-Atomic db x h k =
      run_tx-Atomic (Settles user drained db) env user
        (settle_user_body env rate now user drained billed) db (settle_user_body-Settles db x h k)
