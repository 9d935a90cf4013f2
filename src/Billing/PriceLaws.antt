-- ===== src/Billing/PriceLaws.antt =====
-- The rate of a price, and what is read after a price has been set.
use arkfile.Base.{
  ℕ, ◌+◌, ◌*◌, ◌/◌, ◌≡◌, ◌≤◌, ◌<◌, refl, sym, ap, ◌∙◌, Bool, true, false, some, List, [], ◌∷◌,
  if◌then◌else◌, arith,
}
use arkfile.Base.Int.{ℤ, pos, quot64, leb_ℤ}
use arkfile.Money.{
  Parsed, ok, err, amount_empty, parse_credits_from_usd, trim_space, trim_left, trim_right,
  is_empty,
}
use arkfile.Billing.Meter.{Rate}
use arkfile.Billing.Rates.{
  PriceError, price_empty, PriceState, PriceResult, priced, not_priced, rate_of_amount,
  compute_rate, cache_result, finalize_rate, resolve_rate, set_customer_price, set_amount,
  store_price, price_to_use, hours_per_month, price_not_positive,
}

priced_inj : {a b : Rate} → priced a ≡ priced b → a ≡ b
priced_inj {a} {b} e = cc

floor_of :
    (p : ℕ) (text : List ℕ) (rate : Rate) (is_empty_text not_positive : Bool)
    → (if is_empty_text
        then not_priced price_empty
        else if not_positive
        then not_priced price_not_positive
        else priced record {
          microcents_per_gib_per_hour = quot64 (quot64 (pos p) (pos 1024)) hours_per_month;
          customer_price_usd_per_tb_per_month = text;
        })
      ≡ priced rate
    → (r : ℕ) × (rate.microcents_per_gib_per_hour ≡ pos r)
      × (r * 737280 ≤ p)
      × (p < r * 737280 + 737280)
unfolding quot64
floor_of p text rate true b e = cc
floor_of p text rate false true e = cc
floor_of p text rate false false e = (
  p / 1024 / 720,
  ap (λ q. q.microcents_per_gib_per_hour) (sym (priced_inj e)),
  omega arith,
  omega arith,
)

-- A positive price of p microcents per TiB and month gives the rate that is p / (1024 * 720) rounded
-- down.
pub compute_rate-floor :
    (price : List ℕ) (p : ℕ) (rate : Rate)
    → parse_credits_from_usd (trim_space price) ≡ ok (pos p)
    → compute_rate price ≡ priced rate
    → (r : ℕ) × (rate.microcents_per_gib_per_hour ≡ pos r)
      × (r * 737280 ≤ p)
      × (p < r * 737280 + 737280)
unfolding compute_rate
compute_rate-floor price p rate parsed same =
    let text = trim_space price in
    floor_of p text rate (is_empty text) (leb_ℤ (pos p) (pos 0)) (
      ap (λ a. if is_empty text then not_priced price_empty else rate_of_amount text a) (sym parsed)
      ∙ same)

parse_nothing : parse_credits_from_usd [] ≡ err amount_empty
unfolding parse_credits_from_usd trim_space trim_left trim_right
parse_nothing = refl

cached : (r : PriceResult Rate) (st : PriceState) → (cache_result st r).1 ≡ r
cached (priced rate) st = refl
cached (not_priced e) st = refl

kept : (r : PriceResult Rate) (st : PriceState) → (cache_result st r).0.setting ≡ st.setting
kept (priced rate) st = refl
kept (not_priced e) st = refl

finalize_rate-result :
    (price : List ℕ) (st : PriceState) → (finalize_rate price st).1 ≡ compute_rate price
unfolding finalize_rate
finalize_rate-result price st = cached (compute_rate price) st

finalize_rate-setting :
    (price : List ℕ) (st : PriceState) → (finalize_rate price st).0.setting ≡ st.setting
unfolding finalize_rate
finalize_rate-setting price st = kept (compute_rate price) st

resolved :
    (c : ℕ) (s configured : List ℕ) (not_positive write_fails : Bool) (st : PriceState)
    (rate : Rate)
    → (if not_positive
        then (st, not_priced price_not_positive)
        else store_price write_fails (c ∷ s) st).1
      ≡ priced rate
    → (finalize_rate
        (price_to_use
          (if not_positive
            then (st, not_priced price_not_positive)
            else store_price write_fails (c ∷ s) st).0.setting
          configured)
        (if not_positive
          then (st, not_priced price_not_positive)
          else store_price write_fails (c ∷ s) st).0).1
      ≡ priced rate
resolved c s configured true write_fails st rate e = cc
resolved c s configured false true st rate e = cc
resolved c s configured false false st rate e =
    let stored = record st { setting = some (c ∷ s) } in
    finalize_rate-result _ (finalize_rate (c ∷ s) stored).0
    ∙ ap (λ o. compute_rate (price_to_use o configured)) (finalize_rate-setting (c ∷ s) stored)
    ∙ sym (finalize_rate-result (c ∷ s) stored)
    ∙ e

resolved_amount :
    (c : ℕ) (s configured : List ℕ) (write_fails : Bool) (st : PriceState) (rate : Rate)
    (amount : Parsed ℤ)
    → (set_amount write_fails (c ∷ s) st amount).1 ≡ priced rate
    → (finalize_rate
        (price_to_use (set_amount write_fails (c ∷ s) st amount).0.setting configured)
        (set_amount write_fails (c ∷ s) st amount).0).1
      ≡ priced rate
resolved_amount c s configured write_fails st rate (err e) same = cc
resolved_amount c s configured write_fails st rate (ok amount) same =
    resolved c s configured (leb_ℤ amount (pos 0)) write_fails st rate same

no_price : {e : PriceError} {rate : Rate} → not_priced e ≡ priced rate → ⊥
no_price {e} {rate} same = cc

-- A price that is set without an error is the price that is resolved from then on, at the same rate,
-- whatever price is configured, while its row can be read.
pub set_customer_price-resolve_rate :
    (price configured : List ℕ) (write_fails : Bool) (st : PriceState) (rate : Rate)
    → (set_customer_price write_fails price st).1 ≡ priced rate
    → (resolve_rate false configured (set_customer_price write_fails price st).0).1 ≡ priced rate
unfolding set_customer_price resolve_rate
set_customer_price-resolve_rate [] configured write_fails st rate same =
    elim (no_price (sym (ap (λ a. (set_amount write_fails [] st a).1) parse_nothing) ∙ same)) [ ]
set_customer_price-resolve_rate (c ∷ s) configured write_fails st rate same =
    resolved_amount c s configured write_fails st rate (parse_credits_from_usd (c ∷ s)) same
