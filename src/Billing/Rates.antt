-- ===== src/Billing/Rates.antt =====
-- billing/rates.go: the customer's price per TiB and month, and the rate that it gives per GiB and
-- hour. The state is the row of `billing_settings` and the rate in memory; prices are lists of code
-- points. The time of the resolution is left out.
use arkfile.Base.{ℕ, ◌*◌, Bool, true, Option, none, some, List, [], ◌∷◌, if◌then◌else◌}
use arkfile.Base.Int.{ℤ, pos, quot64, leb_ℤ}
use arkfile.Billing.Meter.{Rate}
use arkfile.Money.{Parsed, ok, err, parse_credits_from_usd, trim_space, is_empty}

pub record PriceState : Type 0 where
  pub setting : Option (List ℕ)
  pub cached_rate : Option Rate

pub data PriceError : Type 0 where
  price_empty price_invalid price_not_positive price_db_error : PriceError

pub data PriceResult {ℓ} (A : Type ℓ) : Type ℓ where
  priced : A → PriceResult A
  not_priced : PriceError → PriceResult A

-- "10.00"
abbrev pub hardcoded_safety_price : List ℕ
hardcoded_safety_price = 49 ∷ 48 ∷ 46 ∷ 48 ∷ 48 ∷ []

abbrev pub hours_per_month : ℤ
hours_per_month = pos (24 * 30)

abbrev pub rate_of_amount : List ℕ → Parsed ℤ → PriceResult Rate
rate_of_amount text (err e) = not_priced price_invalid
rate_of_amount text (ok amount) =
    if leb_ℤ amount (pos 0)
    then not_priced price_not_positive
    else priced record {
      microcents_per_gib_per_hour = quot64 (quot64 amount (pos 1024)) hours_per_month;
      customer_price_usd_per_tb_per_month = text;
    }

-- `computeRate`
unfoldable pub compute_rate : List ℕ → PriceResult Rate
compute_rate price =
    let text = trim_space price in
    if is_empty text
    then not_priced price_empty
    else rate_of_amount text (parse_credits_from_usd text)

abbrev pub cache_result : PriceState → PriceResult Rate → PriceState × PriceResult Rate
cache_result st (not_priced e) = (st, not_priced e)
cache_result st (priced rate) = (record st { cached_rate = some rate }, priced rate)

-- `finalizeRate`
unfoldable pub finalize_rate : List ℕ → PriceState → PriceState × PriceResult Rate
unfolding compute_rate
finalize_rate price st = cache_result st (compute_rate price)

-- The price of the configuration, or the safety price.
abbrev pub configured_or_safety : List ℕ → List ℕ
configured_or_safety configured = if is_empty configured then hardcoded_safety_price else configured

abbrev pub price_to_use : Option (List ℕ) → List ℕ → List ℕ
price_to_use none configured = configured_or_safety configured
price_to_use (some price) configured =
    if is_empty price then configured_or_safety configured else price

-- `readCustomerPriceFromDB`, where the statement may fail.
abbrev pub read_customer_price : Bool → PriceState → Option (List ℕ)
read_customer_price fails st = if fails then none else st.setting

-- `ResolveRate`
unfoldable pub resolve_rate : Bool → List ℕ → PriceState → PriceState × PriceResult Rate
unfolding finalize_rate
resolve_rate read_fails configured st =
    finalize_rate (price_to_use (read_customer_price read_fails st) configured) st

abbrev pub store_price : Bool → List ℕ → PriceState → PriceState × PriceResult Rate
store_price write_fails price st =
    let stored = record st { setting = some price } in
    if write_fails then (st, not_priced price_db_error) else finalize_rate price stored

abbrev pub set_amount : Bool → List ℕ → PriceState → Parsed ℤ → PriceState × PriceResult Rate
set_amount write_fails price st (err e) = (st, not_priced price_invalid)
set_amount write_fails price st (ok amount) =
    if leb_ℤ amount (pos 0)
    then (st, not_priced price_not_positive)
    else store_price write_fails price st

-- `SetCustomerPrice`
unfoldable pub set_customer_price : Bool → List ℕ → PriceState → PriceState × PriceResult Rate
unfolding finalize_rate
set_customer_price write_fails price st =
    set_amount write_fails price st (parse_credits_from_usd price)

abbrev pub seed_checked : Bool → List ℕ → PriceState → Parsed ℤ → PriceState × PriceResult (List ℕ)
seed_checked write_fails price st (err e) = (st, not_priced price_invalid)
seed_checked write_fails price st (ok amount) =
    if write_fails
    then (st, not_priced price_db_error)
    else (record st { setting = some price }, priced price)

abbrev pub seed_price : Bool → List ℕ → PriceState → PriceState × PriceResult (List ℕ)
seed_price write_fails price st = seed_checked write_fails price st (parse_credits_from_usd price)

-- The insertion of the seed, which the key's row refuses where there is one, though it be empty.
abbrev pub seed_found :
    Bool → List ℕ → PriceState → Option (List ℕ) → PriceState × PriceResult (List ℕ)
seed_found write_fails configured st none =
    seed_price write_fails (configured_or_safety configured) st
seed_found write_fails configured st (some price) =
    if is_empty price
    then seed_price true (configured_or_safety configured) st
    else (st, priced price)

-- `SeedCustomerPriceIfMissing`
unfoldable pub seed_customer_price_if_missing :
    Bool → Bool → List ℕ → PriceState → PriceState × PriceResult (List ℕ)
seed_customer_price_if_missing read_fails write_fails configured st =
    if read_fails
    then (st, not_priced price_db_error)
    else seed_found write_fails configured st st.setting
