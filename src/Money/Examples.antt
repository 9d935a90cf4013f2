-- ===== src/Money/Examples.antt =====
-- The theorems on amounts of money at concrete amounts.
use arkfile.Base.{◌≡◌, ◌≢◌, ◌++◌, ◌∷◌, ◌*◌, arith}
use arkfile.Base.Int.{pos, negsuc, wrap64}
use arkfile.Money.{ok, decimal, four_digits, parse_credits_from_usd, format_credits_usd}
use arkfile.Money.RoundTrip.{truncated, parse-format, parse-overflow}

parse-format_example :
    parse_credits_from_usd (format_credits_usd (negsuc 12345677)) ≡ ok (truncated (negsuc 12345677))
parse-format_example = parse-format (negsuc 12345677) (omega arith)

-- A hundred billion dollars.
parse-overflow_example :
    (parse_credits_from_usd (36 ∷ (decimal 100000000000 ++ 46 ∷ four_digits 0))
      ≡ ok (wrap64 (pos (100000000000 * 100000000))))
    × (wrap64 (pos (100000000000 * 100000000)) ≢ pos (100000000000 * 100000000))
parse-overflow_example = parse-overflow 100000000000 (omega arith) (omega arith)
