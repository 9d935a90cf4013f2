-- ===== src/Downloads/Examples.antt =====
-- Tests of the chunk arithmetic at concrete inputs.
use arkfile.Base.{ℕ, zero, suc, ◌+◌, ◌-◌, ◌*◌, ◌≡◌, refl, none, some, List, [], ◌∷◌, arith}
use arkfile.Base.Int.{pos, add64, sub64, mul64, quot64, ◌≤ℤ◌, ◌+ℤ◌, ◌-ℤ◌, ◌*ℤ◌, wrap64}
use arkfile.Downloads.{
  total_chunks, completed_chunk_count, calculate_padded_size, get_padding_size, range_at,
  parse_chunk_index, invalid_chunk_range, byte_range,
}
use arkfile.Downloads.Counts.{total_chunks-differs}
use arkfile.Downloads.Ranges.{joined, range_at-total_chunks}
use arkfile.Downloads.Padding.{calculate_padded_size-get_padding_size}

-- 65 bytes in chunks of 2 + 28: two whole chunks and one of 5 bytes.
abbrev bytes : ℕ → List ℕ
bytes zero = []
bytes (suc n) = n ∷ bytes n

abbrev stream : List ℕ
stream = bytes 65

two : total_chunks (pos 65) (pos 2) ≡ pos 3
unfolding total_chunks quot64 add64 sub64 ◌+ℤ◌ ◌-ℤ◌ wrap64
two = refl

last_range : range_at (pos 2) (pos 65) (pos 2) ≡ byte_range (pos 60) (pos 5)
unfolding range_at add64 sub64 mul64 ◌+ℤ◌ ◌-ℤ◌ ◌*ℤ◌ wrap64
last_range = refl

past_the_end : range_at (pos 3) (pos 65) (pos 2) ≡ invalid_chunk_range
unfolding range_at add64 sub64 mul64 ◌+ℤ◌ ◌-ℤ◌ ◌*ℤ◌ wrap64
past_the_end = refl

-- "12" and "-1"
parsed : parse_chunk_index (49 ∷ 50 ∷ []) ≡ some (pos 12)
unfolding parse_chunk_index add64 mul64 ◌+ℤ◌ ◌*ℤ◌ wrap64
parsed = refl

refused : parse_chunk_index (45 ∷ 49 ∷ []) ≡ none
unfolding parse_chunk_index
refused = refl

range_at-total_chunks_example : joined stream (pos 2) 0 3 ≡ stream
range_at-total_chunks_example = range_at-total_chunks stream 2 3 (omega arith) (omega arith) two

total_chunks-differs_example :
    (total_chunks (pos (3 * (16777216 + 28))) (pos 16777216) ≡ pos 3)
    × (completed_chunk_count (pos (3 * (16777216 + 28))) (pos 16777216) ≡ pos (3 + 1))
total_chunks-differs_example =
    total_chunks-differs 3 16777216 (omega arith) (omega arith) (omega arith)

calculate_padded_size-get_padding_size_example :
    (pos 10000000 ≤ℤ calculate_padded_size (pos 77) (pos 10000000))
    × (calculate_padded_size (pos 77) (pos 10000000) ≤ℤ pos (10000000 + 200000 + 20000 - 2))
    × (pos 10000000
          +ℤ get_padding_size (pos 10000000) (calculate_padded_size (pos 77) (pos 10000000))
        ≡ calculate_padded_size (pos 77) (pos 10000000))
calculate_padded_size-get_padding_size_example =
    calculate_padded_size-get_padding_size 77 10000000 (omega arith) (omega arith)
