-- ===== src/Downloads/Padding.antt =====
-- The padded size of utils/padding.go: bounds of the padding.
use native.Mathlib.Nat.{lt-div-mul-add, div-mul-le_self}
use arkfile.Base.{ℕ, ◌+◌, ◌-◌, ◌*◌, ◌/◌, ◌^◌, ◌≤◌, ◌<◌, ◌≡◌, refl, max, arith}
use arkfile.Base.Int.{pos, quot64, ◌+ℤ◌, ◌≤ℤ◌}
use arkfile.Downloads.{padding_block, calculate_padded_size, get_padding_size}
use arkfile.Downloads.Counts.{add64_pos, sub64_pos, round_up}
use arkfile.Downloads.Ranges.{mul64_pos}

abbrev block : ℕ → ℕ
block size = max (size / 50) 65536

padding_block_pos : (size : ℕ) → padding_block (pos size) ≡ pos (block size)
unfolding padding_block quot64
padding_block_pos size = ground arith

blocks_bounds :
    (size b : ℕ) → 0 < b → (size ≤ (size + b - 1) / b * b) × ((size + b - 1) / b * b < size + b)
blocks_bounds size b p =
    let below : (size + b - 1) / b * b ≤ size + b - 1 = div-mul-le_self (size + b - 1) b in
    let above : size + b - 1 < (size + b - 1) / b * b + b = lt-div-mul-add p in
    (omega arith, omega arith)

calculate_padded_size_pos :
    (jitter size : ℕ)
    → size < 2 ^ 60
    → jitter < block size
    → calculate_padded_size (pos jitter) (pos size)
      ≡ pos ((size + block size - 1) / block size * block size + jitter)
unfolding calculate_padded_size
calculate_padded_size_pos jitter size h j =
    let b = block size in
    let small : b < 2 ^ 60 = omega arith in
    let fits : (size + b - 1) / b * b < size + b = (blocks_bounds size b (omega arith)).1 in
    rw
      (
        padding_block_pos size,
        round_up size b (omega arith) (omega arith),
        mul64_pos ((size + b - 1) / b) b (omega arith),
        add64_pos ((size + b - 1) / b * b) jitter (omega arith),
      )
      refl

get_padding_size_pos :
    (a b : ℕ) → a ≤ b → b < 2 ^ 63 → pos a +ℤ get_padding_size (pos a) (pos b) ≡ pos b
unfolding get_padding_size ◌+ℤ◌
get_padding_size_pos a b h l = ground (arith, sub64_pos b a)

-- For a size below 2^60 and a jitter of less than a tenth of a block, the padded size is at least the
-- size, and longer by less than a block and its tenth, where a block is the fiftieth part of the size
-- or 64 KiB; the padding for it is the difference.
pub calculate_padded_size-get_padding_size :
    (jitter size : ℕ)
    → size < 2 ^ 60
    → jitter < max (size / 50) 65536 / 10
    → (pos size ≤ℤ calculate_padded_size (pos jitter) (pos size))
      × (calculate_padded_size (pos jitter) (pos size)
          ≤ℤ pos (size + max (size / 50) 65536 + max (size / 50) 65536 / 10 - 2))
      × (pos size +ℤ get_padding_size (pos size) (calculate_padded_size (pos jitter) (pos size))
          ≡ calculate_padded_size (pos jitter) (pos size))
calculate_padded_size-get_padding_size jitter size h j =
    let b = block size in
    let bounds = blocks_bounds size b (omega arith) in
    rw (calculate_padded_size_pos jitter size h (omega arith)) (
      (omega (arith, bounds)),
      (omega (arith, bounds)),
      get_padding_size_pos size ((size + b - 1) / b * b + jitter) (omega (arith, bounds))
          (omega (arith, bounds)),
    )
