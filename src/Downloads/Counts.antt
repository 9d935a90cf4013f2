-- ===== src/Downloads/Counts.antt =====
-- The two chunk counts of an upload: the session's, and the one that the file's row gets.
use native.Mathlib.Nat.{div-eq_of_lt-le}
use arkfile.Base.{
  ℕ, ◌+◌, ◌-◌, ◌*◌, ◌/◌, ◌^◌, ◌≤◌, ◌<◌, ◌≡◌, refl, ap, ◌∙◌, arith, if◌then◌else◌, leb,
}
use arkfile.Base.Int.{pos, add64, sub64, quot64, ◌+ℤ◌, ◌-ℤ◌}
use arkfile.Downloads.{total_chunks, completed_chunk_count}

pub add64_pos : (a b : ℕ) → a + b < 2 ^ 63 → add64 (pos a) (pos b) ≡ pos (a + b)
unfolding add64 ◌+ℤ◌
add64_pos a b h = ground arith

pub sub64_pos : (a b : ℕ) → b ≤ a → a < 2 ^ 63 → sub64 (pos a) (pos b) ≡ pos (a - b)
unfolding sub64 ◌-ℤ◌
sub64_pos a b h k = ground arith

pub round_up :
    (a b : ℕ)
    → 0 < b
    → a + b < 2 ^ 62
    → quot64 (sub64 (add64 (pos a) (pos b)) (pos 1)) (pos b) ≡ pos ((a + b - 1) / b)
unfolding quot64
round_up a b p h =
    rw (add64_pos a b (omega arith), sub64_pos (a + b) 1 (omega arith) (omega arith)) refl

-- A session for `size` bytes of encrypted data has size / (chunk + 28) chunks, rounded up, and 1 for
-- no data.
pub total_chunks_lem :
    (size chunk : ℕ)
    → size + chunk < 2 ^ 61
    → total_chunks (pos size) (pos chunk)
      ≡ pos (if leb size 0 then 1 else (size + (chunk + 28) - 1) / (chunk + 28))
unfolding total_chunks
total_chunks_lem size chunk h =
    rw (add64_pos chunk 28 (omega arith)) (ground (arith, round_up size (chunk + 28)))

completed_chunk_count_lem :
    (size chunk : ℕ)
    → 0 < size
    → 0 < chunk
    → size + chunk < 2 ^ 61
    → completed_chunk_count (pos size) (pos chunk) ≡ pos ((size + chunk - 1) / chunk)
unfolding completed_chunk_count
completed_chunk_count_lem size chunk p q h = ground (arith, round_up size chunk)

pub if_positive : (n m : ℕ) → 0 < n → (if leb n 0 then 1 else m) ≡ m
if_positive n m h = ground arith

quotient : (k n m : ℕ) → k * n ≤ m → m < k * n + n → m / n ≡ k
quotient k n m h l = div-eq_of_lt-le n h (grind arith)

-- A file of `k` whole chunks of plaintext, with 28 * k up to the size of a chunk: its session has
-- `k` chunks, and its row says that there are `k + 1`.
pub total_chunks-differs :
    (k chunk : ℕ)
    → 0 < k
    → 28 * k ≤ chunk
    → k * (chunk + 28) + chunk < 2 ^ 61
    → (total_chunks (pos (k * (chunk + 28))) (pos chunk) ≡ pos k)
      × (completed_chunk_count (pos (k * (chunk + 28))) (pos chunk) ≡ pos (k + 1))
total_chunks-differs k chunk p h b =
    let size = k * (chunk + 28) in
    let positive : 0 < k * (chunk + 28) = grind arith in
    (
      total_chunks_lem size chunk (omega arith)
          ∙ ap pos (
              if_positive size _ positive
              ∙ quotient k (chunk + 28) (size + (chunk + 28) - 1) (omega arith) (omega arith)),
      completed_chunk_count_lem size chunk positive (omega arith) (omega arith)
          ∙ ap pos (quotient (k + 1) chunk (size + chunk - 1) (grind arith) (grind arith)),
    )
