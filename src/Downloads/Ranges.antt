-- ===== src/Downloads/Ranges.antt =====
-- The byte ranges of handlers/downloads.go cut the encrypted stream into its chunks.
use native.Mathlib.Nat.{lt-div-mul-add, div-mul-le_self}
use arkfile.Base.{
  ℕ, zero, suc, ◌+◌, ◌-◌, ◌*◌, ◌/◌, ◌^◌, ◌≤◌, ◌<◌, ◌≡◌, refl, ap, sym, ◌∙◌, min, List, [], ◌∷◌,
  ◌++◌, arith, length, take, drop, take-drop, length-drop, drop-add, drop_zero, take-min,
}
use arkfile.Base.Int.{ℤ, pos, pos_part, add64, sub64, mul64, ◌*ℤ◌, wrap64}
use arkfile.Downloads.{total_chunks, ChunkRange, byte_range, range_at, range_of, bounded_end}
use arkfile.Downloads.Counts.{total_chunks_lem, if_positive, add64_pos, sub64_pos}

pos_inj : {a b : ℕ} → pos a ≡ pos b → a ≡ b
pos_inj h = ap pos_part h

pub mul64_pos : (a b : ℕ) → a * b < 2 ^ 63 → mul64 (pos a) (pos b) ≡ pos (a * b)
unfolding mul64 ◌*ℤ◌ wrap64
mul64_pos a b h = ground arith

+-comm : (a b : ℕ) → a + b ≡ b + a
+-comm a b = omega arith

last_length :
    (start enc size : ℕ)
    → start < size
    → 0 < enc
    → min (size - 1) (start + enc - 1) - start + 1 ≡ min enc (size - start)
last_length start enc size h p = omega arith

bounded_end_pos :
    (size e : ℕ)
    → 0 < size
    → size < 2 ^ 62
    → bounded_end (pos size) (pos e) ≡ pos (min (size - 1) e)
bounded_end_pos size e h b = ground (arith, sub64_pos size 1)

range_of_pos : (start n : ℕ) → 0 < n → range_of (pos start) (pos n) ≡ byte_range (pos start) (pos n)
range_of_pos start n h = ground arith

range_from :
    (start enc size : ℕ)
    → start < size
    → 0 < enc
    → size + enc < 2 ^ 61 + 28
    → range_of (pos start) (
        add64
          (sub64 (bounded_end (pos size) (sub64 (add64 (pos start) (pos enc)) (pos 1))) (pos start))
          (pos 1))
      ≡ byte_range (pos start) (pos (min enc (size - start)))
range_from start enc size h p b =
    rw
      (
        add64_pos start enc (omega arith),
        sub64_pos (start + enc) 1 (omega arith) (omega arith),
        bounded_end_pos size (start + enc - 1) (omega arith) (omega arith),
        sub64_pos (min (size - 1) (start + enc - 1)) start (omega arith) (omega arith),
        add64_pos (min (size - 1) (start + enc - 1) - start) 1 (omega arith),
        last_length start enc size h p,
        range_of_pos start (min enc (size - start)) (omega arith),
      )
      refl

-- A chunk that begins inside the stream has its whole size, or what is left of the stream.
range_at_lem :
    (index size chunk : ℕ)
    → index * (chunk + 28) < size
    → size + chunk < 2 ^ 61
    → range_at (pos index) (pos size) (pos chunk)
      ≡ byte_range
          (pos (index * (chunk + 28)))
          (pos (min (chunk + 28) (size - index * (chunk + 28))))
unfolding range_at
range_at_lem index size chunk h b =
    rw
      (
        add64_pos 28 chunk (omega arith),
        +-comm 28 chunk,
        mul64_pos index (chunk + 28) (omega arith),
        range_from (index * (chunk + 28)) (chunk + 28) size h (omega arith) (omega arith),
      )
      refl

-- The bytes that a range names.
abbrev pub bytes_of : List ℕ → ChunkRange → List ℕ
bytes_of stream (byte_range (pos start) (pos n)) = take n (drop start stream)
bytes_of stream _ = []

-- The chunks from one index on, one behind the other.
abbrev pub joined : List ℕ → ℤ → ℕ → ℕ → List ℕ
joined stream chunk index zero = []
joined stream chunk index (suc n) =
    bytes_of stream (range_at (pos index) (pos (length stream)) chunk)
    ++ joined stream chunk (suc index) n

empty_length : (xs : List ℕ) → length xs ≡ 0 → xs ≡ []
empty_length [] h = refl
empty_length (x ∷ xs) h = let no : suc (length xs) ≤ 0 = omega arith in elim no [ ]

drop_past : (n : ℕ) (xs : List ℕ) → length xs ≤ n → drop n xs ≡ []
drop_past n xs h = empty_length (drop n xs) (omega (arith, length-drop n xs))

chunk_step :
    (stream : List ℕ) (start next enc : ℕ)
    → next ≡ start + enc
    → take (min enc (length stream - start)) (drop start stream) ++ drop next stream
      ≡ drop start stream
chunk_step stream start next enc h =
    rw
      (
        h,
        sym (drop-add start enc stream),
        sym (length-drop start stream),
        take-min enc (drop start stream),
      )
      (take-drop enc (drop start stream))

-- From a chunk that begins inside the stream on, the chunks are the rest of the stream, if the last
-- of them reaches its end and no chunk before begins there.
joined_rest :
    (stream : List ℕ) (chunk index n : ℕ)
    → length stream + chunk < 2 ^ 61
    → (index + n) * (chunk + 28) < length stream + (chunk + 28)
    → length stream ≤ (index + n) * (chunk + 28)
    → joined stream (pos chunk) index n ≡ drop (index * (chunk + 28)) stream
joined_rest stream chunk index zero b l h =
    sym (drop_past (index * (chunk + 28)) stream (omega arith))
joined_rest stream chunk index (suc n) b l h =
    let here : range_at (pos index) (pos (length stream)) (pos chunk)
        ≡ byte_range (pos (index * (chunk + 28)))
            (pos (min (chunk + 28) (length stream - index * (chunk + 28)))) =
      range_at_lem index (length stream) chunk (omega arith) b in
    let rest : joined stream (pos chunk) (suc index) n ≡ drop (suc index * (chunk + 28)) stream =
      joined_rest stream chunk (suc index) n b (omega arith) (omega arith) in
    rw (here, rest)
      (chunk_step stream (index * (chunk + 28)) (suc index * (chunk + 28)) (chunk + 28)
        (omega arith))

-- For a stream that is not empty, the ranges that the download handler serves for the chunk numbers
-- below the number of chunks of the upload session, taken in order, are the whole stream.
pub range_at-total_chunks :
    (stream : List ℕ) (chunk n : ℕ)
    → 0 < length stream
    → length stream + chunk < 2 ^ 60
    → total_chunks (pos (length stream)) (pos chunk) ≡ pos n
    → joined stream (pos chunk) 0 n ≡ stream
range_at-total_chunks stream chunk n p b h =
    let count : n ≡ (length stream + (chunk + 28) - 1) / (chunk + 28) =
      pos_inj (sym h ∙ total_chunks_lem (length stream) chunk (omega arith))
      ∙ if_positive (length stream) _ p in
    let above : length stream + (chunk + 28) - 1 < n * (chunk + 28) + (chunk + 28) =
      rw (count) (lt-div-mul-add (omega arith)) in
    let below : n * (chunk + 28) ≤ length stream + (chunk + 28) - 1 =
      rw (count) (div-mul-le_self (length stream + (chunk + 28) - 1) (chunk + 28)) in
    joined_rest stream chunk 0 n (omega arith) (omega arith) (omega arith)
    ∙ drop_zero (0 * (chunk + 28)) stream (omega arith)
