-- ===== src/Uploads/Counting.antt =====
-- Counting the rows of `upload_chunks` of a session.
use arkfile.Base.{
  Bool-cases, All, ℕ, zero, suc, ◌+◌, ◌≡◌, ◌⊎◌, ◌≤◌, ◌<◌, refl, ap, inl, inr, ◌∙◌, true, false,
  ◌&&◌, ◌||◌, List, [], ◌∷◌, ◌++◌, arith, length, if◌then◌else◌, String, str_eq,
}
use arkfile.Base.Int.{ℤ, pos, negsuc, ltb_ℤ, leb_ℤ, eq_ℤ}
use arkfile.Uploads.{ChunkRow}
use arkfile.Uploads.Cancel.{insert_by_number, chunks_of}
use arkfile.Uploads.Chunk.{has_chunk}

-- The number of rows of a session.
abbrev pub count_rows : String → List ChunkRow → ℕ
count_rows id [] = 0
count_rows id (c ∷ rest) = (if str_eq c.session_id id then 1 else 0) + count_rows id rest

-- The number of its rows with a number.
abbrev pub occurs : String → ℕ → List ChunkRow → ℕ
occurs id k [] = 0
occurs id k (c ∷ rest) =
    (if str_eq c.session_id id && eq_ℤ c.chunk_number (pos k) then 1 else 0) + occurs id k rest

-- The number of its rows with a number below `n`.
abbrev covered : String → ℕ → List ChunkRow → ℕ
covered id zero rows = 0
covered id (suc n) rows = occurs id n rows + covered id n rows

-- The chunk numbers of the session are those that `UploadChunk` allows.
abbrev pub IsRangedRow : String → ℤ → ChunkRow → Type 0
IsRangedRow id total c =
    str_eq c.session_id id ≡ true
    → (ltb_ℤ c.chunk_number (pos 0) || leb_ℤ total c.chunk_number) ≡ false

abbrev pub AreRanged : String → ℤ → List ChunkRow → Type 0
AreRanged id total rows = All (IsRangedRow id total) rows

length-insert_by_number :
    (c : ChunkRow) (rows : List ChunkRow) → length (insert_by_number c rows) ≡ 1 + length rows
length-insert_by_number c [] = omega arith
length-insert_by_number c (r ∷ rest) = ground (arith, length-insert_by_number c rest)

pub length-chunks_of :
    (id : String) (rows : List ChunkRow) → length (chunks_of id rows) ≡ count_rows id rows
unfolding chunks_of
length-chunks_of id [] = refl
length-chunks_of id (c ∷ rest) =
    ground (arith, length-insert_by_number c (chunks_of id rest), length-chunks_of id rest)

covered_nothing : (id : String) (n : ℕ) → covered id n [] ≡ 0
covered_nothing id zero = refl
covered_nothing id (suc n) = omega (arith, covered_nothing id n)

abbrev hit_below : String → ℕ → ChunkRow → ℕ
hit_below id zero c = 0
hit_below id (suc n) c =
    (if str_eq c.session_id id && eq_ℤ c.chunk_number (pos n) then 1 else 0) + hit_below id n c

covered_row :
    (id : String) (n : ℕ) (c : ChunkRow) (rows : List ChunkRow)
    → covered id n (c ∷ rows) ≡ hit_below id n c + covered id n rows
covered_row id zero c rows = omega arith
covered_row id (suc n) c rows = omega (arith, covered_row id n c rows)

hit_past :
    (id : String) (n k : ℕ) (c : ChunkRow) → c.chunk_number ≡ pos k → n ≤ k → hit_below id n c ≡ 0
hit_past id zero k c e h = refl
hit_past id (suc n) k c e h = rw (e) (grind (arith, hit_past id n k c e (omega arith)))

hit_own :
    (id : String) (n k : ℕ) (c : ChunkRow)
    → c.chunk_number ≡ pos k
    → k < n
    → hit_below id n c ≡ (if str_eq c.session_id id then 1 else 0)
hit_own id zero k c e h = elim h [ ]
hit_own id (suc n) k c e h = rw (e) (grind (arith, hit_past id n k c e, hit_own id n k c e))

ranged_pos :
    (a : ℤ) (n : ℕ) → (ltb_ℤ a (pos 0) || leb_ℤ (pos n) a) ≡ false → (k : ℕ) × (a ≡ pos k) × (k < n)
ranged_pos (pos k) n h = (k, refl, ground arith)
ranged_pos (negsuc k) n h = ground arith

hit_foreign :
    (id : String) (n : ℕ) (c : ChunkRow) → str_eq c.session_id id ≡ false → hit_below id n c ≡ 0
hit_foreign id zero c h = refl
hit_foreign id (suc n) c h = ground (arith, hit_foreign id n c h)

hit_ranged :
    (id : String) (n : ℕ) (c : ChunkRow)
    → IsRangedRow id (pos n) c
    → hit_below id n c ≡ (if str_eq c.session_id id then 1 else 0)
hit_ranged id n c h = elim (Bool-cases (str_eq c.session_id id)) [
  | inl own ↦ let (k, e, below) = ranged_pos c.chunk_number n (h own) in hit_own id n k c e below
  | inr foreign ↦ ground (arith, hit_foreign id n c foreign)
]

lt_suc : (k n : ℕ) → k < suc n → (k ≡ n) ⊎ (k < n)
lt_suc k n h = grind arith

covered-count_rows :
    (id : String) (n : ℕ) (rows : List ChunkRow)
    → AreRanged id (pos n) rows
    → covered id n rows ≡ count_rows id rows
covered-count_rows id n [] h = covered_nothing id n
covered-count_rows id n (c ∷ rest) (here, h) =
    omega (arith, covered_row id n c rest, covered-count_rows id n rest h, hit_ranged id n c here)

covered-le :
    (id : String) (n : ℕ) (rows : List ChunkRow)
    → ((k : ℕ) → occurs id k rows ≤ 1)
    → covered id n rows ≤ n
covered-le id zero rows once = omega arith
covered-le id (suc n) rows once = omega (arith, once n, covered-le id n rows once)

covered-full :
    (id : String) (n k : ℕ) (rows : List ChunkRow)
    → ((k : ℕ) → occurs id k rows ≤ 1)
    → covered id n rows ≡ n
    → k < n
    → occurs id k rows ≡ 1
covered-full id zero k rows once e h = elim h [ ]
covered-full id (suc n) k rows once e h = elim (lt_suc k n h) [
  | inl same ↦ rw (same) (omega (arith, once n, covered-le id n rows once))
  | inr less ↦ covered-full id n k rows once (omega (arith, once n, covered-le id n rows once)) less
]

-- As many rows as numbers, each number at most once: each number is there.
pub every_number :
    (id : String) (n k : ℕ) (rows : List ChunkRow)
    → AreRanged id (pos n) rows
    → ((k : ℕ) → occurs id k rows ≤ 1)
    → count_rows id rows ≡ n
    → k < n
    → occurs id k rows ≡ 1
every_number id n k rows ranged once count h =
    covered-full id n k rows once (covered-count_rows id n rows ranged ∙ count) h

-- One more row.
pub count_rows-append :
    (id : String) (rows : List ChunkRow) (c : ChunkRow)
    → count_rows id (rows ++ c ∷ [])
      ≡ count_rows id rows + (if str_eq c.session_id id then 1 else 0)
count_rows-append id [] c = omega arith
count_rows-append id (r ∷ rest) c = omega (arith, count_rows-append id rest c)

pub occurs-append :
    (id : String) (k : ℕ) (rows : List ChunkRow) (c : ChunkRow)
    → occurs id k (rows ++ c ∷ []) ≡ occurs id k rows + occurs id k (c ∷ [])
occurs-append id k [] c = omega arith
occurs-append id k (r ∷ rest) c = omega (arith, occurs-append id k rest c)

pub occurs-has_chunk :
    (id : String) (k : ℕ) (rows : List ChunkRow)
    → has_chunk id (pos k) rows ≡ false
    → occurs id k rows ≡ 0
occurs-has_chunk id k [] h = refl
occurs-has_chunk id k (r ∷ rest) h = ground (arith, occurs-has_chunk id k rest)

pub AreRanged-append :
    (id : String) (total : ℤ) (rows : List ChunkRow) (c : ChunkRow)
    → AreRanged id total rows
    → IsRangedRow id total c
    → AreRanged id total (rows ++ c ∷ [])
AreRanged-append id total [] c h here = (here, tt)
AreRanged-append id total (r ∷ rest) c (first, h) here =
    (first, AreRanged-append id total rest c h here)

not_counted :
    (id : String) (r : ChunkRow) (rest : List ChunkRow)
    → str_eq r.session_id id ≡ true
    → count_rows id (r ∷ rest) ≡ 0
    → ⊥
not_counted id r rest own h = ground arith

pub AreRanged-count_rows :
    (id : String) (total : ℤ) (rows : List ChunkRow)
    → count_rows id rows ≡ 0
    → AreRanged id total rows
AreRanged-count_rows id total [] h = tt
AreRanged-count_rows id total (r ∷ rest) h = (
  λ own. elim (not_counted id r rest own h) [ ],
  AreRanged-count_rows id total rest (omega arith),
)

pub chunks_of-append :
    (id : String) (rows : List ChunkRow) (c : ChunkRow)
    → str_eq c.session_id id ≡ false
    → chunks_of id (rows ++ c ∷ []) ≡ chunks_of id rows
unfolding chunks_of
chunks_of-append id [] c h = ground arith
chunks_of-append id (r ∷ rest) c h =
    ap (λ others. if str_eq r.session_id id then insert_by_number r others else others)
      (chunks_of-append id rest c h)
