-- ===== src/Aad/Injective.antt =====
-- The strings of crypto/aad.go determine their inputs.
use arkfile.Base.{
  ℕ, suc, ◌/◌, ◌%◌, ◌^◌, ◌<◌, ◌≡◌, refl, sym, ◌∙◌, ◌≤◌, List, [], ◌∷◌, ◌++◌, length, arith,
}
use arkfile.Aad.{
  uint32_be, uint64_be, append_len_prefixed_string, build_chunk_aad, build_fek_envelope_aad,
  build_metadata_field_aad,
}

digits_injective :
    (m n : ℕ)
    → m / 2 ^ 24 % 256 ≡ n / 2 ^ 24 % 256
    → m / 2 ^ 16 % 256 ≡ n / 2 ^ 16 % 256
    → m / 2 ^ 8 % 256 ≡ n / 2 ^ 8 % 256
    → m % 256 ≡ n % 256
    → m % 2 ^ 32 ≡ n % 2 ^ 32
digits_injective m n a b c d = omega arith

-- The four bytes in front, and what follows them.
uint32_be_cut :
    (m n : ℕ) (s t : List ℕ)
    → uint32_be m ++ s ≡ uint32_be n ++ t
    → (m % 2 ^ 32 ≡ n % 2 ^ 32) × (s ≡ t)
uint32_be_cut m n s t e = (digits_injective m n (cc) (cc) (cc) (cc), cc)

no_suc : (n : ℕ) → 0 ≡ suc n → 1 ≤ 0
no_suc n e = omega arith

append_cut : (s t x y : List ℕ) → length s ≡ length t → s ++ x ≡ t ++ y → (s ≡ t) × (x ≡ y)
append_cut [] [] x y l e = (refl, e)
append_cut [] (b ∷ t) x y l e = elim (no_suc (length t) l) [ ]
append_cut (a ∷ s) [] x y l e = elim (no_suc (length s) (sym l)) [ ]
append_cut (a ∷ s) (b ∷ t) x y l e =
    let (same, rest) = append_cut s t x y (omega arith) cc in (cc, rest)

append_assoc : (s t u : List ℕ) → (s ++ t) ++ u ≡ s ++ (t ++ u)
append_assoc [] t u = refl
append_assoc (a ∷ s) t u = rw (append_assoc s t u) refl

-- A field behind its length, and what follows it.
field_cut :
    (s t x y : List ℕ)
    → length s < 2 ^ 32
    → length t < 2 ^ 32
    → uint32_be (length s) ++ (s ++ x) ≡ uint32_be (length t) ++ (t ++ y)
    → (s ≡ t) × (x ≡ y)
field_cut s t x y h k e =
    let (same, rest) = uint32_be_cut (length s) (length t) (s ++ x) (t ++ y) e in
    append_cut s t x y (omega arith) rest

uint64_be_cut :
    (m n : ℕ) (s t : List ℕ)
    → m < 2 ^ 64
    → n < 2 ^ 64
    → uint64_be m ++ s ≡ uint64_be n ++ t
    → (m ≡ n) × (s ≡ t)
uint64_be_cut m n s t h k e =
    let (high, later) =
      uint32_be_cut (m / 2 ^ 32) (n / 2 ^ 32) (uint32_be m ++ s) (uint32_be n ++ t) e in
    let (low, rest) = uint32_be_cut m n s t later in (omega arith, rest)

append_empty : (s : List ℕ) → s ++ [] ≡ s
append_empty [] = refl
append_empty (a ∷ s) = rw (append_empty s) refl

chunk_flat :
    (file : List ℕ) (index total : ℕ)
    → build_chunk_aad file index total
      ≡ uint32_be (length file) ++ (file ++ (uint64_be index ++ (uint64_be total ++ [])))
unfolding build_chunk_aad
chunk_flat file index total = rw (append_assoc, append_empty) refl

-- The string of a chunk determines the file, the index and the number of chunks: for file names
-- shorter than 2^32 bytes and numbers below 2^64.
pub build_chunk_aad_injective :
    (file file2 : List ℕ) (index index2 total total2 : ℕ)
    → length file < 2 ^ 32
    → length file2 < 2 ^ 32
    → index < 2 ^ 64
    → index2 < 2 ^ 64
    → total < 2 ^ 64
    → total2 < 2 ^ 64
    → build_chunk_aad file index total ≡ build_chunk_aad file2 index2 total2
    → (file ≡ file2) × (index ≡ index2) × (total ≡ total2)
unfolding build_chunk_aad
build_chunk_aad_injective file file2 index index2 total total2 h h2 i i2 j j2 e =
    let (same, later) =
      field_cut file file2 _ _ h h2
        (sym (chunk_flat file index total) ∙ e ∙ chunk_flat file2 index2 total2) in
    let (place, last) = uint64_be_cut index index2 _ _ i i2 later in
    (same, place, (uint64_be_cut total total2 [] [] j j2 last).0)

metadata_flat :
    (file name owner : List ℕ)
    → build_metadata_field_aad file name owner
      ≡ uint32_be (length file)
        ++ (file
            ++ (uint32_be (length name) ++ (name ++ (uint32_be (length owner) ++ (owner ++ [])))))
unfolding build_metadata_field_aad
metadata_flat file name owner =
    rw
      (
        append_assoc file (uint32_be (length name) ++ name) (uint32_be (length owner) ++ owner),
        append_empty owner,
      )
      refl

-- The string of a metadata field determines the file, the field and the owner: for texts shorter
-- than 2^32 bytes.
build_metadata_field_aad_injective :
    (file file2 name name2 owner owner2 : List ℕ)
    → length file < 2 ^ 32
    → length file2 < 2 ^ 32
    → length name < 2 ^ 32
    → length name2 < 2 ^ 32
    → length owner < 2 ^ 32
    → length owner2 < 2 ^ 32
    → build_metadata_field_aad file name owner ≡ build_metadata_field_aad file2 name2 owner2
    → (file ≡ file2) × (name ≡ name2) × (owner ≡ owner2)
unfolding build_metadata_field_aad
build_metadata_field_aad_injective file file2 name name2 owner owner2 h h2 i i2 j j2 e =
    let flat = sym (metadata_flat file name owner) ∙ e ∙ metadata_flat file2 name2 owner2 in
    let (same, later) = field_cut file file2 _ _ h h2 flat in
    let (field, last) = field_cut name name2 _ _ i i2 later in
    (same, field, (field_cut owner owner2 [] [] j j2 last).0)

-- The string of a key envelope determines the file and the kind of key, for file names shorter than
-- 2^32 bytes.
build_fek_envelope_aad_injective :
    (file file2 : List ℕ) (key key2 : ℕ)
    → length file < 2 ^ 32
    → length file2 < 2 ^ 32
    → build_fek_envelope_aad file key ≡ build_fek_envelope_aad file2 key2
    → (file ≡ file2) × (key ≡ key2)
unfolding build_fek_envelope_aad append_len_prefixed_string
build_fek_envelope_aad_injective file file2 key key2 h h2 e =
    let (same, last) = field_cut file file2 (key ∷ []) (key2 ∷ []) h h2 e in (same, cc)
