-- ===== src/Aad.antt =====
-- crypto/aad.go: the byte strings that bind a ciphertext to its context. A text is the list of its
-- bytes, an int64 its conversion to uint64.
pub mod Injective
mod Examples
use arkfile.Base.{ℕ, ◌*◌, ◌/◌, ◌%◌, ◌^◌, List, [], ◌∷◌, ◌++◌, length}

-- `PutUint32` in big-endian order, of a number that is cut to 32 bits.
abbrev pub uint32_be : ℕ → List ℕ
uint32_be n = n / 2 ^ 24 % 256 ∷ n / 2 ^ 16 % 256 ∷ n / 2 ^ 8 % 256 ∷ n % 256 ∷ []

abbrev pub uint64_be : ℕ → List ℕ
uint64_be n = uint32_be (n / 2 ^ 32) ++ uint32_be n

unfoldable pub append_len_prefixed_string : List ℕ → List ℕ → List ℕ
append_len_prefixed_string dst b = dst ++ (uint32_be (length b) ++ b)

unfoldable pub append_uint64_be : List ℕ → ℕ → List ℕ
append_uint64_be dst v = dst ++ uint64_be v

unfoldable pub build_chunk_aad : List ℕ → ℕ → ℕ → List ℕ
unfolding append_uint64_be append_len_prefixed_string
build_chunk_aad file_id chunk_index total_chunks =
    append_uint64_be (append_uint64_be (append_len_prefixed_string [] file_id) chunk_index)
      total_chunks

unfoldable pub build_fek_envelope_aad : List ℕ → ℕ → List ℕ
unfolding append_len_prefixed_string
build_fek_envelope_aad file_id key_type = append_len_prefixed_string [] file_id ++ key_type ∷ []

unfoldable pub build_metadata_field_aad : List ℕ → List ℕ → List ℕ → List ℕ
unfolding append_len_prefixed_string
build_metadata_field_aad file_id field_name owner =
    append_len_prefixed_string
      (append_len_prefixed_string (append_len_prefixed_string [] file_id) field_name) owner
