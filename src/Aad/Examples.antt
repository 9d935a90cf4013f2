-- ===== src/Aad/Examples.antt =====
-- The theorems on crypto/aad.go at short texts.
use arkfile.Base.{ℕ, List, ◌≡◌, refl, [], ◌∷◌, arith}
use arkfile.Aad.Injective.{build_chunk_aad_injective}

abbrev file : List ℕ
file = 102 ∷ 49 ∷ []

abbrev name : List ℕ
name = 110 ∷ []

abbrev one : ℕ
one = 1

build_chunk_aad_injective_example : (file ≡ file) × (one ≡ one) × (one ≡ one)
build_chunk_aad_injective_example =
    build_chunk_aad_injective file file one one one one (omega arith) (omega arith) (omega arith)
      (omega arith) (omega arith) (omega arith) refl
