-- ===== src/Uploads/Sent.antt =====
-- What `UploadChunk` sends to storage for a chunk.
use arkfile.Base.{
  ℕ, ◌-◌, ◌^◌, ◌<◌, ◌≤◌, ◌≡◌, ◌≢◌, refl, sym, ap, ◌∙◌, Bool, true, false, ◌&&◌, List, ◌++◌,
  if◌then◌else◌, arith,
}
use arkfile.Base.Int.{
  ℤ, pos, negsuc, abs, ◌+ℤ◌, ◌-ℤ◌, eq_ℤ, ltb_ℤ, eq_ℤ-eq, sub64, wrap64, wrap64_exact,
}
use mathlib.Core.Bool.{false≢true}
use arkfile.Uploads.{Session, Env}
use arkfile.Uploads.Chunk.{upload_data, nat_of}

-- The bytes that go out for a chunk of a session with so many chunks, so many bytes of data and so
-- many with the padding: the body, and behind the body of the last chunk as many random bytes as the
-- padded size has more than the data.
pub data IsSent (env : Env) (number : ℤ) (count total padded : ℕ) (body : List ℕ)
    : List ℕ → Type 0 where
  inner_chunk : number +ℤ pos 1 ≢ pos count → IsSent env number count total padded body body
  no_padding : padded ≤ total → IsSent env number count total padded body body
  padded_last :
      number +ℤ pos 1 ≡ pos count
      → total < padded
      → IsSent env number count total padded body (body ++ env.random_bytes (padded - total))

below : (count : ℕ) → count < 2 ^ 63 → abs (pos count -ℤ pos 1) < 2 ^ 63
unfolding ◌-ℤ◌
below count h = ground arith

next_eq : (number : ℤ) (count : ℕ) → number ≡ pos count -ℤ pos 1 → number +ℤ pos 1 ≡ pos count
unfolding ◌-ℤ◌ ◌+ℤ◌
next_eq number count e = rw e (ground arith)

before_eq : (number : ℤ) (count : ℕ) → number +ℤ pos 1 ≡ pos count → number ≡ pos count -ℤ pos 1
unfolding ◌-ℤ◌ ◌+ℤ◌
before_eq (pos n) count e = ground arith
before_eq (negsuc n) count e = ground arith

sub64_last : (count : ℕ) → count < 2 ^ 63 → sub64 (pos count) (pos 1) ≡ pos count -ℤ pos 1
unfolding sub64
sub64_last count h =
    let small : abs (pos count -ℤ pos 1) < 2 ^ 63 = below count h in
    wrap64_exact (pos count -ℤ pos 1) small

difference_of : (total padded : ℕ) → total < padded → pos padded -ℤ pos total ≡ pos (padded - total)
unfolding ◌-ℤ◌
difference_of total padded h = ground arith

sub64_padding :
    (total padded : ℕ)
    → total < padded
    → padded < 2 ^ 63
    → nat_of (sub64 (pos padded) (pos total)) ≡ padded - total
unfolding sub64
sub64_padding total padded h k =
    let difference : pos padded -ℤ pos total ≡ pos (padded - total) =
      difference_of total padded h in
    ap nat_of (ap wrap64 difference ∙ wrap64_exact (pos (padded - total)) (omega arith))

last_number :
    (number : ℤ) (count : ℕ) → eq_ℤ number (pos count -ℤ pos 1) ≡ true → number +ℤ pos 1 ≡ pos count
last_number number count e = next_eq number count (eq_ℤ-eq number (pos count -ℤ pos 1) e)

eq_ℤ_self : (a : ℤ) → eq_ℤ a a ≡ true
eq_ℤ_self (pos n) = ground arith
eq_ℤ_self (negsuc n) = ground arith

inner_number :
    (number : ℤ) (count : ℕ)
    → eq_ℤ number (pos count -ℤ pos 1) ≡ false
    → number +ℤ pos 1 ≢ pos count
inner_number number count e is =
    let same : number ≡ pos count -ℤ pos 1 = before_eq number count is in
    false≢true (sym e ∙ ap (eq_ℤ number) (sym same) ∙ eq_ℤ_self number)

-- The same, by what the handler computes.
IsSent-by :
    (env : Env) (number : ℤ) (count total padded : ℕ) (body : List ℕ) (last pads : Bool)
    (padding : ℕ)
    → eq_ℤ number (pos count -ℤ pos 1) ≡ last
    → ltb_ℤ (pos total) (pos padded) ≡ pads
    → (total < padded → padding ≡ padded - total)
    → IsSent env number count total padded body
        (if last && pads then body ++ env.random_bytes padding else body)
IsSent-by env number count total padded body false pads padding e p n =
    inner_chunk (inner_number number count e)
IsSent-by env number count total padded body true false padding e p n = no_padding (ground arith)
IsSent-by env number count total padded body true true padding e p n =
    let more : total < padded = ground arith in
    rw (n more) (padded_last (last_number number count e) more)

IsSent-sizes :
    (env : Env) (number : ℤ) (count total padded : ℕ) (body : List ℕ) (chunks size whole : ℤ)
    → chunks ≡ pos count
    → size ≡ pos total
    → whole ≡ pos padded
    → count < 2 ^ 63
    → padded < 2 ^ 63
    → IsSent env number count total padded body (
        if eq_ℤ number (sub64 chunks (pos 1)) && ltb_ℤ size whole
        then body ++ env.random_bytes (nat_of (sub64 whole size))
        else body)
IsSent-sizes env number count total padded body chunks size whole c t w h k =
    rw (c, t, w, sub64_last count h)
      (IsSent-by env number count total padded body (eq_ℤ number (pos count -ℤ pos 1))
        (ltb_ℤ (pos total) (pos padded)) (nat_of (sub64 (pos padded) (pos total))) refl refl
        (λ more. sub64_padding total padded more k))

pub upload_data-IsSent :
    (env : Env) (s : Session) (number : ℤ) (body : List ℕ) (count total padded : ℕ)
    → s.total_chunks ≡ pos count
    → s.total_size ≡ pos total
    → s.padded_size ≡ pos padded
    → count < 2 ^ 63
    → padded < 2 ^ 63
    → IsSent env number count total padded body (upload_data env s number body)
upload_data-IsSent env s number body count total padded c t w h k =
    IsSent-sizes env number count total padded body s.total_chunks s.total_size s.padded_size c t w
      h k
