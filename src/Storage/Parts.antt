-- ===== src/Storage/Parts.antt =====
-- The loop over the parts of a copy: on enough fuel it ends, and it writes what it has hashed.
use arkfile.Base.{
  ℕ, zero, suc, ◌+◌, ◌-◌, ◌≡◌, ◌≤◌, ◌<◌, refl, sym, ap, ◌∙◌, min, Bool, true, false, List, [], ◌∷◌,
  ◌++◌, arith, ◌==◌, ==_iff, take, drop, take_zero, take-add, append_assoc, append_empty,
}
use arkfile.Storage.{
  CopyError, copy_canceled, part_read_failed, part_upload_failed, CopyEnv, copy_multipart_part_size,
  LoopEnd, loop_done, loop_failed, stop_if, copy_parts, part_bytes,
}

-- The loop has written and hashed the bytes, or has ended with an error.
pub data LoopWrites (before read : List ℕ) (parts : List (ℕ × List ℕ)) : LoopEnd → Type 0 where
  wrote :
      (done : List (ℕ × List ℕ)) (hashed : List ℕ)
      → part_bytes done ≡ part_bytes parts ++ read
      → hashed ≡ before ++ read
      → LoopWrites before read parts (loop_done done hashed)
  gave_up : (error : CopyError) → LoopWrites before read parts (loop_failed error)

stop_if-LoopWrites :
    {before read : List ℕ} {parts : List (ℕ × List ℕ)} (b : Bool) (stop rest : LoopEnd)
    → (b ≡ true → LoopWrites before read parts stop)
    → (b ≡ false → LoopWrites before read parts rest)
    → LoopWrites before read parts (stop_if b stop rest)
unfolding stop_if
stop_if-LoopWrites true stop rest s r = s refl
stop_if-LoopWrites false stop rest s r = r refl

part_bytes-append :
    (parts : List (ℕ × List ℕ)) (number : ℕ) (part : List ℕ)
    → part_bytes (parts ++ (number, part) ∷ []) ≡ part_bytes parts ++ part
part_bytes-append [] number part = append_empty part
part_bytes-append ((n, p) ∷ rest) number part =
    ap (λ b. p ++ b) (part_bytes-append rest number part)
    ∙ sym (append_assoc p (part_bytes rest) part)

later :
    {before read more : List ℕ} {parts : List (ℕ × List ℕ)} (number : ℕ) (part : List ℕ)
    (end_ : LoopEnd)
    → part ++ more ≡ read
    → LoopWrites (before ++ part) more (parts ++ (number, part) ∷ []) end_
    → LoopWrites before read parts end_
later {before} {read} {more} {parts} number part _ e (wrote done hashed d h) =
    wrote done hashed
      (d
        ∙ ap (λ b. b ++ more) (part_bytes-append parts number part)
        ∙ append_assoc (part_bytes parts) part more
        ∙ ap (λ b. part_bytes parts ++ b) e)
      (h ∙ append_assoc before part more ∙ ap (λ b. before ++ b) e)
later number part _ e (gave_up error) = gave_up error

take_split :
    (size remaining : ℕ) (xs : List ℕ)
    → size ≤ remaining
    → take size xs ++ take (remaining - size) (drop size xs) ≡ take remaining xs
take_split size remaining xs h =
    sym (take-add size (remaining - size) xs) ∙ ap (λ k. take k xs) (omega arith)

shorter :
    (remaining fuel : ℕ)
    → remaining < suc fuel
    → (remaining == 0) ≡ false
    → remaining - min copy_multipart_part_size remaining < fuel
shorter remaining fuel h more = ground arith

pub copy_parts-LoopWrites :
    (env : CopyEnv) (fuel number remaining : ℕ) (unread hashed : List ℕ) (parts : List (ℕ × List ℕ))
    → remaining < fuel
    → LoopWrites hashed
        (take remaining unread)
        parts
        (copy_parts env fuel number remaining unread hashed parts)
unfolding copy_parts
copy_parts-LoopWrites env zero number remaining unread hashed parts h = elim h [ ]
copy_parts-LoopWrites env (suc fuel) number remaining unread hashed parts h =
    stop_if-LoopWrites _ _ _
      (λ empty.
        let nothing : take remaining unread ≡ [] =
          take_zero remaining unread ((==_iff remaining 0).0 empty) in
        wrote parts hashed
          (sym (ap (λ b. part_bytes parts ++ b) nothing ∙ append_empty (part_bytes parts)))
          (sym (ap (λ b. hashed ++ b) nothing ∙ append_empty hashed)))
      (λ more.
        stop_if-LoopWrites _ _ _ (λ a. gave_up copy_canceled)
          (λ a.
            stop_if-LoopWrites _ _ _ (λ b. gave_up part_read_failed)
              (λ b.
                stop_if-LoopWrites _ _ _ (λ c. gave_up part_upload_failed)
                  (λ c.
                    later number (take (min copy_multipart_part_size remaining) unread) _
                      (take_split (min copy_multipart_part_size remaining) remaining unread
                        (omega arith))
                      (copy_parts-LoopWrites env fuel (number + 1)
                        (remaining - min copy_multipart_part_size remaining)
                        (drop (min copy_multipart_part_size remaining) unread)
                        (hashed ++ take (min copy_multipart_part_size remaining) unread)
                        (parts
                          ++ (number, take (min copy_multipart_part_size remaining) unread) ∷ [])
                        (shorter remaining fuel h more))))))
