-- ===== src/Shares/Limit.antt =====
-- A share's limit of accesses over interleaved requests.
use arkfile.Base.{
  Bool-cases, ℕ, ◌+◌, ◌≡◌, ◌≤◌, sym, ap, inl, inr, ◌∙◌, Bool, true, false, Option, none, some, List,
  [], ◌∷◌, map, arith, if◌then◌else◌, String, str_eq, eq_iff,
}
use arkfile.Base.Table.{str_eq_comm}
use arkfile.Shares.{
  Share, ShareState, ChunkDownload, ShareEnv, ShareReply, find_share, count_if, is_counted,
  download_share_chunk,
}
use arkfile.Shares.Requests.{first_chunk, Served, not_counted, counted, download_share_chunk-Served}

-- The requests of a history: each with what the outside does and the row that it has read, which
-- may be an old one.
abbrev pub History : Type 0
History = List (ShareEnv × (ChunkDownload × Option Share))

-- The number of first chunks that a history streams for the share.
abbrev pub first_chunks : String → History → ShareState → ℕ
first_chunks id [] st = 0
first_chunks id ((env, (request, read)) ∷ rest) st =
    let result = download_share_chunk env request read st in
    first_chunk id request result.1 + first_chunks id rest result.0

find_share-id :
    (id : String) (rows : List Share) (s : Share) → find_share id rows ≡ some s → s.share_id ≡ id
unfolding find_share
find_share-id id [] s e = cc
find_share-id id (r ∷ rest) s e = grind (arith, eq_iff r.share_id id, find_share-id id rest s)

count_if-id : (id : String) (s : Share) → (count_if id s).share_id ≡ s.share_id
count_if-id id s = ground arith

if_found :
    (f : Share → Share) (b : Bool) (r s : Share) (mapped found : Option Share)
    → (found ≡ some s → mapped ≡ some (f s))
    → (if b then some r else found) ≡ some s
    → (if b then some (f r) else mapped) ≡ some (f s)
if_found f true r s mapped found keeps e = ap (λ o. elim o [ none ↦ none | some x ↦ some (f x) ]) e
if_found f false r s mapped found keeps e = keeps e

find_share-count_if :
    (id other : String) (rows : List Share) (s : Share)
    → find_share id rows ≡ some s
    → find_share id (map (count_if other) rows) ≡ some (count_if other s)
unfolding find_share
find_share-count_if id other [] s e = cc
find_share-count_if id other (r ∷ rest) s e =
    ap
      (λ i.
        if str_eq i id then some (count_if other r) else find_share id (map (count_if other) rest))
      (count_if-id other r)
    ∙ if_found (count_if other) (str_eq r.share_id id) r s _ _ (find_share-count_if id other rest s)
        e

first_chunk-le :
    (id : String) (request : ChunkDownload) (reply : ShareReply) → first_chunk id request reply ≤ 1
first_chunk-le id request reply = ground arith

first_chunk-other :
    (id : String) (request : ChunkDownload) (reply : ShareReply)
    → str_eq request.share_id id ≡ false
    → first_chunk id request reply ≡ 0
first_chunk-other id request reply h = ground arith

count_if-other :
    (other : String) (s : Share) → str_eq s.share_id other ≡ false → count_if other s ≡ s
count_if-other other s h = ground arith

-- An access that the limit allows.
counted_row :
    (other : String) (s : Share) (m : ℕ)
    → s.max_accesses ≡ some m
    → str_eq s.share_id other ≡ true
    → is_counted (some s) ≡ true
    → ((count_if other s).access_count ≡ s.access_count + 1)
      × (s.access_count + 1 ≤ m)
      × ((count_if other s).max_accesses ≡ some m)
counted_row other s m limit same h = ground arith

limited :
    (id : String) (request : ChunkDownload) (st : ShareState) (result : ShareState × ShareReply)
    (s : Share) (m : ℕ)
    → Served id request st result
    → find_share id st.shares ≡ some s
    → s.max_accesses ≡ some m
    → s.access_count ≤ m
    → (after : Share) × (find_share id result.0.shares ≡ some after)
      × (after.max_accesses ≡ some m)
      × (after.access_count ≤ m)
      × (first_chunk id request result.1 + s.access_count ≤ after.access_count)
limited id request st result s m (not_counted same none_) found limit h =
    (s, ap (find_share id) same ∙ found, limit, h, omega arith)
limited id request st result s m (counted allowed same) found limit h =
    let name : s.share_id ≡ id = find_share-id id st.shares s found in
    let here : find_share id result.0.shares ≡ some (count_if request.share_id s) =
      ap (find_share id) same ∙ find_share-count_if id request.share_id st.shares s found in
    elim (Bool-cases (str_eq s.share_id request.share_id)) [
      | inl own ↦
          let asked : s.share_id ≡ request.share_id = (eq_iff s.share_id request.share_id).0 own in
          let row : find_share request.share_id st.shares ≡ some s =
            ap (λ i. find_share i st.shares) (sym asked ∙ name) ∙ found in
          let (count, below, kept) =
            counted_row request.share_id s m limit own (ap is_counted (sym row) ∙ allowed) in
          (
            count_if request.share_id s,
            here,
            kept,
            omega arith,
            omega (arith, first_chunk-le id request result.1),
          )
      | inr other ↦
          let foreign : str_eq request.share_id id ≡ false =
            str_eq_comm request.share_id id
            ∙ ap (λ i. str_eq i request.share_id) (sym name)
            ∙ other in
          (
            s,
            here ∙ ap some (count_if-other request.share_id s other),
            limit,
            h,
            omega (arith, first_chunk-other id request result.1 foreign),
          )
    ]

-- For a share with a limit of accesses that it has not passed, the first chunks that any sequence of
-- requests streams, with the accesses counted before, are at most the limit, whatever state of the
-- share's row, old or new, each request has read.
pub first_chunks-max_accesses :
    (id : String) (history : History) (st : ShareState) (s : Share) (m : ℕ)
    → find_share id st.shares ≡ some s
    → s.max_accesses ≡ some m
    → s.access_count ≤ m
    → first_chunks id history st + s.access_count ≤ m
first_chunks-max_accesses id [] st s m found limit h = omega arith
first_chunks-max_accesses id ((env, (request, read)) ∷ rest) st s m found limit h =
    let result = download_share_chunk env request read st in
    let (after, found', limit', below, more) =
      limited id request st result s m (download_share_chunk-Served env id request read st) found
        limit h in
    omega (arith, first_chunks-max_accesses id rest result.0 after m found' limit' below, more)
