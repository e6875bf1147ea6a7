-- ===== src/Procfs/Columns.antt =====
-- The indices that the header line gives. In the rows the kernel writes two pairs of columns, the
-- queues and the timer, as one field each.
use lib_sager_net_core.Common.{
  ℕ, ◌≡◌, refl, ap, ◌∙◌, Bool, true, false, ◌||◌, ◌&&◌, List, [], ◌∷◌, ◌++◌, arith, ◌+◌,
  if◌then◌else◌, length,
}
use lib_sager_net_core.Common.Int.{sub_ℕ}
use lib_sager_net_core.Procfs.{
  Column, tx_queue, rx_queue, tr, tm_when, local_address, uid, other, classify, Scan, merged,
  scan_column, scan_columns, scan_start,
}

abbrev pub same_column : Column → Column → Bool
same_column tx_queue tx_queue = true
same_column rx_queue rx_queue = true
same_column tr tr = true
same_column tm_when tm_when = true
same_column local_address local_address = true
same_column uid uid = true
same_column other other = true
same_column _ _ = false

-- Whether a header has a column of a kind.
abbrev pub has : Column → List (List ℕ) → Bool
has k [] = false
has k (c ∷ cs) = same_column k (classify c) || has k cs

-- How many fields fewer than columns the rows have for the columns `cs`.
abbrev pub joined : List (List ℕ) → ℕ
joined cs =
    (if has tx_queue cs && has rx_queue cs then 1 else 0)
    + (if has tr cs && has tm_when cs then 1 else 0)

pub record Seen (s t : Scan) (cs : List (List ℕ)) : Type 0 where
  pub idx : t.idx ≡ s.idx + length cs
  pub tx : t.seen_tx ≡ (s.seen_tx || has tx_queue cs)
  pub rx : t.seen_rx ≡ (s.seen_rx || has rx_queue cs)
  pub tr_seen : t.seen_tr ≡ (s.seen_tr || has tr cs)
  pub tm : t.seen_tm ≡ (s.seen_tm || has tm_when cs)
  pub kept_local : has local_address cs ≡ false → t.index_of_local ≡ s.index_of_local
  pub kept_uid : has uid cs ≡ false → t.index_of_uid ≡ s.index_of_uid

pub scan_columns-Seen : (s : Scan) (cs : List (List ℕ)) → Seen s (scan_columns s cs) cs
unfolding scan_columns scan_column
scan_columns-Seen s [] = ground arith
scan_columns-Seen s (c ∷ cs) = ground (arith, scan_columns-Seen (scan_column s (classify c)) cs)

pub scan_columns-append :
    (s : Scan) (xs ys : List (List ℕ))
    → scan_columns s (xs ++ ys) ≡ scan_columns (scan_columns s xs) ys
unfolding scan_columns
scan_columns-append s [] ys = refl
scan_columns-append s (x ∷ xs) ys = scan_columns-append (scan_column s (classify x)) xs ys

-- Whatever the columns, the index of the last `uid` column is its place in the rows: the number of
-- columns before it, less one for each of the two pairs that is whole before it.
pub index_of_uid_lem :
    (before after : List (List ℕ)) (c : List ℕ)
    → classify c ≡ uid
    → has uid after ≡ false
    → (scan_columns scan_start (before ++ c ∷ after)).index_of_uid
      ≡ sub_ℕ (length before) (joined before)
unfolding scan_columns scan_column merged
index_of_uid_lem before after c h none_after =
    let s = scan_columns scan_start before in
    let f = scan_columns-Seen scan_start before in
    let g = scan_columns-Seen (scan_column s (classify c)) after in
    ap (λ t. t.index_of_uid) (scan_columns-append scan_start before (c ∷ after))
    ∙ g.kept_uid none_after
    ∙ ground (arith, f.idx, f.tx, f.rx, f.tr_seen, f.tm)

-- Whatever the columns, the index of the last `local_address` column is its place in the rows: the
-- number of columns before it, less one for each of the two pairs that is whole before it.
pub index_of_local_lem :
    (before after : List (List ℕ)) (c : List ℕ)
    → classify c ≡ local_address
    → has local_address after ≡ false
    → (scan_columns scan_start (before ++ c ∷ after)).index_of_local
      ≡ sub_ℕ (length before) (joined before)
unfolding scan_columns scan_column merged
index_of_local_lem before after c h none_after =
    let s = scan_columns scan_start before in
    let f = scan_columns-Seen scan_start before in
    let g = scan_columns-Seen (scan_column s (classify c)) after in
    ap (λ t. t.index_of_local) (scan_columns-append scan_start before (c ∷ after))
    ∙ g.kept_local none_after
    ∙ ground (arith, f.idx, f.tx, f.rx, f.tr_seen, f.tm)
