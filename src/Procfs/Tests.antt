-- ===== src/Procfs/Tests.antt =====
-- Runs on the header and the rows of a table of the kernel.
use lib_sager_net_core.Common.{ℕ, ◌≡◌, refl, some, List, [], ◌∷◌, ◌++◌, arith}
use lib_sager_net_core.Common.Int.{pos}
use lib_sager_net_core.Common.Text.{codes}
use lib_sager_net_core.Procfs.{classify, scan_columns, scan_start, little_endian, native_endian_ip}
use lib_sager_net_core.Procfs.Columns.{index_of_uid_lem}
use lib_sager_net_core.Procfs.Endian.{native_endian_ip-reordered}

abbrev before_uid : List (List ℕ)
before_uid =
    codes "sl"
    ∷ codes "local_address"
    ∷ codes "rem_address"
    ∷ codes "st"
    ∷ codes "tx_queue"
    ∷ codes "rx_queue"
    ∷ codes "tr"
    ∷ codes "tm->when"
    ∷ codes "retrnsmt"
    ∷ []

-- The uid is the eighth field of a row.
index_of_uid_lem_example :
    (scan_columns scan_start
      (before_uid ++ codes "uid" ∷ codes "timeout" ∷ codes "inode" ∷ [])).index_of_uid
    ≡ pos 7
unfolding classify
index_of_uid_lem_example =
    index_of_uid_lem before_uid (codes "timeout" ∷ codes "inode" ∷ []) (codes "uid") refl refl

native_endian_ip-reordered_example :
    native_endian_ip little_endian (127 ∷ 0 ∷ 0 ∷ 1 ∷ []) ≡ some (1 ∷ 0 ∷ 0 ∷ 127 ∷ [])
native_endian_ip-reordered_example =
    native_endian_ip-reordered little_endian (127 ∷ 0 ∷ 0 ∷ 1 ∷ [])
      (omega arith, (omega arith, (omega arith, (omega arith, tt))))
