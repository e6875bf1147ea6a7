-- ===== src/Procfs.antt =====
-- procfs.go: which columns of /proc/net/tcp hold the local address and the uid, and the search of a
-- socket's uid. A line is its bytes; `ReadLine` is the list of the lines before the end or an error.
pub mod Columns
pub mod Endian
pub mod Search
mod Tests
use lib_sager_net_core.Common.{
  ℕ, suc, zero, Bool, true, false, ◌||◌, ◌&&◌, Option, none, some, List, [], ◌∷◌, ◌++◌, ◌==◌, leb,
  ltb, ◌+◌, ◌-◌, ◌*◌, ◌/◌, ◌%◌, ◌^◌, if◌then◌else◌, bytes_eq, length, get_elem?,
}
use lib_sager_net_core.Common.Int.{ℤ, pos, negsuc, sub_ℕ}
use lib_sager_net_core.Common.Text.{codes, fields, equal_fold, hex_digit}

-- The cases of the `switch` on a column's name.
pub data Column : Type 0 where
  tx_queue rx_queue tr tm_when local_address uid other : Column

pub classify : List ℕ → Column
classify col =
    if bytes_eq col (codes "tx_queue")
    then tx_queue
    else if bytes_eq col (codes "rx_queue")
    then rx_queue
    else if bytes_eq col (codes "tr")
    then tr
    else if bytes_eq col (codes "tm->when")
    then tm_when
    else if bytes_eq col (codes "local_address")
    then local_address
    else if bytes_eq col (codes "uid")
    then uid
    else other

-- The variables of the loop, with `netIndexOfLocal` and `netIndexOfUid`.
pub record Scan : Type 0 where
  pub idx : ℕ
  pub seen_tx : Bool
  pub seen_rx : Bool
  pub seen_tr : Bool
  pub seen_tm : Bool
  pub index_of_local : ℤ
  pub index_of_uid : ℤ

-- `-offset` at a column.
pub merged : Scan → ℕ
merged s = (if s.seen_tx && s.seen_rx then 1 else 0) + (if s.seen_tr && s.seen_tm then 1 else 0)

-- One round of the loop over the columns.
pub scan_column : Scan → Column → Scan
unfolding merged
scan_column s c =
    let next = record s { idx = s.idx + 1 } in
    elim c [
      | tx_queue ↦ record next { seen_tx = true }
      | rx_queue ↦ record next { seen_rx = true }
      | tr ↦ record next { seen_tr = true }
      | tm_when ↦ record next { seen_tm = true }
      | local_address ↦ record next { index_of_local = sub_ℕ s.idx (merged s) }
      | uid ↦ record next { index_of_uid = sub_ℕ s.idx (merged s) }
      | other ↦ next
    ]

pub scan_columns : Scan → List (List ℕ) → Scan
scan_columns s [] = s
scan_columns s (c ∷ cs) = scan_columns (scan_column s (classify c)) cs

abbrev pub scan_start : Scan
scan_start = record {
  idx = 0;
  seen_tx = false;
  seen_rx = false;
  seen_tr = false;
  seen_tm = false;
  index_of_local = negsuc 0;
  index_of_uid = negsuc 0;
}

-- The first `init`: `none` if the file cannot be opened or its first line cannot be read.
pub init_indices : Option (List ℕ) → Scan
init_indices none = scan_start
init_indices (some header) = scan_columns scan_start (fields header)

pub data ByteOrder : Type 0 where
  big_endian little_endian : ByteOrder

-- `binary.BigEndian.Uint32`
unfoldable pub be_uint32 : ℕ → ℕ → ℕ → ℕ → ℕ
be_uint32 a b c d = ((a * 256 + b) * 256 + c) * 256 + d

-- `nativeEndian.PutUint32`
unfoldable pub put_uint32 : ByteOrder → ℕ → List ℕ
put_uint32 big_endian v = (v / 16777216) % 256 ∷ (v / 65536) % 256 ∷ (v / 256) % 256 ∷ v % 256 ∷ []
put_uint32 little_endian v =
    v % 256 ∷ (v / 256) % 256 ∷ (v / 65536) % 256 ∷ (v / 16777216) % 256 ∷ []

-- `nativeEndianIP`; `none` is the panic of `Uint32` on fewer than four bytes.
unfoldable pub native_endian_ip : ByteOrder → List ℕ → Option (List ℕ)
native_endian_ip order [] = some []
native_endian_ip order (a ∷ b ∷ c ∷ d ∷ rest) = elim (native_endian_ip order rest) [
  | some bytes ↦ some (put_uint32 order (be_uint32 a b c d) ++ bytes)
  | none ↦ none
]
native_endian_ip order _ = none

unfoldable pub hex_encode : List ℕ → List ℕ
hex_encode [] = []
hex_encode (b ∷ bs) = hex_digit (b / 16) ∷ hex_digit (b % 16) ∷ hex_encode bs

-- `local` in `querySocketUidFromProcFs`, from the bytes of the address in native order.
unfoldable pub local_key : List ℕ → ℕ → List ℕ
unfolding hex_encode
local_key native port = hex_encode native ++ b':' ∷ hex_encode (port / 256 ∷ port % 256 ∷ [])

-- A value of Go's `int` as an `int32`.
unfoldable pub int32_of : ℤ → ℤ
int32_of z =
    let low : ℕ = elim z [ pos n ↦ n % 2 ^ 32 | negsuc n ↦ 2 ^ 32 - 1 - n % 2 ^ 32 ] in
    if ltb low (2 ^ 31) then pos low else negsuc (2 ^ 32 - 1 - low)

-- The loop over the rows, at the two indices. `atoi` is `strconv.Atoi`, `none` its error.
module _ (atoi : List ℕ → Option ℤ) where
  unfoldable pub uid_of_field : Option (List ℕ) → ℤ
  unfolding int32_of
  uid_of_field none = negsuc 0
  uid_of_field (some text) = elim (atoi text) [ some n ↦ int32_of n | none ↦ negsuc 0 ]

  pub search_rows : ℕ → ℕ → List ℕ → List (List ℕ) → ℤ
  unfolding uid_of_field
  search_rows at_local at_uid key [] = negsuc 0
  search_rows at_local at_uid key (row ∷ rows) =
      let rest = search_rows at_local at_uid key rows in
      let columns = fields row in
      elim (get_elem? columns at_local) [
        | none ↦ rest
        | some address ↦
            if ltb at_uid (length columns)
            then (if equal_fold key address then uid_of_field (get_elem? columns at_uid) else rest)
            else rest
      ]

-- `source` in `querySocketUidFromProcFs`: its network, its address family and its address.
pub record Source : Type 0 where
  pub is_tcp : Bool
  pub is_ipv6 : Bool
  pub ip : List ℕ
  pub port : ℕ

pub proc_path : Source → List ℕ
proc_path s =
    codes "/proc/net/"
    ++ ((if s.is_tcp then codes "tcp" else codes "udp") ++ (if s.is_ipv6 then codes "6" else []))

-- `querySocketUidFromProcFs`: `none` is a panic. `open_lines` gives the lines of a file, `none` if it
-- cannot be opened.
unfoldable pub query_socket_uid :
    (atoi : List ℕ → Option ℤ) (open_lines : List ℕ → Option (List (List ℕ)))
    → ByteOrder
    → Scan
    → Source
    → Option ℤ
unfolding proc_path local_key
query_socket_uid atoi open_lines order scan source = elim scan.index_of_local [
  | negsuc _ ↦ some (negsuc 0)
  | pos at_local ↦ elim scan.index_of_uid [
    | negsuc _ ↦ some (negsuc 0)
    | pos at_uid ↦ elim source.ip [
      | [] ↦ some (negsuc 0)
      | _ ∷ _ ↦ elim (native_endian_ip order source.ip) [
        | none ↦ none
        | some native ↦ elim (open_lines (proc_path source)) [
          | none ↦ some (negsuc 0)
          | some rows ↦ some (search_rows atoi at_local at_uid (local_key native source.port) rows)
        ]
      ]
    ]
  ]
]
