-- ===== src/Tun/Owner.antt =====
-- uid.go: where the uid of a connection comes from, and what tun.go makes of it. The app's `UidDumper` is a
-- parameter.
use lib_sager_net_core.Common.{
  ℕ, ◌≡◌, ◌≤◌, ◌<◌, ap, ◌∙◌, Bool, true, false, not, ◌||◌, Option, none, some, List, ◌∷◌, ◌++◌,
  if◌then◌else◌, ◌==◌, get_elem?, arith,
}
use lib_sager_net_core.Common.Int.{ℤ, pos}
use lib_sager_net_core.Common.Text.{fields}
use lib_sager_net_core.Procfs.{
  ByteOrder, Scan, Source, proc_path, local_key, native_endian_ip, query_socket_uid, search_rows,
  uid_of_field, int32_of,
}
use lib_sager_net_core.Procfs.Search.{matches_row, NoMatch, search_rows_first}
use lib_sager_net_core.Tun.Inbound.{Config, Owner, tcp_owner}

-- `dumpUid`, of what the search in procfs gives, `none` for a panic. The dumper is asked with the number of the
-- protocol of the destination; its `none` is an error.
unfoldable pub dump_uid :
    (use_procfs : Bool)
    → (query : Source → Option ℤ) → (dumper : ℕ → Source → Option ℤ) → (destination_is_tcp : Bool)
    → Source
    → Option (Option ℤ)
dump_uid use_procfs query dumper destination_is_tcp source =
    if use_procfs
    then elim (query source) [ none ↦ none | some u ↦ some (some u) ]
    else some (dumper (if destination_is_tcp then 6 else 17) source)

-- The owner of a TCP connection from procfs or the dumper, with whether `GetUidInfo` is called; `none` is a panic.
unfoldable pub connection_owner :
    Config
    → (has_dumper : Bool) → (getuid : ℕ) → (dumped : Option (Option ℤ)) → Option (Owner × Bool)
connection_owner t has_dumper getuid dumped = elim dumped [
  | none ↦ none
  | some u ↦ tcp_owner t has_dumper getuid u
]

-- An app's owner, and whether it is asked for, unless there is none to ask.
abbrev pub app_owner : (debug has_dumper : Bool) → (getuid n : ℕ) → Option (Owner × Bool)
app_owner true false getuid n =
    if n == getuid then some (record { uid = n; is_self = true; inbound_uid = n }, false) else none
app_owner true true getuid n =
    some (record { uid = n; is_self = n == getuid; inbound_uid = n }, not (n == getuid))
app_owner false _ getuid n =
    some (record { uid = n; is_self = n == getuid; inbound_uid = n }, false)

tcp_owner-app :
    (t : Config) (has_dumper : Bool) (getuid n : ℕ)
    → (t.dump_uid || t.traffic_stats) ≡ true
    → 10000 ≤ n
    → n < 65536
    → tcp_owner t has_dumper getuid (some (pos n)) ≡ app_owner t.debug has_dumper getuid n
unfolding tcp_owner
tcp_owner-app t has_dumper getuid n on low high = ground arith

module _ (atoi : List ℕ → Option ℤ) (open_lines : List ℕ → Option (List (List ℕ)))
    (order : ByteOrder) (scan : Scan) where
  -- The search reaches the rows of the file.
  query_socket_uid-rows :
      (source : Source) (at_local at_uid b : ℕ) (bs native : List ℕ) (rows : List (List ℕ))
      → scan.index_of_local ≡ pos at_local
      → scan.index_of_uid ≡ pos at_uid
      → source.ip ≡ b ∷ bs
      → native_endian_ip order source.ip ≡ some native
      → open_lines (proc_path source) ≡ some rows
      → query_socket_uid atoi open_lines order scan source
        ≡ some (search_rows atoi at_local at_uid (local_key native source.port) rows)
  unfolding query_socket_uid
  query_socket_uid-rows source at_local at_uid b bs native rows e_local e_uid e_ip e_native e_rows =
      ground (arith, e_local, e_uid, e_ip, e_native, e_rows)

  uid_of_field-small :
      (text : List ℕ) (n : ℕ)
      → atoi text ≡ some (pos n)
      → n < 65536
      → uid_of_field atoi (some text) ≡ pos n
  unfolding uid_of_field int32_of
  uid_of_field-small text n e small = ground (arith, e)

  -- With procfs in use, its header read and the file of the source's family opened: if a row of the file, after
  -- rows that do not match, is that of the source's address and port and gives the uid of an app below 2^16,
  -- then a TCP connection is accounted to that app, also in its inbound session, and is the program's own
  -- exactly if it has the program's uid. The app's dumper is not asked for the uid; it is asked about the app
  -- (`GetUidInfo`) exactly in debug mode for another uid than the program's, and where there is no dumper that
  -- panics, and nothing else does.
  pub connection_owner-dump_uid :
      (t : Config) (has_dumper : Bool) (getuid : ℕ) (dumper : ℕ → Source → Option ℤ) (is_tcp : Bool)
      (source : Source) (at_local at_uid b n : ℕ) (bs native text row : List ℕ)
      (before after : List (List ℕ))
      → (t.dump_uid || t.traffic_stats) ≡ true
      → scan.index_of_local ≡ pos at_local
      → scan.index_of_uid ≡ pos at_uid
      → source.ip ≡ b ∷ bs
      → native_endian_ip order source.ip ≡ some native
      → open_lines (proc_path source) ≡ some (before ++ row ∷ after)
      → NoMatch at_local at_uid (local_key native source.port) before
      → matches_row at_local at_uid (local_key native source.port) row ≡ true
      → get_elem? (fields row) at_uid ≡ some text
      → atoi text ≡ some (pos n)
      → 10000 ≤ n
      → n < 65536
      → connection_owner t has_dumper getuid
          (dump_uid true (query_socket_uid atoi open_lines order scan) dumper is_tcp source)
        ≡ app_owner t.debug has_dumper getuid n
  unfolding connection_owner dump_uid
  connection_owner-dump_uid t has_dumper getuid dumper is_tcp source at_local at_uid b n bs native
        text row before after on e_local e_uid e_ip e_native e_rows none_before matches e_text e_n
        low high =
      let found : query_socket_uid atoi open_lines order scan source ≡ some (pos n) =
        query_socket_uid-rows source at_local at_uid b bs native (before ++ row ∷ after) e_local
          e_uid e_ip e_native e_rows
        ∙ ap some (
            search_rows_first atoi at_local at_uid (local_key native source.port) before after row
              none_before matches)
        ∙ ap (λ (f : Option (List ℕ)). some (uid_of_field atoi f)) e_text
        ∙ ap some (uid_of_field-small text n e_n high) in
      rw found (tcp_owner-app t has_dumper getuid n on low high)
