-- ===== src/Url/Parsing/Accepted.antt =====
-- url.go: the parts of a URL that `parse` accepts print its text.
use lib_sager_net_core.Common.{◌≡◌, ◌≢◌, ◌⊎◌, true, false, Option, none, some, [], ◌∷◌, ◌++◌}
use lib_sager_net_core.Url.{Bytes, UserInfo, NetUrl}
use lib_sager_net_core.Url.Parsing.{contains, starts_in}

module _ (get_scheme : Bytes → Option (Bytes × Bytes))
    (parse_authority : Bytes → Option (Option UserInfo × Bytes))
    (set_path : Bytes → Option (Bytes × Bytes)) where
  -- A text that has no authority and is all path: it begins with one slash, or with three where there is no scheme,
  -- or there is no scheme and it begins with a segment that has no colon.
  pub data IsPathOnly (scheme : Bytes) : Bytes → Type 0 where
    one_slash :
        (p body : Bytes) → body ≡ b'/' ∷ p → starts_in b'/' p ≡ false → IsPathOnly scheme body
    three_slashes :
        (p body : Bytes) → body ≡ b'/' ∷ b'/' ∷ b'/' ∷ p → scheme ≡ [] → IsPathOnly scheme body
    relative :
        (segment p body : Bytes)
        → body ≡ segment ++ p
        → scheme ≡ []
        → starts_in b'/' body ≡ false
        → contains b'/' segment ≡ false
        → contains b':' segment ≡ false
        → p ≡ [] ⊎ starts_in b'/' p ≡ true
        → IsPathOnly scheme body

  -- How the text before the query stands in a URL: a URL with a scheme is opaque where the text begins with no
  -- slash; `//` is before an authority, unless there is no scheme and a third slash follows; else all is the path.
  -- What a form does not give is empty.
  pub data IsPrinted (u : NetUrl) : Bytes → Type 0 where
    rootless :
        (body : Bytes)
        → starts_in b'/' body ≡ false
        → u.scheme ≢ []
        → u.opaque ≡ body
        → (u.user_info ≡ none) × (u.host ≡ []) × (u.path ≡ []) × (u.raw_path ≡ [])
        → IsPrinted u body
    with_host :
        (a p body : Bytes)
        → body ≡ b'/' ∷ b'/' ∷ (a ++ p)
        → contains b'/' a ≡ false
        → p ≡ [] ⊎ starts_in b'/' p ≡ true
        → u.scheme ≢ [] ⊎ starts_in b'/' (a ++ p) ≡ false
        → parse_authority a ≡ some (u.user_info, u.host)
        → set_path p ≡ some (u.path, u.raw_path)
        → u.opaque ≡ []
        → IsPrinted u body
    only_path :
        (body : Bytes)
        → IsPathOnly u.scheme body
        → set_path body ≡ some (u.path, u.raw_path)
        → (u.opaque ≡ []) × (u.user_info ≡ none) × (u.host ≡ [])
        → IsPrinted u body

  -- What the parts that do not change are.
  abbrev Kept : (u v : NetUrl) → Type 0
  Kept u v = (v.scheme ≡ u.scheme) × (v.force_query ≡ u.force_query) × (v.raw_query ≡ u.raw_query)

  -- Only the scheme and the query are set.
  abbrev IsBare : NetUrl → Type 0
  IsBare u =
      (u.opaque ≡ []) × (u.user_info ≡ none) × (u.host ≡ []) × (u.path ≡ []) × (u.raw_path ≡ [])
