-- ===== src/Url/Parsing.antt =====
-- url.go: `parse` and `ParseURL`. `getScheme`, `parseAuthority`, `setPath`, `setFragment` and
-- `url.URL.Query` are those of net/url, parameters here.
pub mod Query
pub mod Printed
pub mod Accepted
use lib_sager_net_core.Common.{
  ℕ, ◌+◌, ◌-◌, ◌≡◌, Bool, true, false, not, ◌&&◌, ◌||◌, Option, none, some, List, [], ◌∷◌, ◌++◌,
  map, if◌then◌else◌, ◌⊎◌, inl, inr, length, take, drop, ◌==◌, bytes_eq,
}
use lib_sager_net_core.Common.Text.{lower}
use lib_sager_net_core.Url.{Bytes, UserInfo, NetUrl, new_url}

-- `strings.Contains`, `strings.Count` and `strings.HasSuffix` for one byte.
abbrev pub contains : ℕ → Bytes → Bool
contains c [] = false
contains c (x ∷ xs) = x == c || contains c xs

abbrev pub count_of : ℕ → Bytes → ℕ
count_of c [] = 0
count_of c (x ∷ xs) = (if x == c then 1 else 0) + count_of c xs

abbrev pub ends_in : ℕ → Bytes → Bool
ends_in c [] = false
ends_in c (x ∷ []) = x == c
ends_in c (x ∷ y ∷ xs) = ends_in c (y ∷ xs)

abbrev pub starts_in : ℕ → Bytes → Bool
starts_in c [] = false
starts_in c (x ∷ xs) = x == c

-- `strings.Cut` at one byte.
unfoldable pub cut : ℕ → Bytes → Bytes × Bytes
cut sep [] = ([], [])
cut sep (x ∷ xs) = let r = cut sep xs in if x == sep then ([], xs) else (x ∷ r.0, r.1)

-- What stands before the first such byte, and the rest from it.
unfoldable pub span_until : ℕ → Bytes → Bytes × Bytes
span_until sep [] = ([], [])
span_until sep (x ∷ xs) =
    let r = span_until sep xs in if x == sep then ([], x ∷ xs) else (x ∷ r.0, r.1)

-- The part of `parse` on the query: what stands before it, the query, and `ForceQuery`.
unfoldable pub split_query : Bytes → Bytes × Bytes × Bool
unfolding cut
split_query rest =
    if ends_in b'?' rest && count_of b'?' rest == 1
    then (take (length rest - 1) rest, [], true)
    else let r = cut b'?' rest in (r.0, r.1, false)

pub data ParseError : Type 0 where
  bad_scheme : ParseError
  colon_in_segment : ParseError
  bad_authority : ParseError
  bad_path : ParseError

-- The test of `parse` for an authority.
unfoldable pub has_authority : (scheme rest : Bytes) → Bool
has_authority scheme rest =
    (not (bytes_eq scheme []) || not (bytes_eq (take 3 rest) (b'/' ∷ b'/' ∷ b'/' ∷ [])))
    && bytes_eq (take 2 rest) (b'/' ∷ b'/' ∷ [])

module _ (get_scheme : Bytes → Option (Bytes × Bytes))
    (parse_authority : Bytes → Option (Option UserInfo × Bytes))
    (set_path : Bytes → Option (Bytes × Bytes)) where
  -- The end of `parse`, with the authority and the rest: `setPath`.
  unfoldable pub with_path : NetUrl → Bytes → ParseError ⊎ NetUrl
  with_path u rest = elim (set_path rest) [
    | none ↦ inl bad_path
    | some (p, raw) ↦ inr (record u { path = p; raw_path = raw })
  ]

  unfoldable pub with_authority : NetUrl → Bytes → ParseError ⊎ NetUrl
  unfolding with_path span_until has_authority
  with_authority u rest =
      let (authority, after) = span_until b'/' (drop 2 rest) in
      if has_authority u.scheme rest
      then elim (parse_authority authority) [
        | none ↦ inl bad_authority
        | some (info, h) ↦ with_path (record u { user_info = info; host = h }) after
      ]
      else with_path u rest

  -- `parse` once the scheme and the query are off.
  unfoldable pub parse_body : NetUrl → Bytes → ParseError ⊎ NetUrl
  unfolding with_authority cut
  parse_body u rest =
      if starts_in b'/' rest
      then with_authority u rest
      else if not (bytes_eq u.scheme [])
      then inr (record u { opaque = rest })
      else if contains b':' (cut b'/' rest).0
      then inl colon_in_segment
      else with_authority u rest

  -- `parse`
  unfoldable pub parse : Bytes → ParseError ⊎ NetUrl
  unfolding parse_body split_query
  parse raw =
      if bytes_eq raw (b'*' ∷ [])
      then inr (record (new_url []) { path = b'*' ∷ [] })
      else elim (get_scheme raw) [
        | none ↦ inl bad_scheme
        | some (s, rest) ↦
            let (body, q, force) = split_query rest in
            parse_body (record (new_url (map lower s)) { force_query = force; raw_query = q }) body
      ]

  module _ (set_fragment : Bytes → Option (Bytes × Bytes))
      (query : Bytes → List (Bytes × Bytes)) where
    -- `SetRawFragment` and `ParseURL`; `none` is their error.
    pub set_raw_fragment : Bytes → NetUrl → Option NetUrl
    set_raw_fragment f u = elim (set_fragment f) [
      | none ↦ none
      | some (t, raw) ↦ some (record u { fragment = t; raw_fragment = raw })
    ]

    pub parse_url : Bytes → Option NetUrl
    unfolding parse cut set_raw_fragment
    parse_url raw =
        let (ru, frag) = cut b'#' raw in
        elim (parse ru) [
          | inl _ ↦ none
          | inr u ↦
              let read = record u { values = query u.raw_query } in
              if bytes_eq frag [] then some read else set_raw_fragment frag read
        ]
