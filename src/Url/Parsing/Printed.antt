-- ===== src/Url/Parsing/Printed.antt =====
-- url.go: `parse` of a printed URL gives its parts.
use lib_sager_net_core.Common.{
  ℕ, ◌≡◌, ◌≢◌, refl, ap, ◌∙◌, ◌⊎◌, inr, Bool, true, false, Option, some, [], ◌∷◌, ◌++◌, map, drop,
  bytes_eq, bytes_eq_iff, arith,
}
use lib_sager_net_core.Common.Text.{lower}
use lib_sager_net_core.Url.{Bytes, UserInfo, NetUrl, new_url}
use lib_sager_net_core.Url.Parsing.{
  contains, starts_in, span_until, split_query, has_authority, with_path, with_authority,
  parse_body, parse,
}
use lib_sager_net_core.Url.Parsing.Query.{query_text, IsQuery, split_query-join, span_until-append}

bytes_eq-of_ne : (xs ys : Bytes) → xs ≢ ys → bytes_eq xs ys ≡ false
bytes_eq-of_ne xs ys h = ground (arith, bytes_eq_iff xs ys)

module _ (get_scheme : Bytes → Option (Bytes × Bytes))
    (parse_authority : Bytes → Option (Option UserInfo × Bytes))
    (set_path : Bytes → Option (Bytes × Bytes)) where
  pub parse-scheme :
      (raw s rest : Bytes)
      → raw ≢ b'*' ∷ []
      → get_scheme raw ≡ some (s, rest)
      → parse get_scheme parse_authority set_path raw
        ≡ parse_body get_scheme parse_authority set_path
            (record (new_url (map lower s)) {
              force_query = (split_query rest).2;
              raw_query = (split_query rest).1;
            })
            (split_query rest).0
  unfolding parse
  parse-scheme raw s rest h e = rw (bytes_eq-of_ne raw (b'*' ∷ []) h, e) refl

  with_path-of_some :
      (u : NetUrl) (rest p raw : Bytes)
      → set_path rest ≡ some (p, raw)
      → with_path get_scheme parse_authority set_path u rest
        ≡ inr (record u { path = p; raw_path = raw })
  unfolding with_path
  with_path-of_some u rest p raw e = ground (arith, e)

  pub with_authority-of_some :
      (u : NetUrl) (rest : Bytes) (info : Option UserInfo) (h : Bytes)
      → has_authority u.scheme rest ≡ true
      → parse_authority (span_until b'/' (drop 2 rest)).0 ≡ some (info, h)
      → with_authority get_scheme parse_authority set_path u rest
        ≡ with_path get_scheme parse_authority set_path
            (record u { user_info = info; host = h })
            (span_until b'/' (drop 2 rest)).1
  unfolding with_authority
  with_authority-of_some u rest info h k e = rw (k, e) refl

  pub with_authority-of_false :
      (u : NetUrl) (rest : Bytes)
      → has_authority u.scheme rest ≡ false
      → with_authority get_scheme parse_authority set_path u rest
        ≡ with_path get_scheme parse_authority set_path u rest
  unfolding with_authority
  with_authority-of_false u rest k = rw k refl

  with_authority-parts :
      (u : NetUrl) (a p : Bytes) (info : Option UserInfo) (h path raw : Bytes)
      → u.scheme ≢ []
      → contains b'/' a ≡ false
      → p ≡ [] ⊎ starts_in b'/' p ≡ true
      → parse_authority a ≡ some (info, h)
      → set_path p ≡ some (path, raw)
      → parse_body get_scheme parse_authority set_path u (b'/' ∷ b'/' ∷ (a ++ p))
        ≡ inr (record u { user_info = info; host = h; path = path; raw_path = raw })
  unfolding parse_body has_authority
  with_authority-parts u a p info h path raw es ha hp ea ep =
      let span : span_until b'/' (a ++ p) ≡ (a, p) = span_until-append b'/' a p ha hp in
      with_authority-of_some u (b'/' ∷ b'/' ∷ (a ++ p)) info h
        (ground (arith, bytes_eq_iff u.scheme []))
        (ap (λ (r : Bytes × Bytes). parse_authority r.0) span ∙ ea)
      ∙ with_path-of_some (record u { user_info = info; host = h }) (span_until b'/' (a ++ p)).1
          path raw (ap (λ (r : Bytes × Bytes). set_path r.1) span ∙ ep)

  -- For a text other than `*`, of which `getScheme` takes off a non-empty scheme and leaves `//`, an authority
  -- with no slash, a path that is empty or begins with one, and a query as it is printed, where neither
  -- authority nor path has a question mark and net/url accepts both: `parse` gives the scheme in lower case,
  -- what net/url reads of the authority and the path, the query and whether it is forced, and nothing else.
  pub parse-query_text :
      (raw : Bytes) (c : ℕ) (s a p q : Bytes) (force : Bool) (info : Option UserInfo)
      (h path raw_path : Bytes)
      → raw ≢ b'*' ∷ []
      → get_scheme raw ≡ some (c ∷ s, (b'/' ∷ b'/' ∷ (a ++ p)) ++ query_text force q)
      → contains b'/' a ≡ false
      → p ≡ [] ⊎ starts_in b'/' p ≡ true
      → contains b'?' (a ++ p) ≡ false
      → IsQuery force q
      → parse_authority a ≡ some (info, h)
      → set_path p ≡ some (path, raw_path)
      → parse get_scheme parse_authority set_path raw
        ≡ inr (record {
          scheme = map lower (c ∷ s);
          opaque = [];
          user_info = info;
          host = h;
          path = path;
          raw_path = raw_path;
          force_query = force;
          raw_query = q;
          fragment = [];
          raw_fragment = [];
          values = [];
        })
  parse-query_text raw c s a p q force info h path raw_path hr es ha hp hq hf ea ep =
      let split : split_query ((b'/' ∷ b'/' ∷ (a ++ p)) ++ query_text force q)
          ≡ (b'/' ∷ b'/' ∷ (a ++ p), q, force) =
        split_query-join (b'/' ∷ b'/' ∷ (a ++ p)) q force hq hf in
      parse-scheme raw (c ∷ s) ((b'/' ∷ b'/' ∷ (a ++ p)) ++ query_text force q) hr es
      ∙ ap
          (λ (r : Bytes × Bytes × Bool).
            parse_body get_scheme parse_authority set_path
              (record (new_url (map lower (c ∷ s))) { force_query = r.2; raw_query = r.1 }) r.0)
          split
      ∙ with_authority-parts
          (record (new_url (map lower (c ∷ s))) { force_query = force; raw_query = q }) a p info h
          path raw_path (λ e. cc) ha hp ea ep
