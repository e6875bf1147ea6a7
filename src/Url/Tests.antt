-- ===== src/Url/Tests.antt =====
-- Runs of the URL parser and its setters, with net/url's parts for plain texts.
use lib_sager_net_core.Common.{
  ◌≡◌, refl, inr, drop, replicate, true, false, Option, none, some, [], ◌∷◌, map, if◌then◌else◌,
}
use lib_sager_net_core.Common.Int.{ℤ, pos, negsuc}
use lib_sager_net_core.Common.Text.{codes}
use lib_sager_net_core.Url.{Bytes, UserInfo, NetUrl, new_url}
use lib_sager_net_core.Url.Parsing.{contains, cut, split_query, starts_in, parse, parse_body}
use lib_sager_net_core.Url.Parsing.Printed.{parse-query_text}
use lib_sager_net_core.Url.Hosts.{join_host_port, set_port}

-- `getScheme` where the text has a colon.
abbrev scheme_of : Bytes → Option (Bytes × Bytes)
scheme_of raw = some (cut b':' raw)

abbrev authority_of : Bytes → Option (Option UserInfo × Bytes)
authority_of a = some (none, a)

abbrev path_of : Bytes → Option (Bytes × Bytes)
path_of p = some (p, [])

abbrev sample : Bytes
sample = codes "Vmess://h:1/p?a=b"

abbrev parsed : NetUrl
parsed = record {
  scheme = codes "vmess";
  opaque = [];
  user_info = none;
  host = codes "h:1";
  path = codes "/p";
  raw_path = [];
  force_query = false;
  raw_query = codes "a=b";
  fragment = [];
  raw_fragment = [];
  values = [];
}

sample_scheme : scheme_of sample ≡ some (codes "Vmess", codes "//h:1/p?a=b")
unfolding cut
sample_scheme = refl

parse-query_text_example : parse scheme_of authority_of path_of sample ≡ inr parsed
parse-query_text_example =
    parse-query_text scheme_of authority_of path_of sample b'V' (codes "mess") (codes "h:1")
      (codes "/p") (codes "a=b") false none (codes "h:1") (codes "/p") [] (λ e. cc) sample_scheme
      refl (inr refl) refl tt refl refl

-- An empty query is forced, a rootless text is opaque, and a fragment is taken off first.
test-parse :
    parse scheme_of authority_of path_of (codes "a:b?")
    ≡ inr (record (new_url (codes "a")) { opaque = codes "b"; force_query = true })
unfolding parse parse_body split_query cut
test-parse = refl

-- `SplitHostPort` for what `JoinHostPort` gives.
abbrev after_bracket : Bytes × Bytes → Option (Bytes × Bytes)
after_bracket (h, []) = none
after_bracket (h, _ ∷ p) = some (h, p)

split_text : Bytes → Option (Bytes × Bytes)
split_text t =
    if starts_in b'[' t
    then after_bracket (cut b']' (drop 1 t))
    else if contains b':' t
    then some (cut b':' t)
    else none

abbrev written : ℤ → Bytes
written (pos n) = replicate n b'1'
written (negsuc n) = b'-' ∷ replicate n b'1'

-- A port is added to a name, replaced, and added to an address in brackets.
test-set_port :
    map
      (λ h.
        (set_port split_text written
          (pos 2)
          (record (new_url (codes "vmess")) { host = codes h })).host)
      ("a.b" ∷ "a.b:1" ∷ "[::1]" ∷ [])
    ≡ codes "a.b:11" ∷ codes "a.b:11" ∷ codes "[[::1]]:11" ∷ []
unfolding set_port join_host_port split_text cut
test-set_port = refl
