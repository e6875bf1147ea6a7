-- ===== src/Http/Client.antt =====
-- http.go: the settings of a client and of a request, and `WriteTo`. The cipher suites of crypto/tls and the header
-- of net/http are parameters.
use lib_sager_net_core.Common.{
  ℕ, ◌%◌, ◌≤◌, ◌≡◌, ◌≢◌, ◌↔◌, refl, Bool, true, false, ◌||◌, ◌&&◌, not, Option, none, some, List,
  [], ◌∷◌, ◌++◌, map, length, if◌then◌else◌, ◌==◌, arith,
}
use lib_sager_net_core.Common.Text.{codes}
use lib_sager_net_core.Common.Int.{ℤ}
use lib_sager_net_core.Http.{Bytes}

-- `tls.VersionTLS12` and `tls.VersionTLS13`
abbrev pub tls12 : ℕ
tls12 = 0x303

abbrev pub tls13 : ℕ
tls13 = 0x304

-- `tls.CipherSuite`
pub record CipherSuite : Type 0 where
  pub id : ℕ
  pub supported_versions : List ℕ

-- `tls.Config` and `http.Transport`, as far as the code sets them; a version of 0 is none, and so is `none`.
pub record HttpClient : Type 0 where
  pub min_version : ℕ
  pub max_version : ℕ
  pub cipher_suites : Option (List ℕ)
  pub pinned_sum : Option Bytes
  pub socks_port : Option ℤ
  pub force_http2 : Bool
  pub disable_keep_alives : Bool

-- `NewHttpClient`
abbrev pub new_http_client : HttpClient
new_http_client = record {
  min_version = 0;
  max_version = 0;
  cipher_suites = none;
  pinned_sum = none;
  socks_port = none;
  force_http2 = false;
  disable_keep_alives = true;
}

-- `common.Contains`
abbrev pub supports : ℕ → List ℕ → Bool
supports v [] = false
supports v (w ∷ ws) = v == w || supports v ws

-- `common.Filter` and `common.Map` in `RestrictedTLS`
unfoldable pub suites_of_tls13 : List CipherSuite → List ℕ
suites_of_tls13 [] = []
suites_of_tls13 (s ∷ ss) =
    let rest = suites_of_tls13 ss in
    if supports tls13 s.supported_versions then s.id ∷ rest else rest

-- The calls that set something.
pub data Setting : Type 0 where
  modern_tls restricted_tls pinned_tls12 keep_alive : Setting
  pinned_sha256 : (sum_hex : Bytes) → Setting
  try_socks5 : ℤ → Setting

-- `suites` is `tls.CipherSuites()`.
module _ (suites : List CipherSuite) where
  -- `ModernTLS`, `RestrictedTLS`, `PinnedTLS12`, `PinnedSHA256`, `TrySocks5`, `KeepAlive`
  unfoldable pub set : Setting → HttpClient → HttpClient
  set modern_tls c = record c {
    min_version = tls12;
    cipher_suites = some (map (λ (s : CipherSuite). s.id) suites);
  }
  set restricted_tls c = record c {
    min_version = tls13;
    cipher_suites = some (suites_of_tls13 suites);
  }
  set pinned_tls12 c = record c { min_version = tls12; max_version = tls12 }
  set (pinned_sha256 sum_hex) c = record c { pinned_sum = some sum_hex }
  set (try_socks5 port) c = record c { socks_port = some port }
  set keep_alive c = record c { force_http2 = true; disable_keep_alives = false }

  unfoldable pub set_all : List Setting → HttpClient → HttpClient
  set_all [] c = c
  set_all (s ∷ ss) c = set_all ss (set s c)

-- Whether the last call for the cipher suites, of `RestrictedTLS` and `ModernTLS`, was `RestrictedTLS`, given whether
-- it was before, and whether there was a call of `PinnedTLS12`.
abbrev pub restricted_last : List Setting → Bool → Bool
restricted_last [] before = before
restricted_last (restricted_tls ∷ ss) before = restricted_last ss true
restricted_last (modern_tls ∷ ss) before = restricted_last ss false
restricted_last (_ ∷ ss) before = restricted_last ss before

abbrev pub ever_pinned : List Setting → Bool → Bool
ever_pinned [] before = before
ever_pinned (pinned_tls12 ∷ ss) before = ever_pinned ss true
ever_pinned (_ ∷ ss) before = ever_pinned ss before

-- Whether one of the suites is for TLS 1.2, and is among some numbers.
abbrev pub any_tls12 : List CipherSuite → List ℕ → Bool
any_tls12 [] ids = false
any_tls12 (s ∷ ss) ids =
    (supports tls12 s.supported_versions && supports s.id ids) || any_tls12 ss ids

-- Whether a client can agree on a suite for TLS 1.2; without a list crypto/tls takes its own.
abbrev pub offers_tls12 : List CipherSuite → Option (List ℕ) → Bool
offers_tls12 suites none = true
offers_tls12 suites (some ids) = any_tls12 suites ids

-- Whether the client takes TLS 1.3, of which crypto/tls lets no suites be chosen, and whether it takes TLS 1.2.
abbrev pub InVersions : HttpClient → ℕ → Type 0
InVersions c v = (c.min_version ≤ v) × ((c.max_version ≢ 0) → v ≤ c.max_version)

abbrev pub Takes13 : HttpClient → Type 0
Takes13 c = InVersions c 0x304

abbrev pub Takes12 : List CipherSuite → HttpClient → Type 0
Takes12 suites c = InVersions c 0x303 × (offers_tls12 suites c.cipher_suites ≡ true)

-- Whether a suite of TLS 1.3 has a number.
abbrev pub is_tls13_id : ℕ → List CipherSuite → Bool
is_tls13_id n [] = false
is_tls13_id n (s ∷ ss) = (supports tls13 s.supported_versions && n == s.id) || is_tls13_id n ss

-- No suite of TLS 1.2 has the number of one of TLS 1.3 in the whole list.
abbrev pub separate : (whole : List CipherSuite) → List CipherSuite → Bool
separate whole [] = true
separate whole (s ∷ ss) =
    (not (supports tls12 s.supported_versions && is_tls13_id s.id whole)) && separate whole ss

abbrev pub has_tls12 : List CipherSuite → Bool
has_tls12 [] = false
has_tls12 (s ∷ ss) = supports tls12 s.supported_versions || has_tls12 ss

supports-suites_of_tls13 :
    (n : ℕ) (ss : List CipherSuite) → supports n (suites_of_tls13 ss) ≡ is_tls13_id n ss
unfolding suites_of_tls13
supports-suites_of_tls13 n [] = refl
supports-suites_of_tls13 n (s ∷ ss) = ground (arith, supports-suites_of_tls13 n ss)

any_tls12-suites_of_tls13 :
    (whole ss : List CipherSuite)
    → separate whole ss ≡ true
    → any_tls12 ss (suites_of_tls13 whole) ≡ false
any_tls12-suites_of_tls13 whole [] h = refl
any_tls12-suites_of_tls13 whole (s ∷ ss) h =
    grind (arith, supports-suites_of_tls13 s.id whole, any_tls12-suites_of_tls13 whole ss)

any_tls12_more :
    (ss : List CipherSuite) (n : ℕ) (ids : List ℕ)
    → any_tls12 ss ids ≡ true
    → any_tls12 ss (n ∷ ids) ≡ true
any_tls12_more [] n ids h = h
any_tls12_more (s ∷ ss) n ids h = grind (arith, any_tls12_more ss n ids)

any_tls12-has_tls12 :
    (ss : List CipherSuite)
    → has_tls12 ss ≡ true
    → any_tls12 ss (map (λ (s : CipherSuite). s.id) ss) ≡ true
any_tls12-has_tls12 [] h = h
any_tls12-has_tls12 (s ∷ ss) h =
    grind
      (arith, any_tls12-has_tls12 ss, any_tls12_more ss s.id (map (λ (s : CipherSuite). s.id) ss))

module _ (suites : List CipherSuite) (some12 : has_tls12 suites ≡ true)
    (apart : separate suites suites ≡ true) where
  -- The versions and the suites are those that the two facts say.
  abbrev HasVersions : (restricted pinned : Bool) → HttpClient → Type 0
  HasVersions restricted pinned c =
      (c.max_version ≡ (if pinned then tls12 else 0))
      × (c.min_version ≤ tls13)
      × (restricted ≡ false → c.min_version ≤ tls12)
      × (offers_tls12 suites c.cipher_suites ≡ not restricted)

  set_all-HasVersions :
      (ss : List Setting) (r p : Bool) (c : HttpClient)
      → HasVersions r p c
      → HasVersions (restricted_last ss r) (ever_pinned ss p) (set_all suites ss c)
  unfolding set_all set
  set_all-HasVersions [] r p c h = h
  set_all-HasVersions (restricted_tls ∷ ss) r p c (x, y, z, o) =
      set_all-HasVersions ss true p _
        (x, omega arith, λ e. cc e, any_tls12-suites_of_tls13 suites suites apart)
  set_all-HasVersions (modern_tls ∷ ss) r p c (x, y, z, o) =
      set_all-HasVersions ss false p _
        (x, omega arith, λ e. omega arith, any_tls12-has_tls12 suites some12)
  set_all-HasVersions (pinned_tls12 ∷ ss) r p c (x, y, z, o) =
      set_all-HasVersions ss r true _ (refl, omega arith, λ e. omega arith, o)
  set_all-HasVersions (keep_alive ∷ ss) r p c h = set_all-HasVersions ss r p _ h
  set_all-HasVersions (pinned_sha256 x ∷ ss) r p c h = set_all-HasVersions ss r p _ h
  set_all-HasVersions (try_socks5 x ∷ ss) r p c h = set_all-HasVersions ss r p _ h

  HasVersions-Takes :
      (r p : Bool) (c : HttpClient)
      → HasVersions r p c
      → (Takes13 c ↔ (p ≡ false)) × (Takes12 suites c ↔ (r ≡ false))
  HasVersions-Takes true true c h = ground (arith, h)
  HasVersions-Takes true false c h = ground (arith, h)
  HasVersions-Takes false true c h = ground (arith, h)
  HasVersions-Takes false false c h = ground (arith, h)

  -- If crypto/tls has a suite for TLS 1.2, and none of its suites for TLS 1.2 has the number of one for TLS 1.3: after
  -- any series of calls on a new client, it takes TLS 1.3 exactly if PinnedTLS12 was never called, and TLS 1.2, for
  -- which it also needs a suite, exactly if RestrictedTLS was never called or ModernTLS was after it. So with
  -- RestrictedTLS and then PinnedTLS12, or the other way round, it takes neither.
  pub set_all_versions :
      (ss : List Setting)
      → let c = set_all suites ss new_http_client in
        (Takes13 c ↔ (ever_pinned ss false ≡ false))
        × (Takes12 suites c ↔ (restricted_last ss false ≡ false))
  set_all_versions ss =
      HasVersions-Takes (restricted_last ss false) (ever_pinned ss false)
        (set_all suites ss new_http_client)
        (set_all-HasVersions ss false false new_http_client
          (refl, omega arith, λ e. omega arith, refl))

-- `http.Request`, as far as the code sets it; `Header` is that of net/http.
pub record HttpRequest (Header : Type 0) : Type 0 where
  pub method : Bytes
  pub header : Header
  pub body : Option Bytes
  pub content_length : ℕ

module _ {Header : Type 0} (new_header : Header) (set_in : (key value : Bytes) → Header → Header)
    (itoa : ℕ → Bytes) where
  -- `NewRequest`
  unfoldable pub new_request : HttpRequest Header
  new_request = record {
    method = codes "GET";
    header = new_header;
    body = none;
    content_length = 0;
  }

  -- `SetMethod`
  unfoldable pub set_method : Bytes → HttpRequest Header → HttpRequest Header
  set_method m r = record r { method = m }

  -- `SetHeader`
  unfoldable pub set_header : (key value : Bytes) → HttpRequest Header → HttpRequest Header
  set_header key value r = record r { header = set_in key value r.header }

  -- `SetUserAgent`
  unfoldable pub set_user_agent : Bytes → HttpRequest Header → HttpRequest Header
  set_user_agent agent = set_header (codes "User-Agent") agent

  -- `RandomUserAgent`, of what `rand.Int` gives.
  unfoldable pub random_user_agent : (a b : ℕ) → HttpRequest Header → HttpRequest Header
  random_user_agent a b = set_user_agent (codes "curl/7." ++ (itoa (a % 54) ++ b'.' ∷ itoa (b % 2)))

  -- `SetContent`
  unfoldable pub set_content : Bytes → HttpRequest Header → HttpRequest Header
  set_content content r = record r { body = some content; content_length = length content }

-- What `WriteTo` does, in order.
pub data WriteEffect : Type 0 where
  create_file copy_body release_buffer close_file close_body : WriteEffect

-- `WriteTo`: the file is made or not, and the copy ends with an error or not.
unfoldable pub write_to : (created copies : Bool) → List WriteEffect × Bool
write_to created copies =
    if created
    then (create_file ∷ copy_body ∷ release_buffer ∷ close_file ∷ close_body ∷ [], copies)
    else (create_file ∷ close_body ∷ [], false)
