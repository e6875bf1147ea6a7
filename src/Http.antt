-- ===== src/Http.antt =====
-- http.go: the dialer with a local proxy, the pinned certificate, requests and responses. net/http, the hash of
-- a certificate and its text are parameters, what the network answers is an argument.
pub mod Responses
pub mod Client
mod Tests
use lib_sager_net_core.Common.{
  ℕ, suc, ◌+◌, Bool, true, false, not, Option, none, some, List, [], ◌∷◌, ◌++◌, if◌then◌else◌, ◌==◌,
  bytes_eq,
}

abbrev pub Bytes : Type 0
Bytes = List ℕ

-- The loop of `PinnedSHA256`: whether a certificate has the sum. `sum_text` is
-- `hex.EncodeToString(sha256.Sum256(…))`.
unfoldable pub verify_pinned :
    (sum_text : Bytes → Bytes) → (sum_hex : Bytes) → (raw_certs : List Bytes) → Bool
verify_pinned sum_text sum_hex [] = false
verify_pinned sum_text sum_hex (raw ∷ raw_certs) =
    let rest = verify_pinned sum_text sum_hex raw_certs in
    if bytes_eq sum_hex (sum_text raw) then true else rest

-- What `DialContext` of `TrySocks5` does, in order; connections are numbers.
pub data DialEffect : Type 0 where
  dial_proxy : DialEffect
  handshake : (conn : ℕ) → DialEffect
  dial_direct : DialEffect

-- `DialContext`: what the dial of the proxy, the handshake and the direct dial give.
unfoldable pub dial_context :
    (proxy : Option ℕ) (shakes : Bool) (direct : Option ℕ) → List DialEffect × Option ℕ
dial_context none shakes direct = (dial_proxy ∷ dial_direct ∷ [], direct)
dial_context (some conn) shakes direct =
    if shakes
    then (dial_proxy ∷ handshake conn ∷ [], some conn)
    else (dial_proxy ∷ handshake conn ∷ dial_direct ∷ [], direct)

-- A body: what reading it to its end gives, with an error or not, and how often it was closed.
pub record Body : Type 0 where
  pub bytes : Bytes
  pub fails : Bool
  pub closed : ℕ

-- `httpResponse`; `done` is the state of `getContentOnce`.
pub record HttpResponse : Type 0 where
  pub status_code : ℕ
  pub status : Bytes
  pub body : Body
  pub done : Bool
  pub content : Bytes
  pub content_failed : Bool

abbrev pub new_response : (status_code : ℕ) (status : Bytes) → Body → HttpResponse
new_response code text body = record {
  status_code = code;
  status = text;
  body = body;
  done = false;
  content = [];
  content_failed = false;
}

-- `GetContent`: the content and whether there was an error, and the response after it.
unfoldable pub get_content : HttpResponse → (Bytes × Bool) × HttpResponse
get_content h = if h.done then ((h.content, h.content_failed), h) else (
  (h.body.bytes, h.body.fails),
  record h {
    body = record (h.body) { closed = suc h.body.closed };
    done = true;
    content = h.body.bytes;
    content_failed = h.body.fails;
  },
)

-- `GetContentString`; `none` is its error.
unfoldable pub get_content_string : HttpResponse → Option Bytes × HttpResponse
unfolding get_content
get_content_string h =
    let ((bytes, failed), h') = get_content h in (if failed then none else some bytes, h')

-- `errorString`
unfoldable pub error_string : HttpResponse → Bytes × HttpResponse
unfolding get_content_string
error_string h =
    let (text, h') = get_content_string h in
    let http = b'H' ∷ b'T' ∷ b'T' ∷ b'P' ∷ b' ' ∷ h.status in
    (elim text [ none ↦ http | some content ↦ http ++ (b':' ∷ b' ' ∷ content) ], h')

-- What `Execute` gives.
pub data Executed : Type 0 where
  not_done : Executed
  refused : (text : Bytes) → Executed
  response : Executed

-- `Execute`, from what the client answers; with the response as it is left.
unfoldable pub execute : Option HttpResponse → Executed × Option HttpResponse
unfolding error_string
execute none = (not_done, none)
execute (some h) =
    let (text, h') = error_string h in
    if not (h.status_code == 200) then (refused text, some h') else (response, some h)

-- `SetURL`, from what `url.Parse` gives: a URL with its user or none. `none` is a panic: on an error the URL is
-- nil, and its user is read.
unfoldable pub set_url :
    (parsed : Option (Option (Bytes × Option Bytes))) → Option (Option (Bytes × Bytes))
set_url none = none
set_url (some none) = some none
set_url (some (some (user, none))) = some (some (user, []))
set_url (some (some (user, some password))) = some (some (user, password))
