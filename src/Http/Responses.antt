-- ===== src/Http/Responses.antt =====
-- http.go: what a request leaves of its response, the pinned certificate, and the connections of the dialer.
use lib_sager_net_core.Common.{
  ℕ, zero, suc, ◌≡◌, ◌≢◌, ◌↔◌, ◌⊎◌, refl, sym, ap, ◌∙◌, Bool, true, false, some, List, [], ◌∷◌,
  ◌++◌, if◌then◌else◌, ◌==◌, bytes_eq_iff, arith,
}
use mathlib.Core.List.{append-nil}
use lib_sager_net_core.Http.{
  Bytes, verify_pinned, Body, HttpResponse, new_response, get_content, get_content_string,
  error_string, refused, response, execute,
}

-- A certificate of the chain has the sum.
abbrev pub HasPinned : (sum_text : Bytes → Bytes) → (sum_hex : Bytes) → List Bytes → Type 0
HasPinned sum_text sum_hex [] = ⊥
HasPinned sum_text sum_hex (raw ∷ raw_certs) =
    (sum_hex ≡ sum_text raw) ⊎ HasPinned sum_text sum_hex raw_certs

-- The pinned sum is accepted exactly when it is the sum of a certificate that the peer sent, whichever.
pub verify_pinned-HasPinned :
    (sum_text : Bytes → Bytes) (sum_hex : Bytes) (raw_certs : List Bytes)
    → (verify_pinned sum_text sum_hex raw_certs ≡ true) ↔ HasPinned sum_text sum_hex raw_certs
unfolding verify_pinned
verify_pinned-HasPinned sum_text sum_hex [] = (λ h. absurd (cc h), λ h. absurd h)
verify_pinned-HasPinned sum_text sum_hex (raw ∷ raw_certs) =
    ground (
      arith,
      verify_pinned-HasPinned sum_text sum_hex raw_certs,
      bytes_eq_iff sum_hex (sum_text raw),
    )

-- `GetContent`, called a number of times: the last answer, and the response after it.
pub get_content_after : (calls : ℕ) → HttpResponse → (Bytes × Bool) × HttpResponse
get_content_after zero h = get_content h
get_content_after (suc n) h = get_content_after n (get_content h).1

get_content-done :
    (h : HttpResponse) → h.done ≡ true → get_content h ≡ ((h.content, h.content_failed), h)
unfolding get_content
get_content-done h e = ground (arith, e)

get_content_after-done :
    (n : ℕ) (h : HttpResponse)
    → h.done ≡ true
    → get_content_after n h ≡ ((h.content, h.content_failed), h)
unfolding get_content_after
get_content_after-done zero h e = get_content-done h e
get_content_after-done (suc n) h e =
    ap (λ (r : (Bytes × Bool) × HttpResponse). get_content_after n r.1) (get_content-done h e)
    ∙ get_content_after-done n h e

-- However often the content of a new response is asked for, each answer is what its body holds and whether the
-- reading failed, and the body is closed once.
pub get_content_closes_once :
    (n code : ℕ) (text : Bytes) (body : Body)
    → let r = get_content_after n (new_response code text body) in
      (r.0 ≡ (body.bytes, body.fails)) × (r.1.body.closed ≡ suc body.closed)
unfolding get_content_after get_content
get_content_closes_once zero code text body = (refl, refl)
get_content_closes_once (suc n) code text body =
    let read : HttpResponse = record {
      status_code = code;
      status = text;
      body = record body { closed = suc body.closed };
      done = true;
      content = body.bytes;
      content_failed = body.fails;
    } in
    let e = get_content_after-done n read refl in
    (
      ap (λ (r : (Bytes × Bool) × HttpResponse). r.0) e,
      ap (λ (r : (Bytes × Bool) × HttpResponse). r.1.body.closed) e,
    )

error_string-text :
    (code : ℕ) (text bytes : Bytes) (fails : Bool) (closed : ℕ)
    → (error_string
        (new_response code text (record { bytes = bytes; fails = fails; closed = closed }))).0
      ≡ b'H' ∷ b'T' ∷ b'T' ∷ b'P' ∷ b' ' ∷ (text ++ (if fails then [] else b':' ∷ b' ' ∷ bytes))
unfolding error_string get_content_string get_content
error_string-text code text bytes true closed =
    ap (λ (t : Bytes). b'H' ∷ b'T' ∷ b'T' ∷ b'P' ∷ b' ' ∷ t) (sym (append-nil text))
error_string-text code text bytes false closed = refl

test_of_ne : (a b : ℕ) → a ≢ b → a == b ≡ false
test_of_ne a b h = ground arith

test_of_eq : (a b : ℕ) → a ≡ b → a == b ≡ true
test_of_eq a b h = ground arith

-- A new response with the status 200 is given as it is, its body unread and open. With any other status the
-- request is refused, with the status, and the content where it could be read, as the error's text, and the
-- body is closed.
pub execute_status :
    (code : ℕ) (text : Bytes) (body : Body)
    → let r = execute (some (new_response code text body)) in
      (code ≡ 200 → r ≡ (response, some (new_response code text body)))
      × (code ≢ 200
          → (h : HttpResponse) × (r.1 ≡ some h)
            × (h.body.closed ≡ suc body.closed)
            × (r.0
                ≡ refused (
                    b'H'
                    ∷ b'T'
                    ∷ b'T'
                    ∷ b'P'
                    ∷ b' '
                    ∷ (text ++ (if body.fails then [] else b':' ∷ b' ' ∷ body.bytes)))))
unfolding execute error_string get_content_string get_content
execute_status code text body = (
  λ e. rw (test_of_eq code 200 e) refl,
  λ e. rw (test_of_ne code 200 e) (
    record {
      status_code = code;
      status = text;
      body = record body { closed = suc body.closed };
      done = true;
      content = body.bytes;
      content_failed = body.fails;
    },
    refl,
    refl,
    ap refused (error_string-text code text body.bytes body.fails body.closed),
  ),
)
