-- ===== src/Dns.antt =====
-- dns.go: the query that is encoded, the response that is decoded, and the resolver of the platform
-- behind v2ray's `localdns`. The codec of package `dnsmessage` is a parameter: a query is the fields that
-- the code sets, a response is what the parser answers, in order.
pub mod Answers
pub mod Lookup
pub mod System
mod Tests
use lib_sager_net_core.Common.{
  ℕ, Bool, true, false, not, Option, none, some, List, [], ◌∷◌, ◌++◌, if◌then◌else◌, ◌==◌, ◌%◌, ◌-◌,
  map,
}
use lib_sager_net_core.Common.Int.{ℤ, pos, negsuc}

-- `comm.IPv6Disable`, `comm.IPv6Only`
abbrev pub ipv6_disable : ℕ
ipv6_disable = 0

abbrev pub ipv6_only : ℕ
ipv6_only = 3

pub data RecordType : Type 0 where
  type_a type_aaaa : RecordType

-- `dnsmessage.Message`, as far as the code sets it.
pub record Query (Name : Type 0) : Type 0 where
  pub id : ℕ
  pub recursion_desired : Bool
  pub questions : List (Name × RecordType)

-- Whether a text ends in a dot.
pub ends_in_dot : List ℕ → Bool
ends_in_dot [] = false
ends_in_dot (c ∷ []) = c == b'.'
ends_in_dot (c ∷ d ∷ s) = ends_in_dot (d ∷ s)

pub qualified : List ℕ → List ℕ
unfolding ends_in_dot
qualified domain = if ends_in_dot domain then domain else domain ++ b'.' ∷ []

-- `uint16(id)` of an `int32`
abbrev pub id_of : ℤ → ℕ
id_of (pos n) = n % 65536
id_of (negsuc n) = 65535 - n % 65536

pub questions_of : {Name : Type 0} → Name → (ipv6_mode : ℕ) → List (Name × RecordType)
questions_of name mode =
    (if mode == ipv6_only then [] else (name, type_a) ∷ [])
    ++ (if mode == ipv6_disable then [] else (name, type_aaaa) ∷ [])

-- `EncodeDomainNameSystemQuery` up to `Pack`; `new_name` is `dnsmessage.NewName`.
pub encode_query :
    {Name : Type 0}
    → (new_name : List ℕ → Option Name) → ℤ
    → List ℕ
    → (ipv6_mode : ℕ) → Option (Query Name)
unfolding qualified questions_of
encode_query new_name id domain mode = elim (new_name (qualified domain)) [
  | none ↦ none
  | some name ↦
      some (record { id = id_of id; recursion_desired = true; questions = questions_of name mode })
]

-- One answer of the section, by its header's type: the address that `AResource` or `AAAAResource` gives,
-- `none` for an error; or whether `SkipAnswer` succeeds. An address is its text.
pub data Answer : Type 0 where
  a_answer aaaa_answer : Option (List ℕ) → Answer
  other_answer : (skips : Bool) → Answer

pub data DecodeError : Type 0 where
  start_failed questions_failed header_failed a_failed aaaa_failed skip_failed : DecodeError
  rcode_error : ℕ → DecodeError

-- What the parser answers: `Start` with the response's code, `SkipAllQuestions`, the answers, and
-- whether `AnswerHeader` ends with `ErrSectionDone`.
pub record Response : Type 0 where
  pub rcode : Option ℕ
  pub questions_skip : Bool
  pub answers : List Answer
  pub section_done : Bool

abbrev pub Decoded : Type 0
Decoded = List ℕ × Option DecodeError

-- The loop, with the text so far. The text is a named result, which an error is returned with.
pub decode_answers : (done : Bool) → List ℕ → List Answer → Decoded
decode_answers done text [] = (text, if done then none else some header_failed)
decode_answers done text (a_answer none ∷ rest) = (text, some a_failed)
decode_answers done text (a_answer (some ip) ∷ rest) = decode_answers done (text ++ b' ' ∷ ip) rest
decode_answers done text (aaaa_answer none ∷ rest) = (text, some aaaa_failed)
decode_answers done text (aaaa_answer (some ip) ∷ rest) =
    decode_answers done (text ++ b' ' ∷ ip) rest
decode_answers done text (other_answer true ∷ rest) = decode_answers done text rest
decode_answers done text (other_answer false ∷ rest) = (text, some skip_failed)

-- `DecodeContentDomainNameSystemResponse`
pub decode_response : Response → Decoded
unfolding decode_answers
decode_response r = elim r.rcode [
  | none ↦ ([], some start_failed)
  | some code ↦
      if code == 0
      then (if r.questions_skip
          then decode_answers r.section_done [] r.answers
          else ([], some questions_failed))
      else ([], some (rcode_error code))
]

-- `strings.Split(_, "\n")`
pub split_lines : List ℕ → List (List ℕ)
split_lines [] = [] ∷ []
split_lines (c ∷ s) =
    let rest = split_lines s in
    if c == 10 then [] ∷ rest else elim rest [ [] ↦ (c ∷ []) ∷ [] | l ∷ ls ↦ (c ∷ l) ∷ ls ]

pub filter : {A : Type 0} → (A → Bool) → List A → List A
filter p [] = []
filter p (x ∷ xs) = let rest = filter p xs in if p x then x ∷ rest else rest

-- `dns.RCodeError` and `syscall.Errno`
pub data QueryError : Type 0 where
  rcode_failure errno_failure : ℕ → QueryError

-- `QueryContext`: what the resolver has reported. An IP is nil where `net.ParseIP` fails.
pub record QueryContext (Ip : Type 0) : Type 0 where
  pub message : List ℕ
  pub ips : List (Option Ip)
  pub error : Option QueryError

-- What a resolver does with the query before it returns: `Success`, `RawSuccess`, `ErrorCode`, `Errno`.
pub data Report : Type 0 where
  success raw_success : List ℕ → Report
  error_code errno : ℕ → Report

pub data LookupError : Type 0 where
  -- the error that the resolver returns, or the one that it reports
  returned : ℕ → LookupError
  reported : QueryError → LookupError
  empty_response : LookupError

-- `common.IsNotBlank` and `net.ParseIP` are parameters.
module _ {Ip : Type 0} (is_not_blank : List ℕ → Bool) (parse_ip : List ℕ → Option Ip) where
  pub report : Report → QueryContext Ip → QueryContext Ip
  unfolding filter split_lines
  report (success result) q = record q {
    ips = map parse_ip (filter is_not_blank (split_lines result));
  }
  report (raw_success bytes) q = record q { message = bytes }
  report (error_code n) q = record q { error = some (rcode_failure n) }
  report (errno n) q = record q { error = some (errno_failure n) }

  pub reports : List Report → QueryContext Ip → QueryContext Ip
  unfolding report
  reports [] q = q
  reports (r ∷ rs) q = reports rs (report r q)

  abbrev pub new_query : QueryContext Ip
  new_query = record { message = []; ips = []; error = none }

  -- The task of `Lookup`: the reports of the resolver, and the error that it returns.
  pub lookup : List Report → (err : Option ℕ) → List (Option Ip) × Option LookupError
  unfolding reports
  lookup rs err =
      let q = reports rs new_query in
      elim err [
        | some e ↦ ([], some (returned e))
        | none ↦ elim q.error [
          | some e ↦ ([], some (reported e))
          | none ↦ (q.ips, elim q.ips [ [] ↦ some empty_response | _ ∷ _ ↦ none ])
        ]
      ]

  -- The task of `ExchangeRaw`, with `none` for no response.
  pub exchange_raw : List Report → (err : Option ℕ) → Option (List ℕ) × Option LookupError
  unfolding reports
  exchange_raw rs err =
      let q = reports rs new_query in
      elim err [
        | some e ↦ (none, some (returned e))
        | none ↦ elim q.error [ some e ↦ (none, some (reported e)) | none ↦ (some q.message, none) ]
      ]
