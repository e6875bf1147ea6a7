-- ===== src/Api.antt =====
-- api.go: the service that tells other devices of the client's ports. The messages of package `api` are a parameter;
-- what the socket and the parser answer is an argument.
pub mod Restart
pub mod UrlTest
mod Tests
use mathlib.Core.List.{map-append}
use lib_sager_net_core.Common.{
  ℕ, suc, ◌+◌, ◌-◌, ◌%◌, ◌≡◌, ◌≤◌, refl, sym, ap, ◌∙◌, Bool, true, false, Option, none, some, List,
  [], ◌∷◌, ◌++◌, length, if◌then◌else◌, arith, map,
}

abbrev pub Bytes : Type 0
Bytes = List ℕ

-- `api.Response` without its version.
pub record Response : Type 0 where
  pub device_name : Bytes
  pub socks_port : ℕ
  pub dns_port : ℕ
  pub debug : Bool
  pub bypass_lan : Bool

-- `ApiInstance` as `NewApiInstance` makes it. The ports are not negative.
pub record ApiInstance : Type 0 where
  pub device_name : Bytes
  pub socks_port : ℕ
  pub dns_port : ℕ
  pub debug : Bool
  pub bypass_lan : Bool

-- What one read of the loop gives: an error, or where a packet came from and what `ParseQuery` makes of it: a
-- query, an error that speaks of an upgrade, or another one.
pub data Parsed : Type 0 where
  query upgrade_error parse_error : Parsed

pub data Read : Type 0 where
  read_failed : Read
  read_from : (addr : ℕ) → Parsed → Read

-- What the loop does: a message that is sent, or a line of the log.
pub data Effect (Message : Type 0) : Type 0 where
  send : (addr : ℕ) → Message → Effect Message
  warn inform : Effect Message

-- `uint16` of a port
abbrev pub uint16_of : ℕ → ℕ
uint16_of n = n % 65536

-- The two responses.
unfoldable pub response_of : ApiInstance → Response
response_of i = record {
  device_name = i.device_name;
  socks_port = uint16_of i.socks_port;
  dns_port = uint16_of i.dns_port;
  debug = i.debug;
  bypass_lan = i.bypass_lan;
}

abbrev pub upgrade_response : Response
upgrade_response = record {
  device_name = [];
  socks_port = 0;
  dns_port = 0;
  debug = false;
  bypass_lan = false;
}

-- `make` is `api.MakeResponse`, `none` for an error; `send_fails` is whether `WriteTo` gives an error.
module _ {Message : Type 0} (make : Response → Option Message) (send_fails : Message → Bool) where
  -- What follows a message that is sent, by whether that failed.
  abbrev after_send : Message → (ok : List (Effect Message)) → List (Effect Message)
  after_send m ok = if send_fails m then warn ∷ [] else ok

  -- One round of the loop.
  unfoldable pub round : ApiInstance → Read → List (Effect Message)
  round i read_failed = []
  round i (read_from addr parse_error) = warn ∷ []
  round i (read_from addr upgrade_error) = elim (make upgrade_response) [
    | none ↦ warn ∷ []
    | some m ↦ send addr m ∷ after_send m (warn ∷ [])
  ]
  round i (read_from addr query) = elim (make (response_of i)) [
    | none ↦ inform ∷ warn ∷ []
    | some m ↦ inform ∷ send addr m ∷ after_send m []
  ]

  -- The loop, over what is read while the service is started.
  unfoldable pub loop : ApiInstance → List Read → List (Effect Message)
  loop i [] = []
  loop i (r ∷ rs) = round i r ++ loop i rs

  -- The messages that are sent, with their addresses.
  abbrev pub sent : List (Effect Message) → List (ℕ × Message)
  sent [] = []
  sent (send addr m ∷ es) = (addr, m) ∷ sent es
  sent (_ ∷ es) = sent es

  -- What each read asks for: the response to a query, or to another version of the protocol.
  abbrev pub asked : Response → Read → List (ℕ × Response)
  asked own read_failed = []
  asked own (read_from addr query) = (addr, own) ∷ []
  asked own (read_from addr upgrade_error) = (addr, upgrade_response) ∷ []
  asked own (read_from addr parse_error) = []

  abbrev pub asked_all : Response → List Read → List (ℕ × Response)
  asked_all own [] = []
  asked_all own (r ∷ rs) = asked own r ++ asked_all own rs

  sent-append : (xs ys : List (Effect Message)) → sent (xs ++ ys) ≡ sent xs ++ sent ys
  sent-append [] ys = refl
  sent-append (send addr m ∷ xs) ys = ap (λ l. (addr, m) ∷ l) (sent-append xs ys)
  sent-append (warn ∷ xs) ys = sent-append xs ys
  sent-append (inform ∷ xs) ys = sent-append xs ys

  sent-round :
      (message : Response → Message)
      → ((r : Response) → make r ≡ some (message r))
      → (i : ApiInstance) (r : Read)
      → sent (round i r) ≡ map (λ (q : ℕ × Response). (q.0, message q.1)) (asked (response_of i) r)
  unfolding round
  sent-round message makes i read_failed = refl
  sent-round message makes i (read_from addr parse_error) = refl
  sent-round message makes i (read_from addr upgrade_error) = ground (arith, makes upgrade_response)
  sent-round message makes i (read_from addr query) = ground (arith, makes (response_of i))

  -- Where every response can be made: whatever is read, with whichever errors between, and whether the sending fails
  -- or not, the loop sends one message for each query and for each packet of another version, in their order and to
  -- where they came from: the ports of the client for a query, an empty response for the other.
  pub loop-answers :
      (message : Response → Message)
      → ((r : Response) → make r ≡ some (message r))
      → (i : ApiInstance) (rs : List Read)
      → sent (loop i rs)
        ≡ map (λ (q : ℕ × Response). (q.0, message q.1)) (asked_all (response_of i) rs)
  unfolding loop
  loop-answers message makes i [] = refl
  loop-answers message makes i (r ∷ rs) =
      sent-append (round i r) (loop i rs)
      ∙ cc (sent-round message makes i r, loop-answers message makes i rs)
      ∙ sym (map-append _ (asked (response_of i) r) (asked_all (response_of i) rs))
