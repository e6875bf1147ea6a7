-- ===== src/Url.antt =====
-- url.go: the URL that the app builds and takes apart. `net/url` keeps the parts that it escapes: its setters,
-- and `net.SplitHostPort`, are parameters. Texts are lists of bytes.
pub mod Parsing
pub mod Hosts
mod Tests
use lib_sager_net_core.Common.{
  ℕ, ◌+◌, Bool, true, false, Option, none, some, List, [], ◌∷◌, ◌++◌, if◌then◌else◌, bytes_eq,
}

abbrev pub Bytes : Type 0
Bytes = List ℕ

-- `url.Userinfo`
pub record UserInfo : Type 0 where
  pub user : Bytes
  pub passwd : Option Bytes

-- `netURL`, with the fields of `url.URL`; the values of a key are in the order of their addition.
pub record NetUrl : Type 0 where
  pub scheme : Bytes
  pub opaque : Bytes
  pub user_info : Option UserInfo
  pub host : Bytes
  pub path : Bytes
  pub raw_path : Bytes
  pub force_query : Bool
  pub raw_query : Bytes
  pub fragment : Bytes
  pub raw_fragment : Bytes
  pub values : List (Bytes × Bytes)

-- `NewURL`
abbrev pub new_url : Bytes → NetUrl
new_url s = record {
  scheme = s;
  opaque = [];
  user_info = none;
  host = [];
  path = [];
  raw_path = [];
  force_query = false;
  raw_query = [];
  fragment = [];
  raw_fragment = [];
  values = [];
}

-- `GetUsername`
pub get_username : NetUrl → Bytes
get_username u = elim u.user_info [ none ↦ [] | some info ↦ info.user ]

-- `SetUsername`
pub set_username : Bytes → NetUrl → NetUrl
set_username name u = elim u.user_info [
  | none ↦ record u { user_info = some (record { user = name; passwd = none }) }
  | some info ↦ record u { user_info = some (record { user = name; passwd = info.passwd }) }
]

-- `GetPassword`
pub get_password : NetUrl → Bytes
get_password u = elim u.user_info [
  | none ↦ []
  | some info ↦ elim info.passwd [ none ↦ [] | some p ↦ p ]
]

-- `SetPassword`; `none` is its error.
pub set_password : Bytes → NetUrl → Option NetUrl
set_password p u = elim u.user_info [
  | none ↦ none
  | some info ↦ some (record u { user_info = some (record { user = info.user; passwd = some p }) })
]

-- `SetPath`
pub set_path_of : Bytes → NetUrl → NetUrl
set_path_of p u = record u { path = p; raw_path = [] }

-- `QueryParameterNotBlank`: the first value of the key, or an empty text.
unfoldable pub get_value : Bytes → List (Bytes × Bytes) → Bytes
get_value key [] = []
get_value key ((k, v) ∷ values) = if bytes_eq k key then v else get_value key values

unfoldable pub query_parameter_not_blank : Bytes → NetUrl → Bytes
unfolding get_value
query_parameter_not_blank key u = get_value key u.values

-- `AddQueryParameter`
pub add_query_parameter : (key value : Bytes) → NetUrl → NetUrl
add_query_parameter key value u = record u { values = u.values ++ ((key, value) ∷ []) }
