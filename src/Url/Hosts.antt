-- ===== src/Url/Hosts.antt =====
-- url.go: the host and port of a URL, its user and its query parameters. `net.SplitHostPort`,
-- `strconv.Itoa`, and `Hostname` and `Port` of `url.URL` are parameters.
use lib_sager_net_core.Common.{
  ℕ, ◌≡◌, ◌↔◌, refl, ap, ◌∙◌, Bool, true, false, ◌||◌, Option, none, some, List, [], ◌∷◌, ◌++◌,
  if◌then◌else◌, bytes_eq, arith,
}
use mathlib.Core.List.{append_assoc}
use lib_sager_net_core.Common.Int.{ℤ, pos}
use lib_sager_net_core.Procfs.{int32_of}
use lib_sager_net_core.Url.{
  Bytes, NetUrl, get_username, set_username, get_password, set_password, get_value,
  query_parameter_not_blank, add_query_parameter,
}
use lib_sager_net_core.Url.Parsing.{contains}

-- `net.JoinHostPort`
unfoldable pub join_host_port : (host port : Bytes) → Bytes
join_host_port h p = if contains b':' h then b'[' ∷ (h ++ (b']' ∷ b':' ∷ p)) else h ++ (b':' ∷ p)

-- `GetPort`, of what `Port` gives; `atoi` is `strconv.Atoi` without its error.
pub get_port : (atoi : Bytes → ℤ) (port_of : Bytes → Bytes) → NetUrl → ℤ
unfolding int32_of
get_port atoi port_of u =
    if bytes_eq (port_of u.host) [] then pos 0 else int32_of (atoi (port_of u.host))

contains-append : (c : ℕ) (xs ys : Bytes) → contains c xs ≡ true → contains c (xs ++ ys) ≡ true
contains-append c [] ys h = absurd (cc h)
contains-append c (x ∷ xs) ys h = ground (arith, contains-append c xs ys)

module _ (split_host_port : Bytes → Option (Bytes × Bytes)) (itoa : ℤ → Bytes) where
  -- `SetHost`
  unfoldable pub set_host : Bytes → NetUrl → NetUrl
  unfolding join_host_port
  set_host h u = elim (split_host_port u.host) [
    | none ↦ record u { host = h }
    | some (_, p) ↦ record u { host = join_host_port h p }
  ]

  -- `SetPort`
  unfoldable pub set_port : ℤ → NetUrl → NetUrl
  unfolding join_host_port
  set_port p u = elim (split_host_port u.host) [
    | none ↦ record u { host = join_host_port u.host (itoa p) }
    | some (h, _) ↦ record u { host = join_host_port h (itoa p) }
  ]

  -- A host that needs no brackets, or that stands in none.
  abbrev pub IsPlain : Bytes → Type 0
  IsPlain h = (contains b'[' h ≡ false) × (contains b']' h ≡ false)

  set_host-of_some :
      (h : Bytes) (u : NetUrl) (h' p : Bytes)
      → split_host_port u.host ≡ some (h', p)
      → (set_host h u).host ≡ join_host_port h p
  unfolding set_host
  set_host-of_some h u h' p e = ground (arith, e)

  set_host-of_none :
      (h : Bytes) (u : NetUrl) → split_host_port u.host ≡ none → (set_host h u).host ≡ h
  unfolding set_host
  set_host-of_none h u e = ground (arith, e)

  set_port-of_some :
      (n : ℤ) (u : NetUrl) (h p : Bytes)
      → split_host_port u.host ≡ some (h, p)
      → (set_port n u).host ≡ join_host_port h (itoa n)
  unfolding set_port
  set_port-of_some n u h p e = ground (arith, e)

  set_port-of_none :
      (n : ℤ) (u : NetUrl)
      → split_host_port u.host ≡ none
      → (set_port n u).host ≡ join_host_port u.host (itoa n)
  unfolding set_port
  set_port-of_none n u e = ground (arith, e)

  -- Where the host is an address in brackets with no port, `SetPort` puts brackets round it again.
  pub set_port_brackets_twice :
      (n : ℤ) (u : NetUrl) (a : Bytes)
      → contains b':' a ≡ true
      → u.host ≡ b'[' ∷ (a ++ (b']' ∷ []))
      → split_host_port u.host ≡ none
      → (set_port n u).host ≡ b'[' ∷ b'[' ∷ (a ++ (b']' ∷ b']' ∷ b':' ∷ itoa n))
  unfolding join_host_port
  set_port_brackets_twice n u a colon is none_split =
      set_port-of_none n u none_split
      ∙ ap (λ (t : Bytes). join_host_port t (itoa n)) is
      ∙ rw (contains-append b':' a (b']' ∷ []) colon)
          (ap (λ (t : Bytes). b'[' ∷ b'[' ∷ t) (append_assoc a (b']' ∷ []) (b']' ∷ b':' ∷ itoa n)))

  -- A host that no port follows, or one with a port that `SetPort` wrote.
  pub data IsHost : Bytes → Type 0 where
    bare : (h : Bytes) → IsPlain h → split_host_port h ≡ none → IsHost h
    with_port :
        (h whole : Bytes) (n : ℤ) → IsPlain h → whole ≡ join_host_port h (itoa n) → IsHost whole

  module _
      (split-join : (h : Bytes) (n : ℤ)
        → IsPlain h
        → split_host_port (join_host_port h (itoa n)) ≡ some (h, itoa n)) where
    set_port-then_host :
        (h : Bytes) (n : ℤ) (u : NetUrl) (h' : Bytes)
        → IsPlain h'
        → (set_port n u).host ≡ join_host_port h' (itoa n)
        → (set_host h (set_port n u)).host ≡ join_host_port h (itoa n)
    set_port-then_host h n u h' plain e =
        set_host-of_some h (set_port n u) h' (itoa n) (ap split_host_port e ∙ split-join h' n plain)

    -- For a URL whose host is a name or address that no port follows, or one with a port, and for a host that
    -- is no host and port itself: setting host and port in either order gives their join.
    pub set_host-set_port :
        (h : Bytes) (n : ℤ) (u : NetUrl)
        → IsHost u.host
        → IsPlain h
        → split_host_port h ≡ none
        → ((set_port n (set_host h u)).host ≡ join_host_port h (itoa n))
          × ((set_host h (set_port n u)).host ≡ join_host_port h (itoa n))
    set_host-set_port h n u is plain alone = both u.host refl is
      where
        both :
            (host : Bytes)
            → u.host ≡ host
            → IsHost host
            → ((set_port n (set_host h u)).host ≡ join_host_port h (itoa n))
              × ((set_host h (set_port n u)).host ≡ join_host_port h (itoa n))
        both host e (bare _ plain' none_split) =
            let kept : (set_host h u).host ≡ h =
              set_host-of_none h u (ap split_host_port e ∙ none_split) in
            (
              set_port-of_none n (set_host h u) (ap split_host_port kept ∙ alone)
                  ∙ ap (λ (t : Bytes). join_host_port t (itoa n)) kept,
              set_port-then_host h n u host plain' (
                  set_port-of_none n u (ap split_host_port e ∙ none_split)
                  ∙ ap (λ (t : Bytes). join_host_port t (itoa n)) e),
            )
        both host e (with_port h' _ m plain' is_join) =
            let split : split_host_port u.host ≡ some (h', itoa m) =
              ap split_host_port (e ∙ is_join) ∙ split-join h' m plain' in
            let kept : (set_host h u).host ≡ join_host_port h (itoa m) =
              set_host-of_some h u h' (itoa m) split in
            (
              set_port-of_some n (set_host h u) h (itoa m)
                  (ap split_host_port kept ∙ split-join h m plain),
              set_port-then_host h n u h' plain' (set_port-of_some n u h' (itoa m) split),
            )

-- Setting the name keeps the password; a password is refused where no name was set, and is set otherwise; the
-- two getters give what was set.
pub set_password-set_username :
    (name p : Bytes) (u : NetUrl)
    → (get_username (set_username name u) ≡ name)
      × (get_password (set_username name u) ≡ get_password u)
      × ((set_password p u ≡ none) ↔ (u.user_info ≡ none))
      × ((v : NetUrl) × (set_password p (set_username name u) ≡ some v)
          × (get_username v ≡ name)
          × (get_password v ≡ p))
unfolding get_username set_username get_password set_password
set_password-set_username name p u = (
  ground arith,
  ground arith,
  ground arith,
  (
    record u { user_info = some (record { user = name; passwd = some p }) },
    ground arith,
    refl,
    refl,
  ),
)

-- Whether a URL has a value for a key.
abbrev pub has_key : Bytes → List (Bytes × Bytes) → Bool
has_key key [] = false
has_key key ((k, v) ∷ values) = bytes_eq k key || has_key key values

get_value-append :
    (key k v : Bytes) (values : List (Bytes × Bytes))
    → get_value key (values ++ ((k, v) ∷ []))
      ≡ (if has_key key values then get_value key values else if bytes_eq k key then v else [])
unfolding get_value
get_value-append key k v [] = ground arith
get_value-append key k v ((k', v') ∷ values) = ground (arith, get_value-append key k v values)

-- Of the values that are added for a key, the first is given, also where it is blank; a value added for
-- another key changes nothing, and a key with no value gives an empty text.
pub query_parameter_not_blank-add_query_parameter :
    (key k v : Bytes) (u : NetUrl)
    → query_parameter_not_blank key (add_query_parameter k v u) ≡ (
        if has_key key u.values
        then query_parameter_not_blank key u
        else if bytes_eq k key
        then v
        else [])
unfolding query_parameter_not_blank add_query_parameter
query_parameter_not_blank-add_query_parameter key k v u = get_value-append key k v u.values
