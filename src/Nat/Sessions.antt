-- ===== src/Nat/Sessions.antt =====
-- The session table of nat/peer.go and nat/tcp.go: an LRU cache of the Clash library, with an age of
-- 300 seconds and no size limit. It is a parameter; the laws speak of calls with no expiry between.
use lib_sager_net_core.Common.{
  ℕ, ◌⊎◌, inl, inr, Bool-cases, ◌≡◌, ◌≢◌, Bool, true, ◌&&◌, Option, none, some, arith, ◌==◌, ==_iff,
  ==_self, bytes_eq, bytes_eq_iff,
}
use lib_sager_net_core.Nat.Address.{Address}

-- `peerKey`
pub record PeerKey : Type 0 where
  pub destination_address : Address
  pub source_port : ℕ

-- `peerValue`
pub record PeerValue : Type 0 where
  pub source_address : Address
  pub destination_port : ℕ

-- Equality of keys, as a test.
abbrev pub key_eq : PeerKey → PeerKey → Bool
key_eq j k = bytes_eq j.destination_address k.destination_address && j.source_port == k.source_port

pub key_eq_same : (j k : PeerKey) → key_eq j k ≡ true → j ≡ k
key_eq_same j k h = ground (
  arith,
  bytes_eq_iff j.destination_address k.destination_address,
  ==_iff j.source_port k.source_port,
)

pub key_eq_self : (k : PeerKey) → key_eq k k ≡ true
key_eq_self k =
    ground (arith, bytes_eq_iff k.destination_address k.destination_address, ==_self k.source_port)

pub key_cases : (j k : PeerKey) → (j ≡ k) ⊎ (j ≢ k)
key_cases j k = elim (Bool-cases (key_eq j k)) [
  | inl e ↦ inl (key_eq_same j k e)
  | inr e ↦ inr (λ same. cc (e, same, key_eq_self k))
]

pub record LruCache : Type 1 where
  pub Cache : Type 0
  -- The entry that `Get` finds; `touch` is `Get`'s renewal of the age.
  pub find : PeerKey → Cache → Option PeerValue
  pub touch : PeerKey → Cache → Cache
  pub store : PeerKey → PeerValue → Cache → Cache
  pub delete : PeerKey → Cache → Cache
  pub find-touch : (j k : PeerKey) (c : Cache) → find j (touch k c) ≡ find j c
  pub find-store_self : (k : PeerKey) (v : PeerValue) (c : Cache) → find k (store k v c) ≡ some v
  pub find-store_ne :
      (j k : PeerKey) (v : PeerValue) (c : Cache) → j ≢ k → find j (store k v c) ≡ find j c
  pub find-delete_self : (k : PeerKey) (c : Cache) → find k (delete k c) ≡ none
  pub find-delete_ne : (j k : PeerKey) (c : Cache) → j ≢ k → find j (delete k c) ≡ find j c
