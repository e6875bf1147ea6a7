-- ===== src/Nat/Samples.antt =====
-- A small session table and small packets, for the runs of nat/tcp.go in the tests. The checksums of
-- these packets are plain sums, and the table is a function.
use lib_sager_net_core.Common.{
  ℕ, ◌≡◌, ◌≢◌, refl, Option, none, some, List, [], ◌∷◌, ◌+◌, ◌%◌, if◌then◌else◌, arith, length,
  Bool-cases, inl, inr,
}
use lib_sager_net_core.Nat.Address.{Address}
use lib_sager_net_core.Nat.Packet.{Endpoints, TcpPackets, HeaderChecksums}
use lib_sager_net_core.Nat.Sessions.{PeerKey, PeerValue, LruCache, key_eq, key_eq_same, key_eq_self}

abbrev pub Table : Type 0
Table = PeerKey → Option PeerValue

abbrev pub store_in : PeerKey → PeerValue → Table → Table
store_in k v c j = if key_eq j k then some v else c j

abbrev pub delete_in : PeerKey → Table → Table
delete_in k c j = if key_eq j k then none else c j

pub store_in_ne : (j k : PeerKey) (v : PeerValue) (c : Table) → j ≢ k → store_in k v c j ≡ c j
store_in_ne j k v c h = elim (Bool-cases (key_eq j k)) [
  | inl e ↦ absurd (h (key_eq_same j k e))
  | inr e ↦ rw e refl
]

pub delete_in_ne : (j k : PeerKey) (c : Table) → j ≢ k → delete_in k c j ≡ c j
delete_in_ne j k c h = elim (Bool-cases (key_eq j k)) [
  | inl e ↦ absurd (h (key_eq_same j k e))
  | inr e ↦ rw e refl
]

abbrev pub table : LruCache
table = record {
  Cache = Table;
  find = λ k c. c k;
  touch = λ k c. c;
  store = store_in;
  delete = delete_in;
  find-touch = λ j k c. refl;
  find-store_self = λ k v c. rw (key_eq_self k) refl;
  find-store_ne = store_in_ne;
  find-delete_self = λ k c. rw (key_eq_self k) refl;
  find-delete_ne = delete_in_ne;
}

pub record SmallPacket : Type 0 where
  pub endpoints : Endpoints
  pub tcp_checksum : ℕ
  pub header_checksum : ℕ
  pub payload : List ℕ

abbrev pub sum : List ℕ → ℕ
sum [] = 0
sum (x ∷ xs) = x + sum xs

abbrev pub small : TcpPackets
small = record {
  Packet = SmallPacket;
  view = λ p. p.endpoints;
  set_source_address = λ a p. record p { endpoints = record p.endpoints { source_address = a } };
  set_destination_address =
      λ a p. record p { endpoints = record p.endpoints { destination_address = a } };
  set_source_port = λ n p. record p { endpoints = record p.endpoints { source_port = n } };
  set_destination_port =
      λ n p. record p { endpoints = record p.endpoints { destination_port = n } };
  set_tcp_checksum = λ n p. record p { tcp_checksum = n };
  tcp_length = λ p. 20 + length p.payload;
  payload_checksum = λ p. sum p.payload % 65536;
  calculate_tcp =
      λ x p. (x + p.endpoints.source_port + p.endpoints.destination_port) % 65536 + p.tcp_checksum;
  checksum_combine = λ x y. (x + y) % 65536;
  pseudo_header_checksum = λ a b n. (sum a + sum b + n) % 65536;
  view-set_source_address = λ a p. refl;
  view-set_destination_address = λ a p. refl;
  view-set_source_port = λ n p. refl;
  view-set_destination_port = λ n p. refl;
  view-set_tcp_checksum = λ n p. refl;
  tcp_length-set_tcp_checksum = λ n p. refl;
  payload_checksum-set_tcp_checksum = λ n p. refl;
  calculate_tcp-complement = λ x p. omega arith;
}

abbrev pub small_header : HeaderChecksums small
small_header = record {
  set_header_checksum = λ n p. record p { header_checksum = n };
  calculate_header = λ p.
      (sum p.endpoints.source_address + sum p.endpoints.destination_address) % 65536
      + p.header_checksum;
  view-set_header_checksum = λ n p. refl;
  calculate_header-set_tcp_checksum = λ n p. refl;
  calculate_header-complement = λ p. omega arith;
}

abbrev pub packet : Endpoints → SmallPacket
packet e = record { endpoints = e; tcp_checksum = 7; header_checksum = 9; payload = 1 ∷ 2 ∷ [] }

abbrev pub phone : Address
phone = 172 ∷ 19 ∷ 0 ∷ 2 ∷ []

abbrev pub web : Address
web = 93 ∷ 184 ∷ 216 ∷ 34 ∷ []

abbrev pub listener_port : ℕ
listener_port = 50000

abbrev pub empty : Table
empty _ = none

-- The phone asks a web server.
abbrev pub request : SmallPacket
request = packet (record {
  source_address = phone;
  destination_address = web;
  source_port = 40000;
  destination_port = 443;
})

pub from_the_client : request.endpoints.source_port ≢ listener_port
from_the_client h = absurd (omega (arith, h))

-- Another flow of the phone.
abbrev pub other_request : SmallPacket
other_request = packet (record {
  source_address = phone;
  destination_address = web;
  source_port = 40001;
  destination_port = 80;
})

abbrev pub response : SmallPacket
response = packet (record {
  source_address = 172 ∷ 19 ∷ 0 ∷ 1 ∷ [];
  destination_address = web;
  source_port = listener_port;
  destination_port = 40000;
})

abbrev pub web_session : PeerValue
web_session = record { source_address = phone; destination_port = 80 }

abbrev pub stale : Table
stale _ = some web_session
