-- ===== src/Plugins/Ssr.antt =====
-- ssr.go: the plugin for ShadowsocksR. The parser of flags, and the obfuscations and protocols of the Clash library
-- are parameters.
use lib_sager_net_core.Common.{
  zero, suc, length-take, length-drop, take-all, take-append, drop-append, ℕ, ◌+◌, ◌≤◌, ◌<◌, ◌≡◌,
  refl, ap, Bool, true, Option, none, some, List, [], ◌++◌, take, drop, length, if◌then◌else◌, ltb,
  arith, length-append, is_some,
}
use lib_sager_net_core.Common.Text.{codes}

abbrev pub Bytes : Type 0
Bytes = List ℕ

-- The values of the four flags.
pub record Flags : Type 0 where
  pub obfs : Bytes
  pub obfs_param : Bytes
  pub protocol : Bytes
  pub protocol_param : Bytes

abbrev pub default_flags : Flags
default_flags = record {
  obfs = codes "origin";
  obfs_param = [];
  protocol = codes "origin";
  protocol_param = [];
}

-- `obfs.Base` and `protocol.Base`
pub record ObfsBase : Type 0 where
  pub host : Bytes
  pub port : ℕ
  pub key : Bytes
  pub iv_size : ℕ
  pub param : Bytes

pub record ProtocolBase : Type 0 where
  pub key : Bytes
  pub overhead : ℕ
  pub param : Bytes

-- `shadowsocksrPlugin`; `none` is a nil obfuscation or protocol.
pub record ShadowsocksrPlugin (Obfs Protocol : Type 0) : Type 0 where
  pub host : Bytes
  pub port : ℕ
  pub flags : Flags
  pub o : Option Obfs
  pub p : Option Protocol

pub data InitError : Type 0 where
  args_failed obfs_failed protocol_failed : InitError

-- `parse_flags` gives the flags as they are left, and whether there was no error; `atoi` is `strconv.Atoi` without
-- its error.
module _ {Obfs Protocol : Type 0} (parse_flags : Flags → List Bytes → Flags × Bool)
    (atoi : Bytes → ℕ) (pick_obfs : Bytes → ObfsBase → Option (Obfs × ℕ))
    (pick_protocol : Bytes → ProtocolBase → Option Protocol) where
  -- `Init`: the plugin after it, and its error.
  unfoldable pub init :
      (host port : Bytes) (args : List Bytes) (key : Bytes) (iv_size : ℕ)
      → ShadowsocksrPlugin Obfs Protocol
      → ShadowsocksrPlugin Obfs Protocol × Option InitError
  init host port args key iv_size s =
      let (f, parsed) = parse_flags default_flags args in
      let s' : ShadowsocksrPlugin Obfs Protocol = record s {
        host = host;
        port = atoi port;
        flags = f;
      } in
      let base : ObfsBase = record {
        host = host;
        port = atoi port;
        key = key;
        iv_size = iv_size;
        param = f.obfs_param;
      } in
      if parsed
      then elim (pick_obfs f.obfs base) [
        | none ↦ (s', some obfs_failed)
        | some (o, overhead) ↦
            elim (pick_protocol f.protocol
              (record { key = key; overhead = overhead; param = f.protocol_param })) [
                | none ↦ (s', some protocol_failed)
                | some p ↦ (record s' { o = some o; p = some p }, none)
              ]
      ]
      else (record s { flags = f }, some args_failed)

  -- Whatever `Init` comes to, the plugin gets an obfuscation and a protocol together, or keeps those it had.
  pub init-together :
      (host port : Bytes) (args : List Bytes) (key : Bytes) (iv_size : ℕ)
      (s : ShadowsocksrPlugin Obfs Protocol)
      → let (s', err) = init host port args key iv_size s in
        (err ≡ none → (is_some s'.o ≡ true) × (is_some s'.p ≡ true))
        × ((e : InitError) → err ≡ some e → (s'.o ≡ s.o) × (s'.p ≡ s.p))
  unfolding init
  init-together host port args key iv_size s = ground arith

-- The two ends that `ProtocolConn` gives a connection: itself, or a reader and a writer over what the protocol makes
-- of it, by whether that is the connection as it was.
pub data ProtocolEnds (Conn : Type 0) : Type 0 where
  direct : ProtocolEnds Conn
  through : Conn → ProtocolEnds Conn

unfoldable pub protocol_conn :
    {Conn : Type 0} → (same : Bool) → (downstream : Conn) → ProtocolEnds Conn
protocol_conn same downstream = if same then direct else through downstream

-- A buffer: its bytes and its endpoint.
pub record Buffer (Endpoint : Type 0) : Type 0 where
  pub bytes : Bytes
  pub endpoint : Option Endpoint

-- `buf.Buffer.Write` into a new buffer of a size: as much as there is room for.
abbrev pub write_in : (size : ℕ) → (held bytes : Bytes) → Bytes
write_in size held bytes = take size (held ++ bytes)

write_in-both :
    (size : ℕ) (vector packet : Bytes)
    → length vector + length packet ≤ size
    → write_in size (write_in size [] vector) packet ≡ vector ++ packet
write_in-both size vector packet room =
    rw (take-all size vector (omega arith))
      (take-all size (vector ++ packet) (omega (arith, length-append vector packet)))

module _ {Endpoint : Type 0} (size : ℕ) (encode : Bytes → Option Bytes)
    (decode : Bytes → Option Bytes) where
  -- `EncodePacket`; the buffer is released on every path.
  unfoldable pub encode_packet : Buffer Endpoint → (iv_len : ℕ) → Option (Buffer Endpoint)
  encode_packet b iv_len = elim (encode (drop iv_len b.bytes)) [
    | none ↦ none
    | some packet ↦
        if ltb 0 iv_len
        then some (record {
          bytes = write_in size (write_in size [] (take iv_len b.bytes)) packet;
          endpoint = none;
        })
        else some (record { bytes = packet; endpoint = none })
  ]

  -- `DecodePacket`
  unfoldable pub decode_packet : Buffer Endpoint → Option (Buffer Endpoint)
  decode_packet b = elim (decode b.bytes) [
    | none ↦ none
    | some packet ↦ some (record { bytes = write_in size [] packet; endpoint = b.endpoint })
  ]

  abbrev plain : Bytes → Option (Buffer Endpoint)
  plain bytes = some (record { bytes = bytes; endpoint = none })

  -- What a packet becomes in between: from `iv_len` on, where the packet begins.
  abbrev pub after_iv : ℕ → Buffer Endpoint → Buffer Endpoint
  after_iv iv_len b = record b { bytes = drop iv_len b.bytes }

  -- Round trip: if the protocol decodes what it encodes, and the packet, before and after, fits into a new buffer
  -- with its initial vector, then an encoded packet has the vector that was there before, and what follows it
  -- decodes to the packet.
  pub decode_packet-encode_packet :
      (b : Buffer Endpoint) (iv_len : ℕ) (packet : Bytes)
      → iv_len ≤ length b.bytes
      → length b.bytes ≤ size
      → encode (drop iv_len b.bytes) ≡ some packet
      → decode packet ≡ some (drop iv_len b.bytes)
      → iv_len + length packet ≤ size
      → (c : Buffer Endpoint) × (encode_packet b iv_len ≡ some c)
        × (take iv_len c.bytes ≡ take iv_len b.bytes)
        × (decode_packet (after_iv iv_len c)
            ≡ some (record { bytes = drop iv_len b.bytes; endpoint = none }))
  unfolding encode_packet decode_packet
  decode_packet-encode_packet b zero packet within fits encoded decoded room = (
    record { bytes = packet; endpoint = none },
    rw (encoded, encode_packet) refl,
    refl,
    rw (decoded, decode_packet) (ap plain (take-all size b.bytes fits)),
  )
  decode_packet-encode_packet b (suc n) packet within fits encoded decoded room =
      let vector = take (suc n) b.bytes in
      let vector_length : length vector ≡ suc n = omega (arith, length-take (suc n) b.bytes) in
      (
        record { bytes = vector ++ packet; endpoint = none },
        rw (encoded, encode_packet, write_in-both size vector packet (omega arith)) (ground arith),
        take-append (suc n) vector packet vector_length,
        rw (drop-append (suc n) vector packet vector_length, decoded, decode_packet)
            (ap plain
              (take-all size (drop (suc n) b.bytes) (omega (arith, length-drop (suc n) b.bytes)))),
      )

  -- An encoded packet with a vector that does not fit into a new buffer is cut off, with no error.
  pub encode_packet_cuts :
      (b : Buffer Endpoint) (iv_len : ℕ) (packet : Bytes)
      → 0 < iv_len
      → encode (drop iv_len b.bytes) ≡ some packet
      → size < iv_len + length packet
      → iv_len ≤ length b.bytes
      → iv_len ≤ size
      → (c : Buffer Endpoint) × (encode_packet b iv_len ≡ some c) × (length c.bytes ≡ size)
  unfolding encode_packet
  encode_packet_cuts b zero packet has encoded long within room = absurd (omega arith)
  encode_packet_cuts b (suc n) packet has encoded long within room =
      let vector = take (suc n) b.bytes in
      let vector_length : length vector ≡ suc n = omega (arith, length-take (suc n) b.bytes) in
      (
        record { bytes = take size (vector ++ packet); endpoint = none },
        rw (encoded, encode_packet, take-all size vector (omega arith)) (ground arith),
        omega (arith, length-take size (vector ++ packet), length-append vector packet),
      )
