-- ===== src/Instance/Dialling.antt =====
-- v2ray.go: the connections that an instance makes, from the link that its dispatcher gives, or from a link to a
-- handler. A pipe is a number; what the dispatcher answers is an argument.
use lib_sager_net_core.Common.{ℕ, ◌≡◌, ◌≢◌, Bool, true, false, not, Option, none, some, arith}
use lib_sager_net_core.Dispatcher.{Endpoint, Conn, new_conn}
use lib_sager_net_core.Nat.Address.{Network, network_tcp, network_udp}
use lib_sager_net_core.Instance.Life.{
  Instance, close, closed, invalid, dispatched, dial_panicked, dial_context,
}

-- `transport.Link`: the pipe that is read from, and the one that is written to.
pub record Link : Type 0 where
  pub reader : ℕ
  pub writer : ℕ

-- `getLink`, of the two pipes: the link of the inbound and that of the outbound.
unfoldable pub get_link : (uplink downlink : ℕ) → Link × Link
get_link uplink downlink =
    (record { reader = downlink; writer = uplink }, record { reader = uplink; writer = downlink })

-- The answer of `Dispatch` or `DispatchLink`.
pub data DispatchAnswer : Type 0 where
  linked : Link → DispatchAnswer
  not_linked : (error : ℕ) → DispatchAnswer

pub data Connected : Type 0 where
  -- `buf.NewConnection` with the link; `packets` tells whether it is read by packets.
  connection : Link → (packets : Bool) → Connected
  -- `os.ErrInvalid`
  not_started : Connected
  dispatch_failed : (error : ℕ) → Connected
  connect_panicked : Connected

abbrev pub is_tcp : Network → Bool
is_tcp network_tcp = true
is_tcp network_udp = false

-- `dialContext`
unfoldable pub connect : Instance → DispatchAnswer → Network → Connected
connect s answer network = elim (dial_context s) [
  | invalid ↦ not_started
  | dial_panicked ↦ connect_panicked
  | dispatched n ↦ elim answer [
    | not_linked e ↦ dispatch_failed e
    | linked l ↦ connection l (not (is_tcp network))
  ]
]

-- `dialUDP`: the connection with its link, whether `cancel` was called, and whether `handleInput` was started.
pub record UdpDial : Type 0 where
  pub result : Option (Conn × Link)
  pub cancelled : Bool
  pub reading : Bool
  pub panics : Bool

unfoldable pub dial_udp : Instance → DispatchAnswer → Endpoint → UdpDial
dial_udp s answer destination = elim (dial_context s) [
  | invalid ↦ record { result = none; cancelled = false; reading = false; panics = false }
  | dial_panicked ↦ record { result = none; cancelled = false; reading = false; panics = true }
  | dispatched n ↦ elim answer [
    | not_linked e ↦ record { result = none; cancelled = true; reading = false; panics = false }
    | linked l ↦ record {
      result = some (new_conn destination, l);
      cancelled = false;
      reading = true;
      panics = false;
    }
  ]
]

-- `handleUDP`: the connection with its link, and the link that the handler dispatches.
unfoldable pub handle_udp : (uplink downlink : ℕ) → Endpoint → (Conn × Link) × Link
handle_udp uplink downlink destination =
    let (inbound, outbound) = get_link uplink downlink in
    ((new_conn destination, inbound), outbound)

-- `handleUDP` on two pipes: what the connection writes goes into the pipe that the handler reads, what it reads
-- comes from the pipe that the handler writes, and neither end reads what it writes.
pub handle_udp_crossed :
    (uplink downlink : ℕ) (destination : Endpoint)
    → uplink ≢ downlink
    → let ((conn, inbound), outbound) = handle_udp uplink downlink destination in
      (inbound.writer ≡ outbound.reader)
      × (outbound.writer ≡ inbound.reader)
      × (inbound.reader ≢ inbound.writer)
      × (outbound.reader ≢ outbound.writer)
unfolding handle_udp get_link
handle_udp_crossed uplink downlink destination h = ground (arith, h)

-- Each dial of packets that has a context to cancel either cancels it or gives a connection that is read into, and
-- never both; and after a `Close` that succeeds there is neither.
pub dial_udp-close :
    (s : Instance) (answer : DispatchAnswer) (destination : Endpoint)
    → let d = dial_udp s answer destination in
      (d.reading ≡ true → d.cancelled ≡ false)
      × (d.cancelled ≡ true → d.result ≡ none)
      × (s.started ≡ true
          → (close none s).2 ≡ closed none
          → let after = dial_udp (close none s).1 answer destination in
            (after.result ≡ none) × (after.reading ≡ false) × (after.panics ≡ false))
unfolding dial_udp dial_context close
dial_udp-close s answer destination = ground arith

-- `dispatchContext`, for a connection by its number: the link that is dispatched, and the error, `none` for
-- `os.ErrInvalid`.
pub data Dispatching : Type 0 where
  dispatching : Link → (error : Option ℕ) → Dispatching
  dispatch_invalid : Dispatching
  dispatch_panicked : Dispatching

unfoldable pub dispatch_context : Instance → (conn : ℕ) → (error : Option ℕ) → Dispatching
dispatch_context s conn error = elim (dial_context s) [
  | invalid ↦ dispatch_invalid
  | dial_panicked ↦ dispatch_panicked
  | dispatched n ↦ dispatching (record { reader = conn; writer = conn }) error
]
