-- ===== src/Protect/Sockets.antt =====
-- The descriptors of `dial`: each is protected before it is used, and closed once.
use lib_sager_net_core.Common.{
  ℕ, ◌≡◌, ◌≢◌, Bool, true, false, ◌&&◌, ◌||◌, Option, none, some, List, [], ◌∷◌, arith,
  if◌then◌else◌, is_some, ◌==◌, suc,
}
use lib_sager_net_core.Protect.{
  network_udp, DialDestination, Call, socket, protect, apply_sockopt, connect, bind, close,
  file_packet_conn, file_conn, close_file, Outcomes, dial, fd_request,
}

abbrev pub listed : ℕ → List ℕ → Bool
listed fd [] = false
listed fd (k ∷ ks) = fd == k || listed fd ks

abbrev pub opt_is : ℕ → Option ℕ → Bool
opt_is fd none = false
opt_is fd (some k) = fd == k

-- Whether every call that uses a descriptor comes after a `protect` of that descriptor, given those already
-- protected.
abbrev pub protects_first : (before : List ℕ) → List Call → Bool
protects_first before [] = true
protects_first before (socket _ _ ∷ cs) = protects_first before cs
protects_first before (protect fd ∷ cs) = protects_first (fd ∷ before) cs
protects_first before (apply_sockopt fd ∷ cs) = listed fd before && protects_first before cs
protects_first before (connect fd _ ∷ cs) = listed fd before && protects_first before cs
protects_first before (bind fd _ ∷ cs) = listed fd before && protects_first before cs
protects_first before (close fd ∷ cs) = listed fd before && protects_first before cs
protects_first before (file_packet_conn fd ∷ cs) = listed fd before && protects_first before cs
protects_first before (file_conn fd ∷ cs) = listed fd before && protects_first before cs
protects_first before (close_file fd ∷ cs) = listed fd before && protects_first before cs

-- Whether each descriptor that the calls name is the one that the system gave.
abbrev pub uses_only : Option ℕ → List Call → Bool
uses_only given [] = true
uses_only given (socket _ _ ∷ cs) = uses_only given cs
uses_only given (protect fd ∷ cs) = opt_is fd given && uses_only given cs
uses_only given (apply_sockopt fd ∷ cs) = opt_is fd given && uses_only given cs
uses_only given (connect fd _ ∷ cs) = opt_is fd given && uses_only given cs
uses_only given (bind fd _ ∷ cs) = opt_is fd given && uses_only given cs
uses_only given (close fd ∷ cs) = opt_is fd given && uses_only given cs
uses_only given (file_packet_conn fd ∷ cs) = opt_is fd given && uses_only given cs
uses_only given (file_conn fd ∷ cs) = opt_is fd given && uses_only given cs
uses_only given (close_file fd ∷ cs) = opt_is fd given && uses_only given cs

-- Whether a descriptor is connected or bound.
abbrev pub uses_network : List Call → Bool
uses_network [] = false
uses_network (connect _ _ ∷ cs) = true
uses_network (bind _ _ ∷ cs) = true
uses_network (file_conn _ ∷ cs) = true
uses_network (file_packet_conn _ ∷ cs) = true
uses_network (_ ∷ cs) = uses_network cs

-- How often a descriptor is closed.
abbrev pub closes : ℕ → List Call → ℕ
closes fd [] = 0
closes fd (close k ∷ cs) = if k == fd then suc (closes fd cs) else closes fd cs
closes fd (close_file k ∷ cs) = if k == fd then suc (closes fd cs) else closes fd cs
closes fd (_ ∷ cs) = closes fd cs

-- Every descriptor that a call of `dial` names is the one that the system gave for its socket, and it is used
-- (options, `connect`, `bind`, `close`, the hand-over) only after the protector was asked for that same descriptor;
-- if the protection is refused `dial` never connects, binds or hands over the socket, and it returns no connection.
pub dial_protects :
    (o : Outcomes) (sockopt : Bool) (d : DialDestination)
    → (protects_first [] (dial o sockopt d).0 ≡ true)
      × (uses_only o.socket_fd (dial o sockopt d).0 ≡ true)
      × (o.protected ≡ false
          → (uses_network (dial o sockopt d).0 ≡ false) × ((dial o sockopt d).1.0 ≡ none))
unfolding dial
dial_protects o sockopt d = ground arith

-- Every descriptor that `dial` gets from the system is closed exactly once on every path, errors
-- included, provided that `os.NewFile` gives a file.
pub dial-closes_once :
    (o : Outcomes) (sockopt : Bool) (d : DialDestination) (fd : ℕ)
    → o.socket_fd ≡ some fd
    → o.has_file ≡ true
    → is_some (fd_request d) ≡ true
    → closes fd (dial o sockopt d).0 ≡ 1
unfolding dial
dial-closes_once o sockopt d fd h f known = ground arith

-- For TCP, and every network but UDP, `dial` returns a connection exactly if it returns no error.
pub dial_conn_or_error :
    (o : Outcomes) (sockopt : Bool) (d : DialDestination)
    → d.network ≢ network_udp
    → is_some (dial o sockopt d).1.1 ≡ (if is_some (dial o sockopt d).1.0 then false else true)
unfolding dial
dial_conn_or_error o sockopt d h = ground arith

-- For UDP a failure of `net.FilePacketConn` is lost: whenever the socket was made, protected and bound
-- and has a file, and that call fails, `dial` returns neither a connection nor an error.
pub dial_udp_loses_error :
    (o : Outcomes) (sockopt : Bool) (d : DialDestination) (fd e : ℕ)
    → d.network ≡ network_udp
    → o.socket_fd ≡ some fd
    → o.protected ≡ true
    → o.link_error ≡ none
    → o.has_file ≡ true
    → o.conn_error ≡ some e
    → (dial o sockopt d).1 ≡ (none, none)
unfolding dial
dial_udp_loses_error o sockopt d fd e n s p l f c = ground arith
