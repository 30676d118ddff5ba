-- ===== src/P2p/Udp.antt =====
-- `UdpTransport` of modules/p2p/src/udp_transport.cpp, over the socket of Boost.Asio as an argument.
pub mod History
pub mod Rebinding
pub mod Receiving
mod Tests
use chain_forge.Errors.Expected.{of_value, of_error, Expected}
use chain_forge.Core.Bytes.{Bytes}
use chain_forge.Base.Text.{codes, Text}
use chain_forge.Base.{
  none, zero, suc, [], ◌∷◌, ◌++◌, length, ◌+◌, ltb, ◌||◌, some, ◌&&◌, not, Option, false, true,
  List, suc, if◌then◌else◌, Bool, ℕ,
}

-- The codes of `UdpError` that the transport returns.
pub data UdpError : Type 0 where
  bind_failed send_failed not_bound : UdpError

abbrev pub UdpResult : Type 0 → Type 0
UdpResult A = Expected A UdpError

-- The socket. `none` and `false` stand for an error code; the last state is that of the socket then.
pub record Socket (S : Type 0) : Type 0 where
  -- `make_address` does not throw.
  pub is_address : Text → Bool
  -- The address has the form of version 4, and `to_v4` does not throw.
  pub is_v4 : Text → Bool
  pub is_open : S → Bool
  pub open_socket : Text → S → Option S
  pub set_reuse_address : S → S
  pub bind : Text → ℕ → S → Bool × S
  pub close : S → S
  pub set_broadcast : S → Bool × S
  -- The bytes, the address and the port
  pub send_to : Bytes → Text → ℕ → S → Option ℕ × S
  pub async_send_to : Bytes → Text → ℕ → S → S
  pub join_group : Text → S → Bool × S
  pub leave_group : Text → S → Bool × S
  pub local_endpoint : S → Option (Text × ℕ)

-- `UdpEndpoint`
abbrev pub UdpEndpoint : Type 0
UdpEndpoint = Text × ℕ

-- `pending_reads` counts the reads handed to the socket that have not completed, and `received` has
-- the calls of the callback.
pub record UdpTransport (S : Type 0) : Type 0 where
  pub socket : S
  pub bound : Bool
  pub port : ℕ
  pub receiving : Bool
  pub has_callback : Bool
  pub pending_reads : ℕ
  pub received : List (Bytes × UdpEndpoint)

-- How a pending read completes.
pub data Arrival : Type 0 where
  failed : Arrival
  datagram : Bytes → UdpEndpoint → Arrival

module _ {S : Type 0} where
  unfoldable pub is_bound : UdpTransport S → Bool
  is_bound u = u.bound

  unfoldable pub do_receive : UdpTransport S → UdpTransport S
  do_receive u =
      if not u.receiving || not u.bound then u else record u { pending_reads = u.pending_reads + 1 }

  -- The callback is not an empty function.
  unfoldable pub start_receive : UdpTransport S → UdpTransport S
  unfolding do_receive
  start_receive u = do_receive (record u { has_callback = true; receiving = true })

  unfoldable pub stop_receive : UdpTransport S → UdpTransport S
  stop_receive u = record u { receiving = false }

  abbrev pub deliver : Bytes → UdpEndpoint → UdpTransport S → UdpTransport S
  deliver bytes sender u =
      if u.has_callback && ltb 0 (length bytes)
      then record u { received = u.received ++ (bytes, sender) ∷ [] }
      else u

  unfoldable pub handle_receive : Arrival → UdpTransport S → UdpTransport S
  unfolding do_receive
  handle_receive failed u = u
  handle_receive (datagram bytes sender) u = do_receive (deliver bytes sender u)

  -- The socket completes a pending read; it has none to complete where nothing is pending.
  abbrev pub completed_of : Arrival → ℕ → UdpTransport S → UdpTransport S
  completed_of a zero u = u
  completed_of a (suc n) u = handle_receive a (record u { pending_reads = n })

  unfoldable pub complete_read : Arrival → UdpTransport S → UdpTransport S
  complete_read a u = completed_of a u.pending_reads u

module _ {S : Type 0} (asio : Socket S) where
  abbrev pub after_bind : ℕ → Bool × S → UdpTransport S → UdpResult (Unit {0}) × UdpTransport S
  after_bind port (false, s) u = (of_error bind_failed, record u { socket = s })
  after_bind port (true, s) u = (of_value tt, record u { socket = s; port = port; bound = true })

  abbrev pub after_open :
      Text → ℕ → Option S → UdpTransport S → UdpResult (Unit {0}) × UdpTransport S
  after_open address port none u = (of_error bind_failed, u)
  after_open address port (some s) u =
      after_bind port (asio.bind address port (asio.set_reuse_address s)) u

  unfoldable pub bind : ℕ → Text → UdpTransport S → UdpResult (Unit {0}) × UdpTransport S
  bind port address u =
      if u.bound
      then (of_error bind_failed, u)
      else if not (asio.is_address address)
      then (of_error bind_failed, u)
      else after_open address port (asio.open_socket address u.socket) u

  unfoldable pub close : UdpTransport S → UdpTransport S
  close u =
      if not u.bound
      then u
      else record u { bound = false; receiving = false; socket = asio.close u.socket }

  abbrev pub after_send : Option ℕ × S → UdpTransport S → UdpResult ℕ × UdpTransport S
  after_send (none, s) u = (of_error send_failed, record u { socket = s })
  after_send (some bytes_sent, s) u = (of_value bytes_sent, record u { socket = s })

  unfoldable pub send_to : Bytes → Text → ℕ → UdpTransport S → UdpResult ℕ × UdpTransport S
  send_to bytes address port u =
      if not u.bound
      then (of_error not_bound, u)
      else if not (asio.is_address address)
      then (of_error send_failed, u)
      else after_send (asio.send_to bytes address port u.socket) u

  -- Whether the handler is called at once, with `invalid_argument`. There is no test of `bound_`.
  unfoldable pub async_send_to : Bytes → Text → ℕ → UdpTransport S → Bool × UdpTransport S
  async_send_to bytes address port u =
      if not (asio.is_address address)
      then (true, u)
      else (false, record u { socket = asio.async_send_to bytes address port u.socket })

  abbrev pub after_option : Bytes → ℕ → Bool × S → UdpTransport S → UdpResult ℕ × UdpTransport S
  after_option bytes port (false, s) u = (of_error send_failed, record u { socket = s })
  after_option bytes port (true, s) u =
      after_send (asio.send_to bytes (codes "255.255.255.255") port s) u

  unfoldable pub broadcast : Bytes → ℕ → UdpTransport S → UdpResult ℕ × UdpTransport S
  broadcast bytes port u =
      if not u.bound
      then (of_error not_bound, u)
      else after_option bytes port (asio.set_broadcast u.socket) u

  abbrev pub after_group : Bool × S → UdpTransport S → UdpResult (Unit {0}) × UdpTransport S
  after_group (false, s) u = (of_error bind_failed, record u { socket = s })
  after_group (true, s) u = (of_value tt, record u { socket = s })

  -- The address is parsed and taken as one of version 4; both may throw.
  abbrev pub group_call :
      (Text → S → Bool × S) → Text → UdpTransport S → UdpResult (Unit {0}) × UdpTransport S
  group_call call address u =
      if not u.bound
      then (of_error not_bound, u)
      else if not (asio.is_address address && asio.is_v4 address)
      then (of_error bind_failed, u)
      else after_group (call address u.socket) u

  unfoldable pub join_multicast : Text → UdpTransport S → UdpResult (Unit {0}) × UdpTransport S
  join_multicast address u = group_call asio.join_group address u

  unfoldable pub leave_multicast : Text → UdpTransport S → UdpResult (Unit {0}) × UdpTransport S
  leave_multicast address u = group_call asio.leave_group address u

  abbrev endpoint_of : Option UdpEndpoint → UdpResult UdpEndpoint
  endpoint_of none = of_error not_bound
  endpoint_of (some endpoint) = of_value endpoint

  unfoldable pub local_endpoint : UdpTransport S → UdpResult UdpEndpoint
  local_endpoint u = endpoint_of (asio.local_endpoint u.socket)
