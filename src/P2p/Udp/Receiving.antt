-- ===== src/P2p/Udp/Receiving.antt =====
-- The receive loop ends at the first error.
use chain_forge.P2p.Udp.History.{
  Event, binds, closes, starts, stops, reads, sends, async_sends, broadcasts, joins, leaves, step,
  run,
}
use chain_forge.P2p.Udp.{
  after_group, group_call, after_send, after_option, UdpEndpoint, after_open, failed, after_bind,
  leave_multicast, join_multicast, broadcast, async_send_to, handle_receive, send_to, complete_read,
  stop_receive, Bytes, close, bind, UdpTransport, Socket,
}
use chain_forge.Base.Text.{codes, Text}
use chain_forge.Base.{
  if◌then◌else◌, not, Option, ◌+◌, ◌&&◌, inr, inl, refl, Bool-cases, [], arith, none, true, ◌∷◌,
  false, some, ◌≡◌, List, Bool, ℕ,
}

-- The calls of `start_receive` among the events.
abbrev starts_in : Event → ℕ
starts_in starts = 1
starts_in _ = 0

abbrev pub count_starts : List Event → ℕ
count_starts [] = 0
count_starts (e ∷ es) = starts_in e + count_starts es

-- No read is pending, and the callback was called with these datagrams.
abbrev IsIdle : {S : Type 0} → List (Bytes × UdpEndpoint) → UdpTransport S → Type 0
IsIdle received u = (u.pending_reads ≡ 0) × (u.received ≡ received)

module _ {S : Type 0} (asio : Socket S) where
  after_group-IsIdle :
      (r : Bool × S) (received : List (Bytes × UdpEndpoint)) (u : UdpTransport S)
      → IsIdle received u
      → IsIdle received ((after_group asio r u).1)
  after_group-IsIdle (false, s) received u h = h
  after_group-IsIdle (true, s) received u h = h

  after_send-IsIdle :
      (r : Option ℕ × S) (received : List (Bytes × UdpEndpoint)) (u : UdpTransport S)
      → IsIdle received u
      → IsIdle received ((after_send asio r u).1)
  after_send-IsIdle (none, s) received u h = h
  after_send-IsIdle (some n, s) received u h = h

  after_option-IsIdle :
      (bytes : Bytes) (port : ℕ) (r : Bool × S) (received : List (Bytes × UdpEndpoint))
      (u : UdpTransport S)
      → IsIdle received u
      → IsIdle received ((after_option asio bytes port r u).1)
  after_option-IsIdle bytes port (false, s) received u h = h
  after_option-IsIdle bytes port (true, s) received u h =
      after_send-IsIdle (asio.send_to bytes (codes "255.255.255.255") port s) received u h

  after_bind-IsIdle :
      (port : ℕ) (r : Bool × S) (received : List (Bytes × UdpEndpoint)) (u : UdpTransport S)
      → IsIdle received u
      → IsIdle received ((after_bind asio port r u).1)
  after_bind-IsIdle port (false, s) received u h = h
  after_bind-IsIdle port (true, s) received u h = h

  after_open-IsIdle :
      (address : Text) (port : ℕ) (r : Option S) (received : List (Bytes × UdpEndpoint))
      (u : UdpTransport S)
      → IsIdle received u
      → IsIdle received ((after_open asio address port r u).1)
  after_open-IsIdle address port none received u h = h
  after_open-IsIdle address port (some s) received u h =
      after_bind-IsIdle port (asio.bind address port (asio.set_reuse_address s)) received u h

  if-IsIdle :
      {R : Type 0} (b : Bool) (x y : R × UdpTransport S) (received : List (Bytes × UdpEndpoint))
      → IsIdle received x.1
      → IsIdle received y.1
      → IsIdle received ((if b then x else y).1)
  if-IsIdle true x y received h g = h
  if-IsIdle false x y received h g = g

  group_call-IsIdle :
      (call : Text → S → Bool × S) (address : Text) (received : List (Bytes × UdpEndpoint))
      (u : UdpTransport S)
      → IsIdle received u
      → IsIdle received ((group_call asio call address u).1)
  group_call-IsIdle call address received u h = if-IsIdle (not u.bound) _ _ received h (
      if-IsIdle (not (asio.is_address address && asio.is_v4 address)) _ _ received h
        (after_group-IsIdle (call address u.socket) received u h))

  step-IsIdle :
      (e : Event) (received : List (Bytes × UdpEndpoint)) (u : UdpTransport S)
      → starts_in e ≡ 0
      → IsIdle received u
      → IsIdle received (step asio e u)
  unfolding bind close stop_receive complete_read send_to async_send_to broadcast join_multicast
      leave_multicast
  step-IsIdle (binds port address) received u n h = if-IsIdle u.bound _ _ received h (
      if-IsIdle (not (asio.is_address address)) _ _ received h
        (after_open-IsIdle address port (asio.open_socket address u.socket) received u h))
  step-IsIdle closes received u n h = elim (Bool-cases u.bound) [
    | inl e ↦ simp (e) (h.0, h.1)
    | inr e ↦ simp (e) (h.0, h.1)
  ]
  step-IsIdle starts received u n h = absurd (omega arith)
  step-IsIdle stops received u n h = h
  step-IsIdle (reads a) received u n (p, r) = rw p (refl, r)
  step-IsIdle (sends bytes address port) received u n h = if-IsIdle (not u.bound) _ _ received h (
      if-IsIdle (not (asio.is_address address)) _ _ received h
        (after_send-IsIdle (asio.send_to bytes address port u.socket) received u h))
  step-IsIdle (async_sends bytes address port) received u n h =
      if-IsIdle (not (asio.is_address address)) _ _ received h h
  step-IsIdle (broadcasts bytes port) received u n h =
      if-IsIdle (not u.bound) _ _ received h
        (after_option-IsIdle bytes port (asio.set_broadcast u.socket) received u h)
  step-IsIdle (joins address) received u n h =
      group_call-IsIdle asio.join_group address received u h
  step-IsIdle (leaves address) received u n h =
      group_call-IsIdle asio.leave_group address received u h

  run-IsIdle :
      (es : List Event) (received : List (Bytes × UdpEndpoint)) (u : UdpTransport S)
      → count_starts es ≡ 0
      → IsIdle received u
      → IsIdle received (run asio es u)
  run-IsIdle [] received u n h = h
  run-IsIdle (e ∷ es) received u n h =
      run-IsIdle es received (step asio e u) (omega arith)
        (step-IsIdle e received u (omega arith) h)

-- Where one read is pending and it completes with an error, the transport stays bound and receiving
-- as it was, and no datagram reaches the callback any more, whatever is called but start_receive.
pub run-after_error :
    {S : Type 0} (asio : Socket S) (es : List Event) (u : UdpTransport S)
    → u.pending_reads ≡ 1
    → count_starts es ≡ 0
    → ((complete_read failed u).bound ≡ u.bound)
      × ((complete_read failed u).receiving ≡ u.receiving)
      × ((run asio es (complete_read failed u)).received ≡ u.received)
unfolding complete_read handle_receive
run-after_error asio es u p n =
    let quiet = run-IsIdle asio es u.received (record u { pending_reads = 0 }) n (refl, refl) in
    rw p (refl, refl, quiet.1)
