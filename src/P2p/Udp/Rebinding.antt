-- ===== src/P2p/Udp/Rebinding.antt =====
-- A call of bind that fails leaves the socket open.
use chain_forge.P2p.Udp.History.{
  Event, binds, closes, starts, stops, reads, sends, async_sends, broadcasts, joins, leaves, step,
  run,
}
use chain_forge.P2p.Udp.{
  after_open, failed, datagram, deliver, datagram, after_bind, completed_of, leave_multicast,
  join_multicast, broadcast, do_receive, async_send_to, handle_receive, send_to, complete_read,
  stop_receive, bind_failed, of_error, start_receive, Bytes, close, bind, UdpTransport, Arrival,
  Socket,
}
use chain_forge.Base.Text.{Text}
use chain_forge.Base.{
  zero, suc, length, ltb, ◌&&◌, suc, inr, inl, refl, Bool-cases, [], none, true, ◌∷◌, false, some,
  ◌≡◌, List, Bool, ℕ,
}

-- A socket that is open stays open until it is closed, and is not opened again.
pub record IsDocumented {S : Type 0} (asio : Socket S) : Type 0 where
  pub open_is_open :
      (address : Text) (s s' : S) → asio.open_socket address s ≡ some s' → asio.is_open s' ≡ true
  pub open_again :
      (address : Text) (s : S) → asio.is_open s ≡ true → asio.open_socket address s ≡ none
  pub reuse_is_open : (s : S) → asio.is_open (asio.set_reuse_address s) ≡ asio.is_open s
  pub bind_is_open :
      (address : Text) (port : ℕ) (s : S)
      → asio.is_open ((asio.bind address port s).1) ≡ asio.is_open s
  pub send_is_open :
      (bytes : Bytes) (address : Text) (port : ℕ) (s : S)
      → asio.is_open (asio.async_send_to bytes address port s) ≡ asio.is_open s

module _ {S : Type 0} (asio : Socket S) where
  -- Open, and not bound
  abbrev pub IsStuck : UdpTransport S → Type 0
  IsStuck u = (u.bound ≡ false) × (asio.is_open u.socket ≡ true)

  module _ (documented : IsDocumented asio) where
    bind_again-IsStuck :
        (port : ℕ) (address : Text) (u : UdpTransport S)
        → IsStuck u
        → IsStuck ((bind asio port address u).1)
          × ((bind asio port address u).0 ≡ of_error bind_failed)
    unfolding bind
    bind_again-IsStuck port address u (b, o) = elim (Bool-cases (asio.is_address address)) [
      | inl e ↦ rw (b, e, documented.open_again address u.socket o) ((refl, o), refl)
      | inr e ↦ rw (b, e) ((refl, o), refl)
    ]

    do_receive-IsStuck : (u : UdpTransport S) → IsStuck u → IsStuck (do_receive u)
    unfolding do_receive
    do_receive-IsStuck u (b, o) = elim (Bool-cases u.receiving) [
      | inl e ↦ rw (e, b) (refl, o)
      | inr e ↦ rw (e, b) (refl, o)
    ]

    handle_receive-IsStuck :
        (a : Arrival) (u : UdpTransport S) → IsStuck u → IsStuck (handle_receive a u)
    unfolding handle_receive
    handle_receive-IsStuck failed u h = h
    handle_receive-IsStuck (datagram bytes sender) u h =
        elim (Bool-cases (u.has_callback && ltb 0 (length bytes))) [
          | inl e ↦ do_receive-IsStuck (deliver bytes sender u) (rw e h)
          | inr e ↦ do_receive-IsStuck (deliver bytes sender u) (rw e h)
        ]

    completed_of-IsStuck :
        (a : Arrival) (n : ℕ) (u : UdpTransport S) → IsStuck u → IsStuck (completed_of a n u)
    completed_of-IsStuck a zero u h = h
    completed_of-IsStuck a (suc n) u h = handle_receive-IsStuck a (record u { pending_reads = n }) h

    async_send_to-IsStuck :
        (bytes : Bytes) (address : Text) (port : ℕ) (u : UdpTransport S)
        → IsStuck u
        → IsStuck ((async_send_to asio bytes address port u).1)
    unfolding async_send_to
    async_send_to-IsStuck bytes address port u (b, o) =
        let sent = documented.send_is_open bytes address port u.socket in
        elim (Bool-cases (asio.is_address address)) [
          | inl e ↦ rw (e, sent) (b, o)
          | inr e ↦ rw e (b, o)
        ]

    step-IsStuck : (e : Event) (u : UdpTransport S) → IsStuck u → IsStuck (step asio e u)
    unfolding close start_receive stop_receive complete_read send_to broadcast join_multicast
        leave_multicast
    step-IsStuck (binds port address) u h = (bind_again-IsStuck port address u h).0
    step-IsStuck closes u (b, o) = rw b (refl, o)
    step-IsStuck starts u h =
        do_receive-IsStuck (record u { has_callback = true; receiving = true }) h
    step-IsStuck stops u h = h
    step-IsStuck (reads a) u h = completed_of-IsStuck a u.pending_reads u h
    step-IsStuck (sends bytes address port) u (b, o) = rw b (refl, o)
    step-IsStuck (async_sends bytes address port) u h = async_send_to-IsStuck bytes address port u h
    step-IsStuck (broadcasts bytes port) u (b, o) = rw b (refl, o)
    step-IsStuck (joins address) u (b, o) = rw b (refl, o)
    step-IsStuck (leaves address) u (b, o) = rw b (refl, o)

    run-IsStuck : (es : List Event) (u : UdpTransport S) → IsStuck u → IsStuck (run asio es u)
    run-IsStuck [] u h = h
    run-IsStuck (e ∷ es) u h = run-IsStuck es (step asio e u) (step-IsStuck e u h)

after_bind-fails :
    {S : Type 0} (asio : Socket S) (port : ℕ) (r : Bool × S) (u : UdpTransport S)
    → r.0 ≡ false
    → after_bind asio port r u ≡ (of_error bind_failed, record u { socket = r.1 })
after_bind-fails asio port (false, s) u h = refl
after_bind-fails asio port (true, s) u h = absurd cc

bind-IsStuck :
    {S : Type 0} (asio : Socket S)
    → IsDocumented asio
    → (u : UdpTransport S) (port : ℕ) (address : Text) (s : S) → u.bound ≡ false
    → asio.is_address address ≡ true
    → asio.open_socket address u.socket ≡ some s
    → (asio.bind address port (asio.set_reuse_address s)).0 ≡ false
    → ((bind asio port address u).0 ≡ of_error bind_failed)
      × IsStuck asio ((bind asio port address u).1)
unfolding bind
bind-IsStuck asio documented u port address s b a o f =
    let bound_to = asio.bind address port (asio.set_reuse_address s) in
    let kept_open = documented.bind_is_open address port (asio.set_reuse_address s) in
    rw (b, a, o, after_open, after_bind-fails asio port bound_to (record u { bound = false }) f)
      (
        refl,
        (
          refl,
          rw (kept_open, documented.reuse_is_open s) (documented.open_is_open address u.socket s o),
        ),
      )

-- With a socket that stays open until it is closed and is not opened twice: once the socket of an unbound transport
-- was opened and could not be bound to its port, every later call of bind fails, with any port and
-- address and whatever was called in between, close included, and the socket is never closed.
pub bind-fails_again :
    {S : Type 0} (asio : Socket S)
    → IsDocumented asio
    → (u : UdpTransport S) (port port' : ℕ) (address address' : Text) (s : S) (es : List Event)
    → u.bound ≡ false
    → asio.is_address address ≡ true
    → asio.open_socket address u.socket ≡ some s
    → (asio.bind address port (asio.set_reuse_address s)).0 ≡ false
    → ((bind asio port address u).0 ≡ of_error bind_failed)
      × ((bind asio port' address' (run asio es (bind asio port address u).1)).0
          ≡ of_error bind_failed)
      × (asio.is_open (run asio es (bind asio port address u).1).socket ≡ true)
bind-fails_again asio documented u port port' address address' s es b a o f =
    let (failed_once, stuck) = bind-IsStuck asio documented u port address s b a o f in
    let later = run-IsStuck asio documented es (bind asio port address u).1 stuck in
    (
      failed_once,
      (bind_again-IsStuck asio documented port' address' (run asio es (bind asio port address u).1)
          later).1,
      later.1,
    )
