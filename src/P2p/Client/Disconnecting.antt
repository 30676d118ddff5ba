-- ===== src/P2p/Client/Disconnecting.antt =====
-- What remains possible after a call of `disconnect`.
use chain_forge.Base.Map.Laws.{length-erase}
use chain_forge.P2p.Client.Reports.{
  close-Adds, async_connect-Adds, complete_read-Adds, on_current-budget, updated-budget,
  schedule-budget, count_ups, budget,
}
use chain_forge.Core.Bytes.{Bytes}
use chain_forge.P2p.Client.{
  on, set_connection_callback, is_completed, complete_connect, insert, disable_auto_reconnect,
  erase, stop_receive, lookup, start_receive, connection_of, updated, on_current, attempt_ended,
  reconnected, on_callbacks, TcpClient, schedule_reconnect, on_connection, disconnect, is_connected,
  timer_expires,
}
use chain_forge.P2p.Tcp as Tcp
use chain_forge.P2p.Tcp.{Callback, connection, received, TcpConnection, Completion}
use chain_forge.Base.{
  ◌+◌, ◌≤◌, inr, inl, Bool-cases, true, false, length, nat_eq, refl, drop, ◌∷◌, false, arith, ◌≡◌,
  List, Option, none, some, [], Bool, ℕ,
}

-- Events that neither connect nor enable the automatic reconnection: the timer, the attempts and reads of
-- any connection that complete, and the other calls of the client.
pub data Event : Type 0 where
  expires receives stops disconnects disables : Event
  attempt_completes : ℕ → Completion (Unit {0}) → Event
  read_completes : ℕ → Completion Bytes → Event
  sets_callback : Bool → Event

abbrev pub step : Event → TcpClient → TcpClient
step expires c = timer_expires c
step receives c = start_receive c
step stops c = stop_receive c
step disconnects c = disconnect c
step disables c = disable_auto_reconnect c
step (attempt_completes id outcome) c = complete_connect id outcome c
step (read_completes id outcome) c = on id (Tcp.complete_read outcome) c
step (sets_callback given) c = set_connection_callback given c

abbrev pub run : List Event → TcpClient → TcpClient
run [] c = c
run (e ∷ es) c = run es (step e c)

-- The client has no connection, its timer will not start one, and it made `n` of them.
abbrev pub IsOff : ℕ → TcpClient → Type 0
IsOff n c = (c.current ≡ none) × (c.auto_reconnect ≡ false) × (c.waiting ≡ false) × (c.next_id ≡ n)

-- The same, but for the connection at hand.
abbrev IsQuiet : Option ℕ → ℕ → TcpClient → Type 0
IsQuiet current n c =
    (c.current ≡ current) × (c.auto_reconnect ≡ false) × (c.waiting ≡ false) × (c.next_id ≡ n)

on_connection-IsQuiet :
    (current : Option ℕ) (n : ℕ) (up : Bool) (c : TcpClient)
    → IsQuiet current n c
    → IsQuiet current n (on_connection up c)
unfolding on_connection schedule_reconnect
on_connection-IsQuiet current n up c h = ground arith

on_callbacks-IsQuiet :
    (current : Option ℕ) (n : ℕ) (cs : List Callback) (c : TcpClient)
    → IsQuiet current n c
    → IsQuiet current n (on_callbacks cs c)
on_callbacks-IsQuiet current n [] c h = h
on_callbacks-IsQuiet current n (connection up ∷ cs) c h =
    on_callbacks-IsQuiet current n cs (on_connection up c) (on_connection-IsQuiet current n up c h)
on_callbacks-IsQuiet current n (received bytes ∷ cs) c h = on_callbacks-IsQuiet current n cs c h

updated-IsQuiet :
    (current : Option ℕ) (n id : ℕ) (f : TcpConnection → TcpConnection) (t : Option TcpConnection)
    (c : TcpClient)
    → IsQuiet current n c
    → IsQuiet current n (updated id f t c)
updated-IsQuiet current n id f none c h = h
updated-IsQuiet current n id f (some t) c h =
    on_callbacks-IsQuiet current n (drop (length t.callbacks) (f t).callbacks)
      (record c { connections = insert id (f t) c.connections }) h

on_current-IsQuiet :
    (current : Option ℕ) (n : ℕ) (f : TcpConnection → TcpConnection) (id : Option ℕ) (c : TcpClient)
    → IsQuiet current n c
    → IsQuiet current n (on_current f id c)
on_current-IsQuiet current n f none c h = h
on_current-IsQuiet current n f (some id) c h =
    updated-IsQuiet current n id f (lookup id c.connections) c h

reconnected-IsOff : (n : ℕ) (b : Bool) (c : TcpClient) → IsOff n c → IsOff n (reconnected b c)
unfolding schedule_reconnect
reconnected-IsOff n true c h = h
reconnected-IsOff n false c (u, a, w, i) = rw a (refl, refl, w, i)

attempt_ended-IsOff :
    (n id : ℕ) (outcome : Completion (Unit {0})) (a : Option Bool) (c : TcpClient)
    → IsOff n c
    → IsOff n (attempt_ended id outcome a c)
attempt_ended-IsOff n id outcome none c h = h
attempt_ended-IsOff n id outcome (some false) c h =
    updated-IsQuiet none n id (Tcp.async_connect outcome) (lookup id c.connections)
      (record c { attempts = erase id c.attempts }) h
attempt_ended-IsOff n id outcome (some true) c h =
    reconnected-IsOff n (is_completed outcome)
      (on id (Tcp.async_connect outcome) (record c { attempts = erase id c.attempts }))
      (updated-IsQuiet none n id (Tcp.async_connect outcome) (lookup id c.connections)
        (record c { attempts = erase id c.attempts }) h)

disconnect-IsOff : (c : TcpClient) → IsOff c.next_id (disconnect c)
unfolding disconnect
disconnect-IsOff c =
    let off = record c { auto_reconnect = false; waiting = false } in
    let (u, a, w, i) =
      on_current-IsQuiet c.current c.next_id Tcp.close c.current off (refl, refl, refl, refl) in
    (refl, a, w, i)

step-IsOff : (n : ℕ) (e : Event) (c : TcpClient) → IsOff n c → IsOff n (step e c)
unfolding timer_expires start_receive stop_receive disable_auto_reconnect complete_connect
    set_connection_callback
step-IsOff n expires c (u, a, w, i) = rw w (u, a, refl, i)
step-IsOff n receives c h = elim (Bool-cases (is_connected c)) [
  | inl e ↦ rw e (on_current-IsQuiet none n Tcp.start_receive c.current c h)
  | inr e ↦ rw e h
]
step-IsOff n stops c h = on_current-IsQuiet none n Tcp.stop_receive c.current c h
step-IsOff n disconnects c (u, a, w, i) = rw⁻¹ i (disconnect-IsOff c)
step-IsOff n disables c (u, a, w, i) = (u, refl, refl, i)
step-IsOff n (attempt_completes id outcome) c h =
    attempt_ended-IsOff n id outcome (lookup id c.attempts) c h
step-IsOff n (read_completes id outcome) c h =
    updated-IsQuiet none n id (Tcp.complete_read outcome) (lookup id c.connections) c h
step-IsOff n (sets_callback given) c h = h

run-IsOff : (n : ℕ) (es : List Event) (c : TcpClient) → IsOff n c → IsOff n (run es c)
run-IsOff n [] c h = h
run-IsOff n (e ∷ es) c h = run-IsOff n es (step e c) (step-IsOff n e c h)

reconnected-budget : (b : Bool) (c : TcpClient) → budget (reconnected b c) ≤ budget c
reconnected-budget true c = omega arith
reconnected-budget false c = omega (arith, schedule-budget (record c { current = none }))

attempt-budget :
    (id : ℕ) (outcome : Completion (Unit {0})) (a : Option Bool) (c : TcpClient)
    → lookup id c.attempts ≡ a
    → budget (attempt_ended id outcome a c) ≤ budget c
attempt-budget id outcome none c at = omega arith
attempt-budget id outcome (some by_timer) c at =
    let left = record c { attempts = erase id c.attempts } in
    let ended = on id (Tcp.async_connect outcome) left in
    let one_less = length-erase id by_timer c.attempts at in
    let reported =
      updated-budget 1 id (Tcp.async_connect outcome) (lookup id c.connections) left
        (async_connect-Adds outcome) in
    elim (Bool-cases by_timer) [
      | inl y ↦
          rw y (omega (arith, reconnected-budget (is_completed outcome) ended, reported, one_less))
      | inr n ↦ rw n (omega (arith, reported, one_less))
    ]

disconnect-budget : (c : TcpClient) → budget (disconnect c) ≤ budget c
unfolding disconnect
disconnect-budget c = omega (
  arith,
  on_current-budget Tcp.close c.current (record c { auto_reconnect = false; waiting = false })
      close-Adds,
)

step-budget : (n : ℕ) (e : Event) (c : TcpClient) → IsOff n c → budget (step e c) ≤ budget c
unfolding timer_expires start_receive stop_receive disable_auto_reconnect complete_connect
    set_connection_callback
step-budget n expires c (u, a, w, i) = rw w (omega arith)
step-budget n receives c (u, a, w, i) = rw u (ground arith)
step-budget n stops c (u, a, w, i) = rw u (omega arith)
step-budget n disconnects c h = disconnect-budget c
step-budget n disables c h = omega arith
step-budget n (attempt_completes id outcome) c h =
    attempt-budget id outcome (lookup id c.attempts) c refl
step-budget n (read_completes id outcome) c h = omega (
  arith,
  updated-budget 0 id (Tcp.complete_read outcome) (lookup id c.connections) c
      (λ t. complete_read-Adds outcome t.pending_reads t refl),
)
step-budget n (sets_callback given) c h = omega arith

run-budget : (n : ℕ) (es : List Event) (c : TcpClient) → IsOff n c → budget (run es c) ≤ budget c
run-budget n [] c h = omega arith
run-budget n (e ∷ es) c h =
    omega (arith, step-budget n e c h, run-budget n es (step e c) (step-IsOff n e c h))

-- After disconnect the client has no connection, the timer has no wait and no connection object is
-- made, whatever happens but a call of connect, async_connect or enable_auto_reconnect, also
-- where attempts and reads of the connections it had complete later, with any result. An attempt that
-- was under way may still succeed: the callback is told of at most as many connections as there
-- were such attempts.
pub disconnect-IsFinal :
    (es : List Event) (c : TcpClient)
    → (is_connected (run es (disconnect c)) ≡ false)
      × ((run es (disconnect c)).waiting ≡ false)
      × ((run es (disconnect c)).next_id ≡ c.next_id)
      × (count_ups (run es (disconnect c)).notified ≤ count_ups c.notified + length c.attempts)
unfolding is_connected connection_of
disconnect-IsFinal es c =
    let (u, a, w, i) = run-IsOff c.next_id es (disconnect c) (disconnect-IsOff c) in
    (
      rw u refl,
      w,
      i,
      omega
          (arith, disconnect-budget c, run-budget c.next_id es (disconnect c) (disconnect-IsOff c)),
    )
