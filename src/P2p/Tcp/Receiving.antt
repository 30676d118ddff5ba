-- ===== src/P2p/Tcp/Receiving.antt =====
-- The receive loop through any sequence of calls and completions.
use chain_forge.P2p.Tcp.{
  TcpConnection, Completion, completed, eof, connection_reset, other_error, exception, Callback,
  connection, received, connect, async_connect, send, receive, do_receive, start_receive,
  stop_receive, handle_receive, complete_read, close, set_connection_callback,
}
use chain_forge.Core.Bytes.{Bytes}
use chain_forge.Base.{refl, ℕ, suc, ◌+◌, ◌≤◌, ◌≡◌, Bool, true, false, List, [], ◌∷◌, ◌++◌, arith}

-- What happens to a connection.
pub data Event : Type 0 where
  connects async_connects : Completion (Unit {0}) → Event
  sends : Completion ℕ → Event
  receives reads : Completion Bytes → Event
  starts stops closes : Event
  sets_callback : Bool → Event

abbrev pub step : Event → TcpConnection → TcpConnection
step (connects o) c = (connect o c).1
step (async_connects o) c = async_connect o c
step (sends o) c = (send o c).1
step (receives o) c = (receive o c).1
step (reads o) c = complete_read o c
step starts c = start_receive c
step stops c = stop_receive c
step closes c = close c
step (sets_callback given) c = set_connection_callback given c

abbrev pub run : List Event → TcpConnection → TcpConnection
run [] c = c
run (e ∷ es) c = run es (step e c)

-- The calls of `start_receive` among the events.
abbrev pub count_starts : List Event → ℕ
count_starts [] = 0
count_starts (starts ∷ es) = suc (count_starts es)
count_starts (_ ∷ es) = count_starts es

-- The buffers that the receive callback was given.
abbrev pub deliveries : List Callback → ℕ
deliveries [] = 0
deliveries (connection up ∷ cs) = deliveries cs
deliveries (received bytes ∷ cs) = suc (deliveries cs)

-- How many reads a step may add.
abbrev starts_in : Event → ℕ
starts_in starts = 1
starts_in _ = 0

count_starts-cons :
    (e : Event) (es : List Event) → count_starts (e ∷ es) ≡ starts_in e + count_starts es
count_starts-cons starts es = omega arith
count_starts-cons (connects o) es = omega arith
count_starts-cons (async_connects o) es = omega arith
count_starts-cons (sends o) es = omega arith
count_starts-cons (receives o) es = omega arith
count_starts-cons (reads o) es = omega arith
count_starts-cons stops es = omega arith
count_starts-cons closes es = omega arith
count_starts-cons (sets_callback given) es = omega arith

step-pending_reads :
    (e : Event) (c : TcpConnection) → (step e c).pending_reads ≤ c.pending_reads + starts_in e
unfolding connect async_connect send receive do_receive start_receive stop_receive handle_receive
    complete_read close set_connection_callback
step-pending_reads (connects o) c = ground arith
step-pending_reads (async_connects o) c = ground arith
step-pending_reads (sends o) c = ground arith
step-pending_reads (receives o) c = ground arith
step-pending_reads (reads (completed [])) c = ground arith
step-pending_reads (reads (completed (b ∷ bs))) c = ground arith
step-pending_reads (reads eof) c = ground arith
step-pending_reads (reads connection_reset) c = ground arith
step-pending_reads (reads other_error) c = ground arith
step-pending_reads (reads exception) c = ground arith
step-pending_reads starts c = ground arith
step-pending_reads stops c = ground arith
step-pending_reads closes c = ground arith
step-pending_reads (sets_callback given) c = ground arith

-- Each call of `start_receive` adds one read at most to those that are pending, and nothing else
-- does: a completed read is replaced by one at most.
pub run-pending_reads :
    (es : List Event) (c : TcpConnection)
    → (run es c).pending_reads ≤ c.pending_reads + count_starts es
run-pending_reads [] c = omega arith
run-pending_reads (e ∷ es) c =
    omega (arith, step-pending_reads e c, run-pending_reads es (step e c), count_starts-cons e es)

deliveries-append : (cs ds : List Callback) → deliveries (cs ++ ds) ≡ deliveries cs + deliveries ds
deliveries-append [] ds = omega arith
deliveries-append (connection up ∷ cs) ds = deliveries-append cs ds
deliveries-append (received bytes ∷ cs) ds = omega (arith, deliveries-append cs ds)

-- What can still be delivered, and was.
abbrev budget : TcpConnection → ℕ
budget c = deliveries c.callbacks + c.pending_reads

step-budget :
    (e : Event) (c : TcpConnection)
    → c.receiving ≡ false
    → starts_in e ≡ 0
    → ((step e c).receiving ≡ false) × (budget (step e c) ≤ budget c)
unfolding connect async_connect send receive do_receive start_receive stop_receive handle_receive
    complete_read close set_connection_callback
step-budget (connects o) c h n =
    ground (arith, deliveries-append c.callbacks (connection true ∷ []))
step-budget (async_connects o) c h n =
    ground (arith, deliveries-append c.callbacks (connection true ∷ []))
step-budget (sends o) c h n = ground arith
step-budget (receives o) c h n = ground arith
step-budget (reads (completed [])) c h n = ground arith
step-budget (reads (completed (b ∷ bs))) c h n =
    ground (arith, deliveries-append c.callbacks (received (b ∷ bs) ∷ []))
step-budget (reads eof) c h n =
    ground (arith, deliveries-append c.callbacks (connection false ∷ []))
step-budget (reads connection_reset) c h n =
    ground (arith, deliveries-append c.callbacks (connection false ∷ []))
step-budget (reads other_error) c h n = ground arith
step-budget (reads exception) c h n = ground arith
step-budget starts c h n = absurd (omega arith)
step-budget stops c h n = ground arith
step-budget closes c h n = ground (arith, deliveries-append c.callbacks (connection false ∷ []))
step-budget (sets_callback given) c h n = ground arith

run-budget :
    (es : List Event) (c : TcpConnection)
    → c.receiving ≡ false
    → count_starts es ≡ 0
    → budget (run es c) ≤ budget c
run-budget [] c h n = omega arith
run-budget (e ∷ es) c h n =
    let split = count_starts-cons e es in
    let (still, less) = step-budget e c h (omega (arith, split)) in
    omega (arith, less, run-budget es (step e c) still (omega (arith, split)))

close-budget :
    (c : TcpConnection)
    → c.connected ≡ true
    → ((close c).receiving ≡ false) × (budget (close c) ≡ budget c)
unfolding close
close-budget c up = ground (arith, deliveries-append c.callbacks (connection false ∷ []))

-- A call of `stop_receive`, or of `close` on a connection that is not closed already
abbrev pub IsEnding : Event → TcpConnection → Type 0
IsEnding stops c = Unit {0}
IsEnding closes c = c.connected ≡ true
IsEnding _ c = ⊥

ending-budget :
    (e : Event) (c : TcpConnection)
    → IsEnding e c
    → ((step e c).receiving ≡ false) × (budget (step e c) ≡ budget c)
unfolding stop_receive
ending-budget stops c h = (refl, refl)
ending-budget closes c h = close-budget c h
ending-budget (connects o) c h = absurd h
ending-budget (async_connects o) c h = absurd h
ending-budget (sends o) c h = absurd h
ending-budget (receives o) c h = absurd h
ending-budget (reads o) c h = absurd h
ending-budget starts c h = absurd h
ending-budget (sets_callback given) c h = absurd h

-- Behind a call of `stop_receive`, or of `close` on a connection that is not closed already, and
-- until `start_receive` is called again, the receive callback is called at most as many times as
-- reads were pending then, whatever else is called, connecting again included.
pub run-deliveries :
    (e : Event) (es : List Event) (c : TcpConnection)
    → IsEnding e c
    → count_starts es ≡ 0
    → deliveries (run (e ∷ es) c).callbacks + (run (e ∷ es) c).pending_reads
      ≤ deliveries c.callbacks + c.pending_reads
run-deliveries e es c h n =
    let (stopped, same) = ending-budget e c h in
    omega (arith, same, run-budget es (step e c) stopped n)
