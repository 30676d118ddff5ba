-- ===== src/P2p/Tcp/Tests.antt =====
-- The theorems about a connection's receive loop at a concrete history.
use chain_forge.Base.{◌+◌, ◌≤◌, ◌≡◌, refl, true, false, List, [], ◌∷◌}
use chain_forge.P2p.Tcp.{
  complete_read, handle_receive, receive, connect, close, TcpConnection, completed, eof, create,
  start_receive, do_receive,
}
use chain_forge.P2p.Tcp.Receiving.{
  receives, connects, Event, starts, reads, closes, sets_callback, run, deliveries, run-deliveries,
}

abbrev listening : List Event
listening =
    sets_callback true ∷ starts ∷ reads (completed (1 ∷ [])) ∷ starts ∷ closes ∷ reads eof ∷ []

-- Two reads are pending, since the loop was started twice.
abbrev started : TcpConnection
started = record {
  connected = true;
  receiving = true;
  has_receive_callback = true;
  has_connection_callback = false;
  pending_reads = 2;
  callbacks = [];
}

twice_started : start_receive (start_receive (create true)) ≡ started
unfolding create start_receive do_receive
twice_started = refl

-- The connection is closed, and made again.
abbrev late : List Event
late =
    reads (completed (1 ∷ []))
    ∷ connects (completed tt)
    ∷ reads (completed (2 ∷ []))
    ∷ reads (completed (3 ∷ []))
    ∷ []

run-deliveries_example :
    deliveries (run (closes ∷ late) started).callbacks + (run (closes ∷ late) started).pending_reads
    ≤ 0 + 2
run-deliveries_example = run-deliveries closes late started refl refl

-- A connection that its peer closed is not stopped by `close`: it goes on reading when it is
-- connected again.
closed_by_peer :
    deliveries (run (receives eof ∷ closes ∷ connects (completed tt) ∷ late) started).callbacks ≡ 3
unfolding close connect receive handle_receive do_receive complete_read
closed_by_peer = refl
