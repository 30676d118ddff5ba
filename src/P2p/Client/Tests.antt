-- ===== src/P2p/Client/Tests.antt =====
-- The client at concrete histories of connections that are lost, made again and given up.
use chain_forge.P2p.Client.Reports.{count_ups}
use chain_forge.Base.Text.{codes}
use chain_forge.P2p.Tcp as Tcp
use chain_forge.P2p.Tcp.{completed, eof, other_error}
use chain_forge.P2p.Client.{
  TcpClient, new_client, connect, enable_auto_reconnect, start_receive, set_connection_callback, on,
  timer_expires, complete_connect, is_connected, on_connection, disconnect,
}
use chain_forge.P2p.Client.Disconnecting.{
  Event, expires, receives, attempt_completes, read_completes, run, disconnect-IsFinal,
}
use chain_forge.Base.{length, ◌+◌, ◌≤◌, [], refl, false, ◌∷◌, List, true, ◌≡◌}

-- Connected with automatic reconnection, and receiving.
abbrev live : TcpClient
live = start_receive (
    (connect (completed tt) (codes "peer") 8333
      (enable_auto_reconnect (set_connection_callback true new_client))).1)

-- The peer closed the connection, and an attempt to connect again is under way.
abbrev reconnecting : TcpClient
reconnecting = timer_expires (on 0 (Tcp.complete_read eof) live)

lost_and_found :
    (is_connected live ≡ true)
    × (is_connected reconnecting ≡ false)
    × (is_connected (complete_connect 1 (completed tt) reconnecting) ≡ true)
    × ((complete_connect 1 (completed tt) reconnecting).notified ≡ true ∷ false ∷ true ∷ [])
unfolding new_client connect enable_auto_reconnect set_connection_callback start_receive
    timer_expires is_connected complete_connect Tcp.set_connection_callback Tcp.create Tcp.connect
    on_connection Tcp.start_receive Tcp.complete_read Tcp.handle_receive Tcp.async_connect
lost_and_found = (refl, refl, refl, refl)

-- A second connection is made before the attempt fails, and is dropped when it does.
stale_failure :
    (is_connected (connect (completed tt) (codes "peer") 8333 reconnecting).1 ≡ true)
    × (is_connected (
          complete_connect 1 other_error
            (connect (completed tt) (codes "peer") 8333 reconnecting).1)
        ≡ false)
unfolding new_client connect enable_auto_reconnect set_connection_callback start_receive
    timer_expires is_connected complete_connect Tcp.set_connection_callback Tcp.create Tcp.connect
    on_connection Tcp.start_receive Tcp.complete_read Tcp.handle_receive Tcp.async_connect
stale_failure = (refl, refl)

abbrev afterwards : List Event
afterwards =
    expires ∷ attempt_completes 1 (completed tt) ∷ receives ∷ read_completes 1 eof ∷ expires ∷ []

disconnect-IsFinal_example :
    (is_connected (run afterwards (disconnect reconnecting)) ≡ false)
    × ((run afterwards (disconnect reconnecting)).waiting ≡ false)
    × ((run afterwards (disconnect reconnecting)).next_id ≡ reconnecting.next_id)
    × (count_ups (run afterwards (disconnect reconnecting)).notified
        ≤ count_ups reconnecting.notified + length reconnecting.attempts)
disconnect-IsFinal_example = disconnect-IsFinal afterwards reconnecting

-- The attempt that was under way succeeds behind the call of `disconnect`, and is reported.
late_report : (run afterwards (disconnect reconnecting)).notified ≡ true ∷ false ∷ true ∷ []
unfolding new_client connect enable_auto_reconnect set_connection_callback start_receive
    timer_expires is_connected complete_connect disconnect Tcp.close Tcp.set_connection_callback
    Tcp.create Tcp.connect on_connection Tcp.start_receive Tcp.complete_read Tcp.handle_receive
    Tcp.async_connect
late_report = refl
