-- ===== src/P2p/Udp/History.antt =====
-- The calls of a transport and the completions of its reads, one after another.
use chain_forge.P2p.Udp.{
  leave_multicast, join_multicast, broadcast, async_send_to, send_to, complete_read, stop_receive,
  start_receive, Bytes, close, bind, UdpTransport, Arrival, Socket,
}
use chain_forge.Base.Text.{Text}
use chain_forge.Base.{[], ◌∷◌, List, ℕ}

-- What happens to a transport.
pub data Event : Type 0 where
  binds : ℕ → Text → Event
  closes starts stops : Event
  reads : Arrival → Event
  sends async_sends : Bytes → Text → ℕ → Event
  broadcasts : Bytes → ℕ → Event
  joins leaves : Text → Event

module _ {S : Type 0} (asio : Socket S) where
  abbrev pub step : Event → UdpTransport S → UdpTransport S
  step (binds port address) u = (bind asio port address u).1
  step closes u = close asio u
  step starts u = start_receive u
  step stops u = stop_receive u
  step (reads a) u = complete_read a u
  step (sends bytes address port) u = (send_to asio bytes address port u).1
  step (async_sends bytes address port) u = (async_send_to asio bytes address port u).1
  step (broadcasts bytes port) u = (broadcast asio bytes port u).1
  step (joins address) u = (join_multicast asio address u).1
  step (leaves address) u = (leave_multicast asio address u).1

  abbrev pub run : List Event → UdpTransport S → UdpTransport S
  run [] u = u
  run (e ∷ es) u = run es (step e u)
