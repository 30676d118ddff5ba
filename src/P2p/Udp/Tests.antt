-- ===== src/P2p/Udp/Tests.antt =====
-- The theorems about the transport with a socket that is open or not, and cannot be bound to port 80.
use chain_forge.Base.Text.{Text, codes}
use chain_forge.Errors.Expected.{of_error}
use chain_forge.P2p.Udp.{
  Socket, UdpTransport, bind_failed, failed, datagram, bind, start_receive, do_receive,
  complete_read,
}
use chain_forge.P2p.Udp.History.{
  Event, binds, closes, starts, stops, reads, async_sends, broadcasts, run,
}
use chain_forge.P2p.Udp.Rebinding.{IsDocumented, bind-fails_again}
use chain_forge.P2p.Udp.Receiving.{run-after_error}
use chain_forge.Base.{
  nat_eq, ◌==◌, not, some, [], length, none, refl, ◌∷◌, ltb, true, false, List, if◌then◌else◌, ◌≡◌,
  Bool,
}

abbrev one_port_taken : Socket Bool
one_port_taken = record {
  is_address = λ address. ltb 0 (length address);
  is_v4 = λ address. true;
  is_open = λ s. s;
  open_socket = λ address s. if s then none else some true;
  set_reuse_address = λ s. s;
  bind = λ address port s. (not (port == 80), s);
  close = λ s. false;
  set_broadcast = λ s. (true, s);
  send_to = λ bytes address port s. (some (length bytes), s);
  async_send_to = λ bytes address port s. s;
  join_group = λ address s. (true, s);
  leave_group = λ address s. (true, s);
  local_endpoint = λ s. none;
}

opens-IsOpen : (s s' : Bool) → (if s then none else some true) ≡ some s' → s' ≡ true
opens-IsOpen true s' h = absurd cc
opens-IsOpen false s' h = cc

abbrev one_port_taken-IsDocumented : IsDocumented one_port_taken
one_port_taken-IsDocumented = record {
  open_is_open = λ address s s' h. opens-IsOpen s s' h;
  open_again = λ address s h. rw h refl;
  reuse_is_open = λ s. refl;
  bind_is_open = λ address port s. refl;
  send_is_open = λ bytes address port s. refl;
}

abbrev unbound : UdpTransport Bool
unbound = record {
  socket = false;
  bound = false;
  port = 0;
  receiving = false;
  has_callback = false;
  pending_reads = 0;
  received = [];
}

abbrev any : Text
any = codes "0.0.0.0"

abbrev second_try : List Event
second_try = closes ∷ async_sends (1 ∷ []) any 9000 ∷ starts ∷ binds 9001 any ∷ closes ∷ []

bind-fails_again_example :
    ((bind one_port_taken 80 any unbound).0 ≡ of_error bind_failed)
    × ((bind one_port_taken 9000 any
          (run one_port_taken second_try (bind one_port_taken 80 any unbound).1)).0
        ≡ of_error bind_failed)
    × (one_port_taken.is_open
          (run one_port_taken second_try (bind one_port_taken 80 any unbound).1).socket
        ≡ true)
bind-fails_again_example =
    bind-fails_again one_port_taken one_port_taken-IsDocumented unbound 80 9000 any any true
      second_try refl refl refl refl

-- A port that is free is bound, and a transport that receives has one read pending.
bound_and_receiving : (run one_port_taken (binds 9000 any ∷ starts ∷ []) unbound).pending_reads ≡ 1
unfolding bind start_receive do_receive
bound_and_receiving = refl

abbrev receiving_transport : UdpTransport Bool
receiving_transport = record {
  socket = true;
  bound = true;
  port = 9000;
  receiving = true;
  has_callback = true;
  pending_reads = 1;
  received = (7 ∷ [], (any, 9001)) ∷ [];
}

abbrev late : List Event
late =
    reads (datagram (1 ∷ []) (any, 9001)) ∷ broadcasts (2 ∷ []) 9000 ∷ stops ∷ binds 9000 any ∷ []

run-after_error_example :
    ((complete_read failed receiving_transport).bound ≡ true)
    × ((complete_read failed receiving_transport).receiving ≡ true)
    × ((run one_port_taken late (complete_read failed receiving_transport)).received
        ≡ receiving_transport.received)
run-after_error_example = run-after_error one_port_taken late receiving_transport refl refl
