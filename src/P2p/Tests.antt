-- ===== src/P2p/Tests.antt =====
-- The theorems about peers at concrete data.
use chain_forge.P2p.Discovery.Staleness.{cleanup-add_peer}
use chain_forge.P2p.Discovery.{add_peer, has_peer, cleanup_stale_peers}
use chain_forge.Base.{
  ℕ, ◌≡◌, refl, true, false, Option, none, some, List, [], ◌∷◌, ◌++◌, map, arith,
}
use chain_forge.Core.Bytes.{Bytes}
use chain_forge.P2p.Address.{age_seconds, PeerAddress, Addresses}
use chain_forge.P2p.Exchange.{serialize_peers, deserialize_peers}
use chain_forge.P2p.Exchange.RoundTrip.{IsWritable, seen_at, deserialize_peers-serialize_peers}
use chain_forge.P2p.Tcp.{completed}
use chain_forge.P2p.Server.{
  TcpServer, done, self_lock, new_server, start, do_accept, handle_accept, close_connection,
  remove_connection, stop,
}
use chain_forge.P2p.Server.Locking.{handle_accept-self_lock}
use chain_forge.P2p.Discovery.{PeerDiscovery, BootstrapConfig, make}
use chain_forge.P2p.Discovery.Messages.{discover}
use chain_forge.P2p.Discovery.Invariant.{Call, run, IsTidy, run-IsTidy}
use chain_forge.P2p.Discovery.Staleness.{AllStale}

-- Addresses that are a first and a second byte.
abbrev two_bytes : Bytes → Option (ℕ × ℕ)
two_bytes (a ∷ b ∷ []) = some (a, b)
two_bytes _ = none

abbrev pairs : Addresses (ℕ × ℕ)
pairs = record {
  make_address = two_bytes;
  is_loopback = λ a. false;
  is_multicast = λ a. false;
  is_unspecified = λ a. false;
  is_v4 = λ a. true;
  first_byte = λ a. a.0;
  second_byte = λ a. a.1;
  is_site_local = λ a. false;
  is_link_local = λ a. false;
}

abbrev peer : PeerAddress
peer = record { ip = 8 ∷ 8 ∷ []; port = 8333; last_seen = 0; services = 1 }

abbrev again : PeerAddress
again = record peer { last_seen = 90_000_000_000 }

peer-IsWritable : IsWritable peer
peer-IsWritable = record {
  ip_fits = omega arith;
  port_fits = omega arith;
  services_fit = omega arith;
}

deserialize_peers-serialize_peers_example :
    deserialize_peers 7 (serialize_peers (peer ∷ peer ∷ []) ++ (1 ∷ 2 ∷ []))
    ≡ map (seen_at 7) (peer ∷ peer ∷ [])
deserialize_peers-serialize_peers_example =
    deserialize_peers-serialize_peers 7 (peer ∷ peer ∷ []) (1 ∷ 2 ∷ []) (omega arith)
      (peer-IsWritable, (peer-IsWritable, tt))

abbrev hostile : Bytes
hostile = 255 ∷ 255 ∷ 255 ∷ 255 ∷ 2 ∷ 8 ∷ 8 ∷ 0 ∷ 80 ∷ 0 ∷ 0 ∷ 0 ∷ 1 ∷ 9 ∷ []

abbrev settings : BootstrapConfig
settings = record {
  static_nodes = peer ∷ [];
  dns_seeds = [];
  enable_mdns = true;
  enable_peer_exchange = true;
  discovery_port = 8333;
  discovery_interval = 30;
  max_peers = 2;
}

abbrev traffic : List Call
traffic =
    Call.starting (λ name. []) true 5
    ∷ Call.receiving 6 (discover ++ (b'8' ∷ b'0' ∷ [])) (9 ∷ 9 ∷ [])
    ∷ Call.exchanging (peer ∷ again ∷ [])
    ∷ Call.cleaning 100_000_000_000 10
    ∷ []

run-IsTidy_example : IsTidy pairs (λ ps. ps) (run pairs (λ ps. ps) traffic (make settings))
run-IsTidy_example = run-IsTidy pairs (λ ps. ps) settings traffic

abbrev knowing : PeerDiscovery
knowing = record (make settings) { peers = peer ∷ [] }

peer_stale : AllStale 100_000_000_000 60 again (peer ∷ [])
unfolding age_seconds
peer_stale = (λ e. omega arith, tt)

abbrev listening : TcpServer
listening = (start (completed tt) 8333 new_server).1

handle_accept-self_lock_example :
    (close_connection 5 (handle_accept true 5 listening) ≡ done (handle_accept false 5 listening))
    × (stop (handle_accept true 5 listening) ≡ self_lock)
    × (remove_connection 5 (handle_accept true 5 listening) ≡ self_lock)
unfolding start do_accept new_server
handle_accept-self_lock_example = handle_accept-self_lock listening 5 refl refl refl

cleanup-add_peer_example :
    (add_peer pairs again knowing ≡ (false, knowing))
    × (has_peer again (cleanup_stale_peers 100_000_000_000 60 ((add_peer pairs again knowing).1))
        ≡ false)
unfolding has_peer
cleanup-add_peer_example = cleanup-add_peer pairs 100_000_000_000 60 again knowing refl peer_stale
