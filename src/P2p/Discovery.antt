-- ===== src/P2p/Discovery.antt =====
-- `PeerDiscovery` of modules/p2p/src/peer_discovery.cpp. Sockets, timers and logging are left out;
-- the resolver of names and the binding of the socket are parameters.
pub mod Messages
pub mod Peers
pub mod Invariant
pub mod Staleness
use chain_forge.Base.{
  ℕ, ◌+◌, ◌-◌, ◌*◌, ◌%◌, ◌^◌, Bool, true, false, not, ◌&&◌, ◌||◌, Option, none, some, List, [], ◌∷◌,
  ◌++◌, ◌==◌, nat_eq, bytes_eq, ltb, leb, if◌then◌else◌, length, take, drop,
}
use chain_forge.Core.Bytes.{Bytes}
use chain_forge.P2p.Address.{
  PeerAddress, TimePoint, Addresses, same_peer, peer_less, age_seconds, is_valid,
}
use chain_forge.P2p.Exchange.{deserialize_peers}

pub data DiscoveryError : Type 0 where
  invalid_address : DiscoveryError
  no_peers_found : DiscoveryError
  dns_resolution_failed : DiscoveryError
  broadcast_failed : DiscoveryError
  already_running : DiscoveryError
  not_running : DiscoveryError

pub data DiscoveryResult (A : Type 0) : Type 0 where
  success : A → DiscoveryResult A
  failure : DiscoveryError → DiscoveryResult A

pub record BootstrapConfig : Type 0 where
  pub static_nodes : List PeerAddress
  pub dns_seeds : List Bytes
  pub enable_mdns : Bool
  pub enable_peer_exchange : Bool
  pub discovery_port : ℕ
  pub discovery_interval : ℕ
  pub max_peers : ℕ

-- `peers` are in the order of the set; `notified` are the calls of the callback, the last one first.
pub record PeerDiscovery : Type 0 where
  pub config : BootstrapConfig
  pub peers : List PeerAddress
  pub running : Bool
  pub discovery_callback : Bool
  pub notified : List PeerAddress

abbrev pub make : BootstrapConfig → PeerDiscovery
make c = record {
  config = c;
  peers = [];
  running = false;
  discovery_callback = false;
  notified = [];
}

-- The set of addresses, which takes no two of one endpoint.
abbrev pub find : PeerAddress → List PeerAddress → Bool
find a [] = false
find a (b ∷ bs) = same_peer a b || find a bs

unfoldable pub place : PeerAddress → List PeerAddress → List PeerAddress
place a [] = a ∷ []
place a (b ∷ bs) = let rest = place a bs in if peer_less a b then a ∷ b ∷ bs else b ∷ rest

unfoldable pub erase_peer : PeerAddress → List PeerAddress → List PeerAddress
erase_peer a [] = []
erase_peer a (b ∷ bs) = let rest = erase_peer a bs in if same_peer a b then rest else b ∷ rest

unfoldable pub has_peer : PeerAddress → PeerDiscovery → Bool
has_peer a d = find a d.peers

abbrev note : PeerAddress → PeerDiscovery → PeerDiscovery
note a d = if d.discovery_callback then record d { notified = a ∷ d.notified } else d

unfoldable pub remove_peer : PeerAddress → PeerDiscovery → Bool × PeerDiscovery
unfolding erase_peer
remove_peer a d = (find a d.peers, record d { peers = erase_peer a d.peers })

unfoldable pub drop_stale : TimePoint → ℕ → List PeerAddress → List PeerAddress
drop_stale now max_age [] = []
drop_stale now max_age (a ∷ bs) =
    let rest = drop_stale now max_age bs in
    if ltb max_age (age_seconds now a) then rest else a ∷ rest

unfoldable pub cleanup_stale_peers : TimePoint → ℕ → PeerDiscovery → PeerDiscovery
unfolding drop_stale
cleanup_stale_peers now max_age d = record d { peers = drop_stale now max_age d.peers }

unfoldable pub set_discovery_callback : Bool → PeerDiscovery → PeerDiscovery
set_discovery_callback b d = record d { discovery_callback = b }

unfoldable pub stop : PeerDiscovery → PeerDiscovery
stop d = record d { running = false }

module _ {A : Type 0} (net : Addresses A) where
  unfoldable pub add_peer : PeerAddress → PeerDiscovery → Bool × PeerDiscovery
  unfolding place
  add_peer a d =
      if not (is_valid net a)
      then (false, d)
      else if leb d.config.max_peers (length d.peers)
      then (false, d)
      else if find a d.peers
      then (false, d)
      else (true, note a (record d { peers = place a d.peers }))

  -- The state after all of them, and those that were new.
  unfoldable pub add_peers : List PeerAddress → PeerDiscovery → PeerDiscovery
  unfolding add_peer
  add_peers [] d = d
  add_peers (a ∷ bs) d = add_peers bs ((add_peer a d).1)

  unfoldable pub load_bootstrap_nodes : PeerDiscovery → PeerDiscovery
  unfolding add_peers
  load_bootstrap_nodes d = let c : BootstrapConfig = d.config in add_peers c.static_nodes d

  -- What the seeds resolve to, from the resolver of addresses; `services` is `NODE_NETWORK`.
  abbrev resolved : TimePoint → ℕ → List Bytes → List PeerAddress
  resolved now port [] = []
  resolved now port (ip ∷ ips) =
      record { ip = ip; port = port; last_seen = now; services = 1 } ∷ resolved now port ips

  abbrev resolve_all : (Bytes → List Bytes) → TimePoint → ℕ → List Bytes → List PeerAddress
  resolve_all resolver now port [] = []
  resolve_all resolver now port (seed ∷ seeds) =
      resolved now port (resolver seed) ++ resolve_all resolver now port seeds

  abbrev discovered : List PeerAddress → PeerDiscovery → List PeerAddress × PeerDiscovery
  discovered [] d = ([], d)
  discovered (a ∷ bs) d =
      let (added, d') = add_peer a d in
      let (rest, d'') = discovered bs d' in (if added then a ∷ rest else rest, d'')

  abbrev some_peers : List PeerAddress → DiscoveryResult (List PeerAddress)
  some_peers [] = failure DiscoveryError.no_peers_found
  some_peers (a ∷ bs) = success (a ∷ bs)

  unfoldable pub resolve_dns_seeds :
      (Bytes → List Bytes)
      → TimePoint
      → PeerDiscovery
      → DiscoveryResult (List PeerAddress) × PeerDiscovery
  resolve_dns_seeds resolver now d =
      let c : BootstrapConfig = d.config in
      let (new, d') = discovered (resolve_all resolver now c.discovery_port c.dns_seeds) d in
      (some_peers new, d')
