-- ===== src/P2p/Discovery/Invariant.antt =====
-- What the peers that are kept have in common, whatever other nodes send.
use chain_forge.Base.{
  bytes_eq, ◌==◌, ℕ, ◌≤◌, ◌≡◌, Bool, true, false, not, ◌&&◌, List, [], ◌∷◌, leb, if◌then◌else◌,
  length, All, arith, Bool-cases, Option-cases, inl, inr, take, drop,
}
use chain_forge.Core.Bytes.{Bytes}
use chain_forge.P2p.Address.{PeerAddress, TimePoint, Addresses, is_valid}
use chain_forge.P2p.Discovery.{
  PeerDiscovery, BootstrapConfig, find, place, add_peer, add_peers, remove_peer,
  cleanup_stale_peers, set_discovery_callback, stop, load_bootstrap_nodes, resolve_dns_seeds,
  resolve_all, discovered, make,
}
use chain_forge.P2p.Discovery.Messages.{
  handle_discovery_message, exchange_peers, start, read_port, discover, peerlist,
}
use chain_forge.P2p.Discovery.Peers.{
  IsUnique, length-place, place-All, place-IsUnique, length-drop_stale, drop_stale-All,
  drop_stale-IsUnique, length-erase_peer, erase_peer-All, erase_peer-IsUnique,
}

-- The calls that reach an instance, from its owner and from other nodes.
pub data Call : Type 0 where
  adding : PeerAddress → Call
  removing : PeerAddress → Call
  exchanging : List PeerAddress → Call
  cleaning : TimePoint → ℕ → Call
  setting : Bool → Call
  receiving : TimePoint → Bytes → Bytes → Call
  starting : (Bytes → List Bytes) → Bool → TimePoint → Call
  stopping : Call

module _ {A : Type 0} (net : Addresses A) (sort : List PeerAddress → List PeerAddress) where
  abbrev pub step : Call → PeerDiscovery → PeerDiscovery
  step (adding a) d = (add_peer net a d).1
  step (removing a) d = (remove_peer a d).1
  step (exchanging ps) d = (exchange_peers net sort ps d).1
  step (cleaning now max_age) d = cleanup_stale_peers now max_age d
  step (setting b) d = set_discovery_callback b d
  step (receiving now message sender) d = handle_discovery_message net now message sender d
  step (starting resolver bound now) d = (start net resolver bound now d).1
  step stopping d = stop d

  abbrev pub run : List Call → PeerDiscovery → PeerDiscovery
  run [] d = d
  run (c ∷ cs) d = run cs (step c d)

  abbrev IsGood : PeerAddress → Type 0
  IsGood a = is_valid net a ≡ true

  pub record IsTidy (d : PeerDiscovery) : Type 0 where
    pub fits : length d.peers ≤ d.config.max_peers
    pub unique : IsUnique d.peers
    pub valid : All (λ a. is_valid net a ≡ true) d.peers

  IsTidy-same :
      (d : PeerDiscovery) (running callback : Bool) (notified : List PeerAddress)
      → IsTidy d
      → IsTidy (record d { running = running; discovery_callback = callback; notified = notified })
  IsTidy-same d r b ns v = record { fits = v.fits; unique = v.unique; valid = v.valid }

  noted :
      (a : PeerAddress) (b : Bool) (d : PeerDiscovery)
      → IsTidy d
      → IsTidy (if b then record d { notified = a ∷ d.notified } else d)
  noted a true d v = IsTidy-same d d.running d.discovery_callback (a ∷ d.notified) v
  noted a false d v = v

  add_peer-IsTidy : (a : PeerAddress) (d : PeerDiscovery) → IsTidy d → IsTidy ((add_peer net a d).1)
  unfolding add_peer
  add_peer-IsTidy a d v = elim (Bool-cases (is_valid net a)) [
    | inr bad ↦ rw bad v
    | inl good ↦ elim (Bool-cases (leb d.config.max_peers (length d.peers))) [
      | inl full ↦ rw (good, full) v
      | inr room ↦ elim (Bool-cases (find a d.peers)) [
        | inl known ↦ rw (good, room, known) v
        | inr new ↦ rw (good, room, new) (noted a d.discovery_callback _ (placed good room new))
      ]
    ]
  ]
    where
      placed :
          is_valid net a ≡ true
          → leb d.config.max_peers (length d.peers) ≡ false
          → find a d.peers ≡ false
          → IsTidy (record d { peers = place a d.peers })
      placed good room new = record {
        fits = ground (arith, length-place a d.peers);
        unique = place-IsUnique a d.peers new v.unique;
        valid = place-All (λ a. is_valid net a ≡ true) a d.peers good v.valid;
      }

  add_peers-IsTidy :
      (bs : List PeerAddress) (d : PeerDiscovery) → IsTidy d → IsTidy (add_peers net bs d)
  unfolding add_peers
  add_peers-IsTidy [] d v = v
  add_peers-IsTidy (a ∷ bs) d v = add_peers-IsTidy bs ((add_peer net a d).1) (add_peer-IsTidy a d v)

  discovered-IsTidy :
      (bs : List PeerAddress) (d : PeerDiscovery) → IsTidy d → IsTidy ((discovered net bs d).1)
  discovered-IsTidy [] d v = v
  discovered-IsTidy (a ∷ bs) d v =
      discovered-IsTidy bs ((add_peer net a d).1) (add_peer-IsTidy a d v)

  handle-IsTidy :
      (now : TimePoint) (message sender : Bytes) (d : PeerDiscovery)
      → IsTidy d
      → IsTidy (handle_discovery_message net now message sender d)
  unfolding handle_discovery_message
  handle-IsTidy now message sender d v = elim (Bool-cases (take 9 message == discover)) [
    | inl y ↦ rw y (elim (Option-cases (read_port (drop 9 message))) [
      | inl e ↦ rw e v
      | inr (port, e) ↦ rw e (add_peer-IsTidy _ d v)
    ])
    | inr n ↦ rw n (elim (Bool-cases (take 9 message == peerlist)) [
      | inl y ↦ rw y (add_peers-IsTidy _ d v)
      | inr n ↦ rw n v
    ])
  ]

  resolve-IsTidy :
      (resolver : Bytes → List Bytes) (now : TimePoint) (d : PeerDiscovery)
      → IsTidy d
      → IsTidy ((resolve_dns_seeds net resolver now d).1)
  unfolding resolve_dns_seeds
  resolve-IsTidy resolver now d v =
      discovered-IsTidy (resolve_all net resolver now d.config.discovery_port d.config.dns_seeds) d
        v

  start-IsTidy :
      (resolver : Bytes → List Bytes) (bound : Bool) (now : TimePoint) (d : PeerDiscovery)
      → IsTidy d
      → IsTidy ((start net resolver bound now d).1)
  unfolding start load_bootstrap_nodes
  start-IsTidy resolver bound now d v =
      let loaded = add_peers-IsTidy d.config.static_nodes d v in
      elim (Bool-cases d.running) [
        | inl y ↦ simp y v
        | inr n ↦ simp n (elim (Bool-cases (d.config.enable_mdns && not bound)) [
          | inl y ↦ simp y loaded
          | inr n ↦ simp n (
              let seeded = resolve-IsTidy resolver now (load_bootstrap_nodes net d) loaded in
              IsTidy-same _ true _ _ seeded)
        ])
      ]

  step-IsTidy : (c : Call) (d : PeerDiscovery) → IsTidy d → IsTidy (step c d)
  unfolding remove_peer cleanup_stale_peers set_discovery_callback stop exchange_peers
  step-IsTidy (adding a) d v = add_peer-IsTidy a d v
  step-IsTidy (removing a) d v = record {
    fits = omega (arith, length-erase_peer a d.peers, v.fits);
    unique = erase_peer-IsUnique a d.peers v.unique;
    valid = erase_peer-All a (λ a. is_valid net a ≡ true) d.peers v.valid;
  }
  step-IsTidy (exchanging ps) d v = add_peers-IsTidy ps d v
  step-IsTidy (cleaning now max_age) d v = record {
    fits = omega (arith, length-drop_stale now max_age d.peers, v.fits);
    unique = drop_stale-IsUnique now max_age d.peers v.unique;
    valid = drop_stale-All now max_age (λ a. is_valid net a ≡ true) d.peers v.valid;
  }
  step-IsTidy (setting b) d v = IsTidy-same d d.running b d.notified v
  step-IsTidy (receiving now message sender) d v = handle-IsTidy now message sender d v
  step-IsTidy (starting resolver bound now) d v = start-IsTidy resolver bound now d v
  step-IsTidy stopping d v = IsTidy-same d false d.discovery_callback d.notified v

  -- From a new instance, whatever is called and whatever other nodes send: there are at most
  -- `max_peers` peers, no two of them have the same address and port, and each is valid.
  pub run-IsTidy : (c : BootstrapConfig) (cs : List Call) → IsTidy (run cs (make c))
  run-IsTidy c cs = runs cs (make c) (record { fits = omega arith; unique = tt; valid = tt })
    where
      runs : (cs : List Call) (d : PeerDiscovery) → IsTidy d → IsTidy (run cs d)
      runs [] d v = v
      runs (c ∷ cs) d v = runs cs (step c d) (step-IsTidy c d v)
