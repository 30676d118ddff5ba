-- ===== src/P2p/Discovery/Staleness.antt =====
-- A peer that is announced again keeps the time at which it was first seen.
use chain_forge.Base.{ℕ, ◌≡◌, refl, true, false, List, [], ◌∷◌, arith, ◌<◌}
use chain_forge.P2p.Address.{PeerAddress, TimePoint, Addresses, age_seconds, same_peer}
use chain_forge.P2p.Discovery.{
  PeerDiscovery, find, has_peer, add_peer, cleanup_stale_peers, drop_stale,
}

-- The peer of an endpoint was last seen longer ago than the limit, wherever it stands.
abbrev pub AllStale : TimePoint → ℕ → PeerAddress → List PeerAddress → Type 0
AllStale now max_age a [] = Unit
AllStale now max_age a (b ∷ bs) =
    (same_peer a b ≡ true → max_age < age_seconds now b) × AllStale now max_age a bs

find-drop_stale_same :
    (now max_age : ℕ) (a : PeerAddress) (bs : List PeerAddress)
    → AllStale now max_age a bs
    → find a (drop_stale now max_age bs) ≡ false
unfolding drop_stale
find-drop_stale_same now max_age a [] h = refl
find-drop_stale_same now max_age a (b ∷ bs) h =
    ground (arith, h.0, find-drop_stale_same now max_age a bs h.1)

module _ {A : Type 0} (net : Addresses A) where
  -- Adding a peer that is there already changes nothing, its `last_seen` included: if the entry is
  -- older than `max_age`, the next clean-up removes the peer, however recent the announcement is.
  pub cleanup-add_peer :
      (now max_age : ℕ) (a : PeerAddress) (d : PeerDiscovery)
      → has_peer a d ≡ true
      → AllStale now max_age a d.peers
      → (add_peer net a d ≡ (false, d))
        × (has_peer a (cleanup_stale_peers now max_age ((add_peer net a d).1)) ≡ false)
  unfolding has_peer add_peer cleanup_stale_peers
  cleanup-add_peer now max_age a d there stale =
      let same : add_peer net a d ≡ (false, d) = ground arith in
      (same, rw same (find-drop_stale_same now max_age a d.peers stale))
