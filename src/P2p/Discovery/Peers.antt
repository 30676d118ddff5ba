-- ===== src/P2p/Discovery/Peers.antt =====
-- Laws of the set of peers: lengths, membership, and what holds of all of them.
use chain_forge.Base.{
  ℕ, suc, ◌≤◌, ◌≡◌, refl, true, false, ◌||◌, List, [], ◌∷◌, nat_eq, bytes_eq, ltb, length, All,
  arith, Bool-cases, inl, inr,
}
use chain_forge.P2p.Address.{PeerAddress, same_peer, peer_less, age_seconds}
use chain_forge.P2p.Discovery.{find, place, erase_peer, drop_stale}

-- No two peers have one endpoint.
abbrev pub IsUnique : List PeerAddress → Type 0
IsUnique [] = Unit
IsUnique (a ∷ bs) = (find a bs ≡ false) × IsUnique bs

pub same_peer_lem : (a b : PeerAddress) → same_peer a b ≡ true → (a.ip ≡ b.ip) × (a.port ≡ b.port)
same_peer_lem a b e =
    (ground (arith, bytes_eq.beq_iff a.ip b.ip), ground (arith, nat_eq.beq_iff a.port b.port))

pub same_peer_comm : (a b : PeerAddress) → same_peer a b ≡ same_peer b a
same_peer_comm a b = ground (
  arith,
  bytes_eq.beq_iff a.ip b.ip,
  bytes_eq.beq_iff b.ip a.ip,
  nat_eq.beq_iff a.port b.port,
  nat_eq.beq_iff b.port a.port,
)

pub length-place : (a : PeerAddress) (bs : List PeerAddress) → length (place a bs) ≡ suc (length bs)
unfolding place
length-place a [] = refl
length-place a (b ∷ bs) = ground (arith, length-place a bs)

pub find-place :
    (x a : PeerAddress) (bs : List PeerAddress) → find x (place a bs) ≡ (same_peer x a || find x bs)
unfolding place
find-place x a [] = refl
find-place x a (b ∷ bs) = ground (arith, find-place x a bs)

pub place-All :
    (P : PeerAddress → Type 0) (a : PeerAddress) (bs : List PeerAddress)
    → P a
    → All P bs
    → All P (place a bs)
unfolding place
place-All P a [] p ps = (p, tt)
place-All P a (b ∷ bs) p ps = elim (Bool-cases (peer_less a b)) [
  | inl y ↦ rw y (p, ps)
  | inr n ↦ rw n (ps.0, place-All P a bs p ps.1)
]

pub place-IsUnique :
    (a : PeerAddress) (bs : List PeerAddress)
    → find a bs ≡ false
    → IsUnique bs
    → IsUnique (place a bs)
unfolding place
place-IsUnique a [] f u = (refl, tt)
place-IsUnique a (b ∷ bs) f u = elim (Bool-cases (peer_less a b)) [
  | inl y ↦ rw y (f, u)
  | inr n ↦ rw n (
    ground (arith, find-place b a bs, same_peer_comm a b),
    place-IsUnique a bs (ground arith) u.1,
  )
]

-- A list with fewer elements keeps what holds of all.
module _ (now max_age : ℕ) where
  pub find-drop_stale :
      (x : PeerAddress) (bs : List PeerAddress)
      → find x bs ≡ false
      → find x (drop_stale now max_age bs) ≡ false
  unfolding drop_stale
  find-drop_stale x [] f = refl
  find-drop_stale x (b ∷ bs) f = ground (arith, find-drop_stale x bs)

  pub length-drop_stale : (bs : List PeerAddress) → length (drop_stale now max_age bs) ≤ length bs
  unfolding drop_stale
  length-drop_stale [] = omega arith
  length-drop_stale (b ∷ bs) = ground (arith, length-drop_stale bs)

  pub drop_stale-All :
      (P : PeerAddress → Type 0) (bs : List PeerAddress)
      → All P bs
      → All P (drop_stale now max_age bs)
  unfolding drop_stale
  drop_stale-All P [] ps = tt
  drop_stale-All P (b ∷ bs) ps = elim (Bool-cases (ltb max_age (age_seconds now b))) [
    | inl y ↦ rw y (drop_stale-All P bs ps.1)
    | inr n ↦ rw n (ps.0, drop_stale-All P bs ps.1)
  ]

  pub drop_stale-IsUnique :
      (bs : List PeerAddress) → IsUnique bs → IsUnique (drop_stale now max_age bs)
  unfolding drop_stale
  drop_stale-IsUnique [] u = tt
  drop_stale-IsUnique (b ∷ bs) u = elim (Bool-cases (ltb max_age (age_seconds now b))) [
    | inl y ↦ rw y (drop_stale-IsUnique bs u.1)
    | inr n ↦ rw n (find-drop_stale b bs u.0, drop_stale-IsUnique bs u.1)
  ]

module _ (a : PeerAddress) where
  pub find-erase_peer :
      (x : PeerAddress) (bs : List PeerAddress)
      → find x bs ≡ false
      → find x (erase_peer a bs) ≡ false
  unfolding erase_peer
  find-erase_peer x [] f = refl
  find-erase_peer x (b ∷ bs) f = ground (arith, find-erase_peer x bs)

  pub length-erase_peer : (bs : List PeerAddress) → length (erase_peer a bs) ≤ length bs
  unfolding erase_peer
  length-erase_peer [] = omega arith
  length-erase_peer (b ∷ bs) = ground (arith, length-erase_peer bs)

  pub erase_peer-All :
      (P : PeerAddress → Type 0) (bs : List PeerAddress) → All P bs → All P (erase_peer a bs)
  unfolding erase_peer
  erase_peer-All P [] ps = tt
  erase_peer-All P (b ∷ bs) ps = elim (Bool-cases (same_peer a b)) [
    | inl y ↦ rw y (erase_peer-All P bs ps.1)
    | inr n ↦ rw n (ps.0, erase_peer-All P bs ps.1)
  ]

  pub erase_peer-IsUnique : (bs : List PeerAddress) → IsUnique bs → IsUnique (erase_peer a bs)
  unfolding erase_peer
  erase_peer-IsUnique [] u = tt
  erase_peer-IsUnique (b ∷ bs) u = elim (Bool-cases (same_peer a b)) [
    | inl y ↦ rw y (erase_peer-IsUnique bs u.1)
    | inr n ↦ rw n (find-erase_peer b bs u.0, erase_peer-IsUnique bs u.1)
  ]
