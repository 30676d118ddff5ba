-- ===== src/P2p/Address.antt =====
-- modules/p2p/src/peer_address.cpp and its header. The addresses of the library are a parameter.
use chain_forge.Base.{
  ℤ, all, ℕ, ◌+◌, ◌-◌, ◌/◌, ◌%◌, ◌^◌, Bool, true, false, not, ◌&&◌, ◌||◌, Option, none, some, List,
  [], ◌∷◌, ◌==◌, nat_eq, bytes_eq, ltb, leb, if◌then◌else◌,
}
use chain_forge.Core.Bytes.{Bytes, bytes_less}

-- A time of the system clock, in nanoseconds.
abbrev pub TimePoint : Type 0
TimePoint = ℕ

abbrev pub ticks : ℕ
ticks = 1_000_000_000

pub record PeerAddress : Type 0 where
  pub ip : Bytes
  pub port : ℕ
  pub last_seen : TimePoint
  pub services : ℕ

-- `operator==` and `operator<` look at the endpoint only.
abbrev pub same_peer : PeerAddress → PeerAddress → Bool
same_peer a b = (a.ip == b.ip) && (a.port == b.port)

unfoldable pub peer_less : PeerAddress → PeerAddress → Bool
peer_less a b = if a.ip == b.ip then ltb a.port b.port else bytes_less a.ip b.ip

unfoldable pub update_last_seen : TimePoint → PeerAddress → PeerAddress
update_last_seen now a = record a { last_seen = now }

-- 0 where the clock went back. Limits of age are not negative, so that no test sees the difference.
unfoldable pub age_seconds : TimePoint → PeerAddress → ℕ
age_seconds now a = (now - a.last_seen) / ticks

pub record PeerInfo : Type 0 where
  pub address : PeerAddress
  pub version : Bytes
  pub height : ℕ
  pub ping_time_ms : ℤ
  pub connected : Bool
  pub connection_attempts : ℕ
  pub last_attempt : TimePoint
  pub connected_since : TimePoint

unfoldable pub is_stale : TimePoint → ℕ → PeerInfo → Bool
is_stale now max_age i = ltb max_age (age_seconds now i.address)

unfoldable pub should_retry : TimePoint → ℕ → PeerInfo → Bool
should_retry now retry_interval i =
    if i.connected then false else leb retry_interval ((now - i.last_attempt) / ticks)

unfoldable pub record_attempt : TimePoint → PeerInfo → PeerInfo
record_attempt now i = record i {
  connection_attempts = (i.connection_attempts + 1) % 2 ^ 32;
  last_attempt = now;
}

unfoldable pub mark_connected : TimePoint → PeerInfo → PeerInfo
mark_connected now i = record i {
  connected = true;
  connected_since = now;
  address = update_last_seen now i.address;
}

unfoldable pub mark_disconnected : PeerInfo → PeerInfo
mark_disconnected i = record i { connected = false }

-- `boost::asio::ip::address`: `make_address` gives nothing where it throws.
pub record Addresses (A : Type 0) : Type 0 where
  pub make_address : Bytes → Option A
  pub is_loopback : A → Bool
  pub is_multicast : A → Bool
  pub is_unspecified : A → Bool
  pub is_v4 : A → Bool
  -- The first two bytes of a version 4 address.
  pub first_byte : A → ℕ
  pub second_byte : A → ℕ
  pub is_site_local : A → Bool
  pub is_link_local : A → Bool

-- `127.0.0.1`, `::1` and `localhost`.
abbrev loopback_names : List Bytes
loopback_names =
    (b'1' ∷ b'2' ∷ b'7' ∷ b'.' ∷ b'0' ∷ b'.' ∷ b'0' ∷ b'.' ∷ b'1' ∷ [])
    ∷ (b':' ∷ b':' ∷ b'1' ∷ [])
    ∷ (b'l' ∷ b'o' ∷ b'c' ∷ b'a' ∷ b'l' ∷ b'h' ∷ b'o' ∷ b's' ∷ b't' ∷ [])
    ∷ []

module _ {A : Type 0} (net : Addresses A) where
  unfoldable pub is_valid_ip : Bytes → Bool
  is_valid_ip ip = elim (net.make_address ip) [ none ↦ false | some a ↦ true ]

  abbrev is_private_v4 : ℕ → ℕ → Bool
  is_private_v4 a b =
      (a == 10)
      || (((a == 172) && (leb 16 b && leb b 31))
          || (((a == 192) && (b == 168)) || ((a == 169) && (b == 254))))

  unfoldable pub is_private : A → Bool
  is_private a =
      if net.is_v4 a
      then is_private_v4 (net.first_byte a) (net.second_byte a)
      else net.is_site_local a || net.is_link_local a

  unfoldable pub is_private_ip : Bytes → Bool
  unfolding is_private
  is_private_ip ip = elim (net.make_address ip) [ none ↦ false | some a ↦ is_private a ]

  unfoldable pub is_localhost : Bytes → Bool
  is_localhost ip =
      if not (all (λ name. not (ip == name)) loopback_names)
      then true
      else elim (net.make_address ip) [ none ↦ false | some a ↦ net.is_loopback a ]

  unfoldable pub is_routable_ip : Bytes → Bool
  is_routable_ip ip = elim (net.make_address ip) [
    | none ↦ false
    | some a ↦
        if net.is_loopback a || (net.is_multicast a || net.is_unspecified a)
        then false
        else not (is_private_ip ip)
  ]

  unfoldable pub is_valid_port : ℕ → Bool
  is_valid_port port = ltb 0 port

  unfoldable pub is_valid_peer_address : Bool → PeerAddress → Bool
  unfolding is_valid_port
  is_valid_peer_address allow_private addr =
      if not (is_valid_ip addr.ip)
      then false
      else if not (is_valid_port addr.port)
      then false
      else not (not allow_private && not (is_routable_ip addr.ip))

  abbrev pub is_local : PeerAddress → Bool
  is_local addr = is_localhost addr.ip || is_private_ip addr.ip

  abbrev pub is_valid : PeerAddress → Bool
  is_valid addr = is_valid_peer_address false addr
