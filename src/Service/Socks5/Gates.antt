-- ===== src/Service/Socks5/Gates.antt =====
-- The permissions of the SOCKS5 service.
use awl.Base.{
  ◌≡◌, refl, ap, ◌↔◌, Bool, true, false, not, ◌&&◌, Option, none, some, Text, is_empty, Bool-cases,
  inl, inr, arith, subst, if◌then◌else◌,
}
use awl.Config.Types.{Config, KnownPeer}
use awl.Config.Peers.{get_peer}
use awl.Service.Socks5.{
  Protocol, packet_method, no_auth_method, Served, proxying_disabled, server_failure_reply, serve,
  serve_no_auth, denied, served_by, disabled_by, peer_handler, proxy_stream_handler,
  local_auth_failed, Proxied, relayed, refused, Peers, over_stream, through, allowed_through,
  proxy_conn,
}

abbrev pub is_served : Served → Bool
is_served denied = false
is_served proxying_disabled = false
is_served server_failure_reply = false
is_served serve_no_auth = true
is_served serve = true

abbrev pub allows : Option KnownPeer → Bool
allows none = false
allows (some kp) = kp.we_allow_using_as_exit_node

served_lem : (p : Protocol) → is_served (served_by p) ≡ true
served_lem packet_method = refl
served_lem no_auth_method = refl

disabled_lem : (p : Protocol) → is_served (disabled_by p) ≡ false
disabled_lem packet_method = refl
disabled_lem no_auth_method = refl

handler_lem :
    (enabled : Bool) (p : Protocol) (o : Option KnownPeer)
    → is_served (peer_handler enabled p o) ≡ (allows o && enabled)
handler_lem enabled p none = refl
handler_lem enabled p (some kp) = ground (arith, served_lem p, disabled_lem p)

abbrev is_denied : Served → Bool
is_denied denied = true
is_denied proxying_disabled = false
is_denied server_failure_reply = false
is_denied serve_no_auth = false
is_denied serve = false

served_not_denied : (p : Protocol) → is_denied (served_by p) ≡ false
served_not_denied packet_method = refl
served_not_denied no_auth_method = refl

disabled_not_denied : (p : Protocol) → is_denied (disabled_by p) ≡ false
disabled_not_denied packet_method = refl
disabled_not_denied no_auth_method = refl

denied_lem :
    (enabled : Bool) (p : Protocol) (o : Option KnownPeer)
    → is_denied (peer_handler enabled p o) ≡ not (allows o)
denied_lem enabled p none = refl
denied_lem enabled p (some kp) = ground (arith, served_not_denied p, disabled_not_denied p)

is_denied→denied : (s : Served) → is_denied s ≡ true → s ≡ denied
is_denied→denied denied e = refl
is_denied→denied proxying_disabled e = cc e
is_denied→denied server_failure_reply e = cc e
is_denied→denied serve_no_auth e = cc e
is_denied→denied serve e = cc e

denied_iff :
    (enabled : Bool) (p : Protocol) (o : Option KnownPeer)
    → (peer_handler enabled p o ≡ denied) ↔ (allows o ≡ false)
denied_iff enabled p o =
    let d = denied_lem enabled p o in
    (
      (λ e.
          let t : is_denied (peer_handler enabled p o) ≡ true = ap is_denied e in
          ground (arith, d, t)),
      (λ e. is_denied→denied (peer_handler enabled p o) (ground (arith, d, e))),
    )

-- A peer's stream is served exactly if the peer is known, we allow it to use us as an exit node and
-- proxying is enabled; a known peer without that permission is denied like an unknown one, and no
-- other peer is denied.
pub proxy_stream_handler_lem :
    (c : Config) (enabled : Bool) (protocol : Protocol) (peer_id : Text)
    → (is_served (proxy_stream_handler c enabled protocol peer_id)
        ≡ (allows (get_peer c peer_id) && enabled))
      × ((proxy_stream_handler c enabled protocol peer_id ≡ denied)
          ↔ (allows (get_peer c peer_id) ≡ false))
unfolding proxy_stream_handler
proxy_stream_handler_lem c enabled protocol peer_id =
    let o = get_peer c peer_id in (handler_lem enabled protocol o, denied_iff enabled protocol o)

-- the handshake with the client, where the protocol leaves it to this node
abbrev pub local_done : Peers → Protocol → Bool
local_done p packet_method = true
local_done p no_auth_method = p.local_auth

-- a peer is chosen, is known and lets us; it is reached, agrees to the protocol, and the handshake
-- works
abbrev pub CanRelay : Config → Peers → Text → Protocol → Type 0
CanRelay c p id protocol =
    (kp : KnownPeer) × (is_empty c.socks5_using_peer_id ≡ false)
    × (get_peer c c.socks5_using_peer_id ≡ some kp)
    × (kp.allowed_using_as_exit_node ≡ true)
    × (kp.peer_id ≡ id)
    × (p.connects id ≡ true)
    × (p.new_stream id ≡ some protocol)
    × (local_done p protocol ≡ true)

abbrev CanResult : Config → Peers → Proxied → Type 0
CanResult c p (refused e) = Unit
CanResult c p (relayed id protocol) = CanRelay c p id protocol

CanResult-if :
    (c : Config) (p : Peers) (b : Bool) (id : Text) (protocol : Protocol)
    → (b ≡ true → CanRelay c p id protocol)
    → CanResult c p (if b then relayed id protocol else refused local_auth_failed)
CanResult-if c p true id protocol h = h refl
CanResult-if c p false id protocol h = tt

module _ (c : Config) (p : Peers) (set : is_empty c.socks5_using_peer_id ≡ false) where
  CanResult-over_stream :
      (kp : KnownPeer) (o : Option Protocol)
      → get_peer c c.socks5_using_peer_id ≡ some kp
      → kp.allowed_using_as_exit_node ≡ true
      → p.connects kp.peer_id ≡ true
      → p.new_stream kp.peer_id ≡ o
      → CanResult c p (over_stream p kp.peer_id o)
  CanResult-over_stream kp none there lets connected e = tt
  CanResult-over_stream kp (some packet_method) there lets connected e =
      (kp, set, there, lets, refl, connected, e, refl)
  CanResult-over_stream kp (some no_auth_method) there lets connected e =
      CanResult-if c p p.local_auth kp.peer_id no_auth_method
        (λ y. (kp, set, there, lets, refl, connected, e, y))

  CanResult-through :
      (kp : KnownPeer)
      → get_peer c c.socks5_using_peer_id ≡ some kp
      → kp.allowed_using_as_exit_node ≡ true
      → CanResult c p (through p kp)
  CanResult-through kp there lets = elim (Bool-cases (p.connects kp.peer_id)) [
    | inl y ↦ rw y (CanResult-over_stream kp (p.new_stream kp.peer_id) there lets y refl)
    | inr n ↦ rw n tt
  ]

  CanResult-allowed_through :
      (o : Option KnownPeer)
      → get_peer c c.socks5_using_peer_id ≡ o
      → CanResult c p (allowed_through p o)
  CanResult-allowed_through none there = tt
  CanResult-allowed_through (some kp) there = elim (Bool-cases kp.allowed_using_as_exit_node) [
    | inl y ↦ rw y (CanResult-through kp there y)
    | inr n ↦ rw n tt
  ]

CanResult-proxy_conn : (c : Config) (p : Peers) → CanResult c p (proxy_conn c p)
unfolding proxy_conn
CanResult-proxy_conn c p = elim (Bool-cases (is_empty c.socks5_using_peer_id)) [
  | inl y ↦ rw y tt
  | inr n ↦ rw n (CanResult-allowed_through c p n (get_peer c c.socks5_using_peer_id) refl)
]

through-relayed :
    (p : Peers) (kp : KnownPeer) (id : Text) (protocol : Protocol)
    → kp.peer_id ≡ id
    → p.connects id ≡ true
    → p.new_stream id ≡ some protocol
    → local_done p protocol ≡ true
    → through p kp ≡ relayed id protocol
through-relayed p kp id packet_method e connected offers auth = rw e (rw connected (rw offers refl))
through-relayed p kp id no_auth_method e connected offers auth =
    rw e (rw connected (rw offers (rw auth refl)))

proxy_conn-relayed :
    (c : Config) (p : Peers) (id : Text) (protocol : Protocol)
    → CanRelay c p id protocol
    → proxy_conn c p ≡ relayed id protocol
unfolding proxy_conn
proxy_conn-relayed c p id protocol (kp, set, there, lets, e, connected, offers, auth) =
    rw set (rw there (rw lets (through-relayed p kp id protocol e connected offers auth)))

-- A connection is relayed through a peer over a stream of a protocol exactly if that is the peer
-- chosen in the configuration, it is known and allows us to use it as an exit node, the
-- connection to it works and it agrees to the protocol, and the local handshake works where the
-- protocol needs one.
pub proxy_conn_lem :
    (c : Config) (p : Peers) (id : Text) (protocol : Protocol)
    → (proxy_conn c p ≡ relayed id protocol) ↔ CanRelay c p id protocol
proxy_conn_lem c p id protocol =
    (λ e. subst (CanResult c p) e (CanResult-proxy_conn c p), proxy_conn-relayed c p id protocol)
