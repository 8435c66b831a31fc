-- ===== src/Config/Peers.antt =====
-- config/config.go: the operations on KnownPeers and BlockedPeers. Each holds the lock throughout.
pub mod Alias
pub mod Table
use awl.Base.{
  ℕ, zero, suc, ◌+◌, ◌≡◌, Bool, true, false, not, ◌&&◌, ◌||◌, List, [], ◌∷◌, ◌++◌, Option, none,
  some, Text, Map, lookup, insert, remove, values, ◌==◌, is_empty, codes, decimal, if◌then◌else◌,
  length, eqb,
}
use awl.Config.Types.{Config, KnownPeer, BlockedPeer, save, emit_known_peer_changed}

unfoldable pub is_uniq_alias : Text → Text → List KnownPeer → Bool
is_uniq_alias exclude alias [] = true
is_uniq_alias exclude alias (kp ∷ kps) =
    let rest = is_uniq_alias exclude alias kps in
    if kp.peer_id == exclude then rest else if kp.alias == alias then false else rest

-- IsUniqPeerAliasUnlocked
unfoldable pub is_uniq_peer_alias : Config → Text → Text → Bool
unfolding is_uniq_alias
is_uniq_peer_alias c exclude alias = is_uniq_alias exclude alias (values c.known_peers)

unfoldable pub contains : Text → List Text → Bool
contains a [] = false
contains a (b ∷ bs) = b == a || contains a bs

-- fmt.Sprintf("%s_%d", alias, i)
abbrev pub numbered : Text → ℕ → Text
numbered alias i = alias ++ (codes "_" ++ decimal i)

-- `for i := 0; ok; i++`, from i on; `none` if the fuel runs out
unfoldable pub first_free : ℕ → Text → List Text → ℕ → Option Text
first_free zero alias taken i = none
first_free (suc fuel) alias taken i =
    let rest = first_free fuel alias taken (i + 1) in
    if contains (numbered alias i) taken then rest else some (numbered alias i)

abbrev pub default_peer_alias : Text
default_peer_alias = codes "peer"

abbrev pub base_alias : Text → Text → Text
base_alias name alias =
    if is_empty alias then (if is_empty name then default_peer_alias else name) else alias

-- genUniqPeerAlias for a set of aliases; the set it leaves is the result's own alias added.
unfoldable pub gen_uniq_alias : Text → Text → List Text → Option Text
gen_uniq_alias name alias taken =
    let base = base_alias name alias in
    if contains base taken then first_free (suc (length taken)) base taken 0 else some base

abbrev pub aliases : List KnownPeer → List Text
aliases [] = []
aliases (kp ∷ kps) = kp.alias ∷ aliases kps

unfoldable pub gen_uniq_peer_alias : Config → Text → Text → Option Text
unfolding gen_uniq_alias
gen_uniq_peer_alias c name alias = gen_uniq_alias name alias (aliases (values c.known_peers))

abbrev pub get_peer : Config → Text → Option KnownPeer
get_peer c id = lookup id c.known_peers

unfoldable pub remove_peer : Config → Text → Config × Option KnownPeer
remove_peer c id = elim (lookup id c.known_peers) [
  | none ↦ (c, none)
  | some kp ↦
      (emit_known_peer_changed (save (record c { known_peers = remove id c.known_peers })), some kp)
]

-- UpsertPeer and UpsertPeerUnlocked
unfoldable pub upsert_peer : Config → KnownPeer → Config
upsert_peer c kp =
    emit_known_peer_changed (save (record c { known_peers = insert kp.peer_id kp c.known_peers }))

unfoldable pub bool_eq : Bool → Bool → Bool
bool_eq true b = b
bool_eq false b = not b

-- `before != after` of the two structs, LastSeen left out
unfoldable pub peer_changed_ignoring_last_seen : KnownPeer → KnownPeer → Bool
unfolding bool_eq
peer_changed_ignoring_last_seen a b = not (
    a.peer_id == b.peer_id
    && a.name == b.name
    && a.alias == b.alias
    && a.ip_addr == b.ip_addr
    && a.ip_addr_v6 == b.ip_addr_v6
    && a.domain_name == b.domain_name
    && eqb a.created_at b.created_at
    && bool_eq a.confirmed b.confirmed
    && bool_eq a.declined b.declined
    && bool_eq a.we_allow_using_as_exit_node b.we_allow_using_as_exit_node
    && bool_eq a.allowed_using_as_exit_node b.allowed_using_as_exit_node
    && bool_eq a.remote_vpn_gateway_server_enabled b.remote_vpn_gateway_server_enabled
    && a.invite_id == b.invite_id
    && a.pending_invite_token == b.pending_invite_token)

abbrev pub mutated : Config → Text → (KnownPeer → KnownPeer) → Option KnownPeer → Config × Bool
mutated c id mutate none = (c, false)
mutated c id mutate (some kp) =
    let updated = mutate kp in
    let c' : Config = record c { known_peers = insert id updated c.known_peers } in
    (
      (if peer_changed_ignoring_last_seen kp updated
          then emit_known_peer_changed (save c')
          else c'),
      true,
    )

unfoldable pub update_peer_fields : Config → Text → (KnownPeer → KnownPeer) → Config × Bool
update_peer_fields c id mutate = mutated c id mutate (lookup id c.known_peers)

unfoldable pub update_peer_last_seen : Config → ℕ → Text → Config
update_peer_last_seen c now id = elim (lookup id c.known_peers) [
  | none ↦ c
  | some kp ↦ record c { known_peers = insert id (record kp { last_seen = now }) c.known_peers }
]

abbrev pub unblocked : Config → Text → Option BlockedPeer → Config
unblocked c id none = c
unblocked c id (some b) = save (record c { blocked_peers = remove id c.blocked_peers })

unfoldable pub remove_blocked_peer : Config → Text → Config
remove_blocked_peer c id = unblocked c id (lookup id c.blocked_peers)

unfoldable pub upsert_blocked_peer : Config → ℕ → Text → Text → Config
upsert_blocked_peer c now id name =
    let created : ℕ = elim (lookup id c.blocked_peers) [ none ↦ now | some b ↦ b.created_at ] in
    let b : BlockedPeer = record { peer_id = id; display_name = name; created_at = created } in
    save (record c { blocked_peers = insert id b c.blocked_peers })
