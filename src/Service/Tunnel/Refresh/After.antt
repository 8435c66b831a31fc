-- ===== src/Service/Tunnel/Refresh/After.antt =====
-- What holds of the tunnel after RefreshPeersList: who is still in it, with which permission.
use awl.Base.{
  ℕ, ◌≡◌, ◌≢◌, refl, ap, sym, ◌∙◌, true, false, List, [], ◌∷◌, Option, none, some, arith, Distinct,
  Text, Map, lookup, insert, remove, values, lookup-insert, lookup-remove, ◌==◌, eq_iff, Bool-cases,
  Option-cases, ◌⊎◌, inl, inr, subst,
}
use awl.Config.Types.{Config, KnownPeer}
use awl.Config.Peers.{get_peer}
use awl.Config.Peers.Table.{IsPeerTable}
use awl.Service.Tunnel.{VpnPeer, Tunnel}
use awl.Service.Tunnel.Refresh.{
  IpParser, forget_unless, forget_unknown, rebound, rebind_gateway, settle, as_ipv4, refresh_known,
  refresh_peer, refreshed, refresh_peers_list, new_vpn_peer,
}
use awl.Service.Tunnel.Refresh.Permissions.{
  Keyed, store_known, store_present, Named, lookup-Named, Right, store-Right, values_found,
}

-- What the loops before the last one keep.
record Kept (t t' : Tunnel) : Type 0 where
  conf : t'.conf ≡ t.conf
  keyed : Keyed t.peer_id_to_peer → Keyed t'.peer_id_to_peer

insert-Keyed :
    (m : Map VpnPeer) (id : Text) (vp : VpnPeer)
    → vp.peer_id ≡ id
    → Keyed m
    → Keyed (insert id vp m)
insert-Keyed m id vp e k j w h = ground (arith, lookup-insert id j vp m, eq_iff id j, k j w, h, e)

remove-Keyed : (m : Map VpnPeer) (id : Text) → Keyed m → Keyed (remove id m)
remove-Keyed m id k j w h = ground (arith, lookup-remove id j m, k j w, h)

refreshed-Kept :
    (t : Tunnel) (id : Text) (ip : List ℕ) (ip_v6 : Option (List ℕ)) (o : Option VpnPeer)
    → lookup id t.peer_id_to_peer ≡ o
    → Kept t (refreshed t id ip ip_v6 o)
refreshed-Kept t id ip ip_v6 none e = record {
  conf = refl;
  keyed = λ k. insert-Keyed t.peer_id_to_peer id (new_vpn_peer id ip ip_v6) refl k;
}
refreshed-Kept t id ip ip_v6 (some prev) e = record {
  conf = refl;
  keyed = λ k. insert-Keyed t.peer_id_to_peer id _ (k id prev e) k;
}

refresh_peer-Kept :
    (t : Tunnel) (kp : KnownPeer) (o ip_v6 : Option (List ℕ)) → Kept t (refresh_peer t kp o ip_v6)
refresh_peer-Kept t kp none ip_v6 = record { conf = refl; keyed = λ k. k }
refresh_peer-Kept t kp (some ip) ip_v6 =
    refreshed-Kept t kp.peer_id ip ip_v6 (lookup kp.peer_id t.peer_id_to_peer) refl

Kept-trans : (a b c : Tunnel) → Kept a b → Kept b c → Kept a c
Kept-trans a b c h k = record { conf = k.conf ∙ h.conf; keyed = λ q. k.keyed (h.keyed q) }

refresh_known-Kept :
    (parse_ip : IpParser) (t : Tunnel) (kps : List KnownPeer)
    → Kept t (refresh_known parse_ip t kps)
unfolding refresh_known
refresh_known-Kept parse_ip t [] = record { conf = refl; keyed = λ k. k }
refresh_known-Kept parse_ip t (kp ∷ kps) =
    let t' = refresh_peer t kp (as_ipv4 (parse_ip kp.ip_addr)) (parse_ip kp.ip_addr_v6) in
    Kept-trans t t' (refresh_known parse_ip t' kps)
      (refresh_peer-Kept t kp (as_ipv4 (parse_ip kp.ip_addr)) (parse_ip kp.ip_addr_v6))
      (refresh_known-Kept parse_ip t' kps)

forget_unless-conf :
    (t : Tunnel) (id : Text) (vp : VpnPeer) (o : Option KnownPeer)
    → (forget_unless t id vp o).conf ≡ t.conf
forget_unless-conf t id vp none = refl
forget_unless-conf t id vp (some kp) = refl

forget_unknown-conf : (t : Tunnel) (vps : List VpnPeer) → (forget_unknown t vps).conf ≡ t.conf
unfolding forget_unknown
forget_unknown-conf t [] = refl
forget_unknown-conf t (vp ∷ vps) =
    forget_unknown-conf (forget_unless t vp.peer_id vp (get_peer t.conf vp.peer_id)) vps
    ∙ forget_unless-conf t vp.peer_id vp (get_peer t.conf vp.peer_id)

-- Every peer of the table is known or still in the list.
abbrev Pending : Config → Map VpnPeer → List VpnPeer → Type 0
Pending c m vps =
    (j : Text) → lookup j m ≢ none → (get_peer c j ≢ none) ⊎ Named (λ v. v.peer_id) j vps

Pending-step :
    (c : Config) (t : Tunnel) (vp : VpnPeer) (vps : List VpnPeer) (o : Option KnownPeer)
    → get_peer c vp.peer_id ≡ o
    → Pending c t.peer_id_to_peer (vp ∷ vps)
    → Pending c (forget_unless t vp.peer_id vp o).peer_id_to_peer vps
Pending-step c t vp vps (some kp) e p j h = elim (p j h) [
  | inl known ↦ inl known
  | inr (inl q) ↦ inl (λ n. cc (e, n, ap (get_peer c) q))
  | inr (inr rest) ↦ inr rest
]
Pending-step c t vp vps none e p j h =
    let id = vp.peer_id in
    let m = t.peer_id_to_peer in
    let n : (id == j) ≡ false = ground (arith, lookup-remove id j m, h) in
    let there : lookup j m ≢ none = λ k. h (lookup-remove id j m ∙ (rw n k)) in
    elim (p j there) [
      | inl known ↦ inl known
      | inr (inl q) ↦ absurd (cc (n, (eq_iff id j).1 q))
      | inr (inr rest) ↦ inr rest
    ]

forget_unknown_lem :
    (c : Config) (t : Tunnel) (vps : List VpnPeer)
    → t.conf ≡ c
    → Pending c t.peer_id_to_peer vps
    → (j : Text) → lookup j (forget_unknown t vps).peer_id_to_peer ≢ none
    → get_peer c j ≢ none
unfolding forget_unknown
forget_unknown_lem c t [] e p j h = elim (p j h) [ inl known ↦ known | inr n ↦ absurd n ]
forget_unknown_lem c t (vp ∷ vps) e p j h =
    let o = get_peer t.conf vp.peer_id in
    forget_unknown_lem c (forget_unless t vp.peer_id vp o) vps
      (forget_unless-conf t vp.peer_id vp o ∙ e)
      (Pending-step c t vp vps o (ap (λ k. get_peer k vp.peer_id) (sym e)) p) j h

-- The gateway that the tunnel uses is a peer of the table.
abbrev pub GatewayBound : Tunnel → Type 0
GatewayBound t =
    t.vpn_gateway_client_enabled ≡ true
    → (t.vpn_gateway_peer ≡ some t.vpn_gateway_peer_id)
      × (lookup t.vpn_gateway_peer_id t.peer_id_to_peer ≢ none)

record IsRebound (t t' : Tunnel) : Type 0 where
  conf : t'.conf ≡ t.conf
  peers : t'.peer_id_to_peer ≡ t.peer_id_to_peer
  gateway : GatewayBound t'

rebound_lem :
    (t : Tunnel) (o : Option VpnPeer)
    → lookup t.vpn_gateway_peer_id t.peer_id_to_peer ≡ o
    → IsRebound t (rebound t o)
rebound_lem t none e = record { conf = refl; peers = refl; gateway = λ h. absurd (cc h) }
rebound_lem t (some vp) e = record {
  conf = refl;
  peers = refl;
  gateway = λ h. (refl, λ n. cc (e, n));
}

rebind_gateway_lem : (t : Tunnel) → IsRebound t (rebind_gateway t)
unfolding rebind_gateway
rebind_gateway_lem t = elim (Bool-cases t.vpn_gateway_client_enabled) [
  | inl e ↦
      subst (IsRebound t)
        (let q : rebound t (lookup t.vpn_gateway_peer_id t.peer_id_to_peer) ≡ rebind_gateway t =
            simp e refl in
          q)
        (rebound_lem t (lookup t.vpn_gateway_peer_id t.peer_id_to_peer) refl)
  | inr e ↦
      subst (IsRebound t) (let q : t ≡ rebind_gateway t = simp e refl in q)
        (record { conf = refl; peers = refl; gateway = λ h. absurd (cc (e, h)) })
]

-- The tunnel agrees with the configuration.
pub record IsRefreshed (t : Tunnel) : Type 0 where
  pub no_strangers : (j : Text) → lookup j t.peer_id_to_peer ≢ none → get_peer t.conf j ≢ none
  pub permissions :
      (j : Text) (kp : KnownPeer) → get_peer t.conf j ≡ some kp → Right t.peer_id_to_peer j kp
  pub gateway : GatewayBound t

settle_lem :
    (t : Tunnel)
    → Keyed t.peer_id_to_peer
    → IsPeerTable t.conf.known_peers
    → Distinct t.conf.known_peers
    → IsRefreshed (settle t)
settle_lem t k table d =
    let vps = values t.peer_id_to_peer in
    let a = forget_unknown t vps in
    let b = rebind_gateway a in
    let r = rebind_gateway_lem a in
    let conf : b.conf ≡ t.conf = r.conf ∙ forget_unknown-conf t vps in
    let kps = values b.conf.known_peers in
    let found = values_found t.conf.known_peers t.conf.known_peers d (λ id kp h. h) table.keyed in
    record {
      no_strangers = λ j h. rw conf (
          forget_unknown_lem t.conf t vps refl
            (λ i there. elim (Option-cases (lookup i t.peer_id_to_peer)) [
              | inl n ↦ absurd (there n)
              | inr (w, at) ↦
                  inr (lookup-Named (λ v. v.peer_id) t.peer_id_to_peer i w (k i w at) at)
            ])
            j (rw (← r.peers) (store_known b.peer_id_to_peer kps j h)));
      permissions = λ j kp at.
          let at' : lookup j t.conf.known_peers ≡ some kp =
            ap (λ c. get_peer c j) (sym conf) ∙ at in
          store-Right t.conf.known_peers j kp at' b.peer_id_to_peer kps (rw conf found) (
            inr (
              rw conf (
                lookup-Named (λ q. q.peer_id) t.conf.known_peers j kp (table.keyed j kp at') at')));
      gateway = λ h. (
        (r.gateway h).0,
        store_present b.peer_id_to_peer kps b.vpn_gateway_peer_id (r.gateway h).1,
      );
    }

-- RefreshPeersList of a tunnel that is not closed, with each VpnPeer under its own ID and each known
-- peer once under its own ID with distinct aliases: afterwards every VpnPeer is of a known peer,
-- its permission to use us as exit node is the one configured, and in client mode the gateway is
-- bound to a VpnPeer that is there.
pub refresh_peers_list_lem :
    (parse_ip : IpParser) (t : Tunnel)
    → t.is_closed ≡ false
    → Keyed t.peer_id_to_peer
    → IsPeerTable t.conf.known_peers
    → Distinct t.conf.known_peers
    → IsRefreshed (refresh_peers_list parse_ip t)
unfolding refresh_peers_list
refresh_peers_list_lem parse_ip t running k table d =
    let t' = refresh_known parse_ip t (values t.conf.known_peers) in
    let kept = refresh_known-Kept parse_ip t (values t.conf.known_peers) in
    let e : settle t' ≡ refresh_peers_list parse_ip t = simp running refl in
    subst IsRefreshed e (settle_lem t' (kept.keyed k) (rw kept.conf table) (rw kept.conf d))
