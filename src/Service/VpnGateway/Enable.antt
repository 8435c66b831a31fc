-- ===== src/Service/VpnGateway/Enable.antt =====
-- EnableClient of the gateway service, with its rollback.
use awl.Base.{
  ◌≡◌, refl, sym, ap, ◌∙◌, subst, Bool, true, false, Option, none, some, Text, Bool-cases, inl, inr,
  ◌⊎◌, lookup,
}
use awl.Config.Types.{KnownPeer, can_use_as_vpn_gateway, save}
use awl.Config.Peers.{get_peer}
use awl.Service.Tunnel.{Tunnel, VpnPeer}
use awl.Service.Tunnel.Gateway.{GatewayError, bind_gateway, set_vpn_gateway_peer, bound}
use awl.Vpn.Netstate.NetManager.{NetManager, IsNetManager}
use awl.Service.VpnGateway.{
  Env, Interface, disabled, up, VpnGateway, ServiceError, interface_conf, apply_client, rolled_back,
  after_bind, enable_on, enable_client, vpn_gateway_client_supported,
}
use awl.Service.VpnGateway.Safe.{
  IsId, IsSafe, IsBoundTo, IsBoundTo-IsBound, IsOff, apply_lem, Rolled, rolled_back_lem,
}

-- what a bind leaves of the tunnel
abbrev Bind : Tunnel → Text → Tunnel × Option GatewayError → Type 0
Bind t id (t', some e) = t' ≡ t
Bind t id (t', none) =
    (t'.vpn_gateway_client_enabled ≡ true)
    × (t'.conf.vpn_gateway.client_enabled ≡ true)
    × (t'.conf.vpn_gateway.gateway_peer_id ≡ id)
    × (t'.vpn_gateway_peer_id ≡ id)
    × (t'.vpn_gateway_peer ≡ some id)
    × (t'.conf.vpn_gateway.server_enabled ≡ t.conf.vpn_gateway.server_enabled)

bound_lem : (t : Tunnel) (id : Text) (c : Bool) → Bind t id (bound t id c, none)
unfolding save
bound_lem t id true = (refl, refl, refl, refl, refl, refl)
bound_lem t id false = (refl, refl, refl, refl, refl, refl)

bind_lem :
    (t : Tunnel) (id : Text) (c : Bool) (o : Option KnownPeer) (vp : Option VpnPeer)
    → Bind t id (bind_gateway t id c o vp)
bind_lem t id c none vp = refl
bind_lem t id c (some kp) none = elim (Bool-cases (can_use_as_vpn_gateway kp)) [
  | inr n ↦ rw n refl
  | inl y ↦ rw y refl
]
bind_lem t id c (some kp) (some vp) = elim (Bool-cases (can_use_as_vpn_gateway kp)) [
  | inr n ↦ rw n refl
  | inl y ↦ rw y (bound_lem t id c)
]

set_peer_lem : (t : Tunnel) (id : Text) (c : Bool) → Bind t id (set_vpn_gateway_peer t id c)
unfolding set_vpn_gateway_peer
set_peer_lem t id c = bind_lem t id c (get_peer t.conf id) (lookup id t.peer_id_to_peer)

module _ (M : NetManager) (L : IsNetManager M) (env : Env) where
  -- Enabled: safe, active, and bound to the peer. Refused: nothing has changed, or the client is
  -- off without routes, and safe in both cases.
  abbrev pub IsEnabled : VpnGateway M → Text → VpnGateway M × Option (ServiceError M) → Type 0
  IsEnabled g id (g', none) =
      IsSafe M g'
      × (M.client_routes_active g'.net ≡ true)
      × (t : Tunnel) × (name : Option Text) × (g'.interface ≡ up t name)
      × IsBoundTo M L env id t
  IsEnabled g id (g', some e) =
      (g' ≡ g)
      ⊎ (IsSafe M g' × (M.client_routes_active g'.net ≡ false) × IsOff M L env g'.interface)

  IsEnabled-Rolled :
      (g : VpnGateway M) (id : Text) (t : Tunnel) (name : Option Text)
      (p : VpnGateway M × Option (ServiceError M))
      → IsBoundTo M L env id t
      → Rolled M L env (up t name) p
      → IsEnabled g id p
  IsEnabled-Rolled g id t name (g', none) b (s, on, e) = (s, on, t, name, e, b)
  IsEnabled-Rolled g id t name (g', some n) b (s, off, o) = inr (s, off, o)

  after_bind_lem :
      (g : VpnGateway M) (id : Text) (t : Tunnel) (name : Option Text)
      (p : Tunnel × Option GatewayError)
      → vpn_gateway_client_supported env.platform ≡ true
      → g.interface ≡ up t name
      → IsId env id
      → IsSafe M g
      → Bind t id p
      → IsEnabled g id (after_bind M env g name p)
  after_bind_lem g id t name (t', some e) y i h s b =
      inl (ap (λ x. record g { interface = x }) (ap (λ x. up x name) b ∙ sym i))
  after_bind_lem g id t name (t', none) y i h s (b0, b1, b2, b3, b4, flag) =
      let g1 : VpnGateway M = record g { interface = up t' name } in
      let b : IsBoundTo M L env id t' = (b0, b1, b2, b3, b4) in
      let s1 : IsSafe M g1 = record {
        routes = λ _. IsBoundTo-IsBound M L env id t' name b;
        nat = λ on.
            flag ∙ subst (λ x. (interface_conf x).vpn_gateway.server_enabled ≡ true) i (s.nat on);
        dns = s.dns;
      } in
      IsEnabled-Rolled g id t' name (rolled_back M env (apply_client M env g1)) b (
        rolled_back_lem M L env g1 (apply_client M env g1)
          (apply_lem M L env g1 t' name id y refl b h s1))

  enable_on_lem :
      (g : VpnGateway M) (id : Text) (i : Interface)
      → g.interface ≡ i
      → vpn_gateway_client_supported env.platform ≡ true
      → IsId env id
      → IsSafe M g
      → IsEnabled g id (enable_on M env g id i)
  enable_on_lem g id (disabled c) e y h s = inl refl
  enable_on_lem g id (up t name) e y h s =
      after_bind_lem g id t name (set_vpn_gateway_peer t id (env.is_connected id)) y e h s
        (set_peer_lem t id (env.is_connected id))

-- For a lawful manager, a safe service and the text of a peer ID: EnableClient either succeeds,
-- and then the client routes are active, the tunnel and the configuration are bound to that peer
-- and the service is safe; or it fails, and then nothing has changed at all, or the service is
-- safe, there are no client routes and the client is off in the tunnel and in the configuration.
pub enable_client_lem :
    (M : NetManager) (L : IsNetManager M) (env : Env) (g : VpnGateway M) (id : Text)
    → IsSafe M g
    → IsId env id
    → IsEnabled M L env g id (enable_client M env g id)
unfolding enable_client
enable_client_lem M L env g id s h = elim (Bool-cases (vpn_gateway_client_supported env.platform)) [
  | inl y ↦ rw y (enable_on_lem M L env g id g.interface refl y h s)
  | inr n ↦ rw n (inl refl)
]
