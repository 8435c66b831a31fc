-- ===== src/Service/VpnGateway/Disable.antt =====
-- DisableClient of the gateway service, and the teardown of the client.
use awl.Base.{◌≡◌, refl, sym, ap, ◌∙◌, subst, Bool, true, false, [], Bool-cases, inl, inr}
use awl.Config.Types.{Config, save}
use awl.Service.Tunnel.Gateway.{clear_vpn_gateway_peer, client_conf}
use awl.Vpn.Netstate.NetManager.{NetManager, IsNetManager}
use awl.Service.VpnGateway.{
  Env, Interface, disabled, up, VpnGateway, interface_conf, force_upstream_dns, teardown_if,
  teardown_client, disable_on, disable_client,
}
use awl.Service.VpnGateway.Safe.{
  IsBound, IsSafe, IsOff, DnsAgrees, no-IsBound, forced, move_interface,
}

module _ (M : NetManager) (L : IsNetManager M) (env : Env) where
  teardown_if_lem :
      (g : VpnGateway M) (active : Bool)
      → M.client_routes_active g.net ≡ active
      → IsSafe M g
      → IsSafe M (teardown_if M env g active)
        × (M.client_routes_active (teardown_if M env g active).net ≡ false)
        × ((teardown_if M env g active).interface ≡ g.interface)
  teardown_if_lem g false e s = (s, e, refl)
  teardown_if_lem g true e s =
      let off = L.client_disabled g.net in
      (
        record {
          routes =
              no-IsBound M L env (M.client_routes_active (M.disable_client_routes g.net).0)
                g.interface off;
          nat = λ y. s.nat (sym (L.client_disable_nat g.net) ∙ y);
          dns =
              subst (λ a. DnsAgrees a (force_upstream_dns M env g.dns false)) (sym off)
                (forced M L env g.dns false);
        },
        off,
        refl,
      )

  pub teardown_client_lem :
      (g : VpnGateway M)
      → IsSafe M g
      → IsSafe M (teardown_client M env g)
        × (M.client_routes_active (teardown_client M env g).net ≡ false)
        × ((teardown_client M env g).interface ≡ g.interface)
  unfolding teardown_client
  teardown_client_lem g s = teardown_if_lem g (M.client_routes_active g.net) refl s

  inactive :
      (g : VpnGateway M) (c : Config)
      → g.interface ≡ disabled c
      → IsSafe M g
      → M.client_routes_active g.net ≡ false
  inactive g c e s = elim (Bool-cases (M.client_routes_active g.net)) [
    | inl y ↦ absurd (subst IsBound e (s.routes y))
    | inr n ↦ n
  ]

  disable_on_lem :
      (g : VpnGateway M) (i : Interface)
      → g.interface ≡ i
      → IsSafe M g
      → IsSafe M (disable_on M env g i)
        × (M.client_routes_active (disable_on M env g i).net ≡ false)
        × IsOff M L env (disable_on M env g i).interface
        × ((interface_conf (disable_on M env g i).interface).vpn_gateway.client_enabled ≡ false)
  unfolding clear_vpn_gateway_peer save
  disable_on_lem g (up t name) e s =
      let (s', off, same) = teardown_client_lem g s in
      (
        move_interface M L env (teardown_client M env g) (up (clear_vpn_gateway_peer t) name) off
            (sym (ap (λ i. (interface_conf i).vpn_gateway.server_enabled) (same ∙ e))) s',
        off,
        (refl, refl, refl, refl),
        refl,
      )
  disable_on_lem g (disabled c) e s =
      let off = inactive g c e s in
      (
        move_interface M L env g (disabled (client_conf c false [])) off
            (sym (ap (λ i. (interface_conf i).vpn_gateway.server_enabled) e)) s,
        off,
        tt,
        refl,
      )

-- For a lawful manager and a safe service, DisableClient leaves the service safe, without client
-- routes, and with the client off in the configuration and, if there is one, in the tunnel.
pub disable_client_lem :
    (M : NetManager) (L : IsNetManager M) (env : Env) (g : VpnGateway M)
    → IsSafe M g
    → IsSafe M (disable_client M env g)
      × (M.client_routes_active (disable_client M env g).net ≡ false)
      × IsOff M L env (disable_client M env g).interface
      × ((interface_conf (disable_client M env g).interface).vpn_gateway.client_enabled ≡ false)
unfolding disable_client
disable_client_lem M L env g s = disable_on_lem M L env g g.interface refl s
