-- ===== src/Service/VpnGateway.antt =====
-- service/vpn_gateway.go: the gateway service, over a manager of the host network. Where there is
-- a tunnel it has the configuration; its device comes with it, and has a name or fails to give
-- one. Each operation is one step; log lines are left out.
pub mod Safe
pub mod Enable
pub mod Disable
pub mod Serve
pub mod Runs
use awl.Base.{
  ℕ, ◌-◌, ◌%◌, ◌^◌, Bool, true, false, not, ◌&&◌, ◌||◌, List, [], ◌∷◌, ◌++◌, Option, none, some,
  Text, codes, decimal, is_empty, if◌then◌else◌,
}
use awl.Config.Types.{Config, VpnGatewayConfig, save}
use awl.Config.Ipv4.{ipv4_text}
use awl.Service.Tunnel.{Tunnel}
use awl.Service.Tunnel.Gateway.{
  GatewayError, set_vpn_gateway_peer, clear_vpn_gateway_peer, set_vpn_gateway_server_enabled,
  client_conf,
}
use awl.Vpn.Netstate.NetManager.{NetManager}

-- runtime.GOOS
pub data Platform : Type 0 where
  linux android windows darwin other : Platform

pub record Env : Type 0 where
  pub platform : Platform
  -- P2p.IsConnected
  pub is_connected : Text → Bool
  -- peer.Decode, to the text of the ID
  pub decode : Text → Option Text
  -- what net.IPNet prints of the IPv6 subnet, empty without one
  pub awl_subnet6 : Config → Text
  -- ForceUpstreamDNS works, after the calls so far
  pub dns_accepts : List (Bool × Bool) → Bool → Bool

pub data Interface : Type 0 where
  disabled : Config → Interface
  up : Tunnel → Option Text → Interface

pub record VpnGateway (M : NetManager) : Type 0 where
  pub interface : Interface
  pub net : M.State
  -- nil, or the calls of ForceUpstreamDNS, the last one first: what was asked, and whether it worked
  pub dns : Option (List (Bool × Bool))

pub data ServiceError (M : NetManager) : Type 0 where
  client_not_supported server_not_supported interface_disabled no_gateway_peer : ServiceError M
  invalid_gateway_peer no_tun_name : ServiceError M
  tunnel_refused : GatewayError → ServiceError M
  net_refused : M.Error → ServiceError M

unfoldable pub vpn_gateway_client_supported : Platform → Bool
vpn_gateway_client_supported linux = true
vpn_gateway_client_supported android = true
vpn_gateway_client_supported windows = true
vpn_gateway_client_supported darwin = false
vpn_gateway_client_supported other = false

unfoldable pub vpn_gateway_server_supported : Platform → Bool
vpn_gateway_server_supported linux = true
vpn_gateway_server_supported windows = true
vpn_gateway_server_supported android = false
vpn_gateway_server_supported darwin = false
vpn_gateway_server_supported other = false

abbrev pub interface_conf : Interface → Config
interface_conf (disabled c) = c
interface_conf (up t name) = t.conf

-- what net.IPNet prints of the IPv4 subnet
unfoldable pub awl_subnet : Config → Text
unfolding ipv4_text
awl_subnet c = elim c.ip_net [
  | none ↦ codes "<nil>"
  | some (ip, bits) ↦ ipv4_text (ip - ip % 2 ^ (32 - bits)) ++ codes "/" ++ decimal bits
]

abbrev pub server_conf : Config → Bool → Config
server_conf c enabled =
    save (record c { vpn_gateway = record c.vpn_gateway { server_enabled = enabled } })

module _ (M : NetManager) (env : Env) where
  -- an error is only logged, so that the call stands in the history as one that failed
  abbrev pub force_upstream_dns : Option (List (Bool × Bool)) → Bool → Option (List (Bool × Bool))
  force_upstream_dns none enabled = none
  force_upstream_dns (some calls) enabled = some ((enabled, env.dns_accepts calls enabled) ∷ calls)

  abbrev pub routes_set :
      VpnGateway M → M.State × Option M.Error → VpnGateway M × Option (ServiceError M)
  routes_set g (s, some e) = (record g { net = s }, some (net_refused e))
  routes_set g (s, none) = (record g { net = s; dns = force_upstream_dns g.dns true }, none)

  abbrev pub named_client :
      VpnGateway M → List Text → Option Text → VpnGateway M × Option (ServiceError M)
  named_client g bypass none = (g, some no_tun_name)
  named_client g bypass (some name) = routes_set g (M.enable_client_routes g.net name bypass)

  abbrev pub inactive_client :
      VpnGateway M → List Text → Option Text → Bool → VpnGateway M × Option (ServiceError M)
  inactive_client g bypass name true = (g, none)
  inactive_client g bypass name false = named_client g bypass name

  abbrev pub decoded_client :
      VpnGateway M → List Text → Option Text → Option Text → VpnGateway M × Option (ServiceError M)
  decoded_client g bypass name none = (g, some invalid_gateway_peer)
  decoded_client g bypass name (some id) =
      inactive_client g bypass name (M.client_routes_active g.net)

  abbrev pub configured_client :
      VpnGateway M → Config → Option Text → Bool → VpnGateway M × Option (ServiceError M)
  configured_client g c name true = (g, some no_gateway_peer)
  configured_client g c name false =
      decoded_client g c.vpn_gateway.client_bypass_cidrs name
        (env.decode c.vpn_gateway.gateway_peer_id)

  abbrev pub tunnelled_client : VpnGateway M → Interface → VpnGateway M × Option (ServiceError M)
  tunnelled_client g (disabled c) = (g, some interface_disabled)
  tunnelled_client g (up t name) =
      configured_client g t.conf name (is_empty t.conf.vpn_gateway.gateway_peer_id)

  unfoldable pub apply_client : VpnGateway M → VpnGateway M × Option (ServiceError M)
  unfolding vpn_gateway_client_supported
  apply_client g =
      if vpn_gateway_client_supported env.platform
      then tunnelled_client g g.interface
      else (g, some client_not_supported)

  abbrev pub teardown_if : VpnGateway M → Bool → VpnGateway M
  teardown_if g false = g
  teardown_if g true = record g {
    net = (M.disable_client_routes g.net).0;
    dns = force_upstream_dns g.dns false;
  }

  unfoldable pub teardown_client : VpnGateway M → VpnGateway M
  teardown_client g = teardown_if g (M.client_routes_active g.net)

  abbrev pub unbound : Interface → Interface
  unbound (disabled c) = disabled c
  unbound (up t name) = up (clear_vpn_gateway_peer t) name

  abbrev pub rolled_back :
      VpnGateway M × Option (ServiceError M) → VpnGateway M × Option (ServiceError M)
  rolled_back (g, none) = (g, none)
  rolled_back (g, some e) = (record g { interface = unbound g.interface }, some e)

  abbrev pub after_bind :
      VpnGateway M
      → Option Text
      → Tunnel × Option GatewayError
      → VpnGateway M × Option (ServiceError M)
  after_bind g name (t, some e) = (record g { interface = up t name }, some (tunnel_refused e))
  after_bind g name (t, none) = rolled_back (apply_client (record g { interface = up t name }))

  abbrev pub enable_on : VpnGateway M → Text → Interface → VpnGateway M × Option (ServiceError M)
  enable_on g id (disabled c) = (g, some interface_disabled)
  enable_on g id (up t name) = after_bind g name (set_vpn_gateway_peer t id (env.is_connected id))

  unfoldable pub enable_client : VpnGateway M → Text → VpnGateway M × Option (ServiceError M)
  unfolding apply_client clear_vpn_gateway_peer vpn_gateway_client_supported
  enable_client g id =
      if vpn_gateway_client_supported env.platform
      then enable_on g id g.interface
      else (g, some client_not_supported)

  abbrev pub disable_on : VpnGateway M → Interface → VpnGateway M
  disable_on g (up t name) = record (teardown_client g) {
    interface = up (clear_vpn_gateway_peer t) name;
  }
  disable_on g (disabled c) = record g { interface = disabled (client_conf c false []) }

  unfoldable pub disable_client : VpnGateway M → VpnGateway M
  unfolding teardown_client clear_vpn_gateway_peer
  disable_client g = disable_on g g.interface

  abbrev pub nat_set :
      VpnGateway M → M.State × Option M.Error → VpnGateway M × Option (ServiceError M)
  nat_set g (s, some e) = (record g { net = s }, some (net_refused e))
  nat_set g (s, none) = (record g { net = s }, none)

  abbrev pub named_server :
      VpnGateway M → Config → Option Text → VpnGateway M × Option (ServiceError M)
  named_server g c none = (g, some no_tun_name)
  named_server g c (some name) =
      nat_set g (M.enable_server_nat g.net (awl_subnet c) (env.awl_subnet6 c) name)

  abbrev pub server_on : VpnGateway M → Interface → VpnGateway M × Option (ServiceError M)
  server_on g (disabled c) = (g, some interface_disabled)
  server_on g (up t name) = named_server g t.conf name

  unfoldable pub apply_server : VpnGateway M → VpnGateway M × Option (ServiceError M)
  unfolding awl_subnet vpn_gateway_server_supported
  apply_server g =
      if M.server_nat_active g.net
      then (g, none)
      else if vpn_gateway_server_supported env.platform
      then server_on g g.interface
      else (g, some server_not_supported)

  unfoldable pub teardown_server : VpnGateway M → VpnGateway M
  teardown_server g = record g { net = (M.disable_server_nat g.net).0 }

  abbrev pub server_flag : Interface → Bool → Interface
  server_flag (up t name) enabled = up (set_vpn_gateway_server_enabled t enabled) name
  server_flag (disabled c) enabled = disabled (server_conf c enabled)

  abbrev pub flagged :
      VpnGateway M × Option (ServiceError M) → VpnGateway M × Option (ServiceError M)
  flagged (g, some e) = (g, some e)
  flagged (g, none) = (record g { interface = server_flag g.interface true }, none)

  unfoldable pub set_server_enabled : VpnGateway M → Bool → VpnGateway M × Option (ServiceError M)
  unfolding apply_server teardown_server set_vpn_gateway_server_enabled vpn_gateway_server_supported
  set_server_enabled g true =
      if vpn_gateway_server_supported env.platform
      then flagged (apply_server g)
      else (g, some server_not_supported)
  set_server_enabled g false =
      (teardown_server (record g { interface = server_flag g.interface false }), none)

  abbrev pub startup_decoded : VpnGateway M → Option Text → VpnGateway M × Option (ServiceError M)
  startup_decoded g none = (disable_client g, none)
  startup_decoded g (some id) = enable_client g id

  abbrev pub startup_client :
      VpnGateway M → VpnGatewayConfig → Bool → VpnGateway M × Option (ServiceError M)
  startup_client g gw false = (g, none)
  startup_client g gw true =
      if vpn_gateway_client_supported env.platform
      then startup_decoded g (env.decode gw.gateway_peer_id)
      else (g, none)

  abbrev pub startup_next :
      VpnGatewayConfig
      → VpnGateway M × Option (ServiceError M)
      → VpnGateway M × Option (ServiceError M)
  startup_next gw (g, some e) = (g, some e)
  startup_next gw (g, none) =
      startup_client g gw (gw.client_enabled && not (is_empty gw.gateway_peer_id))

  abbrev pub startup_server :
      VpnGateway M → VpnGatewayConfig → VpnGateway M × Option (ServiceError M)
  startup_server g gw =
      if gw.server_enabled && vpn_gateway_server_supported env.platform
      then set_server_enabled g true
      else (g, none)

  unfoldable pub setup_at_startup : VpnGateway M → VpnGateway M × Option (ServiceError M)
  unfolding set_server_enabled enable_client disable_client vpn_gateway_client_supported
      vpn_gateway_server_supported
  setup_at_startup g =
      let gw = (interface_conf g.interface).vpn_gateway in startup_next gw (startup_server g gw)

  unfoldable pub teardown_at_shutdown : VpnGateway M → VpnGateway M
  unfolding teardown_client teardown_server
  teardown_at_shutdown g = teardown_server (teardown_client g)
