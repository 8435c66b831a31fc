-- ===== src/Tests/Gateways.antt =====
-- The manager of a concrete host, and the gateway service of a node on it.
use awl.Base.{
  inl, ◌≡◌, refl, ap, subst, true, false, List, [], ◌∷◌, Option, none, some, Text, codes, arith,
}
use awl.Vpn.Netstate.{family_v4}
use awl.Vpn.Netstate.Routes.Frame.{IsOutside}
use awl.Vpn.Netstate.NetManager.{NetManager, IsNetManager}
use awl.Vpn.Netstate.Manager.{Manager, linux_manager, client_routes_active, server_nat_active}
use awl.Vpn.Netstate.Routes.{build_tun_default_route, build_tun_default_route_v6}
use awl.Vpn.Netstate.Manager.Lawful.{linux_manager-IsNetManager}
use awl.Vpn.Netstate.Manager.Runs.{
  enable_routes, disable_routes, enable_nat, disable_nat, routes_changed, operate_all_keeps_host,
}
use awl.Vpn.Netstate.Manager.Runs
use awl.Service.VpnGateway.{
  Env, linux, up, VpnGateway, interface_conf, enable_client, disable_client,
}
use awl.Service.VpnGateway.Safe.{IsSafe, IsId, IsOff}
use awl.Service.VpnGateway.Enable.{IsEnabled, enable_client_lem}
use awl.Service.VpnGateway.Disable.{disable_client_lem}
use awl.Service.VpnGateway.Runs.{
  enable, disable, start, stop, serve, operate_all, operate_all-IsSafe, IsDecoder,
}
use awl.Tests.Hosts.{kernel, kernel_view, kernel-IsLawful, fresh, busy, has}
use awl.Tests.Firewalls.{firewall, host}
use awl.Tests.Nodes.{tunnel}

abbrev manager : Manager kernel firewall
manager = record { route_state = none; nat_state = none; net = busy; firewall = host false }

linux_manager-IsNetManager_example : IsNetManager (linux_manager kernel firewall)
linux_manager-IsNetManager_example = linux_manager-IsNetManager kernel firewall

abbrev day : List Runs.Operation
day =
    enable_routes (codes "awl0") []
    ∷ routes_changed
    ∷ enable_nat (codes "10.66.0.0/24") [] (codes "awl0")
    ∷ disable_routes
    ∷ disable_nat
    ∷ []

own_route : IsOutside kernel_view (100, family_v4)
unfolding build_tun_default_route build_tun_default_route_v6
own_route = record {
  table = λ h. omega (arith, h);
  tun = λ link h. absurd (let q : 100 ≡ 254 = ap (λ i. i.0) h in omega (arith, q));
  tun_v6 = λ link h. absurd (let q : 100 ≡ 254 = ap (λ i. i.0) h in omega (arith, q));
}

operate_all_keeps_host_example :
    has (Runs.operate_all kernel firewall manager day).net.held (100, family_v4)
    ≡ has busy.held (100, family_v4)
operate_all_keeps_host_example =
    operate_all_keeps_host kernel firewall kernel_view kernel-IsLawful manager day (100, family_v4)
      own_route

abbrev linux_net : NetManager
linux_net = linux_manager kernel firewall

abbrev decoded : Text → Option Text
decoded [] = none
decoded (x ∷ xs) = some (x ∷ xs)

abbrev env : Env
env = record {
  platform = linux;
  is_connected = λ id. true;
  decode = decoded;
  awl_subnet6 = λ c. [];
  dns_accepts = λ calls asked. asked;
}

abbrev IsIdIf : Option Text → Type 0
IsIdIf none = Unit
IsIdIf (some id) = IsId env id

decoded_ids : (text : Text) → IsIdIf (decoded text)
decoded_ids [] = tt
decoded_ids (x ∷ xs) = record { named = refl; decodes = refl }

env-IsDecoder : IsDecoder linux_net (linux_manager-IsNetManager kernel firewall) env
env-IsDecoder text id e = subst IsIdIf e (decoded_ids text)

abbrev gateway : VpnGateway linux_net
gateway = record {
  interface = up tunnel (some (codes "awl0"));
  net = record manager { net = fresh };
  dns = some [];
}

gateway-IsSafe : IsSafe linux_net gateway
unfolding client_routes_active server_nat_active
gateway-IsSafe = record {
  routes = λ h. absurd (let q : false ≡ true = h in cc q);
  nat = λ h. absurd (let q : false ≡ true = h in cc q);
  dns = (refl, inl refl);
}

laptop-IsId : IsId env (codes "p1")
laptop-IsId = record { named = refl; decodes = refl }

enable_client_lem_example :
    IsEnabled linux_net
      (linux_manager-IsNetManager kernel firewall)
      env
      gateway
      (codes "p1")
      (enable_client linux_net env gateway (codes "p1"))
enable_client_lem_example =
    enable_client_lem linux_net (linux_manager-IsNetManager kernel firewall) env gateway
      (codes "p1") gateway-IsSafe laptop-IsId

disable_client_lem_example :
    IsSafe linux_net (disable_client linux_net env gateway)
    × (linux_net.client_routes_active (disable_client linux_net env gateway).net ≡ false)
    × IsOff linux_net
        (linux_manager-IsNetManager kernel firewall)
        env
        (disable_client linux_net env gateway).interface
    × ((interface_conf (disable_client linux_net env gateway).interface).vpn_gateway.client_enabled
        ≡ false)
disable_client_lem_example =
    disable_client_lem linux_net (linux_manager-IsNetManager kernel firewall) env gateway
      gateway-IsSafe

operate_all-IsSafe_example : IsSafe linux_net (
    operate_all linux_net env gateway
      (serve true ∷ enable (codes "p1") ∷ stop ∷ start ∷ disable ∷ []))
operate_all-IsSafe_example =
    operate_all-IsSafe linux_net (linux_manager-IsNetManager kernel firewall) env env-IsDecoder
      gateway (serve true ∷ enable (codes "p1") ∷ stop ∷ start ∷ disable ∷ []) (laptop-IsId, tt)
      gateway-IsSafe
