-- ===== src/Vpn/Netstate/Manager.antt =====
-- vpn/netstate/manager_linux.go and manager_android.go: the manager of the host network. On Linux
-- netlink and the firewall are separate parts of the host. Each operation holds the lock.
pub mod Lawful
pub mod Runs
use awl.Base.{
  ◌≡◌, refl, Bool, true, false, ◌||◌, ◌&&◌, List, [], ◌∷◌, Option, none, some, Text, ℕ, eqb,
}
use awl.Vpn.Netstate.{Netlink, Route, main_table}
use awl.Vpn.Netstate.Routes.{
  RouteState, RouteError, Setup, failed, done, setup_gateway_routes, teardown_gateway_routes,
  is_ipv4_default_dst, is_ipv6_default_dst,
}
use awl.Vpn.Netstate.Routes.Reconcile.{reconcile_state}
use awl.Vpn.Netstate.Nat.{Firewall, NatState, NatError, NatSetup, setup_nat, teardown_nat}
use awl.Vpn.Netstate.Nat
use awl.Vpn.Netstate.NetManager.{NetManager}

pub record Manager (N : Netlink) (F : Firewall) : Type 0 where
  pub route_state : Option RouteState
  pub nat_state : Option NatState
  pub net : N.Os
  pub firewall : F.Os

-- an enable's error is one, a disable's the list of those that are joined
pub data ManagerError : Type 0 where
  setup_gateway_routes_failed : RouteError → ManagerError
  setup_nat_failed : NatError → ManagerError
  teardown_failed : List ℕ → ManagerError

abbrev pub joined : List ℕ → Option ManagerError
joined [] = none
joined (e ∷ errs) = some (teardown_failed (e ∷ errs))

abbrev pub is_some {ℓ} : {A : Type ℓ} → Option A → Bool
is_some none = false
is_some (some a) = true

module _ (N : Netlink) (F : Firewall) where
  abbrev pub with_routes : Manager N F → N.Os × Setup → Manager N F × Option ManagerError
  with_routes m (os, failed e) = (record m { net = os }, some (setup_gateway_routes_failed e))
  with_routes m (os, done st) = (record m { net = os; route_state = some st }, none)

  abbrev pub enable_unless :
      Manager N F → Text → Option RouteState → Manager N F × Option ManagerError
  enable_unless m tun (some st) = (m, none)
  enable_unless m tun none = with_routes m (setup_gateway_routes N m.net tun)

  unfoldable pub enable_client_routes :
      Manager N F → Text → List Text → Manager N F × Option ManagerError
  unfolding setup_gateway_routes
  enable_client_routes m tun bypass = enable_unless m tun m.route_state

  abbrev pub without_routes : Manager N F → N.Os × List ℕ → Manager N F × Option ManagerError
  without_routes m (os, errs) = (record m { net = os; route_state = none }, joined errs)

  abbrev pub disable_if : Manager N F → Option RouteState → Manager N F × Option ManagerError
  disable_if m none = (m, none)
  disable_if m (some st) = without_routes m (teardown_gateway_routes N m.net st)

  unfoldable pub disable_client_routes : Manager N F → Manager N F × Option ManagerError
  unfolding teardown_gateway_routes
  disable_client_routes m = disable_if m m.route_state

  unfoldable pub client_routes_active : Manager N F → Bool
  client_routes_active m = is_some m.route_state

  abbrev pub with_nat : Manager N F → F.Os × NatSetup → Manager N F × Option ManagerError
  with_nat m (os, Nat.failed e) = (record m { firewall = os }, some (setup_nat_failed e))
  with_nat m (os, Nat.done st) = (record m { firewall = os; nat_state = some st }, none)

  abbrev pub enable_nat_unless :
      Manager N F → Text → Text → Text → Option NatState → Manager N F × Option ManagerError
  enable_nat_unless m subnet subnet6 tun (some st) = (m, none)
  enable_nat_unless m subnet subnet6 tun none =
      with_nat m (setup_nat F m.firewall subnet subnet6 tun)

  unfoldable pub enable_server_nat :
      Manager N F → Text → Text → Text → Manager N F × Option ManagerError
  unfolding setup_nat
  enable_server_nat m subnet subnet6 tun = enable_nat_unless m subnet subnet6 tun m.nat_state

  abbrev pub without_nat : Manager N F → F.Os × List ℕ → Manager N F × Option ManagerError
  without_nat m (os, errs) = (record m { firewall = os; nat_state = none }, joined errs)

  abbrev pub disable_nat_if : Manager N F → Option NatState → Manager N F × Option ManagerError
  disable_nat_if m none = (m, none)
  disable_nat_if m (some st) = without_nat m (teardown_nat F m.firewall st)

  unfoldable pub disable_server_nat : Manager N F → Manager N F × Option ManagerError
  unfolding teardown_nat
  disable_server_nat m = disable_nat_if m m.nat_state

  unfoldable pub server_nat_active : Manager N F → Bool
  server_nat_active m = is_some m.nat_state

  abbrev pub reconciled : Manager N F → N.Os × RouteState → Manager N F
  reconciled m (os, st) = record m { net = os; route_state = some st }

  abbrev pub reconcile_if : Manager N F → Option RouteState → Manager N F
  reconcile_if m none = m
  reconcile_if m (some st) = reconciled m (reconcile_state N m.net st)

  -- the reaction of the route monitor to a change
  unfoldable pub reconcile : Manager N F → Manager N F
  unfolding reconcile_state
  reconcile m = reconcile_if m m.route_state

  abbrev pub linux_manager : NetManager
  linux_manager = record {
    State = Manager N F;
    Error = ManagerError;
    enable_client_routes = enable_client_routes;
    disable_client_routes = disable_client_routes;
    client_routes_active = client_routes_active;
    enable_server_nat = enable_server_nat;
    disable_server_nat = disable_server_nat;
    server_nat_active = server_nat_active;
  }

-- manager_linux.go: what makes the monitor reconcile
unfoldable pub is_default_route_update : Route → Bool
unfolding is_ipv4_default_dst is_ipv6_default_dst
is_default_route_update r =
    eqb r.table main_table && (is_ipv4_default_dst r.dst || is_ipv6_default_dst r.dst)

-- manager_android.go: the state is recorded, and the host application has the routes
pub record AndroidManager : Type 0 where
  pub client_active : Bool
  pub server_active : Bool

abbrev pub android_manager : NetManager
android_manager = record {
  State = AndroidManager;
  Error = Unit;
  enable_client_routes = λ m tun bypass. (record m { client_active = true }, none);
  disable_client_routes = λ m. (record m { client_active = false }, none);
  client_routes_active = λ m. m.client_active;
  enable_server_nat = λ m subnet subnet6 tun. (record m { server_active = true }, none);
  disable_server_nat = λ m. (record m { server_active = false }, none);
  server_nat_active = λ m. m.server_active;
}
