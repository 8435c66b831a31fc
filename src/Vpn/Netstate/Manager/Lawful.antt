-- ===== src/Vpn/Netstate/Manager/Lawful.antt =====
-- The managers against the interface of the gateway service.
use awl.Base.{◌≡◌, refl, ap, subst, Bool, true, false, Option, none, some, Text}
use awl.Vpn.Netstate.{Netlink}
use awl.Vpn.Netstate.Routes.{RouteState, Setup, failed, done, setup_gateway_routes}
use awl.Vpn.Netstate.Nat.{Firewall, NatState, NatSetup, setup_nat}
use awl.Vpn.Netstate.Nat
use awl.Vpn.Netstate.NetManager.{IsNetManager}
use awl.Vpn.Netstate.Manager.{
  Manager, ManagerError, is_some, with_routes, enable_unless, enable_client_routes, disable_if,
  disable_client_routes, client_routes_active, with_nat, enable_nat_unless, enable_server_nat,
  disable_nat_if, disable_server_nat, server_nat_active, linux_manager, android_manager,
}

module _ (N : Netlink) (F : Firewall) where
  -- an enable is refused exactly if it is not active afterwards
  abbrev Enabled : (Manager N F → Bool) → Manager N F × Option ManagerError → Type 0
  Enabled active (m, none) = active m ≡ true
  Enabled active (m, some e) = active m ≡ false

  abbrev routes_on : Manager N F → Bool
  routes_on m = is_some m.route_state

  abbrev nat_on : Manager N F → Bool
  nat_on m = is_some m.nat_state

  with_routes_lem :
      (m : Manager N F) (p : N.Os × Setup)
      → m.route_state ≡ none
      → Enabled routes_on (with_routes N F m p) × (nat_on (with_routes N F m p).0 ≡ nat_on m)
  with_routes_lem m (os, failed e) h = (rw h refl, refl)
  with_routes_lem m (os, done st) h = (refl, refl)

  enable_routes_lem :
      (m : Manager N F) (tun : Text) (o : Option RouteState)
      → m.route_state ≡ o
      → Enabled routes_on (enable_unless N F m tun o)
        × (nat_on (enable_unless N F m tun o).0 ≡ nat_on m)
  enable_routes_lem m tun none h = with_routes_lem m (setup_gateway_routes N m.net tun) h
  enable_routes_lem m tun (some st) h = (rw h refl, refl)

  disable_routes_lem :
      (m : Manager N F) (o : Option RouteState)
      → m.route_state ≡ o
      → (routes_on (disable_if N F m o).0 ≡ false) × (nat_on (disable_if N F m o).0 ≡ nat_on m)
  disable_routes_lem m none h = (rw h refl, refl)
  disable_routes_lem m (some st) h = (refl, refl)

  with_nat_lem :
      (m : Manager N F) (p : F.Os × NatSetup)
      → m.nat_state ≡ none
      → Enabled nat_on (with_nat N F m p) × (routes_on (with_nat N F m p).0 ≡ routes_on m)
  with_nat_lem m (os, Nat.failed e) h = (rw h refl, refl)
  with_nat_lem m (os, Nat.done st) h = (refl, refl)

  enable_nat_lem :
      (m : Manager N F) (subnet subnet6 tun : Text) (o : Option NatState)
      → m.nat_state ≡ o
      → Enabled nat_on (enable_nat_unless N F m subnet subnet6 tun o)
        × (routes_on (enable_nat_unless N F m subnet subnet6 tun o).0 ≡ routes_on m)
  enable_nat_lem m subnet subnet6 tun none h =
      with_nat_lem m (setup_nat F m.firewall subnet subnet6 tun) h
  enable_nat_lem m subnet subnet6 tun (some st) h = (rw h refl, refl)

  disable_nat_lem :
      (m : Manager N F) (o : Option NatState)
      → m.nat_state ≡ o
      → (nat_on (disable_nat_if N F m o).0 ≡ false)
        × (routes_on (disable_nat_if N F m o).0 ≡ routes_on m)
  disable_nat_lem m none h = (rw h refl, refl)
  disable_nat_lem m (some st) h = (refl, refl)

  Enabled-done :
      (active : Manager N F → Bool) (p : Manager N F × Option ManagerError) (m' : Manager N F)
      → p ≡ (m', none)
      → Enabled active p
      → active m' ≡ true
  Enabled-done active p m' e h = subst (Enabled active) e h

  Enabled-refused :
      (active : Manager N F → Bool) (p : Manager N F × Option ManagerError) (m' : Manager N F)
      (e : ManagerError)
      → p ≡ (m', some e)
      → Enabled active p
      → active m' ≡ false
  Enabled-refused active p m' e q h = subst (Enabled active) q h

  -- The Linux manager meets what the gateway service relies on: an enable that reports no error
  -- leaves the client's routes or the server's NAT active and one that reports an error leaves
  -- them inactive, a disable leaves them inactive whatever the host answers, and neither touches
  -- the other.
  pub linux_manager-IsNetManager : IsNetManager (linux_manager N F)
  unfolding enable_client_routes disable_client_routes client_routes_active enable_server_nat
      disable_server_nat server_nat_active
  linux_manager-IsNetManager = record {
    client_enabled = λ m m' tun bypass e.
        Enabled-done routes_on (enable_unless N F m tun m.route_state) m' e
          (enable_routes_lem m tun m.route_state refl).0;
    client_refused = λ m m' tun bypass n e.
        Enabled-refused routes_on (enable_unless N F m tun m.route_state) m' n e
          (enable_routes_lem m tun m.route_state refl).0;
    client_enable_nat = λ m tun bypass. (enable_routes_lem m tun m.route_state refl).1;
    client_disabled = λ m. (disable_routes_lem m m.route_state refl).0;
    client_disable_nat = λ m. (disable_routes_lem m m.route_state refl).1;
    server_enabled = λ m m' subnet subnet6 tun e.
        Enabled-done nat_on (enable_nat_unless N F m subnet subnet6 tun m.nat_state) m' e
          (enable_nat_lem m subnet subnet6 tun m.nat_state refl).0;
    server_refused = λ m m' subnet subnet6 tun n e.
        Enabled-refused nat_on (enable_nat_unless N F m subnet subnet6 tun m.nat_state) m' n e
          (enable_nat_lem m subnet subnet6 tun m.nat_state refl).0;
    server_enable_routes =
        λ m subnet subnet6 tun. (enable_nat_lem m subnet subnet6 tun m.nat_state refl).1;
    server_disabled = λ m. (disable_nat_lem m m.nat_state refl).0;
    server_disable_routes = λ m. (disable_nat_lem m m.nat_state refl).1;
  }

pub android_manager-IsNetManager : IsNetManager android_manager
android_manager-IsNetManager = record {
  client_enabled = λ m m' tun bypass e. rw (← ap (λ p. p.0) e) refl;
  client_refused = λ m m' tun bypass n e. absurd (let q : none ≡ some n = ap (λ p. p.1) e in cc q);
  client_enable_nat = λ m tun bypass. refl;
  client_disabled = λ m. refl;
  client_disable_nat = λ m. refl;
  server_enabled = λ m m' subnet subnet6 tun e. rw (← ap (λ p. p.0) e) refl;
  server_refused =
      λ m m' subnet subnet6 tun n e. absurd (let q : none ≡ some n = ap (λ p. p.1) e in cc q);
  server_enable_routes = λ m subnet subnet6 tun. refl;
  server_disabled = λ m. refl;
  server_disable_routes = λ m. refl;
}
