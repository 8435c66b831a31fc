-- ===== src/Vpn/Netstate/Manager/Runs.antt =====
-- The host's own routes over a run of the Linux manager.
use awl.Base.{
  ◌≡◌, refl, ◌∙◌, Bool, true, false, List, [], ◌∷◌, Option, none, some, Text, Map, lookup, ℕ,
  if◌then◌else◌,
}
use awl.Vpn.Netstate.{Netlink, View, IsLawful, Route, Listed, listed, unlisted}
use awl.Vpn.Netstate.Routes.{RouteState, Setup, failed, done, in_table, setup_gateway_routes}
use awl.Vpn.Netstate.Routes.Frame.{IsOutside, Kept, elsewhere_in_table, teardown-Kept}
use awl.Vpn.Netstate.Routes.Host.{setup-Kept}
use awl.Vpn.Netstate.Routes.Reconcile.{
  is_missing, by_key, apply_if, apply_missing, reconcile_table_locked, reconciled_v4, reconciled_v6,
  live_exemption_defaults, reconcile_state,
}
use awl.Vpn.Netstate.Nat.{Firewall}
use awl.Vpn.Netstate.Nat
use awl.Vpn.Netstate.Manager.{
  Manager, with_routes, enable_unless, enable_client_routes, disable_if, disable_client_routes,
  with_nat, enable_nat_unless, enable_server_nat, disable_nat_if, disable_server_nat, reconcile_if,
  reconcile,
}

pub data Operation : Type 0 where
  enable_routes : Text → List Text → Operation
  disable_routes : Operation
  enable_nat : Text → Text → Text → Operation
  disable_nat : Operation
  routes_changed : Operation

module _ (N : Netlink) (F : Firewall) where
  unfoldable pub operate : Manager N F → Operation → Manager N F
  unfolding enable_client_routes disable_client_routes enable_server_nat disable_server_nat
      reconcile
  operate m (enable_routes tun bypass) = (enable_client_routes N F m tun bypass).0
  operate m disable_routes = (disable_client_routes N F m).0
  operate m (enable_nat subnet subnet6 tun) = (enable_server_nat N F m subnet subnet6 tun).0
  operate m disable_nat = (disable_server_nat N F m).0
  operate m routes_changed = reconcile N F m

  unfoldable pub operate_all : Manager N F → List Operation → Manager N F
  unfolding operate
  operate_all m [] = m
  operate_all m (op ∷ ops) = operate_all (operate m op) ops

module _ (N : Netlink) (F : Firewall) (V : View N) (L : IsLawful N V) (i : V.Ident)
    (o : IsOutside V i) where
  -- a deletion or an addition of a route in awl's table
  added-Kept : (os : N.Os) (r : Route) (b : Bool) → Kept N V L i os (apply_if N N.route_add os r b)
  added-Kept os r false = refl
  added-Kept os r true =
      L.route_add_other os (N.route_add os (in_table r)).0 (in_table r)
        (N.route_add os (in_table r)).1 i refl
        (elsewhere_in_table N V L i o.table (in_table r) refl)

  deleted-Kept :
      (os : N.Os) (r : Route) (b : Bool) → Kept N V L i os (apply_if N N.route_del os r b)
  deleted-Kept os r false = refl
  deleted-Kept os r true =
      L.route_del_other os (N.route_del os (in_table r)).0 (in_table r)
        (N.route_del os (in_table r)).1 i refl
        (elsewhere_in_table N V L i o.table (in_table r) refl)

  apply_missing-Kept :
      (op : N.Os → Route → N.Os × Option ℕ)
      → ((os : N.Os) (r : Route) (b : Bool) → Kept N V L i os (apply_if N op os r b))
      → (others : Map Route) (os : N.Os) (m : Map Route)
      → Kept N V L i os (apply_missing N op others os m)
  unfolding apply_missing
  apply_missing-Kept op k others os [] = refl
  apply_missing-Kept op k others os ((key, r) ∷ m) =
      apply_missing-Kept op k others (apply_if N op os r (is_missing (lookup key others))) m
      ∙ k os r (is_missing (lookup key others))

  table-Kept :
      (os : N.Os) (current desired : List Route)
      → Kept N V L i os (reconcile_table_locked N os current desired)
  unfolding reconcile_table_locked
  table-Kept os current desired =
      apply_missing-Kept N.route_add added-Kept (by_key [] current)
        (apply_missing N N.route_del (by_key [] desired) os (by_key [] current)) (by_key [] desired)
      ∙ apply_missing-Kept N.route_del deleted-Kept (by_key [] desired) os (by_key [] current)

  reconciled_v4-Kept :
      (os : N.Os) (st : RouteState) (l : Listed) → Kept N V L i os (reconciled_v4 N os st l).0
  reconciled_v4-Kept os st (unlisted e) = refl
  reconciled_v4-Kept os st (listed rs) = table-Kept os st.orig_defaults rs

  reconciled_v6-Kept :
      (os : N.Os) (st : RouteState) (l : Listed) → Kept N V L i os (reconciled_v6 N os st l).0
  reconciled_v6-Kept os st (unlisted e) = refl
  reconciled_v6-Kept os st (listed rs) = table-Kept os st.orig_defaults_v6 rs

  second-Kept :
      (p : N.Os × RouteState) (b : Bool)
      → Kept N V L i p.0
          (if b then reconciled_v6 N p.0 p.1 (live_exemption_defaults N p.0 p.1 true) else p).0
  second-Kept p false = refl
  second-Kept p true = reconciled_v6-Kept p.0 p.1 (live_exemption_defaults N p.0 p.1 true)

  reconcile_state-Kept : (os : N.Os) (st : RouteState) → Kept N V L i os (reconcile_state N os st).0
  unfolding reconcile_state
  reconcile_state-Kept os st =
      let p = reconciled_v4 N os st (live_exemption_defaults N os st false) in
      second-Kept p p.1.v6_rule_added
      ∙ reconciled_v4-Kept os st (live_exemption_defaults N os st false)

  abbrev Same : Manager N F → Manager N F → Type 0
  Same m m' = Kept N V L i m.net m'.net

  with_routes-Same :
      (m : Manager N F) (p : N.Os × Setup) → Kept N V L i m.net p.0 → Same m (with_routes N F m p).0
  with_routes-Same m (os, failed e) k = k
  with_routes-Same m (os, done st) k = k

  enable-Same :
      (m : Manager N F) (tun : Text) (s : Option RouteState) → Same m (enable_unless N F m tun s).0
  enable-Same m tun (some st) = refl
  enable-Same m tun none =
      with_routes-Same m (setup_gateway_routes N m.net tun) (setup-Kept N V L i o m.net tun)

  disable-Same : (m : Manager N F) (s : Option RouteState) → Same m (disable_if N F m s).0
  disable-Same m none = refl
  disable-Same m (some st) =
      teardown-Kept N V L i m.net st o.table (λ _. o.tun st.tun_link_index)
        (λ _. o.tun_v6 st.tun_link_index)

  with_nat-Same : (m : Manager N F) (p : F.Os × Nat.NatSetup) → Same m (with_nat N F m p).0
  with_nat-Same m (os, Nat.failed e) = refl
  with_nat-Same m (os, Nat.done st) = refl

  enable_nat-Same :
      (m : Manager N F) (subnet subnet6 tun : Text) (s : Option Nat.NatState)
      → Same m (enable_nat_unless N F m subnet subnet6 tun s).0
  enable_nat-Same m subnet subnet6 tun (some st) = refl
  enable_nat-Same m subnet subnet6 tun none =
      with_nat-Same m (Nat.setup_nat F m.firewall subnet subnet6 tun)

  disable_nat-Same : (m : Manager N F) (s : Option Nat.NatState) → Same m (disable_nat_if N F m s).0
  disable_nat-Same m none = refl
  disable_nat-Same m (some st) = refl

  reconcile-Same : (m : Manager N F) (s : Option RouteState) → Same m (reconcile_if N F m s)
  reconcile-Same m none = refl
  reconcile-Same m (some st) = reconcile_state-Kept m.net st

  operate-Same : (m : Manager N F) (op : Operation) → Same m (operate N F m op)
  unfolding operate enable_client_routes disable_client_routes enable_server_nat disable_server_nat
      reconcile
  operate-Same m (enable_routes tun bypass) = enable-Same m tun m.route_state
  operate-Same m disable_routes = disable-Same m m.route_state
  operate-Same m (enable_nat subnet subnet6 tun) = enable_nat-Same m subnet subnet6 tun m.nat_state
  operate-Same m disable_nat = disable_nat-Same m m.nat_state
  operate-Same m routes_changed = reconcile-Same m m.route_state

  operate_all-Same : (m : Manager N F) (ops : List Operation) → Same m (operate_all N F m ops)
  unfolding operate_all
  operate_all-Same m [] = refl
  operate_all-Same m (op ∷ ops) = operate_all-Same (operate N F m op) ops ∙ operate-Same m op

-- If the kernel is lawful, then over any sequence of enables and disables of the client's routes
-- and of the server's NAT and of reactions to route changes, and whatever the kernel answers to
-- them, every route that is neither in awl's own table nor a default route through a TUN link is
-- there afterwards exactly if it was there before.
pub operate_all_keeps_host :
    (N : Netlink) (F : Firewall) (V : View N)
    → IsLawful N V
    → (m : Manager N F) (ops : List Operation) (i : V.Ident) → IsOutside V i
    → V.has_route (operate_all N F m ops).net i ≡ V.has_route m.net i
operate_all_keeps_host N F V L m ops i o = operate_all-Same N F V L i o m ops
