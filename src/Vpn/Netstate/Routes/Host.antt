-- ===== src/Vpn/Netstate/Routes/Host.antt =====
-- A setup of the client routes and the routes of the host, whether it succeeds or not.
use awl.Base.{ℕ, ◌≡◌, refl, ◌∙◌, List, Option, none, some, Text, true, eqb, if◌then◌else◌}
use awl.Vpn.Netstate.{Netlink, View, IsLawful, Route, Listed, listed, unlisted, eexist}
use awl.Vpn.Netstate.Routes.{
  RouteState, RouteError, tun_exists, tun_refused, copy_refused, initial_state, build_fwmark_rule,
  build_fwmark_rule_v6, build_tun_default_route, build_tun_default_route_v6, get_default_routes,
  get_default_routes_v6, cleanup_stale_routes, add_copies, tun_v6, copied_v6, ruled_v6, listed_v6,
  setup_ipv6_tun_route, rolled_back, settled, tun_v4, copied, ruled, listed_v4, linked,
  setup_gateway_routes,
}
use awl.Vpn.Netstate.Routes.Frame.{IsOutside, Kept, teardown-Kept, cleanup-Kept, add_copies-Kept}

module _ (N : Netlink) (V : View N) (L : IsLawful N V) (i : V.Ident) (o : IsOutside V i) where
  tun_v6-Kept :
      (os : N.Os) (st : RouteState) (p : N.Os × Option ℕ)
      → N.route_add os (build_tun_default_route_v6 st.tun_link_index) ≡ p
      → Kept N V L i os (tun_v6 N st p).0
  tun_v6-Kept os st (os', none) e =
      L.route_add_other os os' (build_tun_default_route_v6 st.tun_link_index) none i e
        (o.tun_v6 st.tun_link_index)
  tun_v6-Kept os st (os', some n) e =
      L.route_add_failed os os' (build_tun_default_route_v6 st.tun_link_index) n i e

  copied_v6-Kept : (st : RouteState) (p : N.Os × Option ℕ) → Kept N V L i p.0 (copied_v6 N st p).0
  copied_v6-Kept st (os, some e) = refl
  copied_v6-Kept st (os, none) =
      tun_v6-Kept os st (N.route_add os (build_tun_default_route_v6 st.tun_link_index)) refl

  ruled_v6-Kept :
      (os : N.Os) (st : RouteState) (rs : List Route) (p : N.Os × Option ℕ)
      → N.rule_add os build_fwmark_rule_v6 ≡ p
      → Kept N V L i os (ruled_v6 N st rs p).0
  ruled_v6-Kept os st rs (os', some n) e = L.rule_add_route os os' build_fwmark_rule_v6 (some n) i e
  ruled_v6-Kept os st rs (os', none) e =
      copied_v6-Kept (record st { v6_rule_added = true; orig_defaults_v6 = rs })
        (add_copies N os' rs)
      ∙ add_copies-Kept N V L i os' rs o.table
      ∙ L.rule_add_route os os' build_fwmark_rule_v6 none i e

  listed_v6-Kept :
      (os : N.Os) (st : RouteState) (l : Listed) → Kept N V L i os (listed_v6 N os st l).0
  listed_v6-Kept os st (unlisted n) = refl
  listed_v6-Kept os st (listed rs) =
      ruled_v6-Kept os st rs (N.rule_add os build_fwmark_rule_v6) refl

  rolled_back-Kept :
      (os : N.Os) (st : RouteState) (e : RouteError) → Kept N V L i os (rolled_back N os st e).0
  rolled_back-Kept os st e =
      teardown-Kept N V L i os st o.table (λ _. o.tun st.tun_link_index)
        (λ _. o.tun_v6 st.tun_link_index)

  settled-Kept : (p : N.Os × RouteState × Option RouteError) → Kept N V L i p.0 (settled N p).0
  settled-Kept (os, st, some e) = rolled_back-Kept os st e
  settled-Kept (os, st, none) = refl

  tun_v4-Kept :
      (os : N.Os) (st : RouteState) (p : N.Os × Option ℕ)
      → N.route_add os (build_tun_default_route st.tun_link_index) ≡ p
      → Kept N V L i os (tun_v4 N st p).0
  unfolding setup_ipv6_tun_route
  tun_v4-Kept os st (os', some n) e =
      rolled_back-Kept os' st (if eqb n eexist then tun_exists n else tun_refused n)
      ∙ L.route_add_failed os os' (build_tun_default_route st.tun_link_index) n i e
  tun_v4-Kept os st (os', none) e =
      let st' : RouteState = record st { tun_route_added = true } in
      settled-Kept (setup_ipv6_tun_route N os' st')
      ∙ listed_v6-Kept os' st' (get_default_routes_v6 N os')
      ∙ L.route_add_other os os' (build_tun_default_route st.tun_link_index) none i e
          (o.tun st.tun_link_index)

  copied-Kept : (st : RouteState) (p : N.Os × Option ℕ) → Kept N V L i p.0 (copied N st p).0
  copied-Kept st (os, some e) = rolled_back-Kept os st (copy_refused e)
  copied-Kept st (os, none) =
      tun_v4-Kept os st (N.route_add os (build_tun_default_route st.tun_link_index)) refl

  ruled-Kept :
      (os : N.Os) (st : RouteState) (p : N.Os × Option ℕ)
      → N.rule_add os build_fwmark_rule ≡ p
      → Kept N V L i os (ruled N st p).0
  ruled-Kept os st (os', some n) e = L.rule_add_route os os' build_fwmark_rule (some n) i e
  ruled-Kept os st (os', none) e =
      copied-Kept st (add_copies N os' st.orig_defaults)
      ∙ add_copies-Kept N V L i os' st.orig_defaults o.table
      ∙ L.rule_add_route os os' build_fwmark_rule none i e

  listed_v4-Kept : (link : ℕ) (os : N.Os) (l : Listed) → Kept N V L i os (listed_v4 N link os l).0
  listed_v4-Kept link os (unlisted n) = refl
  listed_v4-Kept link os (listed rs) =
      ruled-Kept os (initial_state link rs) (N.rule_add os build_fwmark_rule) refl

  linked-Kept : (os : N.Os) (l : Option ℕ) → Kept N V L i os (linked N os l).0
  linked-Kept os none = refl
  linked-Kept os (some link) =
      let clean = (cleanup_stale_routes N os).0 in
      listed_v4-Kept link clean (get_default_routes N clean) ∙ cleanup-Kept N V L i os o.table

  pub setup-Kept : (os : N.Os) (name : Text) → Kept N V L i os (setup_gateway_routes N os name).0
  unfolding setup_gateway_routes
  setup-Kept os name = linked-Kept os (N.link_by_name os name)
