-- ===== src/Vpn/Netstate/Routes/Capture.antt =====
-- The rules and routes after a setup of the client routes that succeeds.
use awl.Base.{ℕ, ◌≡◌, true, List, Option, none, some, All, ◌⊎◌}
use awl.Vpn.Netstate.{Netlink, View, IsLawful, Route, listed}
use awl.Vpn.Netstate.Routes.{
  RouteState, RouteError, Setup, failed, done, in_table, get_default_routes,
}
use awl.Vpn.Netstate.Routes.Path.{IsCapturedV6, IsSkippedV6, IsCaptured, Grows}

module _ (N : Netlink) (V : View N) (L : IsLawful N V) where
  -- what a loop of additions that has no error leaves
  abbrev Copied : N.Os → List Route → N.Os × Option ℕ → Type 0
  Copied os rs (os', some e) = Unit
  Copied os rs (os', none) =
      Grows N V os os' × All (λ r. V.has_route os' (V.ident (in_table r)) ≡ true) rs

  -- what the IPv6 part leaves when it has no error
  record IsV6 (os : N.Os) (st : RouteState) (os' : N.Os) (st' : RouteState) : Type 0 where
    grows : Grows N V os os'
    defaults : st'.orig_defaults ≡ st.orig_defaults
    link : st'.tun_link_index ≡ st.tun_link_index
    added : st'.tun_route_added ≡ st.tun_route_added
    v6 : IsCapturedV6 N V os' st' ⊎ IsSkippedV6 N V st'

  abbrev Ended : N.Os → RouteState → N.Os × RouteState × Option RouteError → Type 0
  Ended os st (os', st', some e) = Unit
  Ended os st (os', st', none) = IsV6 os st os' st'

  abbrev with_v6 : RouteState → List Route → RouteState
  with_v6 st rs = record st { v6_rule_added = true; orig_defaults_v6 = rs }

  -- the state that a setup returns
  abbrev Holds : ℕ → List Route → N.Os × Setup → Type 0
  Holds link rs (os, failed e) = Unit
  Holds link rs (os, done st) =
      IsCaptured N V os st × (st.orig_defaults ≡ rs) × (st.tun_link_index ≡ link)

  -- after the cleanup of what an earlier run has left
  abbrev Set : N.Os → ℕ → N.Os × Setup → Type 0
  Set os link (os', failed e) = Unit
  Set os link (os', done st) =
      IsCaptured N V os' st
      × (get_default_routes N os ≡ listed st.orig_defaults)
      × (st.tun_link_index ≡ link)
