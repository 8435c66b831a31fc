-- ===== src/Vpn/Netstate/Routes/Path.antt =====
-- The paths of the exempted and of the tunnelled packets, in the rules and routes of the host.
use awl.Base.{ℕ, ◌≡◌, true, false, List, [], ◌∷◌, some, All, ◌⊎◌}
use awl.Vpn.Netstate.{Netlink, View, Route, Rule, listed, unlisted}
use awl.Vpn.Netstate.Routes.{
  RouteState, build_fwmark_rule, build_fwmark_rule_v6, build_tun_default_route,
  build_tun_default_route_v6, in_table, get_default_routes_v6, ipv6_unavailable,
}

module _ (N : Netlink) (V : View N) where
  -- Marked packets have a table, the copies of the defaults are in it, and the TUN has the default.
  pub record HasPath (os : N.Os) (rule : Rule) (tun : Route) (copies : List Route) : Type 0 where
    pub rule_there : V.has_rule os rule ≡ true
    pub tun_there : V.has_route os (V.ident tun) ≡ true
    pub copies_there : All (λ r. V.has_route os (V.ident (in_table r)) ≡ true) copies

  -- The kernel said, in some state, that it has no IPv6: when it was asked for the default routes,
  -- or for the rule.
  pub data IsWithoutV6 : Type 0 where
    no_list :
        (os : N.Os) (e : ℕ)
        → get_default_routes_v6 N os ≡ unlisted e
        → ipv6_unavailable e ≡ true
        → IsWithoutV6
    no_rule :
        (os os' : N.Os) (e : ℕ)
        → N.rule_add os build_fwmark_rule_v6 ≡ (os', some e)
        → ipv6_unavailable e ≡ true
        → IsWithoutV6

  -- The defaults recorded are those listed in some state, and all of the path is there.
  pub record IsCapturedV6 (os : N.Os) (st : RouteState) : Type 0 where
    pub rule_added : st.v6_rule_added ≡ true
    pub tun_added : st.tun_route_v6_added ≡ true
    pub listed_in : N.Os
    pub defaults : get_default_routes_v6 N listed_in ≡ listed st.orig_defaults_v6
    pub path :
        HasPath os build_fwmark_rule_v6
          (build_tun_default_route_v6 st.tun_link_index)
          st.orig_defaults_v6

  -- The state records nothing of IPv6, and the kernel has none.
  pub record IsSkippedV6 (st : RouteState) : Type 0 where
    pub no_rule : st.v6_rule_added ≡ false
    pub no_tun : st.tun_route_v6_added ≡ false
    pub without : IsWithoutV6

  -- IPv4 always; IPv6 as a whole, unless the kernel has none.
  pub record IsCaptured (os : N.Os) (st : RouteState) : Type 0 where
    pub v4 :
        HasPath os build_fwmark_rule (build_tun_default_route st.tun_link_index) st.orig_defaults
    pub v4_recorded : st.tun_route_added ≡ true
    pub v6 : IsCapturedV6 os st ⊎ IsSkippedV6 st

  pub record Grows (os os' : N.Os) : Type 0 where
    pub routes : (i : V.Ident) → V.has_route os i ≡ true → V.has_route os' i ≡ true
    pub rules : (x : Rule) → V.has_rule os x ≡ true → V.has_rule os' x ≡ true

  pub grown : {os os' os'' : N.Os} → Grows os os' → Grows os' os'' → Grows os os''
  grown g k = record {
    routes = λ i h. k.routes i (g.routes i h);
    rules = λ x h. k.rules x (g.rules x h);
  }

  pub All-Grows :
      {os os' : N.Os} (rs : List Route)
      → Grows os os'
      → All (λ r. V.has_route os (V.ident (in_table r)) ≡ true) rs
      → All (λ r. V.has_route os' (V.ident (in_table r)) ≡ true) rs
  All-Grows [] g a = tt
  All-Grows (r ∷ rs) g a = (g.routes (V.ident (in_table r)) a.0, All-Grows rs g a.1)

  pub HasPath-Grows :
      {os os' : N.Os} {rule : Rule} {tun : Route} {rs : List Route}
      → Grows os os'
      → HasPath os rule tun rs
      → HasPath os' rule tun rs
  HasPath-Grows {rule = rule} {tun = tun} {rs = rs} g p = record {
    rule_there = g.rules rule p.rule_there;
    tun_there = g.routes (V.ident tun) p.tun_there;
    copies_there = All-Grows rs g p.copies_there;
  }
