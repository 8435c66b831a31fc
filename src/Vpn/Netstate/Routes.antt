-- ===== src/Vpn/Netstate/Routes.antt =====
-- vpn/netstate/routes_linux.go: the client routes of the gateway. Wrapped errors are constructors;
-- log lines are left out.
pub mod Frame
pub mod Undo
pub mod Path
pub mod Capture
pub mod Reconcile
pub mod Host
use awl.Base.{
  ℕ, zero, suc, ◌+◌, Bool, true, false, not, ◌&&◌, ◌||◌, List, [], ◌∷◌, ◌++◌, Option, none, some,
  Text, eqb, if◌then◌else◌, replicate, ◌==◌,
}
use awl.Vpn.Netstate.{
  Netlink, Route, Rule, Listed, listed, unlisted, family_v4, family_v6, eexist, eprotonosupport,
  eafnosupport, scope_link, ipv4_zero, ipv6_zero,
}

abbrev pub awl_mark : ℕ
awl_mark = 0x61776c

abbrev pub table_id : ℕ
table_id = awl_mark

abbrev pub rule_priority : ℕ
rule_priority = 32000

abbrev pub tun_route_metric : ℕ
tun_route_metric = 5

pub record RouteState : Type 0 where
  pub tun_link_index : ℕ
  pub orig_defaults : List Route
  pub tun_route_added : Bool
  pub orig_defaults_v6 : List Route
  pub v6_rule_added : Bool
  pub tun_route_v6_added : Bool

pub data RouteError : Type 0 where
  no_tun : RouteError
  no_defaults rule_refused copy_refused tun_exists tun_refused : ℕ → RouteError
  no_defaults_v6 rule_v6_refused copy_v6_refused tun_v6_exists tun_v6_refused : ℕ → RouteError

abbrev pub build_fwmark_rule : Rule
build_fwmark_rule = record {
  mark = awl_mark;
  table = table_id;
  priority = rule_priority;
  family = family_v4;
}

abbrev pub build_fwmark_rule_v6 : Rule
build_fwmark_rule_v6 = record {
  mark = awl_mark;
  table = table_id;
  priority = rule_priority;
  family = family_v6;
}

unfoldable pub build_tun_default_route : ℕ → Route
build_tun_default_route tun_link_index = record {
  link_index = tun_link_index;
  dst = some (ipv4_zero, 0);
  gw = [];
  src = [];
  scope = scope_link;
  priority = tun_route_metric;
  family = 0;
  table = 0;
  route_type = 0;
}

unfoldable pub build_tun_default_route_v6 : ℕ → Route
build_tun_default_route_v6 tun_link_index = record {
  link_index = tun_link_index;
  dst = some (ipv6_zero, 0);
  gw = [];
  src = [];
  scope = scope_link;
  priority = tun_route_metric;
  family = family_v6;
  table = 0;
  route_type = 0;
}

-- net.IP.Equal with 0.0.0.0, in either form
abbrev is_ipv4_zero : List ℕ → Bool
is_ipv4_zero ip = ip == replicate 4 0 || ip == ipv4_zero

unfoldable pub is_ipv4_default_dst : Option (List ℕ × ℕ) → Bool
is_ipv4_default_dst none = true
is_ipv4_default_dst (some (ip, bits)) = is_ipv4_zero ip && eqb bits 0

unfoldable pub is_ipv6_default_dst : Option (List ℕ × ℕ) → Bool
is_ipv6_default_dst none = true
is_ipv6_default_dst (some (ip, bits)) = ip == ipv6_zero && eqb bits 0

abbrev pub keep : (Route → Bool) → List Route → List Route
keep p [] = []
keep p (r ∷ rs) = let rest = keep p rs in if p r then r ∷ rest else rest

abbrev pub keep_listed : (Route → Bool) → Listed → Listed
keep_listed p (listed rs) = listed (keep p rs)
keep_listed p (unlisted e) = unlisted e

pub data Setup : Type 0 where
  failed : RouteError → Setup
  done : RouteState → Setup

abbrev pub initial_state : ℕ → List Route → RouteState
initial_state link defaults = record {
  tun_link_index = link;
  orig_defaults = defaults;
  tun_route_added = false;
  orig_defaults_v6 = [];
  v6_rule_added = false;
  tun_route_v6_added = false;
}

-- tableRoute.Table = tableID
abbrev pub in_table : Route → Route
in_table r = record r { table = table_id }

unfoldable pub ipv6_unavailable : ℕ → Bool
ipv6_unavailable e = eqb e eafnosupport || eqb e eprotonosupport

abbrev pub unless_unavailable : RouteError → ℕ → Option RouteError
unless_unavailable error e = if ipv6_unavailable e then none else some error

module _ (N : Netlink) where
  unfoldable pub get_default_routes : N.Os → Listed
  unfolding is_ipv4_default_dst
  get_default_routes os = keep_listed (λ r. is_ipv4_default_dst r.dst) (N.route_list os family_v4)

  unfoldable pub get_default_routes_v6 : N.Os → Listed
  unfolding is_ipv6_default_dst
  get_default_routes_v6 os =
      keep_listed (λ r. is_ipv6_default_dst r.dst) (N.route_list os family_v6)

  -- a deletion whose error is dropped; `true` if it worked
  abbrev pub swept : Bool → N.Os × Option ℕ → N.Os × Bool
  swept cleaned (os, none) = (os, true)
  swept cleaned (os, some e) = (os, cleaned)

  unfoldable pub sweep_routes : N.Os × Bool → List Route → N.Os × Bool
  sweep_routes s [] = s
  sweep_routes (os, cleaned) (r ∷ rs) = sweep_routes (swept cleaned (N.route_del os r)) rs

  abbrev pub sweep_listed : N.Os × Bool → Listed → N.Os × Bool
  sweep_listed s (listed rs) = sweep_routes s rs
  sweep_listed s (unlisted e) = s

  abbrev pub sweep_table : N.Os × Bool → ℕ → N.Os × Bool
  sweep_table s family = sweep_listed s (N.table_list s.0 family table_id)

  unfoldable pub cleanup_stale_routes : N.Os → N.Os × Bool
  unfolding sweep_routes
  cleanup_stale_routes os =
      let s1 = swept false (N.rule_del os build_fwmark_rule) in
      let s2 = sweep_table (sweep_table s1 family_v4) family_v6 in
      swept s2.1 (N.rule_del s2.0 build_fwmark_rule_v6)

  -- errs = append(errs, err)
  abbrev pub noted : List ℕ → N.Os × Option ℕ → N.Os × List ℕ
  noted errs (os, none) = (os, errs)
  noted errs (os, some e) = (os, errs ++ (e ∷ []))

  unfoldable pub del_copies : N.Os × List ℕ → List Route → N.Os × List ℕ
  del_copies s [] = s
  del_copies (os, errs) (r ∷ rs) = del_copies (noted errs (N.route_del os (in_table r))) rs

  abbrev pub del_route_if : Bool → N.Os × List ℕ → Route → N.Os × List ℕ
  del_route_if false s r = s
  del_route_if true (os, errs) r = noted errs (N.route_del os r)

  abbrev pub del_rule_if : Bool → N.Os × List ℕ → Rule → N.Os × List ℕ
  del_rule_if false s r = s
  del_rule_if true (os, errs) r = noted errs (N.rule_del os r)

  unfoldable pub teardown_gateway_routes : N.Os → RouteState → N.Os × List ℕ
  unfolding del_copies build_tun_default_route build_tun_default_route_v6
  teardown_gateway_routes os st =
      let s1 =
        del_route_if st.tun_route_added (os, []) (build_tun_default_route st.tun_link_index) in
      let s2 = del_copies s1 st.orig_defaults in
      let s3 = del_rule_if true s2 build_fwmark_rule in
      let s4 =
        del_route_if st.tun_route_v6_added s3 (build_tun_default_route_v6 st.tun_link_index) in
      let s5 = del_copies s4 st.orig_defaults_v6 in
      del_rule_if st.v6_rule_added s5 build_fwmark_rule_v6

  -- the rest of a loop that stops at the first error
  abbrev pub unless_error : (N.Os → N.Os × Option ℕ) → N.Os × Option ℕ → N.Os × Option ℕ
  unless_error rest (os, none) = rest os
  unless_error rest (os, some e) = (os, some e)

  unfoldable pub add_copies : N.Os → List Route → N.Os × Option ℕ
  add_copies os [] = (os, none)
  add_copies os (r ∷ rs) = unless_error (λ os'. add_copies os' rs) (N.route_add os (in_table r))

  -- setupIPv6TunRoute: the state as it is left, and the error
  abbrev pub tun_v6 : RouteState → N.Os × Option ℕ → N.Os × RouteState × Option RouteError
  tun_v6 st (os, some e) =
      (os, st, some (if eqb e eexist then tun_v6_exists e else tun_v6_refused e))
  tun_v6 st (os, none) = (os, record st { tun_route_v6_added = true }, none)

  abbrev pub copied_v6 : RouteState → N.Os × Option ℕ → N.Os × RouteState × Option RouteError
  copied_v6 st (os, some e) = (os, st, some (copy_v6_refused e))
  copied_v6 st (os, none) =
      tun_v6 st (N.route_add os (build_tun_default_route_v6 st.tun_link_index))

  abbrev pub ruled_v6 :
      RouteState → List Route → N.Os × Option ℕ → N.Os × RouteState × Option RouteError
  ruled_v6 st defaults (os, some e) = (os, st, unless_unavailable (rule_v6_refused e) e)
  ruled_v6 st defaults (os, none) =
      copied_v6 (record st { v6_rule_added = true; orig_defaults_v6 = defaults })
        (add_copies os defaults)

  abbrev pub listed_v6 : N.Os → RouteState → Listed → N.Os × RouteState × Option RouteError
  listed_v6 os st (unlisted e) = (os, st, unless_unavailable (no_defaults_v6 e) e)
  listed_v6 os st (listed defaults) = ruled_v6 st defaults (N.rule_add os build_fwmark_rule_v6)

  unfoldable pub setup_ipv6_tun_route : N.Os → RouteState → N.Os × RouteState × Option RouteError
  unfolding add_copies get_default_routes_v6 ipv6_unavailable build_tun_default_route_v6
  setup_ipv6_tun_route os st = listed_v6 os st (get_default_routes_v6 os)

  abbrev pub rolled_back : N.Os → RouteState → RouteError → N.Os × Setup
  rolled_back os st e = ((teardown_gateway_routes os st).0, failed e)

  abbrev pub settled : N.Os × RouteState × Option RouteError → N.Os × Setup
  settled (os, st, some e) = rolled_back os st e
  settled (os, st, none) = (os, done st)

  abbrev pub tun_v4 : RouteState → N.Os × Option ℕ → N.Os × Setup
  tun_v4 st (os, some e) = rolled_back os st (if eqb e eexist then tun_exists e else tun_refused e)
  tun_v4 st (os, none) = settled (setup_ipv6_tun_route os (record st { tun_route_added = true }))

  abbrev pub copied : RouteState → N.Os × Option ℕ → N.Os × Setup
  copied st (os, some e) = rolled_back os st (copy_refused e)
  copied st (os, none) = tun_v4 st (N.route_add os (build_tun_default_route st.tun_link_index))

  abbrev pub ruled : RouteState → N.Os × Option ℕ → N.Os × Setup
  ruled st (os, some e) = (os, failed (rule_refused e))
  ruled st (os, none) = copied st (add_copies os st.orig_defaults)

  abbrev pub listed_v4 : ℕ → N.Os → Listed → N.Os × Setup
  listed_v4 link os (unlisted e) = (os, failed (no_defaults e))
  listed_v4 link os (listed defaults) =
      ruled (initial_state link defaults) (N.rule_add os build_fwmark_rule)

  abbrev pub cleaned_up : ℕ → N.Os → N.Os × Setup
  cleaned_up link os = listed_v4 link os (get_default_routes os)

  abbrev pub linked : N.Os → Option ℕ → N.Os × Setup
  linked os none = (os, failed no_tun)
  linked os (some link) = cleaned_up link (cleanup_stale_routes os).0

  unfoldable pub setup_gateway_routes : N.Os → Text → N.Os × Setup
  unfolding cleanup_stale_routes get_default_routes add_copies setup_ipv6_tun_route
      teardown_gateway_routes build_tun_default_route
  setup_gateway_routes os name = linked os (N.link_by_name os name)
