-- ===== src/Vpn/Netstate/Routes/Reconcile.antt =====
-- routes_linux.go: the exemption table follows the host's default routes.
use awl.Base.{
  ℕ, Bool, true, false, not, ◌&&◌, ◌||◌, List, [], ◌∷◌, ◌++◌, Option, none, some, Text, Map, lookup,
  insert, codes, decimal, eqb, if◌then◌else◌,
}
use awl.Vpn.Netstate.{Netlink, Route, Listed, listed, unlisted, rtn_unreachable, rtn_blackhole}
use awl.Vpn.Netstate.Routes.{
  RouteState, in_table, keep_listed, get_default_routes, get_default_routes_v6,
}

abbrev pub bar : Text
bar = codes "|"

-- fmt.Sprintf("%d|%s|%s|%d", r.LinkIndex, r.Gw, r.Src, r.Priority)
unfoldable pub route_key : Route → Text
route_key r = decimal r.link_index ++ bar ++ r.gw ++ bar ++ r.src ++ bar ++ decimal r.priority

unfoldable pub by_key : Map Route → List Route → Map Route
by_key m [] = m
by_key m (r ∷ rs) = by_key (insert (route_key r) r m) rs

-- a default route that is not awl's own
unfoldable pub is_exemption : ℕ → Route → Bool
is_exemption link r =
    not (eqb r.link_index link)
    && not (eqb r.route_type rtn_unreachable || eqb r.route_type rtn_blackhole)

abbrev pub is_missing : Option Route → Bool
is_missing none = true
is_missing (some r) = false

module _ (N : Netlink) where
  -- liveExemptionDefaults, for FAMILY_V6 if `v6`
  unfoldable pub live_exemption_defaults : N.Os → RouteState → Bool → Listed
  unfolding get_default_routes get_default_routes_v6 is_exemption
  live_exemption_defaults os st v6 =
      keep_listed (is_exemption st.tun_link_index)
        (if v6 then get_default_routes_v6 N os else get_default_routes N os)

  -- an operation on a route whose key the other table lacks; errors are only logged
  abbrev pub apply_if : (N.Os → Route → N.Os × Option ℕ) → N.Os → Route → Bool → N.Os
  apply_if op os r false = os
  apply_if op os r true = (op os (in_table r)).0

  unfoldable pub apply_missing :
      (N.Os → Route → N.Os × Option ℕ) → Map Route → N.Os → Map Route → N.Os
  apply_missing op others os [] = os
  apply_missing op others os ((k, r) ∷ m) =
      apply_missing op others (apply_if op os r (is_missing (lookup k others))) m

  -- reconcileTableLocked: what becomes of the table; the caller's list becomes `desired`
  unfoldable pub reconcile_table_locked : N.Os → List Route → List Route → N.Os
  unfolding by_key apply_missing
  reconcile_table_locked os current desired =
      let old = by_key [] current in
      let new = by_key [] desired in
      apply_missing N.route_add old (apply_missing N.route_del new os old) new

  abbrev pub reconciled_v4 : N.Os → RouteState → Listed → N.Os × RouteState
  reconciled_v4 os st (unlisted e) = (os, st)
  reconciled_v4 os st (listed rs) =
      (reconcile_table_locked os st.orig_defaults rs, record st { orig_defaults = rs })

  abbrev pub reconciled_v6 : N.Os → RouteState → Listed → N.Os × RouteState
  reconciled_v6 os st (unlisted e) = (os, st)
  reconciled_v6 os st (listed rs) =
      (reconcile_table_locked os st.orig_defaults_v6 rs, record st { orig_defaults_v6 = rs })

  abbrev pub second_family : N.Os × RouteState → N.Os × RouteState
  second_family (os, st) =
      if st.v6_rule_added
      then reconciled_v6 os st (live_exemption_defaults os st true)
      else (os, st)

  -- reconcile, with the client routes in place
  unfoldable pub reconcile_state : N.Os → RouteState → N.Os × RouteState
  unfolding live_exemption_defaults reconcile_table_locked
  reconcile_state os st = second_family (reconciled_v4 os st (live_exemption_defaults os st false))
