-- ===== src/Vpn/Netstate/Routes/Frame.antt =====
-- What the client routes leave alone, whatever the kernel answers.
use awl.Base.{ℕ, ◌≡◌, ◌≢◌, refl, ap, ◌∙◌, Bool, true, false, List, [], ◌∷◌, Option, none, some, All}
use awl.Vpn.Netstate.{
  Netlink, View, IsLawful, Route, Rule, Listed, listed, unlisted, family_v4, family_v6,
}
use awl.Vpn.Netstate.Routes.{
  table_id, RouteState, build_fwmark_rule, build_fwmark_rule_v6, build_tun_default_route,
  build_tun_default_route_v6, in_table, sweep_routes, sweep_listed, swept, sweep_table,
  cleanup_stale_routes, noted, del_copies, del_route_if, del_rule_if, teardown_gateway_routes,
  add_copies, unless_error,
}

-- Neither in awl's own table nor a default route through the TUN.
pub record IsOutside {N : Netlink} (V : View N) (i : V.Ident) : Type 0 where
  pub table : V.table_of i ≢ table_id
  pub tun : (link : ℕ) → i ≢ V.ident (build_tun_default_route link)
  pub tun_v6 : (link : ℕ) → i ≢ V.ident (build_tun_default_route_v6 link)

module _ (N : Netlink) (V : View N) (L : IsLawful N V) (i : V.Ident) where
  abbrev pub Kept : N.Os → N.Os → Type 0
  Kept os os' = V.has_route os' i ≡ V.has_route os i

  abbrev pub Elsewhere : Type 0
  Elsewhere = V.table_of i ≢ table_id

  pub elsewhere_in_table : Elsewhere → (r : Route) → r.table ≡ table_id → i ≢ V.ident r
  elsewhere_in_table h r t e = h (ap V.table_of e ∙ L.table-ident r (λ z. cc (t, z)) ∙ t)

  noted-Kept :
      (os : N.Os) (errs : List ℕ) (r : Route) (p : N.Os × Option ℕ)
      → N.route_del os r ≡ p
      → i ≢ V.ident r
      → Kept os (noted N errs p).0
  noted-Kept os errs r (os', none) e h = L.route_del_other os os' r none i e h
  noted-Kept os errs r (os', some n) e h = L.route_del_other os os' r (some n) i e h

  del_copies-Kept :
      (s : N.Os × List ℕ) (rs : List Route) → Elsewhere → Kept s.0 (del_copies N s rs).0
  unfolding del_copies
  del_copies-Kept s [] h = refl
  del_copies-Kept (os, errs) (r ∷ rs) h =
      del_copies-Kept (noted N errs (N.route_del os (in_table r))) rs h
      ∙ noted-Kept os errs (in_table r) (N.route_del os (in_table r)) refl
          (elsewhere_in_table h (in_table r) refl)

  del_route_if-Kept :
      (b : Bool) (s : N.Os × List ℕ) (r : Route)
      → (b ≡ true → i ≢ V.ident r)
      → Kept s.0 (del_route_if N b s r).0
  del_route_if-Kept false s r h = refl
  del_route_if-Kept true (os, errs) r h = noted-Kept os errs r (N.route_del os r) refl (h refl)

  ruled_out-Kept :
      (os : N.Os) (errs : List ℕ) (r : Rule) (p : N.Os × Option ℕ)
      → N.rule_del os r ≡ p
      → Kept os (noted N errs p).0
  ruled_out-Kept os errs r (os', none) e = L.rule_del_route os os' r none i e
  ruled_out-Kept os errs r (os', some n) e = L.rule_del_route os os' r (some n) i e

  del_rule_if-Kept : (b : Bool) (s : N.Os × List ℕ) (r : Rule) → Kept s.0 (del_rule_if N b s r).0
  del_rule_if-Kept false s r = refl
  del_rule_if-Kept true (os, errs) r = ruled_out-Kept os errs r (N.rule_del os r) refl

  abbrev pub first_del : N.Os → RouteState → N.Os × List ℕ
  first_del os st =
      del_route_if N st.tun_route_added (os, []) (build_tun_default_route st.tun_link_index)

  pub teardown_rest-Kept :
      (os : N.Os) (st : RouteState)
      → Elsewhere
      → (st.tun_route_v6_added ≡ true → i ≢ V.ident (build_tun_default_route_v6 st.tun_link_index))
      → Kept (first_del os st).0 (teardown_gateway_routes N os st).0
  unfolding teardown_gateway_routes
  teardown_rest-Kept os st h h6 =
      let s1 = first_del os st in
      let s2 = del_copies N s1 st.orig_defaults in
      let s3 = del_rule_if N true s2 build_fwmark_rule in
      let s4 =
        del_route_if N st.tun_route_v6_added s3 (build_tun_default_route_v6 st.tun_link_index) in
      let s5 = del_copies N s4 st.orig_defaults_v6 in
      del_rule_if-Kept st.v6_rule_added s5 build_fwmark_rule_v6
      ∙ del_copies-Kept s4 st.orig_defaults_v6 h
      ∙ del_route_if-Kept st.tun_route_v6_added s3 (build_tun_default_route_v6 st.tun_link_index) h6
      ∙ del_rule_if-Kept true s2 build_fwmark_rule
      ∙ del_copies-Kept s1 st.orig_defaults h

  -- A default route through the TUN is only touched if the state says that it was added.
  pub teardown-Kept :
      (os : N.Os) (st : RouteState)
      → Elsewhere
      → (st.tun_route_added ≡ true → i ≢ V.ident (build_tun_default_route st.tun_link_index))
      → (st.tun_route_v6_added ≡ true → i ≢ V.ident (build_tun_default_route_v6 st.tun_link_index))
      → Kept os (teardown_gateway_routes N os st).0
  teardown-Kept os st h h4 h6 =
      teardown_rest-Kept os st h h6
      ∙ del_route_if-Kept st.tun_route_added (os, []) (build_tun_default_route st.tun_link_index) h4

  swept_route-Kept :
      (os : N.Os) (cleaned : Bool) (r : Route) (p : N.Os × Option ℕ)
      → N.route_del os r ≡ p
      → i ≢ V.ident r
      → Kept os (swept N cleaned p).0
  swept_route-Kept os cleaned r (os', none) e h = L.route_del_other os os' r none i e h
  swept_route-Kept os cleaned r (os', some n) e h = L.route_del_other os os' r (some n) i e h

  swept_rule-Kept :
      (os : N.Os) (cleaned : Bool) (r : Rule) (p : N.Os × Option ℕ)
      → N.rule_del os r ≡ p
      → Kept os (swept N cleaned p).0
  swept_rule-Kept os cleaned r (os', none) e = L.rule_del_route os os' r none i e
  swept_rule-Kept os cleaned r (os', some n) e = L.rule_del_route os os' r (some n) i e

  sweep_routes-Kept :
      (s : N.Os × Bool) (rs : List Route)
      → Elsewhere
      → All (λ r. r.table ≡ table_id) rs
      → Kept s.0 (sweep_routes N s rs).0
  unfolding sweep_routes
  sweep_routes-Kept s [] h a = refl
  sweep_routes-Kept (os, cleaned) (r ∷ rs) h a =
      sweep_routes-Kept (swept N cleaned (N.route_del os r)) rs h a.1
      ∙ swept_route-Kept os cleaned r (N.route_del os r) refl (elsewhere_in_table h r a.0)

  sweep_listed-Kept :
      (s : N.Os × Bool) (family : ℕ) (l : Listed)
      → N.table_list s.0 family table_id ≡ l
      → Elsewhere
      → Kept s.0 (sweep_listed N s l).0
  sweep_listed-Kept s family (listed rs) e h =
      sweep_routes-Kept s rs h (L.table_list-table s.0 family table_id rs e)
  sweep_listed-Kept s family (unlisted n) e h = refl

  pub cleanup-Kept : (os : N.Os) → Elsewhere → Kept os (cleanup_stale_routes N os).0
  unfolding cleanup_stale_routes
  cleanup-Kept os h =
      let s1 = swept N false (N.rule_del os build_fwmark_rule) in
      let s2 = sweep_table N s1 family_v4 in
      let s3 = sweep_table N s2 family_v6 in
      swept_rule-Kept s3.0 s3.1 build_fwmark_rule_v6 (N.rule_del s3.0 build_fwmark_rule_v6) refl
      ∙ sweep_listed-Kept s2 family_v6 (N.table_list s2.0 family_v6 table_id) refl h
      ∙ sweep_listed-Kept s1 family_v4 (N.table_list s1.0 family_v4 table_id) refl h
      ∙ swept_rule-Kept os false build_fwmark_rule (N.rule_del os build_fwmark_rule) refl

  unless_error-Kept :
      (os : N.Os) (r : Route) (rest : N.Os → N.Os × Option ℕ) (p : N.Os × Option ℕ)
      → N.route_add os r ≡ p
      → i ≢ V.ident r
      → ((os' : N.Os) → Kept os' (rest os').0)
      → Kept os (unless_error N rest p).0
  unless_error-Kept os r rest (os', none) e h k = k os' ∙ L.route_add_other os os' r none i e h
  unless_error-Kept os r rest (os', some n) e h k = L.route_add_other os os' r (some n) i e h

  pub add_copies-Kept : (os : N.Os) (rs : List Route) → Elsewhere → Kept os (add_copies N os rs).0
  unfolding add_copies
  add_copies-Kept os [] h = refl
  add_copies-Kept os (r ∷ rs) h =
      unless_error-Kept os (in_table r) (λ os'. add_copies N os' rs) (N.route_add os (in_table r))
        refl (elsewhere_in_table h (in_table r) refl) (λ os'. add_copies-Kept os' rs h)
