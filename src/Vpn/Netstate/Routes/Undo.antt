-- ===== src/Vpn/Netstate/Routes/Undo.antt =====
-- The routes after a setup of the client routes that fails.
use awl.Base.{
  ℕ, ◌≡◌, ◌≢◌, refl, sym, ◌∙◌, Bool, true, false, List, [], Option, none, some, Text, ◌⊎◌, inl, inr,
  arith, Bool-cases, if◌then◌else◌, eqb, subst, not, ◌↔◌,
}
use awl.Vpn.Netstate.{Netlink, View, IsLawful, Route, Listed, listed, unlisted, eexist}
use awl.Vpn.Netstate.Routes.{
  table_id, RouteState, RouteError, no_tun, tun_exists, tun_refused, copy_refused, rule_v6_refused,
  no_defaults_v6, Setup, failed, done, initial_state, build_fwmark_rule, build_fwmark_rule_v6,
  build_tun_default_route, build_tun_default_route_v6, get_default_routes, get_default_routes_v6,
  cleanup_stale_routes, noted, add_copies, tun_v6, copied_v6, unless_unavailable, ruled_v6,
  listed_v6, setup_ipv6_tun_route, rolled_back, settled, tun_v4, copied, ruled, listed_v4,
  cleaned_up, linked, setup_gateway_routes,
}
use awl.Vpn.Netstate.Routes.Frame.{
  Kept, Elsewhere, first_del, teardown_rest-Kept, teardown-Kept, cleanup-Kept, add_copies-Kept,
}

-- The kernel deletes a route that exists when it is asked to.
abbrev pub Obliging : (N : Netlink) → View N → Type 0
Obliging N V =
    (os os' : N.Os) (r : Route) (e : ℕ)
    → N.route_del os r ≡ (os', some e)
    → V.has_route os (V.ident r) ≡ false

bool_eq : Bool → Bool → Bool
bool_eq true b = b
bool_eq false b = not b

bool_eq_iff : (a b : Bool) → (bool_eq a b ≡ true) ↔ (a ≡ b)
unfolding bool_eq
bool_eq_iff a b = ground arith

module _ (N : Netlink) (V : View N) (L : IsLawful N V) (i : V.Ident) (h : Elsewhere N V L i) where
  -- an IPv6 setup that fails: all is as it was, but for awl's table, and the TUN route is not added
  abbrev Attempt : N.Os → RouteState → N.Os × RouteState × Option RouteError → Type 0
  Attempt os st (os', st', some e) =
      Kept N V L i os os'
      × (st'.tun_route_added ≡ st.tun_route_added)
      × (st'.tun_link_index ≡ st.tun_link_index)
      × (st'.tun_route_v6_added ≡ st.tun_route_v6_added)
  Attempt os st (os', st', none) = Unit

  unless_unavailable_lem :
      (os os' : N.Os) (st : RouteState) (o : Option RouteError)
      → Kept N V L i os os'
      → Attempt os st (os', st, o)
  unless_unavailable_lem os os' st none k = tt
  unless_unavailable_lem os os' st (some e) k = (k, refl, refl, refl)

  tun_v6_lem :
      (os0 os : N.Os) (st0 st : RouteState) (p : N.Os × Option ℕ)
      → N.route_add os (build_tun_default_route_v6 st.tun_link_index) ≡ p
      → Attempt os0 st0 (os, st, some no_tun)
      → Attempt os0 st0 (tun_v6 N st p)
  tun_v6_lem os0 os st0 st (os', none) e a = tt
  tun_v6_lem os0 os st0 st (os', some n) e a = (
    L.route_add_failed os os' (build_tun_default_route_v6 st.tun_link_index) n i e ∙ a.0,
    a.1,
    a.2,
    a.3,
  )

  copied_v6_lem :
      (os0 : N.Os) (st0 st : RouteState) (p : N.Os × Option ℕ)
      → Attempt os0 st0 (p.0, st, some no_tun)
      → Attempt os0 st0 (copied_v6 N st p)
  copied_v6_lem os0 st0 st (os, some e) a = a
  copied_v6_lem os0 st0 st (os, none) a =
      tun_v6_lem os0 os st0 st (N.route_add os (build_tun_default_route_v6 st.tun_link_index)) refl
        a

  ruled_v6_lem :
      (os : N.Os) (st : RouteState) (defaults : List Route) (p : N.Os × Option ℕ)
      → N.rule_add os build_fwmark_rule_v6 ≡ p
      → Attempt os st (ruled_v6 N st defaults p)
  ruled_v6_lem os st defaults (os', some n) e =
      unless_unavailable_lem os os' st (unless_unavailable (rule_v6_refused n) n)
        (L.rule_add_route os os' build_fwmark_rule_v6 (some n) i e)
  ruled_v6_lem os st defaults (os', none) e =
      copied_v6_lem os st (record st { v6_rule_added = true; orig_defaults_v6 = defaults })
        (add_copies N os' defaults)
        (
          add_copies-Kept N V L i os' defaults h
              ∙ L.rule_add_route os os' build_fwmark_rule_v6 none i e,
          refl,
          refl,
          refl,
        )

  listed_v6_lem : (os : N.Os) (st : RouteState) (l : Listed) → Attempt os st (listed_v6 N os st l)
  listed_v6_lem os st (unlisted n) =
      unless_unavailable_lem os os st (unless_unavailable (no_defaults_v6 n) n) refl
  listed_v6_lem os st (listed defaults) =
      ruled_v6_lem os st defaults (N.rule_add os build_fwmark_rule_v6) refl

  setup_ipv6_lem : (os : N.Os) (st : RouteState) → Attempt os st (setup_ipv6_tun_route N os st)
  unfolding setup_ipv6_tun_route
  setup_ipv6_lem os st = listed_v6_lem os st (get_default_routes_v6 N os)

  -- what is asked of the identity: not the TUN route, or a kernel that deletes it
  abbrev Mode : ℕ → Type 0
  Mode link =
      (i ≢ V.ident (build_tun_default_route link))
      ⊎ ((i ≡ V.ident (build_tun_default_route link)) × Obliging N V)

  abbrev Undone : N.Os → N.Os × Setup → Type 0
  Undone os (os', failed e) = Kept N V L i os os'
  Undone os (os', done st) = Unit

  -- a rollback before the TUN route is added
  early_lem :
      (os0 os : N.Os) (st : RouteState) (e : RouteError)
      → st.tun_route_added ≡ false
      → st.tun_route_v6_added ≡ false
      → Kept N V L i os0 os
      → Undone os0 (rolled_back N os st e)
  early_lem os0 os st e n4 n6 k =
      teardown-Kept N V L i os st h (λ y. cc (y, n4)) (λ y. cc (y, n6)) ∙ k

  cleared :
      (os : N.Os) (r : Route) (p : N.Os × Option ℕ)
      → Obliging N V
      → N.route_del os r ≡ p
      → V.has_route (noted N [] p).0 (V.ident r) ≡ false
  cleared os r (os', none) o e = L.route_del_done os os' r e
  cleared os r (os', some n) o e = L.route_del_less os os' r (some n) (V.ident r) e (o os os' r n e)

  -- and one after it
  late_lem :
      (os0 os1 os2 os3 : N.Os) (st : RouteState) (e : RouteError)
      → Mode st.tun_link_index
      → Kept N V L i os0 os1
      → N.route_add os1 (build_tun_default_route st.tun_link_index) ≡ (os2, none)
      → Kept N V L i os2 os3
      → st.tun_route_added ≡ true
      → st.tun_route_v6_added ≡ false
      → Undone os0 (rolled_back N os3 st e)
  late_lem os0 os1 os2 os3 st e (inl other) k0 add k y4 n6 =
      teardown-Kept N V L i os3 st h (λ _. other) (λ y. cc (y, n6))
      ∙ k
      ∙ L.route_add_other os1 os2 (build_tun_default_route st.tun_link_index) none i add other
      ∙ k0
  late_lem os0 os1 os2 os3 st e (inr (same, o)) k0 add k y4 n6 =
      let tun = build_tun_default_route st.tun_link_index in
      let gone : V.has_route (first_del N V L i os3 st).0 i ≡ false =
        rw (y4, same) (cleared os3 tun (N.route_del os3 tun) o refl) in
      let absent : V.has_route os1 i ≡ false = rw same (L.route_add_new os1 os2 tun add) in
      teardown_rest-Kept N V L i os3 st h (λ y. cc (y, n6)) ∙ gone ∙ sym absent ∙ k0

  settled_lem :
      (os0 os1 os2 : N.Os) (st : RouteState) (p : N.Os × RouteState × Option RouteError)
      → Mode st.tun_link_index
      → Kept N V L i os0 os1
      → N.route_add os1 (build_tun_default_route st.tun_link_index) ≡ (os2, none)
      → st.tun_route_v6_added ≡ false
      → Attempt os2 (record st { tun_route_added = true }) p
      → Undone os0 (settled N p)
  settled_lem os0 os1 os2 st (os3, st', none) m k0 add n6 a = tt
  settled_lem os0 os1 os2 st (os3, st', some e) m k0 add n6 (k, y4, same, z6) =
      late_lem os0 os1 os2 os3 st' e (rw same m) k0 (rw same add) k y4 (z6 ∙ n6)

  tun_v4_lem :
      (os0 os1 : N.Os) (st : RouteState) (p : N.Os × Option ℕ)
      → Mode st.tun_link_index
      → Kept N V L i os0 os1
      → N.route_add os1 (build_tun_default_route st.tun_link_index) ≡ p
      → st.tun_route_added ≡ false
      → st.tun_route_v6_added ≡ false
      → Undone os0 (tun_v4 N st p)
  tun_v4_lem os0 os1 st (os2, some n) m k0 add n4 n6 =
      early_lem os0 os2 st (if eqb n eexist then tun_exists n else tun_refused n) n4 n6
        (L.route_add_failed os1 os2 (build_tun_default_route st.tun_link_index) n i add ∙ k0)
  tun_v4_lem os0 os1 st (os2, none) m k0 add n4 n6 =
      settled_lem os0 os1 os2 st (setup_ipv6_tun_route N os2 (record st { tun_route_added = true }))
        m k0 add n6 (setup_ipv6_lem os2 (record st { tun_route_added = true }))

  copied_lem :
      (os0 : N.Os) (st : RouteState) (p : N.Os × Option ℕ)
      → Mode st.tun_link_index
      → Kept N V L i os0 p.0
      → st.tun_route_added ≡ false
      → st.tun_route_v6_added ≡ false
      → Undone os0 (copied N st p)
  copied_lem os0 st (os, some n) m k n4 n6 = early_lem os0 os st (copy_refused n) n4 n6 k
  copied_lem os0 st (os, none) m k n4 n6 =
      tun_v4_lem os0 os st (N.route_add os (build_tun_default_route st.tun_link_index)) m k refl n4
        n6

  ruled_lem :
      (os0 os1 : N.Os) (st : RouteState) (p : N.Os × Option ℕ)
      → Mode st.tun_link_index
      → Kept N V L i os0 os1
      → N.rule_add os1 build_fwmark_rule ≡ p
      → st.tun_route_added ≡ false
      → st.tun_route_v6_added ≡ false
      → Undone os0 (ruled N st p)
  ruled_lem os0 os1 st (os, some n) m k e n4 n6 =
      L.rule_add_route os1 os build_fwmark_rule (some n) i e ∙ k
  ruled_lem os0 os1 st (os, none) m k e n4 n6 =
      copied_lem os0 st (add_copies N os st.orig_defaults) m
        (add_copies-Kept N V L i os st.orig_defaults h
          ∙ L.rule_add_route os1 os build_fwmark_rule none i e
          ∙ k)
        n4 n6

  listed_v4_lem :
      (os0 os : N.Os) (link : ℕ) (l : Listed)
      → Mode link
      → Kept N V L i os0 os
      → Undone os0 (listed_v4 N link os l)
  listed_v4_lem os0 os link (unlisted n) m k = k
  listed_v4_lem os0 os link (listed rs) m k =
      ruled_lem os0 os (initial_state link rs) (N.rule_add os build_fwmark_rule) m k refl refl refl

  cleaned_up_lem :
      (os : N.Os) (link : ℕ)
      → Mode link
      → Undone os (cleaned_up N link (cleanup_stale_routes N os).0)
  cleaned_up_lem os link m =
      listed_v4_lem os (cleanup_stale_routes N os).0 link
        (get_default_routes N (cleanup_stale_routes N os).0) m (cleanup-Kept N V L i os h)

  -- the identity's own equality is not decidable, but what is asked of it is
  either-Mode :
      (os : N.Os) (link : ℕ) (p : N.Os × Setup)
      → Obliging N V
      → (Mode link → Undone os p)
      → Undone os p
  either-Mode os link (os', done st) o f = tt
  either-Mode os link (os', failed e) o f =
      elim (Bool-cases (bool_eq (V.has_route os' i) (V.has_route os i))) [
        | inl e ↦ (bool_eq_iff (V.has_route os' i) (V.has_route os i)).0 e
        | inr e ↦
            let no : Kept N V L i os os' → ⊥ =
              λ k. cc ((bool_eq_iff (V.has_route os' i) (V.has_route os i)).1 k, e) in
            absurd (no (f (inl (λ same. no (f (inr (same, o)))))))
      ]

  linked_lem : (os : N.Os) (o : Option ℕ) → Obliging N V → Undone os (linked N os o)
  linked_lem os none o = refl
  linked_lem os (some link) o =
      either-Mode os link (cleaned_up N link (cleanup_stale_routes N os).0) o
        (cleaned_up_lem os link)

-- If the kernel is lawful and deletes what exists when it is asked to, then a setup of the client
-- routes that fails, at whichever step, leaves every route outside awl's own table as it was
-- before the setup: those of the host, and the default routes through the TUN.
pub setup_gateway_routes_undone :
    (N : Netlink) (V : View N)
    → IsLawful N V
    → Obliging N V
    → (os os' : N.Os) (name : Text) (e : RouteError) (i : V.Ident)
    → setup_gateway_routes N os name ≡ (os', failed e)
    → V.table_of i ≢ table_id
    → V.has_route os' i ≡ V.has_route os i
unfolding setup_gateway_routes
setup_gateway_routes_undone N V L o os os' name e i q h =
    subst (Undone N V L i h os) q (linked_lem N V L i h os (N.link_by_name os name) o)
