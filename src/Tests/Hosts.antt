-- ===== src/Tests/Hosts.antt =====
-- A host with a kernel that keeps what it is asked to: its routes, its chains and its switches.
use awl.Base.{
  ℕ, ◌≡◌, ◌≢◌, ◌↔◌, refl, ap, subst, Bool, true, false, not, ◌&&◌, ◌||◌, List, [], ◌∷◌, Option,
  none, some, codes, ◌==◌, eqb, eqb_iff, arith, if◌then◌else◌, All,
}
use awl.Vpn.Netstate.{
  Netlink, View, IsLawful, Route, Rule, Listed, listed, unlisted, main_table, family_v4, family_v6,
  eexist, ipv6_zero,
}
use awl.Vpn.Netstate.Routes.{
  tun_exists, failed, RouteState, is_ipv4_default_dst, setup_gateway_routes,
}
use awl.Vpn.Netstate.Routes.Undo.{Obliging, setup_gateway_routes_undone}

-- a table and a family
abbrev pub Ident : Type 0
Ident = ℕ × ℕ

abbrev pub same : Ident → Ident → Bool
same (t, f) (u, g) = eqb t u && eqb f g

same_iff : (i j : Ident) → (same i j ≡ true) ↔ (i ≡ j)
same_iff (t, f) (u, g) = ground (arith, eqb_iff t u, eqb_iff f g)

abbrev pub family_of_dst : Option (List ℕ × ℕ) → ℕ
family_of_dst none = family_v4
family_of_dst (some (ip, bits)) = if ip == ipv6_zero then family_v6 else family_v4

abbrev pub ident : Route → Ident
ident r = (if eqb r.table 0 then main_table else r.table, family_of_dst r.dst)

pub record Kernel : Type 0 where
  pub held : List Ident
  pub rule4 : Bool
  pub rule6 : Bool

unfoldable pub has : List Ident → Ident → Bool
has [] i = false
has (j ∷ js) i = same j i || has js i

unfoldable pub without : Ident → List Ident → List Ident
without i [] = []
without i (j ∷ js) = let rest = without i js in if same j i then rest else j ∷ rest

has-without : (i j : Ident) (js : List Ident) → has (without i js) j ≡ (not (same i j) && has js j)
unfolding has without
has-without i j [] = ground arith
has-without i j (k ∷ js) =
    ground (arith, has-without i j js, same_iff i j, same_iff k i, same_iff k j)

abbrev pub added : Kernel → Ident → Bool → Kernel × Option ℕ
added os i true = (os, some eexist)
added os i false = (record os { held = i ∷ os.held }, none)

abbrev pub removed : Kernel → Ident → Bool → Kernel × Option ℕ
removed os i false = (os, some 3)
removed os i true = (record os { held = without i os.held }, none)

abbrev pub ruled : Kernel → Rule → Bool → Kernel
ruled os r b = if eqb r.family family_v6 then record os { rule6 = b } else record os { rule4 = b }

abbrev pub uplink : Route
uplink = record {
  link_index = 2;
  dst = none;
  gw = codes "192.168.1.1";
  src = [];
  scope = 0;
  priority = 100;
  family = family_v4;
  table = main_table;
  route_type = 1;
}

abbrev pub kernel : Netlink
kernel = record {
  Os = Kernel;
  link_by_name = λ os name. some 7;
  rule_add = λ os r. (ruled os r true, none);
  rule_del = λ os r. (ruled os r false, none);
  route_add = λ os r. added os (ident r) (has os.held (ident r));
  route_del = λ os r. removed os (ident r) (has os.held (ident r));
  route_list = λ os family. listed (if eqb family family_v4 then uplink ∷ [] else []);
  table_list = λ os family table. listed [];
}

abbrev pub kernel_view : View kernel
kernel_view = record {
  Ident = Ident;
  ident = ident;
  table_of = λ i. i.0;
  family_of = λ i. i.1;
  has_route = λ os i. has os.held i;
  has_rule = λ os r. if eqb r.family family_v6 then os.rule6 else os.rule4;
}

module _ (os : Kernel) (i : Ident) where
  added_other : (j : Ident) (b : Bool) → j ≢ i → has (added os i b).0.held j ≡ has os.held j
  unfolding has
  added_other j true n = refl
  added_other j false n = ground (arith, same_iff i j, n)

  added_keeps : (j : Ident) (b : Bool) → has os.held j ≡ true → has (added os i b).0.held j ≡ true
  unfolding has
  added_keeps j true h = h
  added_keeps j false h = ground (arith, h)

  abbrev Held : Kernel × Option ℕ → Type 0
  Held (os', some e) = Unit
  Held (os', none) = has os'.held i ≡ true

  added_done : (b : Bool) → Held (added os i b)
  unfolding has
  added_done true = tt
  added_done false = ground (arith, (same_iff i i).1 refl)

  abbrev New : Kernel × Option ℕ → Type 0
  New (os', some e) = Unit
  New (os', none) = has os.held i ≡ false

  added-New : (b : Bool) → has os.held i ≡ b → New (added os i b)
  added-New true e = tt
  added-New false e = e

  abbrev Unchanged : Ident → Kernel × Option ℕ → Type 0
  Unchanged j (os', some e) = has os'.held j ≡ has os.held j
  Unchanged j (os', none) = Unit

  added_failed : (j : Ident) (b : Bool) → Unchanged j (added os i b)
  added_failed j true = refl
  added_failed j false = tt

  added_rules :
      (b : Bool) → ((added os i b).0.rule4 ≡ os.rule4) × ((added os i b).0.rule6 ≡ os.rule6)
  added_rules true = (refl, refl)
  added_rules false = (refl, refl)

  removed_other : (j : Ident) (b : Bool) → j ≢ i → has (removed os i b).0.held j ≡ has os.held j
  removed_other j false n = refl
  removed_other j true n = ground (arith, has-without i j os.held, same_iff i j, n)

  removed_less :
      (j : Ident) (b : Bool) → has os.held j ≡ false → has (removed os i b).0.held j ≡ false
  removed_less j false h = h
  removed_less j true h = ground (arith, has-without i j os.held, h)

  abbrev Gone : Kernel × Option ℕ → Type 0
  Gone (os', some e) = has os.held i ≡ false
  Gone (os', none) = has os'.held i ≡ false

  removed_done : (b : Bool) → has os.held i ≡ b → Gone (removed os i b)
  removed_done false e = e
  removed_done true e = ground (arith, has-without i i os.held, same_iff i i)

  abbrev Refused : Kernel × Option ℕ → Type 0
  Refused (os', some e) = has os.held i ≡ false
  Refused (os', none) = Unit

  removed-Refused : (b : Bool) → has os.held i ≡ b → Refused (removed os i b)
  removed-Refused false e = e
  removed-Refused true e = tt

rule_routes : (os : Kernel) (r : Rule) (b : Bool) → (ruled os r b).held ≡ os.held
rule_routes os r b = ground arith

abbrev InTable : ℕ → Listed → Type 0
InTable table (listed rs) = All (λ r. r.table ≡ table) rs
InTable table (unlisted e) = Unit

pub kernel-IsLawful : IsLawful kernel kernel_view
unfolding ◌==◌
kernel-IsLawful = record {
  table-ident = λ r h. ground (arith, h);
  main-ident = λ r h. ground (arith, h);
  v4-ident = λ r h. rw h refl;
  v6-ident = λ r h. rw h refl;
  route_add_other = λ os os' r a i e n.
      subst (λ p. has p.0.held i ≡ has os.held i) e
        (added_other os (ident r) i (has os.held (ident r)) n);
  route_add_keeps = λ os os' r a i e h.
      subst (λ p. has p.0.held i ≡ true) e (added_keeps os (ident r) i (has os.held (ident r)) h);
  route_add_done =
      λ os os' r e. subst (Held os (ident r)) e (added_done os (ident r) (has os.held (ident r)));
  route_add_new = λ os os' r e.
      subst (New os (ident r)) e (added-New os (ident r) (has os.held (ident r)) refl);
  route_add_failed = λ os os' r n i e.
      subst (Unchanged os (ident r) i) e (added_failed os (ident r) i (has os.held (ident r)));
  route_add_rule = λ os os' r a x e.
      subst (λ p. kernel_view.has_rule p.0 x ≡ kernel_view.has_rule os x) e
        (ground (arith, added_rules os (ident r) (has os.held (ident r))));
  route_del_other = λ os os' r a i e n.
      subst (λ p. has p.0.held i ≡ has os.held i) e
        (removed_other os (ident r) i (has os.held (ident r)) n);
  route_del_less = λ os os' r a i e h.
      subst (λ p. has p.0.held i ≡ false) e (removed_less os (ident r) i (has os.held (ident r)) h);
  route_del_done = λ os os' r e.
      subst (Gone os (ident r)) e (removed_done os (ident r) (has os.held (ident r)) refl);
  rule_add_route = λ os os' r a i e.
      subst (λ p. has p.0.held i ≡ has os.held i) e (ap (λ h. has h i) (rule_routes os r true));
  rule_add_keeps =
      λ os os' r x a e h. subst (λ p. kernel_view.has_rule p.0 x ≡ true) e (ground (arith, h));
  rule_add_done = λ os os' r e. subst (λ p. kernel_view.has_rule p.0 r ≡ true) e (ground arith);
  rule_del_route = λ os os' r a i e.
      subst (λ p. has p.0.held i ≡ has os.held i) e (ap (λ h. has h i) (rule_routes os r false));
  table_list-table = λ os family table rs e. subst (InTable table) e tt;
}

kernel-Obliging : Obliging kernel kernel_view
kernel-Obliging os os' r n e =
    subst (Refused os (ident r)) e (removed-Refused os (ident r) (has os.held (ident r)) refl)

abbrev pub fresh : Kernel
fresh = record { held = []; rule4 = false; rule6 = false }

-- someone has a default route through the TUN already, and a route of their own
abbrev pub busy : Kernel
busy = record {
  held = (main_table, family_v4) ∷ (100, family_v4) ∷ [];
  rule4 = false;
  rule6 = false;
}

abbrev after_refusal : Kernel
after_refusal = (setup_gateway_routes kernel busy (codes "awl0")).0

refusal :
    setup_gateway_routes kernel busy (codes "awl0") ≡ (after_refusal, failed (tun_exists eexist))
unfolding setup_gateway_routes has without ◌==◌ is_ipv4_default_dst
refusal = refl

setup_gateway_routes_undone_example :
    has after_refusal.held (main_table, family_v4) ≡ has busy.held (main_table, family_v4)
setup_gateway_routes_undone_example =
    setup_gateway_routes_undone kernel kernel_view kernel-IsLawful kernel-Obliging busy
      after_refusal (codes "awl0") (tun_exists eexist) (main_table, family_v4) refusal
      (λ h. omega (arith, h))

abbrev captured_state : RouteState
captured_state = record {
  tun_link_index = 7;
  orig_defaults = uplink ∷ [];
  tun_route_added = true;
  orig_defaults_v6 = [];
  v6_rule_added = true;
  tun_route_v6_added = true;
}

abbrev after_capture : Kernel
after_capture = (setup_gateway_routes kernel fresh (codes "awl0")).0
