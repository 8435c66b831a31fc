-- ===== src/Vpn/Netstate.antt =====
-- vpn/netstate: the host's routes and rules as the netlink library shows them. The library and the
-- kernel behind it are an interface; a failed call gives its errno.
pub mod Routes
pub mod Nat
pub mod Manager
pub mod NetManager
use awl.Base.{
  ℕ, ◌≡◌, ◌≢◌, ◌⊎◌, Bool, true, false, List, Option, none, some, Text, All, [], ◌∷◌, ◌++◌,
  replicate,
}

-- the fields of netlink.Route that are used; a text is what %s prints of a net.IP
pub record Route : Type 0 where
  pub link_index : ℕ
  -- the address and the length of the mask
  pub dst : Option (List ℕ × ℕ)
  pub gw : Text
  pub src : Text
  pub scope : ℕ
  pub priority : ℕ
  pub family : ℕ
  pub table : ℕ
  pub route_type : ℕ

pub record Rule : Type 0 where
  pub mark : ℕ
  pub table : ℕ
  pub priority : ℕ
  pub family : ℕ

pub data Listed : Type 0 where
  listed : List Route → Listed
  unlisted : ℕ → Listed

pub record Netlink : Type 1 where
  pub Os : Type 0
  pub link_by_name : Os → Text → Option ℕ
  pub rule_add : Os → Rule → Os × Option ℕ
  pub rule_del : Os → Rule → Os × Option ℕ
  pub route_add : Os → Route → Os × Option ℕ
  pub route_del : Os → Route → Os × Option ℕ
  -- RouteList of a family: the main table
  pub route_list : Os → ℕ → Listed
  -- RouteListFiltered by a family and a table
  pub table_list : Os → ℕ → ℕ → Listed

abbrev pub main_table : ℕ
main_table = 254

abbrev pub family_v4 : ℕ
family_v4 = 2

abbrev pub family_v6 : ℕ
family_v6 = 10

-- syscall.EEXIST, EPROTONOSUPPORT, EAFNOSUPPORT
abbrev pub eexist : ℕ
eexist = 17

abbrev pub eprotonosupport : ℕ
eprotonosupport = 93

abbrev pub eafnosupport : ℕ
eafnosupport = 97

-- scope link, and the types of routes that do not forward
abbrev pub scope_link : ℕ
scope_link = 253

abbrev pub rtn_blackhole : ℕ
rtn_blackhole = 6

abbrev pub rtn_unreachable : ℕ
rtn_unreachable = 7

-- net.IPv4zero, in its mapped form, and net.IPv6zero
abbrev pub ipv4_zero : List ℕ
ipv4_zero = replicate 10 0 ++ (255 ∷ 255 ∷ 0 ∷ 0 ∷ 0 ∷ 0 ∷ [])

abbrev pub ipv6_zero : List ℕ
ipv6_zero = replicate 16 0

-- What the kernel holds. A route is known by an identity, so that two requests may mean the same
-- route; an identity has a table and a family.
pub record View (N : Netlink) : Type 1 where
  pub Ident : Type 0
  pub ident : Route → Ident
  pub table_of : Ident → ℕ
  pub family_of : Ident → ℕ
  pub has_route : N.Os → Ident → Bool
  pub has_rule : N.Os → Rule → Bool

-- How the calls change it. A request that fails changes nothing, one that succeeds adds or removes
-- what it names and nothing else, a route that exists is not added twice, and a listed table has
-- its own routes only. No table means the main one, and a destination gives the family.
pub record IsLawful (N : Netlink) (V : View N) : Type 0 where
  pub table-ident : (r : Route) → r.table ≢ 0 → V.table_of (V.ident r) ≡ r.table
  pub main-ident : (r : Route) → r.table ≡ 0 → V.table_of (V.ident r) ≡ main_table
  pub v4-ident : (r : Route) → r.dst ≡ some (ipv4_zero, 0) → V.family_of (V.ident r) ≡ family_v4
  pub v6-ident : (r : Route) → r.dst ≡ some (ipv6_zero, 0) → V.family_of (V.ident r) ≡ family_v6
  pub route_add_other :
      (os os' : N.Os) (r : Route) (a : Option ℕ) (i : V.Ident)
      → N.route_add os r ≡ (os', a)
      → i ≢ V.ident r
      → V.has_route os' i ≡ V.has_route os i
  pub route_add_keeps :
      (os os' : N.Os) (r : Route) (a : Option ℕ) (i : V.Ident)
      → N.route_add os r ≡ (os', a)
      → V.has_route os i ≡ true
      → V.has_route os' i ≡ true
  pub route_add_done :
      (os os' : N.Os) (r : Route)
      → N.route_add os r ≡ (os', none)
      → V.has_route os' (V.ident r) ≡ true
  pub route_add_new :
      (os os' : N.Os) (r : Route)
      → N.route_add os r ≡ (os', none)
      → V.has_route os (V.ident r) ≡ false
  pub route_add_failed :
      (os os' : N.Os) (r : Route) (e : ℕ) (i : V.Ident)
      → N.route_add os r ≡ (os', some e)
      → V.has_route os' i ≡ V.has_route os i
  pub route_add_rule :
      (os os' : N.Os) (r : Route) (a : Option ℕ) (x : Rule)
      → N.route_add os r ≡ (os', a)
      → V.has_rule os' x ≡ V.has_rule os x
  pub route_del_other :
      (os os' : N.Os) (r : Route) (a : Option ℕ) (i : V.Ident)
      → N.route_del os r ≡ (os', a)
      → i ≢ V.ident r
      → V.has_route os' i ≡ V.has_route os i
  pub route_del_less :
      (os os' : N.Os) (r : Route) (a : Option ℕ) (i : V.Ident)
      → N.route_del os r ≡ (os', a)
      → V.has_route os i ≡ false
      → V.has_route os' i ≡ false
  pub route_del_done :
      (os os' : N.Os) (r : Route)
      → N.route_del os r ≡ (os', none)
      → V.has_route os' (V.ident r) ≡ false
  pub rule_add_route :
      (os os' : N.Os) (r : Rule) (a : Option ℕ) (i : V.Ident)
      → N.rule_add os r ≡ (os', a)
      → V.has_route os' i ≡ V.has_route os i
  pub rule_add_keeps :
      (os os' : N.Os) (r x : Rule) (a : Option ℕ)
      → N.rule_add os r ≡ (os', a)
      → V.has_rule os x ≡ true
      → V.has_rule os' x ≡ true
  pub rule_add_done :
      (os os' : N.Os) (r : Rule) → N.rule_add os r ≡ (os', none) → V.has_rule os' r ≡ true
  pub rule_del_route :
      (os os' : N.Os) (r : Rule) (a : Option ℕ) (i : V.Ident)
      → N.rule_del os r ≡ (os', a)
      → V.has_route os' i ≡ V.has_route os i
  pub table_list-table :
      (os : N.Os) (family table : ℕ) (rs : List Route)
      → N.table_list os family table ≡ listed rs
      → All (λ r. r.table ≡ table) rs
