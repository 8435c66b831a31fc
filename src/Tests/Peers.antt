-- ===== src/Tests/Peers.antt =====
-- Peers, invites and addresses, on a concrete configuration.
use awl.Base.{
  ℕ, ◌+◌, ◌-◌, ◌*◌, ◌^◌, ◌<◌, ◌≤◌, ◌≡◌, ◌≢◌, ◌↔◌, refl, ap, true, false, List, [], ◌∷◌, Option,
  some, none, arith, All, Text, codes, lookup, Distinct, ◌==◌, eq_iff, if◌then◌else◌,
}
use awl.Base.Go.{ok}
use awl.Config.Types.{Config, KnownPeer, Invite, channel}
use awl.Config.Peers
use awl.Config.Peers.{is_uniq_alias, gen_uniq_alias, base_alias, aliases}
use awl.Config.Peers.Alias.{gen_uniq_alias_total, is_uniq_alias_iff}
use awl.Config.Invites.{reserve_invite}
use awl.Config.Invites.Limits.{IsTable}
use awl.Config.Invites.Reserve.{ReservedAt, reserve_invite_lem}
use awl.Config.Invites.Runs.{
  Op, reserve, revoke, run, redemptions, run_counts, revoked_stays_closed,
}
use awl.Config.Ipv4.{ipv4_text, scan, parse_ipv4, parse_ipv4-ipv4_text}
use awl.Config.Address.{
  IpAddr, v4, Parser, max_used, contains, check_ip_unique, generate_next_ip, not_in_subnet,
  next_free,
}
use awl.Config.Address.Search.{IsFirst, next_free_total}
use awl.Config.Address.Unique.{highest, generate_next_ip_unique}

abbrev pub laptop : KnownPeer
laptop = record {
  peer_id = codes "p1";
  name = codes "laptop";
  alias = codes "laptop";
  ip_addr = codes "10.66.0.2";
  ip_addr_v6 = [];
  domain_name = codes "laptop";
  created_at = 1;
  last_seen = 0;
  confirmed = true;
  declined = false;
  we_allow_using_as_exit_node = true;
  allowed_using_as_exit_node = false;
  remote_vpn_gateway_server_enabled = false;
  invite_id = [];
  pending_invite_token = [];
}

abbrev pub ticket : Invite
ticket = record {
  id = codes "i1";
  token = codes "secret";
  label = [];
  alias = codes "guest";
  we_allow_using_as_exit_node = true;
  max_uses = 2;
  used_count = 0;
  expires_at = 100;
  created_at = 1;
  revoked = false;
}

abbrev pub local_ip : ℕ
local_ip = 10 * 2 ^ 24 + 66 * 2 ^ 16 + 1

abbrev pub conf : Config
conf = record {
  known_peers = (codes "p1", laptop) ∷ [];
  blocked_peers = [];
  invites = (codes "i1", ticket) ∷ [];
  node_name = codes "home";
  auto_accept_auth_requests = false;
  socks5_using_peer_id = codes "p1";
  vpn_gateway = record {
    client_enabled = false;
    gateway_peer_id = [];
    client_bypass_cidrs = [];
    server_enabled = true;
  };
  ip_net = some (local_ip, 24);
  local_ip_v6 = none;
  netstack_dns_ip = none;
  save_trigger = channel false;
  has_emitter = true;
  known_peer_changes = 0;
}

pub conf-Distinct : Distinct conf.invites
unfolding lookup
conf-Distinct = (refl, tt)

-- one invite is a table
single-IsTable : (i : Invite) → i.used_count ≤ i.max_uses → IsTable ((i.id, i) ∷ [])
unfolding lookup
single-IsTable i h = record {
  distinct = (refl, tt);
  keyed = λ k a at. ground (arith, eq_iff i.id k, at);
  tokens = λ j k a b at at' _. ground (arith, eq_iff i.id j, eq_iff i.id k, at, at');
  within = λ k a at. ground (arith, at, h);
}

pub conf-IsTable : IsTable conf.invites
conf-IsTable = single-IsTable ticket (ground arith)

ticket_there : lookup (codes "i1") conf.invites ≡ some ticket
unfolding lookup ◌==◌
ticket_there = refl

abbrev ops : List Op
ops =
    reserve (codes "secret") 5
    ∷ reserve (codes "secret") 6
    ∷ reserve (codes "secret") 7
    ∷ revoke (codes "i1")
    ∷ []

run_counts_example :
    IsTable (run conf ops).invites
    × (j : Invite) × (lookup (codes "i1") (run conf ops).invites ≡ some j)
    × (j.max_uses ≡ 2)
    × (j.used_count ≡ 0 + redemptions (codes "i1") conf ops)
    × (0 + redemptions (codes "i1") conf ops ≤ 2)
run_counts_example =
    run_counts ops conf (codes "i1") ticket conf-IsTable ticket_there (tt, (tt, (tt, (tt, tt))))

abbrev closed_conf : Config
closed_conf = record conf { invites = (codes "i1", record ticket { revoked = true }) ∷ [] }

closed_conf-IsTable : IsTable closed_conf.invites
closed_conf-IsTable = single-IsTable (record ticket { revoked = true }) (ground arith)

closed_there : lookup (codes "i1") closed_conf.invites ≡ some (record ticket { revoked = true })
unfolding lookup ◌==◌
closed_there = refl

revoked_stays_closed_example : redemptions (codes "i1") closed_conf ops ≡ 0
revoked_stays_closed_example =
    revoked_stays_closed ops closed_conf (codes "i1") (record ticket { revoked = true })
      closed_conf-IsTable closed_there (tt, (tt, (tt, (tt, tt)))) refl

reserve_invite_lem_example :
    ReservedAt conf
      (codes "secret")
      5
      (reserve_invite conf (codes "secret") 5).0
      (reserve_invite conf (codes "secret") 5).1
reserve_invite_lem_example = reserve_invite_lem conf (codes "secret") 5 conf-IsTable

abbrev taken_names : List Text
taken_names = codes "laptop" ∷ codes "laptop_0" ∷ []

gen_uniq_alias_total_example :
    (a : Text) × (gen_uniq_alias (codes "laptop") [] taken_names ≡ some a)
    × (Peers.contains a taken_names ≡ false)
    × (Peers.contains (base_alias (codes "laptop") []) taken_names ≡ false
        → a ≡ base_alias (codes "laptop") [])
gen_uniq_alias_total_example = gen_uniq_alias_total (codes "laptop") [] taken_names (ground arith)

is_uniq_alias_iff_example :
    (is_uniq_alias (codes "p1") (codes "laptop") (laptop ∷ []) ≡ true)
    ↔ All (λ kp. kp.peer_id ≢ codes "p1" → kp.alias ≢ codes "laptop") (laptop ∷ [])
is_uniq_alias_iff_example = is_uniq_alias_iff (codes "p1") (codes "laptop") (laptop ∷ [])

-- a parser of IPv4 texts alone
abbrev as_address : Option ℕ → Option IpAddr
as_address none = none
as_address (some n) = some (v4 n)

abbrev parser : Parser
parser text = as_address (parse_ipv4 text)

parser_reads : (n : ℕ) → n < 2 ^ 32 → parser (ipv4_text n) ≡ some (v4 n)
parser_reads n h = ap as_address (parse_ipv4-ipv4_text n h)

-- the laptop has the highest address
highest_is : highest parser conf local_ip 24 ≡ local_ip + 1
unfolding max_used parse_ipv4 scan contains
highest_is = refl

-- two addresses are excluded
abbrev kept_back : List Text
kept_back = codes "10.66.0.3" ∷ codes "10.66.0.4" ∷ []

generate_next_ip_unique_example :
    (n : ℕ) × (generate_next_ip parser conf kept_back ≡ ok (some n))
    × (highest parser conf local_ip 24 < n)
    × IsFirst conf local_ip 24 kept_back (highest parser conf local_ip 24) 5 n
    × ((peer : Text)
        → check_ip_unique parser conf (ipv4_text n) peer
          ≡ ok (if contains local_ip 24 n then none else some not_in_subnet))
generate_next_ip_unique_example =
    generate_next_ip_unique parser parser_reads conf local_ip 24 kept_back refl
      (rw highest_is (ground arith))

next_free_total_example :
    (n : ℕ) × (next_free 5 conf local_ip 24 kept_back (2 ^ 32 - 1) ≡ some n)
    × IsFirst conf local_ip 24 kept_back (2 ^ 32 - 1) 5 n
next_free_total_example = next_free_total conf local_ip 24 kept_back (2 ^ 32 - 1) (ground arith)
