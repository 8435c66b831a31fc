-- ===== src/Config/Address.antt =====
-- config/network_addr.go. An IPv4 address is the number of its four bytes; a subnet is its local
-- address and its prefix length. `parse` is net.ParseIP and netip.ParseAddr, which agree on what
-- they accept of IPv4 and IPv6 texts.
pub mod Search
pub mod Unique
use awl.Base.{
  ℕ, zero, suc, ◌+◌, ◌-◌, ◌*◌, ◌/◌, ◌%◌, ◌^◌, Bool, true, false, not, ◌&&◌, ◌||◌, List, [], ◌∷◌,
  Option, none, some, Text, Map, values, length, ◌==◌, is_empty, ltb, leb, eqb, if◌then◌else◌,
}
use awl.Base.Go.{Go, ok, panic, ◌>>=◌}
use awl.Config.Types.{Config, KnownPeer}
use awl.Config.Ipv4.{ipv4_text}

pub data IpAddr : Type 0 where
  v4 v6 : ℕ → IpAddr

abbrev pub Parser : Type 0
Parser = Text → Option IpAddr

-- the number of addresses of a subnet with the prefix length
abbrev pub span : ℕ → ℕ
span prefix_len = 2 ^ (32 - prefix_len)

-- localIP.Mask(netMask)
abbrev pub network : ℕ → ℕ → ℕ
network local prefix_len = local / span prefix_len * span prefix_len

-- subnetBounds: `network | ^mask`, where the host bits of the network are zero
unfoldable pub subnet_bounds : ℕ → ℕ → ℕ × ℕ
subnet_bounds local prefix_len =
    (network local prefix_len, network local prefix_len + (span prefix_len - 1))

abbrev pub broadcast : ℕ → ℕ → ℕ
broadcast local prefix_len = network local prefix_len + (span prefix_len - 1)

-- ipNet.Contains, of an IPv4 address
unfoldable pub contains : ℕ → ℕ → ℕ → Bool
contains local prefix_len ip = eqb (network ip prefix_len) (network local prefix_len)

pub data IpError : Type 0 where
  invalid_ip not_in_subnet broadcast_address own_address reserved_for_dns : IpError
  used_by : KnownPeer → IpError

-- `ip.Equal(c.netstackDNSIP)`; a nil IP equals no address
abbrev pub equals_dns : Option ℕ → ℕ → Bool
equals_dns none ip = false
equals_dns (some d) ip = eqb ip d

-- the loop over KnownPeers
unfoldable pub find_user : List KnownPeer → Text → Text → Option KnownPeer
find_user [] check except = none
find_user (kp ∷ kps) check except =
    let rest = find_user kps check except in
    if not (kp.ip_addr == check)
    then rest
    else if not (is_empty except) && kp.peer_id == except
    then rest
    else some kp

abbrev as_used : Option KnownPeer → Option IpError
as_used none = none
as_used (some kp) = some (used_by kp)

abbrev check_in_subnet : Config → ℕ → ℕ → Text → Text → ℕ → Option IpError
check_in_subnet c local prefix_len check except ip =
    if not (contains local prefix_len ip)
    then some not_in_subnet
    else if eqb ip (broadcast local prefix_len)
    then some broadcast_address
    else if eqb ip local
    then some own_address
    else if equals_dns c.netstack_dns_ip ip
    then some reserved_for_dns
    else as_used (find_user (values c.known_peers) check except)

-- the subnet is of the local address; without one there is none that contains the address
abbrev pub check_in : Config → Text → Text → ℕ → Option (ℕ × ℕ) → Option IpError
check_in c check except ip none = some not_in_subnet
check_in c check except ip (some (local, prefix_len)) =
    check_in_subnet c local prefix_len check except ip

-- As4 panics on an IPv6 address.
abbrev pub check_parsed : Config → Text → Text → Option IpAddr → Go (Option IpError)
check_parsed c check except none = ok (some invalid_ip)
check_parsed c check except (some (v6 n)) = panic
check_parsed c check except (some (v4 ip)) = ok (check_in c check except ip c.ip_net)

-- CheckIPUnique: an error, or none for a free address
unfoldable pub check_ip_unique : Parser → Config → Text → Text → Go (Option IpError)
unfolding contains find_user
check_ip_unique parse c check except = check_parsed c check except (parse check)

-- the body of the loop that looks for the highest address
abbrev pub raised : ℕ → ℕ → ℕ → Option IpAddr → ℕ
raised local prefix_len max_ip none = max_ip
raised local prefix_len max_ip (some (v6 ip)) = max_ip
raised local prefix_len max_ip (some (v4 ip)) =
    if contains local prefix_len ip && ltb max_ip ip then ip else max_ip

-- the highest address in use: the loop over KnownPeers from `max_ip`
unfoldable pub max_used : Parser → ℕ → ℕ → List KnownPeer → ℕ → ℕ
max_used parse local prefix_len [] max_ip = max_ip
max_used parse local prefix_len (kp ∷ kps) max_ip =
    max_used parse local prefix_len kps (raised local prefix_len max_ip (parse kp.ip_addr))

-- incrementIPAddr, with the wrap-around of uint32
unfoldable pub increment_ip : ℕ → ℕ
increment_ip ip = (ip + 1) % 2 ^ 32

unfoldable pub excluded : Text → List Text → Bool
excluded s [] = false
excluded s (t ∷ ts) = t == s || excluded s ts

-- the loop that looks for an address, with fuel
unfoldable pub next_free : ℕ → Config → ℕ → ℕ → List Text → ℕ → Option ℕ
next_free zero c local prefix_len except max_ip = none
next_free (suc fuel) c local prefix_len except max_ip =
    let ip = increment_ip max_ip in
    let rest = next_free fuel c local prefix_len except ip in
    if excluded (ipv4_text ip) except
      || eqb ip (broadcast local prefix_len)
      || equals_dns c.netstack_dns_ip ip
    then rest
    else some ip

abbrev pub generate_in : Parser → Config → List Text → Option (ℕ × ℕ) → Go (Option ℕ)
generate_in parse c except none = panic
generate_in parse c except (some (local, prefix_len)) =
    let max_ip = max_used parse local prefix_len (values c.known_peers) local in
    ok (next_free (length except + 3) c local prefix_len except max_ip)

-- GenerateNextIpAddrExcept, as a number; it panics without a local IPv4 address. The rounds of its
-- loop are three more than there are exclusions.
unfoldable pub generate_next_ip : Parser → Config → List Text → Go (Option ℕ)
unfolding max_used contains next_free increment_ip excluded
generate_next_ip parse c except = generate_in parse c except c.ip_net

-- the loop of computeNetstackDNSIP, from `candidate` down, with the addresses that are left
unfoldable pub free_below : Parser → Config → ℕ → ℕ → Go (Option ℕ)
free_below parse c zero candidate = ok none
free_below parse c (suc left) candidate =
    let rest = free_below parse c left (candidate - 1) in
    check_ip_unique parse c (ipv4_text candidate) [] >>= λ e. elim e [
      | none ↦ ok (some candidate)
      | some _ ↦ rest
    ]

-- computeNetstackDNSIP: from the broadcast address less one, down to the network's own
unfoldable pub compute_netstack_dns_ip : Parser → Config → Go (Option ℕ)
compute_netstack_dns_ip parse c = elim c.ip_net [
  | none ↦ ok none
  | some (local, prefix_len) ↦
      free_below parse c (span prefix_len - 2) (broadcast local prefix_len - 1)
]
