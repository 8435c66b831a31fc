-- ===== src/Tests/Nodes.antt =====
-- A node with one peer and one open invite: requests, status info and packets.
use awl.Base.{
  ℕ, ◌+◌, ◌^◌, ◌≤◌, ◌≡◌, ◌≢◌, refl, Bool, true, false, List, [], ◌∷◌, ◌++◌, Option, some, none,
  arith, length, Text, codes, lookup, values, Distinct, ◌==◌, eq_iff,
}
use awl.Base.Go.{Returns}
use awl.Config.Peers.{aliases}
use awl.Config.Peers.Table.{IsPeerTable}
use awl.Config.Address.{v6}
use awl.Protocol.Messages.{AuthPeer, PeerStatusInfo}
use awl.Service.AuthStatus.{Env, AuthStatus, AddPeerParams, add_peer}
use awl.Service.AuthStatus.Handshake.{auth_stream_handler}
use awl.Service.AuthStatus.Exchange.{process_peer_status_info}
use awl.Service.AuthStatus.Add.{Outcome, add_peer_lem}
use awl.Service.AuthStatus.Answers.{Answers}
use awl.Service.AuthStatus.Secrecy.{IsSafe, auth_stream_handler-IsSafe, add_peer-IsPeerTable}
use awl.Service.AuthStatus.Merge.{IsMerged, process_peer_status_info_lem}
use awl.Service.Tunnel.{VpnPeer, Tunnel}
use awl.Service.Tunnel.Inbound.{Inbound, rewrite_inbound}
use awl.Service.Tunnel.Outbound.{route}
use awl.Service.Tunnel.Rules.{Judged, rewrite_inbound_lem}
use awl.Service.Tunnel.Routes.{Routed, route_lem}
use awl.Service.Tunnel.Refresh.{IpParser, refresh_peers_list}
use awl.Service.Tunnel.Refresh.Permissions.{Keyed}
use awl.Service.Tunnel.Refresh.After.{IsRefreshed, refresh_peers_list_lem}
use awl.Service.Tunnel.Gateway.Edges.{
  Notice, connected_to, disconnected_from, notify_all, Edges, reports, has_gateway, changes,
  last_report, notify_all-Edges,
}
use awl.Tests.Peers.{conf, conf-Distinct}
use awl.Tests.Packets.{udp_packet}

abbrev env : Env
env = record { parse = λ _. none; lower = λ s. s; now = 5 }

abbrev node : AuthStatus
node = record { conf = conf; ingoing_auths = []; outgoing_auths = []; events = []; tasks = [] }

abbrev request : AuthPeer
request = record { name = codes "phone"; token = codes "secret" }

abbrev by_hand : AddPeerParams
by_hand = record {
  peer_id = codes "p2";
  name = codes "phone";
  alias = codes " phone ";
  uniquify_alias = false;
  confirmed = true;
  ip_addr = [];
  allow_using_as_exit_node = false;
  redeem_invite_token = [];
  pending_invite_token = [];
}

has_net : conf.ip_net ≢ none
has_net h = cc h

no_address : (text : Text) (n : ℕ) → env.parse text ≢ some (v6 n)
no_address text n h = cc h

few : length (aliases (values conf.known_peers)) + 1 ≤ 10 ^ 20
few = ground arith

conf-IsPeerTable : IsPeerTable conf.known_peers
unfolding lookup
conf-IsPeerTable = record {
  keyed = λ id kp h. ground (arith, h, eq_iff (codes "p1") id);
  named = λ id kp h. ground (arith, h, eq_iff (codes "p1") id);
  unique = λ i j a b h k _. ground (arith, h, k, eq_iff (codes "p1") i, eq_iff (codes "p1") j);
}

peers-Distinct : Distinct conf.known_peers
unfolding lookup
peers-Distinct = (refl, tt)

auth_stream_handler-IsSafe_example :
    Returns
      (λ r. IsSafe node (codes "p2") r.0 r.1)
      (auth_stream_handler env node (codes "p2") request)
auth_stream_handler-IsSafe_example =
    auth_stream_handler-IsSafe env node (codes "p2") request conf-Distinct few has_net
      (no_address [])

add_peer_lem_example : Returns (Outcome env node by_hand) (add_peer env node by_hand)
add_peer_lem_example = add_peer_lem env node by_hand conf-Distinct few has_net (no_address [])

p2_named : codes "p2" ≢ []
p2_named h = cc h

add_peer-IsPeerTable_example :
    Returns (λ r. IsPeerTable r.0.conf.known_peers) (add_peer env node by_hand)
add_peer-IsPeerTable_example =
    add_peer-IsPeerTable env node by_hand conf-Distinct few has_net (no_address []) p2_named
      conf-IsPeerTable

abbrev status : PeerStatusInfo
status = record {
  name = codes "laptop";
  declined = false;
  allow_using_as_exit_node = false;
  vpn_gateway_server_enabled = false;
  ipv6_addr = [];
}

process_peer_status_info_lem_example :
    Returns
      (IsMerged conf (codes "p1") status)
      (process_peer_status_info env conf (codes "p1") status)
process_peer_status_info_lem_example = process_peer_status_info_lem env conf (codes "p1") status few

abbrev pub vpn_peer : VpnPeer
vpn_peer = record {
  peer_id = codes "p1";
  local_ip = 10 ∷ 66 ∷ 0 ∷ 2 ∷ [];
  local_ip_v6 = none;
  we_allow_using_as_exit_node = false;
  inbound_ch = [];
  outbound_ch = [];
}

abbrev pub tunnel : Tunnel
tunnel = record {
  conf = conf;
  is_closed = false;
  peer_id_to_peer = (codes "p1", vpn_peer) ∷ [];
  net_ip_to_peer = (10 ∷ 66 ∷ 0 ∷ 2 ∷ [], codes "p1") ∷ [];
  udp_broadcast_addr = 10 ∷ 66 ∷ 0 ∷ 255 ∷ [];
  vpn_gateway_client_enabled = true;
  vpn_gateway_peer_id = codes "p1";
  vpn_gateway_peer = some (codes "p1");
  vpn_gateway_server_enabled = true;
  awl_subnet = record { ip = 10 ∷ 66 ∷ 0 ∷ 1 ∷ []; prefix_len = 24 };
  awl_subnet6 = none;
  vpn_gateway_connected = false;
  connectivity_events = [];
  dns_ip = none;
  dns_packets = [];
}

abbrev receiver : Inbound
receiver = record {
  server_enabled = true;
  is_our_gateway = false;
  allow_gateway = true;
  local_ipv4 = some (10 ∷ 66 ∷ 0 ∷ 1 ∷ []);
  local_ipv6 = none;
  sender_ip = 10 ∷ 66 ∷ 0 ∷ 9 ∷ [];
  sender_ipv6 = none;
}

rewrite_inbound_lem_example : Judged receiver udp_packet (rewrite_inbound receiver udp_packet)
rewrite_inbound_lem_example = rewrite_inbound_lem receiver udp_packet

route_lem_example : Routed tunnel udp_packet (route tunnel udp_packet)
route_lem_example = route_lem tunnel udp_packet

vpn_peer-Keyed : Keyed tunnel.peer_id_to_peer
unfolding lookup
vpn_peer-Keyed id vp h = ground (arith, h, eq_iff (codes "p1") id)

abbrev if_laptop : Bool → Option (List ℕ)
if_laptop true = some (10 ∷ 66 ∷ 0 ∷ 2 ∷ [])
if_laptop false = none

abbrev parse_ip : IpParser
parse_ip text = if_laptop (text == codes "10.66.0.2")

refresh_peers_list_lem_example : IsRefreshed (refresh_peers_list parse_ip tunnel)
refresh_peers_list_lem_example =
    refresh_peers_list_lem parse_ip tunnel refl vpn_peer-Keyed conf-IsPeerTable peers-Distinct

abbrev notices : List Notice
notices =
    connected_to (codes "p1")
    ∷ connected_to (codes "p1")
    ∷ disconnected_from (codes "p1") true
    ∷ disconnected_from (codes "p1") false
    ∷ []

notify_all-Edges_example :
    let told = reports (has_gateway tunnel) (codes "p1") notices in
    let added = changes (codes "p1") false told in
    ((notify_all tunnel notices).connectivity_events ≡ [] ++ added)
    × ((notify_all tunnel notices).vpn_gateway_connected ≡ last_report false told)
    × Edges (codes "p1") false added (notify_all tunnel notices).vpn_gateway_connected
notify_all-Edges_example = notify_all-Edges tunnel notices
