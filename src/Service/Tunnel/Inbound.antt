-- ===== src/Service/Tunnel/Inbound.antt =====
-- service/tunnel.go: writeInboundBatch.
use awl.Base.{ℕ, Bool, not, ◌&&◌, List, [], ◌∷◌, Option, none, some, ◌==◌, if◌then◌else◌}
use awl.Base.Go.{Go, ok, ◌>>=◌}
use awl.Vpn.Packet.{Packet, GatewayDir, none_dir, forward, return, copy_into}
use awl.Vpn.Recalculate.{recalculate_checksum}
use awl.Service.Tunnel.{VpnPeer, IpNet, Tunnel}

pub data Drop : Type 0 where
  no_local_ip gateway_server_disabled gateway_not_allowed no_sender_ipv6 : Drop
  return_from_non_gateway : Drop

pub data Verdict : Type 0 where
  dropped : Drop → Verdict
  rewritten : Packet → Verdict

-- what the loop reads once before the packets
pub record Inbound : Type 0 where
  pub server_enabled : Bool
  pub is_our_gateway : Bool
  pub allow_gateway : Bool
  pub local_ipv4 : Option (List ℕ)
  pub local_ipv6 : Option (List ℕ)
  pub sender_ip : List ℕ
  pub sender_ipv6 : Option (List ℕ)

abbrev net_ip : Option IpNet → Option (List ℕ)
net_ip none = none
net_ip (some n) = some n.ip

unfoldable pub inbound : Tunnel → List ℕ → VpnPeer → Inbound
inbound t sender_ip vp = record {
  server_enabled = t.vpn_gateway_server_enabled;
  is_our_gateway = t.vpn_gateway_client_enabled && vp.peer_id == t.vpn_gateway_peer_id;
  allow_gateway = vp.we_allow_using_as_exit_node;
  local_ipv4 = some t.awl_subnet.ip;
  local_ipv6 = net_ip t.awl_subnet6;
  sender_ip = sender_ip;
  sender_ipv6 = vp.local_ip_v6;
}

-- copy(packet.Src, ip) and copy(packet.Dst, ip)
abbrev pub write_src : Packet → List ℕ → Packet
write_src p ip = record p { body = copy_into p.body p.src ip }

abbrev pub write_dst : Packet → List ℕ → Packet
write_dst p ip = record p { body = copy_into p.body p.dst ip }

abbrev pub local_ip : Inbound → Packet → Option (List ℕ)
local_ip i p = if p.is_ipv6 then i.local_ipv6 else i.local_ipv4

abbrev pub sender : Inbound → Packet → Option (List ℕ)
sender i p = if p.is_ipv6 then i.sender_ipv6 else some i.sender_ip

abbrev pub with_src : Packet → Option (List ℕ) → Verdict
with_src p none = dropped no_sender_ipv6
with_src p (some ip) = rewritten (write_src p ip)

abbrev pub with_both : Packet → List ℕ → Option (List ℕ) → Verdict
with_both p local none = dropped no_sender_ipv6
with_both p local (some ip) = rewritten (write_dst (write_src p ip) local)

-- the switch on the direction
abbrev pub by_dir : Inbound → Packet → List ℕ → GatewayDir → Verdict
by_dir i p local forward =
    if not i.server_enabled
    then dropped gateway_server_disabled
    else if not i.allow_gateway
    then dropped gateway_not_allowed
    else with_src p (sender i p)
by_dir i p local return =
    if not i.is_our_gateway then dropped return_from_non_gateway else rewritten (write_dst p local)
by_dir i p local none_dir = with_both p local (sender i p)

abbrev pub for_local : Inbound → Packet → Option (List ℕ) → Verdict
for_local i p none = dropped no_local_ip
for_local i p (some local) = by_dir i p local p.gateway_dir

-- the body of the loop up to RecalculateChecksum
unfoldable pub rewrite_inbound : Inbound → Packet → Verdict
rewrite_inbound i p = for_local i p (local_ip i p)

-- the rest of the body: the packet that is written, or none
abbrev pub finish : Verdict → Go (Option Packet)
finish (dropped d) = ok none
finish (rewritten p) = recalculate_checksum p >>= λ q. ok (some q)

abbrev pub keep : Option Packet → List Packet → List Packet
keep none ps = ps
keep (some p) ps = p ∷ ps

-- the packets of the batch that are handed to the device
unfoldable pub write_inbound_batch : Inbound → List Packet → Go (List Packet)
unfolding rewrite_inbound
write_inbound_batch i [] = ok []
write_inbound_batch i (p ∷ ps) =
    let rest = write_inbound_batch i ps in
    finish (rewrite_inbound i p) >>= λ q. rest >>= λ qs. ok (keep q qs)
