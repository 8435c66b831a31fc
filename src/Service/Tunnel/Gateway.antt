-- ===== src/Service/Tunnel/Gateway.antt =====
-- service/tunnel.go: the gateway's roles and the edges of its connectivity. `connected` is
-- p2p.IsConnected of the gateway peer.
pub mod Edges
use awl.Base.{
  Bool, true, false, not, ◌&&◌, ◌||◌, List, [], ◌∷◌, ◌++◌, Option, none, some, Text, lookup, ◌==◌,
  is_empty, if◌then◌else◌,
}
use awl.Config.Types.{Config, KnownPeer, VpnGatewayConfig, save, can_use_as_vpn_gateway}
use awl.Config.Peers.{get_peer}
use awl.Service.Tunnel.{VpnPeer, Tunnel}

pub data GatewayError : Type 0 where
  not_known not_a_gateway no_vpn_peer : GatewayError

unfoldable pub set_vpn_gateway_server_enabled : Tunnel → Bool → Tunnel
set_vpn_gateway_server_enabled t enabled = record t {
  vpn_gateway_server_enabled = enabled;
  conf =
      save (record t.conf { vpn_gateway = record t.conf.vpn_gateway { server_enabled = enabled } });
}

abbrev pub emit_gateway_connectivity : Tunnel → Bool → Text → Tunnel
emit_gateway_connectivity t connected id = record t {
  connectivity_events = t.connectivity_events ++ ((connected, id) ∷ []);
}

abbrev pub client_conf : Config → Bool → Text → Config
client_conf c enabled id = save (record c {
  vpn_gateway = record c.vpn_gateway { client_enabled = enabled; gateway_peer_id = id };
})

abbrev pub bound : Tunnel → Text → Bool → Tunnel
bound t id connected =
    let t' : Tunnel = record t {
      vpn_gateway_client_enabled = true;
      vpn_gateway_peer_id = id;
      vpn_gateway_peer = some id;
      conf = client_conf t.conf true id;
      vpn_gateway_connected = connected;
    } in
    if not connected then emit_gateway_connectivity t' connected id else t'

abbrev pub bind_gateway :
    Tunnel → Text → Bool → Option KnownPeer → Option VpnPeer → Tunnel × Option GatewayError
bind_gateway t id connected none vp = (t, some not_known)
bind_gateway t id connected (some kp) vp =
    if not (can_use_as_vpn_gateway kp)
    then (t, some not_a_gateway)
    else elim vp [ none ↦ (t, some no_vpn_peer) | some _ ↦ (bound t id connected, none) ]

unfoldable pub set_vpn_gateway_peer : Tunnel → Text → Bool → Tunnel × Option GatewayError
unfolding can_use_as_vpn_gateway
set_vpn_gateway_peer t id connected =
    bind_gateway t id connected (get_peer t.conf id) (lookup id t.peer_id_to_peer)

unfoldable pub clear_vpn_gateway_peer : Tunnel → Tunnel
clear_vpn_gateway_peer t = record t {
  vpn_gateway_client_enabled = false;
  vpn_gateway_peer_id = [];
  vpn_gateway_peer = none;
  vpn_gateway_connected = false;
  conf = client_conf t.conf false [];
}

abbrev pub is_gateway : Tunnel → Text → Bool
is_gateway t id =
    t.vpn_gateway_client_enabled
    && not (is_empty t.vpn_gateway_peer_id)
    && id == t.vpn_gateway_peer_id

-- CompareAndSwap(not state, state), and the event if it swapped
abbrev pub edge : Tunnel → Bool → Bool → Tunnel
edge t state false = t
edge t state true =
    emit_gateway_connectivity (record t { vpn_gateway_connected = state }) state
      t.vpn_gateway_peer_id

unfoldable pub on_peer_connected : Tunnel → Text → Tunnel
on_peer_connected t id = edge t true (is_gateway t id && not t.vpn_gateway_connected)

unfoldable pub on_peer_disconnected : Tunnel → Text → Bool → Tunnel
on_peer_disconnected t id connected =
    edge t false (is_gateway t id && not connected && t.vpn_gateway_connected)
