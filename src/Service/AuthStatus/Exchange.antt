-- ===== src/Service/AuthStatus/Exchange.antt =====
-- service/auth_status.go: the exchange of status info, on both sides.
use awl.Base.{
  ℕ, Bool, true, false, not, ◌&&◌, [], Option, none, some, Text, lookup, remove, ◌==◌, is_empty,
  if◌then◌else◌,
}
use awl.Base.Go.{Go, ok, panic}
use awl.Config.Types.{Config, KnownPeer, save, display_name}
use awl.Config.Peers.{get_peer, update_peer_fields, gen_uniq_peer_alias}
use awl.Protocol.Messages.{PeerStatusInfo}
use awl.Service.AuthStatus.{Env, AuthStatus, trim_domain_name}
use awl.Service.AuthStatus.Handshake.{is_some}

abbrev declined_info : PeerStatusInfo
declined_info = record {
  name = [];
  declined = true;
  allow_using_as_exit_node = false;
  vpn_gateway_server_enabled = false;
  ipv6_addr = [];
}

abbrev or_empty : Option Text → Text
or_empty none = []
or_empty (some t) = t

-- createPeerInfo; what the stored peer adds to it is one flag
unfoldable pub create_peer_info : Config → Bool → Bool → PeerStatusInfo
create_peer_info c we_allow declined = if declined then declined_info else record {
  name = c.node_name;
  declined = false;
  allow_using_as_exit_node = we_allow;
  vpn_gateway_server_enabled = c.vpn_gateway.server_enabled;
  ipv6_addr = or_empty c.local_ip_v6;
}

unfoldable pub clear_selected_exit_node : Config → Text → Config
clear_selected_exit_node c id =
    if not (c.socks5_using_peer_id == id) then c else save (record c { socks5_using_peer_id = [] })

abbrev pub mark_declined : ℕ → KnownPeer → KnownPeer
mark_declined now kp = record kp { last_seen = now; declined = true; pending_invite_token = [] }

-- the update of a peer that confirms us; `alias` is the free one, used if the peer has none
unfoldable pub mark_confirmed : Env → PeerStatusInfo → Text → KnownPeer → KnownPeer
mark_confirmed env info alias kp =
    let kp' : KnownPeer = record kp {
      last_seen = env.now;
      name = info.name;
      confirmed = true;
      declined = false;
      pending_invite_token = [];
    } in
    record kp' {
      domain_name =
          if is_empty kp.domain_name
          then trim_domain_name env (display_name kp')
          else kp.domain_name;
      alias = if is_empty kp.alias then alias else kp.alias;
      ip_addr_v6 =
          if not (is_empty info.ipv6_addr) && is_empty kp.ip_addr_v6
          then info.ipv6_addr
          else kp.ip_addr_v6;
      allowed_using_as_exit_node = info.allow_using_as_exit_node;
      remote_vpn_gateway_server_enabled = info.vpn_gateway_server_enabled;
    }

-- the end of processPeerStatusInfo for a peer that confirms us
abbrev pub confirmed_status : Env → Config → Text → PeerStatusInfo → Text → Config
confirmed_status env c id info alias =
    let c' = (update_peer_fields c id (mark_confirmed env info alias)).0 in
    if not info.allow_using_as_exit_node then clear_selected_exit_node c' id else c'

abbrev pub with_alias : Env → Config → Text → PeerStatusInfo → Option Text → Go Config
with_alias env c id info none = panic
with_alias env c id info (some alias) = ok (confirmed_status env c id info alias)

-- processPeerStatusInfo
unfoldable pub process_peer_status_info : Env → Config → Text → PeerStatusInfo → Go Config
unfolding clear_selected_exit_node mark_confirmed
process_peer_status_info env c id info =
    if info.declined
    then ok (clear_selected_exit_node (update_peer_fields c id (mark_declined env.now)).0 id)
    else with_alias env c id info (gen_uniq_peer_alias c info.name [])

abbrev pub keep_conf : AuthStatus → Go Config → Go AuthStatus
keep_conf s panic = panic
keep_conf s (ok c) = ok (record s { conf = c })

abbrev pub we_allow : Option KnownPeer → Bool
we_allow none = false
we_allow (some kp) = kp.we_allow_using_as_exit_node

-- StatusStreamHandler: none for a peer that is sent nothing
unfoldable pub status_stream_handler :
    Env → AuthStatus → Text → Option PeerStatusInfo → Go AuthStatus × Option PeerStatusInfo
unfolding create_peer_info process_peer_status_info
status_stream_handler env s id received =
    let known = get_peer s.conf id in
    let blocked = is_some (lookup id s.conf.blocked_peers) in
    if not (is_some known) && not blocked then (ok s, none) else elim received [
      | none ↦ (ok s, none)
      | some info ↦
          let s' : AuthStatus = record s { outgoing_auths = remove id s.outgoing_auths } in
          (
            (if blocked
                then ok s'
                else keep_conf s' (process_peer_status_info env s'.conf id info)),
            some (create_peer_info s'.conf (we_allow known) blocked),
          )
    ]

-- ExchangeNewStatusInfo, with what comes back
unfoldable pub exchange_new_status : Env → AuthStatus → Text → Option PeerStatusInfo → Go AuthStatus
unfolding process_peer_status_info
exchange_new_status env s id reply =
    let s' : AuthStatus = record s { ingoing_auths = remove id s.ingoing_auths } in
    elim reply [
      | none ↦ ok s'
      | some info ↦
          if is_some (lookup id s'.conf.blocked_peers)
          then ok s'
          else keep_conf s' (process_peer_status_info env s'.conf id info)
    ]
