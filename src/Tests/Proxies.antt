-- ===== src/Tests/Proxies.antt =====
-- A peer that asks for a relay, and a connection relayed through a peer.
use awl.Base.{◌≡◌, ◌↔◌, refl, true, false, ◌&&◌, [], ◌∷◌, some, codes, lookup, ◌==◌}
use awl.Config.Types.{Config}
use awl.Config.Peers.{get_peer}
use awl.Service.Socks5.{
  packet_method, no_auth_method, denied, Peers, relayed, proxy_stream_handler, proxy_conn,
}
use awl.Service.Socks5.Gates.{is_served, allows, proxy_stream_handler_lem, CanRelay, proxy_conn_lem}
use awl.Tests.Peers.{laptop, conf}

proxy_stream_handler_lem_example :
    (is_served (proxy_stream_handler conf true packet_method (codes "p1"))
      ≡ (allows (get_peer conf (codes "p1")) && true))
    × ((proxy_stream_handler conf true packet_method (codes "p1") ≡ denied)
        ↔ (allows (get_peer conf (codes "p1")) ≡ false))
proxy_stream_handler_lem_example = proxy_stream_handler_lem conf true packet_method (codes "p1")

abbrev exit_conf : Config
exit_conf = record conf {
  known_peers = (codes "p1", record laptop { allowed_using_as_exit_node = true }) ∷ [];
  socks5_using_peer_id = codes "p1";
}

abbrev peers : Peers
peers = record { connects = λ id. true; new_stream = λ id. some no_auth_method; local_auth = true }

exit_is_used : proxy_conn exit_conf peers ≡ relayed (codes "p1") no_auth_method
unfolding proxy_conn lookup ◌==◌
exit_is_used = refl

proxy_conn_lem_example :
    (proxy_conn exit_conf peers ≡ relayed (codes "p1") no_auth_method)
    ↔ CanRelay exit_conf peers (codes "p1") no_auth_method
proxy_conn_lem_example = proxy_conn_lem exit_conf peers (codes "p1") no_auth_method
