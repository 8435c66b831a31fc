-- ===== src/Lib.antt =====
-- A node of Anywherelan (awl) as pure functions: the packets of its VPN, the frames between two
-- nodes, its configuration of peers, invites and addresses, the authorization of peers and the
-- routing of the tunnel, the gateway that a node can be or use, and its routes and NAT on the
-- host, with what these parts guarantee.
--
-- How the parts interact. A packet read from the TUN device is routed by service/tunnel.go to a peer
-- or to the VPN gateway and framed by protocol/tunnel.go. A frame that arrives is parsed by
-- vpn/packet.go, has its addresses rewritten by the rules of service/tunnel.go, and its checksums
-- are recalculated by vpn/packet.go before it is written to the device. Which peers there are, and what
-- they may do, is kept by config/, and changed by service/auth_status.go when peers ask to be
-- added, present an invite, or exchange status info. The tunnel is refreshed from config/.
-- service/vpn_gateway.go binds the tunnel to a gateway and changes the host network through the
-- manager of vpn/netstate/.
--
-- The files:
--   Base and its children: Boolean tests, lists and their copies, texts, maps, and Go.antt for
--     expressions that may panic (`Go`, an index `at`, a slice `slice`). `Returns P r` says that
--     `r` does not panic and that its result satisfies `P`.
--   Vpn/Packet, Vpn/Checksum, Vpn/UpperLayer, Vpn/Recalculate: vpn/packet.go. Packet.Parse is
--     `parse`, ipv6UpperLayer is `ipv6_upper_layer`, RecalculateChecksum is
--     `recalculate_checksum`. Src and Dst are windows into the body, so that a write through them
--     is a write to the body; bytes are numbers below 256, uint16 and uint32 sums wrap around.
--   Protocol/Tunnel, Protocol/Messages: protocol/tunnel.go and the messages of protocol/protocol.go.
--   RingBuffer: ringbuffer/ring_buffer.go.
--   Config/Types, Config/Peers, Config/Invites, Config/Ipv4, Config/Address: config/config.go,
--     config/invites.go and config/network_addr.go. Each operation holds the lock of the
--     configuration and is one function from the configuration before to that after. A Go map is
--     an association list; what is proved for every list holds for every order of iteration.
--   Service/AuthStatus: service/auth_status.go. AddPeer is `add_peer`, AuthStreamHandler
--     `auth_stream_handler`, processPeerStatusInfo `process_peer_status_info`. Its events and the
--     goroutines that it starts are lists in the state.
--   Service/Tunnel: service/tunnel.go. HandleReadPackets is `handle_read_packets` with `route`
--     for its branches, writeInboundBatch is `write_inbound_batch` with `rewrite_inbound`,
--     RefreshPeersList is `refresh_peers_list`. A channel is the list of what it holds, a
--     pointer to a VpnPeer is its peer ID.
--   Service/VpnGateway: service/vpn_gateway.go. EnableClient is `enable_client`, and so on; where the
--     VPN interface is enabled the configuration is that of the tunnel. It takes any `NetManager`.
--   Vpn/Netstate, with Routes, Nat, Manager and NetManager: vpn/netstate/routes_linux.go,
--     nat_linux.go, private_subnets.go, manager_linux.go and manager_android.go. `NetManager` is the
--     interface of the gateway service, with the laws that it relies on. The kernel answers each
--     request as it likes, within laws on what a request that succeeds or fails does.
--   Vpn/SwappableTun: vpn/swappable_tun.go, as a step relation of one Read against Swap and Close.
--   Service/Socks5: service/socks5.go. ProxyStreamHandler is `proxy_stream_handler`, proxyConn is
--     `proxy_conn`; the result says what is done with the stream or the connection.
--   Dns: awldns/awldns.go. ReceiveConfiguration is `receive_configuration`, dnsLocalDomainHandler
--     `dns_local_domain_handler`. TrimDomainName stands with Service/AuthStatus.
--   Tests: runs on concrete packets, configurations and requests.
--
-- Bounds and fuel. The walk over IPv6 extension headers takes the sixteen rounds of the source. The
-- search for a free alias takes one round more than there are aliases, each of which can refuse one
-- candidate. The search for a free address takes three more than there are exclusions: each
-- exclusion, the broadcast address and that of DNS can refuse one. An alias is numbered with at
-- most 20 digits.
--
-- Parameters, for code outside of the repository: net.ParseIP and netip.ParseAddr, strings.ToLower,
-- dns.CanonicalName, the clock, random bytes, whether a peer is connected, peer.Decode, netlink,
-- iptables and the files under /proc/sys. Whether ForceUpstreamDNS works is a parameter as well. On
-- Linux the routes and the firewall of the host are taken as separate. A handler is one step: that
-- another handler may run between two of its locks is not modelled, except that AddPeer reserves an
-- invite and adds the peer under one lock, and the invites are studied over arbitrary sequences of
-- operations.
--
-- Not modelled: the writer goroutine and files of the configuration, the goroutines that move
-- packets between channels and streams, the host network on Windows, the DNS servers and their PTR
-- and proxy handlers, the SOCKS5 relays, the HTTP API, the command line, libp2p and the platform
-- code. JSON and streams are of libraries; what they deliver is an argument.
mod Base
pub mod Vpn
pub mod Protocol
pub mod RingBuffer
pub mod Config
pub mod Dns
pub mod Service
pub mod Tests
