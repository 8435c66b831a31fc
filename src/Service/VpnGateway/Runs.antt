-- ===== src/Service/VpnGateway/Runs.antt =====
-- The gateway service over a run of its operations.
use awl.Base.{
  ◌≡◌, refl, sym, subst, Bool, true, false, not, ◌&&◌, List, [], ◌∷◌, Option, none, some, Text,
  is_empty, inl, inr,
}
use awl.Config.Types.{VpnGatewayConfig}
use awl.Vpn.Netstate.NetManager.{NetManager, IsNetManager}
use awl.Service.VpnGateway.{
  Env, VpnGateway, ServiceError, interface_conf, teardown_client, enable_client, disable_client,
  set_server_enabled, startup_decoded, startup_client, startup_next, startup_server,
  setup_at_startup, teardown_at_shutdown, vpn_gateway_client_supported,
  vpn_gateway_server_supported,
}
use awl.Service.VpnGateway.Safe.{IsId, IsSafe}
use awl.Service.VpnGateway.Enable.{IsEnabled, enable_client_lem}
use awl.Service.VpnGateway.Disable.{teardown_client_lem, disable_client_lem}
use awl.Service.VpnGateway.Serve.{
  SafeResult, if_IsSafe, teardown_server-IsSafe, set_server_enabled-IsSafe,
}

module _ (M : NetManager) (L : IsNetManager M) (env : Env) where
  enabled-IsSafe :
      (g : VpnGateway M) (id : Text) (p : VpnGateway M × Option (ServiceError M))
      → IsSafe M g
      → IsEnabled M L env g id p
      → SafeResult M L env p
  enabled-IsSafe g id (g', none) s h = h.0
  enabled-IsSafe g id (g', some e) s (inl q) = subst (IsSafe M) (sym q) s
  enabled-IsSafe g id (g', some e) s (inr h) = h.0

  -- peer.Decode gives peer IDs
  abbrev pub IsDecoder : Type 0
  IsDecoder = (text id : Text) → env.decode text ≡ some id → IsId env id

  startup_decoded-IsSafe :
      (g : VpnGateway M) (text : Text) (o : Option Text)
      → env.decode text ≡ o
      → IsDecoder
      → IsSafe M g
      → SafeResult M L env (startup_decoded M env g o)
  startup_decoded-IsSafe g text none e d s = (disable_client_lem M L env g s).0
  startup_decoded-IsSafe g text (some id) e d s =
      enabled-IsSafe g id (enable_client M env g id) s
        (enable_client_lem M L env g id s (d text id e))

  startup_client-IsSafe :
      (g : VpnGateway M) (gw : VpnGatewayConfig) (b : Bool)
      → IsDecoder
      → IsSafe M g
      → SafeResult M L env (startup_client M env g gw b)
  startup_client-IsSafe g gw false d s = s
  startup_client-IsSafe g gw true d s =
      if_IsSafe M L env (vpn_gateway_client_supported env.platform)
        (startup_decoded M env g (env.decode gw.gateway_peer_id)) (g, none)
        (startup_decoded-IsSafe g gw.gateway_peer_id (env.decode gw.gateway_peer_id) refl d s) s

  startup_next-IsSafe :
      (gw : VpnGatewayConfig) (p : VpnGateway M × Option (ServiceError M))
      → IsDecoder
      → SafeResult M L env p
      → SafeResult M L env (startup_next M env gw p)
  startup_next-IsSafe gw (g, some e) d s = s
  startup_next-IsSafe gw (g, none) d s =
      startup_client-IsSafe g gw (gw.client_enabled && not (is_empty gw.gateway_peer_id)) d s

  startup_server-IsSafe :
      (g : VpnGateway M) (gw : VpnGatewayConfig)
      → IsSafe M g
      → SafeResult M L env (startup_server M env g gw)
  startup_server-IsSafe g gw s =
      if_IsSafe M L env (gw.server_enabled && vpn_gateway_server_supported env.platform)
        (set_server_enabled M env g true) (g, none) (set_server_enabled-IsSafe M L env g true s) s

pub data Operation : Type 0 where
  enable : Text → Operation
  disable start stop : Operation
  serve : Bool → Operation

module _ (M : NetManager) (env : Env) where
  unfoldable pub operate : VpnGateway M → Operation → VpnGateway M
  unfolding enable_client disable_client set_server_enabled setup_at_startup teardown_at_shutdown
  operate g (enable id) = (enable_client M env g id).0
  operate g disable = disable_client M env g
  operate g start = (setup_at_startup M env g).0
  operate g stop = teardown_at_shutdown M env g
  operate g (serve b) = (set_server_enabled M env g b).0

  unfoldable pub operate_all : VpnGateway M → List Operation → VpnGateway M
  unfolding operate
  operate_all g [] = g
  operate_all g (op ∷ ops) = operate_all (operate g op) ops

  -- what is enabled is a peer ID
  abbrev pub AreIds : List Operation → Type 0
  AreIds [] = Unit
  AreIds (enable id ∷ ops) = IsId env id × AreIds ops
  AreIds (disable ∷ ops) = AreIds ops
  AreIds (start ∷ ops) = AreIds ops
  AreIds (stop ∷ ops) = AreIds ops
  AreIds (serve b ∷ ops) = AreIds ops

-- For a lawful manager and a decoder that gives peer IDs, over any sequence of EnableClient with
-- peer IDs, DisableClient, SetServerEnabled, SetupAtStartup and TeardownAtShutdown, each of which
-- may fail, a safe service stays safe: there are client routes only while the tunnel and the
-- configuration are bound to a gateway, there is NAT only while the configuration has the server
-- enabled, and DNS, if it is active, was last asked to be forced upstream exactly if there are client
-- routes, and is forced upstream exactly then, unless this last call failed, which is only logged.
pub operate_all-IsSafe :
    (M : NetManager) (L : IsNetManager M) (env : Env)
    → IsDecoder M L env
    → (g : VpnGateway M) (ops : List Operation) → AreIds M env ops
    → IsSafe M g
    → IsSafe M (operate_all M env g ops)
unfolding operate_all operate setup_at_startup teardown_at_shutdown
operate_all-IsSafe M L env d g [] h s = s
operate_all-IsSafe M L env d g (enable id ∷ ops) h s =
    operate_all-IsSafe M L env d (enable_client M env g id).0 ops h.1 (
      enabled-IsSafe M L env g id (enable_client M env g id) s
        (enable_client_lem M L env g id s h.0))
operate_all-IsSafe M L env d g (disable ∷ ops) h s =
    operate_all-IsSafe M L env d (disable_client M env g) ops h (disable_client_lem M L env g s).0
operate_all-IsSafe M L env d g (start ∷ ops) h s =
    let gw = (interface_conf g.interface).vpn_gateway in
    operate_all-IsSafe M L env d (setup_at_startup M env g).0 ops h (
      startup_next-IsSafe M L env gw (startup_server M env g gw) d
        (startup_server-IsSafe M L env g gw s))
operate_all-IsSafe M L env d g (stop ∷ ops) h s =
    operate_all-IsSafe M L env d (teardown_at_shutdown M env g) ops h
      (teardown_server-IsSafe M L env (teardown_client M env g) (teardown_client_lem M L env g s).0)
operate_all-IsSafe M L env d g (serve b ∷ ops) h s =
    operate_all-IsSafe M L env d (set_server_enabled M env g b).0 ops h
      (set_server_enabled-IsSafe M L env g b s)
