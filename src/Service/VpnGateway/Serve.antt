-- ===== src/Service/VpnGateway/Serve.antt =====
-- The server of the gateway service: applyServer, SetServerEnabled, teardownServer.
use awl.Base.{
  ◌≡◌, refl, sym, ◌∙◌, subst, Bool, true, false, Option, none, some, Text, Bool-cases, inl, inr,
  if◌then◌else◌,
}
use awl.Config.Types.{save}
use awl.Service.Tunnel.Gateway.{set_vpn_gateway_server_enabled}
use awl.Vpn.Netstate.NetManager.{NetManager, IsNetManager}
use awl.Service.VpnGateway.{
  Env, Interface, disabled, up, VpnGateway, ServiceError, server_not_supported, interface_conf,
  awl_subnet, nat_set, server_on, apply_server, teardown_server, server_flag, flagged,
  set_server_enabled, vpn_gateway_server_supported,
}
use awl.Service.VpnGateway.Safe.{IsBound, IsSafe, DnsAgrees}

module _ (M : NetManager) (L : IsNetManager M) (env : Env) where
  -- an attempt on the NAT: only that has changed, or it has failed and the service is safe
  abbrev Served : VpnGateway M → VpnGateway M × Option (ServiceError M) → Type 0
  Served g (g', some e) = IsSafe M g'
  Served g (g', none) =
      (M.client_routes_active g'.net ≡ M.client_routes_active g.net)
      × (g'.interface ≡ g.interface)
      × (g'.dns ≡ g.dns)

  -- the NAT is off, and the rest is as it was
  nat_off :
      (g : VpnGateway M) (net : M.State)
      → M.client_routes_active net ≡ M.client_routes_active g.net
      → M.server_nat_active net ≡ false
      → IsSafe M g
      → IsSafe M (record g { net = net })
  nat_off g net same off s = record {
    routes = λ y. s.routes (sym same ∙ y);
    nat = λ y. absurd (let q : false ≡ true = sym off ∙ y in cc q);
    dns = subst (λ a. DnsAgrees a g.dns) (sym same) s.dns;
  }

  nat_set_lem :
      (g : VpnGateway M) (subnet subnet6 tun : Text) (p : M.State × Option M.Error)
      → M.enable_server_nat g.net subnet subnet6 tun ≡ p
      → IsSafe M g
      → Served g (nat_set M env g p)
  nat_set_lem g subnet subnet6 tun (net, none) e s = (
    subst (λ p. M.client_routes_active p.0 ≡ M.client_routes_active g.net) e
        (L.server_enable_routes g.net subnet subnet6 tun),
    refl,
    refl,
  )
  nat_set_lem g subnet subnet6 tun (net, some n) e s =
      nat_off g net
        (subst (λ p. M.client_routes_active p.0 ≡ M.client_routes_active g.net) e
          (L.server_enable_routes g.net subnet subnet6 tun))
        (L.server_refused g.net net subnet subnet6 tun n e) s

  server_on_lem : (g : VpnGateway M) (i : Interface) → IsSafe M g → Served g (server_on M env g i)
  server_on_lem g (disabled c) s = s
  server_on_lem g (up t none) s = s
  server_on_lem g (up t (some name)) s =
      nat_set_lem g (awl_subnet t.conf) (env.awl_subnet6 t.conf) name
        (M.enable_server_nat g.net (awl_subnet t.conf) (env.awl_subnet6 t.conf) name) refl s

  apply_server_lem : (g : VpnGateway M) → IsSafe M g → Served g (apply_server M env g)
  unfolding apply_server
  apply_server_lem g s = elim (Bool-cases (M.server_nat_active g.net)) [
    | inl y ↦ rw y (refl, refl, refl)
    | inr n ↦ elim (Bool-cases (vpn_gateway_server_supported env.platform)) [
      | inl z ↦ rw (n, z) (server_on_lem g g.interface s)
      | inr m ↦ rw (n, m) s
    ]
  ]

  flag-IsBound : (i : Interface) (b : Bool) → IsBound i → IsBound (server_flag M env i b)
  unfolding set_vpn_gateway_server_enabled save
  flag-IsBound (disabled c) b h = h
  flag-IsBound (up t name) b h = h

  flag_set :
      (i : Interface) (b : Bool)
      → (interface_conf (server_flag M env i b)).vpn_gateway.server_enabled ≡ b
  unfolding set_vpn_gateway_server_enabled save
  flag_set (disabled c) b = refl
  flag_set (up t name) b = refl

  abbrev pub SafeResult : VpnGateway M × Option (ServiceError M) → Type 0
  SafeResult p = IsSafe M p.0

  flagged_lem :
      (g : VpnGateway M) (p : VpnGateway M × Option (ServiceError M))
      → IsSafe M g
      → Served g p
      → SafeResult (flagged M env p)
  flagged_lem g (g', some e) s h = h
  flagged_lem g (g', none) s (same, i, d) = record {
    routes = λ y. flag-IsBound g'.interface true (subst IsBound (sym i) (s.routes (sym same ∙ y)));
    nat = λ y. flag_set g'.interface true;
    dns =
        subst (λ a. DnsAgrees a g'.dns) (sym same)
          (subst (DnsAgrees (M.client_routes_active g.net)) (sym d) s.dns);
  }

  pub if_IsSafe :
      (b : Bool) (p q : VpnGateway M × Option (ServiceError M))
      → SafeResult p
      → SafeResult q
      → SafeResult (if b then p else q)
  if_IsSafe true p q h k = h
  if_IsSafe false p q h k = k

  pub teardown_server-IsSafe : (g : VpnGateway M) → IsSafe M g → IsSafe M (teardown_server M env g)
  unfolding teardown_server
  teardown_server-IsSafe g s =
      nat_off g (M.disable_server_nat g.net).0 (L.server_disable_routes g.net)
        (L.server_disabled g.net) s

  -- switching the flag off while the NAT may still be on, up to the teardown that follows
  unflagged_lem :
      (g : VpnGateway M)
      → IsSafe M g
      → IsSafe M
          (teardown_server M env (record g { interface = server_flag M env g.interface false }))
  unfolding teardown_server
  unflagged_lem g s =
      let same = L.server_disable_routes g.net in
      record {
        routes = λ y. flag-IsBound g.interface false (s.routes (sym same ∙ y));
        nat = λ y. absurd (let q : false ≡ true = sym (L.server_disabled g.net) ∙ y in cc q);
        dns = subst (λ a. DnsAgrees a g.dns) (sym same) s.dns;
      }

  pub set_server_enabled-IsSafe :
      (g : VpnGateway M) (b : Bool) → IsSafe M g → SafeResult (set_server_enabled M env g b)
  unfolding set_server_enabled
  set_server_enabled-IsSafe g false s = unflagged_lem g s
  set_server_enabled-IsSafe g true s =
      if_IsSafe (vpn_gateway_server_supported env.platform) (flagged M env (apply_server M env g))
        (g, some server_not_supported)
        (flagged_lem g (apply_server M env g) s (apply_server_lem g s)) s
