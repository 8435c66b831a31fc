-- ===== src/Service/VpnGateway/Safe.antt =====
-- The host network against the configuration, over a setup of the client.
use awl.Base.{
  ◌≡◌, refl, sym, ap, ◌∙◌, subst, Bool, true, false, List, [], ◌∷◌, Option, none, some, Text,
  is_empty, ◌⊎◌, inl, inr,
}
use awl.Config.Types.{Config, save}
use awl.Service.Tunnel.{Tunnel}
use awl.Service.Tunnel.Gateway.{clear_vpn_gateway_peer}
use awl.Vpn.Netstate.NetManager.{NetManager, IsNetManager}
use awl.Service.VpnGateway.{
  Env, Interface, disabled, up, VpnGateway, ServiceError, interface_conf, force_upstream_dns,
  routes_set, named_client, inactive_client, decoded_client, configured_client, tunnelled_client,
  apply_client, unbound, rolled_back, vpn_gateway_client_supported,
}

-- The tunnel and the configuration both say that the node is the client of a gateway.
abbrev pub IsBound : Interface → Type 0
IsBound (disabled c) = ⊥
IsBound (up t name) =
    (t.vpn_gateway_client_enabled ≡ true)
    × (t.conf.vpn_gateway.client_enabled ≡ true)
    × (t.conf.vpn_gateway.gateway_peer_id ≡ t.vpn_gateway_peer_id)
    × (t.vpn_gateway_peer ≡ some t.vpn_gateway_peer_id)

abbrev pub last_call : List (Bool × Bool) → Bool
last_call [] = false
last_call ((asked, worked) ∷ calls) = asked

-- whether DNS is known to be forced upstream: not after a call that failed
abbrev pub known_forced : List (Bool × Bool) → Option Bool
known_forced [] = some false
known_forced ((asked, true) ∷ calls) = some asked
known_forced ((asked, false) ∷ calls) = none

-- What DNS was last asked agrees with the routes, and so does what it does, unless that failed.
abbrev pub DnsAgrees : Bool → Option (List (Bool × Bool)) → Type 0
DnsAgrees active none = Unit
DnsAgrees active (some calls) =
    (last_call calls ≡ active) × ((known_forced calls ≡ some active) ⊎ (known_forced calls ≡ none))

-- The text is that of a peer ID.
pub record IsId (env : Env) (id : Text) : Type 0 where
  pub named : is_empty id ≡ false
  pub decodes : env.decode id ≡ some id

module _ (M : NetManager) where
  -- Client routes only with a bound gateway, NAT only while the server is enabled in the
  -- configuration, and a resolver was last asked to force DNS upstream exactly if there are client
  -- routes.
  pub record IsSafe (g : VpnGateway M) : Type 0 where
    pub routes : M.client_routes_active g.net ≡ true → IsBound g.interface
    pub nat :
        M.server_nat_active g.net ≡ true
        → (interface_conf g.interface).vpn_gateway.server_enabled ≡ true
    pub dns : DnsAgrees (M.client_routes_active g.net) g.dns

module _ (M : NetManager) (L : IsNetManager M) (env : Env) where
  pub no-IsBound : (b : Bool) (i : Interface) → b ≡ false → b ≡ true → IsBound i
  no-IsBound b i n y = absurd (let q : false ≡ true = sym n ∙ y in cc q)

  known_lem :
      (calls : List (Bool × Bool)) (b worked : Bool)
      → (known_forced ((b, worked) ∷ calls) ≡ some b) ⊎ (known_forced ((b, worked) ∷ calls) ≡ none)
  known_lem calls b true = inl refl
  known_lem calls b false = inr refl

  pub forced :
      (d : Option (List (Bool × Bool))) (b : Bool) → DnsAgrees b (force_upstream_dns M env d b)
  forced none b = tt
  forced (some calls) b = (refl, known_lem calls b (env.dns_accepts calls b))

  -- an attempt on the routes that leaves the interface alone, with the binding done before
  abbrev pub Attempted : VpnGateway M → VpnGateway M × Option (ServiceError M) → Type 0
  Attempted g (g', none) =
      (M.client_routes_active g'.net ≡ true) × IsSafe M g' × (g'.interface ≡ g.interface)
  Attempted g (g', some e) =
      (M.client_routes_active g'.net ≡ false) × IsSafe M g' × (g'.interface ≡ g.interface)

  routes_set_lem :
      (g : VpnGateway M) (name : Text) (bypass : List Text) (p : M.State × Option M.Error)
      → M.enable_client_routes g.net name bypass ≡ p
      → M.client_routes_active g.net ≡ false
      → IsBound g.interface
      → IsSafe M g
      → Attempted g (routes_set M env g p)
  routes_set_lem g name bypass (s, some e) q n b h =
      let off : M.client_routes_active s ≡ false = L.client_refused g.net s name bypass e q in
      let same : M.server_nat_active s ≡ M.server_nat_active g.net =
        subst (λ p. M.server_nat_active p.0 ≡ M.server_nat_active g.net) q
          (L.client_enable_nat g.net name bypass) in
      (
        off,
        record {
          routes = λ y. b;
          nat = λ y. h.nat (sym same ∙ y);
          dns = subst (λ a. DnsAgrees a g.dns) (n ∙ sym off) h.dns;
        },
        refl,
      )
  routes_set_lem g name bypass (s, none) q n b h =
      let on : M.client_routes_active s ≡ true = L.client_enabled g.net s name bypass q in
      let same : M.server_nat_active s ≡ M.server_nat_active g.net =
        subst (λ p. M.server_nat_active p.0 ≡ M.server_nat_active g.net) q
          (L.client_enable_nat g.net name bypass) in
      (
        on,
        record {
          routes = λ y. b;
          nat = λ y. h.nat (sym same ∙ y);
          dns =
              subst (λ a. DnsAgrees a (force_upstream_dns M env g.dns true)) (sym on)
                (forced g.dns true);
        },
        refl,
      )

  named_client_lem :
      (g : VpnGateway M) (bypass : List Text) (name : Option Text)
      → M.client_routes_active g.net ≡ false
      → IsBound g.interface
      → IsSafe M g
      → Attempted g (named_client M env g bypass name)
  named_client_lem g bypass none n b h = (n, h, refl)
  named_client_lem g bypass (some name) n b h =
      routes_set_lem g name bypass (M.enable_client_routes g.net name bypass) refl n b h

  inactive_client_lem :
      (g : VpnGateway M) (bypass : List Text) (name : Option Text) (active : Bool)
      → M.client_routes_active g.net ≡ active
      → IsBound g.interface
      → IsSafe M g
      → Attempted g (inactive_client M env g bypass name active)
  inactive_client_lem g bypass name true e b h = (e, h, refl)
  inactive_client_lem g bypass name false e b h = named_client_lem g bypass name e b h

  configured_lem :
      (g : VpnGateway M) (c : Config) (name : Option Text) (id : Text) (none_set : Bool)
      → is_empty c.vpn_gateway.gateway_peer_id ≡ none_set
      → c.vpn_gateway.gateway_peer_id ≡ id
      → IsId env id
      → IsBound g.interface
      → IsSafe M g
      → Attempted g (configured_client M env g c name none_set)
  configured_lem g c name id true e same h b s =
      absurd (let q : true ≡ false = sym e ∙ ap is_empty same ∙ h.named in cc q)
  configured_lem g c name id false e same h b s =
      let d : env.decode c.vpn_gateway.gateway_peer_id ≡ some id = ap env.decode same ∙ h.decodes in
      subst (λ o. Attempted g (decoded_client M env g c.vpn_gateway.client_bypass_cidrs name o))
        (sym d)
        (inactive_client_lem g c.vpn_gateway.client_bypass_cidrs name (M.client_routes_active g.net)
          refl b s)

  -- the tunnel is bound to the peer
  abbrev pub IsBoundTo : Text → Tunnel → Type 0
  IsBoundTo id t =
      (t.vpn_gateway_client_enabled ≡ true)
      × (t.conf.vpn_gateway.client_enabled ≡ true)
      × (t.conf.vpn_gateway.gateway_peer_id ≡ id)
      × (t.vpn_gateway_peer_id ≡ id)
      × (t.vpn_gateway_peer ≡ some id)

  pub IsBoundTo-IsBound :
      (id : Text) (t : Tunnel) (name : Option Text) → IsBoundTo id t → IsBound (up t name)
  IsBoundTo-IsBound id t name (a, b, c, d, e) = (a, b, c ∙ sym d, e ∙ ap some (sym d))

  tunnelled_lem :
      (g : VpnGateway M) (t : Tunnel) (name : Option Text) (id : Text)
      → g.interface ≡ up t name
      → IsBoundTo id t
      → IsId env id
      → IsSafe M g
      → Attempted g (tunnelled_client M env g (up t name))
  tunnelled_lem g t name id e b h s =
      configured_lem g t.conf name id (is_empty t.conf.vpn_gateway.gateway_peer_id) refl b.2 h
        (subst IsBound (sym e) (IsBoundTo-IsBound id t name b)) s

  pub apply_lem :
      (g : VpnGateway M) (t : Tunnel) (name : Option Text) (id : Text)
      → vpn_gateway_client_supported env.platform ≡ true
      → g.interface ≡ up t name
      → IsBoundTo id t
      → IsId env id
      → IsSafe M g
      → Attempted g (apply_client M env g)
  unfolding apply_client
  apply_lem g t name id y e b h s = rw y (
      subst (λ i. Attempted g (tunnelled_client M env g i)) (sym e)
        (tunnelled_lem g t name id e b h s))

  -- without routes nothing is asked of the interface but the server's flag
  pub move_interface :
      (g : VpnGateway M) (i : Interface)
      → M.client_routes_active g.net ≡ false
      → (interface_conf i).vpn_gateway.server_enabled
        ≡ (interface_conf g.interface).vpn_gateway.server_enabled
      → IsSafe M g
      → IsSafe M (record g { interface = i })
  move_interface g i n e s = record {
    routes = no-IsBound (M.client_routes_active g.net) i n;
    nat = λ y. e ∙ s.nat y;
    dns = s.dns;
  }

  unbound_flag :
      (i : Interface)
      → (interface_conf (unbound M env i)).vpn_gateway.server_enabled
        ≡ (interface_conf i).vpn_gateway.server_enabled
  unfolding clear_vpn_gateway_peer save
  unbound_flag (disabled c) = refl
  unbound_flag (up t name) = refl

  -- An enable that fails leaves the client off.
  abbrev pub IsOff : Interface → Type 0
  IsOff (disabled c) = Unit
  IsOff (up t name) =
      (t.vpn_gateway_client_enabled ≡ false)
      × (t.vpn_gateway_peer ≡ none)
      × (t.conf.vpn_gateway.client_enabled ≡ false)
      × (t.conf.vpn_gateway.gateway_peer_id ≡ [])

  unbound-IsOff : (i : Interface) → IsOff (unbound M env i)
  unfolding clear_vpn_gateway_peer save
  unbound-IsOff (disabled c) = tt
  unbound-IsOff (up t name) = (refl, refl, refl, refl)

  -- after a bind to the peer: on, or rolled back
  abbrev pub Rolled : Interface → VpnGateway M × Option (ServiceError M) → Type 0
  Rolled i (g, none) = IsSafe M g × (M.client_routes_active g.net ≡ true) × (g.interface ≡ i)
  Rolled i (g, some e) = IsSafe M g × (M.client_routes_active g.net ≡ false) × IsOff g.interface

  pub rolled_back_lem :
      (g : VpnGateway M) (p : VpnGateway M × Option (ServiceError M))
      → Attempted g p
      → Rolled g.interface (rolled_back M env p)
  rolled_back_lem g (g', none) (on, s, e) = (s, on, e)
  rolled_back_lem g (g', some n) (off, s, e) = (
    move_interface g' (unbound M env g'.interface) off (unbound_flag g'.interface) s,
    off,
    unbound-IsOff g'.interface,
  )
