-- ===== src/Vpn/Netstate/NetManager.antt =====
-- The interface by which service/vpn_gateway.go changes the host network, and what it relies on.
use awl.Base.{◌≡◌, Bool, true, false, List, Option, none, some, Text}

pub record NetManager : Type 1 where
  pub State : Type 0
  pub Error : Type 0
  pub enable_client_routes : State → Text → List Text → State × Option Error
  pub disable_client_routes : State → State × Option Error
  pub client_routes_active : State → Bool
  pub enable_server_nat : State → Text → Text → Text → State × Option Error
  pub disable_server_nat : State → State × Option Error
  pub server_nat_active : State → Bool

-- Enabling works or changes nothing that is reported, disabling always counts as done, and the
-- client's routes and the server's NAT do not touch each other.
pub record IsNetManager (M : NetManager) : Type 0 where
  pub client_enabled :
      (s s' : M.State) (tun : Text) (bypass : List Text)
      → M.enable_client_routes s tun bypass ≡ (s', none)
      → M.client_routes_active s' ≡ true
  pub client_refused :
      (s s' : M.State) (tun : Text) (bypass : List Text) (e : M.Error)
      → M.enable_client_routes s tun bypass ≡ (s', some e)
      → M.client_routes_active s' ≡ false
  pub client_enable_nat :
      (s : M.State) (tun : Text) (bypass : List Text)
      → M.server_nat_active (M.enable_client_routes s tun bypass).0 ≡ M.server_nat_active s
  pub client_disabled : (s : M.State) → M.client_routes_active (M.disable_client_routes s).0 ≡ false
  pub client_disable_nat :
      (s : M.State) → M.server_nat_active (M.disable_client_routes s).0 ≡ M.server_nat_active s
  pub server_enabled :
      (s s' : M.State) (subnet subnet6 tun : Text)
      → M.enable_server_nat s subnet subnet6 tun ≡ (s', none)
      → M.server_nat_active s' ≡ true
  pub server_refused :
      (s s' : M.State) (subnet subnet6 tun : Text) (e : M.Error)
      → M.enable_server_nat s subnet subnet6 tun ≡ (s', some e)
      → M.server_nat_active s' ≡ false
  pub server_enable_routes :
      (s : M.State) (subnet subnet6 tun : Text)
      → M.client_routes_active (M.enable_server_nat s subnet subnet6 tun).0
        ≡ M.client_routes_active s
  pub server_disabled : (s : M.State) → M.server_nat_active (M.disable_server_nat s).0 ≡ false
  pub server_disable_routes :
      (s : M.State) → M.client_routes_active (M.disable_server_nat s).0 ≡ M.client_routes_active s
