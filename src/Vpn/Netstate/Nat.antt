-- ===== src/Vpn/Netstate/Nat.antt =====
-- vpn/netstate/nat_linux.go: the NAT of a gateway server. The iptables library and the files of
-- /proc/sys are an interface: one command at a time, with the code of its error if it fails. A
-- protocol is false for IPv4 and true for IPv6.
pub mod Keep
pub mod Forwarding
pub mod Switches
pub mod Restore
pub mod Chain
pub mod Isolation
use awl.Base.{
  ℕ, Bool, true, false, ◌&&◌, List, [], ◌∷◌, ◌++◌, map, Option, none, some, Text, codes, ◌==◌,
  is_empty, trim_space, if◌then◌else◌,
}

pub record ChainId : Type 0 where
  pub v6 : Bool
  pub table : Text
  pub name : Text

pub data Command : Type 0 where
  new_chain clear_chain delete_chain : ChainId → Command
  -- Insert is at position one
  append insert delete_if_exists : ChainId → List Text → Command
  write_forward : Bool → Text → Command

pub data Exists : Type 0 where
  exists : Bool → Exists
  unknown : ℕ → Exists

pub data Content : Type 0 where
  content : Text → Content
  unread : ℕ → Content

pub record Firewall : Type 1 where
  pub Os : Type 0
  -- iptables.New, or NewWithProtocol for IPv6: its error
  pub start : Os → Bool → Option ℕ
  pub exec : Os → Command → Os × Option ℕ
  pub chain_exists : Os → ChainId → Exists
  pub read_forward : Os → Bool → Content

pub record NatState : Type 0 where
  pub awl_subnet : Text
  pub tun_if_name : Text
  pub orig_ip_forward : Text
  pub awl_subnet6 : Text
  pub orig_ipv6_forward : Text
  pub ip6tables_ok : Bool

pub data NatError : Type 0 where
  no_iptables not_cleaned not_read not_enabled not_set : ℕ → NatError

pub data NatSetup : Type 0 where
  failed : NatError → NatSetup
  done : NatState → NatSetup

abbrev pub new_state : Text → Text → Text → NatState
new_state subnet subnet6 tun = record {
  awl_subnet = subnet;
  tun_if_name = tun;
  orig_ip_forward = [];
  awl_subnet6 = subnet6;
  orig_ipv6_forward = [];
  ip6tables_ok = false;
}

abbrev pub awl_forward_chain : Bool → ChainId
awl_forward_chain false = record { v6 = false; table = codes "filter"; name = codes "AWL-FORWARD" }
awl_forward_chain true = record { v6 = true; table = codes "filter"; name = codes "AWL6-FORWARD" }

abbrev pub forward : Bool → ChainId
forward v6 = record { v6 = v6; table = codes "filter"; name = codes "FORWARD" }

abbrev pub postrouting : Bool → ChainId
postrouting v6 = record { v6 = v6; table = codes "nat"; name = codes "POSTROUTING" }

abbrev pub private_subnets : List Text
private_subnets =
    codes "10.0.0.0/8"
    ∷ codes "172.16.0.0/12"
    ∷ codes "192.168.0.0/16"
    ∷ codes "100.64.0.0/10"
    ∷ codes "169.254.0.0/16"
    ∷ []

abbrev pub private_subnets_v6 : List Text
private_subnets_v6 = codes "fc00::/7" ∷ codes "fe80::/10" ∷ []

abbrev pub private_of : Bool → List Text
private_of false = private_subnets
private_of true = private_subnets_v6

abbrev pub conntrack_args : List Text
conntrack_args =
    codes "-m"
    ∷ codes "conntrack"
    ∷ codes "--ctstate"
    ∷ codes "RELATED,ESTABLISHED"
    ∷ codes "-j"
    ∷ codes "ACCEPT"
    ∷ []

abbrev pub drop_args : Text → List Text
drop_args subnet = codes "-d" ∷ subnet ∷ codes "-j" ∷ codes "DROP" ∷ []

abbrev pub accept_args : List Text
accept_args = codes "-j" ∷ codes "ACCEPT" ∷ []

-- outboundJumpArgs and outboundJumpArgs6
abbrev pub outbound_jump_args : Bool → Text → Text → List Text
outbound_jump_args v6 tun subnet =
    codes "-i" ∷ tun ∷ codes "-s" ∷ subnet ∷ codes "-j" ∷ (awl_forward_chain v6).name ∷ []

abbrev pub return_jump_args : Bool → Text → Text → List Text
return_jump_args v6 tun subnet =
    codes "-o" ∷ tun ∷ codes "-d" ∷ subnet ∷ codes "-j" ∷ (awl_forward_chain v6).name ∷ []

abbrev pub masquerade_args : Text → Text → List Text
masquerade_args subnet tun =
    codes "-s" ∷ subnet ∷ codes "!" ∷ codes "-o" ∷ tun ∷ codes "-j" ∷ codes "MASQUERADE" ∷ []

abbrev pub chain_rules : Bool → List (List Text)
chain_rules v6 = conntrack_args ∷ (map drop_args (private_of v6) ++ (accept_args ∷ []))

-- what setupIptables runs, up to the first error; for IPv6 with the other chain and subnets
unfoldable pub setup_commands : Bool → Text → Text → List Command
setup_commands v6 tun subnet =
    new_chain (awl_forward_chain v6)
    ∷ (map (append (awl_forward_chain v6)) (chain_rules v6)
        ++ (insert (forward v6) (outbound_jump_args v6 tun subnet)
            ∷ insert (forward v6) (return_jump_args v6 tun subnet)
            ∷ append (postrouting v6) (masquerade_args subnet tun)
            ∷ []))

abbrev pub deletions : Bool → Text → Text → List Command
deletions v6 tun subnet =
    delete_if_exists (postrouting v6) (masquerade_args subnet tun)
    ∷ delete_if_exists (forward v6) (return_jump_args v6 tun subnet)
    ∷ delete_if_exists (forward v6) (outbound_jump_args v6 tun subnet)
    ∷ []

abbrev pub chain_removal : Bool → List Command
chain_removal v6 = clear_chain (awl_forward_chain v6) ∷ delete_chain (awl_forward_chain v6) ∷ []

-- setupIptables6
abbrev pub setup_commands6 : Text → Text → List Command
setup_commands6 tun subnet6 = setup_commands true tun subnet6

abbrev pub on_text : Text
on_text = codes "1"

abbrev pub off_text : Text
off_text = codes "0"

module _ (F : Firewall) where
  abbrev pub unless_failed : (F.Os → F.Os × Option ℕ) → F.Os × Option ℕ → F.Os × Option ℕ
  unless_failed rest (os, none) = rest os
  unless_failed rest (os, some e) = (os, some e)

  -- commands up to the first error
  unfoldable pub run : F.Os → List Command → F.Os × Option ℕ
  run os [] = (os, none)
  run os (c ∷ cs) = unless_failed (λ os'. run os' cs) (F.exec os c)

  abbrev pub noted : List ℕ → F.Os × Option ℕ → F.Os × List ℕ
  noted errs (os, none) = (os, errs)
  noted errs (os, some e) = (os, errs ++ (e ∷ []))

  -- commands whose errors are collected
  unfoldable pub run_all : F.Os × List ℕ → List Command → F.Os × List ℕ
  run_all s [] = s
  run_all (os, errs) (c ∷ cs) = run_all (noted errs (F.exec os c)) cs

  abbrev pub cleaned_if : Bool → Text → Text → F.Os → Exists → F.Os × Option ℕ
  cleaned_if v6 subnet tun os (unknown e) = (os, some e)
  cleaned_if v6 subnet tun os (exists false) = (os, none)
  cleaned_if v6 subnet tun os (exists true) =
      ((run_all (os, []) (deletions v6 tun subnet ++ chain_removal v6)).0, none)

  -- cleanupStaleNAT, for either protocol; whether it had something to clean is only logged
  unfoldable pub cleanup_stale_nat : F.Os → Bool → Text → Text → F.Os × Option ℕ
  unfolding run_all
  cleanup_stale_nat os v6 subnet tun =
      cleaned_if v6 subnet tun os (F.chain_exists os (awl_forward_chain v6))

  abbrev pub cleanup_stale_nat6 : F.Os → Text → Text → F.Os × Option ℕ
  cleanup_stale_nat6 os subnet6 tun = cleanup_stale_nat os true subnet6 tun

  abbrev pub remove_chain : Bool → F.Os × List ℕ → Exists → F.Os × List ℕ
  remove_chain v6 (os, errs) (unknown e) = (os, errs ++ (e ∷ []))
  remove_chain v6 s (exists false) = s
  remove_chain v6 s (exists true) = run_all s (chain_removal v6)

  abbrev pub started_teardown : Bool → Text → Text → F.Os × List ℕ → Option ℕ → F.Os × List ℕ
  started_teardown v6 tun subnet (os, errs) (some e) = (os, errs ++ (e ∷ []))
  started_teardown v6 tun subnet s none =
      let s' = run_all s (deletions v6 tun subnet) in
      remove_chain v6 s' (F.chain_exists s'.0 (awl_forward_chain v6))

  -- teardownIptablesRules, for either protocol
  unfoldable pub teardown_iptables_rules : Bool → Text → Text → F.Os × List ℕ → F.Os × List ℕ
  unfolding run_all
  teardown_iptables_rules v6 tun subnet s = started_teardown v6 tun subnet s (F.start s.0 v6)

  abbrev pub teardown_iptables_rules6 : Text → Text → F.Os × List ℕ → F.Os × List ℕ
  teardown_iptables_rules6 tun subnet6 s = teardown_iptables_rules true tun subnet6 s

  abbrev pub when : Bool → (F.Os × List ℕ → F.Os × List ℕ) → F.Os × List ℕ → F.Os × List ℕ
  when false f s = s
  when true f s = f s

  unfoldable pub teardown_nat : F.Os → NatState → F.Os × List ℕ
  unfolding run_all teardown_iptables_rules
  teardown_nat os st =
      let s1 = teardown_iptables_rules false st.tun_if_name st.awl_subnet (os, []) in
      let s2 = when st.ip6tables_ok (teardown_iptables_rules6 st.tun_if_name st.awl_subnet6) s1 in
      let s3 =
        when (st.orig_ip_forward == off_text) (λ s. run_all s (write_forward false off_text ∷ []))
          s2 in
      when (st.ip6tables_ok && st.orig_ipv6_forward == off_text)
        (λ s. run_all s (write_forward true off_text ∷ [])) s3

  -- restoreForwardingOnError
  abbrev pub restored : F.Os → NatState → F.Os × NatState
  restored os st = (
    (when (st.orig_ipv6_forward == off_text) (λ s. run_all s (write_forward true off_text ∷ []))
        (os, [])).0,
    st,
  )

  abbrev pub set_v6 : NatState → F.Os × Option ℕ → F.Os × NatState
  set_v6 st (os, some e) =
      restored (teardown_iptables_rules6 st.tun_if_name st.awl_subnet6 (os, [])).0 st
  set_v6 st (os, none) = (os, record st { ip6tables_ok = true })

  abbrev pub cleaned_v6 : NatState → F.Os × Option ℕ → F.Os × NatState
  cleaned_v6 st (os, some e) = restored os st
  cleaned_v6 st (os, none) = set_v6 st (run os (setup_commands6 st.tun_if_name st.awl_subnet6))

  abbrev pub started_v6 : F.Os → NatState → Option ℕ → F.Os × NatState
  started_v6 os st (some e) = restored os st
  started_v6 os st none = cleaned_v6 st (cleanup_stale_nat6 os st.awl_subnet6 st.tun_if_name)

  abbrev pub enabled_v6 : NatState → F.Os × Option ℕ → F.Os × NatState
  enabled_v6 st (os, some e) = (os, st)
  enabled_v6 st (os, none) = started_v6 os st (F.start os true)

  -- a switch that is only written if it is off
  abbrev pub enable_if_off : F.Os → Bool → Text → F.Os × Option ℕ
  enable_if_off os v6 orig =
      if orig == off_text then F.exec os (write_forward v6 on_text) else (os, none)

  abbrev pub read_v6 : F.Os → NatState → Content → F.Os × NatState
  read_v6 os st (unread e) = (os, st)
  read_v6 os st (content text) =
      enabled_v6 (record st { orig_ipv6_forward = trim_space text })
        (enable_if_off os true (trim_space text))

  -- setupNATv6: its error is only logged
  unfoldable pub setup_nat_v6 : F.Os → NatState → F.Os × NatState
  unfolding trim_space run run_all setup_commands cleanup_stale_nat teardown_iptables_rules
  setup_nat_v6 os st = read_v6 os st (F.read_forward os true)

  abbrev pub finished : F.Os × NatState → F.Os × NatSetup
  finished (os, st) = (os, done st)

  abbrev pub set_v4 : NatState → F.Os × Option ℕ → F.Os × NatSetup
  set_v4 st (os, some e) = ((teardown_nat os st).0, failed (not_set e))
  set_v4 st (os, none) = finished (if is_empty st.awl_subnet6 then (os, st) else setup_nat_v6 os st)

  abbrev pub enabled_v4 : NatState → F.Os × Option ℕ → F.Os × NatSetup
  enabled_v4 st (os, some e) = (os, failed (not_enabled e))
  enabled_v4 st (os, none) = set_v4 st (run os (setup_commands false st.tun_if_name st.awl_subnet))

  abbrev pub read_v4 : F.Os → NatState → Content → F.Os × NatSetup
  read_v4 os st (unread e) = (os, failed (not_read e))
  read_v4 os st (content text) =
      enabled_v4 (record st { orig_ip_forward = trim_space text })
        (enable_if_off os false (trim_space text))

  abbrev pub cleaned_v4 : NatState → F.Os × Option ℕ → F.Os × NatSetup
  cleaned_v4 st (os, some e) = (os, failed (not_cleaned e))
  cleaned_v4 st (os, none) = read_v4 os st (F.read_forward os false)

  abbrev pub started_v4 : F.Os → NatState → Option ℕ → F.Os × NatSetup
  started_v4 os st (some e) = (os, failed (no_iptables e))
  started_v4 os st none = cleaned_v4 st (cleanup_stale_nat os false st.awl_subnet st.tun_if_name)

  unfoldable pub setup_nat : F.Os → Text → Text → Text → F.Os × NatSetup
  unfolding trim_space run setup_commands cleanup_stale_nat teardown_nat setup_nat_v6
  setup_nat os subnet subnet6 tun = started_v4 os (new_state subnet subnet6 tun) (F.start os false)
