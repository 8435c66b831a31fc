-- ===== src/Tests/Firewalls.antt =====
-- A host with chains and switches for forwarding that does what it is asked to.
use awl.Base.{
  ℕ, ◌≡◌, refl, ap, ◌∙◌, subst, Bool, true, false, ◌&&◌, List, [], ◌∷◌, ◌++◌, Option, none, some,
  Text, codes, ◌==◌, trim_space, trim_left, is_space, if◌then◌else◌,
}
use awl.Vpn.Netstate.Nat.{
  Firewall, ChainId, Command, new_chain, clear_chain, delete_chain, append, insert,
  delete_if_exists, write_forward, exists, Content, content, unread, NatState, not_set, failed,
  done, setup_nat, teardown_nat,
}
use awl.Vpn.Netstate.Nat.Forwarding.{same_protocol, writes, IsSwitched}
use awl.Vpn.Netstate.Nat.Restore.{setup_nat_undone, teardown_nat-setup_nat}
use awl.Vpn.Netstate.Nat.Chain.{same_chain}

pub record Host : Type 0 where
  pub switch4 : Text
  pub switch6 : Text
  pub chains : ChainId → List (List Text)
  -- POSTROUTING takes no rules
  pub no_nat : Bool

abbrev pub switch : Host → Bool → Text
switch h false = h.switch4
switch h true = h.switch6

abbrev pub with_chain : Host → ChainId → List (List Text) → Host
with_chain h c args = record h { chains = λ d. if same_chain c d then args else h.chains d }

abbrev pub written : Host → Bool → Text → Host
written h false text = record h { switch4 = text }
written h true text = record h { switch6 = text }

abbrev pub append_unless : Bool → Host → ChainId → List Text → Host × Option ℕ
append_unless true h c args = (h, some 1)
append_unless false h c args = (with_chain h c (h.chains c ++ (args ∷ [])), none)

unfoldable pub exec : Host → Command → Host × Option ℕ
unfolding ◌==◌
exec h (new_chain c) = (with_chain h c [], none)
exec h (clear_chain c) = (with_chain h c [], none)
exec h (delete_chain c) = (with_chain h c [], none)
exec h (append c args) = append_unless (h.no_nat && c.table == codes "nat") h c args
exec h (insert c args) = (with_chain h c (args ∷ h.chains c), none)
exec h (delete_if_exists c args) = (h, none)
exec h (write_forward v text) = (written h v text, none)

abbrev pub firewall : Firewall
firewall = record {
  Os = Host;
  start = λ h v. none;
  exec = exec;
  chain_exists = λ h c. exists false;
  read_forward = λ h v. content (switch h v);
}

abbrev value : Host → Bool → Text
value h v = trim_space (switch h v)

abbrev of_content : Content → Text
of_content (content text) = text
of_content (unread e) = []

value-written :
    (h : Host) (w v : Bool) (text : Text)
    → same_protocol v w ≡ false
    → value (written h w text) v ≡ value h v
value-written h false true text n = refl
value-written h true false text n = refl
value-written h true true text n = absurd (let q : true ≡ false = n in cc q)
value-written h false false text n = absurd (let q : true ≡ false = n in cc q)

chain_value :
    (h : Host) (c : ChainId) (args : List (List Text)) (v : Bool)
    → value (with_chain h c args) v ≡ value h v
chain_value h c args false = refl
chain_value h c args true = refl

append_value :
    (b : Bool) (h : Host) (c : ChainId) (args : List Text) (v : Bool)
    → value (append_unless b h c args).0 v ≡ value h v
append_value true h c args v = refl
append_value false h c args v = chain_value h c (h.chains c ++ (args ∷ [])) v

exec_value :
    (h : Host) (c : Command) (v : Bool) → writes v c ≡ false → value (exec h c).0 v ≡ value h v
unfolding exec
exec_value h (new_chain c) v n = chain_value h c [] v
exec_value h (clear_chain c) v n = chain_value h c [] v
exec_value h (delete_chain c) v n = chain_value h c [] v
exec_value h (append c args) v n = append_value (h.no_nat && c.table == codes "nat") h c args v
exec_value h (insert c args) v n = chain_value h c (args ∷ h.chains c) v
exec_value h (delete_if_exists c args) v n = refl
exec_value h (write_forward w text) v n = value-written h w v text n

own_value : (h : Host) (v : Bool) (text : Text) → value (written h v text) v ≡ trim_space text
own_value h false text = refl
own_value h true text = refl

firewall-IsSwitched : IsSwitched firewall value
unfolding exec
firewall-IsSwitched = record {
  read-value = λ h v text e. subst (λ c. trim_space (of_content c) ≡ value h v) e refl;
  exec_other = λ h h' c a v e n. subst (λ p. value p.0 v ≡ value h v) e (exec_value h c v n);
  write_done = λ h h' v text t e. subst (λ p. value p.0 v ≡ text) e (own_value h v text ∙ t);
  write_failed = λ h h' v text n e. absurd (let q : none ≡ some n = ap (λ p. p.1) e in cc q);
  write_off = λ h v. refl;
}

abbrev Appended : Host → ChainId → List Text → Host × Option ℕ → Type 0
Appended h d args (h', some e) = Unit
Appended h d args (h', none) = h'.chains d ≡ h.chains d ++ (args ∷ [])

abbrev pub host : Bool → Host
host no_nat = record {
  switch4 = codes "0 ";
  switch6 = codes "1";
  chains = λ c. [];
  no_nat = no_nat;
}

abbrev subnet : Text
subnet = codes "10.66.0.0/24"

abbrev subnet6 : Text
subnet6 = codes "fd00::/64"

abbrev tun : Text
tun = codes "awl0"

-- without the table nat the setup fails at its last command, and is torn down
abbrev after_refusal : Host
after_refusal = (setup_nat firewall (host true) subnet subnet6 tun).0

refusal : setup_nat firewall (host true) subnet subnet6 tun ≡ (after_refusal, failed (not_set 1))
unfolding setup_nat exec trim_left is_space
refusal = refl

setup_nat_undone_example : value after_refusal false ≡ value (host true) false
setup_nat_undone_example =
    setup_nat_undone firewall value firewall-IsSwitched (host true) after_refusal subnet subnet6 tun
      (not_set 1) false refusal

abbrev serving : NatState
serving = record {
  awl_subnet = subnet;
  tun_if_name = tun;
  orig_ip_forward = codes "0";
  awl_subnet6 = subnet6;
  orig_ipv6_forward = codes "1";
  ip6tables_ok = true;
}

abbrev after_setup : Host
after_setup = (setup_nat firewall (host false) subnet subnet6 tun).0

setup : setup_nat firewall (host false) subnet subnet6 tun ≡ (after_setup, done serving)
unfolding setup_nat exec trim_left is_space
setup = refl

teardown_nat-setup_nat_example :
    value (teardown_nat firewall after_setup serving).0 false ≡ value (host false) false
teardown_nat-setup_nat_example =
    teardown_nat-setup_nat firewall value firewall-IsSwitched (host false) after_setup after_setup
      subnet subnet6 tun serving false setup refl
