-- ===== src/Vpn/Netstate/Nat/Forwarding.antt =====
-- What the NAT of a gateway server does to the host's switches for IP forwarding.
use awl.Base.{ℕ, ◌≡◌, refl, Bool, true, false, not, List, Option, none, some, Text, trim_space}
use awl.Vpn.Netstate.Nat.Keep
use awl.Vpn.Netstate.Nat.{
  Firewall, Command, new_chain, clear_chain, delete_chain, append, insert, delete_if_exists,
  write_forward, content, setup_commands, off_text, run, run_all, cleanup_stale_nat,
  teardown_iptables_rules, when,
}

abbrev pub same_protocol : Bool → Bool → Bool
same_protocol true b = b
same_protocol false b = not b

-- The command writes the switch of the protocol.
abbrev pub writes : Bool → Command → Bool
writes v (write_forward w text) = same_protocol v w
writes v (new_chain c) = false
writes v (clear_chain c) = false
writes v (delete_chain c) = false
writes v (append c args) = false
writes v (insert c args) = false
writes v (delete_if_exists c args) = false

-- The switches, as a read without its white space shows them: only a write that succeeds changes
-- one, and a write of "0" does.
pub record IsSwitched (F : Firewall) (value : F.Os → Bool → Text) : Type 0 where
  pub read-value :
      (os : F.Os) (v : Bool) (text : Text)
      → F.read_forward os v ≡ content text
      → trim_space text ≡ value os v
  pub exec_other :
      (os os' : F.Os) (c : Command) (a : Option ℕ) (v : Bool)
      → F.exec os c ≡ (os', a)
      → writes v c ≡ false
      → value os' v ≡ value os v
  pub write_done :
      (os os' : F.Os) (v : Bool) (text : Text)
      → trim_space text ≡ text
      → F.exec os (write_forward v text) ≡ (os', none)
      → value os' v ≡ text
  pub write_failed :
      (os os' : F.Os) (v : Bool) (text : Text) (e : ℕ)
      → F.exec os (write_forward v text) ≡ (os', some e)
      → value os' v ≡ value os v
  pub write_off : (os : F.Os) (v : Bool) → (F.exec os (write_forward v off_text)).1 ≡ none

module _ (F : Firewall) (value : F.Os → Bool → Text) (L : IsSwitched F value) (v : Bool) where
  keeps :
      (os os' : F.Os) (c : Command) (a : Option ℕ)
      → F.exec os c ≡ (os', a)
      → writes v c ≡ false
      → value os' v ≡ value os v
  keeps os os' c a e h = L.exec_other os os' c a v e h

  quiet : (w : Bool) → Keep.IsQuiet F (λ os. value os v) (writes v) keeps w
  unfolding Keep.silent
  quiet w tun subnet = refl

  pub silent-setup_commands :
      (w : Bool) (tun subnet : Text) → Keep.silent (writes v) (setup_commands w tun subnet) ≡ true
  unfolding setup_commands Keep.silent
  silent-setup_commands false tun subnet = refl
  silent-setup_commands true tun subnet = refl

  pub run-Kept :
      (os : F.Os) (cs : List Command)
      → Keep.silent (writes v) cs ≡ true
      → value (run F os cs).0 v ≡ value os v
  run-Kept = Keep.run-Kept F (λ os. value os v) (writes v) keeps

  pub run_all-Kept :
      (s : F.Os × List ℕ) (cs : List Command)
      → Keep.silent (writes v) cs ≡ true
      → value (run_all F s cs).0 v ≡ value s.0 v
  run_all-Kept = Keep.run_all-Kept F (λ os. value os v) (writes v) keeps

  pub when-Kept :
      (b : Bool) (f : F.Os × List ℕ → F.Os × List ℕ) (s : F.Os × List ℕ)
      → ((s' : F.Os × List ℕ) → value (f s').0 v ≡ value s'.0 v)
      → value (when F b f s).0 v ≡ value s.0 v
  when-Kept = Keep.when-Kept F (λ os. value os v) (writes v) keeps

  pub cleanup-Kept :
      (os : F.Os) (w : Bool) (subnet tun : Text)
      → value (cleanup_stale_nat F os w subnet tun).0 v ≡ value os v
  cleanup-Kept os w subnet tun =
      Keep.cleanup-Kept F (λ x. value x v) (writes v) keeps os w subnet tun (quiet w)

  pub teardown_rules-Kept :
      (w : Bool) (tun subnet : Text) (s : F.Os × List ℕ)
      → value (teardown_iptables_rules F w tun subnet s).0 v ≡ value s.0 v
  teardown_rules-Kept w tun subnet s =
      Keep.teardown_rules-Kept F (λ x. value x v) (writes v) keeps w tun subnet s (quiet w)
