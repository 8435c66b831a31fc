-- ===== src/Vpn/Netstate/Nat/Isolation.antt =====
-- awl's chain after a setup of the NAT that succeeds: what its rules drop and accept, in which order.
use awl.Base.{
  ◌≡◌, Bool, true, false, ◌&&◌, ◌||◌, List, [], ◌∷◌, Option, none, some, Text, ◌==◌, if◌then◌else◌,
  codes,
}
use awl.Vpn.Netstate.Nat.Keep
use awl.Vpn.Netstate.Nat.Chain.{IsChained}
use awl.Vpn.Netstate.Nat.{
  Firewall, ChainId, awl_forward_chain, NatState, NatSetup, failed, done, chain_rules,
  conntrack_args, accept_args,
}

module _ (F : Firewall) (rules : F.Os → ChainId → List (List Text)) (L : IsChained F rules) where
  abbrev chain : F.Os → Bool → List (List Text)
  chain os w = rules os (awl_forward_chain w)

  record IsIsolated (os0 : F.Os) (p : F.Os × NatState) : Type 0 where
    v4 : chain p.0 false ≡ chain os0 false
    v6 : p.1.ip6tables_ok ≡ true → chain p.0 true ≡ chain_rules true

  -- what a setup leaves of the chains
  abbrev Leaves : F.Os × NatSetup → Type 0
  Leaves (os, failed e) = Unit
  Leaves (os, done st) =
      (chain os false ≡ chain_rules false)
      × (st.ip6tables_ok ≡ true → chain os true ≡ chain_rules true)

-- What iptables makes of a packet, by the first rule of the chain that matches: `established` if
-- it belongs to a connection, `within` if its destination is in a subnet.
pub data Verdict : Type 0 where
  accept drop no_rule : Verdict

abbrev equal_args : List Text → List Text → Bool
equal_args [] [] = true
equal_args [] (y ∷ ys) = false
equal_args (x ∷ xs) [] = false
equal_args (x ∷ xs) (y ∷ ys) = x == y && equal_args xs ys

-- the subnet of a rule that drops by destination
abbrev dropped : List Text → Option Text
dropped (d ∷ subnet ∷ j ∷ target ∷ []) =
    if d == codes "-d" && j == codes "-j" && target == codes "DROP" then some subnet else none
dropped args = none

abbrev drop_within : (Text → Bool) → Option Text → Option Verdict
drop_within within none = none
drop_within within (some subnet) = if within subnet then some drop else none

abbrev rule_verdict : Bool → (Text → Bool) → List Text → Option Verdict
rule_verdict established within args =
    if equal_args args conntrack_args
    then (if established then some accept else none)
    else if equal_args args accept_args
    then some accept
    else drop_within within (dropped args)

abbrev or_verdict : Option Verdict → Verdict → Verdict
or_verdict none v = v
or_verdict (some v) w = v

unfoldable pub decide : Bool → (Text → Bool) → List (List Text) → Verdict
unfolding ◌==◌
decide established within [] = no_rule
decide established within (args ∷ more) =
    or_verdict (rule_verdict established within args) (decide established within more)

unfoldable pub any_within : (Text → Bool) → List Text → Bool
any_within within [] = false
any_within within (s ∷ ss) = within s || any_within within ss

-- The state says that the protocol is set up; IPv4 always is.
abbrev pub covers : NatState → Bool → Bool
covers st false = true
covers st true = st.ip6tables_ok
