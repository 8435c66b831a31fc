-- ===== src/Service/Tunnel/Rules.antt =====
-- The rules by which a packet of a peer is written to the device.
use awl.Base.{ℕ, ◌≡◌, refl, true, false, List, Option, none, some, arith, Bool-cases, inl, inr}
use awl.Vpn.Packet.{Packet, GatewayDir, none_dir, forward, return}
use awl.Service.Tunnel.Inbound.{
  Drop, no_local_ip, gateway_server_disabled, gateway_not_allowed, no_sender_ipv6,
  return_from_non_gateway, Verdict, dropped, rewritten, Inbound, with_src, with_both, by_dir,
  for_local, write_src, write_dst, local_ip, sender, rewrite_inbound,
}

-- What must hold for a packet to pass, and what is written over its addresses, by its direction.
pub data Passes (i : Inbound) (p : Packet) : Packet → Type 0 where
  forwarded :
      (ip local : List ℕ)
      → p.gateway_dir ≡ forward
      → i.server_enabled ≡ true
      → i.allow_gateway ≡ true
      → local_ip i p ≡ some local
      → sender i p ≡ some ip
      → Passes i p (write_src p ip)
  returned :
      (local : List ℕ)
      → p.gateway_dir ≡ return
      → i.is_our_gateway ≡ true
      → local_ip i p ≡ some local
      → Passes i p (write_dst p local)
  peer_to_peer :
      (ip local : List ℕ)
      → p.gateway_dir ≡ none_dir
      → local_ip i p ≡ some local
      → sender i p ≡ some ip
      → Passes i p (write_dst (write_src p ip) local)

-- why a packet is dropped
abbrev pub Because : Inbound → Packet → Drop → Type 0
Because i p no_local_ip = local_ip i p ≡ none
Because i p gateway_server_disabled = (p.gateway_dir ≡ forward) × (i.server_enabled ≡ false)
Because i p gateway_not_allowed = (p.gateway_dir ≡ forward) × (i.allow_gateway ≡ false)
Because i p no_sender_ipv6 = (p.is_ipv6 ≡ true) × (i.sender_ipv6 ≡ none)
Because i p return_from_non_gateway = (p.gateway_dir ≡ return) × (i.is_our_gateway ≡ false)

abbrev pub Judged : Inbound → Packet → Verdict → Type 0
Judged i p (rewritten q) = Passes i p q
Judged i p (dropped d) = Because i p d

no_sender :
    (i : Inbound) (p : Packet) → sender i p ≡ none → (p.is_ipv6 ≡ true) × (i.sender_ipv6 ≡ none)
no_sender i p h = elim (Bool-cases p.is_ipv6) [
  | inl e ↦ (e, ground (arith, h, e))
  | inr e ↦ absurd (ground (arith, h, e))
]

with_src_lem :
    (i : Inbound) (p : Packet) (local : List ℕ) (o : Option (List ℕ))
    → p.gateway_dir ≡ forward
    → i.server_enabled ≡ true
    → i.allow_gateway ≡ true
    → local_ip i p ≡ some local
    → sender i p ≡ o
    → Judged i p (with_src p o)
with_src_lem i p local none f s a l e = no_sender i p e
with_src_lem i p local (some ip) f s a l e = forwarded ip local f s a l e

with_both_lem :
    (i : Inbound) (p : Packet) (local : List ℕ) (o : Option (List ℕ))
    → p.gateway_dir ≡ none_dir
    → local_ip i p ≡ some local
    → sender i p ≡ o
    → Judged i p (with_both p local o)
with_both_lem i p local none f l e = no_sender i p e
with_both_lem i p local (some ip) f l e = peer_to_peer ip local f l e

by_dir_lem :
    (i : Inbound) (p : Packet) (local : List ℕ) (d : GatewayDir)
    → p.gateway_dir ≡ d
    → local_ip i p ≡ some local
    → Judged i p (by_dir i p local d)
by_dir_lem i p local none_dir f l = with_both_lem i p local (sender i p) f l refl
by_dir_lem i p local return f l = elim (Bool-cases i.is_our_gateway) [
  | inl e ↦ simp e (returned local f e l)
  | inr e ↦ simp e (f, refl)
]
by_dir_lem i p local forward f l = elim (Bool-cases i.server_enabled) [
  | inr e ↦ simp e (f, refl)
  | inl e ↦ elim (Bool-cases i.allow_gateway) [
    | inr a ↦ simp (e, a) (f, refl)
    | inl a ↦ simp (e, a) (with_src_lem i p local (sender i p) f e a l refl)
  ]
]

for_local_lem :
    (i : Inbound) (p : Packet) (o : Option (List ℕ))
    → local_ip i p ≡ o
    → Judged i p (for_local i p o)
for_local_lem i p none l = l
for_local_lem i p (some local) l = by_dir_lem i p local p.gateway_dir refl l

-- A packet of a peer is rewritten only as its direction allows: a forwarded one, by a gateway
-- server from a permitted peer, has its source replaced by the sender's IP; a returned one, from
-- our own gateway, has its destination replaced by the local IP; any other has both replaced. A
-- packet that is dropped is dropped for the reason that is counted.
pub rewrite_inbound_lem : (i : Inbound) (p : Packet) → Judged i p (rewrite_inbound i p)
unfolding rewrite_inbound
rewrite_inbound_lem i p = for_local_lem i p (local_ip i p) refl
