-- ===== src/Service/AuthStatus/Choose.antt =====
-- The alias and the address of a peer that AddPeer adds.
use awl.Base.{
  arith, ℕ, ◌+◌, ◌^◌, ◌≤◌, ◌≡◌, ◌≢◌, refl, ap, false, [], ◌∷◌, Option, none, some, All, Text, Map,
  lookup, values, is_empty, Bool-cases, inl, inr, length, ◌==◌, subst,
}
use awl.Base.Go.{Go, Returns}
use awl.Config.Types.{Config, KnownPeer}
use awl.Config.Peers.{is_uniq_peer_alias, is_uniq_alias, gen_uniq_peer_alias, aliases}
use awl.Config.Peers.Alias.{gen_uniq_alias_total, contains-lookup, is_uniq_alias_iff}
use awl.Config.Ipv4.{ipv4_text}
use awl.Config.Address.{
  IpAddr, v4, v6, Parser, IpError, check_ip_unique, generate_next_ip, generate_in, check_parsed,
}
use awl.Config.Address.Search.{next_free_total}
use awl.Config.Address.Unique.{highest}
use awl.Service.AuthStatus.{
  Env, AddPeerParams, resolve_alias, Chosen, given, refused, verdict, choose_address,
}
use awl.Service.AuthStatus.Settle.{is_empty-eq}

All-lookup {ℓ κ} :
    {V : Type ℓ} (P : V → Type κ) (m : Map V) (k : Text) (v : V)
    → All P (values m)
    → lookup k m ≡ some v
    → P v
unfolding lookup
All-lookup P [] k v h e = cc
All-lookup P ((j, w) ∷ m) k v h e = elim (Bool-cases (j == k)) [
  | inl t ↦ let same : some w ≡ some v = (rw t at e) in let equal : w ≡ v = cc in subst P equal h.0
  | inr t ↦ All-lookup P m k v h.1 (rw t at e)
]

-- No known peer with an ID has the alias.
abbrev pub FreshAlias : Map KnownPeer → Text → Type 0
FreshAlias m alias =
    (id : Text) (kp : KnownPeer) → lookup id m ≡ some kp → kp.peer_id ≢ [] → kp.alias ≢ alias

abbrev pub Resolved : Config → AddPeerParams → Option Text → Type 0
Resolved c params none = params.uniquify_alias ≡ false
Resolved c params (some a) = FreshAlias c.known_peers a

pub resolve_alias_lem :
    (c : Config) (params : AddPeerParams) (alias : Text)
    → length (aliases (values c.known_peers)) + 1 ≤ 10 ^ 20
    → Returns (Resolved c params) (resolve_alias c params alias)
unfolding is_uniq_peer_alias gen_uniq_peer_alias
resolve_alias_lem c params alias h =
    let kps = values c.known_peers in
    elim (Bool-cases params.uniquify_alias) [
      | inl e ↦
          let (a, found, free, _) = gen_uniq_alias_total params.name alias (aliases kps) h in
          rw (e, found) (λ id kp at _. contains-lookup a c.known_peers id kp free at)
      | inr e ↦ elim (Bool-cases (is_uniq_alias [] alias kps)) [
        | inl u ↦
            rw (e, u)
              (λ id kp at named.
                All-lookup (λ k. k.peer_id ≢ [] → k.alias ≢ alias) c.known_peers id kp
                  ((is_uniq_alias_iff [] alias kps).0 u) at named)
        | inr u ↦ rw (e, u) refl
      ]
    ]

-- where the address of a new peer comes from
pub data Picked (env : Env) (c : Config) (params : AddPeerParams) (ip : Text) : Type 0 where
  generated :
      (n : ℕ)
      → params.ip_addr ≡ []
      → generate_next_ip env.parse c [] ≡ Go.ok (some n)
      → ip ≡ ipv4_text n
      → Picked env c params ip
  checked :
      ip ≡ params.ip_addr
      → check_ip_unique env.parse c params.ip_addr params.peer_id ≡ Go.ok none
      → Picked env c params ip

abbrev pub PickedOr : Env → Config → AddPeerParams → Chosen → Type 0
PickedOr env c params (given ip) = Picked env c params ip
PickedOr env c params (refused e) = is_empty params.ip_addr ≡ false

generate_lem :
    (parse : Parser) (c : Config) (o : Option (ℕ × ℕ))
    → o ≢ none
    → (n : ℕ) × (generate_in parse c [] o ≡ Go.ok (some n))
generate_lem parse c none h = absurd (h refl)
generate_lem parse c (some (local, prefix_len)) h =
    let (n, e, _) =
      next_free_total c local prefix_len [] (highest parse c local prefix_len) (omega arith) in
    (n, ap (λ o. Go.ok o) e)

verdict_lem :
    (env : Env) (c : Config) (params : AddPeerParams) (e : Option IpError)
    → is_empty params.ip_addr ≡ false
    → check_ip_unique env.parse c params.ip_addr params.peer_id ≡ Go.ok e
    → PickedOr env c params (verdict params.ip_addr e)
verdict_lem env c params none h k = checked refl k
verdict_lem env c params (some e) h k = h

check_parsed_lem :
    (c : Config) (check except : Text) (o : Option IpAddr)
    → ((n : ℕ) → o ≢ some (v6 n))
    → (e : Option IpError) × (check_parsed c check except o ≡ Go.ok e)
check_parsed_lem c check except none h = (_, refl)
check_parsed_lem c check except (some (v6 n)) h = absurd (h n refl)
check_parsed_lem c check except (some (v4 n)) h = (_, refl)

pub choose_address_lem :
    (env : Env) (c : Config) (params : AddPeerParams)
    → c.ip_net ≢ none
    → ((n : ℕ) → env.parse params.ip_addr ≢ some (v6 n))
    → Returns (PickedOr env c params) (choose_address env c params)
unfolding check_ip_unique generate_next_ip
choose_address_lem env c params hn hv = elim (Bool-cases (is_empty params.ip_addr)) [
  | inl e ↦
      let (n, g) = generate_lem env.parse c c.ip_net hn in
      rw (e, g) (generated n (is_empty-eq params.ip_addr e) g refl)
  | inr e ↦
      let (r, k) = check_parsed_lem c params.ip_addr params.peer_id (env.parse params.ip_addr) hv in
      rw (e, k) (verdict_lem env c params r e k)
]
