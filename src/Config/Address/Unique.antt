-- ===== src/Config/Address/Unique.antt =====
-- An address that is generated for a new peer, against the check of addresses.
use awl.Base.{
  ℕ, ◌+◌, ◌^◌, ◌≤◌, ◌<◌, ◌≡◌, refl, ap, ◌∙◌, true, false, List, [], ◌∷◌, Option, none, some, arith,
  Text, values, length, ◌==◌, eq_iff, eqb, eqb_iff, if◌then◌else◌, Bool-cases, inl, inr,
}
use awl.Base.Go.{ok}
use awl.Config.Types.{Config, KnownPeer}
use awl.Config.Ipv4.{ipv4_text}
use awl.Config.Address.{
  IpAddr, v4, v6, Parser, broadcast, contains, not_in_subnet, equals_dns, find_user, check_in,
  check_parsed, check_ip_unique, generate_in, raised, max_used, generate_next_ip,
}
use awl.Config.Address.Search.{taken, IsFirst, next_free_total}

raised-le :
    (local prefix_len max_ip : ℕ) (o : Option IpAddr) → max_ip ≤ raised local prefix_len max_ip o
raised-le local prefix_len max_ip none = omega arith
raised-le local prefix_len max_ip (some (v6 ip)) = omega arith
raised-le local prefix_len max_ip (some (v4 ip)) = ground arith

raised-v4 :
    (local prefix_len max_ip ip : ℕ)
    → contains local prefix_len ip ≡ true
    → ip ≤ raised local prefix_len max_ip (some (v4 ip))
raised-v4 local prefix_len max_ip ip h = ground arith

-- The loop never lowers the highest address.
max_used-le :
    (parse : Parser) (local prefix_len : ℕ) (kps : List KnownPeer) (max_ip : ℕ)
    → max_ip ≤ max_used parse local prefix_len kps max_ip
unfolding max_used
max_used-le parse local prefix_len [] max_ip = omega arith
max_used-le parse local prefix_len (kp ∷ kps) max_ip =
    let next = raised local prefix_len max_ip (parse kp.ip_addr) in
    omega (
      arith,
      max_used-le parse local prefix_len kps next,
      raised-le local prefix_len max_ip (parse kp.ip_addr),
    )

-- An address of the subnet above the highest one is no peer's.
find_user-above :
    (parse : Parser) (local prefix_len : ℕ) (kps : List KnownPeer) (max_ip ip : ℕ)
    (text except : Text)
    → parse text ≡ some (v4 ip)
    → contains local prefix_len ip ≡ true
    → max_used parse local prefix_len kps max_ip < ip
    → find_user kps text except ≡ none
unfolding max_used find_user
find_user-above parse local prefix_len [] max_ip ip text except p i h = refl
find_user-above parse local prefix_len (kp ∷ kps) max_ip ip text except p i h =
    let next = raised local prefix_len max_ip (parse kp.ip_addr) in
    let rest : find_user kps text except ≡ none =
      find_user-above parse local prefix_len kps next ip text except p i h in
    elim (Bool-cases (kp.ip_addr == text)) [
      | inr e ↦ rw e rest
      | inl e ↦
          let q : parse kp.ip_addr ≡ some (v4 ip) = ap parse ((eq_iff kp.ip_addr text).0 e) ∙ p in
          let low : ip ≤ next = (rw q (raised-v4 local prefix_len max_ip ip i)) in
          absurd (omega (arith, low, h, max_used-le parse local prefix_len kps next))
    ]

abbrev pub highest : Parser → Config → ℕ → ℕ → ℕ
highest parse c local prefix_len = max_used parse local prefix_len (values c.known_peers) local

-- The check accepts an address of the subnet that is free and above those in use.
accepted :
    (parse : Parser) (c : Config) (local prefix_len n : ℕ) (except : Text)
    → c.ip_net ≡ some (local, prefix_len)
    → parse (ipv4_text n) ≡ some (v4 n)
    → contains local prefix_len n ≡ true
    → highest parse c local prefix_len < n
    → taken c local prefix_len n ≡ false
    → check_ip_unique parse c (ipv4_text n) except ≡ ok none
unfolding check_ip_unique
accepted parse c local prefix_len n except hn p i above free =
    let kps = values c.known_peers in
    let not_own : eqb n local ≡ false =
      ground (arith, max_used-le parse local prefix_len kps local, eqb_iff n local) in
    let not_last : eqb n (broadcast local prefix_len) ≡ false = ground (arith, free) in
    let not_dns : equals_dns c.netstack_dns_ip n ≡ false = ground (arith, free) in
    let nobody =
      find_user-above parse local prefix_len kps local n (ipv4_text n) except p i above in
    ap (check_parsed c (ipv4_text n) except) p
    ∙ ap (λ o. ok (check_in c (ipv4_text n) except n o)) hn
    ∙ (rw i (rw not_own (rw not_last (rw not_dns (rw nobody refl)))))

accepted_or_outside :
    (parse : Parser) (c : Config) (local prefix_len n : ℕ) (except : Text)
    → c.ip_net ≡ some (local, prefix_len)
    → parse (ipv4_text n) ≡ some (v4 n)
    → highest parse c local prefix_len < n
    → taken c local prefix_len n ≡ false
    → check_ip_unique parse c (ipv4_text n) except
      ≡ ok (if contains local prefix_len n then none else some not_in_subnet)
unfolding check_ip_unique
accepted_or_outside parse c local prefix_len n except hn p above free =
    elim (Bool-cases (contains local prefix_len n)) [
      | inl i ↦ rw i (accepted parse c local prefix_len n except hn p i above free)
      | inr i ↦
          ap (check_parsed c (ipv4_text n) except) p
          ∙ ap (λ o. ok (check_in c (ipv4_text n) except n o)) hn
          ∙ (rw i refl)
    ]

-- With a local address, with a parser that reads back every printed address, and with room for as
-- many addresses as there are exclusions, and three more, above the highest of the subnet in use,
-- GenerateNextIpAddrExcept returns an address. It is above all that are in use, and the first above them
-- that is neither excluded, nor the broadcast address, nor that of DNS. The check of addresses
-- accepts it, whichever peer is excepted, if it lies in the subnet; if not, which no test
-- prevents, the check refuses it as not in the subnet.
pub generate_next_ip_unique :
    (parse : Parser)
    → ((n : ℕ) → n < 2 ^ 32 → parse (ipv4_text n) ≡ some (v4 n))
    → (c : Config) (local prefix_len : ℕ) (except : List Text) → c.ip_net ≡ some (local, prefix_len)
    → highest parse c local prefix_len + length except + 3 < 2 ^ 32
    → (n : ℕ) × (generate_next_ip parse c except ≡ ok (some n))
      × (highest parse c local prefix_len < n)
      × IsFirst c local prefix_len except (highest parse c local prefix_len) (length except + 3) n
      × ((peer : Text)
          → check_ip_unique parse c (ipv4_text n) peer
            ≡ ok (if contains local prefix_len n then none else some not_in_subnet))
unfolding generate_next_ip
generate_next_ip_unique parse reads c local prefix_len except hn h =
    let top = highest parse c local prefix_len in
    let (n, e, first) = next_free_total c local prefix_len except top (omega (arith, h)) in
    let is : n ≡ top + 1 + first.steps = omega (arith, first.is, first.near, h) in
    (
      n,
      ap (generate_in parse c except) hn ∙ ap (λ o. ok o) e,
      omega (arith, is),
      first,
      λ peer.
          accepted_or_outside parse c local prefix_len n peer hn
            (reads n (omega (arith, is, first.near, h))) (omega (arith, is))
            (ground (arith, first.free)),
    )
