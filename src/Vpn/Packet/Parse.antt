-- ===== src/Vpn/Packet/Parse.antt =====
-- Packet.Parse on every input.
use awl.Base.{
  ℕ, ◌*◌, ◌/◌, ◌%◌, ◌≤◌, ◌≡◌, refl, Bool, true, false, ◌&&◌, List, [], ◌∷◌, Option, some, arith,
  length, get_or, leb, eqb, if◌then◌else◌,
}
use awl.Base.Go.{ok, at-get_or, slice_in_range, Returns}
use awl.Vpn.Packet.{Packet, Window, set_addrs, parse, parse_ipv4, parse_ipv6, remember_ipv6_addrs}

-- The header of an IPv4 packet is complete, and no longer than the packet.
abbrev pub accepts_ipv4 : List ℕ → Bool
accepts_ipv4 body =
    let header_len = get_or body 0 0 % 16 * 4 in
    leb 20 (length body) && leb 20 header_len && leb header_len (length body)

abbrev pub accepts_ipv6 : List ℕ → Bool
accepts_ipv6 body = leb 40 (length body)

-- What an IP packet of either version has to be.
abbrev pub accepts : List ℕ → Bool
accepts body =
    let version = get_or body 0 0 / 16 in
    if eqb version 4 then accepts_ipv4 body else if eqb version 6 then accepts_ipv6 body else false

abbrev pub window : ℕ → ℕ → Option Window
window off len = some (record { off = off; len = len })

pub set_addrs-ipv4 :
    (p : Packet)
    → p.is_ipv6 ≡ false
    → 20 ≤ length p.body
    → set_addrs p ≡ ok (record p { src = window 12 4; dst = window 16 4 })
unfolding set_addrs
set_addrs-ipv4 p e h = rw e (
    rw (slice_in_range p.body 12 16 (omega arith) (omega arith))
      (rw (slice_in_range p.body 16 20 (omega arith) (omega arith))))

pub set_addrs-ipv6 :
    (p : Packet)
    → p.is_ipv6 ≡ true
    → 40 ≤ length p.body
    → set_addrs p ≡ ok (record p { src = window 8 16; dst = window 24 16 })
unfolding set_addrs
set_addrs-ipv6 p e h = rw e (
    rw (slice_in_range p.body 8 24 (omega arith) (omega arith))
      (rw (slice_in_range p.body 24 40 (omega arith) (omega arith))))

-- The addresses of an accepted packet are those of its own version, inside its header.
pub record HasAddrs (p : Packet) : Type 0 where
  pub version : p.is_ipv6 ≡ eqb (get_or p.body 0 0 / 16) 6
  pub src : p.src ≡ (if p.is_ipv6 then window 8 16 else window 12 4)
  pub dst : p.dst ≡ (if p.is_ipv6 then window 24 16 else window 16 4)

remember_keeps :
    (p : Packet)
    → ((remember_ipv6_addrs p).body ≡ p.body)
      × ((remember_ipv6_addrs p).src ≡ p.src)
      × ((remember_ipv6_addrs p).dst ≡ p.dst)
      × ((remember_ipv6_addrs p).is_ipv6 ≡ p.is_ipv6)
unfolding remember_ipv6_addrs
remember_keeps p = ground arith

get_or-nil : (bs : List ℕ) → length bs ≡ 0 → get_or bs 0 0 ≡ 0
get_or-nil [] h = refl
get_or-nil (b ∷ bs) h = absurd (omega arith)

-- What Parse returns of a packet: the verdict, with the body kept and the addresses set.
pub record Parsed (bytes : List ℕ) (r : Packet × Bool) : Type 0 where
  pub verdict : r.1 ≡ accepts bytes
  pub body : r.0.body ≡ bytes
  pub addrs : r.1 ≡ true → HasAddrs r.0

parse_ipv4_total :
    (p : Packet)
    → get_or p.body 0 0 / 16 ≡ 4
    → Returns (Parsed p.body) (parse_ipv4 p (get_or p.body 0 0))
parse_ipv4_total p v = ground (
  arith,
  at-get_or p.body 9,
  set_addrs-ipv4 (record p { ip_protocol = get_or p.body 9 0; is_ipv6 = false }) refl,
)

parse_ipv6_total :
    (p : Packet) → get_or p.body 0 0 / 16 ≡ 6 → Returns (Parsed p.body) (parse_ipv6 p)
parse_ipv6_total p v =
    let q : Packet = record p { is_ipv6 = true; src = window 8 16; dst = window 24 16 } in
    ground (
      arith,
      at-get_or (remember_ipv6_addrs q).body 6,
      set_addrs-ipv6 (record p { is_ipv6 = true }) refl,
      remember_keeps q,
    )

-- Parse does not panic on any packet. It accepts exactly an IPv4 packet whose own header length
-- is at least 20 and fits, and an IPv6 packet of at least 40 bytes; it leaves the bytes alone, and
-- an accepted packet has the version, and the source and destination windows, of its header.
pub parse_total : (p : Packet) → Returns (Parsed p.body) (parse p)
unfolding parse
parse_total p0 =
    let p = record p0 { original_valid = false } in
    ground (arith, get_or-nil p.body, at-get_or p.body 0, parse_ipv4_total p, parse_ipv6_total p)
