-- ===== src/Config/Ipv4.antt =====
-- net.IP's text of an IPv4 address, and the IPv4 half of net.ParseIP and netip.ParseAddr.
use awl.Base.{
  ℕ, ◌+◌, ◌-◌, ◌*◌, ◌/◌, ◌%◌, ◌^◌, ◌≤◌, ◌<◌, ◌≡◌, ap, ◌∙◌, not, ◌&&◌, [], ◌∷◌, ◌++◌, Option, none,
  some, arith, Text, ltb, leb, eqb, if◌then◌else◌,
}

-- the decimal digits of a byte
unfoldable pub octet_text : ℕ → Text
octet_text o =
    if ltb o 10
    then (48 + o) ∷ []
    else if ltb o 100
    then (48 + o / 10) ∷ (48 + o % 10) ∷ []
    else (48 + o / 100) ∷ (48 + o / 10 % 10) ∷ (48 + o % 10) ∷ []

abbrev dot : ℕ
dot = 46

unfoldable pub ipv4_text : ℕ → Text
ipv4_text n =
    octet_text (n / 2 ^ 24 % 256)
    ++ dot
      ∷ (octet_text (n / 2 ^ 16 % 256)
          ++ dot ∷ (octet_text (n / 2 ^ 8 % 256) ++ dot ∷ octet_text (n % 256)))

-- The parser's state: the fields that are closed, as one number with their count, and the open
-- field, none before its first digit.
unfoldable pub scan : Text → ℕ → ℕ → Option ℕ → Option ℕ
scan [] count acc none = none
scan [] count acc (some o) = if eqb count 3 then some (acc * 256 + o) else none
scan (r ∷ s) count acc none =
    let digit = scan s count acc (some (r - 48)) in if leb 48 r && leb r 57 then digit else none
scan (r ∷ s) count acc (some o) =
    let digit = scan s count acc (some (o * 10 + (r - 48))) in
    let next = scan s (count + 1) (acc * 256 + o) none in
    if eqb r dot
    then (if eqb count 3 then none else next)
    else if leb 48 r && leb r 57 && not (eqb o 0) && leb (o * 10 + (r - 48)) 255
    then digit
    else none

unfoldable pub parse_ipv4 : Text → Option ℕ
unfolding scan
parse_ipv4 s = scan s 0 0 none

scan-octet_text :
    (o : ℕ) (s : Text) (count acc : ℕ)
    → o < 256
    → count ≤ 2
    → scan (octet_text o ++ dot ∷ s) count acc none ≡ scan s (count + 1) (acc * 256 + o) none
unfolding scan octet_text
scan-octet_text o s count acc h k = ground arith

scan_last : (o acc : ℕ) → o < 256 → scan (octet_text o) 3 acc none ≡ some (acc * 256 + o)
unfolding scan octet_text
scan_last o acc h = ground arith

value : (m n : ℕ) → m ≡ n → some m ≡ some n
value m n e = ap some e

-- Every IPv4 address reads back from its text.
pub parse_ipv4-ipv4_text : (n : ℕ) → n < 2 ^ 32 → parse_ipv4 (ipv4_text n) ≡ some n
unfolding parse_ipv4 ipv4_text
parse_ipv4-ipv4_text n h =
    let a : ℕ = n / 2 ^ 24 % 256 in
    let b : ℕ = n / 2 ^ 16 % 256 in
    let c : ℕ = n / 2 ^ 8 % 256 in
    let d : ℕ = n % 256 in
    let rest = octet_text c ++ dot ∷ octet_text d in
    scan-octet_text a (octet_text b ++ dot ∷ rest) 0 0 (omega arith) (omega arith)
    ∙ scan-octet_text b rest 1 (0 * 256 + a) (omega arith) (omega arith)
    ∙ scan-octet_text c (octet_text d) 2 ((0 * 256 + a) * 256 + b) (omega arith) (omega arith)
    ∙ scan_last d (((0 * 256 + a) * 256 + b) * 256 + c) (omega arith)
    ∙ value (((((0 * 256 + a) * 256 + b) * 256 + c) * 256) + d) n (omega arith)
