-- ===== src/Vpn/Recalculate/Fields.antt =====
-- The checksum fields of an IPv4 packet, blanked and filled, against the receiver's check.
use awl.Base.{
  ℕ, zero, suc, ◌+◌, ◌-◌, ◌*◌, ◌%◌, ◌^◌, ◌≤◌, ◌<◌, ◌≡◌, refl, ap, ◌∙◌, List, [], ◌∷◌, arith, length,
  get_or, take, drop, copy_at, All-take, All-drop, All-copy_at, length-take, length-drop,
  length-copy_at, take-copy_at_inside, take-copy_at_before, drop-copy_at_inside, ◌≢◌,
  get_or-copy_at_before, get_or-copy_at_after, Bool-cases, inl, inr, ltb,
}
use awl.Base.Go.{ok, at-get_or}
use awl.Vpn.Bytes.{put_uint16}
use awl.Vpn.Packet.{Packet}
use awl.Vpn.Packet.Parse.{window}
use awl.Vpn.Checksum.{
  tcpip_checksum, checksum_ipv4_header, checksum_ipv4_tcpudp, add_ipv4, add32, add_length_ipv4,
}
use awl.Vpn.Checksum.Words.{IsBytes, word_at-copy_at}
use awl.Vpn.Checksum.Verify.{IsBlank, tcpip_checksum-filled, checksum_ipv4_header-filled}
use awl.Vpn.Recalculate.{zero_word}

abbrev pub IsByte : ℕ → Type 0
IsByte b = b < 256

-- A field of a byte string that holds a zero word is blank.
pub IsBlank-at :
    (i : ℕ) (bs : List ℕ)
    → IsBytes bs
    → length bs ≤ 65535
    → i % 2 ≡ 0
    → i + 2 ≤ length bs
    → IsBlank i (copy_at i bs zero_word)
IsBlank-at i bs h s e inside = record {
  bytes = All-copy_at IsByte i bs zero_word h (omega arith);
  short = omega (arith, length-copy_at i bs zero_word);
  even = e;
  inside = omega (arith, length-copy_at i bs zero_word);
  zero_field = word_at-copy_at i bs 0 0 e inside;
}

-- What Parse has established of an IPv4 packet of bytes.
pub record IsIpv4 (p : Packet) (header_len : ℕ) : Type 0 where
  pub bytes : IsBytes p.body
  pub short : length p.body ≤ 65535
  pub lower : 20 ≤ header_len
  pub upper : header_len ≤ length p.body
  pub words : header_len % 4 ≡ 0
  pub src : p.src ≡ window 12 4
  pub dst : p.dst ≡ window 16 4

module _ (body : List ℕ) (header_len : ℕ) where
  module _ (bytes : IsBytes body) (short : length body ≤ 65535) where
    -- the header with its checksum passes the check
    pub header_checks :
        20 ≤ header_len
        → header_len ≤ length body
        → let blank = copy_at 10 body zero_word in
          let c = checksum_ipv4_header (take header_len blank) in
          checksum_ipv4_header (take header_len (copy_at 10 blank (put_uint16 c))) ≡ 0
    header_checks lo hi =
        let blank = copy_at 10 body zero_word in
        let c = checksum_ipv4_header (take header_len blank) in
        let e = take-copy_at_inside header_len 10 body zero_word (omega arith) in
        rw (take-copy_at_inside header_len 10 blank (put_uint16 c) (omega arith)) (
          rw e (
            checksum_ipv4_header-filled 10 (copy_at 10 (take header_len body) zero_word) (
              IsBlank-at 10 (take header_len body) (All-take IsByte header_len body bytes)
                (omega (arith, length-take header_len body)) (omega arith)
                (omega (arith, length-take header_len body)))))

    -- so does the segment behind the header, over any pseudo-header sum
    pub segment_checks :
        (field base : ℕ)
        → header_len % 2 ≡ 0
        → field % 2 ≡ 0
        → header_len + field + 2 ≤ length body
        → base < 2 ^ 24
        → let blank = copy_at (header_len + field) body zero_word in
          let c = tcpip_checksum (drop header_len blank) base in
          tcpip_checksum (drop header_len (copy_at (header_len + field) blank (put_uint16 c))) base
          ≡ 0
    segment_checks field base he fe inside small =
        let blank = copy_at (header_len + field) body zero_word in
        let c = tcpip_checksum (drop header_len blank) base in
        let at_field = header_len + field in
        rw (drop-copy_at_inside header_len field at_field blank (put_uint16 c) refl) (
          rw (drop-copy_at_inside header_len field at_field body zero_word refl) (
            tcpip_checksum-filled field (copy_at field (drop header_len body) zero_word)
              (IsBlank-at field (drop header_len body) (All-drop IsByte header_len body bytes)
                (omega (arith, length-drop header_len body)) fe
                (omega (arith, length-drop header_len body)))
              base small))

-- bytes of a list, by position
pub get_or-lt : (bs : List ℕ) (i : ℕ) → IsBytes bs → get_or bs i 0 < 256
get_or-lt [] i h = omega arith
get_or-lt (b ∷ bs) zero h = h.0
get_or-lt (b ∷ bs) (suc i) h = get_or-lt bs i h.1

abbrev pub address_sum : List ℕ → ℕ → ℕ
address_sum ip c =
    add32 (add32 c ((get_or ip 0 0 + get_or ip 2 0) * 256)) (get_or ip 1 0 + get_or ip 3 0)

abbrev pub pseudo_header : List ℕ → List ℕ → ℕ → ℕ → ℕ
pseudo_header src dst len protocol =
    add_length_ipv4 len protocol (address_sum dst (address_sum src 0))

pub add_ipv4_lem : (ip : List ℕ) (c : ℕ) → length ip ≡ 4 → add_ipv4 ip c ≡ ok (address_sum ip c)
unfolding add_ipv4
add_ipv4_lem ip c h = rw (
  at-get_or ip 0 (omega arith),
  at-get_or ip 1 (omega arith),
  at-get_or ip 2 (omega arith),
  at-get_or ip 3 (omega arith),
)

module _ (src dst : List ℕ) (hs : length src ≡ 4) (hd : length dst ≡ 4) where
  pub checksum_ipv4_tcpudp_lem :
      (segment : List ℕ) (protocol : ℕ)
      → checksum_ipv4_tcpudp segment protocol src dst
        ≡ ok (tcpip_checksum segment (pseudo_header src dst (length segment) protocol))
  unfolding checksum_ipv4_tcpudp
  checksum_ipv4_tcpudp_lem segment protocol =
      rw (add_ipv4_lem src 0 hs) (rw (add_ipv4_lem dst (address_sum src 0) hd))

  pub pseudo_header-lt :
      (len protocol : ℕ)
      → IsBytes src
      → IsBytes dst
      → len ≤ 65535
      → protocol < 256
      → pseudo_header src dst len protocol < 2 ^ 24
  pseudo_header-lt len protocol bs bd hl hp = omega (
    arith,
    get_or-lt src 0 bs,
    get_or-lt src 1 bs,
    get_or-lt src 2 bs,
    get_or-lt src 3 bs,
    get_or-lt dst 0 bd,
    get_or-lt dst 1 bd,
    get_or-lt dst 2 bd,
    get_or-lt dst 3 bd,
  )

-- A write behind the addresses leaves a window as it is.
pub window_kept :
    (off i : ℕ) (body bytes : List ℕ)
    → off + 4 ≤ i
    → take 4 (drop off (copy_at i body bytes)) ≡ take 4 (drop off body)
window_kept off i body bytes h =
    rw (drop-copy_at_inside off (i - off) i body bytes (omega arith))
      (take-copy_at_before 4 (i - off) (drop off body) bytes (omega arith))

pub kept_twice :
    (off i : ℕ) (body first second : List ℕ)
    → off + 4 ≤ i
    → take 4 (drop off (copy_at i (copy_at i body first) second)) ≡ take 4 (drop off body)
kept_twice off i body first second h =
    window_kept off i (copy_at i body first) second h ∙ window_kept off i body first h

-- The receiver's check of a segment that was filled by fill_ipv4.
pub filled_checks :
    (body : List ℕ) (header_len protocol field : ℕ) (src dst : List ℕ)
    → IsBytes body
    → length body ≤ 65535
    → (hs : length src ≡ 4) → (hd : length dst ≡ 4) → IsBytes src
    → IsBytes dst
    → protocol < 256
    → header_len % 2 ≡ 0
    → field % 2 ≡ 0
    → header_len + field + 2 ≤ length body
    → let i = header_len + field in
      let blank = copy_at i body zero_word in
      let segment = drop header_len blank in
      let c = tcpip_checksum segment (pseudo_header src dst (length segment) protocol) in
      checksum_ipv4_tcpudp (drop header_len (copy_at i blank (put_uint16 c))) protocol src dst
      ≡ ok 0
filled_checks body header_len protocol field src dst bytes short hs hd bs bd hp he fe inside =
    let i = header_len + field in
    let blank = copy_at i body zero_word in
    let segment = drop header_len blank in
    let base = pseudo_header src dst (length segment) protocol in
    let c = tcpip_checksum segment base in
    let filled = copy_at i blank (put_uint16 c) in
    let n : length (drop header_len filled) ≡ length segment = omega (
      arith,
      length-drop header_len filled,
      length-drop header_len blank,
      length-copy_at i blank (put_uint16 c),
    ) in
    let small : base < 2 ^ 24 =
      pseudo_header-lt src dst hs hd (length segment) protocol bs bd
        (omega (arith, length-drop header_len blank, length-copy_at i body zero_word)) hp in
    rw (checksum_ipv4_tcpudp_lem src dst hs hd (drop header_len filled) protocol)
      (rw n (ap ok (segment_checks body header_len bytes short field base he fe inside small)))

-- The bytes at `i` and `i + 1` may have changed, and nothing else of the packet.
pub record IsSameBut (i : ℕ) (p q : Packet) : Type 0 where
  pub rest : q ≡ record p { body = q.body }
  pub len : length q.body ≡ length p.body
  pub others : (j : ℕ) → j ≢ i → j ≢ i + 1 → get_or q.body j 0 ≡ get_or p.body j 0

-- two bytes written over two bytes
pub IsSameBut-written :
    (i : ℕ) (p : Packet) (a b c d : ℕ)
    → IsSameBut i p (record p { body = copy_at i (copy_at i p.body (a ∷ b ∷ [])) (c ∷ d ∷ []) })
IsSameBut-written i p a b c d =
    let blank = copy_at i p.body (a ∷ b ∷ []) in
    record {
      rest = refl;
      len = length-copy_at i blank (c ∷ d ∷ []) ∙ length-copy_at i p.body (a ∷ b ∷ []);
      others = λ j n m. elim (Bool-cases (ltb j i)) [
        | inl y ↦
            get_or-copy_at_before j i blank (c ∷ d ∷ []) 0 (ground (arith, y))
            ∙ get_or-copy_at_before j i p.body (a ∷ b ∷ []) 0 (ground (arith, y))
        | inr z ↦
            let le : i + 2 ≤ j = ground (arith, z, n, m) in
            get_or-copy_at_after j i blank (c ∷ d ∷ []) 0 (omega (arith, le))
            ∙ get_or-copy_at_after j i p.body (a ∷ b ∷ []) 0 (omega (arith, le))
      ];
    }
