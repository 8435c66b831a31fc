-- ===== src/Vpn/Netstate/Nat/Switches.antt =====
-- The switches for forwarding over one write and over a teardown.
use awl.Base.{
  ℕ, ◌≡◌, refl, sym, ap, ◌∙◌, Bool, true, false, ◌&&◌, List, [], ◌∷◌, Option, none, some, Text,
  ◌==◌, eq_iff, trim_space, Bool-cases, inl, inr, arith, if◌then◌else◌,
}
use awl.Vpn.Netstate.Nat.{
  Firewall, write_forward, NatState, on_text, off_text, noted, run_all, teardown_iptables_rules,
  when, teardown_nat, restored,
}
use awl.Vpn.Netstate.Nat.Keep.{silent}
use awl.Vpn.Netstate.Nat.Forwarding.{
  same_protocol, IsSwitched, run_all-Kept, teardown_rules-Kept, when-Kept,
}

-- the teardown of a state writes the switch
abbrev pub restores : NatState → Bool → Bool
restores st false = st.orig_ip_forward == off_text
restores st true = st.ip6tables_ok && st.orig_ipv6_forward == off_text

module _ (F : Firewall) (value : F.Os → Bool → Text) (L : IsSwitched F value) where
  abbrev pub write_off_all : Bool → F.Os × List ℕ → F.Os × List ℕ
  write_off_all w s = run_all F s (write_forward w off_text ∷ [])

  off_noted :
      (os : F.Os) (errs : List ℕ) (w : Bool) (p : F.Os × Option ℕ)
      → F.exec os (write_forward w off_text) ≡ p
      → value (noted F errs p).0 w ≡ off_text
  unfolding trim_space
  off_noted os errs w (os', none) e = L.write_done os os' w off_text refl e
  off_noted os errs w (os', some n) e =
      absurd (let q : some n ≡ none = sym (ap (λ p. p.1) e) ∙ L.write_off os w in cc q)

  pub off_written : (w : Bool) (s : F.Os × List ℕ) → value (write_off_all w s).0 w ≡ off_text
  unfolding run_all
  off_written w (os, errs) = off_noted os errs w (F.exec os (write_forward w off_text)) refl

  pub other_written :
      (w v : Bool) (s : F.Os × List ℕ)
      → same_protocol v w ≡ false
      → value (write_off_all w s).0 v ≡ value s.0 v
  unfolding silent
  other_written w v s h = run_all-Kept F value L v s (write_forward w off_text ∷ []) (ground arith)

  pub off_when :
      (b w : Bool) (s : F.Os × List ℕ)
      → value (when F b (write_off_all w) s).0 w ≡ (if b then off_text else value s.0 w)
  off_when false w s = refl
  off_when true w s = off_written w s

  abbrev tables_down : F.Os → NatState → F.Os × List ℕ
  tables_down os st =
      when F st.ip6tables_ok (teardown_iptables_rules F true st.tun_if_name st.awl_subnet6)
        (teardown_iptables_rules F false st.tun_if_name st.awl_subnet (os, []))

  tables_down-Kept :
      (os : F.Os) (st : NatState) (v : Bool) → value (tables_down os st).0 v ≡ value os v
  tables_down-Kept os st v =
      when-Kept F value L v st.ip6tables_ok
        (teardown_iptables_rules F true st.tun_if_name st.awl_subnet6)
        (teardown_iptables_rules F false st.tun_if_name st.awl_subnet (os, []))
        (teardown_rules-Kept F value L v true st.tun_if_name st.awl_subnet6)
      ∙ teardown_rules-Kept F value L v false st.tun_if_name st.awl_subnet (os, [])

  pub teardown_value :
      (os : F.Os) (st : NatState) (v : Bool)
      → value (teardown_nat F os st).0 v ≡ (if restores st v then off_text else value os v)
  unfolding teardown_nat
  teardown_value os st false =
      let s3 = when F (st.orig_ip_forward == off_text) (write_off_all false) (tables_down os st) in
      when-Kept F value L false (st.ip6tables_ok && st.orig_ipv6_forward == off_text)
        (write_off_all true) s3 (λ s. other_written true false s refl)
      ∙ off_when (st.orig_ip_forward == off_text) false (tables_down os st)
      ∙ ap (λ x. if st.orig_ip_forward == off_text then off_text else x)
          (tables_down-Kept os st false)
  teardown_value os st true =
      let s3 = when F (st.orig_ip_forward == off_text) (write_off_all false) (tables_down os st) in
      off_when (st.ip6tables_ok && st.orig_ipv6_forward == off_text) true s3
      ∙ ap (λ x. if st.ip6tables_ok && st.orig_ipv6_forward == off_text then off_text else x)
          (when-Kept F value L true (st.orig_ip_forward == off_text) (write_off_all false)
              (tables_down os st) (λ s. other_written false true s refl)
            ∙ tables_down-Kept os st true)

  pub if_off :
      (orig x y : Text)
      → orig ≡ y
      → ((orig == off_text) ≡ false → x ≡ y)
      → (if orig == off_text then off_text else x) ≡ y
  if_off orig x y e k = elim (Bool-cases (orig == off_text)) [
    | inl on ↦ rw on (sym ((eq_iff orig off_text).0 on) ∙ e)
    | inr off ↦ rw off (k off)
  ]

  -- After enabling a switch that read as `orig`: the other one is as before, and this one is if
  -- it was not off, or if the write failed.
  pub record IsEnabled (os : F.Os) (w off : Bool) (p : F.Os × Option ℕ) : Type 0 where
    pub other : (v : Bool) → same_protocol v w ≡ false → value p.0 v ≡ value os v
    pub was_on : off ≡ false → value p.0 w ≡ value os w
    pub refused : (e : ℕ) → p.1 ≡ some e → value p.0 w ≡ value os w

  written_on :
      (os : F.Os) (w : Bool) (p : F.Os × Option ℕ)
      → F.exec os (write_forward w on_text) ≡ p
      → IsEnabled os w true p
  written_on os w (os', a) e = record {
    other = λ v h. L.exec_other os os' (write_forward w on_text) a v e h;
    was_on = λ h. cc h;
    refused = λ n h. L.write_failed os os' w on_text n (e ∙ ap (λ x. (os', x)) h);
  }

  pub IsEnabled-when :
      (os : F.Os) (w off : Bool)
      → IsEnabled os w off (if off then F.exec os (write_forward w on_text) else (os, none))
  IsEnabled-when os w false = record {
    other = λ v h. refl;
    was_on = λ h. refl;
    refused = λ e h. refl;
  }
  IsEnabled-when os w true = written_on os w (F.exec os (write_forward w on_text)) refl

  pub restored_lem :
      (os0 os : F.Os) (st : NatState)
      → st.orig_ipv6_forward ≡ value os0 true
      → ((st.orig_ipv6_forward == off_text) ≡ false → value os true ≡ value os0 true)
      → value (restored F os st).0 true ≡ value os0 true
  restored_lem os0 os st e k =
      off_when (st.orig_ipv6_forward == off_text) true (os, [])
      ∙ if_off st.orig_ipv6_forward (value os true) (value os0 true) e k

  pub restored_other :
      (os : F.Os) (st : NatState) → value (restored F os st).0 false ≡ value os false
  restored_other os st =
      when-Kept F value L false (st.orig_ipv6_forward == off_text) (write_off_all true) (os, [])
        (λ s. other_written true false s refl)
