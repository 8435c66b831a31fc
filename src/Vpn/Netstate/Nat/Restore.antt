-- ===== src/Vpn/Netstate/Nat/Restore.antt =====
-- The switches for forwarding, over a setup that fails and over one that is torn down.
use awl.Base.{
  ℕ, ◌≡◌, refl, sym, ◌∙◌, subst, Bool, true, false, [], Option, none, some, Text, ◌==◌, eq_iff,
  trim_space, Bool-cases, inl, inr, is_empty, arith,
}
use awl.Vpn.Netstate.Nat.{
  Firewall, Content, content, unread, NatState, NatError, NatSetup, failed, done, setup_commands,
  off_text, run, cleanup_stale_nat, teardown_iptables_rules, teardown_nat, restored, set_v6,
  cleaned_v6, started_v6, enabled_v6, enable_if_off, read_v6, setup_nat_v6, finished, set_v4,
  enabled_v4, read_v4, cleaned_v4, started_v4, new_state, setup_nat,
}
use awl.Vpn.Netstate.Nat.Forwarding.{
  IsSwitched, run-Kept, silent-setup_commands, cleanup-Kept, teardown_rules-Kept,
}
use awl.Vpn.Netstate.Nat.Switches.{
  restores, teardown_value, IsEnabled, IsEnabled-when, restored_lem, restored_other,
}

module _ (F : Firewall) (value : F.Os → Bool → Text) (L : IsSwitched F value) where
  -- What is known of the switches while a state is built, since they were as in `os0`.
  record IsRestorable (os0 : F.Os) (p : F.Os × NatState) : Type 0 where
    kept : (v : Bool) → restores p.1 v ≡ false → value p.0 v ≡ value os0 v
    was_off : (v : Bool) → restores p.1 v ≡ true → value os0 v ≡ off_text

  by_protocol : (P : Bool → Type 0) → P false → P true → (v : Bool) → P v
  by_protocol P p q false = p
  by_protocol P p q true = q

  -- the IPv6 part is given up
  given_up :
      (os0 os : F.Os) (st : NatState)
      → st.ip6tables_ok ≡ false
      → (restores st false ≡ false → value os false ≡ value os0 false)
      → (restores st false ≡ true → value os0 false ≡ off_text)
      → value os true ≡ value os0 true
      → IsRestorable os0 (os, st)
  given_up os0 os st n k w six = record {
    kept = by_protocol (λ v. restores st v ≡ false → value os v ≡ value os0 v) k (λ _. six);
    was_off =
        by_protocol (λ v. restores st v ≡ true → value os0 v ≡ off_text) w
          (λ y. absurd (ground (arith, y, n)));
  }

  -- the same with the IPv6 part to come: its switch has been read, and enabled if it was off
  record IsPending (os0 os : F.Os) (st : NatState) : Type 0 where
    unset : st.ip6tables_ok ≡ false
    kept4 : restores st false ≡ false → value os false ≡ value os0 false
    off4 : restores st false ≡ true → value os0 false ≡ off_text

  record IsRead (os0 os : F.Os) (st : NatState) : Type 0 where
    pending : IsPending os0 os st
    read6 : st.orig_ipv6_forward ≡ value os0 true
    kept6 : (st.orig_ipv6_forward == off_text) ≡ false → value os true ≡ value os0 true

  IsPending-moves :
      (os0 os os' : F.Os) (st : NatState)
      → value os' false ≡ value os false
      → IsPending os0 os st
      → IsPending os0 os' st
  IsPending-moves os0 os os' st e h = record {
    unset = h.unset;
    kept4 = λ k. e ∙ h.kept4 k;
    off4 = h.off4;
  }

  IsRead-moves :
      (os0 os os' : F.Os) (st : NatState)
      → ((v : Bool) → value os' v ≡ value os v)
      → IsRead os0 os st
      → IsRead os0 os' st
  IsRead-moves os0 os os' st e h = record {
    pending = IsPending-moves os0 os os' st (e false) h.pending;
    read6 = h.read6;
    kept6 = λ k. e true ∙ h.kept6 k;
  }

  restored_Restorable :
      (os0 os : F.Os) (st : NatState) → IsRead os0 os st → IsRestorable os0 (restored F os st)
  restored_Restorable os0 os st h =
      given_up os0 (restored F os st).0 st h.pending.unset
        (λ k. restored_other F value L os st ∙ h.pending.kept4 k) h.pending.off4
        (restored_lem F value L os0 os st h.read6 h.kept6)

  set_v6_lem :
      (os0 : F.Os) (st : NatState) (p : F.Os × Option ℕ)
      → IsRead os0 p.0 st
      → IsRestorable os0 (set_v6 F st p)
  set_v6_lem os0 st (os, some e) h =
      let down = (teardown_iptables_rules F true st.tun_if_name st.awl_subnet6 (os, [])).0 in
      restored_Restorable os0 down st (
        IsRead-moves os0 os down st
          (λ v. teardown_rules-Kept F value L v true st.tun_if_name st.awl_subnet6 (os, [])) h)
  set_v6_lem os0 st (os, none) h = record {
    kept =
        by_protocol
          (λ v. restores (record st { ip6tables_ok = true }) v ≡ false → value os v ≡ value os0 v)
          h.pending.kept4 h.kept6;
    was_off =
        by_protocol
          (λ v. restores (record st { ip6tables_ok = true }) v ≡ true → value os0 v ≡ off_text)
          h.pending.off4 (λ y. sym h.read6 ∙ (eq_iff st.orig_ipv6_forward off_text).0 y);
  }

  cleaned_v6_lem :
      (os0 : F.Os) (st : NatState) (p : F.Os × Option ℕ)
      → IsRead os0 p.0 st
      → IsRestorable os0 (cleaned_v6 F st p)
  cleaned_v6_lem os0 st (os, some e) h = restored_Restorable os0 os st h
  cleaned_v6_lem os0 st (os, none) h =
      let p = run F os (setup_commands true st.tun_if_name st.awl_subnet6) in
      set_v6_lem os0 st p (
        IsRead-moves os0 os p.0 st
          (λ v.
            run-Kept F value L v os (setup_commands true st.tun_if_name st.awl_subnet6)
              (silent-setup_commands F value L v true st.tun_if_name st.awl_subnet6))
          h)

  started_v6_lem :
      (os0 os : F.Os) (st : NatState) (o : Option ℕ)
      → IsRead os0 os st
      → IsRestorable os0 (started_v6 F os st o)
  started_v6_lem os0 os st (some e) h = restored_Restorable os0 os st h
  started_v6_lem os0 os st none h =
      let p = cleanup_stale_nat F os true st.awl_subnet6 st.tun_if_name in
      cleaned_v6_lem os0 st p (
        IsRead-moves os0 os p.0 st
          (λ v. cleanup-Kept F value L v os true st.awl_subnet6 st.tun_if_name) h)

  enabled_v6_lem :
      (os0 os : F.Os) (st : NatState) (p : F.Os × Option ℕ)
      → IsPending os0 os st
      → st.orig_ipv6_forward ≡ value os0 true
      → value os true ≡ value os0 true
      → IsEnabled F value L os true (st.orig_ipv6_forward == off_text) p
      → IsRestorable os0 (enabled_v6 F st p)
  enabled_v6_lem os0 os st (os', some e) h read same n =
      given_up os0 os' st h.unset (λ k. n.other false refl ∙ h.kept4 k) h.off4
        (n.refused e refl ∙ same)
  enabled_v6_lem os0 os st (os', none) h read same n =
      started_v6_lem os0 os' st (F.start os' true) (record {
        pending = IsPending-moves os0 os os' st (n.other false refl) h;
        read6 = read;
        kept6 = λ k. n.was_on k ∙ same;
      })

  read_v6_lem :
      (os0 os : F.Os) (st : NatState) (c : Content)
      → F.read_forward os true ≡ c
      → IsPending os0 os st
      → value os true ≡ value os0 true
      → IsRestorable os0 (read_v6 F os st c)
  read_v6_lem os0 os st (unread e) q h same = given_up os0 os st h.unset h.kept4 h.off4 same
  read_v6_lem os0 os st (content text) q h same =
      enabled_v6_lem os0 os (record st { orig_ipv6_forward = trim_space text })
        (enable_if_off F os true (trim_space text))
        (record { unset = h.unset; kept4 = h.kept4; off4 = h.off4 })
        (L.read-value os true text q ∙ same) same
        (IsEnabled-when F value L os true (trim_space text == off_text))

  -- what a setup leaves of the switches
  abbrev Leaves : F.Os → F.Os × NatSetup → Type 0
  Leaves os0 (os, failed e) = (v : Bool) → value os v ≡ value os0 v
  Leaves os0 (os, done st) = IsRestorable os0 (os, st)

  finished_lem : (os0 : F.Os) (p : F.Os × NatState) → IsRestorable os0 p → Leaves os0 (finished F p)
  finished_lem os0 (os, st) h = h

  undone :
      (os0 os : F.Os) (st : NatState)
      → IsRestorable os0 (os, st)
      → (v : Bool) → value (teardown_nat F os st).0 v ≡ value os0 v
  undone os0 os st h v = teardown_value F value L os st v ∙ elim (Bool-cases (restores st v)) [
    | inl y ↦ rw y (sym (h.was_off v y))
    | inr n ↦ rw n (h.kept v n)
  ]

  set_v4_lem :
      (os0 : F.Os) (st : NatState) (p : F.Os × Option ℕ)
      → IsPending os0 p.0 st
      → value p.0 true ≡ value os0 true
      → Leaves os0 (set_v4 F st p)
  unfolding setup_nat_v6
  set_v4_lem os0 st (os, some e) h same =
      undone os0 os st (given_up os0 os st h.unset h.kept4 h.off4 same)
  set_v4_lem os0 st (os, none) h same = elim (Bool-cases (is_empty st.awl_subnet6)) [
    | inl y ↦ rw y (given_up os0 os st h.unset h.kept4 h.off4 same)
    | inr n ↦ rw n (
        finished_lem os0 (setup_nat_v6 F os st)
          (read_v6_lem os0 os st (F.read_forward os true) refl h same))
  ]

  enabled_v4_lem :
      (os0 os : F.Os) (st : NatState) (p : F.Os × Option ℕ)
      → st.ip6tables_ok ≡ false
      → st.orig_ip_forward ≡ value os0 false
      → ((v : Bool) → value os v ≡ value os0 v)
      → IsEnabled F value L os false (st.orig_ip_forward == off_text) p
      → Leaves os0 (enabled_v4 F st p)
  enabled_v4_lem os0 os st (os', some e) u read same n =
      by_protocol (λ v. value os' v ≡ value os0 v) (n.refused e refl ∙ same false)
        (n.other true refl ∙ same true)
  enabled_v4_lem os0 os st (os', none) u read same n =
      let cs = setup_commands false st.tun_if_name st.awl_subnet in
      let ran : (v : Bool) → value (run F os' cs).0 v ≡ value os' v = λ v.
        run-Kept F value L v os' cs
          (silent-setup_commands F value L v false st.tun_if_name st.awl_subnet) in
      set_v4_lem os0 st (run F os' cs)
        (record {
          unset = u;
          kept4 = λ k. ran false ∙ n.was_on k ∙ same false;
          off4 = λ y. sym read ∙ (eq_iff st.orig_ip_forward off_text).0 y;
        })
        (ran true ∙ n.other true refl ∙ same true)

  read_v4_lem :
      (os0 os : F.Os) (st : NatState) (c : Content)
      → F.read_forward os false ≡ c
      → st.ip6tables_ok ≡ false
      → ((v : Bool) → value os v ≡ value os0 v)
      → Leaves os0 (read_v4 F os st c)
  read_v4_lem os0 os st (unread e) q u same = same
  read_v4_lem os0 os st (content text) q u same =
      enabled_v4_lem os0 os (record st { orig_ip_forward = trim_space text })
        (enable_if_off F os false (trim_space text)) u (L.read-value os false text q ∙ same false)
        same (IsEnabled-when F value L os false (trim_space text == off_text))

  cleaned_v4_lem :
      (os0 : F.Os) (st : NatState) (p : F.Os × Option ℕ)
      → st.ip6tables_ok ≡ false
      → ((v : Bool) → value p.0 v ≡ value os0 v)
      → Leaves os0 (cleaned_v4 F st p)
  cleaned_v4_lem os0 st (os, some e) u same = same
  cleaned_v4_lem os0 st (os, none) u same =
      read_v4_lem os0 os st (F.read_forward os false) refl u same

  started_v4_lem :
      (os : F.Os) (st : NatState) (o : Option ℕ)
      → st.ip6tables_ok ≡ false
      → Leaves os (started_v4 F os st o)
  started_v4_lem os st (some e) u = λ v. refl
  started_v4_lem os st none u =
      cleaned_v4_lem os st (cleanup_stale_nat F os false st.awl_subnet st.tun_if_name) u
        (λ v. cleanup-Kept F value L v os false st.awl_subnet st.tun_if_name)

  setup_nat_lem :
      (os : F.Os) (subnet subnet6 tun : Text) → Leaves os (setup_nat F os subnet subnet6 tun)
  unfolding setup_nat
  setup_nat_lem os subnet subnet6 tun =
      started_v4_lem os (new_state subnet subnet6 tun) (F.start os false) refl

-- Under the conditions on the switches, a setup of the NAT that fails, at whichever step, leaves
-- the IPv4 and the IPv6 switch for forwarding as they were.
pub setup_nat_undone :
    (F : Firewall) (value : F.Os → Bool → Text)
    → IsSwitched F value
    → (os os' : F.Os) (subnet subnet6 tun : Text) (e : NatError) (v : Bool)
    → setup_nat F os subnet subnet6 tun ≡ (os', failed e)
    → value os' v ≡ value os v
setup_nat_undone F value L os os' subnet subnet6 tun e v q =
    subst (Leaves F value L os) q (setup_nat_lem F value L os subnet subnet6 tun) v

-- Under the conditions on the switches, a setup of the NAT that succeeds and a teardown, with
-- anything in between that leaves the switches alone, restore the value of both of them.
pub teardown_nat-setup_nat :
    (F : Firewall) (value : F.Os → Bool → Text)
    → IsSwitched F value
    → (os os1 os2 : F.Os) (subnet subnet6 tun : Text) (st : NatState) (v : Bool)
    → setup_nat F os subnet subnet6 tun ≡ (os1, done st)
    → value os2 v ≡ value os1 v
    → value (teardown_nat F os2 st).0 v ≡ value os v
teardown_nat-setup_nat F value L os os1 os2 subnet subnet6 tun st v q same =
    let h = subst (Leaves F value L os) q (setup_nat_lem F value L os subnet subnet6 tun) in
    teardown_value F value L os2 st v ∙ elim (Bool-cases (restores st v)) [
      | inl y ↦ rw y (sym (h.was_off v y))
      | inr n ↦ rw n (same ∙ h.kept v n)
    ]
