-- ===== src/Vpn/Netstate/Nat/Keep.antt =====
-- What the commands of a setup or a teardown of the NAT leave as it was: something seen of the
-- host that only the commands that `touches` names can change.
use awl.Base.{
  ℕ, ◌≡◌, refl, ◌∙◌, Bool, true, false, not, ◌&&◌, List, [], ◌∷◌, ◌++◌, Option, none, some, Text,
  arith,
}
use awl.Vpn.Netstate.Nat.{
  Firewall, awl_forward_chain, Command, Exists, exists, unknown, deletions, chain_removal,
  unless_failed, run, noted, run_all, cleaned_if, cleanup_stale_nat, remove_chain, started_teardown,
  teardown_iptables_rules, when,
}

-- No command of the list touches it.
unfoldable pub silent : (Command → Bool) → List Command → Bool
silent touches [] = true
silent touches (c ∷ cs) = not (touches c) && silent touches cs

module _ (F : Firewall) {A : Type 0} (seen : F.Os → A) (touches : Command → Bool)
    (keeps : (os os' : F.Os) (c : Command) (a : Option ℕ)
      → F.exec os c ≡ (os', a)
      → touches c ≡ false
      → seen os' ≡ seen os) where
  abbrev pub Kept : F.Os → F.Os → Type 0
  Kept os os' = seen os' ≡ seen os

  unless_failed-Kept :
      (os : F.Os) (c : Command) (rest : F.Os → F.Os × Option ℕ) (p : F.Os × Option ℕ)
      → F.exec os c ≡ p
      → touches c ≡ false
      → ((os' : F.Os) → Kept os' (rest os').0)
      → Kept os (unless_failed F rest p).0
  unless_failed-Kept os c rest (os', none) e h k = k os' ∙ keeps os os' c none e h
  unless_failed-Kept os c rest (os', some n) e h k = keeps os os' c (some n) e h

  pub run-Kept :
      (os : F.Os) (cs : List Command) → silent touches cs ≡ true → Kept os (run F os cs).0
  unfolding run silent
  run-Kept os [] h = refl
  run-Kept os (c ∷ cs) h =
      unless_failed-Kept os c (λ os'. run F os' cs) (F.exec os c) refl (ground arith)
        (λ os'. run-Kept os' cs (ground arith))

  noted-Kept :
      (os : F.Os) (errs : List ℕ) (c : Command) (p : F.Os × Option ℕ)
      → F.exec os c ≡ p
      → touches c ≡ false
      → Kept os (noted F errs p).0
  noted-Kept os errs c (os', none) e h = keeps os os' c none e h
  noted-Kept os errs c (os', some n) e h = keeps os os' c (some n) e h

  pub run_all-Kept :
      (s : F.Os × List ℕ) (cs : List Command)
      → silent touches cs ≡ true
      → Kept s.0 (run_all F s cs).0
  unfolding run_all silent
  run_all-Kept s [] h = refl
  run_all-Kept (os, errs) (c ∷ cs) h =
      run_all-Kept (noted F errs (F.exec os c)) cs (ground arith)
      ∙ noted-Kept os errs c (F.exec os c) refl (ground arith)

  pub when-Kept :
      (b : Bool) (f : F.Os × List ℕ → F.Os × List ℕ) (s : F.Os × List ℕ)
      → ((s' : F.Os × List ℕ) → Kept s'.0 (f s').0)
      → Kept s.0 (when F b f s).0
  when-Kept false f s h = refl
  when-Kept true f s h = h s

  -- The removals of a protocol touch nothing.
  abbrev pub IsQuiet : Bool → Type 0
  IsQuiet w =
      (tun subnet : Text) → silent touches (deletions w tun subnet ++ chain_removal w) ≡ true

  cleaned_if-Kept :
      (w : Bool) (subnet tun : Text) (os : F.Os) (x : Exists)
      → IsQuiet w
      → Kept os (cleaned_if F w subnet tun os x).0
  cleaned_if-Kept w subnet tun os (unknown e) q = refl
  cleaned_if-Kept w subnet tun os (exists false) q = refl
  cleaned_if-Kept w subnet tun os (exists true) q =
      run_all-Kept (os, []) (deletions w tun subnet ++ chain_removal w) (q tun subnet)

  pub cleanup-Kept :
      (os : F.Os) (w : Bool) (subnet tun : Text)
      → IsQuiet w
      → Kept os (cleanup_stale_nat F os w subnet tun).0
  unfolding cleanup_stale_nat
  cleanup-Kept os w subnet tun q =
      cleaned_if-Kept w subnet tun os (F.chain_exists os (awl_forward_chain w)) q

  -- and so do the two parts of a teardown
  deletions_quiet :
      (w : Bool) (tun subnet : Text) → IsQuiet w → silent touches (deletions w tun subnet) ≡ true
  unfolding silent
  deletions_quiet w tun subnet q = ground (arith, q tun subnet)

  chain_removal_quiet : (w : Bool) → IsQuiet w → silent touches (chain_removal w) ≡ true
  unfolding silent
  chain_removal_quiet w q = ground (arith, q [] [])

  remove_chain-Kept :
      (w : Bool) (s : F.Os × List ℕ) (x : Exists) → IsQuiet w → Kept s.0 (remove_chain F w s x).0
  remove_chain-Kept w (os, errs) (unknown e) q = refl
  remove_chain-Kept w s (exists false) q = refl
  remove_chain-Kept w s (exists true) q = run_all-Kept s (chain_removal w) (chain_removal_quiet w q)

  started_teardown-Kept :
      (w : Bool) (tun subnet : Text) (s : F.Os × List ℕ) (o : Option ℕ)
      → IsQuiet w
      → Kept s.0 (started_teardown F w tun subnet s o).0
  started_teardown-Kept w tun subnet (os, errs) (some e) q = refl
  started_teardown-Kept w tun subnet s none q =
      let s' = run_all F s (deletions w tun subnet) in
      remove_chain-Kept w s' (F.chain_exists s'.0 (awl_forward_chain w)) q
      ∙ run_all-Kept s (deletions w tun subnet) (deletions_quiet w tun subnet q)

  pub teardown_rules-Kept :
      (w : Bool) (tun subnet : Text) (s : F.Os × List ℕ)
      → IsQuiet w
      → Kept s.0 (teardown_iptables_rules F w tun subnet s).0
  unfolding teardown_iptables_rules
  teardown_rules-Kept w tun subnet s q = started_teardown-Kept w tun subnet s (F.start s.0 w) q
