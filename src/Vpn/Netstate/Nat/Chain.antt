-- ===== src/Vpn/Netstate/Nat/Chain.antt =====
-- The rules of awl's own chain after a setup of the NAT, and what they decide.
use awl.Base.{
  ℕ, ◌≡◌, refl, sym, ap, ◌∙◌, subst, Bool, true, false, ◌&&◌, List, [], ◌∷◌, ◌++◌, map, Option,
  none, some, Text, ◌==◌,
}
use awl.Vpn.Netstate.Nat.Keep
use awl.Vpn.Netstate.Nat.Forwarding.{same_protocol}
use awl.Vpn.Netstate.Nat.{
  Firewall, ChainId, Command, new_chain, clear_chain, delete_chain, append, insert,
  delete_if_exists, write_forward, unless_failed, run,
}

abbrev pub same_chain : ChainId → ChainId → Bool
same_chain c d = same_protocol c.v6 d.v6 && c.table == d.table && c.name == d.name

-- The command changes the rules of the chain.
abbrev pub changes : ChainId → Command → Bool
changes d (new_chain c) = same_chain c d
changes d (clear_chain c) = same_chain c d
changes d (delete_chain c) = same_chain c d
changes d (append c args) = same_chain c d
changes d (insert c args) = same_chain c d
changes d (delete_if_exists c args) = same_chain c d
changes d (write_forward v text) = false

-- The rules of the chains: a new chain is empty, a rule is appended at the end, and a command
-- changes no other chain than its own.
pub record IsChained (F : Firewall) (rules : F.Os → ChainId → List (List Text)) : Type 0 where
  pub exec_other :
      (os os' : F.Os) (c : Command) (a : Option ℕ) (d : ChainId)
      → F.exec os c ≡ (os', a)
      → changes d c ≡ false
      → rules os' d ≡ rules os d
  pub new_chain_done :
      (os os' : F.Os) (d : ChainId) → F.exec os (new_chain d) ≡ (os', none) → rules os' d ≡ []
  pub append_done :
      (os os' : F.Os) (d : ChainId) (args : List Text)
      → F.exec os (append d args) ≡ (os', none)
      → rules os' d ≡ rules os d ++ (args ∷ [])

append_assoc {ℓ} : {A : Type ℓ} (xs ys zs : List A) → (xs ++ ys) ++ zs ≡ xs ++ (ys ++ zs)
append_assoc [] ys zs = refl
append_assoc (x ∷ xs) ys zs = ap (λ l. x ∷ l) (append_assoc xs ys zs)

append_nil {ℓ} : {A : Type ℓ} (xs : List A) → xs ++ [] ≡ xs
append_nil [] = refl
append_nil (x ∷ xs) = ap (λ l. x ∷ l) (append_nil xs)

module _ (F : Firewall) (rules : F.Os → ChainId → List (List Text)) (L : IsChained F rules)
    (d : ChainId) where
  abbrev pub Ran : List (List Text) → F.Os × Option ℕ → Type 0
  Ran expected (os, some e) = Unit
  Ran expected (os, none) = rules os d ≡ expected

  pub keeps :
      (os os' : F.Os) (c : Command) (a : Option ℕ)
      → F.exec os c ≡ (os', a)
      → changes d c ≡ false
      → rules os' d ≡ rules os d
  keeps os os' c a e h = L.exec_other os os' c a d e h

  kept_Ran : (os : F.Os) (p : F.Os × Option ℕ) → rules p.0 d ≡ rules os d → Ran (rules os d) p
  kept_Ran os (os', some e) h = tt
  kept_Ran os (os', none) h = h

  appended_first :
      (os : F.Os) (args : List Text) (expected : List (List Text)) (rest : F.Os → F.Os × Option ℕ)
      (p : F.Os × Option ℕ)
      → F.exec os (append d args) ≡ p
      → ((os' : F.Os) → rules os' d ≡ rules os d ++ (args ∷ []) → Ran expected (rest os'))
      → Ran expected (unless_failed F rest p)
  appended_first os args expected rest (os', some e) q k = tt
  appended_first os args expected rest (os', none) q k = k os' (L.append_done os os' d args q)

  -- rules that are appended, and commands on other chains
  appended :
      (os : F.Os) (added : List (List Text)) (rest : List Command)
      → Keep.silent (changes d) rest ≡ true
      → Ran (rules os d ++ added) (run F os (map (append d) added ++ rest))
  unfolding run
  appended os [] rest h =
      subst (λ l. Ran l (run F os rest)) (sym (append_nil (rules os d)))
        (kept_Ran os (run F os rest) (Keep.run-Kept F (λ x. rules x d) (changes d) keeps os rest h))
  appended os (args ∷ added) rest h =
      appended_first os args (rules os d ++ (args ∷ added))
        (λ os'. run F os' (map (append d) added ++ rest)) (F.exec os (append d args)) refl
        (λ os' e.
          subst (λ l. Ran l (run F os' (map (append d) added ++ rest)))
            (ap (λ l. l ++ added) e ∙ append_assoc (rules os d) (args ∷ []) added)
            (appended os' added rest h))

  new_first :
      (os : F.Os) (expected : List (List Text)) (rest : F.Os → F.Os × Option ℕ)
      (p : F.Os × Option ℕ)
      → F.exec os (new_chain d) ≡ p
      → ((os' : F.Os) → rules os' d ≡ [] → Ran expected (rest os'))
      → Ran expected (unless_failed F rest p)
  new_first os expected rest (os', some e) q k = tt
  new_first os expected rest (os', none) q k = k os' (L.new_chain_done os os' d q)

  pub built :
      (os : F.Os) (added : List (List Text)) (rest : List Command)
      → Keep.silent (changes d) rest ≡ true
      → Ran added (run F os (new_chain d ∷ (map (append d) added ++ rest)))
  unfolding run
  built os added rest h =
      new_first os added (λ os'. run F os' (map (append d) added ++ rest)) (F.exec os (new_chain d))
        refl
        (λ os' e.
          subst (λ l. Ran l (run F os' (map (append d) added ++ rest))) (ap (λ l. l ++ added) e)
            (appended os' added rest h))
