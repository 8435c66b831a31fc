-- ===== src/Config/Peers/Alias.antt =====
-- The search of genUniqPeerAlias for an alias.
use awl.Base.{
  ℕ, zero, suc, ◌+◌, ◌^◌, ◌≤◌, ◌<◌, ◌≡◌, ◌≢◌, ◌↔◌, refl, ◌∙◌, true, false, List, [], ◌∷◌, ◌++◌,
  none, some, arith, Text, Map, lookup, values, ◌==◌, eq_iff, codes, decimal, decimal_injective,
  append_cancel, length, All, if◌then◌else◌, Bool-cases, Option-cases, inl, inr,
}
use awl.Config.Types.{KnownPeer}
use awl.Config.Peers.{
  is_uniq_alias, contains, numbered, first_free, base_alias, gen_uniq_alias, aliases,
}

-- the set without one occurrence of `a`
erase : Text → List Text → List Text
erase a [] = []
erase a (b ∷ bs) = if b == a then bs else b ∷ erase a bs

length-erase :
    (a : Text) (bs : List Text) → contains a bs ≡ true → length (erase a bs) + 1 ≡ length bs
unfolding contains erase
length-erase a [] h = cc
length-erase a (b ∷ bs) h = ground (arith, length-erase a bs)

contains-erase : (a c : Text) (bs : List Text) → a ≢ c → contains c (erase a bs) ≡ contains c bs
unfolding contains erase
contains-erase a c [] h = refl
contains-erase a c (b ∷ bs) h = ground (arith, contains-erase a c bs, eq_iff b a, eq_iff b c)

numbered_injective :
    (alias : Text) (i j : ℕ)
    → i < 10 ^ 20
    → j < 10 ^ 20
    → numbered alias i ≡ numbered alias j
    → i ≡ j
numbered_injective alias i j hi hj e = decimal_injective i j hi hj (
    append_cancel (codes "_") (decimal i) (decimal j)
      (append_cancel alias (codes "_" ++ decimal i) (codes "_" ++ decimal j) e))

-- A candidate that is behind does not matter for those to come.
first_free-erase :
    (fuel : ℕ) (alias : Text) (taken : List Text) (i j : ℕ)
    → i < j
    → j + fuel ≤ 10 ^ 20
    → first_free fuel alias (erase (numbered alias i) taken) j ≡ first_free fuel alias taken j
unfolding first_free
first_free-erase zero alias taken i j h l = refl
first_free-erase (suc fuel) alias taken i j h l = cc (
  contains-erase (numbered alias i) (numbered alias j) taken
      (λ e. omega (arith, numbered_injective alias i j (omega arith) (omega arith) e)),
  first_free-erase fuel alias taken i (j + 1) (omega arith) (omega arith),
)

-- Each candidate that is taken uses up one element of the set.
first_free-none :
    (fuel : ℕ) (alias : Text) (taken : List Text) (i : ℕ)
    → i + fuel ≤ 10 ^ 20
    → first_free fuel alias taken i ≡ none
    → fuel ≤ length taken
first_free-none zero alias taken i l e = omega arith
first_free-none (suc fuel) alias taken i l e =
    let x = numbered alias i in
    let r = first_free-none fuel alias (erase x taken) (i + 1) (omega arith) in
    elim (Bool-cases (contains x taken)) [
      | inl t ↦ omega (
        arith,
        length-erase x taken t,
        r (
            first_free-erase fuel alias taken i (i + 1) (omega arith) (omega arith)
            ∙ (unfold first_free in ground arith)),
      )
      | inr t ↦ absurd (unfold first_free in ground arith)
    ]

first_free-contains :
    (fuel : ℕ) (alias : Text) (taken : List Text) (i : ℕ) (a : Text)
    → first_free fuel alias taken i ≡ some a
    → contains a taken ≡ false
unfolding first_free
first_free-contains zero alias taken i a e = cc
first_free-contains (suc fuel) alias taken i a e =
    ground (arith, first_free-contains fuel alias taken (i + 1) a)

-- For every name, alias and set of fewer than 10^20 - 1 taken aliases the search ends with an alias
-- that is not taken, which is the wanted one (the alias, else the name, else "peer") whenever that
-- one is free.
pub gen_uniq_alias_total :
    (name alias : Text) (taken : List Text)
    → length taken + 1 ≤ 10 ^ 20
    → (a : Text) × (gen_uniq_alias name alias taken ≡ some a)
      × (contains a taken ≡ false)
      × (contains (base_alias name alias) taken ≡ false → a ≡ base_alias name alias)
unfolding gen_uniq_alias
gen_uniq_alias_total name alias taken h =
    let base = base_alias name alias in
    elim (Bool-cases (contains base taken)) [
      | inr free ↦ (base, rw free, free, λ _. refl)
      | inl t ↦ elim (Option-cases (first_free (suc (length taken)) base taken 0)) [
        | inl e ↦
            absurd
              (omega (arith, first_free-none (suc (length taken)) base taken 0 (omega arith) e))
        | inr (a, e) ↦
            (a, rw (t, e), first_free-contains (suc (length taken)) base taken 0 a e, λ f. cc)
      ]
    ]

-- Peers and their aliases.
pub contains-lookup :
    (alias : Text) (m : Map KnownPeer) (id : Text) (kp : KnownPeer)
    → contains alias (aliases (values m)) ≡ false
    → lookup id m ≡ some kp
    → kp.alias ≢ alias
unfolding contains lookup
contains-lookup alias [] id kp h e = cc
contains-lookup alias ((j, v) ∷ m) id kp h e =
    ground (arith, contains-lookup alias m id kp, eq_iff v.alias alias)

-- IsUniqPeerAlias answers true exactly if no other peer than the excluded one has the alias.
pub is_uniq_alias_iff :
    (exclude alias : Text) (kps : List KnownPeer)
    → (is_uniq_alias exclude alias kps ≡ true)
      ↔ All (λ kp. kp.peer_id ≢ exclude → kp.alias ≢ alias) kps
unfolding is_uniq_alias
is_uniq_alias_iff exclude alias [] = ground arith
is_uniq_alias_iff exclude alias (kp ∷ kps) =
    let ih = is_uniq_alias_iff exclude alias kps in
    elim (Bool-cases (kp.peer_id == exclude)) [
      | inl e ↦
          rw e (λ h. (λ n. absurd (n ((eq_iff kp.peer_id exclude).0 e)), ih.0 h), λ h. ih.1 h.1)
      | inr e ↦
          let ne : kp.peer_id ≢ exclude = λ q. cc (e, (eq_iff kp.peer_id exclude).1 q) in
          rw e (elim (Bool-cases (kp.alias == alias)) [
            | inl a ↦ rw a (λ h. cc, λ h. absurd (h.0 ne ((eq_iff kp.alias alias).0 a)))
            | inr a ↦
                rw a (λ h. (λ _ q. cc (a, (eq_iff kp.alias alias).1 q), ih.0 h), λ h. ih.1 h.1)
          ])
    ]
