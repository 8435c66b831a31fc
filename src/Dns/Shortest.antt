-- ===== src/Dns/Shortest.antt =====
-- The name that an IP resolves back to.
use awl.Base.{
  ◌≤◌, ◌≡◌, ◌≢◌, refl, sym, ap, ◌∙◌, subst, ◌⊎◌, inl, inr, true, false, [], ◌∷◌, Option, none, some,
  Text, Map, lookup, insert, lookup-insert, ◌==◌, eq_iff, ltb, ltb→lt, Bool-cases, arith,
}
use awl.Dns.{byte_length, local_name, with_name, reverse_names, receive_configuration}

-- The mapping has for each IP one of its names, and the shortest, in bytes.
pub record IsReverse (m : Map Text) (IsName : Text → Text → Type 0) : Type 0 where
  pub named : (ip n : Text) → lookup ip m ≡ some n → IsName ip n
  pub least :
      (ip n other : Text)
      → lookup ip m ≡ some n
      → IsName ip other
      → byte_length n ≤ byte_length other
  pub found : (ip n : Text) → IsName ip n → lookup ip m ≢ none

some_injective : {x y : Text} → some x ≡ some y → x ≡ y
some_injective e = cc

not_none : {o : Option Text} {x : Text} → o ≡ some x → o ≢ none
not_none e n = let q : some _ ≡ none = sym e ∙ n in cc q

abbrev Or : (Text → Text → Type 0) → (Text → Text → Type 0) → Text → Text → Type 0
Or P Q ip n = P ip n ⊎ Q ip n

abbrev One : Text → Text → Text → Text → Type 0
One ip name j n = (ip ≡ j) × (name ≡ n)

IsReverse-weaken :
    {m : Map Text} {P Q : Text → Text → Type 0}
    → ((ip n : Text) → P ip n → Q ip n)
    → ((ip n : Text) → Q ip n → P ip n)
    → IsReverse m P
    → IsReverse m Q
IsReverse-weaken f g h = record {
  named = λ ip n e. f ip n (h.named ip n e);
  least = λ ip n other e q. h.least ip n other e (g ip other q);
  found = λ ip n q. h.found ip n (g ip n q);
}

module _ (m : Map Text) (P : Text → Text → Type 0) (h : IsReverse m P) (ip name : Text) where
  at : (j : Text) → ip ≡ j → lookup j (insert ip name m) ≡ some name
  at j e = lookup-insert ip j name m ∙ (let y : (ip == j) ≡ true = (eq_iff ip j).1 e in rw y refl)

  away : (j : Text) → ip ≢ j → lookup j (insert ip name m) ≡ lookup j m
  away j n =
      lookup-insert ip j name m
      ∙ elim (Bool-cases (ip == j)) [ inl y ↦ absurd (n ((eq_iff ip j).0 y)) | inr z ↦ rw z refl ]

  split : (j : Text) → (ip ≡ j) ⊎ (ip ≢ j)
  split j = elim (Bool-cases (ip == j)) [
    | inl y ↦ inl ((eq_iff ip j).0 y)
    | inr z ↦ inr (λ e. let q : true ≡ false = sym ((eq_iff ip j).1 e) ∙ z in cc q)
  ]

  -- the name is stored, being shorter than any other so far
  stored :
      ((other : Text) → P ip other → byte_length name ≤ byte_length other)
      → IsReverse (insert ip name m) (Or P (One ip name))
  stored best = record {
    named = λ j n e. elim (split j) [
      | inl s ↦ inr (s, some_injective (sym (at j s) ∙ e))
      | inr d ↦ inl (h.named j n (sym (away j d) ∙ e))
    ];
    least = λ j n other e q. elim (split j) [
      | inl s ↦
          let same : name ≡ n = some_injective (sym (at j s) ∙ e) in
          subst (λ x. byte_length x ≤ byte_length other) same
            (elim q [
              | inl p ↦ best other (subst (λ x. P x other) (sym s) p)
              | inr o ↦ subst (λ x. byte_length name ≤ byte_length x) o.1 (omega arith)
            ])
      | inr d ↦ elim q [ inl p ↦ h.least j n other (sym (away j d) ∙ e) p | inr o ↦ absurd (d o.0) ]
    ];
    found = λ j n q. elim (split j) [
      | inl s ↦ not_none (at j s)
      | inr d ↦ elim q [ inl p ↦ λ e. h.found j n p (sym (away j d) ∙ e) | inr o ↦ absurd (d o.0) ]
    ];
  }

  -- the name is passed over, being no shorter than the one that is there
  passed_over :
      (existed : Text)
      → lookup ip m ≡ some existed
      → byte_length existed ≤ byte_length name
      → IsReverse m (Or P (One ip name))
  passed_over existed e le = record {
    named = λ j n q. inl (h.named j n q);
    least = λ j n other q r. elim r [
      | inl p ↦ h.least j n other q p
      | inr o ↦
          let same : existed ≡ n = some_injective (sym e ∙ ap (λ x. lookup x m) o.0 ∙ q) in
          subst (λ x. byte_length x ≤ byte_length other) same
            (subst (λ x. byte_length existed ≤ byte_length x) o.1 le)
    ];
    found = λ j n r. elim r [
      | inl p ↦ h.found j n p
      | inr o ↦ not_none (sym (ap (λ x. lookup x m) o.0) ∙ e)
    ];
  }

module _ (canonical_name : Text → Text) where
  with_name_lem :
      (m : Map Text) (P : Text → Text → Type 0) (ip name : Text) (o : Option Text)
      → lookup ip m ≡ o
      → IsReverse m P
      → IsReverse (with_name canonical_name m ip name o) (Or P (One ip name))
  with_name_lem m P ip name none e h =
      stored m P h ip name (λ other p. absurd (h.found ip other p e))
  with_name_lem m P ip name (some existed) e h =
      elim (Bool-cases (ltb (byte_length name) (byte_length existed))) [
        | inl y ↦ rw y (
            stored m P h ip name (λ other p.
              let lt = ltb→lt (byte_length name) (byte_length existed) y in
              let le = h.least ip existed other e p in omega (arith, lt, le)))
        | inr n ↦ rw n (passed_over m P h ip name existed e (ground (arith, n)))
      ]

  -- Some key of the mapping for the IP gives the name.
  abbrev pub IsNameIn : Map Text → Text → Text → Type 0
  IsNameIn [] ip n = ⊥
  IsNameIn ((key, j) ∷ mapping) ip n =
      ((j ≡ ip) × (local_name canonical_name key ≡ n)) ⊎ IsNameIn mapping ip n

  reverse_names_lem :
      (m : Map Text) (P : Text → Text → Type 0) (mapping : Map Text)
      → IsReverse m P
      → IsReverse (reverse_names canonical_name m mapping) (Or P (IsNameIn mapping))
  unfolding reverse_names
  reverse_names_lem m P [] h =
      IsReverse-weaken (λ ip n p. inl p) (λ ip n q. elim q [ inl p ↦ p | inr z ↦ absurd z ]) h
  reverse_names_lem m P ((key, ip) ∷ mapping) h =
      let name = local_name canonical_name key in
      IsReverse-weaken
        (λ j n q. elim q [
          | inl r ↦ elim r [ inl p ↦ inl p | inr o ↦ inr (inl o) ]
          | inr z ↦ inr (inr z)
        ])
        (λ j n q. elim q [
          | inl p ↦ inl (inl p)
          | inr r ↦ elim r [ inl o ↦ inl (inr o) | inr z ↦ inr z ]
        ])
        (reverse_names_lem (with_name canonical_name m ip name (lookup ip m)) (Or P (One ip name))
          mapping (with_name_lem m P ip name (lookup ip m) refl h))

  -- in either of the two mappings
  abbrev pub IsNameOf : Map Text → Map Text → Text → Text → Type 0
  IsNameOf names names_v6 ip n = IsNameIn names ip n ⊎ IsNameIn names_v6 ip n

empty-IsReverse : IsReverse [] (λ ip n. ⊥)
unfolding lookup
empty-IsReverse = record {
  named = λ ip n e. let q : none ≡ some n = e in cc q;
  least = λ ip n other e z. absurd z;
  found = λ ip n z. absurd z;
}

-- After ReceiveConfiguration, in whatever order the two maps are visited, each IP that is mapped
-- resolves back to a name, which is the local name of one of its keys, and no local name of a key
-- of that IP is shorter in bytes.
pub receive_configuration-IsReverse :
    (canonical_name : Text → Text) (upstream : Text) (names names_v6 : Map Text)
    → IsReverse
        (receive_configuration canonical_name upstream names names_v6).reverse_mapping
        (IsNameOf canonical_name names names_v6)
unfolding receive_configuration
receive_configuration-IsReverse canonical_name upstream names names_v6 =
    IsReverse-weaken
      (λ ip n q. elim q [ inl r ↦ elim r [ inl z ↦ absurd z | inr p ↦ inl p ] | inr p ↦ inr p ])
      (λ ip n q. elim q [ inl p ↦ inl (inr p) | inr p ↦ inr p ])
      (reverse_names_lem canonical_name (reverse_names canonical_name [] names)
        (Or (λ ip n. ⊥) (IsNameIn canonical_name names)) names_v6
        (reverse_names_lem canonical_name [] (λ ip n. ⊥) names empty-IsReverse))
