-- ===== src/Config/Address/Search.antt =====
-- The search of GenerateNextIpAddrExcept for an address, and its rounds.
use awl.Base.{
  ℕ, zero, suc, ◌+◌, ◌%◌, ◌^◌, ◌≤◌, ◌<◌, ◌≡◌, ◌≢◌, refl, sym, ap, ◌∙◌, subst, Bool, true, false,
  ◌||◌, List, [], ◌∷◌, ◌++◌, Option, none, some, arith, Text, length, ◌==◌, eq_iff, eqb, eqb_iff,
  if◌then◌else◌, Bool-cases, inl, inr,
}
use awl.Config.Types.{Config}
use awl.Config.Ipv4.{ipv4_text, parse_ipv4, parse_ipv4-ipv4_text}
use awl.Config.Address.{broadcast, equals_dns, increment_ip, excluded, next_free}

-- whether the search passes over the address
abbrev pub taken : Config → ℕ → ℕ → ℕ → Bool
taken c local prefix_len ip = eqb ip (broadcast local prefix_len) || equals_dns c.netstack_dns_ip ip

abbrev pub skipped : Config → ℕ → ℕ → List Text → ℕ → Bool
skipped c local prefix_len except ip =
    excluded (ipv4_text ip) except
    || eqb ip (broadcast local prefix_len)
    || equals_dns c.netstack_dns_ip ip

abbrev has : ℕ → List ℕ → Bool
has n [] = false
has n (x ∷ xs) = eqb x n || has n xs

abbrev without : ℕ → List ℕ → List ℕ
without n [] = []
without n (x ∷ xs) = let rest = without n xs in if eqb x n then xs else x ∷ rest

length-without : (n : ℕ) (xs : List ℕ) → has n xs ≡ true → suc (length (without n xs)) ≡ length xs
length-without n [] h = cc h
length-without n (x ∷ xs) h = elim (Bool-cases (eqb x n)) [
  | inl y ↦ rw y refl
  | inr z ↦ rw z (ap suc (length-without n xs (ground (arith, h, z))))
]

has-without : (n m : ℕ) (xs : List ℕ) → n ≢ m → has m xs ≡ true → has m (without n xs) ≡ true
has-without n m [] d h = cc h
has-without n m (x ∷ xs) d h = elim (Bool-cases (eqb x n)) [
  | inl y ↦ rw y (ground (arith, h, y, d, eqb_iff x n, eqb_iff x m))
  | inr z ↦ rw z (elim (Bool-cases (eqb x m)) [
    | inl y ↦ rw y refl
    | inr w ↦ rw w (has-without n m xs d (ground (arith, h, w)))
  ])
]

-- the numbers that the search may pass over
abbrev of_dns : Option ℕ → List ℕ
of_dns none = []
of_dns (some d) = d ∷ []

abbrev cons_some : Option ℕ → List ℕ → List ℕ
cons_some none ns = ns
cons_some (some n) ns = n ∷ ns

abbrev parsed : List Text → List ℕ
parsed [] = []
parsed (t ∷ ts) = cons_some (parse_ipv4 t) (parsed ts)

abbrev blockers : Config → ℕ → ℕ → List Text → List ℕ
blockers c local prefix_len except =
    broadcast local prefix_len ∷ (of_dns c.netstack_dns_ip ++ parsed except)

length-cons_some : (o : Option ℕ) (ns : List ℕ) → length (cons_some o ns) ≤ suc (length ns)
length-cons_some none ns = omega arith
length-cons_some (some n) ns = omega arith

length-parsed : (ts : List Text) → length (parsed ts) ≤ length ts
length-parsed [] = omega arith
length-parsed (t ∷ ts) =
    omega (arith, length-parsed ts, length-cons_some (parse_ipv4 t) (parsed ts))

length-of_dns : (o : Option ℕ) (ns : List ℕ) → length (of_dns o ++ ns) ≤ suc (length ns)
length-of_dns none ns = omega arith
length-of_dns (some d) ns = omega arith

has-cons_some :
    (n : ℕ) (o : Option ℕ) (ns : List ℕ) → has n ns ≡ true → has n (cons_some o ns) ≡ true
has-cons_some n none ns h = h
has-cons_some n (some m) ns h = ground (arith, h)

has-parsed :
    (n : ℕ) (ts : List Text)
    → n < 2 ^ 32
    → excluded (ipv4_text n) ts ≡ true
    → has n (parsed ts) ≡ true
unfolding excluded
has-parsed n [] h e = cc e
has-parsed n (t ∷ ts) h e = elim (Bool-cases (t == ipv4_text n)) [
  | inl y ↦
      let q : parse_ipv4 t ≡ some n =
        ap parse_ipv4 ((eq_iff t (ipv4_text n)).0 y) ∙ parse_ipv4-ipv4_text n h in
      rw q (ground (arith, eqb_iff n n))
  | inr z ↦ has-cons_some n (parse_ipv4 t) (parsed ts) (has-parsed n ts h (ground (arith, e, z)))
]

has-of_dns :
    (n : ℕ) (o : Option ℕ) (ns : List ℕ)
    → (equals_dns o n || has n ns) ≡ true
    → has n (of_dns o ++ ns) ≡ true
has-of_dns n none ns h = ground (arith, h)
has-of_dns n (some d) ns h = ground (arith, h, eqb_iff n d, eqb_iff d n)

-- What is passed over is among them.
has-blockers :
    (c : Config) (local prefix_len : ℕ) (except : List Text) (n : ℕ)
    → n < 2 ^ 32
    → skipped c local prefix_len except n ≡ true
    → has n (blockers c local prefix_len except) ≡ true
has-blockers c local prefix_len except n h e =
    let o = c.netstack_dns_ip in
    ground (
      arith,
      e,
      eqb_iff n (broadcast local prefix_len),
      eqb_iff (broadcast local prefix_len) n,
      has-parsed n except h,
      has-of_dns n o (parsed except),
    )

-- the address `i` steps behind the next one
abbrev pub after : ℕ → ℕ → ℕ
after m i = (m + 1 + i) % 2 ^ 32

-- The first address behind `m` that is not passed over, less than `fuel` steps away.
pub record IsFirst (c : Config) (local prefix_len : ℕ) (except : List Text) (m fuel n : ℕ)
    : Type 0 where
  pub steps : ℕ
  pub near : steps < fuel
  pub is : n ≡ after m steps
  pub free : skipped c local prefix_len except n ≡ false
  pub earlier : (i : ℕ) → i < steps → skipped c local prefix_len except (after m i) ≡ true

after-increment_ip : (m i : ℕ) → after (increment_ip m) i ≡ after m (suc i)
unfolding increment_ip
after-increment_ip m i = omega arith

increment_ip-after : (m : ℕ) → increment_ip m ≡ after m 0
unfolding increment_ip
increment_ip-after m = omega arith

after-other : (m i : ℕ) → suc i < 2 ^ 32 → increment_ip m ≢ after m (suc i)
unfolding increment_ip
after-other m i h = omega arith

module _ (c : Config) (local prefix_len : ℕ) (except : List Text) where
  next_free-take :
      (m fuel : ℕ)
      → skipped c local prefix_len except (increment_ip m) ≡ false
      → next_free (suc fuel) c local prefix_len except m ≡ some (increment_ip m)
  unfolding next_free
  next_free-take m fuel h = rw h refl

  next_free-skip :
      (m fuel : ℕ)
      → skipped c local prefix_len except (increment_ip m) ≡ true
      → next_free (suc fuel) c local prefix_len except m
        ≡ next_free fuel c local prefix_len except (increment_ip m)
  unfolding next_free
  next_free-skip m fuel h = rw h refl

  earlier-suc :
      (m steps : ℕ)
      → skipped c local prefix_len except (increment_ip m) ≡ true
      → ((i : ℕ) → i < steps → skipped c local prefix_len except (after (increment_ip m) i) ≡ true)
      → (i : ℕ) → i < suc steps
      → skipped c local prefix_len except (after m i) ≡ true
  earlier-suc m steps h f zero k =
      subst (λ x. skipped c local prefix_len except x ≡ true) (increment_ip-after m) h
  earlier-suc m steps h f (suc i) k =
      subst (λ x. skipped c local prefix_len except x ≡ true) (after-increment_ip m i)
        (f i (omega (arith, k)))

  -- one more step in front
  IsFirst-suc :
      (m fuel n : ℕ)
      → skipped c local prefix_len except (increment_ip m) ≡ true
      → IsFirst c local prefix_len except (increment_ip m) fuel n
      → IsFirst c local prefix_len except m (suc fuel) n
  IsFirst-suc m fuel n h f = record {
    steps = suc f.steps;
    near = omega (arith, f.near);
    is = f.is ∙ after-increment_ip m f.steps;
    free = f.free;
    earlier = earlier-suc m f.steps h f.earlier;
  }

  -- The search finds an address, if fewer addresses than rounds may be passed over.
  search_lem :
      (fuel m : ℕ) (bs : List ℕ)
      → fuel ≤ 2 ^ 32
      → length bs < fuel
      → ((i : ℕ)
          → i < fuel
          → skipped c local prefix_len except (after m i) ≡ true
          → has (after m i) bs ≡ true)
      → (n : ℕ) × (next_free fuel c local prefix_len except m ≡ some n)
        × IsFirst c local prefix_len except m fuel n
  search_lem zero m bs h k w = absurd (omega (arith, k))
  search_lem (suc fuel) m bs h k w =
      let ip = increment_ip m in
      elim (Bool-cases (skipped c local prefix_len except ip)) [
        | inr e ↦ (
          ip,
          next_free-take m fuel e,
          record {
            steps = 0;
            near = omega arith;
            is = increment_ip-after m;
            free = e;
            earlier = λ i l. absurd (omega (arith, l));
          },
        )
        | inl e ↦
            let there : has ip bs ≡ true =
              subst (λ x. has x bs ≡ true) (sym (increment_ip-after m))
                (w 0 (omega arith) (
                  subst (λ x. skipped c local prefix_len except x ≡ true) (increment_ip-after m)
                    e)) in
            let (n, q, f) =
              search_lem fuel ip (without ip bs) (omega (arith, h))
                (omega (arith, k, length-without ip bs there))
                (λ i l s.
                  let step = after-increment_ip m i in
                  let here =
                    w (suc i) (omega (arith, l))
                      (subst (λ x. skipped c local prefix_len except x ≡ true) step s) in
                  subst (λ x. has x (without ip bs) ≡ true) (sym step)
                    (has-without ip (after m (suc i)) bs (after-other m i (omega (arith, l, h)))
                      here)) in
            (n, next_free-skip m fuel e ∙ q, IsFirst-suc m fuel n e f)
      ]

-- The loop of GenerateNextIpAddrExcept ends: with at most 2^32 - 3 exclusions, as many rounds and
-- three more find an address, with the wrap-around of uint32. It is the first behind the given one
-- that is neither excluded, nor the broadcast address, nor that of DNS.
pub next_free_total :
    (c : Config) (local prefix_len : ℕ) (except : List Text) (m : ℕ)
    → length except + 3 ≤ 2 ^ 32
    → (n : ℕ) × (next_free (length except + 3) c local prefix_len except m ≡ some n)
      × IsFirst c local prefix_len except m (length except + 3) n
next_free_total c local prefix_len except m h =
    search_lem c local prefix_len except (length except + 3) m (blockers c local prefix_len except)
      h (omega (arith, length-of_dns c.netstack_dns_ip (parsed except), length-parsed except))
      (λ i l e. has-blockers c local prefix_len except (after m i) (omega arith) e)
