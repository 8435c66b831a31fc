-- ===== src/Config/Invites/Limits.antt =====
-- Redeeming an invite: its conditions, and the table of invites.
use awl.Base.{
  ℕ, ◌+◌, ◌≤◌, ◌<◌, ◌≡◌, ◌≢◌, refl, ap, sym, ◌∙◌, false, List, [], ◌∷◌, Option, none, some, arith,
  Text, Map, lookup, insert, values, Distinct, Distinct-insert, lookup-insert, ◌==◌, eq_iff,
  eq_refl, Bool-cases, Option-cases, inl, inr, ◌⊎◌, eqb, eqb_iff,
}
use awl.Config.Types.{Config, Invite, save}
use awl.Config.Invites.{
  Result, ok, err, is_expired, usable, find_by_token, find_usable_invite, redeem, reserve_invite,
  generate_invite_id,
}

pub record IsTable (m : Map Invite) : Type 0 where
  pub distinct : Distinct m
  pub keyed : (k : Text) (i : Invite) → lookup k m ≡ some i → i.id ≡ k
  pub tokens :
      (j k : Text) (a b : Invite)
      → lookup j m ≡ some a
      → lookup k m ≡ some b
      → a.token ≡ b.token
      → j ≡ k
  pub within : (k : Text) (i : Invite) → lookup k m ≡ some i → i.used_count ≤ i.max_uses

pub invites-save : (c : Config) → (save c).invites ≡ c.invites
unfolding save
invites-save c = refl

-- What the scan finds is in the table, and has the token.
pub find_by_token-lookup :
    (token : Text) (m : Map Invite) (i : Invite)
    → Distinct m
    → find_by_token token (values m) ≡ some i
    → (k : Text) × (lookup k m ≡ some i) × (i.token ≡ token)
unfolding find_by_token lookup
find_by_token-lookup token [] i d e = cc
find_by_token-lookup token ((j, v) ∷ m) i d e = elim (Bool-cases (v.token == token)) [
  | inl t ↦
      let same : v ≡ i = ground arith in
      (
        j,
        rw (eq_refl j) (ap some same),
        ap (λ (x : Invite). x.token) (sym same) ∙ (eq_iff v.token token).0 t,
      )
  | inr t ↦
      let (k, h, q) = find_by_token-lookup token m i d.1 (ground arith) in
      let n : (j == k) ≡ false = ground (arith, eq_iff j k) in (k, rw n h, q)
]

-- The invite has no expiry, or that is not yet past.
abbrev pub IsInTime : Invite → ℕ → Type 0
IsInTime i now = (i.expires_at ≡ 0) ⊎ (now ≤ i.expires_at)

not_expired-IsInTime : (i : Invite) (now : ℕ) → is_expired i now ≡ false → IsInTime i now
unfolding is_expired
not_expired-IsInTime i now e = elim (Bool-cases (eqb i.expires_at 0)) [
  | inl y ↦ inl ((eqb_iff i.expires_at 0).0 y)
  | inr n ↦ inr (ground (arith, e, n))
]

-- An invite that can be redeemed now.
pub record IsUsable (m : Map Invite) (token : Text) (now : ℕ) (i : Invite) : Type 0 where
  pub key : Text
  pub found : lookup key m ≡ some i
  pub token_is : i.token ≡ token
  pub live : i.revoked ≡ false
  pub in_time : IsInTime i now
  pub room : i.used_count < i.max_uses

usable-ok :
    (j i : Invite) (now : ℕ)
    → usable j now ≡ ok i
    → (i ≡ j) × (j.revoked ≡ false) × (is_expired j now ≡ false) × (j.used_count < j.max_uses)
unfolding usable
usable-ok j i now e = (ground arith, ground arith, ground arith, ground arith)

pub find_usable_invite-ok :
    (c : Config) (token : Text) (now : ℕ) (i : Invite)
    → Distinct c.invites
    → find_usable_invite c token now ≡ ok i
    → IsUsable c.invites token now i
unfolding find_usable_invite
find_usable_invite-ok c token now i d e =
    elim (Option-cases (find_by_token token (values c.invites))) [
      | inl n ↦ absurd (ground arith)
      | inr (j, f) ↦
          let (same, live, in_time, room) = usable-ok j i now (ground arith) in
          let (k, found, t) = find_by_token-lookup token c.invites j d f in
          rw same (record {
            key = k;
            found = found;
            token_is = t;
            live = live;
            in_time = not_expired-IsInTime j now in_time;
            room = room;
          })
    ]

abbrev pub spend : Invite → Invite
spend i = record i { used_count = i.used_count + 1 }

-- A redemption that succeeds has spent one use of an invite that was usable.
pub record IsSpent (c : Config) (token : Text) (now : ℕ) (c' : Config) (i' : Invite) : Type 0 where
  pub before : Invite
  pub usable : IsUsable c.invites token now before
  pub after : i' ≡ spend before
  pub invites : c'.invites ≡ insert before.id i' c.invites

abbrev pub Reserved : Config → Text → ℕ → Config → Result Invite → Type 0
Reserved c token now c' (ok i) = IsSpent c token now c' i
Reserved c token now c' (err e) = c' ≡ c

redeem_lem :
    (c : Config) (token : Text) (now : ℕ) (r : Result Invite)
    → Distinct c.invites
    → find_usable_invite c token now ≡ r
    → Reserved c token now (redeem c r).0 (redeem c r).1
unfolding redeem
redeem_lem c token now (err e) d h = refl
redeem_lem c token now (ok i) d h = record {
  before = i;
  usable = find_usable_invite-ok c token now i d h;
  after = refl;
  invites = invites-save (record c { invites = insert i.id (spend i) c.invites });
}

pub reserve_invite-Reserved :
    (c : Config) (token : Text) (now : ℕ)
    → Distinct c.invites
    → Reserved c token now (reserve_invite c token now).0 (reserve_invite c token now).1
unfolding reserve_invite
reserve_invite-Reserved c token now d =
    redeem_lem c token now (find_usable_invite c token now) d refl

-- Writing back an invite under its key, with its ID and its token, keeps the table well formed.
module _ (m : Map Invite) (k : Text) (i i' : Invite) (t : IsTable m) (h : lookup k m ≡ some i)
    (same_id : i'.id ≡ i.id) (same_token : i'.token ≡ i.token) where
  before_update :
      (j : Text) (a : Invite)
      → lookup j (insert k i' m) ≡ some a
      → (b : Invite) × (lookup j m ≡ some b) × (b.token ≡ a.token)
  before_update j a e = elim (Bool-cases (k == j)) [
    | inl q ↦ (
      i,
      ap (λ (x : Text). lookup x m) (sym ((eq_iff k j).0 q)) ∙ h,
      ground (arith, lookup-insert k j i' m),
    )
    | inr q ↦ (a, ground (arith, lookup-insert k j i' m), refl)
  ]

  pub update-IsTable : i'.used_count ≤ i'.max_uses → IsTable (insert k i' m)
  update-IsTable room = record {
    distinct = Distinct-insert k i' m t.distinct;
    keyed = λ j v e. ground (arith, lookup-insert k j i' m, eq_iff k j, t.keyed j v, t.keyed k i h);
    tokens = λ j l a b ea eb q.
        let (a0, ha, ta) = before_update j a ea in
        let (b0, hb, tb) = before_update l b eb in t.tokens j l a0 b0 ha hb (ta ∙ q ∙ sym tb);
    within = λ j v e. ground (arith, lookup-insert k j i' m, t.within j v);
  }

-- A new invite whose ID and token are not in the table.
pub add-IsTable :
    (m : Map Invite) (i : Invite)
    → IsTable m
    → lookup i.id m ≡ none
    → ((k : Text) (a : Invite) → lookup k m ≡ some a → a.token ≢ i.token)
    → i.used_count ≤ i.max_uses
    → IsTable (insert i.id i m)
add-IsTable m i t free fresh room = record {
  distinct = Distinct-insert i.id i m t.distinct;
  keyed = λ j v e. ground (arith, lookup-insert i.id j i m, eq_iff i.id j, t.keyed j v);
  tokens = λ j l a b ea eb q. elim (Bool-cases (i.id == j)) [
    | inl x ↦ elim (Bool-cases (i.id == l)) [
      | inl y ↦ sym ((eq_iff i.id j).0 x) ∙ (eq_iff i.id l).0 y
      | inr y ↦ absurd (
          fresh l b (ground (arith, lookup-insert i.id l i m))
            (ground (arith, lookup-insert i.id j i m)))
    ]
    | inr x ↦ elim (Bool-cases (i.id == l)) [
      | inl y ↦ absurd (
          fresh j a (ground (arith, lookup-insert i.id j i m))
            (ground (arith, lookup-insert i.id l i m)))
      | inr y ↦
          t.tokens j l a b (ground (arith, lookup-insert i.id j i m))
            (ground (arith, lookup-insert i.id l i m)) q
    ]
  ];
  within = λ j v e. ground (arith, lookup-insert i.id j i m, t.within j v);
}

pub generate_invite_id-free :
    (m : Map Invite) (attempts : List (Option Text)) (id : Text)
    → generate_invite_id m attempts ≡ ok id
    → lookup id m ≡ none
unfolding generate_invite_id
generate_invite_id-free m [] id e = cc
generate_invite_id-free m (none ∷ attempts) id e = cc
generate_invite_id-free m (some a ∷ attempts) id e =
    ground (arith, generate_invite_id-free m attempts id)
