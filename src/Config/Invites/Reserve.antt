-- ===== src/Config/Invites/Reserve.antt =====
-- ReserveInviteUnlocked on a well-formed table: what it spends, and when it refuses.
use awl.Base.{
  ℕ, ◌+◌, ◌<◌, ◌≡◌, ◌≢◌, refl, ap, sym, ◌∙◌, true, false, [], ◌∷◌, none, some, arith, Text, Map,
  lookup, values, lookup-insert, ◌==◌, eq_iff, is_empty, eq_refl, if◌then◌else◌, Bool-cases,
  Option-cases, inl, inr, eqb_iff,
}
use awl.Config.Types.{Config, Invite, save}
use awl.Config.Invites.{
  Result, ok, err, not_found, is_expired, is_used_up, usable, find_by_token, find_usable_invite,
  redeem, reserve_invite,
}
use awl.Config.Invites.Limits.{
  IsTable, IsInTime, IsUsable, spend, find_by_token-lookup, find_usable_invite-ok,
}

-- One use of the invite under its key is spent, and the rest of the table is as it was.
pub record IsSpentAt (c : Config) (token : Text) (now : ℕ) (c' : Config) (i' : Invite)
    : Type 0 where
  pub before : Invite
  pub usable : IsUsable c.invites token now before
  pub at_id : usable.key ≡ before.id
  pub stored : lookup before.id c'.invites ≡ some i'
  pub one_more : i' ≡ record before { used_count = before.used_count + 1 }
  pub others : (k : Text) → k ≢ before.id → lookup k c'.invites ≡ lookup k c.invites
  pub saved : c' ≡ save (record c { invites = c'.invites })

abbrev pub ReservedAt : Config → Text → ℕ → Config → Result Invite → Type 0
ReservedAt c token now c' (ok i) = IsSpentAt c token now c' i
ReservedAt c token now c' (err e) =
    (c' ≡ c) × ((i : Invite) → token ≢ [] → ¬ IsUsable c.invites token now i)

IsInTime-not_expired : (i : Invite) (now : ℕ) → IsInTime i now → is_expired i now ≡ false
unfolding is_expired
IsInTime-not_expired i now (inl e) = ground (arith, eqb_iff i.expires_at 0, e)
IsInTime-not_expired i now (inr h) = ground (arith, h)

-- The scan finds something, if the token is in the table.
find_by_token-some :
    (token k : Text) (m : Map Invite) (i : Invite)
    → lookup k m ≡ some i
    → i.token ≡ token
    → find_by_token token (values m) ≢ none
unfolding find_by_token lookup
find_by_token-some token k [] i h t = cc h
find_by_token-some token k ((j, v) ∷ m) i h t = elim (Bool-cases (v.token == token)) [
  | inl y ↦ rw y (λ e. cc e)
  | inr n ↦ elim (Bool-cases (j == k)) [
    | inl same ↦
        let q : v ≡ i = ground (arith, h, same) in
        let y : (v.token == token) ≡ true =
          (eq_iff v.token token).1 (ap (λ (x : Invite). x.token) q ∙ t) in
        absurd (let z : true ≡ false = sym y ∙ n in cc z)
    | inr other ↦ rw n (find_by_token-some token k m i (ground (arith, h, other)) t)
  ]
]

usable_now :
    (i : Invite) (now : ℕ)
    → i.revoked ≡ false
    → IsInTime i now
    → i.used_count < i.max_uses
    → usable i now ≡ ok i
unfolding usable is_used_up
usable_now i now live in_time room =
    rw live (rw (IsInTime-not_expired i now in_time) (ground arith))

not_empty :
    {A : Type 0} {a b : A} (e : A) (s : Text) → s ≢ [] → a ≡ b → (if is_empty s then e else a) ≡ b
not_empty e [] n q = absurd (n refl)
not_empty e (x ∷ s) n q = q

-- A usable invite is the one that is found.
pub IsUsable-found :
    (c : Config) (token : Text) (now : ℕ) (i : Invite)
    → IsTable c.invites
    → token ≢ []
    → IsUsable c.invites token now i
    → find_usable_invite c token now ≡ ok i
unfolding find_usable_invite
IsUsable-found c token now i t set u =
    elim (Option-cases (find_by_token token (values c.invites))) [
      | inl n ↦ absurd (find_by_token-some token u.key c.invites i u.found u.token_is n)
      | inr (j, f) ↦
          let (k, found, q) = find_by_token-lookup token c.invites j t.distinct f in
          let keys : k ≡ u.key = t.tokens k u.key j i found u.found (q ∙ sym u.token_is) in
          let same : some j ≡ some i = sym found ∙ ap (λ x. lookup x c.invites) keys ∙ u.found in
          let live = usable_now i now u.live u.in_time u.room in
          not_empty (err not_found) token set (rw (f ∙ same) live)
    ]

reserved_lem :
    (c : Config) (token : Text) (now : ℕ) (r : Result Invite)
    → IsTable c.invites
    → find_usable_invite c token now ≡ r
    → ReservedAt c token now (redeem c r).0 (redeem c r).1
unfolding redeem save
reserved_lem c token now (err e) t q = (
  refl,
  λ i set u.
      let z : err e ≡ ok i = sym q ∙ IsUsable-found c token now i t set u in
      absurd (ground (arith, z)),
)
reserved_lem c token now (ok i) t q =
    let u = find_usable_invite-ok c token now i t.distinct q in
    record {
      before = i;
      usable = u;
      at_id = sym (t.keyed u.key i u.found);
      stored = ground (arith, lookup-insert i.id i.id (spend i) c.invites, eq_refl i.id);
      one_more = refl;
      others = λ k n. ground (arith, lookup-insert i.id k (spend i) c.invites, eq_iff i.id k, n);
      saved = refl;
    }

-- ReserveInviteUnlocked on a well-formed table (each invite under its ID, no ID and no token
-- twice, none used more often than it allows): on success exactly one use has been added to an
-- invite that has the token, is not revoked, has uses left and either no expiry or one that is not
-- past; every other entry of the table and every other field of the configuration, which is
-- saved, is as it was. On an error the configuration is unchanged, and the token is empty or no
-- such invite has it.
pub reserve_invite_lem :
    (c : Config) (token : Text) (now : ℕ)
    → IsTable c.invites
    → ReservedAt c token now (reserve_invite c token now).0 (reserve_invite c token now).1
unfolding reserve_invite
reserve_invite_lem c token now t = reserved_lem c token now (find_usable_invite c token now) t refl
