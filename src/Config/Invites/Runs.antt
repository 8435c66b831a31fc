-- ===== src/Config/Invites/Runs.antt =====
-- Sequences of operations on the table of invites, in any order.
use awl.Base.{
  ℕ, ◌+◌, ◌≤◌, ◌<◌, ◌≡◌, ◌≢◌, refl, ap, sym, ◌∙◌, true, List, [], ◌∷◌, Option, none, some, arith,
  Text, Map, lookup, insert, lookup-insert, ◌==◌, eq_iff, if◌then◌else◌, Bool-cases, inl, inr,
}
use awl.Config.Types.{Config, Invite}
use awl.Config.Invites.{
  Result, ok, err, CreateInviteParams, reserve_invite, generate_invite_id, new_invite, add_invite,
  create_invite, close_invite, revoke_invite,
}
use awl.Config.Invites.Limits.{
  IsTable, Reserved, reserve_invite-Reserved, update-IsTable, add-IsTable, spend,
  generate_invite_id-free, invites-save,
}

pub data Op : Type 0 where
  reserve : Text → ℕ → Op
  create : CreateInviteParams → Text → List (Option Text) → ℕ → Op
  revoke : Text → Op

abbrev pub step : Config → Op → Config
step c (reserve token now) = (reserve_invite c token now).0
step c (create params token attempts now) = (create_invite c params (some token) attempts now).0
step c (revoke id) = (revoke_invite c id).0

abbrev hit : Text → Result Invite → ℕ
hit k (ok i) = if i.id == k then 1 else 0
hit k (err e) = 0

-- 1 for a redemption of the invite `k`
abbrev pub hits : Text → Config → Op → ℕ
hits k c (reserve token now) = hit k (reserve_invite c token now).1
hits k c (create params token attempts now) = 0
hits k c (revoke id) = 0

pub run : Config → List Op → Config
run c [] = c
run c (op ∷ ops) = run (step c op) ops

pub redemptions : Text → Config → List Op → ℕ
redemptions k c [] = 0
redemptions k c (op ∷ ops) = hits k c op + redemptions k (step c op) ops

-- A token that is generated is not in use: 128 random bits.
abbrev pub IsFresh : Config → Op → Type 0
IsFresh c (create params token attempts now) =
    (k : Text) (a : Invite) → lookup k c.invites ≡ some a → a.token ≢ token
IsFresh c (reserve token now) = Unit
IsFresh c (revoke id) = Unit

abbrev pub AllFresh : Config → List Op → Type 0
AllFresh c [] = Unit
AllFresh c (op ∷ ops) = IsFresh c op × AllFresh (step c op) ops

-- The invite `k` in the table, with `n` more uses than `i` had.
record Holds (m : Map Invite) (k : Text) (i : Invite) (n : ℕ) : Type 0 where
  now_is : Invite
  found : lookup k m ≡ some now_is
  used : now_is.used_count ≡ i.used_count + n
  cap : now_is.max_uses ≡ i.max_uses
  closed : i.revoked ≡ true → now_is.revoked ≡ true

Holds-refl : (m : Map Invite) (k : Text) (i : Invite) → lookup k m ≡ some i → Holds m k i 0
Holds-refl m k i h = record {
  now_is = i;
  found = h;
  used = omega arith;
  cap = refl;
  closed = λ e. e;
}

module _ (m : Map Invite) (k : Text) (i : Invite) (t : IsTable m) (h : lookup k m ≡ some i) where
  spent_step :
      (b : Invite) (key : Text)
      → lookup key m ≡ some b
      → b.used_count < b.max_uses
      → IsTable (insert b.id (spend b) m)
        × Holds (insert b.id (spend b) m) k i (if b.id == k then 1 else 0)
  spent_step b key found room =
      let own : b.id ≡ key = t.keyed key b found in
      let at_id : lookup b.id m ≡ some b = ap (λ (x : Text). lookup x m) own ∙ found in
      (
        update-IsTable m b.id b (spend b) t at_id refl refl (omega arith),
        elim (Bool-cases (b.id == k)) [
          | inl e ↦
              let same : some b ≡ some i =
                sym at_id ∙ ap (λ (x : Text). lookup x m) ((eq_iff b.id k).0 e) ∙ h in
              record {
                now_is = spend b;
                found = ground (arith, lookup-insert b.id k (spend b) m);
                used = ground arith;
                cap = ground arith;
                closed = λ q. ground arith;
              }
          | inr e ↦ record {
            now_is = i;
            found = ground (arith, lookup-insert b.id k (spend b) m);
            used = ground arith;
            cap = refl;
            closed = λ q. q;
          }
        ],
      )

  -- writing at another key, or closing the invite itself
  added_step :
      (a : Invite)
      → IsTable (insert a.id a m)
      → lookup a.id m ≡ none
      → IsTable (insert a.id a m) × Holds (insert a.id a m) k i 0
  added_step a t' free = (
    t',
    record {
      now_is = i;
      found = ground (arith, lookup-insert a.id k a m, eq_iff a.id k);
      used = omega arith;
      cap = refl;
      closed = λ q. q;
    },
  )

  revoked_step :
      (id : Text) (a : Invite)
      → lookup id m ≡ some a
      → let a' = record a { revoked = true } in
        IsTable (insert id a' m) × Holds (insert id a' m) k i 0
  revoked_step id a found =
      let a' : Invite = record a { revoked = true } in
      (
        update-IsTable m id a a' t found refl refl (t.within id a found),
        elim (Bool-cases (id == k)) [
          | inl e ↦
              let same : some a ≡ some i =
                sym found ∙ ap (λ (x : Text). lookup x m) ((eq_iff id k).0 e) ∙ h in
              record {
                now_is = a';
                found = ground (arith, lookup-insert id k a' m);
                used = ground arith;
                cap = ground arith;
                closed = λ q. refl;
              }
          | inr e ↦ record {
            now_is = i;
            found = ground (arith, lookup-insert id k a' m);
            used = omega arith;
            cap = refl;
            closed = λ q. q;
          }
        ],
      )

abbrev Kept : Map Invite → Text → Invite → ℕ → Type 0
Kept m k i n = IsTable m × Holds m k i n

module _ (c : Config) (k : Text) (i : Invite) (t : IsTable c.invites)
    (h : lookup k c.invites ≡ some i) where
  reserve_step :
      (token : Text) (now : ℕ) (c' : Config) (r : Result Invite)
      → Reserved c token now c' r
      → Kept c'.invites k i (hit k r)
  reserve_step token now c' (err e) same = rw same (t, Holds-refl c.invites k i h)
  reserve_step token now c' (ok i') s =
      let u = s.usable in
      rw (s.invites, s.after) (spent_step c.invites k i t h s.before u.key u.found u.room)

  added :
      (params : CreateInviteParams) (token : Text) (now : ℕ) (r : Result Text)
      → ((k : Text) (a : Invite) → lookup k c.invites ≡ some a → a.token ≢ token)
      → ((id : Text) → r ≡ ok id → lookup id c.invites ≡ none)
      → Kept (add_invite c params token now r).0.invites k i 0
  unfolding add_invite
  added params token now (err e) fresh free = (t, Holds-refl c.invites k i h)
  added params token now (ok id) fresh free =
      let a = new_invite params id token now in
      rw (invites-save (record c { invites = insert id a c.invites })) (
        added_step c.invites k i t h a
          (add-IsTable c.invites a t (free id refl) fresh (omega arith)) (free id refl))

  create_step :
      (params : CreateInviteParams) (token : Text) (attempts : List (Option Text)) (now : ℕ)
      → IsFresh c (create params token attempts now)
      → Kept (step c (create params token attempts now)).invites k i 0
  unfolding create_invite
  create_step params token attempts now fresh =
      added params token now (generate_invite_id c.invites attempts) fresh
        (generate_invite_id-free c.invites attempts)

  closed_step :
      (id : Text) (o : Option Invite)
      → lookup id c.invites ≡ o
      → Kept (close_invite c id o).0.invites k i 0
  unfolding close_invite
  closed_step id none e = (t, Holds-refl c.invites k i h)
  closed_step id (some a) e = elim (Bool-cases a.revoked) [
    | inl r ↦ rw r (t, Holds-refl c.invites k i h)
    | inr r ↦ rw r (
        rw (invites-save (record c { invites = insert id (record a { revoked = true }) c.invites }))
          (revoked_step c.invites k i t h id a e))
  ]

  any_step : (op : Op) → IsFresh c op → Kept (step c op).invites k i (hits k c op)
  any_step (reserve token now) fresh =
      reserve_step token now (reserve_invite c token now).0 (reserve_invite c token now).1
        (reserve_invite-Reserved c token now t.distinct)
  any_step (create params token attempts now) fresh = create_step params token attempts now fresh
  any_step (revoke id) fresh = unfold revoke_invite in closed_step id (lookup id c.invites) refl

-- Any sequence of redemptions, creations and revocations, each token that is generated being new to
-- the table, keeps the table well formed and keeps the invite, with its limit; its use count has
-- grown by exactly the number of its redemptions, which therefore never exceed the uses left.
pub run_counts :
    (ops : List Op) (c : Config) (k : Text) (i : Invite)
    → IsTable c.invites
    → lookup k c.invites ≡ some i
    → AllFresh c ops
    → IsTable (run c ops).invites
      × (j : Invite) × (lookup k (run c ops).invites ≡ some j)
      × (j.max_uses ≡ i.max_uses)
      × (j.used_count ≡ i.used_count + redemptions k c ops)
      × (i.used_count + redemptions k c ops ≤ i.max_uses)
unfolding run redemptions
run_counts [] c k i t h f = (t, i, h, refl, omega arith, omega (arith, t.within k i h))
run_counts (op ∷ ops) c k i t h f =
    let (t', held) = any_step c k i t h op f.0 in
    let (t'', j, e, cap, used, room) = run_counts ops (step c op) k held.now_is t' held.found f.1 in
    (
      t'',
      j,
      e,
      cap ∙ held.cap,
      omega (arith, used, held.used),
      omega (arith, room, held.used, held.cap),
    )

-- a revoked invite is not found usable
module _ (c : Config) (k : Text) (i : Invite) (t : IsTable c.invites)
    (h : lookup k c.invites ≡ some i) where
  revoked_hit :
      (token : Text) (now : ℕ) (c' : Config) (r : Result Invite)
      → i.revoked ≡ true
      → Reserved c token now c' r
      → hit k r ≡ 0
  revoked_hit token now c' (err e) q s = refl
  revoked_hit token now c' (ok i') q s =
      let u = s.usable in
      let own : s.before.id ≡ u.key = t.keyed u.key s.before u.found in
      let id' : i'.id ≡ s.before.id = ap (λ (x : Invite). x.id) s.after in
      elim (Bool-cases (i'.id == k)) [
        | inl e ↦
            let key : u.key ≡ k = sym own ∙ sym id' ∙ (eq_iff i'.id k).0 e in
            let same : some s.before ≡ some i =
              sym u.found ∙ ap (λ (x : Text). lookup x c.invites) key ∙ h in
            absurd (ground (arith, u.live))
        | inr e ↦ rw e
      ]

  revoked_hits : (op : Op) → i.revoked ≡ true → hits k c op ≡ 0
  revoked_hits (reserve token now) q =
      revoked_hit token now (reserve_invite c token now).0 (reserve_invite c token now).1 q
        (reserve_invite-Reserved c token now t.distinct)
  revoked_hits (create params token attempts now) q = refl
  revoked_hits (revoke id) q = refl

-- In a well-formed table a revoked invite is never redeemed again, whatever redemptions, creations and
-- revocations follow, each token that is generated being new to the table.
pub revoked_stays_closed :
    (ops : List Op) (c : Config) (k : Text) (i : Invite)
    → IsTable c.invites
    → lookup k c.invites ≡ some i
    → AllFresh c ops
    → i.revoked ≡ true
    → redemptions k c ops ≡ 0
unfolding redemptions
revoked_stays_closed [] c k i t h f q = refl
revoked_stays_closed (op ∷ ops) c k i t h f q =
    let (t', held) = any_step c k i t h op f.0 in
    omega (
      arith,
      revoked_hits c k i t h op q,
      revoked_stays_closed ops (step c op) k held.now_is t' held.found f.1 (held.closed q),
    )
