-- ===== src/Config/Invites.antt =====
-- config/invites.go. The random bytes and the clock are arguments: a token as it is encoded, or
-- none for a failed read, and so each of the ten attempts at an ID.
pub mod Limits
pub mod Reserve
pub mod Runs
use awl.Base.{
  ℕ, zero, suc, ◌+◌, Bool, true, false, not, ◌&&◌, List, [], ◌∷◌, Option, none, some, Text, Map,
  lookup, insert, values, ◌==◌, is_empty, ltb, leb, eqb, if◌then◌else◌,
}
use awl.Config.Types.{Config, Invite, save}

pub data InviteError : Type 0 where
  not_found revoked expired used_up no_unique_id read_failed : InviteError

pub data Result (A : Type 0) : Type 0 where
  ok : A → Result A
  err : InviteError → Result A

pub record CreateInviteParams : Type 0 where
  pub label : Text
  pub alias : Text
  pub allow_using_as_exit_node : Bool
  pub max_uses : ℕ
  pub expires_at : ℕ

-- now.After(expires) for an expiry that is set
unfoldable pub is_expired : Invite → ℕ → Bool
is_expired i now = not (eqb i.expires_at 0) && ltb i.expires_at now

unfoldable pub is_used_up : Invite → Bool
is_used_up i = leb i.max_uses i.used_count

unfoldable pub usable : Invite → ℕ → Result Invite
unfolding is_expired is_used_up
usable i now =
    if i.revoked
    then err revoked
    else if is_expired i now
    then err expired
    else if is_used_up i
    then err used_up
    else ok i

-- the scan of findUsableInviteUnlocked
unfoldable pub find_by_token : Text → List Invite → Option Invite
find_by_token token [] = none
find_by_token token (i ∷ is) = if i.token == token then some i else find_by_token token is

unfoldable pub find_usable_invite : Config → Text → ℕ → Result Invite
find_usable_invite c token now =
    if is_empty token then err not_found else elim (find_by_token token (values c.invites)) [
      | none ↦ err not_found
      | some i ↦ usable i now
    ]

-- CheckInvite: the peek
unfoldable pub check_invite : Config → Text → ℕ → Result Invite
unfolding find_usable_invite
check_invite c token now = find_usable_invite c token now

-- what ReserveInviteUnlocked does with what it found
unfoldable pub redeem : Config → Result Invite → Config × Result Invite
redeem c (err e) = (c, err e)
redeem c (ok i) =
    let i' : Invite = record i { used_count = i.used_count + 1 } in
    (save (record c { invites = insert i'.id i' c.invites }), ok i')

-- ReserveInviteUnlocked, with the configuration that it leaves
unfoldable pub reserve_invite : Config → Text → ℕ → Config × Result Invite
unfolding redeem
reserve_invite c token now = redeem c (find_usable_invite c token now)

-- generateInviteIDUnlocked: the attempts in order, each none or the encoded bytes
unfoldable pub generate_invite_id : Map Invite → List (Option Text) → Result Text
generate_invite_id invites [] = err no_unique_id
generate_invite_id invites (none ∷ attempts) = err read_failed
generate_invite_id invites (some id ∷ attempts) =
    let rest = generate_invite_id invites attempts in
    elim (lookup id invites) [ none ↦ ok id | some _ ↦ rest ]

abbrev pub new_invite : CreateInviteParams → Text → Text → ℕ → Invite
new_invite params id token now = record {
  id = id;
  token = token;
  label = params.label;
  alias = params.alias;
  we_allow_using_as_exit_node = params.allow_using_as_exit_node;
  max_uses = if ltb params.max_uses 1 then 1 else params.max_uses;
  used_count = 0;
  expires_at = params.expires_at;
  created_at = now;
  revoked = false;
}

-- what CreateInvite does with the generated ID
unfoldable pub add_invite :
    Config → CreateInviteParams → Text → ℕ → Result Text → Config × Result Invite
add_invite c params token now (err e) = (c, err e)
add_invite c params token now (ok id) =
    let i = new_invite params id token now in
    (save (record c { invites = insert id i c.invites }), ok i)

-- CreateInvite, given the token and the attempts at an ID
unfoldable pub create_invite :
    Config → CreateInviteParams → Option Text → List (Option Text) → ℕ → Config × Result Invite
unfolding add_invite
create_invite c params none attempts now = (c, err read_failed)
create_invite c params (some token) attempts now =
    add_invite c params token now (generate_invite_id c.invites attempts)

-- what RevokeInvite does with the entry that it looked up
unfoldable pub close_invite : Config → Text → Option Invite → Config × Bool
close_invite c id none = (c, false)
close_invite c id (some i) = (
  (if i.revoked
      then c
      else save (record c { invites = insert id (record i { revoked = true }) c.invites })),
  true,
)

unfoldable pub revoke_invite : Config → Text → Config × Bool
unfolding close_invite
revoke_invite c id = close_invite c id (lookup id c.invites)

abbrev pub get_invite : Config → Text → Option Invite
get_invite c id = lookup id c.invites

-- sort.SliceStable by CreatedAt, the newest first
unfoldable pub insert_by_age : Invite → List Invite → List Invite
insert_by_age i [] = i ∷ []
insert_by_age i (j ∷ js) =
    if leb j.created_at i.created_at then i ∷ j ∷ js else j ∷ insert_by_age i js

unfoldable pub sort_by_age : List Invite → List Invite
sort_by_age [] = []
sort_by_age (i ∷ is) = insert_by_age i (sort_by_age is)

unfoldable pub list_invites : Config → List Invite
unfolding sort_by_age insert_by_age
list_invites c = sort_by_age (values c.invites)
