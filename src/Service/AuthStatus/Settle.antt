-- ===== src/Service/AuthStatus/Settle.antt =====
-- How AddPeer settles what the new peer is allowed: the invite that it spends, or none.
use awl.Base.{
  ◌≡◌, refl, true, [], ◌∷◌, Option, none, some, arith, Text, lookup, lookup-remove, Distinct,
  is_empty, trim_space, Bool-cases, inl, inr, eq_refl,
}
use awl.Config.Types.{Config, BlockedPeer, Invite, save}
use awl.Config.Peers.{unblocked}
use awl.Config.Invites.{Result, reserve_invite, redeem, find_usable_invite}
use awl.Config.Invites.Limits.{IsSpent, Reserved, reserve_invite-Reserved}
use awl.Service.AuthStatus.{Env, AddPeerParams, Terms, invite_terms, settle_terms}

-- what the operations on invites and blocked peers leave alone
pub record Keeps (c c' : Config) : Type 0 where
  pub known : c'.known_peers ≡ c.known_peers
  pub net : c'.ip_net ≡ c.ip_net

save-Keeps : (c : Config) → Keeps c (save c)
unfolding save
save-Keeps c = record { known = refl; net = refl }

pub unblocked-Keeps : (c : Config) (id : Text) (o : Option BlockedPeer) → Keeps c (unblocked c id o)
unfolding save
unblocked-Keeps c id none = record { known = refl; net = refl }
unblocked-Keeps c id (some b) = record { known = refl; net = refl }

pub unblocked-gone :
    (c : Config) (id : Text) (o : Option BlockedPeer)
    → lookup id c.blocked_peers ≡ o
    → lookup id (unblocked c id o).blocked_peers ≡ none
unfolding save
unblocked-gone c id none e = e
unblocked-gone c id (some b) e = ground (arith, lookup-remove id id c.blocked_peers, eq_refl id)

pub unblocked-invites :
    (c : Config) (id : Text) (o : Option BlockedPeer) → (unblocked c id o).invites ≡ c.invites
unfolding save
unblocked-invites c id none = refl
unblocked-invites c id (some b) = refl

redeem-Keeps : (c : Config) (r : Result Invite) → Keeps c (redeem c r).0
unfolding redeem save
redeem-Keeps c (Result.err e) = record { known = refl; net = refl }
redeem-Keeps c (Result.ok i) = record { known = refl; net = refl }

redeem-blocked : (c : Config) (r : Result Invite) → (redeem c r).0.blocked_peers ≡ c.blocked_peers
unfolding redeem save
redeem-blocked c (Result.err e) = refl
redeem-blocked c (Result.ok i) = refl

-- How the terms of the new peer were settled: those passed, or those of an invite, of which one
-- use was spent.
pub data Settled (env : Env) (c : Config) (params : AddPeerParams) (c' : Config) (terms : Terms)
    : Type 0 where
  passed :
      params.redeem_invite_token ≡ []
      → c' ≡ c
      → terms.alias ≡ trim_space params.alias
      → terms.allow_using_as_exit_node ≡ params.allow_using_as_exit_node
      → terms.invite_id ≡ []
      → Settled env c params c' terms
  by_invite :
      (i : Invite)
      → IsSpent c params.redeem_invite_token env.now c' i
      → Keeps c c'
      → c'.blocked_peers ≡ c.blocked_peers
      → terms.alias ≡ trim_space i.alias
      → terms.allow_using_as_exit_node ≡ i.we_allow_using_as_exit_node
      → terms.invite_id ≡ i.id
      → Settled env c params c' terms

abbrev pub Settles : Env → Config → AddPeerParams → Config × Result Terms → Type 0
Settles env c params (c', Result.ok terms) = Settled env c params c' terms
Settles env c params (c', Result.err e) = c' ≡ c

invite_terms_lem :
    (env : Env) (c : Config) (params : AddPeerParams) (c' : Config) (r : Result Invite)
    → Reserved c params.redeem_invite_token env.now c' r
    → Keeps c c'
    → c'.blocked_peers ≡ c.blocked_peers
    → Settles env c params (invite_terms (c', r))
invite_terms_lem env c params c' (Result.err e) h k b = h
invite_terms_lem env c params c' (Result.ok i) h k b = by_invite i h k b refl refl refl

pub is_empty-eq : (t : Text) → is_empty t ≡ true → t ≡ []
is_empty-eq [] h = refl
is_empty-eq (x ∷ xs) h = cc

pub settle_terms_lem :
    (env : Env) (c : Config) (params : AddPeerParams)
    → Distinct c.invites
    → Settles env c params (settle_terms env c params)
unfolding reserve_invite
settle_terms_lem env c params d = elim (Bool-cases (is_empty params.redeem_invite_token)) [
  | inl e ↦ rw e (passed (is_empty-eq params.redeem_invite_token e) refl refl refl refl)
  | inr e ↦
      let token = params.redeem_invite_token in
      rw e (
        invite_terms_lem env c params (reserve_invite c token env.now).0
          (reserve_invite c token env.now).1 (reserve_invite-Reserved c token env.now d)
          (redeem-Keeps c (find_usable_invite c token env.now))
          (redeem-blocked c (find_usable_invite c token env.now)))
]
