-- ===== src/Service/AuthStatus/Add.antt =====
-- AddPeer on each of its branches.
use awl.Base.{
  ℕ, ◌+◌, ◌^◌, ◌≤◌, ◌≡◌, ◌≢◌, refl, ap, sym, ◌∙◌, true, [], Option, none, some, arith, Text, lookup,
  insert, remove, values, Distinct, length, subst,
}
use awl.Base.Go.{Go, Returns, Returns-bind, Returns-weaken}
use awl.Config.Types.{Config, KnownPeer, Invite, save, emit_known_peer_changed}
use awl.Config.Peers.{get_peer, remove_blocked_peer, upsert_peer, aliases}
use awl.Config.Invites.{Result}
use awl.Config.Invites.Limits.{IsUsable, spend}
use awl.Config.Address.{v6}
use awl.Service.AuthStatus.{
  Env, AuthStatus, AddPeerParams, AddError, Terms, resolve_alias, Chosen, given, refused,
  choose_address, new_peer, store_peer, addressed, named, admitted, settle_terms, add_new, add_peer,
}
use awl.Service.AuthStatus.Settle.{
  Keeps, unblocked-Keeps, unblocked-gone, unblocked-invites, Settled, passed, by_invite, Settles,
  settle_terms_lem,
}
use awl.Service.AuthStatus.Choose.{
  FreshAlias, Resolved, resolve_alias_lem, PickedOr, choose_address_lem,
}

-- What the new peer was granted: the settings passed, or those of an invite, one use of which is
-- spent.
pub data Granted (env : Env) (s : AuthStatus) (params : AddPeerParams) (s' : AuthStatus)
    (peer : KnownPeer) : Type 0 where
  as_passed :
      params.redeem_invite_token ≡ []
      → s'.conf.invites ≡ s.conf.invites
      → peer.we_allow_using_as_exit_node ≡ params.allow_using_as_exit_node
      → peer.invite_id ≡ []
      → Granted env s params s' peer
  as_invited :
      (i : Invite)
      → IsUsable s.conf.invites params.redeem_invite_token env.now i
      → s'.conf.invites ≡ insert i.id (spend i) s.conf.invites
      → peer.we_allow_using_as_exit_node ≡ i.we_allow_using_as_exit_node
      → peer.invite_id ≡ i.id
      → Granted env s params s' peer

-- A peer was added.
pub record IsAdded (env : Env) (s : AuthStatus) (params : AddPeerParams) (s' : AuthStatus)
    : Type 0 where
  pub was_new : get_peer s.conf params.peer_id ≡ none
  pub peer : KnownPeer
  pub stored : s'.conf.known_peers ≡ insert params.peer_id peer s.conf.known_peers
  pub id : peer.peer_id ≡ params.peer_id
  pub confirmed : peer.confirmed ≡ params.confirmed
  pub unique : FreshAlias s.conf.known_peers peer.alias
  pub granted : Granted env s params s' peer
  pub unblocked : lookup params.peer_id s'.conf.blocked_peers ≡ none
  pub cleared : s'.ingoing_auths ≡ remove params.peer_id s.ingoing_auths
  pub outgoing : s'.outgoing_auths ≡ s.outgoing_auths
  pub events : s'.events ≡ s.events

-- No peer was added. With a generated alias and a generated address no invite is spent either.
pub record IsRefused (s : AuthStatus) (params : AddPeerParams) (s' : AuthStatus) : Type 0 where
  pub known : s'.conf.known_peers ≡ s.conf.known_peers
  pub spent : params.uniquify_alias ≡ true → params.ip_addr ≡ [] → s'.conf.invites ≡ s.conf.invites
  pub ingoing : s'.ingoing_auths ≡ s.ingoing_auths
  pub outgoing : s'.outgoing_auths ≡ s.outgoing_auths
  pub events : s'.events ≡ s.events
  pub tasks : s'.tasks ≡ s.tasks

abbrev pub Outcome : Env → AuthStatus → AddPeerParams → AuthStatus × Option AddError → Type 0
Outcome env s params (s', none) = IsAdded env s params s'
Outcome env s params (s', some e) = IsRefused s params s'

Settled-Keeps :
    (env : Env) (c : Config) (params : AddPeerParams) (c' : Config) (terms : Terms)
    → Settled env c params c' terms
    → Keeps c c'
Settled-Keeps env c params c' terms (passed t e a b d) = record {
  known = ap (λ k. k.known_peers) e;
  net = ap (λ k. k.ip_net) e;
}
Settled-Keeps env c params c' terms (by_invite i h k b t a d) = k

-- The parameters of the stages after the look-up.
module _ (env : Env) (s : AuthStatus) (params : AddPeerParams)
    (new : get_peer s.conf params.peer_id ≡ none)
    (gone : lookup params.peer_id s.conf.blocked_peers ≡ none) (c : Config) (terms : Terms)
    (settled : Settled env s.conf params c terms) where
  settled_Keeps : Keeps s.conf c
  settled_Keeps = Settled-Keeps env s.conf params c terms settled

  granted_lem :
      (alias ip : Text)
      → Granted env s params
          (store_peer env (record s { conf = c }) params terms alias ip)
          (new_peer env params terms alias ip)
  unfolding store_peer upsert_peer emit_known_peer_changed save
  granted_lem alias ip = elim settled [
    | passed t e a b d ↦ as_passed t (ap (λ k. k.invites) e) b d
    | by_invite i h k bl a b d ↦
        as_invited h.before h.usable
          (h.invites ∙ ap (λ j. insert h.before.id j s.conf.invites) h.after)
          (b ∙ ap (λ j. j.we_allow_using_as_exit_node) h.after) (d ∙ ap (λ j. j.id) h.after)
  ]

  still_unblocked : lookup params.peer_id c.blocked_peers ≡ none
  still_unblocked = elim settled [
    | passed t e a b d ↦ ap (λ k. lookup params.peer_id k.blocked_peers) e ∙ gone
    | by_invite i h k bl a b d ↦ ap (lookup params.peer_id) bl ∙ gone
  ]

  addressed_lem :
      (alias : Text) (o : Chosen)
      → FreshAlias c.known_peers alias
      → PickedOr env c params o
      → Outcome env s params (addressed env (record s { conf = c }) params terms alias o)
  unfolding store_peer upsert_peer emit_known_peer_changed save
  addressed_lem alias (refused e) f p = record {
    known = settled_Keeps.known;
    spent = λ u ip. absurd (ground (arith, p, ip));
    ingoing = refl;
    outgoing = refl;
    events = refl;
    tasks = refl;
  }
  addressed_lem alias (given ip) f p = record {
    was_new = new;
    peer = new_peer env params terms alias ip;
    stored = ap (insert params.peer_id (new_peer env params terms alias ip)) settled_Keeps.known;
    id = refl;
    confirmed = refl;
    unique = subst (λ m. FreshAlias m alias) settled_Keeps.known f;
    granted = granted_lem alias ip;
    unblocked = still_unblocked;
    cleared = refl;
    outgoing = refl;
    events = refl;
  }

  named_lem :
      (o : Option Text)
      → c.ip_net ≢ none
      → ((n : ℕ) → env.parse params.ip_addr ≢ some (v6 n))
      → Resolved c params o
      → Returns (Outcome env s params) (named env (record s { conf = c }) params terms o)
  named_lem none hn hv r = record {
    known = settled_Keeps.known;
    spent = λ u ip. absurd (ground (arith, r, u));
    ingoing = refl;
    outgoing = refl;
    events = refl;
    tasks = refl;
  }
  named_lem (some alias) hn hv r =
      Returns-bind (PickedOr env c params) (Outcome env s params) (choose_address env c params)
        (λ a. Go.ok (addressed env (record s { conf = c }) params terms alias a))
        (choose_address_lem env c params hn hv) (λ o p. addressed_lem alias o r p)

  admitted_lem :
      length (aliases (values s.conf.known_peers)) + 1 ≤ 10 ^ 20
      → s.conf.ip_net ≢ none
      → ((n : ℕ) → env.parse params.ip_addr ≢ some (v6 n))
      → Returns (Outcome env s params) (admitted env s params (c, Result.ok terms))
  admitted_lem hl hn hv =
      Returns-bind (Resolved c params) (Outcome env s params) (resolve_alias c params terms.alias)
        (named env (record s { conf = c }) params terms)
        (resolve_alias_lem c params terms.alias (rw settled_Keeps.known hl))
        (λ o r. named_lem o (rw settled_Keeps.net hn) hv r)

settled_result :
    (env : Env) (s : AuthStatus) (params : AddPeerParams) (r : Config × Result Terms)
    → get_peer s.conf params.peer_id ≡ none
    → lookup params.peer_id s.conf.blocked_peers ≡ none
    → Settles env s.conf params r
    → length (aliases (values s.conf.known_peers)) + 1 ≤ 10 ^ 20
    → s.conf.ip_net ≢ none
    → ((n : ℕ) → env.parse params.ip_addr ≢ some (v6 n))
    → Returns (Outcome env s params) (admitted env s params r)
settled_result env s params (c, Result.ok terms) new gone settled hl hn hv =
    admitted_lem env s params new gone c terms settled hl hn hv
settled_result env s params (c, Result.err e) new gone same hl hn hv = record {
  known = ap (λ k. k.known_peers) same;
  spent = λ _ _. ap (λ k. k.invites) same;
  ingoing = refl;
  outgoing = refl;
  events = refl;
  tasks = refl;
}

add_new_lem :
    (env : Env) (s : AuthStatus) (params : AddPeerParams) (o : Option KnownPeer)
    → get_peer s.conf params.peer_id ≡ o
    → lookup params.peer_id s.conf.blocked_peers ≡ none
    → Distinct s.conf.invites
    → length (aliases (values s.conf.known_peers)) + 1 ≤ 10 ^ 20
    → s.conf.ip_net ≢ none
    → ((n : ℕ) → env.parse params.ip_addr ≢ some (v6 n))
    → Returns (Outcome env s params) (add_new env s params o)
add_new_lem env s params (some kp) e gone d hl hn hv = record {
  known = refl;
  spent = λ _ _. refl;
  ingoing = refl;
  outgoing = refl;
  events = refl;
  tasks = refl;
}
add_new_lem env s params none e gone d hl hn hv =
    settled_result env s params (settle_terms env s.conf params) e gone
      (settle_terms_lem env s.conf params d) hl hn hv

-- The outcome after the peer was unblocked, said of the state before.
unblocked_Outcome :
    (env : Env) (s : AuthStatus) (c : Config) (params : AddPeerParams)
    (r : AuthStatus × Option AddError)
    → Keeps s.conf c
    → c.invites ≡ s.conf.invites
    → Outcome env (record s { conf = c }) params r
    → Outcome env s params r
unblocked_Outcome env s c params (s', some e) k i h = record {
  known = h.known ∙ k.known;
  spent = λ u a. h.spent u a ∙ i;
  ingoing = h.ingoing;
  outgoing = h.outgoing;
  events = h.events;
  tasks = h.tasks;
}
unblocked_Outcome env s c params (s', none) k i h = record {
  was_new = ap (lookup params.peer_id) (sym k.known) ∙ h.was_new;
  peer = h.peer;
  stored = h.stored ∙ ap (insert params.peer_id h.peer) k.known;
  id = h.id;
  confirmed = h.confirmed;
  unique = subst (λ m. FreshAlias m h.peer.alias) k.known h.unique;
  granted = elim h.granted [
    | as_passed t e a b ↦ as_passed t (e ∙ i) a b
    | as_invited j u e a b ↦
        as_invited j (subst (λ m. IsUsable m params.redeem_invite_token env.now j) i u)
          (e ∙ ap (insert j.id (spend j)) i) a b
  ];
  unblocked = h.unblocked;
  cleared = h.cleared;
  outgoing = h.outgoing;
  events = h.events;
}

-- AddPeer returns, when there is a local address, the given address is no IPv6 address, no invite
-- has two entries and there are fewer than 10^20 - 1 peers. Without an error the peer was unknown and is
-- stored under its ID, unblocked, with an alias that no other peer has; its own request is
-- dropped; and either it has the permission passed and no invite is touched, or one use of one
-- usable invite with the token is spent and the permission is the invite's. With an error the peers,
-- the requests, the events and the goroutines are as before, and if alias and address were to be
-- generated so are the invites.
pub add_peer_lem :
    (env : Env) (s : AuthStatus) (params : AddPeerParams)
    → Distinct s.conf.invites
    → length (aliases (values s.conf.known_peers)) + 1 ≤ 10 ^ 20
    → s.conf.ip_net ≢ none
    → ((n : ℕ) → env.parse params.ip_addr ≢ some (v6 n))
    → Returns (Outcome env s params) (add_peer env s params)
unfolding add_peer remove_blocked_peer
add_peer_lem env s params d hl hn hv =
    let o = lookup params.peer_id s.conf.blocked_peers in
    let c = remove_blocked_peer s.conf params.peer_id in
    let keeps : Keeps s.conf c = unblocked-Keeps s.conf params.peer_id o in
    let same : c.invites ≡ s.conf.invites = unblocked-invites s.conf params.peer_id o in
    Returns-weaken (Outcome env (record s { conf = c }) params) (Outcome env s params)
      (add_new env (record s { conf = c }) params (get_peer c params.peer_id))
      (λ r. unblocked_Outcome env s c params r keeps same)
      (add_new_lem env (record s { conf = c }) params (get_peer c params.peer_id) refl
        (unblocked-gone s.conf params.peer_id o refl) (rw same d) (rw keeps.known hl)
        (rw keeps.net hn) hv)
