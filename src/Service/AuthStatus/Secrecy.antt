-- ===== src/Service/AuthStatus/Secrecy.antt =====
-- Invite tokens and the table of peers, over an auth request and over AddPeer.
use awl.Base.{
  ℕ, ◌+◌, ◌^◌, ◌≤◌, ◌≡◌, ◌≢◌, refl, ap, sym, ◌∙◌, true, List, [], ◌∷◌, ◌++◌, Option, none, some,
  arith, All, Text, Map, lookup, insert, remove, values, lookup-insert, Distinct, ◌==◌, Bool-cases,
  inl, inr, length, eq_refl, subst,
}
use awl.Base.Go.{Returns, Returns-weaken}
use awl.Config.Types.{Invite}
use awl.Config.Peers.{get_peer, aliases}
use awl.Config.Peers.Table.{IsPeerTable, insert-IsPeerTable}
use awl.Config.Address.{v6}
use awl.Protocol.Messages.{AuthPeer, AuthPeerResponse}
use awl.Service.AuthStatus.{
  Env, Event, received_auth_request, invite_redeemed, AuthStatus, AddPeerParams, AddError, add_peer,
}
use awl.Service.AuthStatus.Handshake.{
  is_some, check_invite, on_invite_redeemed, without_token, auth_stream_handler,
}
use awl.Service.AuthStatus.Add.{IsAdded, Outcome, add_peer_lem}
use awl.Service.AuthStatus.Answers.{
  Answer, was_blocked, was_known, joined, offered, Answers, auth_stream_handler-Answers,
}

module _ {ℓ κ} {V : Type ℓ} (P : V → Type κ) where
  All-insert :
      (k : Text) (v : V) (m : Map V) → All P (values m) → P v → All P (values (insert k v m))
  unfolding insert
  All-insert k v [] h p = (p, tt)
  All-insert k v ((j, w) ∷ m) h p = elim (Bool-cases (j == k)) [
    | inl e ↦ rw e (p, h.1)
    | inr e ↦ rw e (h.0, All-insert k v m h.1 p)
  ]

  All-remove : (k : Text) (m : Map V) → All P (values m) → All P (values (remove k m))
  unfolding remove
  All-remove k [] h = tt
  All-remove k ((j, w) ∷ m) h = elim (Bool-cases (j == k)) [
    | inl e ↦ rw e (All-remove k m h.1)
    | inr e ↦ rw e (h.0, All-remove k m h.1)
  ]

  All-append : (xs : List V) (y : V) → All P xs → P y → All P (xs ++ (y ∷ []))
  All-append [] y h p = (p, tt)
  All-append (x ∷ xs) y h p = (h.0, All-append xs y h.1 p)

abbrev pub TokenFree : AuthPeer → Type 0
TokenFree auth = auth.token ≡ []

abbrev pub TokenFreeEvent : Event → Type 0
TokenFreeEvent (received_auth_request auth id) = TokenFree auth
TokenFreeEvent (invite_redeemed id invite) = Unit

pub record IsSilent (s : AuthStatus) : Type 0 where
  pub ingoing : All TokenFree (values s.ingoing_auths)
  pub events : All TokenFreeEvent s.events

redeemed-IsSilent :
    (id : Text) (s : AuthStatus) (o : Option Invite)
    → IsSilent s
    → IsSilent (on_invite_redeemed id s o)
redeemed-IsSilent id s none h = h
redeemed-IsSilent id s (some i) h = record {
  ingoing = h.ingoing;
  events = All-append TokenFreeEvent s.events (invite_redeemed id i.id) h.events tt;
}

-- what holds of the state and the answer after a request
pub record IsSafe (s : AuthStatus) (id : Text) (s' : AuthStatus) (response : AuthPeerResponse)
    : Type 0 where
  pub silent : IsSilent s → IsSilent s'
  pub table : id ≢ [] → IsPeerTable s.conf.known_peers → IsPeerTable s'.conf.known_peers
  pub confirmed : response.confirmed ≡ is_some (get_peer s'.conf id)
  pub declined : response.declined ≡ is_some (lookup id s.conf.blocked_peers)

added-IsPeerTable :
    (env : Env) (s : AuthStatus) (params : AddPeerParams) (s' : AuthStatus)
    → IsAdded env s params s'
    → params.peer_id ≢ []
    → IsPeerTable s.conf.known_peers
    → IsPeerTable s'.conf.known_peers
added-IsPeerTable env s params s' h n t = rw h.stored (
    insert-IsPeerTable s.conf.known_peers params.peer_id h.peer t h.id n
      (λ j a at _. h.unique j a at (λ e. t.named j a at (sym (t.keyed j a at) ∙ e))))

redeemed-conf :
    (id : Text) (s : AuthStatus) (o : Option Invite) → (on_invite_redeemed id s o).conf ≡ s.conf
redeemed-conf id s none = refl
redeemed-conf id s (some i) = refl

added-known :
    (env : Env) (s : AuthStatus) (params : AddPeerParams) (s' : AuthStatus)
    → IsAdded env s params s'
    → is_some (get_peer s'.conf params.peer_id) ≡ true
added-known env s params s' h =
    let id = params.peer_id in
    let found : lookup id (insert id h.peer s.conf.known_peers) ≡ some h.peer =
      ground (arith, lookup-insert id id h.peer s.conf.known_peers, eq_refl id) in
    ap is_some (ap (lookup id) h.stored ∙ found)

added-IsSilent :
    (env : Env) (s : AuthStatus) (params : AddPeerParams) (s' : AuthStatus)
    → IsAdded env s params s'
    → IsSilent s
    → IsSilent s'
added-IsSilent env s params s' h t = record {
  ingoing = rw h.cleared (All-remove TokenFree params.peer_id s.ingoing_auths t.ingoing);
  events = rw h.events t.events;
}

same-IsSafe :
    (s : AuthStatus) (id : Text) (s' : AuthStatus) (response : AuthPeerResponse)
    → s' ≡ s
    → response.confirmed ≡ is_some (get_peer s.conf id)
    → response.declined ≡ is_some (lookup id s.conf.blocked_peers)
    → IsSafe s id s' response
same-IsSafe s id s' response same c d = record {
  silent = subst IsSilent (sym same);
  table = λ _ t. subst (λ u. IsPeerTable u.conf.known_peers) (sym same) t;
  confirmed = c ∙ ap (λ u. is_some (get_peer u.conf id)) (sym same);
  declined = d;
}

Answer-IsSafe :
    (env : Env) (s : AuthStatus) (id : Text) (auth : AuthPeer) (s' : AuthStatus)
    (response : AuthPeerResponse)
    → Answer env s id auth s' response
    → IsSafe s id s' response
Answer-IsSafe env s id auth s' response (was_blocked b same r) =
    same-IsSafe s id s' response same (ap (λ x. x.confirmed) r) (ap (λ x. x.declined) r ∙ sym b)
Answer-IsSafe env s id auth s' response (was_known b k same r) =
    same-IsSafe s id s' response same (ap (λ x. x.confirmed) r ∙ sym k)
      (ap (λ x. x.declined) r ∙ sym b)
Answer-IsSafe env s id auth s' response (joined b k ok added h same r) =
    let invite = check_invite env s auth.token in
    let conf : s'.conf ≡ added.conf = ap (λ u. u.conf) same ∙ redeemed-conf id added invite in
    record {
      silent = λ t.
          subst IsSilent (sym same)
            (redeemed-IsSilent id added invite (added-IsSilent env s _ added h t));
      table = λ n t.
          subst (λ c. IsPeerTable c.known_peers) (sym conf) (added-IsPeerTable env s _ added h n t);
      confirmed =
          ap (λ x. x.confirmed) r
          ∙ sym (ap (λ c. is_some (get_peer c id)) conf ∙ added-known env s _ added h);
      declined = ap (λ x. x.declined) r ∙ sym b;
    }
Answer-IsSafe env s id auth s' response (offered b k why kp inv ing ev r) = record {
  silent = λ t. record {
    ingoing = rw ing (All-insert TokenFree id (without_token auth) s.ingoing_auths t.ingoing refl);
    events = rw ev (
        All-append TokenFreeEvent s.events (received_auth_request (without_token auth) id) t.events
          refl);
  };
  table = λ _ t. rw kp t;
  confirmed = ap (λ x. x.confirmed) r ∙ sym (ap (λ m. is_some (lookup id m)) kp ∙ k);
  declined = ap (λ x. x.declined) r ∙ sym b;
}

-- AuthStreamHandler returns, when there is a local address, no invite has two entries, there are
-- fewer than 10^20 - 1 peers and the empty text is no IPv6 address. Then, if no ingoing request and
-- no event has a token, none has one afterwards, whatever token the request carried; the peers stay each under its own
-- ID with distinct aliases, for a peer ID that is not empty; and the answer confirms exactly a peer
-- that is known afterwards and declines exactly a peer that is blocked.
pub auth_stream_handler-IsSafe :
    (env : Env) (s : AuthStatus) (id : Text) (auth : AuthPeer)
    → Distinct s.conf.invites
    → length (aliases (values s.conf.known_peers)) + 1 ≤ 10 ^ 20
    → s.conf.ip_net ≢ none
    → ((n : ℕ) → env.parse [] ≢ some (v6 n))
    → Returns (λ r. IsSafe s id r.0 r.1) (auth_stream_handler env s id auth)
auth_stream_handler-IsSafe env s id auth d hl hn hv =
    Returns-weaken (Answers env s id auth) (λ r. IsSafe s id r.0 r.1)
      (auth_stream_handler env s id auth) (λ r a. Answer-IsSafe env s id auth r.0 r.1 a)
      (auth_stream_handler-Answers env s id auth d hl hn hv)

Outcome-IsPeerTable :
    (env : Env) (s : AuthStatus) (params : AddPeerParams) (r : AuthStatus × Option AddError)
    → params.peer_id ≢ []
    → IsPeerTable s.conf.known_peers
    → Outcome env s params r
    → IsPeerTable r.0.conf.known_peers
Outcome-IsPeerTable env s params (s', none) n t h = added-IsPeerTable env s params s' h n t
Outcome-IsPeerTable env s params (s', some e) n t h = rw h.known t

-- Under the conditions of add_peer_lem, and for a peer ID that is not empty, AddPeer keeps each
-- peer under its own ID and the aliases distinct, whether it adds the peer or not.
pub add_peer-IsPeerTable :
    (env : Env) (s : AuthStatus) (params : AddPeerParams)
    → Distinct s.conf.invites
    → length (aliases (values s.conf.known_peers)) + 1 ≤ 10 ^ 20
    → s.conf.ip_net ≢ none
    → ((n : ℕ) → env.parse params.ip_addr ≢ some (v6 n))
    → params.peer_id ≢ []
    → IsPeerTable s.conf.known_peers
    → Returns (λ r. IsPeerTable r.0.conf.known_peers) (add_peer env s params)
add_peer-IsPeerTable env s params d hl hn hv n t =
    Returns-weaken (Outcome env s params) (λ r. IsPeerTable r.0.conf.known_peers)
      (add_peer env s params) (λ r h. Outcome-IsPeerTable env s params r n t h)
      (add_peer_lem env s params d hl hn hv)
