-- ===== src/Service/AuthStatus/Answers.antt =====
-- The ways in which AuthStreamHandler answers a request.
use awl.Base.{
  ℕ, ◌+◌, ◌^◌, ◌≤◌, ◌≡◌, ◌≢◌, refl, ap, Bool, true, false, ◌||◌, [], ◌∷◌, ◌++◌, Option, none, some,
  Text, lookup, insert, values, Distinct, Bool-cases, inl, inr, length,
}
use awl.Base.Go.{Go, Returns, Returns-bind, Returns-result}
use awl.Config.Types.{Invite}
use awl.Config.Peers.{get_peer, aliases}
use awl.Config.Invites
use awl.Config.Invites.Limits.{IsUsable}
use awl.Config.Address.{v6}
use awl.Protocol.Messages.{AuthPeer, AuthPeerResponse}
use awl.Service.AuthStatus.{Env, received_auth_request, AuthStatus, AddError, add_peer}
use awl.Service.AuthStatus.Handshake.{
  is_some, check_invite, auto_params, on_invite_redeemed, after_add, add_peer_from_auth, answer,
  auto_accept, without_token, auth_stream_handler,
}
use awl.Service.AuthStatus.Add.{IsAdded, Outcome, add_peer_lem}

-- Nothing admits the peer: its token is of no usable invite and requests are not accepted
-- automatically, or AddPeer failed.
pub data Unadmitted (env : Env) (s : AuthStatus) (id : Text) (auth : AuthPeer) : Type 0 where
  not_invited :
      check_invite env s auth.token ≡ none
      → s.conf.auto_accept_auth_requests ≡ false
      → Unadmitted env s id auth
  not_added :
      (tried : AuthStatus) (e : AddError)
      → add_peer env s (auto_params id (without_token auth) (check_invite env s auth.token))
        ≡ Go.ok (tried, some e)
      → Unadmitted env s id auth

-- The ways in which a request ends.
pub data Answer (env : Env) (s : AuthStatus) (id : Text) (auth : AuthPeer) (s' : AuthStatus)
    (response : AuthPeerResponse) : Type 0 where
  was_blocked :
      is_some (lookup id s.conf.blocked_peers) ≡ true
      → s' ≡ s
      → response ≡ record { confirmed = is_some (get_peer s.conf id); declined = true }
      → Answer env s id auth s' response
  was_known :
      is_some (lookup id s.conf.blocked_peers) ≡ false
      → is_some (get_peer s.conf id) ≡ true
      → s' ≡ s
      → response ≡ record { confirmed = true; declined = false }
      → Answer env s id auth s' response
  joined :
      is_some (lookup id s.conf.blocked_peers) ≡ false
      → is_some (get_peer s.conf id) ≡ false
      → (is_some (check_invite env s auth.token) || s.conf.auto_accept_auth_requests) ≡ true
      → (added : AuthStatus)
      → IsAdded env s (auto_params id (without_token auth) (check_invite env s auth.token)) added
      → s' ≡ on_invite_redeemed id added (check_invite env s auth.token)
      → response ≡ record { confirmed = true; declined = false }
      → Answer env s id auth s' response
  offered :
      is_some (lookup id s.conf.blocked_peers) ≡ false
      → is_some (get_peer s.conf id) ≡ false
      → Unadmitted env s id auth
      → s'.conf.known_peers ≡ s.conf.known_peers
      → s'.conf.invites ≡ s.conf.invites
      → s'.ingoing_auths ≡ insert id (without_token auth) s.ingoing_auths
      → s'.events ≡ s.events ++ (received_auth_request (without_token auth) id ∷ [])
      → response ≡ record { confirmed = false; declined = false }
      → Answer env s id auth s' response

abbrev pub Answers : Env → AuthStatus → Text → AuthPeer → AuthStatus × AuthPeerResponse → Type 0
Answers env s id auth (s', response) = Answer env s id auth s' response

module _ (env : Env) (s : AuthStatus) (id : Text) (auth : AuthPeer)
    (blocked : is_some (lookup id s.conf.blocked_peers) ≡ false)
    (known : is_some (get_peer s.conf id) ≡ false) where
  after_add_lem :
      (r : AuthStatus × Option AddError)
      → (is_some (check_invite env s auth.token) || s.conf.auto_accept_auth_requests) ≡ true
      → add_peer env s (auto_params id (without_token auth) (check_invite env s auth.token))
        ≡ Go.ok r
      → Outcome env s (auto_params id (without_token auth) (check_invite env s auth.token)) r
      → Answers env s id auth
          (answer id (without_token auth) false (after_add id (check_invite env s auth.token) r))
  after_add_lem (s', some e) h q o =
      offered blocked known (not_added s' e q) o.known (o.spent refl refl)
        (ap (insert id (without_token auth)) o.ingoing)
        (ap (λ es. es ++ (received_auth_request (without_token auth) id ∷ [])) o.events) refl
  after_add_lem (s', none) h q o = joined blocked known h s' o refl refl

  uninvited :
      (o : Option Invite)
      → check_invite env s auth.token ≡ o
      → (is_some o || s.conf.auto_accept_auth_requests) ≡ false
      → Unadmitted env s id auth
  uninvited none e h = not_invited e h
  uninvited (some i) e h = cc h

  abbrev Good : AuthStatus × Bool → Type 0
  Good r = Answers env s id auth (answer id (without_token auth) false r)

  auto_accept_lem :
      Distinct s.conf.invites
      → length (aliases (values s.conf.known_peers)) + 1 ≤ 10 ^ 20
      → s.conf.ip_net ≢ none
      → ((n : ℕ) → env.parse [] ≢ some (v6 n))
      → Returns Good (auto_accept env s id (without_token auth) (check_invite env s auth.token))
  unfolding add_peer_from_auth
  auto_accept_lem d hl hn hv =
      let invite = check_invite env s auth.token in
      let params = auto_params id (without_token auth) invite in
      elim (Bool-cases (is_some invite || s.conf.auto_accept_auth_requests)) [
        | inl e ↦
            let (r, q, o) =
              Returns-result (Outcome env s params) (add_peer env s params)
                (add_peer_lem env s params d hl hn hv) in
            rw (e, q) (after_add_lem r e q o)
        | inr e ↦ rw e (offered blocked known (uninvited invite refl e) refl refl refl refl refl)
      ]

-- The request is answered in one of these ways.
pub auth_stream_handler-Answers :
    (env : Env) (s : AuthStatus) (id : Text) (auth : AuthPeer)
    → Distinct s.conf.invites
    → length (aliases (values s.conf.known_peers)) + 1 ≤ 10 ^ 20
    → s.conf.ip_net ≢ none
    → ((n : ℕ) → env.parse [] ≢ some (v6 n))
    → Returns (Answers env s id auth) (auth_stream_handler env s id auth)
unfolding auth_stream_handler
auth_stream_handler-Answers env s id auth d hl hn hv =
    elim (Bool-cases (is_some (lookup id s.conf.blocked_peers))) [
      | inl b ↦ rw b (was_blocked b refl refl)
      | inr b ↦ elim (Bool-cases (is_some (get_peer s.conf id))) [
        | inl k ↦ rw (b, k) (was_known b k refl refl)
        | inr k ↦
            let auth' = without_token auth in
            rw (b, k)
              (Returns-bind (Good env s id auth b k) (Answers env s id auth)
                (auto_accept env s id auth' (check_invite env s auth.token))
                (λ r. Go.ok (answer id auth' false r))
                (auto_accept_lem env s id auth b k d hl hn hv) (λ r g. g))
      ]
    ]

-- The invite that was found can be redeemed now, or no invite with the token can.
abbrev pub IsInvited : Env → AuthStatus → Text → Option Invite → Type 0
IsInvited env s token none = (i : Invite) → token ≢ [] → ¬ IsUsable s.conf.invites token env.now i
IsInvited env s token (some i) = IsUsable s.conf.invites token env.now i
