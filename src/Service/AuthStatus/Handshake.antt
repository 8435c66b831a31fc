-- ===== src/Service/AuthStatus/Handshake.antt =====
-- service/auth_status.go: an auth request, received and sent. A handler is one step. What arrives
-- from the other side is an argument: none for an error.
use awl.Base.{
  Bool, true, false, not, ◌&&◌, ◌||◌, List, [], ◌∷◌, ◌++◌, Option, none, some, Text, Map, lookup,
  insert, remove, is_empty, if◌then◌else◌,
}
use awl.Base.Go.{Go, ◌>>=◌}
use awl.Config.Types.{KnownPeer, Invite}
use awl.Config.Peers.{get_peer, update_peer_fields, upsert_blocked_peer}
use awl.Config.Invites
use awl.Config.Invites.{Result}
use awl.Protocol.Messages.{AuthPeer, AuthPeerResponse}
use awl.Service.AuthStatus.{
  Env, received_auth_request, invite_redeemed, exchange_new_status_info, AuthStatus, AddPeerParams,
  AddError, add_peer,
}

abbrev pub is_some {ℓ} : {A : Type ℓ} → Option A → Bool
is_some none = false
is_some (some a) = true

abbrev pub valid_invite : Result Invite → Option Invite
valid_invite (Result.ok i) = some i
valid_invite (Result.err e) = none

-- checkInvite: the invite, or none for (_, false)
unfoldable pub check_invite : Env → AuthStatus → Text → Option Invite
check_invite env s token =
    if is_empty token then none else valid_invite (Invites.check_invite s.conf token env.now)

abbrev pub redeemed_token : Option Invite → Text
redeemed_token none = []
redeemed_token (some i) = i.token

abbrev pub auto_params : Text → AuthPeer → Option Invite → AddPeerParams
auto_params id auth invite = record {
  peer_id = id;
  name = auth.name;
  alias = [];
  uniquify_alias = true;
  confirmed = true;
  ip_addr = [];
  allow_using_as_exit_node = false;
  redeem_invite_token = redeemed_token invite;
  pending_invite_token = [];
}

-- onInviteRedeemed
abbrev pub on_invite_redeemed : Text → AuthStatus → Option Invite → AuthStatus
on_invite_redeemed id s none = s
on_invite_redeemed id s (some i) = record s { events = s.events ++ (invite_redeemed id i.id ∷ []) }

abbrev pub after_add : Text → Option Invite → AuthStatus × Option AddError → AuthStatus × Bool
after_add id invite (s, some e) = (s, false)
after_add id invite (s, none) = (on_invite_redeemed id s invite, true)

unfoldable pub add_peer_from_auth :
    Env → AuthStatus → Text → AuthPeer → Option Invite → Go (AuthStatus × Bool)
add_peer_from_auth env s id auth invite =
    add_peer env s (auto_params id auth invite) >>= λ r. Go.ok (after_add id invite r)

-- who was not taken in is offered for a manual accept
abbrev pub offer : Text → AuthPeer → AuthStatus → AuthStatus
offer id auth s = record s {
  ingoing_auths = insert id auth s.ingoing_auths;
  events = s.events ++ (received_auth_request auth id ∷ []);
}

-- the end of AuthStreamHandler, from `isBlocked` and the last `known`
abbrev pub answer : Text → AuthPeer → Bool → AuthStatus × Bool → AuthStatus × AuthPeerResponse
answer id auth blocked (s, known) = (
  (if not blocked && not known then offer id auth s else s),
  record { confirmed = known; declined = blocked },
)

-- the automatic accept, for a peer that is neither blocked nor known
abbrev pub auto_accept : Env → AuthStatus → Text → AuthPeer → Option Invite → Go (AuthStatus × Bool)
auto_accept env s id auth invite =
    if is_some invite || s.conf.auto_accept_auth_requests
    then add_peer_from_auth env s id auth invite
    else Go.ok (s, false)

abbrev pub take_in :
    Env → AuthStatus → Text → AuthPeer → Text → Bool → Bool → Go (AuthStatus × Bool)
take_in env s id auth token blocked known =
    if not blocked && not known
    then auto_accept env s id auth (check_invite env s token)
    else Go.ok (s, known)

abbrev pub without_token : AuthPeer → AuthPeer
without_token auth = record auth { token = [] }

-- AuthStreamHandler on a request that was received, with the response that it sends
unfoldable pub auth_stream_handler :
    Env → AuthStatus → Text → AuthPeer → Go (AuthStatus × AuthPeerResponse)
unfolding check_invite add_peer_from_auth
auth_stream_handler env s id auth =
    let blocked = is_some (lookup id s.conf.blocked_peers) in
    let known = is_some (get_peer s.conf id) in
    take_in env s id (without_token auth) auth.token blocked known >>= λ r.
    Go.ok (answer id (without_token auth) blocked r)

abbrev pub declined_by : KnownPeer → KnownPeer
declined_by kp = record kp { declined = true }

-- SendAuthRequest once there is an answer
unfoldable pub auth_answered : AuthStatus → Text → AuthPeerResponse → AuthStatus
auth_answered s id response = record s {
  outgoing_auths =
      if response.confirmed || response.declined
      then remove id s.outgoing_auths
      else s.outgoing_auths;
  conf = if response.declined then (update_peer_fields s.conf id declined_by).0 else s.conf;
}

-- SendAuthRequest: the request is kept for a retry before anything is sent.
unfoldable pub send_auth_request :
    AuthStatus → Text → AuthPeer → Option AuthPeerResponse → AuthStatus
unfolding auth_answered
send_auth_request s id req reply =
    let s' : AuthStatus = record s { outgoing_auths = insert id req s.outgoing_auths } in
    elim reply [ none ↦ s' | some response ↦ auth_answered s' id response ]

unfoldable pub block_peer : Env → AuthStatus → Text → Text → AuthStatus
block_peer env s id name = record s {
  conf = upsert_blocked_peer s.conf env.now id name;
  outgoing_auths = remove id s.outgoing_auths;
  tasks = s.tasks ++ (exchange_new_status_info id ∷ []);
}

-- the loop of restoreOutgoingAuths
unfoldable pub restored : Text → List KnownPeer → Map AuthPeer
restored name [] = []
restored name (kp ∷ kps) =
    let rest = restored name kps in
    if not kp.confirmed && not kp.declined
    then insert kp.peer_id (record { name = name; token = kp.pending_invite_token }) rest
    else rest
