-- ===== src/Service/AuthStatus.antt =====
-- service/auth_status.go: the state of AuthStatus and AddPeer. A peer.ID is kept in its text form,
-- an emitted event and a started goroutine are appended to a list.
pub mod Handshake
pub mod Exchange
pub mod Settle
pub mod Choose
pub mod Add
pub mod Answers
pub mod Secrecy
pub mod Merge
use awl.Base.{
  ℕ, Bool, true, false, not, List, [], ◌∷◌, ◌++◌, Option, none, some, Text, Map, lookup, insert,
  remove, values, is_empty, is_space, trim_space, if◌then◌else◌, map,
}
use awl.Base.Go
use awl.Base.Go.{Go, panic, ◌>>=◌}
use awl.Config.Types.{Config, KnownPeer, Invite, display_name}
use awl.Config.Peers.{
  get_peer, remove_blocked_peer, is_uniq_peer_alias, gen_uniq_peer_alias, upsert_peer,
}
use awl.Config.Invites
use awl.Config.Invites.{InviteError, Result, reserve_invite}
use awl.Config.Ipv4.{ipv4_text}
use awl.Config.Address.{Parser, IpError, check_ip_unique, generate_next_ip}
use awl.Protocol.Messages.{AuthPeer}

-- net.ParseIP, strings.ToLower and the clock
pub record Env : Type 0 where
  pub parse : Parser
  pub lower : Text → Text
  pub now : ℕ

pub data Event : Type 0 where
  received_auth_request : AuthPeer → Text → Event
  invite_redeemed : Text → Text → Event

-- what a started goroutine is to do
pub data Task : Type 0 where
  announce : Text → Bool → Text → Task
  exchange_new_status_info : Text → Task

pub record AuthStatus : Type 0 where
  pub conf : Config
  pub ingoing_auths : Map AuthPeer
  pub outgoing_auths : Map AuthPeer
  pub events : List Event
  pub tasks : List Task

pub record AddPeerParams : Type 0 where
  pub peer_id : Text
  pub name : Text
  pub alias : Text
  pub uniquify_alias : Bool
  pub confirmed : Bool
  pub ip_addr : Text
  pub allow_using_as_exit_node : Bool
  pub redeem_invite_token : Text
  pub pending_invite_token : Text

pub data AddError : Type 0 where
  already_added name_not_unique : AddError
  redeeming : InviteError → AddError
  address : IpError → AddError

unfoldable pub underscored : ℕ → ℕ
underscored r = if is_space r then 95 else r

-- awldns.TrimDomainName
unfoldable pub trim_domain_name : Env → Text → Text
unfolding underscored trim_space
trim_domain_name env domain = env.lower (map underscored (trim_space domain))

-- what the invite decides of the new peer, or the parameters without one
pub record Terms : Type 0 where
  pub alias : Text
  pub allow_using_as_exit_node : Bool
  pub invite_id : Text

-- the alias, or none for a clash; a search that does not end is a panic
abbrev pub resolve_alias : Config → AddPeerParams → Text → Go (Option Text)
resolve_alias c params alias =
    if params.uniquify_alias
    then elim (gen_uniq_peer_alias c params.name alias) [ none ↦ panic | some a ↦ Go.ok (some a) ]
    else if is_uniq_peer_alias c [] alias
    then Go.ok (some alias)
    else Go.ok none

pub data Chosen : Type 0 where
  given : Text → Chosen
  refused : IpError → Chosen

abbrev pub verdict : Text → Option IpError → Chosen
verdict ip none = given ip
verdict ip (some e) = refused e

-- the address that is generated
abbrev pub printed : Option ℕ → Go Chosen
printed none = panic
printed (some n) = Go.ok (given (ipv4_text n))

abbrev pub choose_address : Env → Config → AddPeerParams → Go Chosen
choose_address env c params =
    if is_empty params.ip_addr
    then generate_next_ip env.parse c [] >>= printed
    else check_ip_unique env.parse c params.ip_addr params.peer_id >>= λ e.
        Go.ok (verdict params.ip_addr e)

abbrev pub new_peer : Env → AddPeerParams → Terms → Text → Text → KnownPeer
new_peer env params terms alias ip =
    let kp : KnownPeer = record {
      peer_id = params.peer_id;
      name = params.name;
      alias = alias;
      ip_addr = ip;
      ip_addr_v6 = [];
      domain_name = [];
      created_at = env.now;
      last_seen = 0;
      confirmed = params.confirmed;
      declined = false;
      we_allow_using_as_exit_node = terms.allow_using_as_exit_node;
      allowed_using_as_exit_node = false;
      remote_vpn_gateway_server_enabled = false;
      invite_id = terms.invite_id;
      pending_invite_token = params.pending_invite_token;
    } in
    record kp { domain_name = trim_domain_name env (display_name kp) }

-- the end of AddPeer: the peer is stored, its own request is dropped, a goroutine is started
unfoldable pub store_peer : Env → AuthStatus → AddPeerParams → Terms → Text → Text → AuthStatus
store_peer env s params terms alias ip = record s {
  conf = upsert_peer s.conf (new_peer env params terms alias ip);
  ingoing_auths = remove params.peer_id s.ingoing_auths;
  tasks = s.tasks ++ (announce params.peer_id params.confirmed params.pending_invite_token ∷ []);
}

abbrev pub addressed :
    Env → AuthStatus → AddPeerParams → Terms → Text → Chosen → AuthStatus × Option AddError
addressed env s params terms alias (refused e) = (s, some (address e))
addressed env s params terms alias (given ip) = (store_peer env s params terms alias ip, none)

abbrev pub named :
    Env → AuthStatus → AddPeerParams → Terms → Option Text → Go (AuthStatus × Option AddError)
named env s params terms none = Go.ok (s, some name_not_unique)
named env s params terms (some alias) =
    choose_address env s.conf params >>= λ a. Go.ok (addressed env s params terms alias a)

abbrev pub admitted :
    Env → AuthStatus → AddPeerParams → Config × Result Terms → Go (AuthStatus × Option AddError)
admitted env s params (c, Result.err e) = Go.ok (record s { conf = c }, some (redeeming e))
admitted env s params (c, Result.ok terms) =
    resolve_alias c params terms.alias >>= named env (record s { conf = c }) params terms

abbrev pub invite_terms : Config × Result Invite → Config × Result Terms
invite_terms (c, Result.err e) = (c, Result.err e)
invite_terms (c, Result.ok i) = (
  c,
  Result.ok (record {
    alias = trim_space i.alias;
    allow_using_as_exit_node = i.we_allow_using_as_exit_node;
    invite_id = i.id;
  }),
)

-- with a token one use of the invite is spent, and its settings replace those passed
abbrev pub settle_terms : Env → Config → AddPeerParams → Config × Result Terms
settle_terms env c params =
    if is_empty params.redeem_invite_token
    then (
      c,
      Result.ok (record {
        alias = trim_space params.alias;
        allow_using_as_exit_node = params.allow_using_as_exit_node;
        invite_id = [];
      }),
    )
    else invite_terms (reserve_invite c params.redeem_invite_token env.now)

-- AddPeer after the peer was unblocked and looked up
abbrev pub add_new :
    Env → AuthStatus → AddPeerParams → Option KnownPeer → Go (AuthStatus × Option AddError)
add_new env s params (some kp) = Go.ok (s, some already_added)
add_new env s params none = admitted env s params (settle_terms env s.conf params)

unfoldable pub add_peer : Env → AuthStatus → AddPeerParams → Go (AuthStatus × Option AddError)
unfolding trim_space is_uniq_peer_alias gen_uniq_peer_alias check_ip_unique generate_next_ip
add_peer env s params =
    let s' : AuthStatus = record s { conf = remove_blocked_peer s.conf params.peer_id } in
    add_new env s' params (get_peer s'.conf params.peer_id)
