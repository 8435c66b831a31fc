-- ===== src/Service/AuthStatus/Merge.antt =====
-- What processPeerStatusInfo changes, and what it leaves to the settings.
use awl.Base.{
  ◌+◌, ◌^◌, ◌≤◌, ◌≡◌, ◌≢◌, refl, ap, sym, ◌∙◌, true, false, not, ◌||◌, [], Option, none, some,
  arith, Text, lookup, insert, values, lookup-insert, is_empty, if◌then◌else◌, Bool-cases, ◌⊎◌, inl,
  inr, length, eq_iff, eq_refl, subst,
}
use awl.Base.Go.{ok, Returns}
use awl.Config.Types.{Config, KnownPeer, save, emit_known_peer_changed}
use awl.Config.Peers.{get_peer, update_peer_fields, mutated, gen_uniq_peer_alias, aliases}
use awl.Config.Peers.Alias.{gen_uniq_alias_total, contains-lookup}
use awl.Config.Peers.Table.{IsPeerTable, insert-IsPeerTable}
use awl.Protocol.Messages.{PeerStatusInfo}
use awl.Service.AuthStatus.{Env}
use awl.Service.AuthStatus.Settle.{is_empty-eq}
use awl.Service.AuthStatus.Exchange.{
  clear_selected_exit_node, mark_declined, mark_confirmed, confirmed_status,
  process_peer_status_info,
}

mutated-known :
    (c : Config) (id : Text) (f : KnownPeer → KnownPeer) (kp : KnownPeer)
    → (mutated c id f (some kp)).0.known_peers ≡ insert id (f kp) c.known_peers
unfolding save emit_known_peer_changed
mutated-known c id f kp = ground arith

clear-known : (c : Config) (id : Text) → (clear_selected_exit_node c id).known_peers ≡ c.known_peers
unfolding clear_selected_exit_node save
clear-known c id = ground arith

clear-exit :
    (c : Config) (id : Text) → id ≢ [] → (clear_selected_exit_node c id).socks5_using_peer_id ≢ id
unfolding clear_selected_exit_node save
clear-exit c id n = ground (arith, n, eq_iff c.socks5_using_peer_id id)

-- The settings of a peer, which a status exchange does not touch.
pub record KeepsSettings (kp kp' : KnownPeer) : Type 0 where
  pub peer_id : kp'.peer_id ≡ kp.peer_id
  pub ip_addr : kp'.ip_addr ≡ kp.ip_addr
  pub we_allow : kp'.we_allow_using_as_exit_node ≡ kp.we_allow_using_as_exit_node
  pub invite : kp'.invite_id ≡ kp.invite_id
  pub created_at : kp'.created_at ≡ kp.created_at
  pub alias : kp.alias ≢ [] → kp'.alias ≡ kp.alias
  pub token : kp'.pending_invite_token ≡ []

-- The state after the status info of a peer was merged.
pub record IsMerged (c : Config) (id : Text) (info : PeerStatusInfo) (c' : Config) : Type 0 where
  pub unknown : get_peer c id ≡ none → c'.known_peers ≡ c.known_peers
  pub others : (j : Text) → j ≢ id → lookup j c'.known_peers ≡ lookup j c.known_peers
  pub merged :
      (kp : KnownPeer)
      → get_peer c id ≡ some kp
      → (kp' : KnownPeer) × (get_peer c' id ≡ some kp')
        × KeepsSettings kp kp'
        × (kp'.declined ≡ info.declined)
        × (kp'.confirmed ≡ (if info.declined then kp.confirmed else true))
  pub exit :
      (info.declined || not info.allow_using_as_exit_node) ≡ true
      → id ≢ []
      → c'.socks5_using_peer_id ≢ id
  pub table : IsPeerTable c.known_peers → IsPeerTable c'.known_peers

-- Nobody has the alias, or it is the peer's own.
abbrev AliasKept : Config → KnownPeer → KnownPeer → Type 0
AliasKept c kp kp' =
    (kp'.alias ≡ kp.alias)
    ⊎ ((j : Text) (a : KnownPeer) → lookup j c.known_peers ≡ some a → a.alias ≢ kp'.alias)

-- An update of the fields of one peer, for any change that keeps the settings.
record IsUpdate (c : Config) (info : PeerStatusInfo) (f : KnownPeer → KnownPeer) : Type 0 where
  keeps : (kp : KnownPeer) → KeepsSettings kp (f kp)
  declined : (kp : KnownPeer) → (f kp).declined ≡ info.declined
  confirmed : (kp : KnownPeer) → (f kp).confirmed ≡ (if info.declined then kp.confirmed else true)
  alias : (kp : KnownPeer) → AliasKept c kp (f kp)

other_alias :
    (c : Config) (id : Text) (kp kp' : KnownPeer)
    → lookup id c.known_peers ≡ some kp
    → IsPeerTable c.known_peers
    → AliasKept c kp kp'
    → (j : Text) (a : KnownPeer) → lookup j c.known_peers ≡ some a
    → j ≢ id
    → a.alias ≢ kp'.alias
other_alias c id kp kp' e t (inl same) j a at n = λ q. n (t.unique j id a kp at e (q ∙ same))
other_alias c id kp kp' e t (inr fresh) j a at n = fresh j a at

merge_lem :
    (c : Config) (id : Text) (info : PeerStatusInfo) (f : KnownPeer → KnownPeer) (c' : Config)
    (o : Option KnownPeer)
    → IsUpdate c info f
    → ((info.declined || not info.allow_using_as_exit_node) ≡ true
        → id ≢ []
        → c'.socks5_using_peer_id ≢ id)
    → lookup id c.known_peers ≡ o
    → c'.known_peers ≡ (mutated c id f o).0.known_peers
    → IsMerged c id info c'
merge_lem c id info f c' none u exit e k = record {
  unknown = λ _. k;
  others = λ j _. ap (lookup j) k;
  merged = λ kp h. absurd (cc (e, h));
  exit = exit;
  table = λ t. rw k t;
}
merge_lem c id info f c' (some kp) u exit e k =
    let stored : c'.known_peers ≡ insert id (f kp) c.known_peers = k ∙ mutated-known c id f kp in
    let at = λ (j : Text). ap (lookup j) stored ∙ lookup-insert id j (f kp) c.known_peers in
    record {
      unknown = λ h. absurd (cc (e, h));
      others = λ j n. ground (arith, at j, n, eq_iff id j);
      merged = λ kp' h.
          let same : kp ≡ kp' = cc (e, h) in
          subst
            (λ q.
              (kp'' : KnownPeer) × (get_peer c' id ≡ some kp'')
              × KeepsSettings q kp''
              × (kp''.declined ≡ info.declined)
              × (kp''.confirmed ≡ (if info.declined then q.confirmed else true)))
            same
            (f kp, ground (arith, at id, eq_refl id), u.keeps kp, u.declined kp, u.confirmed kp);
      exit = exit;
      table = λ t. rw stored (
          insert-IsPeerTable c.known_peers id (f kp) t ((u.keeps kp).peer_id ∙ t.keyed id kp e)
            (t.named id kp e) (other_alias c id kp (f kp) e t (u.alias kp)));
    }

declined-IsUpdate :
    (env : Env) (c : Config) (info : PeerStatusInfo)
    → info.declined ≡ true
    → IsUpdate c info (mark_declined env.now)
declined-IsUpdate env c info h = record {
  keeps = λ kp. record {
    peer_id = refl;
    ip_addr = refl;
    we_allow = refl;
    invite = refl;
    created_at = refl;
    alias = λ _. refl;
    token = refl;
  };
  declined = λ kp. sym h;
  confirmed = λ kp. ground (arith, h);
  alias = λ kp. inl refl;
}

confirmed-IsUpdate :
    (env : Env) (c : Config) (info : PeerStatusInfo) (alias : Text)
    → info.declined ≡ false
    → ((j : Text) (a : KnownPeer) → lookup j c.known_peers ≡ some a → a.alias ≢ alias)
    → IsUpdate c info (mark_confirmed env info alias)
unfolding mark_confirmed
confirmed-IsUpdate env c info alias h fresh = record {
  keeps = λ kp. record {
    peer_id = refl;
    ip_addr = refl;
    we_allow = refl;
    invite = refl;
    created_at = refl;
    alias = λ n. elim (Bool-cases (is_empty kp.alias)) [
      | inl e ↦ absurd (n (is_empty-eq kp.alias e))
      | inr e ↦ rw e refl
    ];
    token = refl;
  };
  declined = λ kp. sym h;
  confirmed = λ kp. ground (arith, h);
  alias = λ kp. elim (Bool-cases (is_empty kp.alias)) [
    | inl e ↦ inr (rw e fresh)
    | inr e ↦ inl (rw e refl)
  ];
}

declined_branch :
    (env : Env) (c : Config) (id : Text) (info : PeerStatusInfo)
    → info.declined ≡ true
    → IsMerged c id info
        (clear_selected_exit_node (update_peer_fields c id (mark_declined env.now)).0 id)
unfolding update_peer_fields
declined_branch env c id info h =
    let c' = (update_peer_fields c id (mark_declined env.now)).0 in
    merge_lem c id info (mark_declined env.now) (clear_selected_exit_node c' id)
      (lookup id c.known_peers) (declined-IsUpdate env c info h) (λ _ n. clear-exit c' id n) refl
      (clear-known c' id)

confirmed_branch :
    (env : Env) (c : Config) (id : Text) (info : PeerStatusInfo) (alias : Text)
    → info.declined ≡ false
    → ((j : Text) (a : KnownPeer) → lookup j c.known_peers ≡ some a → a.alias ≢ alias)
    → IsMerged c id info (confirmed_status env c id info alias)
unfolding update_peer_fields
confirmed_branch env c id info alias h fresh =
    let c' = (update_peer_fields c id (mark_confirmed env info alias)).0 in
    let end = confirmed_status env c id info alias in
    merge_lem c id info (mark_confirmed env info alias) end (lookup id c.known_peers)
      (confirmed-IsUpdate env c info alias h fresh)
      (λ q n. ground (arith, q, h, clear-exit c' id n)) refl (ground (arith, clear-known c' id))

-- Processing the status info of a peer returns when there are fewer than 10^20 - 1 peers. An unknown peer
-- changes no peer, a known one changes only itself: its ID, IPv4 address, permission, invite,
-- creation time and alias, if it has one, stay, the pending token is dropped, and it is confirmed and not
-- declined, or, on a decline, declined and confirmed as before. A peer that declines or does not
-- allow it is not the exit node of SOCKS5 afterwards. The peers stay each under its own ID with
-- distinct aliases.
pub process_peer_status_info_lem :
    (env : Env) (c : Config) (id : Text) (info : PeerStatusInfo)
    → length (aliases (values c.known_peers)) + 1 ≤ 10 ^ 20
    → Returns (IsMerged c id info) (process_peer_status_info env c id info)
unfolding process_peer_status_info gen_uniq_peer_alias
process_peer_status_info_lem env c id info hl = elim (Bool-cases info.declined) [
  | inl e ↦
      let r : process_peer_status_info env c id info
          ≡ ok (clear_selected_exit_node (update_peer_fields c id (mark_declined env.now)).0 id) =
        rw e refl in
      rw r (declined_branch env c id info e)
  | inr e ↦
      let (a, found, free, _) =
        gen_uniq_alias_total info.name [] (aliases (values c.known_peers)) hl in
      let r : process_peer_status_info env c id info ≡ ok (confirmed_status env c id info a) =
        simp (e, found) refl in
      subst (Returns (IsMerged c id info)) (sym r)
        (confirmed_branch env c id info a e (λ j k at. contains-lookup a c.known_peers j k free at))
]
