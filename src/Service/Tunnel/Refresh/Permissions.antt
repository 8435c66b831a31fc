-- ===== src/Service/Tunnel/Refresh/Permissions.antt =====
-- The loop of RefreshPeersList that stores the permissions of the known peers.
use awl.Base.{
  ◌≡◌, ◌≢◌, refl, ap, sym, ◌∙◌, Bool, List, [], ◌∷◌, Option, none, some, arith, All, Distinct, Text,
  Map, lookup, values, lookup-insert, ◌==◌, eq_iff, eq_refl, Bool-cases, ◌⊎◌, inl, inr,
}
use awl.Config.Types.{KnownPeer}
use awl.Service.Tunnel.{VpnPeer}
use awl.Service.Tunnel.Refresh.{with_permission, permit, store_permissions}

-- Each VpnPeer stands under its own ID.
abbrev pub Keyed : Map VpnPeer → Type 0
Keyed m = (id : Text) (vp : VpnPeer) → lookup id m ≡ some vp → vp.peer_id ≡ id

lookup-some :
    (id j : Text) (m : Map VpnPeer) (w : VpnPeer)
    → id ≡ j
    → lookup id m ≡ some w
    → lookup j m ≢ none
lookup-some id j m w e h k = cc (ap (λ i. lookup i m) e, h, k)

-- A permission that is stored for one peer, read back.
permit_own :
    (id : Text) (allow : Bool) (m : Map VpnPeer) (o : Option VpnPeer) (vp : VpnPeer)
    → lookup id m ≡ o
    → lookup id (permit id allow m o) ≡ some vp
    → vp.we_allow_using_as_exit_node ≡ allow
permit_own id allow m none vp e h = absurd (cc (e, h))
permit_own id allow m (some w) vp e h =
    let same : some (with_permission allow w) ≡ some vp =
      ground (arith, lookup-insert id id (with_permission allow w) m, eq_refl id, h) in
    let eq : with_permission allow w ≡ vp = cc in ap (λ v. v.we_allow_using_as_exit_node) (sym eq)

permit_other :
    (id j : Text) (allow : Bool) (m : Map VpnPeer) (o : Option VpnPeer)
    → j ≢ id
    → lookup j (permit id allow m o) ≡ lookup j m
permit_other id j allow m none n = refl
permit_other id j allow m (some w) n =
    ground (arith, lookup-insert id j (with_permission allow w) m, eq_iff id j, n)

-- who is in the table does not change
permit_known :
    (id j : Text) (allow : Bool) (m : Map VpnPeer) (o : Option VpnPeer)
    → lookup id m ≡ o
    → lookup j (permit id allow m o) ≢ none
    → lookup j m ≢ none
permit_known id j allow m none e h = h
permit_known id j allow m (some w) e h = elim (Bool-cases (id == j)) [
  | inl q ↦ λ k. lookup-some id j m w ((eq_iff id j).0 q) e k
  | inr q ↦ λ k. h (ground (arith, lookup-insert id j (with_permission allow w) m, q, k))
]

pub store_known :
    (m : Map VpnPeer) (kps : List KnownPeer) (j : Text)
    → lookup j (store_permissions m kps) ≢ none
    → lookup j m ≢ none
unfolding store_permissions
store_known m [] j h = h
store_known m (kp ∷ kps) j h =
    let id = kp.peer_id in
    let allow = kp.we_allow_using_as_exit_node in
    permit_known id j allow m (lookup id m) refl
      (store_known (permit id allow m (lookup id m)) kps j h)

permit_present :
    (id j : Text) (allow : Bool) (m : Map VpnPeer) (o : Option VpnPeer)
    → lookup j m ≢ none
    → lookup j (permit id allow m o) ≢ none
permit_present id j allow m none h = h
permit_present id j allow m (some w) h =
    λ k. ground (arith, lookup-insert id j (with_permission allow w) m, h, k)

pub store_present :
    (m : Map VpnPeer) (kps : List KnownPeer) (j : Text)
    → lookup j m ≢ none
    → lookup j (store_permissions m kps) ≢ none
unfolding store_permissions
store_present m [] j h = h
store_present m (kp ∷ kps) j h =
    let id = kp.peer_id in
    let allow = kp.we_allow_using_as_exit_node in
    store_present (permit id allow m (lookup id m)) kps j
      (permit_present id j allow m (lookup id m) h)

-- The list has a peer with the ID.
abbrev pub Named {ℓ} : {A : Type ℓ} → (A → Text) → Text → List A → Type 0
Named f j [] = ⊥
Named f j (a ∷ rest) = (f a ≡ j) ⊎ Named f j rest

pub lookup-Named {ℓ} :
    {A : Type ℓ} (f : A → Text) (m : Map A) (j : Text) (a : A)
    → f a ≡ j
    → lookup j m ≡ some a
    → Named f j (values m)
unfolding lookup
lookup-Named f [] j a e h = absurd (cc h)
lookup-Named f ((k, b) ∷ m) j a e h = elim (Bool-cases (k == j)) [
  | inl q ↦ let same : some b ≡ some a = (rw q at h) in let eq : b ≡ a = cc in inl (ap f eq ∙ e)
  | inr q ↦ inr (lookup-Named f m j a e (rw q at h))
]

-- the permission that the table has for a peer is the known peer's
abbrev pub Right : Map VpnPeer → Text → KnownPeer → Type 0
Right m j kp =
    (vp : VpnPeer)
    → lookup j m ≡ some vp
    → vp.we_allow_using_as_exit_node ≡ kp.we_allow_using_as_exit_node

-- Storing the permissions of a table of known peers.
module _ (known : Map KnownPeer) (j : Text) (kp : KnownPeer) (at : lookup j known ≡ some kp) where
  permit-Right :
      (m : Map VpnPeer) (k : KnownPeer)
      → lookup k.peer_id known ≡ some k
      → Right m j kp ⊎ (k.peer_id ≡ j)
      → Right (permit k.peer_id k.we_allow_using_as_exit_node m (lookup k.peer_id m)) j kp
  permit-Right m k ok r = elim (Bool-cases (k.peer_id == j)) [
    | inl q ↦
        let e : k.peer_id ≡ j = (eq_iff k.peer_id j).0 q in
        let same : k ≡ kp = cc (ok, at, ap (λ i. lookup i known) e) in
        λ vp h.
          permit_own k.peer_id k.we_allow_using_as_exit_node m (lookup k.peer_id m) vp refl (
            ap
              (λ i.
                lookup i (permit k.peer_id k.we_allow_using_as_exit_node m (lookup k.peer_id m)))
              e
            ∙ h)
          ∙ ap (λ v. v.we_allow_using_as_exit_node) same
    | inr q ↦
        let n : j ≢ k.peer_id = λ e. cc (q, (eq_iff k.peer_id j).1 (sym e)) in
        λ vp h. elim r [
          | inl right ↦ right vp (
              sym (permit_other k.peer_id j k.we_allow_using_as_exit_node m (lookup k.peer_id m) n)
              ∙ h)
          | inr e ↦ absurd (n (sym e))
        ]
  ]

  pub store-Right :
      (m : Map VpnPeer) (kps : List KnownPeer)
      → All (λ k. lookup k.peer_id known ≡ some k) kps
      → Right m j kp ⊎ Named (λ k. k.peer_id) j kps
      → Right (store_permissions m kps) j kp
  unfolding store_permissions
  store-Right m [] a (inl r) = r
  store-Right m [] a (inr n) = absurd n
  store-Right m (k ∷ kps) a (inl r) =
      store-Right (permit k.peer_id k.we_allow_using_as_exit_node m (lookup k.peer_id m)) kps a.1
        (inl (permit-Right m k a.0 (inl r)))
  store-Right m (k ∷ kps) a (inr (inl e)) =
      store-Right (permit k.peer_id k.we_allow_using_as_exit_node m (lookup k.peer_id m)) kps a.1
        (inl (permit-Right m k a.0 (inr e)))
  store-Right m (k ∷ kps) a (inr (inr n)) =
      store-Right (permit k.peer_id k.we_allow_using_as_exit_node m (lookup k.peer_id m)) kps a.1
        (inr n)

-- Each value of a table without double keys is found under its own ID.
pub values_found :
    (whole m : Map KnownPeer)
    → Distinct m
    → ((id : Text) (kp : KnownPeer) → lookup id m ≡ some kp → lookup id whole ≡ some kp)
    → ((id : Text) (kp : KnownPeer) → lookup id whole ≡ some kp → kp.peer_id ≡ id)
    → All (λ k. lookup k.peer_id whole ≡ some k) (values m)
unfolding lookup
values_found whole [] d sub keyed = tt
values_found whole ((k, v) ∷ m) d sub keyed =
    let first : lookup k whole ≡ some v = sub k v (ground (arith, eq_refl k)) in
    (
      ap (λ i. lookup i whole) (keyed k v first) ∙ first,
      values_found whole m d.1 (λ id kp h. sub id kp (ground (arith, h, d.0, eq_iff k id))) keyed,
    )
