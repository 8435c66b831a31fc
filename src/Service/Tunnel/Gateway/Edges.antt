-- ===== src/Service/Tunnel/Gateway/Edges.antt =====
-- The connectivity events of the gateway, over what libp2p reports of the peers.
use awl.Base.{
  ◌≡◌, refl, ap, ◌∙◌, Bool, true, false, not, ◌&&◌, List, [], ◌∷◌, ◌++◌, Text, subst, ◌==◌,
  is_empty, if◌then◌else◌,
}
use awl.Service.Tunnel.{Tunnel}
use awl.Service.Tunnel.Gateway.{is_gateway, edge, on_peer_connected, on_peer_disconnected}

-- What libp2p reports, with whether the gateway is still connected.
pub data Notice : Type 0 where
  connected_to : Text → Notice
  disconnected_from : Text → Bool → Notice

unfoldable pub notify : Tunnel → Notice → Tunnel
unfolding on_peer_connected on_peer_disconnected
notify t (connected_to id) = on_peer_connected t id
notify t (disconnected_from id still) = on_peer_disconnected t id still

unfoldable pub notify_all : Tunnel → List Notice → Tunnel
notify_all t [] = t
notify_all t (n ∷ ns) = notify_all (notify t n) ns

-- Each event names the gateway and turns the state before it around; the last one leaves `end`.
abbrev pub Edges : Text → Bool → List (Bool × Text) → Bool → Type 0
Edges gw b [] end = b ≡ end
Edges gw b ((e, id) ∷ es) end = (e ≡ not b) × (id ≡ gw) × Edges gw e es end

append_nil {ℓ} : {A : Type ℓ} (xs : List A) → xs ≡ xs ++ []
append_nil [] = refl
append_nil (x ∷ xs) = ap (λ l. x ∷ l) (append_nil xs)

append_assoc {ℓ} : {A : Type ℓ} (xs ys zs : List A) → (xs ++ ys) ++ zs ≡ xs ++ (ys ++ zs)
append_assoc [] ys zs = refl
append_assoc (x ∷ xs) ys zs = ap (λ l. x ∷ l) (append_assoc xs ys zs)

-- the client is enabled, with a gateway
abbrev pub has_gateway : Tunnel → Bool
has_gateway t = t.vpn_gateway_client_enabled && not (is_empty t.vpn_gateway_peer_id)

-- What the notices say of the gateway, if there is one: a connection to it, or a disconnection
-- after which it is not connected any more. Those of other peers say nothing.
abbrev pub reports : Bool → Text → List Notice → List Bool
reports active gw [] = []
reports active gw (connected_to id ∷ ns) =
    let rest = reports active gw ns in if active && id == gw then true ∷ rest else rest
reports active gw (disconnected_from id still ∷ ns) =
    let rest = reports active gw ns in
    if active && id == gw && not still then false ∷ rest else rest

-- a report that repeats the state makes no event
abbrev pub changes : Text → Bool → List Bool → List (Bool × Text)
changes gw b [] = []
changes gw false (false ∷ rs) = changes gw false rs
changes gw false (true ∷ rs) = (true, gw) ∷ changes gw true rs
changes gw true (false ∷ rs) = (false, gw) ∷ changes gw false rs
changes gw true (true ∷ rs) = changes gw true rs

abbrev pub last_report : Bool → List Bool → Bool
last_report b [] = b
last_report b (r ∷ rs) = last_report r rs

-- what becomes of the tunnel under reports
record IsTold (t : Tunnel) (rs : List Bool) (t' : Tunnel) : Type 0 where
  events :
      t'.connectivity_events
      ≡ t.connectivity_events ++ changes t.vpn_gateway_peer_id t.vpn_gateway_connected rs
  state : t'.vpn_gateway_connected ≡ last_report t.vpn_gateway_connected rs
  gateway : t'.vpn_gateway_peer_id ≡ t.vpn_gateway_peer_id
  active : has_gateway t' ≡ has_gateway t

IsTold-nothing : (t : Tunnel) → IsTold t [] t
IsTold-nothing t = record {
  events = append_nil t.connectivity_events;
  state = refl;
  gateway = refl;
  active = refl;
}

-- one report, taken in by a swap
IsTold-once :
    (t : Tunnel) (r b : Bool)
    → t.vpn_gateway_connected ≡ b
    → IsTold t (r ∷ []) (edge t r (if r then not b else b))
IsTold-once t true true e = record {
  events = rw e (append_nil t.connectivity_events);
  state = e;
  gateway = refl;
  active = refl;
}
IsTold-once t true false e = record {
  events = rw e refl;
  state = refl;
  gateway = refl;
  active = refl;
}
IsTold-once t false true e = record {
  events = rw e refl;
  state = refl;
  gateway = refl;
  active = refl;
}
IsTold-once t false false e = record {
  events = rw e (append_nil t.connectivity_events);
  state = e;
  gateway = refl;
  active = refl;
}

IsTold-if :
    (t : Tunnel) (r b heard : Bool)
    → t.vpn_gateway_connected ≡ b
    → IsTold t (if heard then r ∷ [] else []) (edge t r (heard && (if r then not b else b)))
IsTold-if t r b true e = IsTold-once t r b e
IsTold-if t true true false e = IsTold-nothing t
IsTold-if t true false false e = IsTold-nothing t
IsTold-if t false true false e = IsTold-nothing t
IsTold-if t false false false e = IsTold-nothing t

notify_lem :
    (t : Tunnel) (n : Notice)
    → IsTold t (reports (has_gateway t) t.vpn_gateway_peer_id (n ∷ [])) (notify t n)
unfolding notify on_peer_connected on_peer_disconnected
notify_lem t (connected_to id) = IsTold-if t true t.vpn_gateway_connected (is_gateway t id) refl
notify_lem t (disconnected_from id still) =
    IsTold-if t false t.vpn_gateway_connected (is_gateway t id && not still) refl

changes-append :
    (gw : Text) (b : Bool) (xs ys : List Bool)
    → changes gw b xs ++ changes gw (last_report b xs) ys ≡ changes gw b (xs ++ ys)
changes-append gw b [] ys = refl
changes-append gw false (false ∷ xs) ys = changes-append gw false xs ys
changes-append gw false (true ∷ xs) ys = ap (λ l. (true, gw) ∷ l) (changes-append gw true xs ys)
changes-append gw true (false ∷ xs) ys = ap (λ l. (false, gw) ∷ l) (changes-append gw false xs ys)
changes-append gw true (true ∷ xs) ys = changes-append gw true xs ys

last_report-append :
    (b : Bool) (xs ys : List Bool) → last_report (last_report b xs) ys ≡ last_report b (xs ++ ys)
last_report-append b [] ys = refl
last_report-append b (x ∷ xs) ys = last_report-append x xs ys

IsTold-twice :
    (t t' t'' : Tunnel) (xs ys : List Bool)
    → IsTold t xs t'
    → IsTold t' ys t''
    → IsTold t (xs ++ ys) t''
IsTold-twice t t' t'' xs ys h k =
    let gw = t.vpn_gateway_peer_id in
    let b = t.vpn_gateway_connected in
    record {
      events =
          k.events
          ∙ rw (h.gateway, h.state)
              (ap (λ es. es ++ changes gw (last_report b xs) ys) h.events
                ∙ append_assoc t.connectivity_events (changes gw b xs)
                    (changes gw (last_report b xs) ys)
                ∙ ap (λ es. t.connectivity_events ++ es) (changes-append gw b xs ys));
      state = k.state ∙ ap (λ x. last_report x ys) h.state ∙ last_report-append b xs ys;
      gateway = k.gateway ∙ h.gateway;
      active = k.active ∙ h.active;
    }

cons_if :
    (b r : Bool) (rs : List Bool) → (if b then r ∷ [] else []) ++ rs ≡ (if b then r ∷ rs else rs)
cons_if true r rs = refl
cons_if false r rs = refl

reports_cons :
    (active : Bool) (gw : Text) (n : Notice) (ns : List Notice)
    → reports active gw (n ∷ []) ++ reports active gw ns ≡ reports active gw (n ∷ ns)
reports_cons active gw (connected_to id) ns =
    cons_if (active && id == gw) true (reports active gw ns)
reports_cons active gw (disconnected_from id still) ns =
    cons_if (active && id == gw && not still) false (reports active gw ns)

notify_all-IsTold :
    (t : Tunnel) (ns : List Notice)
    → IsTold t (reports (has_gateway t) t.vpn_gateway_peer_id ns) (notify_all t ns)
unfolding notify_all
notify_all-IsTold t [] = IsTold-nothing t
notify_all-IsTold t (n ∷ ns) =
    let first = notify_lem t n in
    let rest =
      subst (λ a. IsTold (notify t n) (reports a t.vpn_gateway_peer_id ns) (notify_all t (n ∷ ns)))
        first.active
        (subst
          (λ gw.
            IsTold (notify t n) (reports (has_gateway (notify t n)) gw ns) (notify_all t (n ∷ ns)))
          first.gateway (notify_all-IsTold (notify t n) ns)) in
    subst (λ rs. IsTold t rs (notify_all t (n ∷ ns)))
      (reports_cons (has_gateway t) t.vpn_gateway_peer_id n ns)
      (IsTold-twice t (notify t n) (notify_all t (n ∷ ns))
        (reports (has_gateway t) t.vpn_gateway_peer_id (n ∷ []))
        (reports (has_gateway t) t.vpn_gateway_peer_id ns) first rest)

Edges-changes :
    (gw : Text) (b : Bool) (rs : List Bool) → Edges gw b (changes gw b rs) (last_report b rs)
Edges-changes gw b [] = refl
Edges-changes gw false (false ∷ rs) = Edges-changes gw false rs
Edges-changes gw false (true ∷ rs) = (refl, refl, Edges-changes gw true rs)
Edges-changes gw true (false ∷ rs) = (refl, refl, Edges-changes gw false rs)
Edges-changes gw true (true ∷ rs) = Edges-changes gw true rs

-- Over any sequence of connections and disconnections of peers, the state of the gateway at the end
-- is what the last notice about it said, or as it was if there is none, and the events that the
-- tunnel adds are the changes of what these notices said. A notice is about the gateway if the
-- client is enabled and the peer is the gateway that is set; a disconnection is only if the
-- gateway is not connected any more. So all events name the gateway, each says the opposite of the
-- state before it, and the last one is the state at the end.
pub notify_all-Edges :
    (t : Tunnel) (ns : List Notice)
    → let gw = t.vpn_gateway_peer_id in
      let told = reports (has_gateway t) gw ns in
      let added = changes gw t.vpn_gateway_connected told in
      ((notify_all t ns).connectivity_events ≡ t.connectivity_events ++ added)
      × ((notify_all t ns).vpn_gateway_connected ≡ last_report t.vpn_gateway_connected told)
      × Edges gw t.vpn_gateway_connected added (notify_all t ns).vpn_gateway_connected
notify_all-Edges t ns =
    let gw = t.vpn_gateway_peer_id in
    let h = notify_all-IsTold t ns in
    (
      h.events,
      h.state,
      rw h.state (Edges-changes gw t.vpn_gateway_connected (reports (has_gateway t) gw ns)),
    )
