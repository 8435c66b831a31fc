-- ===== src/Config/Peers/Table.antt =====
-- The table of known peers, with its IDs and aliases.
use awl.Base.{
  ◌≡◌, ◌≢◌, [], some, arith, Text, Map, lookup, insert, remove, lookup-insert, lookup-remove,
  eq_iff,
}
use awl.Config.Types.{KnownPeer}

pub record IsPeerTable (m : Map KnownPeer) : Type 0 where
  pub keyed : (id : Text) (kp : KnownPeer) → lookup id m ≡ some kp → kp.peer_id ≡ id
  pub named : (id : Text) (kp : KnownPeer) → lookup id m ≡ some kp → id ≢ []
  pub unique :
      (i j : Text) (a b : KnownPeer)
      → lookup i m ≡ some a
      → lookup j m ≡ some b
      → a.alias ≡ b.alias
      → i ≡ j

-- Storing a peer whose alias no other peer has.
pub insert-IsPeerTable :
    (m : Map KnownPeer) (id : Text) (kp : KnownPeer)
    → IsPeerTable m
    → kp.peer_id ≡ id
    → id ≢ []
    → ((j : Text) (a : KnownPeer) → lookup j m ≡ some a → j ≢ id → a.alias ≢ kp.alias)
    → IsPeerTable (insert id kp m)
insert-IsPeerTable m id kp t e n fresh = record {
  keyed = λ j a h. ground (arith, lookup-insert id j kp m, eq_iff id j, t.keyed j a, h, e);
  named = λ j a h. ground (arith, lookup-insert id j kp m, eq_iff id j, t.named j a, h, n);
  unique = λ i j a b hi hj same. ground (
    arith,
    lookup-insert id i kp m,
    lookup-insert id j kp m,
    eq_iff id i,
    eq_iff id j,
    fresh i a,
    fresh j b,
    t.unique i j a b,
    hi,
    hj,
    same,
  );
}

pub remove-IsPeerTable : (m : Map KnownPeer) (id : Text) → IsPeerTable m → IsPeerTable (remove id m)
remove-IsPeerTable m id t = record {
  keyed = λ j a h. ground (arith, lookup-remove id j m, t.keyed j a, h);
  named = λ j a h. ground (arith, lookup-remove id j m, t.named j a, h);
  unique = λ i j a b hi hj same.
      ground (arith, lookup-remove id i m, lookup-remove id j m, t.unique i j a b, hi, hj, same);
}
