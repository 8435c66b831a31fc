-- ===== src/Base/Maps.antt =====
-- Go's `map[string]V` as an association list. A `range` over it visits the list in order; since
-- every list is allowed, what is proved for all lists holds for every iteration order.
use mathlib.Core.Path.{◌≡◌, refl, ◌∙◌}
use mathlib.Core.Bool.{false}
use mathlib.Core.List.{List, [], ◌∷◌}
use mathlib.Core.Option.{Option, none, some}
use native.Mathlib.Omega.{arith}
use awl.Base.Tests.{if◌then◌else◌, Bool-cases}
use mathlib.Core.Logic.{inl, inr}
use awl.Base.Texts.{Text, ◌==◌, eq_iff}

abbrev pub Map {ℓ} : Type ℓ → Type ℓ
Map V = List (Text × V)

module _ {ℓ} {V : Type ℓ} where
  -- m[key] = value
  unfoldable pub insert : Text → V → Map V → Map V
  insert key value [] = (key, value) ∷ []
  insert key value ((at, old) ∷ entries) =
      let kept = insert key value entries in
      if at == key then (key, value) ∷ entries else (at, old) ∷ kept

  -- delete(m, key)
  unfoldable pub remove : Text → Map V → Map V
  remove key [] = []
  remove key ((at, value) ∷ entries) =
      let kept = remove key entries in if at == key then kept else (at, value) ∷ kept

  -- value, ok := m[key]
  unfoldable pub lookup : Text → Map V → Option V
  lookup key [] = none
  lookup key ((at, value) ∷ entries) =
      let further = lookup key entries in if at == key then some value else further

  abbrev pub values : Map V → List V
  values [] = []
  values ((at, value) ∷ entries) = value ∷ values entries

  pub lookup-insert :
      (key asked : Text) (value : V) (entries : Map V)
      → lookup asked (insert key value entries)
        ≡ (if key == asked then some value else lookup asked entries)
  unfolding insert lookup
  lookup-insert key asked value [] = refl
  lookup-insert key asked value ((at, old) ∷ entries) =
      let ih = lookup-insert key asked value entries in
      ground (arith, ih, eq_iff at asked, eq_iff key asked, eq_iff at key)

  pub lookup-remove :
      (k j : Text) (m : Map V) → lookup j (remove k m) ≡ (if k == j then none else lookup j m)
  unfolding lookup remove
  lookup-remove k j [] = ground arith
  lookup-remove k j ((i, v) ∷ m) =
      ground (arith, lookup-remove k j m, eq_iff i k, eq_iff i j, eq_iff k j)

  -- No key stands twice.
  abbrev pub Distinct : Map V → Type ℓ
  Distinct [] = Unit
  Distinct ((k, v) ∷ m) = (lookup k m ≡ none) × Distinct m

module _ {ℓ} {V : Type ℓ} where
  pub Distinct-insert : (k : Text) (v : V) (m : Map V) → Distinct m → Distinct (insert k v m)
  unfolding insert lookup
  Distinct-insert k v [] d = (refl, tt)
  Distinct-insert k v ((j, w) ∷ m) d = elim (Bool-cases (j == k)) [
    | inl e ↦ rw e (rw (← (eq_iff j k).0 e) d)
    | inr e ↦ rw e (
      lookup-insert k j v m
          ∙ (let n : (k == j) ≡ false = ground (arith, eq_iff j k, eq_iff k j) in rw n d.0),
      Distinct-insert k v m d.1,
    )
  ]

  pub Distinct-remove : (k : Text) (m : Map V) → Distinct m → Distinct (remove k m)
  unfolding remove lookup
  Distinct-remove k [] d = tt
  Distinct-remove k ((j, w) ∷ m) d = elim (Bool-cases (j == k)) [
    | inl e ↦ rw e (Distinct-remove k m d.1)
    | inr e ↦ rw e (
      lookup-remove k j m
          ∙ (let n : (k == j) ≡ false = ground (arith, eq_iff j k, eq_iff k j) in rw n d.0),
      Distinct-remove k m d.1,
    )
  ]
