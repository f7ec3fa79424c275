-- ===== src/Prelude/Map.antt =====
-- `std::map` keyed by texts, as the list of its entries in the order of the keys.
use mathlib.Core.Path.{◌≡◌, refl}
use mathlib.Core.Bool.{Bool, true, false}
use mathlib.Core.Option.{Option, none, some}
use mathlib.Core.List.{List, [], ◌∷◌}
use native.Mathlib.Omega.{arith}
use ticket_ist.Prelude.Tests.{if◌then◌else◌}
use ticket_ist.Prelude.Text.{Bytes, str_eq, str_lt, str_eq_iff}

abbrev pub Map {ℓ} : Type ℓ → Type ℓ
Map V = List (Bytes × V)

module _ {ℓ} {V : Type ℓ} where
  -- `m.find(k)`, where `none` is `m.end()`
  unfoldable pub lookup : Bytes → Map V → Option V
  lookup k [] = none
  lookup k ((j, v) ∷ m) = let rest = lookup k m in if str_eq k j then some v else rest

  -- `m[k] = v`
  unfoldable pub insert : Bytes → V → Map V → Map V
  insert k v [] = (k, v) ∷ []
  insert k v ((j, w) ∷ m) =
      let rest = insert k v m in
      if str_eq k j then (k, v) ∷ m else if str_lt k j then (k, v) ∷ (j, w) ∷ m else (j, w) ∷ rest

  -- `m.erase(k)`
  unfoldable pub erase : Bytes → Map V → Map V
  erase k [] = []
  erase k ((j, w) ∷ m) = let rest = erase k m in if str_eq k j then rest else (j, w) ∷ rest

  -- `m.emplace(k, v)` keeps the entry of a key that is there.
  unfoldable pub emplace : Bytes → V → Map V → Map V
  unfolding lookup insert
  emplace k v m = elim (lookup k m) [ none ↦ insert k v m | some _ ↦ m ]

  -- `m.find(k) != m.end()`
  unfoldable pub contains : Bytes → Map V → Bool
  unfolding lookup
  contains k m = elim (lookup k m) [ none ↦ false | some _ ↦ true ]

  pub lookup-insert :
      (k j : Bytes) (v : V) (m : Map V)
      → lookup j (insert k v m) ≡ (if str_eq j k then some v else lookup j m)
  unfolding lookup insert
  lookup-insert k j v [] = refl
  lookup-insert k j v ((i, w) ∷ m) =
      ground (arith, str_eq_iff j k, str_eq_iff k i, str_eq_iff j i, lookup-insert k j v m)

  pub lookup-erase :
      (k j : Bytes) (m : Map V) → lookup j (erase k m) ≡ (if str_eq j k then none else lookup j m)
  unfolding lookup erase
  lookup-erase k j [] = ground arith
  lookup-erase k j ((i, w) ∷ m) =
      ground (arith, str_eq_iff j k, str_eq_iff k i, str_eq_iff j i, lookup-erase k j m)

  pub lookup-emplace :
      (k j : Bytes) (v : V) (m : Map V)
      → lookup j (emplace k v m)
        ≡ elim (lookup j m) [ some w ↦ some w | none ↦ if str_eq j k then some v else none ]
  unfolding emplace
  lookup-emplace k j v m = ground (arith, lookup-insert k j v m, str_eq_iff j k)
