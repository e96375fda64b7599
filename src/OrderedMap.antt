-- ===== src/OrderedMap.antt =====
-- The C++ library's `std::map` with 32-bit keys: its entries in the order of the keys, which is the
-- order of iteration.
use zway_server.Base.{
  ℕ, ◌≡◌, refl, List, [], ◌∷◌, Option, none, some, arith, ltb, ◌==◌, if◌then◌else◌,
}

abbrev pub OrderedMap {ℓ} : Type ℓ → Type ℓ
OrderedMap V = List (ℕ × V)

module _ {ℓ} {V : Type ℓ} where
  -- m.find(k)
  unfoldable pub lookup : ℕ → OrderedMap V → Option V
  lookup k [] = none
  lookup k ((j, v) ∷ m) = if j == k then some v else lookup k m

  -- m[k] = v
  unfoldable pub assign : ℕ → V → OrderedMap V → OrderedMap V
  assign k v [] = (k, v) ∷ []
  assign k v ((j, u) ∷ m) =
      let rest = assign k v m in
      if j == k then (k, v) ∷ m else if ltb k j then (k, v) ∷ (j, u) ∷ m else (j, u) ∷ rest

  -- m.erase(k)
  unfoldable pub erase : ℕ → OrderedMap V → OrderedMap V
  erase k [] = []
  erase k ((j, v) ∷ m) = let rest = erase k m in if j == k then rest else (j, v) ∷ rest

  pub lookup-assign :
      (k j : ℕ) (v : V) (m : OrderedMap V)
      → lookup j (assign k v m) ≡ (if k == j then some v else lookup j m)
  unfolding lookup assign
  lookup-assign k j v [] = refl
  lookup-assign k j v ((i, u) ∷ m) = ground (arith, lookup-assign k j v m)

  pub lookup-erase :
      (k j : ℕ) (m : OrderedMap V) → lookup j (erase k m) ≡ (if k == j then none else lookup j m)
  unfolding lookup erase
  lookup-erase k j [] = ground arith
  lookup-erase k j ((i, u) ∷ m) = ground (arith, lookup-erase k j m)
