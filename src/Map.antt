-- ===== src/Map.antt =====
-- `std::collections::HashMap` as an association list whose keys are distinct. The program never
-- relies on the iteration order of a map.
pub mod Sizes
use rfrpv.Prelude.{
  Bool, Option, none, some, List, [], ◌∷◌, ◌≡◌, refl, true, false, ◌||◌, arith, if◌then◌else◌, Eq,
  ◌==◌, is_some,
}

abbrev pub Map {ℓ κ} : Type ℓ → Type κ → Type (ℓ ⊔ κ)
Map K V = List (K × V)

module _ {ℓ κ} {K : Type ℓ} {V : Type κ} ⦃e : Eq K⦄ where
  -- m.get(&k)
  unfoldable pub get : K → Map K V → Option V
  get k [] = none
  get k ((j, v) ∷ m) = if j == k then some v else get k m

  -- m.remove(&k)
  unfoldable pub remove : K → Map K V → Map K V
  remove k [] = []
  remove k ((j, v) ∷ m) = let rest = remove k m in if j == k then rest else (j, v) ∷ rest

  -- m.insert(k, v)
  unfoldable pub insert : K → V → Map K V → Map K V
  insert k v m = (k, v) ∷ remove k m

  -- m.contains_key(&k)
  abbrev pub contains_key : K → Map K V → Bool
  contains_key k m = is_some (get k m)

  -- m.retain(|k, v| p)
  unfoldable pub retain_map : (K → V → Bool) → Map K V → Map K V
  retain_map p [] = []
  retain_map p ((j, v) ∷ m) = let rest = retain_map p m in if p j v then (j, v) ∷ rest else rest

  -- Removal of several keys.
  unfoldable pub remove_all : List K → Map K V → Map K V
  remove_all [] m = m
  remove_all (k ∷ ks) m = remove_all ks (remove k m)

  pub get-remove : (k j : K) (m : Map K V) → get j (remove k m) ≡ (if k == j then none else get j m)
  unfolding get remove
  get-remove k j [] = ground arith
  get-remove k j ((i, v) ∷ m) =
      ground (arith, get-remove k j m, e.beq_iff i k, e.beq_iff i j, e.beq_iff k j)

  pub get-insert :
      (k j : K) (v : V) (m : Map K V) → get j (insert k v m) ≡ (if k == j then some v else get j m)
  unfolding get insert
  get-insert k j v m = ground (arith, get-remove k j m)

abbrev pub elem {ℓ} : {K : Type ℓ} ⦃e : Eq K⦄ → K → List K → Bool
elem k [] = false
elem k (j ∷ js) = j == k || elem k js

module _ {ℓ κ} {K : Type ℓ} {V : Type κ} ⦃e : Eq K⦄ where
  pub get-remove_all :
      (ks : List K) (j : K) (m : Map K V)
      → get j (remove_all ks m) ≡ (if elem j ks then none else get j m)
  unfolding remove_all
  get-remove_all [] j m = refl
  get-remove_all (k ∷ ks) j m = ground (arith, get-remove_all ks j (remove k m), get-remove k j m)

abbrev pub keys {ℓ κ} : {K : Type ℓ} {V : Type κ} → Map K V → List K
keys [] = []
keys ((k, v) ∷ m) = k ∷ keys m

abbrev pub values {ℓ κ} : {K : Type ℓ} {V : Type κ} → Map K V → List V
values [] = []
values ((k, v) ∷ m) = v ∷ values m

module _ {ℓ κ} {K : Type ℓ} {V : Type κ} ⦃e : Eq K⦄ where
  pub elem-keys : (k : K) (m : Map K V) → elem k (keys m) ≡ is_some (get k m)
  unfolding get
  elem-keys k [] = refl
  elem-keys k ((j, v) ∷ m) = ground (arith, elem-keys k m)

  -- What is found after a filter has passed it.
  pub get-retain_map-passed :
      (p : K → V → Bool) (k : K) (m : Map K V) {v : V}
      → get k (retain_map p m) ≡ some v
      → p k v ≡ true
  unfolding get retain_map
  get-retain_map-passed p k [] h = cc
  get-retain_map-passed p k ((j, w) ∷ m) {v} h =
      ground (arith, get-retain_map-passed p k m {v = v}, e.beq_iff j k)

  -- An entry that passes a filter is found after it.
  pub get-retain_map-kept :
      (p : K → V → Bool) (k : K) (m : Map K V) {v : V}
      → get k m ≡ some v
      → p k v ≡ true
      → get k (retain_map p m) ≡ some v
  unfolding get retain_map
  get-retain_map-kept p k [] h b = cc
  get-retain_map-kept p k ((j, w) ∷ m) {v} h b =
      ground (arith, get-retain_map-kept p k m {v = v}, e.beq_iff j k)
