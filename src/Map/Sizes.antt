-- ===== src/Map/Sizes.antt =====
-- The size of a map: keys are distinct, so an insert adds at most one entry, and a key that is
-- there already adds none.
use rfrpv.Prelude.{
  ◌≤◌, ◌+◌, ◌≡◌, refl, Bool, none, some, [], ◌∷◌, arith, Eq, if◌then◌else◌, length, beq_refl,
  is_some,
}
use rfrpv.Map.{Map, get, remove, insert, retain_map, remove_all, get-remove}

module _ {ℓ κ} {K : Type ℓ} {V : Type κ} ⦃e : Eq K⦄ where
  abbrev pub Distinct : Map K V → Type κ
  Distinct [] = Unit
  Distinct ((k, v) ∷ m) = (get k m ≡ none) × Distinct m

  pub remove_missing : (k : K) (m : Map K V) → get k m ≡ none → remove k m ≡ m
  unfolding get remove
  remove_missing k [] h = refl
  remove_missing k ((j, v) ∷ m) h = ground (arith, remove_missing k m)

  pub length-remove-le : (k : K) (m : Map K V) → length (remove k m) ≤ length m
  unfolding remove
  length-remove-le k [] = omega arith
  length-remove-le k ((j, v) ∷ m) = ground (arith, length-remove-le k m)

  -- Taking out a key that is there makes the map smaller by one.
  pub length-remove :
      (k : K) (m : Map K V)
      → Distinct m
      → length (remove k m) + (if is_some (get k m) then 1 else 0) ≡ length m
  unfolding get remove
  length-remove k [] d = refl
  length-remove k ((j, v) ∷ m) d =
      ground (arith, length-remove k m d.1, remove_missing k m, e.beq_iff j k)

  pub remove-Distinct : (k : K) (m : Map K V) → Distinct m → Distinct (remove k m)
  unfolding get remove
  remove-Distinct k [] d = tt
  remove-Distinct k ((j, v) ∷ m) d = ground (arith, remove-Distinct k m d.1, get-remove k j m)

  pub insert-Distinct : (k : K) (v : V) (m : Map K V) → Distinct m → Distinct (insert k v m)
  unfolding insert
  insert-Distinct k v m d = (ground (arith, get-remove k k m, beq_refl k), remove-Distinct k m d)

  pub remove_all-Distinct : (ks : _) (m : Map K V) → Distinct m → Distinct (remove_all ks m)
  unfolding remove_all
  remove_all-Distinct [] m d = d
  remove_all-Distinct (k ∷ ks) m d = remove_all-Distinct ks (remove k m) (remove-Distinct k m d)

  pub length-insert :
      (k : K) (v : V) (m : Map K V)
      → Distinct m
      → length (insert k v m) ≡ (if is_some (get k m) then length m else length m + 1)
  unfolding insert
  length-insert k v m d = ground (arith, length-remove k m d)

  pub get-retain_map-none :
      (p : K → V → Bool) (k : K) (m : Map K V) → get k m ≡ none → get k (retain_map p m) ≡ none
  unfolding get retain_map
  get-retain_map-none p k [] h = refl
  get-retain_map-none p k ((j, w) ∷ m) h = ground (arith, get-retain_map-none p k m)

  -- What a filter leaves of one key.
  pub get-retain_map :
      (p : K → V → Bool) (k : K) (v : V) (m : Map K V)
      → Distinct m
      → get k m ≡ some v
      → get k (retain_map p m) ≡ (if p k v then some v else none)
  unfolding get retain_map
  get-retain_map p k v [] d h = ground arith
  get-retain_map p k v ((j, w) ∷ m) d h = ground (
    arith,
    get-retain_map p k v m d.1,
    get-retain_map-none p j m d.0,
    e.beq_iff j k,
    get-retain_map-none p k m,
  )

  pub retain_map-Distinct :
      (p : K → V → Bool) (m : Map K V) → Distinct m → Distinct (retain_map p m)
  unfolding retain_map
  retain_map-Distinct p [] d = tt
  retain_map-Distinct p ((j, w) ∷ m) d =
      ground (arith, retain_map-Distinct p m d.1, get-retain_map-none p j m d.0)
