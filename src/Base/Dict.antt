-- ===== src/Base/Dict.antt =====
-- Python's `dict` in insertion order, over any type of keys.
use crypto_dual_sleeve_tradi.Base.{
  ◌++◌, ◌≡◌, refl, Bool, true, false, Option, none, some, List, [], ◌∷◌, arith, if◌then◌else◌,
}
use crypto_dual_sleeve_tradi.Base.Key.{Key}

abbrev pub Dict {ℓ κ} : Type ℓ → Type κ → Type (ℓ ⊔ κ)
Dict K V = List (K × V)

abbrev pub is_some {ℓ} : {A : Type ℓ} → Option A → Bool
is_some none = false
is_some (some _) = true

module _ {ℓ κ} {K : Type ℓ} {V : Type κ} where
  unfoldable pub keys : Dict K V → List K
  keys [] = []
  keys ((k, v) ∷ d) = k ∷ keys d

  unfoldable pub values : Dict K V → List V
  values [] = []
  values ((k, v) ∷ d) = v ∷ values d

module _ {ℓ} {K : Type ℓ} ⦃o : Key K⦄ where
  -- `k in ks`
  unfoldable pub member : K → List K → Bool
  member k [] = false
  member k (j ∷ ks) = if o.eq k j then true else member k ks

module _ {ℓ κ} {K : Type ℓ} {V : Type κ} ⦃o : Key K⦄ where
  -- `d.get(k)`
  unfoldable pub lookup : K → Dict K V → Option V
  lookup k [] = none
  lookup k ((j, v) ∷ d) = if o.eq k j then some v else lookup k d

  -- `d[k] = v`
  unfoldable pub insert : K → V → Dict K V → Dict K V
  insert k v [] = (k, v) ∷ []
  insert k v ((j, w) ∷ d) = if o.eq k j then (j, v) ∷ d else (j, w) ∷ insert k v d

  -- `d.pop(k, None)`, the dictionary that is left; a key stands in it once at most
  unfoldable pub erase : K → Dict K V → Dict K V
  erase k [] = []
  erase k ((j, w) ∷ d) = let rest = erase k d in if o.eq k j then rest else (j, w) ∷ rest

  insert_all : (V → K) → List V → Dict K V → Dict K V
  insert_all key [] d = d
  insert_all key (v ∷ vs) d = insert_all key vs (insert (key v) v d)

  -- `{key(v): v for v in vs}`
  unfoldable pub index_by : (V → K) → List V → Dict K V
  unfolding insert_all
  index_by key vs = insert_all key vs []

  pub lookup-insert :
      (j k : K) (v : V) (d : Dict K V)
      → lookup j (insert k v d) ≡ (if o.eq j k then some v else lookup j d)
  unfolding lookup insert
  lookup-insert j k v [] = refl
  lookup-insert j k v ((i, w) ∷ d) =
      ground (arith, o.same j k, o.same k i, o.same j i, lookup-insert j k v d)

  pub lookup-erase :
      (j k : K) (d : Dict K V) → lookup j (erase k d) ≡ (if o.eq j k then none else lookup j d)
  unfolding lookup erase
  lookup-erase j k [] = ground arith
  lookup-erase j k ((i, w) ∷ d) =
      ground (arith, o.same j k, o.same k i, o.same j i, lookup-erase j k d)

  pub member-keys : (k : K) (d : Dict K V) → member k (keys d) ≡ is_some (lookup k d)
  unfolding member keys lookup
  member-keys k [] = refl
  member-keys k ((j, v) ∷ d) = ground (arith, member-keys k d)

  -- The values listed under one key, the last first: what a dictionary comprehension keeps.
  unfoldable pub last_with : (V → K) → K → List V → Option V → Option V
  last_with key k [] found = found
  last_with key k (v ∷ vs) found = last_with key k vs (if o.eq k (key v) then some v else found)

  -- The last of the values that have the key `k`.
  unfoldable pub last_of : (V → K) → K → List V → Option V
  unfolding last_with
  last_of key k vs = last_with key k vs none

  lookup-insert_all :
      (key : V → K) (k : K) (vs : List V) (d : Dict K V)
      → lookup k (insert_all key vs d) ≡ last_with key k vs (lookup k d)
  unfolding insert_all last_with
  lookup-insert_all key k [] d = refl
  lookup-insert_all key k (v ∷ vs) d =
      ground (arith, lookup-insert_all key k vs (insert (key v) v d), lookup-insert k (key v) v d)

  pub lookup-index_by :
      (key : V → K) (k : K) (vs : List V) → lookup k (index_by key vs) ≡ last_of key k vs
  unfolding index_by last_of lookup
  lookup-index_by key k vs = lookup-insert_all key k vs []

  -- A key that is new is put at the end.
  pub insert_fresh :
      (k : K) (v : V) (d : Dict K V)
      → member k (keys d) ≡ false
      → (values (insert k v d) ≡ values d ++ v ∷ [])
        × (keys (insert k v d) ≡ keys d ++ k ∷ [])
        × (lookup k d ≡ none)
  unfolding member keys values insert lookup
  insert_fresh k v [] h = (refl, refl, refl)
  insert_fresh k v ((j, w) ∷ d) h = ground (arith, insert_fresh k v d)
