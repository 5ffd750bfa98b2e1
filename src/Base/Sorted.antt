-- ===== src/Base/Sorted.antt =====
-- `sorted` of a set of keys: the keys that pass a test, in ascending order.
use crypto_dual_sleeve_tradi.Base.{
  ◌≡◌, refl, Bool, false, List, [], ◌∷◌, arith, if◌then◌else◌, ◌&&◌, ◌||◌, keep, Bool-cases, inl,
  inr,
}
use crypto_dual_sleeve_tradi.Base.Key.{Key}
use crypto_dual_sleeve_tradi.Base.Dict.{member}

module _ {ℓ} {K : Type ℓ} ⦃o : Key K⦄ where
  place : K → List K → List K
  place k [] = k ∷ []
  place k (j ∷ ks) = if o.lt j k then j ∷ place k ks else k ∷ j ∷ ks

  unfoldable pub sorted : List K → List K
  unfolding place
  sorted [] = []
  sorted (k ∷ ks) = place k (sorted ks)

  -- No key is followed by a smaller one.
  abbrev pub IsAscending : List K → Type 0
  IsAscending [] = Unit
  IsAscending (k ∷ []) = Unit
  IsAscending (k ∷ j ∷ ks) = (o.lt j k ≡ false) × IsAscending (j ∷ ks)

  place-IsAscending : (k : K) (ks : List K) → IsAscending ks → IsAscending (place k ks)
  unfolding place
  place-IsAscending k [] h = tt
  place-IsAscending k (j ∷ []) h = ground (arith, o.asymm j k)
  place-IsAscending k (j ∷ i ∷ ks) h =
      ground (arith, o.asymm j k, o.asymm i k, place-IsAscending k (i ∷ ks) h.1)

  pub sorted-IsAscending : (ks : List K) → IsAscending (sorted ks)
  unfolding sorted
  sorted-IsAscending [] = tt
  sorted-IsAscending (k ∷ ks) = place-IsAscending k (sorted ks) (sorted-IsAscending ks)

  member-place : (j k : K) (ks : List K) → member j (place k ks) ≡ (o.eq j k || member j ks)
  unfolding member place
  member-place j k [] = ground arith
  member-place j k (i ∷ ks) = ground (arith, member-place j k ks)

  pub member-sorted : (j : K) (ks : List K) → member j (sorted ks) ≡ member j ks
  unfolding sorted member
  member-sorted j [] = refl
  member-sorted j (k ∷ ks) = ground (arith, member-place j k (sorted ks), member-sorted j ks)

  pub member-keep :
      (p : K → Bool) (j : K) (ks : List K) → member j (keep p ks) ≡ (member j ks && p j)
  unfolding member
  member-keep p j [] = refl
  member-keep p j (k ∷ ks) = elim (Bool-cases (o.eq j k)) [
    | inl e ↦ rw ((o.same j k).0 e) (ground (arith, member-keep p k ks, o.same k k))
    | inr e ↦ ground (arith, member-keep p j ks)
  ]
