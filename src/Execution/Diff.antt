-- ===== src/Execution/Diff.antt =====
-- The comparison that execution/reconciliation.py and execution/position_reconciliation.py share: two
-- dictionaries by key, the sorted keys of one side only, and the sorted keys whose values differ.
use crypto_dual_sleeve_tradi.Base.{
  ◌≡◌, refl, ◌↔◌, Bool, true, false, not, ◌&&◌, Option, none, some, List, [], ◌∷◌, arith, keep,
}
use crypto_dual_sleeve_tradi.Base.Key.{Key, string_key, pair_key}
use crypto_dual_sleeve_tradi.Base.Dict
use crypto_dual_sleeve_tradi.Base.Dict.{Dict}
use crypto_dual_sleeve_tradi.Core.Enums.{
  trading_mode_enum, sleeve_id_enum, order_side_enum, position_side_enum, order_type_enum,
  order_action_enum, order_status_enum, safe_mode_state_enum, circuit_action_enum,
}
use crypto_dual_sleeve_tradi.Base.Sorted.{
  sorted, IsAscending, sorted-IsAscending, member-sorted, member-keep,
}

abbrev pub is_empty {ℓ} : {A : Type ℓ} → List A → Bool
is_empty [] = true
is_empty (_ ∷ _) = false

-- values of the two sides that differ under a key of both
abbrev pub differ_at : {V W : Type 0} → (V → W → Bool) → Option V → Option W → Bool
differ_at mismatch (some v) (some w) = mismatch v w
differ_at mismatch _ _ = false

-- whether the two sides agree on one key
abbrev pub agree : {V W : Type 0} → (V → W → Bool) → Option V → Option W → Bool
agree mismatch none none = true
agree mismatch none (some w) = false
agree mismatch (some v) none = false
agree mismatch (some v) (some w) = not (mismatch v w)

module _ {K V W : Type 0} ⦃o : Key K⦄ where
  -- `sorted(set(a) - set(b))`
  unfoldable pub only_in : Dict K V → Dict K W → List K
  only_in a b = sorted (keep (λ k. not (Dict.member k (Dict.keys b))) (Dict.keys a))

  -- `sorted(k for k in set(a) & set(b) if mismatch(a[k], b[k]))`
  unfoldable pub mismatched : (V → W → Bool) → Dict K V → Dict K W → List K
  mismatched mismatch a b = sorted (
      keep (λ k. differ_at mismatch (Dict.lookup k a) (Dict.lookup k b))
        (keep (λ k. Dict.member k (Dict.keys b)) (Dict.keys a)))

  pub member-only_in :
      (k : K) (a : Dict K V) (b : Dict K W)
      → Dict.member k (only_in a b)
        ≡ (Dict.is_some (Dict.lookup k a) && not (Dict.is_some (Dict.lookup k b)))
  unfolding only_in
  member-only_in k a b = rw (member-sorted, member-keep, Dict.member-keys k a, Dict.member-keys k b)

  pub member-mismatched :
      (mismatch : V → W → Bool) (k : K) (a : Dict K V) (b : Dict K W)
      → Dict.member k (mismatched mismatch a b)
        ≡ differ_at mismatch (Dict.lookup k a) (Dict.lookup k b)
  unfolding mismatched
  member-mismatched mismatch k a b =
      rw (member-sorted, member-keep, member-keep, Dict.member-keys k a, Dict.member-keys k b)
        (ground arith)

  pub only_in-IsAscending : (a : Dict K V) (b : Dict K W) → IsAscending (only_in a b)
  unfolding only_in
  only_in-IsAscending a b = sorted-IsAscending _

  pub mismatched-IsAscending :
      (mismatch : V → W → Bool) (a : Dict K V) (b : Dict K W)
      → IsAscending (mismatched mismatch a b)
  unfolding mismatched
  mismatched-IsAscending mismatch a b = sorted-IsAscending _

and_parts : (p q r : Bool) → (p && q && r) ≡ true → (p ≡ true) × (q ≡ true) × (r ≡ true)
and_parts p q r h = ground arith

module _ {K : Type 0} ⦃o : Key K⦄ where
  empty-member : (ks : List K) (k : K) → is_empty ks ≡ true → Dict.member k ks ≡ false
  unfolding Dict.member
  empty-member [] k h = refl
  empty-member (j ∷ ks) k h = cc

  member-empty : (ks : List K) → ((k : K) → Dict.member k ks ≡ false) → is_empty ks ≡ true
  unfolding Dict.member
  member-empty [] h = refl
  member-empty (j ∷ ks) h = ground (arith, h j, o.same j j)

module _ {K V W : Type 0} ⦃o : Key K⦄ (mismatch : V → W → Bool) (a : Dict K V) (b : Dict K W) where
  abbrev pub AllAgree : Type 0
  AllAgree = (k : K) → agree mismatch (Dict.lookup k a) (Dict.lookup k b) ≡ true

  -- `not missing and not unknown and not mismatches`
  abbrev pub none_differ : Bool
  none_differ =
      is_empty (only_in a b) && is_empty (only_in b a) && is_empty (mismatched mismatch a b)

  agree_of_members :
      (k : K)
      → Dict.member k (only_in a b) ≡ false
      → Dict.member k (only_in b a) ≡ false
      → Dict.member k (mismatched mismatch a b) ≡ false
      → agree mismatch (Dict.lookup k a) (Dict.lookup k b) ≡ true
  agree_of_members k p q r =
      ground (arith, member-only_in k a b, member-only_in k b a, member-mismatched mismatch k a b)

  members_of_agree :
      (k : K)
      → agree mismatch (Dict.lookup k a) (Dict.lookup k b) ≡ true
      → (Dict.member k (only_in a b) ≡ false)
        × (Dict.member k (only_in b a) ≡ false)
        × (Dict.member k (mismatched mismatch a b) ≡ false)
  members_of_agree k p =
      ground (arith, member-only_in k a b, member-only_in k b a, member-mismatched mismatch k a b)

  -- The three lists are empty exactly when the two sides agree on every key.
  pub none_differ_iff : (none_differ ≡ true) ↔ AllAgree
  none_differ_iff = (
    λ h k.
        let (p, q, r) = and_parts _ _ _ h in
        agree_of_members k (empty-member _ k p) (empty-member _ k q) (empty-member _ k r),
    λ h. rw (
      member-empty (only_in a b) (λ k. (members_of_agree k (h k)).0),
      member-empty (only_in b a) (λ k. (members_of_agree k (h k)).1),
      member-empty (mismatched mismatch a b) (λ k. (members_of_agree k (h k)).2),
    ),
  )
