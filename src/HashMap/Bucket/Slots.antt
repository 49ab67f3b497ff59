-- ===== src/HashMap/Bucket/Slots.antt =====
-- Laws of the association list that a chain of src/spx_hmap.c reads as.
use php_spx.Prelude.{◌≡◌, refl, Bool, true, List, [], ◌∷◌, none, some, arith, if◌then◌else◌, ℕ}
use php_spx.HashMap.Bucket.{Slot, vacant, used}
use php_spx.HashMap.Bucket.Laws.{find, assign}

-- What the callers' `hash` and `cmp` are: `same a b` is `cmp(a, b) == 0`.
pub record KeyLaws {ℓ} {K : Type ℓ} (hash : K → ℕ) (same : K → K → Bool) : Type ℓ where
  pub same_refl : (a : K) → same a a ≡ true
  pub same_symm : (a b : K) → same a b ≡ same b a
  pub same_trans : (a b c : K) → same a b ≡ true → same b c ≡ true → same a c ≡ true
  pub hash-same : (a b : K) → same a b ≡ true → hash a ≡ hash b

-- Entries are used from the front: after a vacant one there are only vacant ones.
abbrev pub AllVacant {ℓ} : {K V : Type ℓ} → List (Slot K V) → Type 0
AllVacant [] = Unit {0}
AllVacant (vacant ∷ s) = AllVacant s
AllVacant (used j v ∷ s) = ⊥

abbrev pub IsPacked {ℓ} : {K V : Type ℓ} → List (Slot K V) → Type 0
IsPacked [] = Unit {0}
IsPacked (vacant ∷ s) = AllVacant s
IsPacked (used j v ∷ s) = IsPacked s

module _ {ℓ} {K V : Type ℓ} (hash : K → ℕ) (same : K → K → Bool) (laws : KeyLaws hash same) where
  find-AllVacant : (q : K) (s : List (Slot K V)) → AllVacant s → find same q s ≡ none
  unfolding find
  find-AllVacant q [] h = refl
  find-AllVacant q (vacant ∷ s) h = refl
  find-AllVacant q (used j v ∷ s) h = absurd h

  pub assign-IsPacked :
      (k : K) (v : V) (s : List (Slot K V)) → IsPacked s → IsPacked (assign same k v s)
  unfolding assign
  assign-IsPacked k v [] h = tt
  assign-IsPacked k v (vacant ∷ s) h = packed_of_vacant s h
    where
      packed_of_vacant : (s : List (Slot K V)) → AllVacant s → IsPacked s
      packed_of_vacant [] h = tt
      packed_of_vacant (vacant ∷ s) h = h
      packed_of_vacant (used j v ∷ s) h = absurd h
  assign-IsPacked k v (used j w ∷ s) h = ground (arith, assign-IsPacked k v s h)

  pub find-assign :
      (k q : K) (v : V) (s : List (Slot K V))
      → IsPacked s
      → find same q (assign same k v s) ≡ (if same q k then some (some v) else find same q s)
  unfolding find assign
  find-assign k q v [] h = refl
  find-assign k q v (vacant ∷ s) h = ground (arith, find-AllVacant q s h)
  find-assign k q v (used j w ∷ s) h = ground (
    arith,
    find-assign k q v s h,
    laws.same_trans q k j,
    laws.same_trans q j k,
    laws.same_trans k q j,
    laws.same_symm k j,
    laws.same_symm k q,
  )
