-- ===== src/HashMap/Laws.antt =====
-- The map of src/spx_hmap.c read as a function from keys to values, and its invariant.
use php_spx.Prelude.{
  ℕ, ◌%◌, ◌<◌, ◌≡◌, ◌≢◌, sym, ◌∙◌, ap, Bool, true, false, [], Option, none, some, arith,
  if◌then◌else◌, length, get_or, set, length-set, get_or-set_self, get_or-set_ne, get_or-set_keeps,
  ℕ_discrete, Bool-cases, inl, inr,
}
use php_spx.HashMap.Bucket.{Chain, Place}
use php_spx.HashMap.Bucket.Laws.{find, assign, Reads, get_entry-Reads}
use php_spx.HashMap.Bucket.Slots.{KeyLaws, IsPacked, find-assign}
use php_spx.HashMap.{
  HashMap, EntryRef, home, read, get_value, entry_get_value, entry_set_value, set_entry_key,
}
use mathlib.Core.List.{flatten}

abbrev pub IsSound {ℓ} : {K V : Type ℓ} → Chain K V → Type ℓ
IsSound c = (c ≢ []) × IsPacked (flatten c)

-- There is a bucket for each index, and the entries of each are used from the front.
pub record IsValid {ℓ} {K V : Type ℓ} (m : HashMap K V) : Type ℓ where
  pub positive : 0 < m.size
  pub width : length m.buckets ≡ m.size
  pub sound : (i : ℕ) → i < m.size → IsSound (get_or m.buckets i [])

module _ {ℓ} {K V : Type ℓ} (hash : K → ℕ) (same : K → K → Bool) where
  read-Reads :
      (k : K) (c : Chain K V) (r : Option Place × Chain K V)
      → Reads same k c r
      → read r ≡ find same k (flatten c)
  read-Reads k c (none, c') h = sym h.0
  read-Reads k c (some p, c') h = sym h.0

  -- A lookup is a search in the slots of the key's bucket.
  pub get_value-find :
      (m : HashMap K V) (k : K)
      → get_value hash same m k ≡ find same k (flatten (get_or m.buckets (home hash same m k) []))
  unfolding get_value
  get_value-find m k =
      read-Reads k _ _ (get_entry-Reads same false k (get_or m.buckets (home hash same m k) []))

  -- What an operation that replaces the home chain of `k` by `c` does.
  module _ (laws : KeyLaws hash same) (m : HashMap K V) (valid : IsValid m) (k : K) where
    abbrev chain : Chain K V
    chain = get_or m.buckets (home hash same m k) []

    abbrev pub with_chain : Chain K V → HashMap K V
    with_chain c = record m { buckets = set m.buckets (home hash same m k) c }

    pub in_range : home hash same m k < length m.buckets
    in_range = rw valid.width (let p = valid.positive in omega arith)

    pub with_chain-IsValid : (c : Chain K V) → IsSound c → IsValid (with_chain c)
    with_chain-IsValid c h = record {
      positive = valid.positive;
      width = length-set m.buckets _ c ∙ valid.width;
      sound = λ i p. get_or-set_keeps IsSound m.buckets _ i c [] h (valid.sound i p);
    }

    pub get_value-with_chain :
        (c : Chain K V) (v : V)
        → flatten c ≡ assign same k v (flatten chain)
        → (q : K)
        → get_value hash same (with_chain c) q
          ≡ (if same q k then some (some v) else get_value hash same m q)
    get_value-with_chain c v e q = elim (ℕ_discrete (home hash same m k) (home hash same m q)) [
      | yes here ↦
          get_value-find (with_chain c) q
          ∙ ap (λ i. find same q (flatten (get_or (with_chain c).buckets i []))) (sym here)
          ∙ ap (λ x. find same q (flatten x)) (get_or-set_self m.buckets _ c [] in_range)
          ∙ ap (find same q) e
          ∙ find-assign hash same laws k q v (flatten chain) (valid.sound _ lt).1
          ∙ ap (λ x. if same q k then some (some v) else x)
              (ap (λ i. find same q (flatten (get_or m.buckets i []))) here
                ∙ sym (get_value-find m q))
      | no there ↦ rw (apart there) (
          get_value-find (with_chain c) q
          ∙ ap (λ x. find same q (flatten x)) (get_or-set_ne m.buckets _ _ c [] there)
          ∙ sym (get_value-find m q))
    ]
      where
        lt : home hash same m k < m.size
        lt = let p = valid.positive in omega arith

        apart : home hash same m k ≢ home hash same m q → same q k ≡ false
        apart there = elim (Bool-cases (same q k)) [
          | inl e ↦ absurd (there (ap (λ h. h % m.size) (sym (laws.hash-same q k e))))
          | inr e ↦ e
        ]

    -- The outcome of `ensure_entry`: the entry of a known key with the map as it was, or a new
    -- entry, which then takes the value `v`.
    abbrev pub Ensured : V → Bool → EntryRef → HashMap K V → Type ℓ
    Ensured v true e m' =
        let m'' = set_entry_key same (entry_set_value m' e v) e k in
        (get_value hash same m k ≡ none)
        × IsValid m''
        × ((q : K)
            → get_value hash same m'' q
              ≡ (if same q k then some (some v) else get_value hash same m q))
    Ensured v false e m' = (get_value hash same m k ≡ some (entry_get_value m' e)) × (m' ≡ m)
