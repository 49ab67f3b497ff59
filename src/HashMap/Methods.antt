-- ===== src/HashMap/Methods.antt =====
-- The operations of src/spx_hmap.c against the function that a map reads as.
use php_spx.Prelude.{
  ℕ, ◌<◌, ◌≡◌, ◌≢◌, refl, sym, subst, ◌∙◌, ap, Bool, true, false, [], get_or-replicate,
  length-replicate, length-map, get_or-map, ◌∷◌, Option, none, some, arith, length, get_or,
  get_or-set_self, set-set, set-get_or_self,
}
use php_spx.HashMap.Bucket
use php_spx.HashMap.Bucket.{Chain, Place, Slot, used, set_value, set_key}
use php_spx.HashMap.Bucket.Laws.{
  find, assign, assign-ne-nil, Placed, Ensures, get_entry-Ensures, modify-modify,
}
use php_spx.HashMap.Bucket.Slots.{KeyLaws, IsPacked, assign-IsPacked}
use php_spx.HashMap.Laws.{
  IsValid, IsSound, get_value-find, with_chain, with_chain-IsValid, get_value-with_chain, in_range,
  Ensured,
}
use php_spx.HashMap.{
  HashMap, create, reset, EntryRef, home, entry_ref, ensure_entry, get_value, entry_get_value,
  entry_set_value, set_entry_key, modify_entry,
}
use mathlib.Core.List.{flatten}

-- A map that holds nothing.
pub record IsEmpty {ℓ} {K V : Type ℓ} (hash : K → ℕ) (same : K → K → Bool) (m : HashMap K V)
    : Type ℓ where
  pub valid : IsValid m
  pub reads : (q : K) → get_value hash same m q ≡ none

module _ {ℓ} {K V : Type ℓ} (hash : K → ℕ) (same : K → K → Bool) where
  IsEmpty_of_chains :
      (m : HashMap K V)
      → 0 < m.size
      → length m.buckets ≡ m.size
      → ((i : ℕ) → i < m.size → get_or m.buckets i [] ≡ Bucket.init ∷ [])
      → IsEmpty hash same m
  unfolding flatten find
  IsEmpty_of_chains m p w h = record {
    valid = record {
      positive = p;
      width = w;
      sound = λ i lt. subst IsSound (sym (h i lt)) ((λ e. cc), tt);
    };
    reads = λ q.
        get_value-find hash same m q
        ∙ ap (λ c. find same q (flatten c)) (h (home hash same m q) (omega arith));
  }

  -- With both allocations granted and a positive size, `spx_hmap_create` returns a map that is
  -- valid and holds no key.
  pub create-IsEmpty :
      (size : ℕ)
      → 0 < size
      → (m : HashMap K V) × (create true true size ≡ some m) × IsEmpty hash same m
  unfolding create
  create-IsEmpty size p = (
    _,
    refl,
    IsEmpty_of_chains _ p (length-replicate size _) (λ i lt. get_or-replicate size i _ [] lt),
  )

  -- `spx_hmap_reset` empties every bucket of a valid map.
  pub reset-IsEmpty : (m : HashMap K V) → IsValid m → IsEmpty hash same (reset m)
  unfolding reset
  reset-IsEmpty m v =
      IsEmpty_of_chains _ v.positive (length-map m.buckets Bucket.reset ∙ v.width) (λ i lt.
        get_or-map Bucket.reset m.buckets i []
        ∙ reset-chain (get_or m.buckets i []) (v.sound i lt).0)
    where
      reset-chain : (c : Chain K V) → c ≢ [] → Bucket.reset c ≡ Bucket.init ∷ []
      reset-chain [] h = absurd (h refl)
      reset-chain (b ∷ c) h = refl

module _ {ℓ} {K V : Type ℓ} (hash : K → ℕ) (same : K → K → Bool) (laws : KeyLaws hash same)
    (m : HashMap K V) (valid : IsValid m) (k : K) (v : V) where
  abbrev chain : Chain K V
  chain = get_or m.buckets (home hash same m k) []

  abbrev put : Chain K V → HashMap K V
  put c = with_chain hash same laws m valid k c

  abbrev entry : Place → EntryRef
  entry p = record { bucket = home hash same m k; place = p }

  -- A change through the pointer changes the chain in place.
  modify_entry-put :
      (f : Slot K V → Slot K V) (p : Place) (c : Chain K V)
      → modify_entry f (put c) (entry p) ≡ put (Bucket.modify f p.block p.slot c)
  unfolding modify_entry
  modify_entry-put f p c =
      rw (get_or-set_self m.buckets _ c [] (in_range hash same laws m valid k), set-set)

  -- What the caller writes into a new entry.
  abbrev fill : Slot K V → Slot K V
  fill s = set_key same k (set_value v s)

  fill_writes : fill (used k none) ≡ used k (some v)
  fill_writes = rw (laws.same_refl k)

  filled :
      (p : Place) (c : Chain K V)
      → set_entry_key same (entry_set_value (put c) (entry p) v) (entry p) k
        ≡ put (Bucket.modify fill p.block p.slot c)
  unfolding set_entry_key entry_set_value
  filled p c =
      ap (λ x. modify_entry (set_key same k) x (entry p)) (modify_entry-put (set_value v) p c)
      ∙ modify_entry-put (set_key same k) p _
      ∙ ap put (modify-modify (set_key same k) (set_value v) p.block p.slot c)

  assign-IsSound : (c : Chain K V) → flatten c ≡ assign same k v (flatten chain) → IsSound c
  unfolding flatten
  assign-IsSound c e = (
    λ z. assign-ne-nil same k v (flatten chain) (sym e ∙ ap flatten z),
    subst IsPacked (sym e)
        (assign-IsPacked hash same laws k v (flatten chain) (valid.sound _ lt).1),
  )
    where
      lt : home hash same m k < m.size
      lt = let p = valid.positive in omega arith

  Placed-Ensured :
      (n : Bool) (p : Place) (c : Chain K V)
      → Placed same fill k v fill_writes n p.block p.slot chain c
      → Ensured hash same laws m valid k v n (entry p) (put c)
  unfolding entry_get_value
  Placed-Ensured true p c h = (
    get_value-find hash same m k ∙ h.0,
    subst IsValid (sym (filled p c))
        (with_chain-IsValid hash same laws m valid k _ (assign-IsSound _ h.1)),
    λ q.
        ap (λ x. get_value hash same x q) (filled p c)
        ∙ get_value-with_chain hash same laws m valid k _ v h.1 q,
  )
  Placed-Ensured false p c h = (
    get_value-find hash same m k
        ∙ h.0
        ∙ ap (λ x. some (Bucket.get_value (Bucket.at p.block p.slot x)))
            (sym (get_or-set_self m.buckets _ c [] (in_range hash same laws m valid k))),
    ap put h.1 ∙ ap (λ b. record m { buckets = b }) (set-get_or_self m.buckets _ []),
  )

  abbrev pub Outcome : Option EntryRef × HashMap K V → Type ℓ
  Outcome (none, m') = none ≡ some v
  Outcome (some e, m') = Ensured hash same laws m valid k v e.place.is_new e m'

  Ensures-Outcome :
      (r : Option Place × Chain K V)
      → Ensures same fill k v fill_writes chain r
      → Outcome (entry_ref (home hash same m k) r.0, put r.1)
  Ensures-Outcome (none, c) h = h
  Ensures-Outcome (some p, c) h = Placed-Ensured p.is_new p c h

  Ensures-chain :
      (c : Chain K V)
      → c ≢ []
      → Ensures same fill k v fill_writes c (Bucket.get_entry true same k false c)
  Ensures-chain [] h = absurd (h refl)
  Ensures-chain (b ∷ c) h = get_entry-Ensures same fill k v fill_writes b c

  -- On a valid map and with memory at hand, `spx_hmap_ensure_entry` returns an entry. If the key
  -- is known it is the entry that holds the key's value, and the map stays as it was. If the key
  -- is new, then after `v` and the key have been written through the pointer the map is valid,
  -- has `v` at the key, and reads as before at every other key.
  pub ensure_entry-Outcome : Outcome (ensure_entry hash same true m k)
  unfolding ensure_entry
  ensure_entry-Outcome =
      Ensures-Outcome (Bucket.get_entry true same k false chain)
        (Ensures-chain chain (valid.sound _ lt).0)
    where
      lt : home hash same m k < m.size
      lt = let p = valid.positive in omega arith
