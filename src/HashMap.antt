-- ===== src/HashMap.antt =====
-- The hash map of src/spx_hmap.c: an array of buckets of four entries each, where a bucket that is
-- full leads to a further one. `hash` and `same` stand for the caller's two callbacks, `same a b`
-- for `cmp(a, b) == 0`. The result of each `malloc` is an argument. A size of zero, which is a
-- division by zero in C, is left to the theorems' hypotheses.
pub mod Bucket
pub mod Laws
pub mod Methods
use php_spx.Prelude.{
  ℕ, ◌%◌, Bool, true, false, not, ◌||◌, List, Option, none, some, if◌then◌else◌, replicate, map,
  get_or, set, [], ◌∷◌,
}
use Bucket.{Chain, Place, Slot}

pub record HashMap {ℓ} (K V : Type ℓ) : Type ℓ where
  pub size : ℕ
  pub buckets : List (Chain K V)

-- A pointer to an entry: its bucket, and its place in the bucket's chain.
pub record EntryRef : Type 0 where
  pub bucket : ℕ
  pub place : Place

abbrev pub entry_ref : ℕ → Option Place → Option EntryRef
entry_ref i none = none
entry_ref i (some p) = some (record { bucket = i; place = p })

module _ {ℓ} {K V : Type ℓ} where
  -- `spx_hmap_create`, given whether its two allocations succeed
  unfoldable pub create : Bool → Bool → ℕ → Option (HashMap K V)
  create granted buckets_granted size =
      if not granted || not buckets_granted
      then none
      else some (record { size = size; buckets = replicate size (Bucket.init ∷ []) })

  -- `spx_hmap_reset`
  unfoldable pub reset : HashMap K V → HashMap K V
  reset m = record m { buckets = map Bucket.reset m.buckets }

  -- `spx_hmap_entry_get_value`
  unfoldable pub entry_get_value : HashMap K V → EntryRef → Option V
  entry_get_value m e =
      Bucket.get_value (Bucket.at e.place.block e.place.slot (get_or m.buckets e.bucket []))

  modify_entry : (Slot K V → Slot K V) → HashMap K V → EntryRef → HashMap K V
  modify_entry f m e =
      let c = get_or m.buckets e.bucket [] in
      record m { buckets = set m.buckets e.bucket (Bucket.modify f e.place.block e.place.slot c) }

  -- `spx_hmap_entry_set_value`
  unfoldable pub entry_set_value : HashMap K V → EntryRef → V → HashMap K V
  unfolding modify_entry
  entry_set_value m e v = modify_entry (Bucket.set_value v) m e

  -- `spx_hmap_set_entry_key`, whose result the code does not use
  unfoldable pub set_entry_key : (K → K → Bool) → HashMap K V → EntryRef → K → HashMap K V
  unfolding modify_entry
  set_entry_key same m e k = modify_entry (Bucket.set_key same k) m e

  -- The value of the entry that the search returns, or `none` for NULL.
  abbrev pub read : Option Place × Chain K V → Option (Option V)
  read (none, c) = none
  read (some p, c) = some (Bucket.get_value (Bucket.at p.block p.slot c))

  module _ (hash : K → ℕ) (same : K → K → Bool) where
    abbrev pub home : HashMap K V → K → ℕ
    home m k = hash k % m.size

    -- `spx_hmap_ensure_entry`; the flag `*new` is in the place
    unfoldable pub ensure_entry : Bool → HashMap K V → K → Option EntryRef × HashMap K V
    ensure_entry granted m k =
        let (p, c) = Bucket.get_entry granted same k false (get_or m.buckets (home m k) []) in
        (entry_ref (home m k) p, record m { buckets = set m.buckets (home m k) c })

    -- `spx_hmap_get_value`
    unfoldable pub get_value : HashMap K V → K → Option (Option V)
    get_value m k = read (Bucket.get_entry false same k true (get_or m.buckets (home m k) []))
