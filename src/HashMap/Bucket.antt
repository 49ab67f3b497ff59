-- ===== src/HashMap/Bucket.antt =====
-- One bucket of src/spx_hmap.c with its overflow buckets: `bucket_init`, `bucket_get_entry`,
-- `bucket_release_chain` and what is done through the pointer to an entry.
-- A chain is the list of its blocks, the first being the bucket in the array; an entry pointer is
-- a position in the chain. A value that was never written is `none`.
pub mod Laws
pub mod Slots
use php_spx.Prelude.{
  ℕ, zero, suc, Bool, true, false, List, [], ◌∷◌, Option, none, some, if◌then◌else◌, replicate,
}

-- The entry's key and value, or the mark `free`.
pub data Slot {ℓ} (K : Type ℓ) (V : Type ℓ) : Type ℓ where
  vacant : Slot K V
  used : K → Option V → Slot K V

-- A pointer to an entry, and the flag `*new`.
pub record Place : Type 0 where
  pub block : ℕ
  pub slot : ℕ
  pub is_new : Bool

-- What the loop over one block comes to: it returns an entry, it returns NULL, or it ends.
pub data Scan {ℓ} (K : Type ℓ) (V : Type ℓ) : Type ℓ where
  hit : ℕ → Bool → List (Slot K V) → Scan K V
  missing : Scan K V
  full : Scan K V

abbrev pub bucket_size : ℕ
bucket_size = 4

abbrev pub Chain {ℓ} : Type ℓ → Type ℓ → Type ℓ
Chain K V = List (List (Slot K V))

module _ {ℓ} {K : Type ℓ} {V : Type ℓ} where
  -- `bucket_init`
  abbrev pub init : List (Slot K V)
  init = replicate bucket_size vacant

  -- `bucket_release_chain`, followed by `bucket_init` of the first block
  abbrev pub reset : Chain K V → Chain K V
  reset [] = []
  reset (b ∷ bs) = init ∷ []

  abbrev pub shift : Slot K V → Scan K V → Scan K V
  shift s (hit i n b) = hit (suc i) n (s ∷ b)
  shift s missing = missing
  shift s full = full

  -- The loop of `bucket_get_entry` over the entries of one block.
  unfoldable pub scan : (K → K → Bool) → K → Bool → List (Slot K V) → Scan K V
  scan same k existing [] = full
  scan same k existing (vacant ∷ b) = if existing then missing else hit 0 true (used k none ∷ b)
  scan same k existing (used j v ∷ b) =
      if same k j then hit 0 false (used j v ∷ b) else shift (used j v) (scan same k existing b)

  abbrev pub deeper : List (Slot K V) → Option Place × Chain K V → Option Place × Chain K V
  deeper b (none, c) = (none, b ∷ c)
  deeper b (some p, c) = (some (record p { block = suc p.block }), b ∷ c)

  -- The outcome of the loop in the last block of a chain; `more` is the search after it.
  abbrev pub conclude :
      List (Slot K V) → Chain K V → Option Place × Chain K V → Scan K V → Option Place × Chain K V
  conclude b rest more (hit i n b') = (some (record { block = 0; slot = i; is_new = n }), b' ∷ rest)
  conclude b rest more missing = (none, b ∷ rest)
  conclude b rest more full = more

  -- The end of the chain: NULL if the key must exist or `malloc` fails, else a fresh block.
  unfoldable pub extend :
      Bool → (K → K → Bool) → K → Bool → List (Slot K V) → Option Place × Chain K V
  unfolding scan
  extend granted same k existing b =
      if existing
      then (none, b ∷ [])
      else if granted
      then deeper b (conclude init [] (none, init ∷ []) (scan same k existing init))
      else (none, b ∷ [])

  -- `bucket_get_entry`; `granted` says whether the `malloc` of a further block succeeds.
  unfoldable pub get_entry : Bool → (K → K → Bool) → K → Bool → Chain K V → Option Place × Chain K V
  unfolding scan extend
  get_entry granted same k existing [] = (none, [])
  get_entry granted same k existing (b ∷ []) =
      conclude b [] (extend granted same k existing b) (scan same k existing b)
  get_entry granted same k existing (b ∷ c ∷ cs) =
      conclude b (c ∷ cs) (deeper b (get_entry granted same k existing (c ∷ cs)))
        (scan same k existing b)

  -- A change through an entry pointer.
  unfoldable pub modify_slot : (Slot K V → Slot K V) → ℕ → List (Slot K V) → List (Slot K V)
  modify_slot f i [] = []
  modify_slot f zero (s ∷ b) = f s ∷ b
  modify_slot f (suc i) (s ∷ b) = s ∷ modify_slot f i b

  unfoldable pub modify : (Slot K V → Slot K V) → ℕ → ℕ → Chain K V → Chain K V
  unfolding modify_slot
  modify f n i [] = []
  modify f zero i (b ∷ c) = modify_slot f i b ∷ c
  modify f (suc n) i (b ∷ c) = b ∷ modify f n i c

  unfoldable pub slot_at : ℕ → List (Slot K V) → Slot K V
  slot_at i [] = vacant
  slot_at zero (s ∷ b) = s
  slot_at (suc i) (s ∷ b) = slot_at i b

  -- The slot that a place points to.
  unfoldable pub at : ℕ → ℕ → Chain K V → Slot K V
  unfolding slot_at
  at n i [] = vacant
  at zero i (b ∷ c) = slot_at i b
  at (suc n) i (b ∷ c) = at n i c

  -- `spx_hmap_entry_set_value`
  abbrev pub set_value : V → Slot K V → Slot K V
  set_value v vacant = vacant
  set_value v (used k _) = used k (some v)

  -- `spx_hmap_set_entry_key`, whose result says whether the keys were equal
  abbrev pub set_key : (K → K → Bool) → K → Slot K V → Slot K V
  set_key same k vacant = vacant
  set_key same k (used j v) = if same j k then used k v else used j v

  -- `spx_hmap_entry_get_value`
  abbrev pub get_value : Slot K V → Option V
  get_value vacant = none
  get_value (used _ v) = v
