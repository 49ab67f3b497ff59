-- ===== src/FuncTable/Names.antt =====
-- The interned names of the functions of the function table (src/spx_profiler_tracer.c).
use php_spx.Prelude.{
  ℕ, ◌+◌, ◌<◌, ◌≡◌, ◌⊎◌, inl, inr, refl, ◌∙◌, Bool, true, false, Option, none, some, length,
  if◌then◌else◌, ◌==◌,
}
use php_spx.Prelude.Bytes.{Bytes, NoNul}
use php_spx.HashMap
use php_spx.HashMap.{HashMap, EntryRef}
use php_spx.StringPool.{Pool, Pointer, block_size, intern, deref}
use php_spx.StringPool.Laws
use php_spx.StringPool.Laws.{Interned, Interns, intern-Stored}
use php_spx.FuncTable.{
  Function, FuncTable, Run, ◌>>=◌, same_function, hash_code, intern_names, get_entry, entry_found,
  add_entry, joined,
}
use php_spx.FuncTable.Laws.{IsValid}
use php_spx.FuncTable.GetEntry.{plenty, Gets, get_entry-Gets}

-- A name that is a C string and fits a block of the pool with its NUL.
abbrev pub IsName : Bytes → Type 0
IsName s = NoNul s × (length s < block_size)

-- Pointers into the pool that read as the names of a function.
abbrev pub Reads : Pool → Function → Type 0
Reads p f =
    (name : Pointer) × (class : Pointer) × (deref p name ≡ f.func_name)
    × (deref p class ≡ f.class_name)

-- No block is overrun, and where an entry is new its names are in the pool.
abbrev pub Stored : FuncTable → Function → Run (Option ℕ × FuncTable × Pool) → Type 0
Stored t f none = Unit {0}
Stored t f (some (i, t', pool)) =
    Laws.IsValid pool × ((t'.size ≡ t.size) ⊎ ((t'.size ≡ t.size + 1) × Reads pool f))

abbrev Named : Function → Run Pool → Type 0
Named f none = Unit {0}
Named f (some q) = Laws.IsValid q × Reads q f

module _ (f : Function) (named : IsName f.func_name) (class_named : IsName f.class_name) where
  second-Named :
      (p : Pool) (name : Pointer)
      → Interned p name
      → deref p name ≡ f.func_name
      → (b : Option Pointer × Pool) → Interns true p f.class_name b
      → Laws.IsValid b.1
      → Named f (b.0 >>= λ c. some b.1)
  second-Named p name there reads (none, q) h v = _
  second-Named p name there reads (some c, q) ((in_pool, e), keeps) v =
      (v, (name, c, (keeps name there).1 ∙ reads, e))

  both-Named :
      (a : Option Pointer × Pool)
      → (p : Pool) → Interns true p f.func_name a
      → Laws.IsValid a.1
      → Named f (
          a.0 >>= λ n. (intern true a.1 (some f.class_name)).0 >>= λ c.
          some (intern true a.1 (some f.class_name)).1)
  both-Named (none, q) p h v = _
  both-Named (some n, q) p ((in_pool, e), keeps) v =
      let (interns, valid) = intern-Stored true q f.class_name class_named.0 class_named.1 v in
      second-Named q n in_pool e (intern true q (some f.class_name)) interns valid

  intern_names-Named : (p : Pool) → Laws.IsValid p → Named f (intern_names plenty p f)
  unfolding intern_names
  intern_names-Named p v =
      let (interns, valid) = intern-Stored true p f.func_name named.0 named.1 v in
      both-Named (intern true p (some f.func_name)) p interns valid

  added-Stored :
      (t : FuncTable) (hmap : HashMap Function ℕ) (e : EntryRef) (r : Run Pool)
      → Named f r
      → Stored t f (r >>= λ pool'. some (some t.size, add_entry t hmap e f, pool'))
  added-Stored t hmap e none h = _
  added-Stored t hmap e (some q) (v, reads) = (v, inr (refl, reads))

  entry_found-Stored :
      (t : FuncTable) (pool : Pool) (found : Option EntryRef × HashMap Function ℕ)
      → Laws.IsValid pool
      → Stored t f (entry_found plenty t f pool found)
  entry_found-Stored t pool (none, hmap) v = _
  entry_found-Stored t pool (some e, hmap) v = either e.place.is_new
    where
      either :
          (b : Bool)
          → Stored t f (
              if b
              then (intern_names plenty pool f >>= λ pool'.
                  some (some t.size, add_entry t hmap e f, pool'))
              else some (HashMap.entry_get_value hmap e, record t { hmap = hmap }, pool))
      either true = added-Stored t hmap e _ (intern_names-Named pool v)
      either false = (v, inl refl)

  -- With every allocation granted, on a valid table and a pool in which no block has been overrun, a
  -- search for a function of which both names are C strings that fit a block does not end the
  -- process. It returns the index of an entry of the function, in a table that is valid, keeps every
  -- entry in use, and has at most one more, with statistics of zero; NULL comes back only for an
  -- unknown function in a full table, which stays as it was. No block is overrun, and where an entry
  -- is new, pointers into the pool read as the names that it holds.
  pub get_entry-Stored :
      (zend_hash : Bytes → ℕ) (t : FuncTable) (pool : Pool)
      → IsValid zend_hash t
      → Laws.IsValid pool
      → Gets zend_hash t f (get_entry zend_hash plenty t f pool)
        × Stored t f (get_entry zend_hash plenty t f pool)
  unfolding get_entry
  get_entry-Stored zend_hash t pool v valid =
      (get_entry-Gets zend_hash t v f pool, either (t.size == t.capacity))
    where
      either :
          (full : Bool)
          → Stored t f (
              if full
              then some
                  (joined (HashMap.get_value (hash_code zend_hash) same_function t.hmap f), t, pool)
              else entry_found plenty t f pool
                  (HashMap.ensure_entry (hash_code zend_hash) same_function plenty.bucket t.hmap f))
      either true = (valid, inl refl)
      either false = entry_found-Stored t pool _ valid
