-- ===== src/FuncTable.antt =====
-- The function table of src/spx_profiler_tracer.c (`func_table_t`), with the entry types of
-- src/spx_profiler.h and the function record of src/spx_php.h. An entry pointer is the entry's
-- index; the array is a memory of cells, of which the first `size` are in use.
-- `zend_hash` stands for PHP's `zend_inline_hash_func`.
pub mod Laws
pub mod GetEntry
pub mod Names
use Prim.Native.Nat.{bit_xor}
use php_spx.Prelude.{
  ℕ, ◌+◌, ◌-◌, Bool, true, false, ◌&&◌, Option, none, some, if◌then◌else◌, ◌==◌, update,
}
use php_spx.Prelude.Bytes.{Bytes, bytes_eq}
use php_spx.HashMap
use php_spx.HashMap.{HashMap, EntryRef}
use php_spx.Metric.{Values, zero_values}
use php_spx.StringPool
use php_spx.StringPool.{Pool, Pointer}

-- `spx_php_function_t`, whose `hash_code` is computed from the names
pub record Function : Type 0 where
  pub func_name : Bytes
  pub class_name : Bytes

-- `spx_profiler_func_stats_t`
pub record Stats : Type 0 where
  pub called : ℕ
  pub max_cycle_depth : ℕ
  pub inc : Values
  pub exc : Values

-- `spx_profiler_func_table_entry_t`
pub record Entry : Type 0 where
  pub idx : ℕ
  pub function : Function
  pub stats : Stats

pub record FuncTable : Type 0 where
  pub hmap : HashMap Function ℕ
  pub size : ℕ
  pub capacity : ℕ
  pub entries : ℕ → Entry

-- Whether the allocations that a call may make succeed: a further bucket, and a further block of
-- the string pool for the function's name and for the class's.
pub record Memory : Type 0 where
  pub bucket : Bool
  pub name_block : Bool
  pub class_block : Bool

-- `func_table_hmap_cmp_key(a, b) == 0`
unfoldable pub same_function : Function → Function → Bool
same_function a b = bytes_eq a.func_name b.func_name && bytes_eq a.class_name b.class_name

abbrev pub zero_stats : Stats
zero_stats = record { called = 0; max_cycle_depth = 0; inc = zero_values; exc = zero_values }

-- A call that may end the process, by `spx_utils_die`, which is `none`.
abbrev pub Run : Type 0 → Type 0
Run A = Option A

infixl 5 ◌>>=◌
abbrev pub ◌>>=◌ : {A B : Type 0} → Run A → (A → Run B) → Run B
none >>= f = none
some a >>= f = f a

-- `func_table_reset`
unfoldable pub reset : FuncTable → FuncTable
reset t = record t { size = 0; hmap = HashMap.reset t.hmap }

-- The entry of a new function at the end of the array. The names that it holds are those of the
-- function, as the interned copies read where each name fits a block of the pool.
abbrev pub new_entry : FuncTable → Function → Entry
new_entry t f = record { idx = t.size; function = f; stats = zero_stats }

-- What follows the interning of both names.
abbrev pub add_entry : FuncTable → HashMap Function ℕ → EntryRef → Function → FuncTable
add_entry t hmap e f = record t {
  size = t.size + 1;
  entries = update t.entries t.size (new_entry t f);
  hmap = HashMap.set_entry_key same_function (HashMap.entry_set_value hmap e t.size) e f;
}

-- The names of a new function go into the string pool, the process ends where one does not.
unfoldable pub intern_names : Memory → Pool → Function → Run Pool
intern_names memory pool f =
    let (name, pool') = StringPool.intern memory.name_block pool (some f.func_name) in
    let (class, pool'') = StringPool.intern memory.class_block pool' (some f.class_name) in
    name >>= λ n. class >>= λ c. some pool''

abbrev pub joined {ℓ} : {A : Type ℓ} → Option (Option A) → Option A
joined none = none
joined (some o) = o

-- What follows a search for the function's entry in the hash map.
abbrev pub entry_found :
    Memory
    → FuncTable
    → Function
    → Pool
    → Option EntryRef × HashMap Function ℕ
    → Run (Option ℕ × FuncTable × Pool)
entry_found memory t f pool (none, hmap) = none
entry_found memory t f pool (some e, hmap) =
    if e.place.is_new
    then (intern_names memory pool f >>= λ pool'. some (some t.size, add_entry t hmap e f, pool'))
    else some (HashMap.entry_get_value hmap e, record t { hmap = hmap }, pool)

module _ (zend_hash : Bytes → ℕ) where
  -- The hash code that `spx_php_current_function` computes, and `func_table_hmap_hash_key` reads.
  unfoldable pub hash_code : Function → ℕ
  hash_code f = bit_xor (zend_hash f.func_name) (zend_hash f.class_name)

  -- `func_table_get_entry`
  unfoldable pub get_entry :
      Memory → FuncTable → Function → Pool → Run (Option ℕ × FuncTable × Pool)
  get_entry memory t f pool =
      if t.size == t.capacity
      then some (joined (HashMap.get_value hash_code same_function t.hmap f), t, pool)
      else entry_found memory t f pool
          (HashMap.ensure_entry hash_code same_function memory.bucket t.hmap f)
