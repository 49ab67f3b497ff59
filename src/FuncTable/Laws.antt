-- ===== src/FuncTable/Laws.antt =====
-- The invariant of the function table of src/spx_profiler_tracer.c.
use php_spx.Prelude.{ℕ, ◌≤◌, ◌<◌, ◌≡◌, ◌≢◌, ap, true, Option, none, some, arith}
use php_spx.Prelude.Bytes.{Bytes, bytes_eq_refl, eq_of_bytes_eq, bytes_eq_comm}
use php_spx.HashMap
use php_spx.HashMap.Laws
use php_spx.HashMap.Bucket.Slots.{KeyLaws}
use php_spx.FuncTable.{Function, FuncTable, same_function, hash_code}

pub same_function_refl : (a : Function) → same_function a a ≡ true
unfolding same_function
same_function_refl a = rw (bytes_eq_refl a.func_name, bytes_eq_refl a.class_name)

same_function_symm : (a b : Function) → same_function a b ≡ same_function b a
unfolding same_function
same_function_symm a b =
    rw (bytes_eq_comm a.func_name b.func_name, bytes_eq_comm a.class_name b.class_name)

-- `func_table_hmap_cmp_key` tells functions apart exactly by their two names.
pub eq_of_same_function : (a b : Function) → same_function a b ≡ true → a ≡ b
unfolding same_function
eq_of_same_function a b h =
    ground (arith, eq_of_bytes_eq a.func_name b.func_name, eq_of_bytes_eq a.class_name b.class_name)

-- The two callbacks of the table are what the hash map asks for.
pub function-KeyLaws : (zend_hash : Bytes → ℕ) → KeyLaws (hash_code zend_hash) same_function
function-KeyLaws zend_hash = record {
  same_refl = same_function_refl;
  same_symm = same_function_symm;
  same_trans = λ a b c p q. rw (eq_of_same_function a b p) q;
  hash-same = λ a b p. ap (hash_code zend_hash) (eq_of_same_function a b p);
}

module _ (zend_hash : Bytes → ℕ) where
  abbrev pub lookup : FuncTable → Function → Option (Option ℕ)
  lookup t q = HashMap.get_value (hash_code zend_hash) same_function t.hmap q

  -- The map holds exactly the functions in use, each under the index of its entry.
  pub record IsValid (t : FuncTable) : Type 0 where
    pub map_valid : HashMap.Laws.IsValid t.hmap
    pub bounded : t.size ≤ t.capacity
    pub written : (q : Function) → lookup t q ≢ some none
    pub known :
        (q : Function) (i : ℕ)
        → lookup t q ≡ some (some i)
        → (i < t.size) × ((t.entries i).function ≡ q)
    pub listed : (i : ℕ) → i < t.size → lookup t (t.entries i).function ≡ some (some i)
