-- ===== src/Alloc.antt =====
-- The checked allocations of src/infrastructure/memory/spx_alloc_safe.c, where `size_t` has 64 bits.
-- The argument `granted` says whether the system's allocation succeeds; a block is the number of
-- bytes that it has, a copied string the bytes up to its NUL.
pub mod Laws
use php_spx.Prelude.{
  ℕ, zero, suc, ◌+◌, ◌-◌, ◌*◌, ◌/◌, ◌^◌, Bool, true, false, ◌||◌, List, [], ◌∷◌, Option, none, some,
  if◌then◌else◌, ◌==◌, ltb, length, take,
}
use php_spx.Prelude.Bytes.{Bytes}

abbrev pub size_max : ℕ
size_max = 2 ^ 64 - 1

-- The codes of `spx_error_code_t` that are set.
pub data AllocError : Type 0 where
  invalid_input out_of_memory buffer_overflow : AllocError

pub data Allocation (A : Type 0) : Type 0 where
  block : A → Allocation A
  refused : AllocError → Allocation A

-- `spx_check_mul_overflow`: the product, or none where the code returns 1.
unfoldable pub check_mul_overflow : ℕ → ℕ → Option ℕ
check_mul_overflow a b =
    if a == 0 || b == 0 then some 0 else if ltb (size_max / b) a then none else some (a * b)

-- `spx_check_add_overflow`
unfoldable pub check_add_overflow : ℕ → ℕ → Option ℕ
check_add_overflow a b = if ltb (size_max - b) a then none else some (a + b)

-- `spx_malloc_checked` and, on a block or NULL, `spx_realloc_checked`
abbrev pub malloc_checked : Bool → ℕ → Allocation ℕ
malloc_checked granted size =
    if size == 0
    then refused invalid_input
    else if granted
    then block size
    else refused out_of_memory

abbrev pub for_size : {A : Type 0} → Option ℕ → (ℕ → Allocation A) → Allocation A
for_size none f = refused buffer_overflow
for_size (some size) f = f size

-- `spx_calloc_checked`
unfoldable pub calloc_checked : Bool → ℕ → ℕ → Allocation ℕ
unfolding check_mul_overflow
calloc_checked granted nmemb size =
    if nmemb == 0 || size == 0
    then refused invalid_input
    else for_size (check_mul_overflow nmemb size)
        (λ total. if granted then block total else refused out_of_memory)

-- `spx_malloc_array`
unfoldable pub malloc_array : Bool → ℕ → ℕ → Allocation ℕ
unfolding check_mul_overflow
malloc_array granted nmemb size = for_size (check_mul_overflow nmemb size) (malloc_checked granted)

abbrev pub copy_into : {A : Type 0} → Allocation ℕ → A → Allocation A
copy_into (refused e) s = refused e
copy_into (block n) s = block s

-- `spx_strdup_checked`
unfoldable pub strdup_checked : Bool → Option Bytes → Allocation Bytes
unfolding check_add_overflow
strdup_checked granted none = refused invalid_input
strdup_checked granted (some s) =
    for_size (check_add_overflow (length s) 1) (λ size. copy_into (malloc_checked granted size) s)

-- `spx_strndup_checked`
unfoldable pub strndup_checked : Bool → Option Bytes → ℕ → Allocation Bytes
unfolding check_add_overflow
strndup_checked granted none max_len = refused invalid_input
strndup_checked granted (some s) max_len =
    for_size (check_add_overflow (length (take max_len s)) 1)
      (λ size. copy_into (malloc_checked granted size) (take max_len s))
