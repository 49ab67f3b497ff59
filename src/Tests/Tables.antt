-- ===== src/Tests/Tables.antt =====
-- The theorems on the string pool (src/spx_string_pool.c), the call stack (src/spx_call_stack.c)
-- and the checked allocations (src/infrastructure/memory/spx_alloc_safe.c) at small inputs.
use php_spx.Prelude.{
  ℕ, ◌+◌, ◌≤◌, refl, subst, sym, true, [], ◌∷◌, some, arith, length, replicate, length-replicate,
}
use php_spx.Prelude.Bytes.{Bytes}
use php_spx.StringPool.{Pool, intern, block_size}
use php_spx.StringPool.Laws.{Interns, IsValid, intern-Stored, intern_overflow}
use php_spx.CallStack.{pop, CallStack, push}
use php_spx.CallStack.Laws.{Pops, pop-Pops, Pushes, push-Pushes}
use php_spx.Alloc.{malloc_array}
use php_spx.Alloc.Laws.{Allocates, malloc_array-Allocates}

abbrev pool : Pool
pool = record {
  current = 97 ∷ 0 ∷ [];
  older = [];
  total_allocated = block_size;
  total_interned = 1;
}

abbrev word : Bytes
word = 98 ∷ 99 ∷ []

pool-IsValid : IsValid pool
pool-IsValid = ground arith

intern-Stored_example :
    Interns true pool word (intern true pool (some word)) × IsValid (intern true pool (some word)).1
intern-Stored_example = intern-Stored true pool word (refl, (refl, tt)) (omega arith) pool-IsValid

abbrev long_word : Bytes
long_word = replicate block_size 97

is_long : block_size ≤ length long_word
is_long = subst (λ n. block_size ≤ n) (sym (length-replicate {A = ℕ} block_size 97)) (omega arith)

intern_overflow_example : ¬ IsValid (intern true pool (some long_word)).1
intern_overflow_example = intern_overflow pool long_word is_long

abbrev stack : CallStack ℕ
stack = record { frames = λ i. i + 10; capacity = 3; depth = 2 }

push-Pushes_example : Pushes stack 7 (push (some stack) (some 7))
push-Pushes_example = push-Pushes stack 7 (omega arith)

pop-Pops_example : Pops stack (pop (some stack))
pop-Pops_example = pop-Pops stack (omega arith)

malloc_array-Allocates_example : Allocates true 3 5 (malloc_array true 3 5)
malloc_array-Allocates_example = malloc_array-Allocates true 3 5
