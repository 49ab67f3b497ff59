-- ===== src/Alloc/Laws.antt =====
-- The overflow checks of src/infrastructure/memory/spx_alloc_safe.c.
use native.Mathlib.Nat.{div-lt_iff_lt-mul}
use php_spx.Prelude.{
  ℕ, ◌+◌, ◌-◌, ◌*◌, ◌/◌, ◌≤◌, ◌<◌, ◌≡◌, refl, sym, ap, subst, ◌∙◌, Bool, true, false, ◌||◌, none,
  some, arith, if◌then◌else◌, ◌==◌, ltb, leb, Bool-cases, inl, inr, if_true, if_false, ◌↔◌,
}
use php_spx.Alloc.{
  size_max, check_mul_overflow, check_add_overflow, malloc_array, Allocation, block, refused,
  buffer_overflow, out_of_memory, invalid_input, malloc_checked, for_size,
}

-- `spx_check_add_overflow` returns the sum exactly when it is a `size_t`.
pub check_add_overflow-exact :
    (a b : ℕ)
    → b ≤ size_max
    → check_add_overflow a b ≡ (if leb (a + b) size_max then some (a + b) else none)
unfolding check_add_overflow
check_add_overflow-exact a b h = elim (Bool-cases (leb (a + b) size_max)) [
  | inl fits ↦
      if_false (ltb (size_max - b) a) _ _ (ground arith)
      ∙ sym (if_true (leb (a + b) size_max) _ _ fits)
  | inr over ↦
      if_true (ltb (size_max - b) a) _ _ (ground arith)
      ∙ sym (if_false (leb (a + b) size_max) _ _ over)
]

-- `spx_check_mul_overflow` returns the product exactly when it is a `size_t`: a division stands for
-- the comparison that would overflow.
pub check_mul_overflow-exact :
    (a b : ℕ) → check_mul_overflow a b ≡ (if leb (a * b) size_max then some (a * b) else none)
unfolding check_mul_overflow
check_mul_overflow-exact a b = elim (Bool-cases (a == 0 || b == 0)) [
  | inl null ↦
      if_true (a == 0 || b == 0) _ _ null
      ∙ ap (λ n. if leb n size_max then some n else none) (sym (zero_product null))
  | inr both ↦ if_false (a == 0 || b == 0) _ _ both ∙ elim (Bool-cases (leb (a * b) size_max)) [
    | inl fits ↦
        if_false (ltb (size_max / b) a) _ _ (no_overflow both fits)
        ∙ sym (if_true (leb (a * b) size_max) _ _ fits)
    | inr over ↦
        if_true (ltb (size_max / b) a) _ _ (overflow both over)
        ∙ sym (if_false (leb (a * b) size_max) _ _ over)
  ]
]
  where
    zero_product : (a == 0 || b == 0) ≡ true → a * b ≡ 0
    zero_product h = ground arith

    exact : (a == 0 || b == 0) ≡ false → (size_max / b < a) ↔ (size_max < a * b)
    exact h = div-lt_iff_lt-mul {k = b} {x = size_max} {y = a} (ground arith)

    no_overflow :
        (a == 0 || b == 0) ≡ false → leb (a * b) size_max ≡ true → ltb (size_max / b) a ≡ false
    no_overflow h fits = let e = exact h in ground arith

    overflow :
        (a == 0 || b == 0) ≡ false → leb (a * b) size_max ≡ false → ltb (size_max / b) a ≡ true
    overflow h over = let e = exact h in ground arith

-- What an array of `nmemb` elements of `size` bytes comes to: a block of exactly that many bytes,
-- or a refusal for the reason that holds.
abbrev pub Allocates : Bool → ℕ → ℕ → Allocation ℕ → Type 0
Allocates granted nmemb size (block n) =
    (n ≡ nmemb * size) × (0 < n) × (n ≤ size_max) × (granted ≡ true)
Allocates granted nmemb size (refused invalid_input) = nmemb * size ≡ 0
Allocates granted nmemb size (refused buffer_overflow) = size_max < nmemb * size
Allocates granted nmemb size (refused out_of_memory) = granted ≡ false

malloc_checked-Allocates :
    (granted : Bool) (nmemb size : ℕ)
    → nmemb * size ≤ size_max
    → Allocates granted nmemb size (malloc_checked granted (nmemb * size))
malloc_checked-Allocates granted nmemb size h = elim (Bool-cases (nmemb * size == 0)) [
  | inl empty ↦
      subst (Allocates granted nmemb size) (sym (if_true (nmemb * size == 0) _ _ empty))
        (ground arith)
  | inr some_bytes ↦
      subst (Allocates granted nmemb size) (sym (if_false (nmemb * size == 0) _ _ some_bytes))
        (by_grant (ground arith) granted)
]
  where
    by_grant :
        0 < nmemb * size
        → (g : Bool)
        → Allocates g nmemb size (if g then block (nmemb * size) else refused out_of_memory)
    by_grant positive true = (refl, positive, h, refl)
    by_grant positive false = refl

-- `spx_malloc_array` returns a block of exactly `nmemb * size` bytes; it refuses only where the
-- product is 0, is no `size_t`, or the system has no memory, and it tells which.
pub malloc_array-Allocates :
    (granted : Bool) (nmemb size : ℕ)
    → Allocates granted nmemb size (malloc_array granted nmemb size)
unfolding malloc_array
malloc_array-Allocates granted nmemb size = elim (Bool-cases (leb (nmemb * size) size_max)) [
  | inl fits ↦
      subst (Allocates granted nmemb size)
        (sym (
          ap (λ o. for_size o (malloc_checked granted))
            (check_mul_overflow-exact nmemb size ∙ if_true (leb (nmemb * size) size_max) _ _ fits)))
        (malloc_checked-Allocates granted nmemb size (ground arith))
  | inr over ↦
      subst (Allocates granted nmemb size)
        (sym (
          ap (λ o. for_size o (malloc_checked granted))
            (check_mul_overflow-exact nmemb size
              ∙ if_false (leb (nmemb * size) size_max) _ _ over)))
        (ground arith)
]
