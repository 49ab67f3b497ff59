-- ===== src/StringPool/Laws.antt =====
-- What a string in the pool of src/spx_string_pool.c can rely on.
use php_spx.Prelude.{
  take, take_all, subst, ◌-◌, ℕ, zero, suc, ◌+◌, ◌≤◌, ◌<◌, ◌≡◌, refl, ap, ◌∙◌, Bool, true, false,
  List, [], ◌∷◌, ◌++◌, Option, none, some, arith, if◌then◌else◌, length, length-append, drop, ◌==◌,
  ltb, Bool-cases, ◌⊎◌, inl, inr, lt→ltb,
}
use php_spx.Prelude.Bytes.{Bytes, NoNul}
use php_spx.StringPool.{
  in_array, Pool, Pointer, block_size, next_block, store, intern, c_string, block_data, deref,
}

-- No block holds more than its array.
abbrev pub AllFit : List Bytes → Type 0
AllFit [] = Unit {0}
AllFit (b ∷ bs) = (length b ≤ block_size) × AllFit bs

abbrev pub IsValid : Pool → Type 0
IsValid p = AllFit (p.current ∷ p.older)

abbrev pub HasNul : Bytes → Type 0
HasNul [] = ⊥
HasNul (c ∷ s) = (c ≡ 0) ⊎ HasNul s

-- A pointer at a string of the pool that has its terminator.
abbrev pub Interned : Pool → Pointer → Type 0
Interned p q = HasNul (drop q.offset (in_array (block_data (p.current ∷ p.older) q.block)))

HasNul-append : (a b : Bytes) → HasNul a → HasNul (a ++ b)
HasNul-append [] b h = absurd h
HasNul-append (c ∷ a) b (inl e) = inl e
HasNul-append (c ∷ a) b (inr h) = inr (HasNul-append a b h)

c_string-append : (a b : Bytes) → HasNul a → c_string (a ++ b) ≡ c_string a
c_string-append [] b h = absurd h
c_string-append (c ∷ a) b (inl e) = ground arith
c_string-append (c ∷ a) b (inr h) = ground (arith, c_string-append a b h)

c_string-terminated : (s : Bytes) → NoNul s → c_string (s ++ 0 ∷ []) ≡ s
c_string-terminated [] h = refl
c_string-terminated (c ∷ s) h = rw (h.0) (ap (◌∷◌ c) (c_string-terminated s h.1))

HasNul-terminated : (s : Bytes) → NoNul s → HasNul (s ++ 0 ∷ [])
HasNul-terminated [] h = inl refl
HasNul-terminated (c ∷ s) h = inr (HasNul-terminated s h.1)

drop-append : (a b : Bytes) → drop (length a) (a ++ b) ≡ b
drop-append [] b = refl
drop-append (c ∷ a) b = drop-append a b

drop-append_within : (n : ℕ) (a b : Bytes) → HasNul (drop n a) → drop n (a ++ b) ≡ drop n a ++ b
drop-append_within zero a b h = refl
drop-append_within (suc n) [] b h = absurd h
drop-append_within (suc n) (c ∷ a) b h = drop-append_within n a b h

take-append : (n : ℕ) (a b : Bytes) → take n (a ++ b) ≡ take n a ++ take (n - length a) b
take-append zero a b = ap (λ k. take k b) (none_left (length a))
  where
    none_left : (k : ℕ) → 0 ≡ 0 - k
    none_left k = omega arith
take-append (suc n) [] b = ap (λ k. take k b) all_left
  where
    all_left : suc n ≡ suc n - 0
    all_left = omega arith
take-append (suc n) (c ∷ a) b =
    ap (◌∷◌ c) (take-append n a b ∙ ap (λ k. take n a ++ take k b) (one_less (length a)))
  where
    one_less : (k : ℕ) → n - k ≡ suc n - suc k
    one_less k = omega arith

take-nil : (n : ℕ) → ◌≡◌ {A = Bytes} (take n []) []
take-nil zero = refl
take-nil (suc n) = refl

drop-nil : (n : ℕ) → ◌≡◌ {A = Bytes} (drop n []) []
drop-nil zero = refl
drop-nil (suc n) = refl

-- The block that a pointer names is one of the list.
block-lt :
    (bs : List Bytes) (n m : ℕ) → HasNul (drop m (in_array (block_data bs n))) → n < length bs
block-lt [] n m h = absurd (subst HasNul (ap (drop m) (take-nil block_size) ∙ drop-nil m) h)
block-lt (b ∷ bs) n m h = elim (Bool-cases (length bs == n)) [
  | inl e ↦ ground arith
  | inr e ↦ (let h' = rw e at h in omega (arith, block-lt bs n m h'))
]

-- What a further block or further bytes in the current one leave of a string.
abbrev Keeps : Pool → Pool → Type 0
Keeps p r = (q : Pointer) → Interned p q → Interned r q × (deref r q ≡ deref p q)

extended :
    (n : ℕ) (a b : Bytes)
    → HasNul (drop n (in_array a))
    → HasNul (drop n (in_array (a ++ b)))
      × (c_string (drop n (in_array (a ++ b))) ≡ c_string (drop n (in_array a)))
extended n a b h =
    let more = take (block_size - length a) b in
    rw (take-append block_size a b, drop-append_within n (in_array a) more h)
      (HasNul-append (drop n (in_array a)) more h, c_string-append (drop n (in_array a)) more h)

store-Keeps : (p : Pool) (s : Bytes) → Keeps p (store p s).1
unfolding deref
store-Keeps p s q h = elim (Bool-cases (length p.older == q.block)) [
  | inl e ↦ rw e (extended q.offset p.current (s ++ 0 ∷ []) (rw e at h))
  | inr e ↦ rw e (rw e at h, refl)
]

next_block-Keeps : (p : Pool) → Keeps p (next_block p)
unfolding deref
next_block-Keeps p q h =
    let lt = block-lt (p.current ∷ p.older) q.block q.offset h in
    let e : (suc (length p.older) == q.block) ≡ false = ground arith in rw e (h, refl)

store-deref :
    (p : Pool) (s : Bytes)
    → NoNul s
    → length p.current + (length s + 1) ≤ block_size
    → Interned (store p s).1 (store p s).0 × (deref (store p s).1 (store p s).0 ≡ s)
unfolding deref
store-deref p s h fits =
    let e : (length p.older == length p.older) ≡ true = ground arith in
    let whole : in_array (p.current ++ (s ++ 0 ∷ [])) ≡ p.current ++ (s ++ 0 ∷ []) =
      take_all block_size (p.current ++ (s ++ 0 ∷ []))
        (omega (arith, length-append p.current (s ++ 0 ∷ []), length-append s (0 ∷ []))) in
    rw (e, whole, drop-append p.current (s ++ 0 ∷ []))
      (HasNul-terminated s h, c_string-terminated s h)

-- What a call of `intern` for `s` on `p` comes to: NULL and the pool as it was where a further
-- block is refused, and else a pointer that reads as `s`, while all earlier ones read as before.
abbrev pub Interns : Bool → Pool → Bytes → Option Pointer × Pool → Type 0
Interns granted p s (none, r) = (granted ≡ false) × (r ≡ p)
Interns granted p s (some q, r) = (Interned r q × (deref r q ≡ s)) × Keeps p r

-- A string without a terminator inside it that fits a block with its own is interned under a pointer
-- that reads back as the string, and every pointer handed out before still reads as it did; NULL is
-- returned, with the pool unchanged, only where the allocation of a further block is refused.
pub intern-Interns :
    (granted : Bool) (p : Pool) (s : Bytes)
    → NoNul s
    → length s < block_size
    → Interns granted p s (intern granted p (some s))
unfolding intern
intern-Interns granted p s h short =
    elim (Bool-cases (ltb block_size (length p.current + (length s + 1)))) [
      | inr room ↦ rw room (store-deref p s h (ground arith), store-Keeps p s)
      | inl full ↦ rw full (further granted)
    ]
  where
    further :
        (g : Bool)
        → Interns g p s
            (if g then (let (q, r) = store (next_block p) s in (some q, r)) else (none, p))
    further false = (refl, refl)
    further true = (
      store-deref (next_block p) s h (omega arith),
      λ q k.
          let a = next_block-Keeps p q k in
          let b = store-Keeps (next_block p) s q a.0 in (b.0, b.1 ∙ a.1),
    )

-- A string that with its terminator fits a block never makes a block overflow.
pub intern-IsValid :
    (granted : Bool) (p : Pool) (s : Bytes)
    → length s < block_size
    → IsValid p
    → IsValid (intern granted p (some s)).1
unfolding intern
intern-IsValid granted p s h v =
    ground (arith, length-append p.current (s ++ 0 ∷ []), length-append s (0 ∷ []))

-- In a pool in which no block has been overrun, a string without a terminator inside it that fits a
-- block with its own is interned under a pointer that reads back as the string, every pointer
-- handed out before still reads as it did, and no block is overrun; NULL is returned, with the pool
-- unchanged, only where the allocation of a further block is refused.
pub intern-Stored :
    (granted : Bool) (p : Pool) (s : Bytes)
    → NoNul s
    → length s < block_size
    → IsValid p
    → Interns granted p s (intern granted p (some s)) × IsValid (intern granted p (some s)).1
intern-Stored granted p s no_nul short v =
    (intern-Interns granted p s no_nul short, intern-IsValid granted p s short v)

-- A string that with its terminator does not fit a block is copied past the end of one.
pub intern_overflow :
    (p : Pool) (s : Bytes) → block_size ≤ length s → ¬ IsValid (intern true p (some s)).1
unfolding intern
intern_overflow p s h v =
    let e : ltb block_size (length p.current + (length s + 1)) ≡ true = lt→ltb _ _ (omega arith) in
    let v' = rw e at v in omega (arith, length-append s (0 ∷ []))
