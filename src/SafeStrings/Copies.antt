-- ===== src/SafeStrings/Copies.antt =====
-- What the copies hold, and how long they are.
use php_spx.Prelude.{
  ℕ, zero, suc, ◌+◌, ◌-◌, ◌≤◌, ◌<◌, ◌≡◌, refl, ap, subst, ◌∙◌, Bool, true, false, Option, none,
  some, List, [], ◌∷◌, ◌++◌, if◌then◌else◌, ltb, length, take, length-take, length-append, arith,
  ◌==◌,
}
use php_spx.Prelude.Bytes.{Bytes}
use php_spx.Alloc.{buffer_overflow}
use php_spx.SafeStrings.{
  Outcome, copy_from, truncated, copy_safe, text_in, in_front, joined, concat_safe,
}

-- The loop takes what fits.
copy_from-take : (limit i : ℕ) (src : Bytes) → copy_from limit i src ≡ take (limit - i) src
copy_from-take limit i [] = either (limit - i)
  where
    either : (n : ℕ) → ◌≡◌ {A = Bytes} [] (take n [])
    either zero = refl
    either (suc n) = refl
copy_from-take limit i (c ∷ src) = either (limit - i) refl (copy_from-take limit (suc i) src)
  where
    either :
        (n : ℕ)
        → limit - i ≡ n
        → copy_from limit (suc i) src ≡ take (limit - suc i) src
        → (if ltb i limit then c ∷ copy_from limit (suc i) src else []) ≡ take n (c ∷ src)
    either zero e ih = ground arith
    either (suc n) e ih = let e' : limit - suc i ≡ n = omega arith in ground arith

-- A string with its NUL fits in n bytes.
abbrev pub FitsIn : ℕ → Bytes → Type 0
FitsIn n t = length t + 1 ≤ n

-- What is copied of a source after an old text: as much as fits, all of it unless an error is set.
abbrev pub Joins : ℕ → Bytes → Bytes → Outcome → Type 0
Joins n old src r =
    (r.text ≡ some (old ++ take (n - 1 - length old) src))
    × FitsIn n (old ++ take (n - 1 - length old) src)
    × (r.count ≡ length (old ++ take (n - 1 - length old) src))
    × (r.error ≡ (if ltb (length old + length src) n then none else some buffer_overflow))

some_of : {s t : Bytes} → some s ≡ some t → s ≡ t
some_of h = cc

joined-Joins :
    (n : ℕ) (old src : Bytes) → FitsIn (suc n) old → Joins (suc n) old src (joined n (some old) src)
joined-Joins n old src fits = (
  rw same refl,
  omega (arith, length-append old part, length-take room src),
  omega (arith, length-append old part, ap length same),
  error,
)
  where
    room : ℕ
    room = suc n - 1 - length old

    part : Bytes
    part = take room src

    same : copy_from n (length old) src ≡ part
    same =
        let e : n - length old ≡ suc n - 1 - length old = omega arith in
        copy_from-take n (length old) src ∙ ap (λ k. take k src) e

    error :
        truncated (copy_from n (length old) src) src
        ≡ (if ltb (length old + length src) (suc n) then none else some buffer_overflow)
    error = rw same (ground (arith, length-take (suc n - 1 - length old) src))

-- With a destination of n bytes, n not 0, a string is copied up to n - 1 bytes.
pub copy_safe-Joins : (n : ℕ) (src : Bytes) → 0 < n → Joins n [] src (copy_safe n (some src))
unfolding copy_safe
copy_safe-Joins zero src positive = absurd (omega arith)
copy_safe-Joins (suc n) src positive =
    let (text, fits, count, error) = joined-Joins n [] src (omega arith) in
    (text, fits, omega (arith, count), copied)
  where
    copied :
        truncated (copy_from n 0 src) src
        ≡ (if ltb (0 + length src) (suc n) then none else some buffer_overflow)
    copied = (joined-Joins n [] src (omega arith)).3

text_in-fits : (cells : List ℕ) (old : Bytes) → text_in cells ≡ some old → FitsIn (length cells) old
text_in-fits [] old h = cc
text_in-fits (c ∷ cells) old h =
    either (c == 0) (text_in cells) refl h (λ t e. text_in-fits cells t e)
  where
    either :
        (b : Bool) (o : Option Bytes)
        → text_in cells ≡ o
        → (if b then some [] else in_front c o) ≡ some old
        → ((t : Bytes) → text_in cells ≡ some t → FitsIn (length cells) t)
        → FitsIn (suc (length cells)) old
    either true o e h rest =
        let same : [] ≡ old = some_of h in subst (FitsIn (suc (length cells))) same (omega arith)
    either false none e h rest = cc
    either false (some t) e h rest =
        let same : c ∷ t ≡ old = some_of h in
        subst (FitsIn (suc (length cells))) same (omega (arith, rest t e))

-- With a destination that holds a string, n cells in all, a source is appended up to n - 1 bytes, with
-- an error just where it is cut.
pub concat_safe-Joins :
    (cells : List ℕ) (old src : Bytes)
    → text_in cells ≡ some old
    → Joins (length cells) old src (concat_safe cells (some src))
unfolding concat_safe
concat_safe-Joins [] old src h = cc
concat_safe-Joins (c ∷ cells) old src h =
    rw h (joined-Joins (length cells) old src (text_in-fits (c ∷ cells) old h))
