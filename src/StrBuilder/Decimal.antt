-- ===== src/StrBuilder/Decimal.antt =====
-- The text of a number in the builder, read back.
use php_spx.Prelude.{
  ℕ, suc, ◌+◌, ◌≤◌, ◌<◌, ◌≡◌, ◌≢◌, refl, sym, ap, subst, ◌∙◌, ◌⊎◌, inl, inr, Bool, true, false,
  Option, none, some, [], ◌∷◌, ◌++◌, if◌then◌else◌, if_false, ◌==◌, ==_iff, length, length-append,
  arith,
}
use php_spx.Prelude.Bytes.{Bytes}
use php_spx.Prelude.Int.{ℤ, pos, negsuc}
use php_spx.StrBuilder.{
  StrBuilder, remaining, size, added, added_or, append_char, put, then_text, digits, signed,
  is_zero, append_long,
}
use php_spx.StrBuilder.Digits.{
  Digits, Holds, Outcome, Outcome-map, Short, digits-Holds, digits-Short, negated, put-Outcome,
  put-some, read_from, read_long, ten, then-Outcome,
}

-- The builder holds a text for l after what it held before, within its capacity.
abbrev pub Written : StrBuilder → ℤ → ℕ × StrBuilder → Type 0
Written s l r =
    (t : Bytes) × (r.1.buffer ≡ s.buffer ++ t)
    × (r.0 ≡ length t)
    × (read_long t ≡ l)
    × (r.1.capacity ≡ s.capacity)
    × (size r.1 ≤ r.1.capacity)

abbrev Text : ℕ → ℤ → Bytes → Type 0
Text room l t = (read_long t ≡ l) × (length t ≤ room)

-- A text of digits has no sign.
read_long-Digits : (n : ℕ) (t : Bytes) → Digits t → read_from 0 t ≡ n → read_long t ≡ pos n
read_long-Digits n [] ds e = ap pos e
read_long-Digits n (c ∷ t) (p, q, ds) e =
    if_false (c == 45) (negated (read_from 0 t)) (pos (read_from 0 (c ∷ t))) (ground arith)
    ∙ ap pos e

signed-Text : (room : ℕ) (l : ℤ) → Outcome (Text room l) (signed room (λ v. digits v room v []) l)
signed-Text room (pos n) =
    Outcome-map (digits n room n [])
      (λ t (value, ds, fit, len). (read_long-Digits n t ds value, fit))
      (digits-Holds n room n [] (omega arith) _ (omega arith))
signed-Text room (negsuc n) =
    then-Outcome (digits (suc n) room (suc n) []) (λ t. put room 45 t) (Holds room (suc n) [])
      (Text room (negsuc n)) (digits-Holds (suc n) room (suc n) [] (omega arith) _ (omega arith))
      (λ t (value, ds, fit, len).
        put-Outcome room 45 t (Text room (negsuc n)) (λ h. (ap negated value, omega arith)))

abbrev pub magnitude : ℤ → ℕ
magnitude (pos n) = n
magnitude (negsuc n) = suc n

signed-Short :
    (k room : ℕ) (l : ℤ)
    → magnitude l < ten k
    → suc k ≤ room
    → Short (suc k) (signed room (λ v. digits v room v []) l)
signed-Short k room (pos n) lt fits =
    wider (digits n room n []) (digits-Short k n room n [] lt (omega arith))
  where
    wider : (o : Option Bytes) → Short (0 + k) o → Short (suc k) o
    wider none h = h
    wider (some t) h = omega arith
signed-Short k room (negsuc n) lt fits =
    minus (digits (suc n) room (suc n) []) (digits-Short k (suc n) room (suc n) [] lt (omega arith))
  where
    minus : (o : Option Bytes) → Short (0 + k) o → Short (suc k) (then_text o (λ t. put room 45 t))
    minus none h = h
    minus (some t) h = subst (Short (suc k)) (sym (put-some room 45 t (omega arith))) (omega arith)

module _ (s : StrBuilder) (inside : size s ≤ s.capacity) where
  added-Written :
      (l : ℤ) (o : Option Bytes)
      → Outcome (Text (remaining s) l) o
      → (added_or s o ≡ (0, s)) ⊎ Written s l (added_or s o)
  added-Written l none h = inl refl
  added-Written l (some t) (value, fit) =
      inr (t, refl, refl, value, refl, omega (arith, length-append s.buffer t))

  zero-Written : (l : ℤ) → is_zero l ≡ true → remaining s ≢ 0 → Written s l (append_char s 48)
  zero-Written l e room =
      subst (Written s l)
        (sym (if_false (remaining s == 0) (0, s) (added s (48 ∷ [])) (ground arith)))
        (48 ∷ [], refl, refl, zero_of l e, refl, omega (arith, length-append s.buffer (48 ∷ [])))
    where
      zero_of : (l : ℤ) → is_zero l ≡ true → pos 0 ≡ l
      zero_of (pos n) e = ap pos (sym ((==_iff n 0).0 e))
      zero_of (negsuc n) e = cc

  -- A number is written in full, and reads back as itself, or the builder stays as it was.
  pub append_long-Written : (l : ℤ) → (append_long s l ≡ (0, s)) ⊎ Written s l (append_long s l)
  append_long-Written l = either (remaining s == 0) refl (is_zero l) refl
    where
      some_room : (remaining s == 0) ≡ false → remaining s ≢ 0
      some_room e = ground arith

      either :
          (b : Bool)
          → (remaining s == 0) ≡ b
          → (z : Bool) → is_zero l ≡ z
          → (let r =
                if b
                then (0, s)
                else (if z
                    then append_char s 48
                    else added_or s (signed (remaining s) (λ v. digits v (remaining s) v []) l)) in
              (r ≡ (0, s)) ⊎ Written s l r)
      either true e z ez = inl refl
      either false e true ez = inr (zero-Written l ez (some_room e))
      either false e false ez = added-Written l _ (signed-Text (remaining s) l)

  -- A number of at most k digits is written in full where there is room for its digits and a sign.
  pub append_long-fits :
      (k : ℕ) (l : ℤ) → magnitude l < ten k → suc k ≤ remaining s → Written s l (append_long s l)
  append_long-fits k l lt room = either (remaining s == 0) refl (is_zero l) refl
    where
      some_room : remaining s ≢ 0
      some_room e = omega arith

      written :
          (o : Option Bytes)
          → Outcome (Text (remaining s) l) o
          → Short (suc k) o
          → Written s l (added_or s o)
      written none h short = absurd short
      written (some t) (value, fit) short =
          (t, refl, refl, value, refl, omega (arith, length-append s.buffer t))

      either :
          (b : Bool)
          → (remaining s == 0) ≡ b
          → (z : Bool) → is_zero l ≡ z
          → Written s l (
              if b
              then (0, s)
              else (if z
                  then append_char s 48
                  else added_or s (signed (remaining s) (λ v. digits v (remaining s) v []) l)))
      either true e z ez = absurd (some_room ((==_iff (remaining s) 0).0 e))
      either false e true ez = zero-Written l ez some_room
      either false e false ez =
          written (signed (remaining s) (λ v. digits v (remaining s) v []) l)
            (signed-Text (remaining s) l) (signed-Short k (remaining s) l lt room)
