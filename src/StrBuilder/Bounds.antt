-- ===== src/StrBuilder/Bounds.antt =====
-- No append writes past the capacity of the builder, whatever is appended.
use php_spx.Prelude.{
  ℕ, zero, suc, ◌+◌, ◌/◌, ◌%◌, ◌≤◌, ◌≡◌, refl, Bool, true, false, ◌&&◌, Option, none, some, [], ◌∷◌,
  ◌++◌, if◌then◌else◌, ltb, leb, ◌==◌, length, length-append, arith,
}
use php_spx.Prelude.Bytes.{Bytes}
use php_spx.Prelude.Int.{ℤ, pos, negsuc}
use php_spx.StrBuilder.{
  StrBuilder, size, remaining, Appended, added_or, append_char, put, then_text, digits, signed,
  is_zero, point, is_nil, decimals, append_long, append_double, append_str, str_from,
}
use php_spx.StrBuilder.Digits.{Outcome, put-Outcome, then-Outcome}

-- A text for which there is room.
abbrev InRoom : ℕ → Option Bytes → Type 0
InRoom room o = Outcome (λ t. length t ≤ room) o

put-InRoom : (room c : ℕ) (text : Bytes) → InRoom room (put room c text)
put-InRoom room c text = put-Outcome room c text (λ t. length t ≤ room) (λ h. omega arith)

then-InRoom :
    (room : ℕ) (o : Option Bytes) (f : Bytes → Option Bytes)
    → InRoom room o
    → ((t : Bytes) → length t ≤ room → InRoom room (f t))
    → InRoom room (then_text o f)
then-InRoom room o f h k = then-Outcome o f (λ t. length t ≤ room) (λ t. length t ≤ room) h k

digits-InRoom :
    (fuel room v : ℕ) (text : Bytes) → length text ≤ room → InRoom room (digits fuel room v text)
digits-InRoom zero room v text fits = fits
digits-InRoom (suc fuel) room v text fits = either (v == 0) (digits-InRoom fuel room (v / 10))
  where
    either :
        (b : Bool)
        → ((t : Bytes) → length t ≤ room → InRoom room (digits fuel room (v / 10) t))
        → InRoom room (
            if b
            then some text
            else then_text (put room (v % 10 + 48) text) (λ t. digits fuel room (v / 10) t))
    either true rest = fits
    either false rest =
        then-InRoom room (put room (v % 10 + 48) text) _ (put-InRoom room (v % 10 + 48) text) rest

point-InRoom :
    (room : ℕ) (b : Bool) (text : Bytes) → length text ≤ room → InRoom room (point room b text)
point-InRoom room true text fits = put-InRoom room 46 text
point-InRoom room false text fits = fits

decimals-InRoom :
    (fuel room nb_dec n v : ℕ) (text : Bytes)
    → length text ≤ room
    → InRoom room (decimals fuel room nb_dec n v text)
decimals-InRoom zero room nb_dec n v text fits = fits
decimals-InRoom (suc fuel) room nb_dec n v text fits =
    either (v == 0) (ltb room (length text + 1)) refl
      (v % 10 == 0 && is_nil text && leb (suc n) nb_dec)
      (decimals-InRoom fuel room nb_dec (suc n) (v / 10))
  where
    either :
        (done full : Bool)
        → ltb room (length text + 1) ≡ full
        → (drop : Bool)
        → ((t : Bytes)
            → length t ≤ room
            → InRoom room (decimals fuel room nb_dec (suc n) (v / 10) t))
        → InRoom room (
            if done
            then some text
            else (if full
                then none
                else (if drop
                    then decimals fuel room nb_dec (suc n) (v / 10) text
                    else then_text
                        (point room (suc n == nb_dec) ((v % 10 + 48) ∷ text))
                        (λ t. decimals fuel room nb_dec (suc n) (v / 10) t))))
    either true full e drop rest = fits
    either false true e drop rest = _
    either false false e true rest = rest text fits
    either false false e false rest =
        then-InRoom room (point room (suc n == nb_dec) ((v % 10 + 48) ∷ text)) _
          (point-InRoom room (suc n == nb_dec) ((v % 10 + 48) ∷ text) (ground arith)) rest

signed-InRoom :
    (room : ℕ) (magnitude : ℕ → Option Bytes) (l : ℤ)
    → ((v : ℕ) → InRoom room (magnitude v))
    → InRoom room (signed room magnitude l)
signed-InRoom room magnitude (pos n) h = h n
signed-InRoom room magnitude (negsuc n) h =
    then-InRoom room (magnitude (suc n)) _ (h (suc n)) (λ t fits. put-InRoom room 45 t)

-- The builder that an append answers holds no more than its capacity, which is as before.
abbrev pub Inside : StrBuilder → StrBuilder → Type 0
Inside s r = (size r ≤ r.capacity) × (r.capacity ≡ s.capacity)

module _ (s : StrBuilder) (inside : size s ≤ s.capacity) where
  added_or-Inside : (o : Option Bytes) → InRoom (remaining s) o → Inside s (added_or s o).1
  added_or-Inside none h = (inside, refl)
  added_or-Inside (some t) h = (omega (arith, length-append s.buffer t), refl)

  pub append_char-Inside : (c : ℕ) → Inside s (append_char s c).1
  append_char-Inside c = ground (arith, length-append s.buffer (c ∷ []))

  either-Inside :
      (full is_zero : Bool) (o : Option Bytes)
      → InRoom (remaining s) o
      → Inside s
          (if full
            then (let r : Appended = (0, s) in r)
            else (if is_zero then append_char s 48 else added_or s o)).1
  either-Inside true is_zero o h = (inside, refl)
  either-Inside false true o h = append_char-Inside 48
  either-Inside false false o h = added_or-Inside o h

  pub append_long-Inside : (l : ℤ) → Inside s (append_long s l).1
  append_long-Inside l =
      either-Inside (remaining s == 0) (is_zero l) _
        (signed-InRoom (remaining s) _ l (λ v. digits-InRoom v (remaining s) v [] (omega arith)))

  pub append_double-Inside :
      (d_is_zero : Bool) (scaled : ℤ) (nb_dec : ℕ)
      → Inside s (append_double s d_is_zero scaled nb_dec).1
  append_double-Inside d_is_zero scaled nb_dec = either-Inside (remaining s == 0) d_is_zero _ (
      signed-InRoom (remaining s) _ scaled
        (λ v. decimals-InRoom v (remaining s) nb_dec 0 v [] (omega arith)))

str_from-Inside :
    (c : ℕ) (s : StrBuilder) (str : Bytes) → size s ≤ s.capacity → Inside s (str_from c s str).1
str_from-Inside c s [] inside = (inside, refl)
str_from-Inside c s (x ∷ str) inside = ground (
  arith,
  str_from-Inside (suc c) (record s { buffer = s.buffer ++ (x ∷ []) }) str,
  length-append s.buffer (x ∷ []),
)

pub append_str-Inside :
    (s : StrBuilder) (str : Bytes) → size s ≤ s.capacity → Inside s (append_str s str).1
append_str-Inside s str inside = str_from-Inside 0 s str inside
