-- ===== src/FullReporter/Numbers.antt =====
-- The text of a number in the builder where there is room for it: `append_long`, and
-- `append_double` on whole numbers, of src/spx_str_builder.c.
use php_spx.Prelude.{
  ◌^◌, ℕ, zero, suc, ◌+◌, ◌-◌, ◌*◌, ◌/◌, ◌%◌, ◌≤◌, ◌<◌, ◌≡◌, ◌≢◌, refl, sym, ap, subst, ◌∙◌, some,
  [], ◌∷◌, ◌++◌, if_true, ◌==◌, length, arith,
}
use php_spx.Prelude.Bytes.{Bytes, decimal_from, decimal}
use php_spx.Prelude.Int.{ℤ, pos}
use php_spx.StrBuilder.{StrBuilder, size, remaining, digits, decimals}
use php_spx.FullReporter.{IsExact, append_value, append_number}

length-decimal_from : (fuel v : ℕ) (text : Bytes) → length text ≤ length (decimal_from fuel v text)
length-decimal_from zero v text = omega arith
length-decimal_from (suc fuel) v text =
    ground (arith, length-decimal_from fuel (v / 10) ((v % 10 + 48) ∷ text))

digits-decimal :
    (fuel room v : ℕ) (text : Bytes)
    → length (decimal_from fuel v text) ≤ room
    → digits fuel room v text ≡ some (decimal_from fuel v text)
digits-decimal zero room v text fits = refl
digits-decimal (suc fuel) room v text fits = ground (
  arith,
  digits-decimal fuel room (v / 10) ((v % 10 + 48) ∷ text),
  length-decimal_from fuel (v / 10) ((v % 10 + 48) ∷ text),
)

-- After the zeros of the decimals, which are dropped, the digits come as for a whole number.
decimals-decimal :
    (fuel room n v : ℕ) (text : Bytes)
    → 4 ≤ n
    → length (decimal_from fuel v text) ≤ room
    → decimals fuel room 4 n v text ≡ some (decimal_from fuel v text)
decimals-decimal zero room n v text later fits = refl
decimals-decimal (suc fuel) room n v text later fits = ground (
  arith,
  decimals-decimal fuel room (suc n) (v / 10) ((v % 10 + 48) ∷ text),
  length-decimal_from fuel (v / 10) ((v % 10 + 48) ∷ text),
)

-- More fuel than the number changes nothing.
pub decimal_from-fuel :
    (f g v : ℕ) (text : Bytes) → v ≤ f → v ≤ g → decimal_from f v text ≡ decimal_from g v text
decimal_from-fuel zero zero v text p q = refl
decimal_from-fuel zero (suc g) v text p q = sym (if_true (v == 0) text _ (ground arith))
decimal_from-fuel (suc f) zero v text p q = if_true (v == 0) text _ (ground arith)
decimal_from-fuel (suc f) (suc g) v text p q = ground (
  arith,
  λ (h : v ≢ 0). decimal_from-fuel f g (v / 10) ((v % 10 + 48) ∷ text) (omega arith) (omega arith),
)

-- A decimal that is 0 is dropped.
dropped :
    (fuel room n v w : ℕ)
    → w ≡ v * 10
    → v ≢ 0
    → 1 ≤ room
    → n < 4
    → decimals (suc fuel) room 4 n w [] ≡ decimals fuel room 4 (suc n) v []
dropped fuel room n v w e positive room_left early =
    let same : w / 10 ≡ v = omega arith in ground arith

-- The four decimals of a whole number are dropped.
decimals-whole :
    (room n : ℕ)
    → n ≢ 0
    → 1 ≤ room
    → length (decimal_from n n []) ≤ room
    → decimals (n * 10000) room 4 0 (n * 10000) [] ≡ some (decimal_from n n [])
decimals-whole room n positive room_left fits =
    ap (λ f. decimals f room 4 0 (n * 10000) []) fuel
    ∙ dropped (suc (suc (suc (n * 10000 - 4)))) room 0 (n * 1000) (n * 10000) (omega arith)
        (omega arith) room_left (omega arith)
    ∙ dropped (suc (suc (n * 10000 - 4))) room 1 (n * 100) (n * 1000) (omega arith) (omega arith)
        room_left (omega arith)
    ∙ dropped (suc (n * 10000 - 4)) room 2 (n * 10) (n * 100) (omega arith) (omega arith) room_left
        (omega arith)
    ∙ dropped (n * 10000 - 4) room 3 n (n * 10) (omega arith) positive room_left (omega arith)
    ∙ decimals-decimal (n * 10000 - 4) room 4 n [] (omega arith)
        (subst (λ t. length t ≤ room) enough fits)
    ∙ ap some (sym enough)
  where
    fuel : n * 10000 ≡ suc (suc (suc (suc (n * 10000 - 4))))
    fuel = omega arith

    enough : decimal_from n n [] ≡ decimal_from (n * 10000 - 4) n []
    enough = decimal_from-fuel n (n * 10000 - 4) n [] (omega arith) (omega arith)

-- The builder with a text after what it holds.
abbrev pub grown : StrBuilder → Bytes → StrBuilder
grown s t = record s { buffer = s.buffer ++ t }

-- A step adds a text wherever a byte more than the text fits.
abbrev pub Adds : (StrBuilder → StrBuilder) → Bytes → Type 0
Adds f t = (s : StrBuilder) → size s + length t < s.capacity → f s ≡ grown s t

pub append_number-Adds : (n : ℕ) → Adds (append_number n) (decimal n)
unfolding append_number decimal
append_number-Adds zero s fits = ground arith
append_number-Adds (suc n) s fits = ground (arith, digits-decimal (suc n) (remaining s) (suc n) [])

-- A value that is a natural number is printed without decimals, where the product is exact.
pub append_value-Adds :
    (scaled : ℤ → ℤ)
    → IsExact scaled
    → (n : ℕ) → n * 10000 < 2 ^ 52
    → Adds (append_value scaled (pos n)) (decimal n)
unfolding append_value decimal
append_value-Adds scaled exact zero small s fits = ground arith
append_value-Adds scaled exact (suc n) small s fits =
    ground (arith, exact (suc n) small, decimals-whole (remaining s) (suc n))
