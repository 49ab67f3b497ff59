-- ===== src/SafeStrings/Json.antt =====
-- The sanitized JSON text of `spx_string_sanitize_json`.
use php_spx.Prelude.{
  ℕ, zero, suc, ◌+◌, ◌-◌, ◌*◌, ◌^◌, ◌≤◌, ◌<◌, ◌≡◌, refl, sym, ap, ◌∙◌, Bool, true, false, some, [],
  ◌∷◌, ◌||◌, if◌then◌else◌, ltb, length, arith, ◌==◌, not, if_true,
}
use php_spx.Prelude.Bytes.{Bytes}
use php_spx.JsonEscape.{escaped_char}
use php_spx.JsonEscape.RoundTrip.{
  escaped_text, unescape, unescape-escaped_text, is_sayable, Sayable,
}
use php_spx.SafeStrings.{sanitized_char, sanitize_from, less_two, sanitize_json}

-- What JSON cannot say without \u is dropped.
abbrev pub keep : Bytes → Bytes
keep [] = []
keep (c ∷ src) = let rest = keep src in if is_sayable c then c ∷ rest else rest

keep-Sayable : (src : Bytes) → Sayable (keep src)
keep-Sayable [] = _
keep-Sayable (c ∷ src) = either (is_sayable c) refl (keep-Sayable src)
  where
    either :
        (b : Bool)
        → is_sayable c ≡ b
        → Sayable (keep src)
        → Sayable (if b then c ∷ keep src else keep src)
    either true e h = (e, h)
    either false e h = h

is_sayable-sanitized_char : (c : ℕ) → is_sayable c ≡ (not (sanitized_char c == 0) || not (ltb c 32))
unfolding is_sayable sanitized_char
is_sayable-sanitized_char c = ground arith

sanitized_char-escaped_char : (c : ℕ) → sanitized_char c ≡ escaped_char c
unfolding sanitized_char escaped_char
sanitized_char-escaped_char c = ground arith

-- The loop stays below the limit and one byte more.
length-sanitize_from :
    (limit i : ℕ) (src : Bytes) → i ≤ limit + 1 → i + length (sanitize_from limit i src) ≤ limit + 1
unfolding sanitize_from
length-sanitize_from limit i [] h = omega arith
length-sanitize_from limit i (c ∷ src) h = ground (
  arith,
  length-sanitize_from limit (i + 2) src,
  length-sanitize_from limit i src,
  length-sanitize_from limit (i + 1) src,
)

-- With a limit that is not reached, what is written is the escaped text of the bytes kept.
sanitize_from-escaped :
    (limit i : ℕ) (src : Bytes)
    → i + 2 * length src ≤ limit
    → sanitize_from limit i src ≡ escaped_text (keep src)
unfolding sanitize_from escaped_text
sanitize_from-escaped limit i [] h = refl
sanitize_from-escaped limit i (c ∷ src) h =
    if_true (ltb i limit) _ [] (ground arith)
    ∙ either (sanitized_char c) (ltb c 32) (sanitized_char-escaped_char c)
        (sanitize_from-escaped limit (i + 2) src (omega arith))
        (sanitize_from-escaped limit i src (omega arith))
        (sanitize_from-escaped limit (i + 1) src (omega arith))
    ∙ ap (λ b. escaped_text (if b then c ∷ keep src else keep src))
        (sym (is_sayable-sanitized_char c))
  where
    either :
        (e : ℕ) (control : Bool)
        → e ≡ escaped_char c
        → sanitize_from limit (i + 2) src ≡ escaped_text (keep src)
        → sanitize_from limit i src ≡ escaped_text (keep src)
        → sanitize_from limit (i + 1) src ≡ escaped_text (keep src)
        → (if e == 0
            then (if control
                then sanitize_from limit i src
                else c ∷ sanitize_from limit (i + 1) src)
            else 92 ∷ e ∷ sanitize_from limit (i + 2) src)
          ≡ escaped_text (if not (e == 0) || not control then c ∷ keep src else keep src)
    either zero true h two same one = same
    either zero false h two same one = rw (← h) (ap (◌∷◌ c) one)
    either (suc e) control h two same one = ground arith

-- With a destination of 2 bytes at least, what is written and its NUL fit in it.
pub sanitize_json-fits :
    (n : ℕ) (src : Bytes)
    → 2 ≤ n
    → n < 2 ^ 64
    → (t : Bytes) × (sanitize_json n (some src) ≡ some t) × (length t + 1 ≤ n)
unfolding sanitize_json
sanitize_json-fits zero src low high = absurd (omega arith)
sanitize_json-fits (suc n) src low high = (
  sanitize_from (less_two (suc n)) 0 src,
  refl,
  omega (arith, length-sanitize_from (less_two (suc n)) 0 src (omega arith)),
)

-- Where the destination has room for every byte escaped, what is written is the inside of a JSON
-- string that reads as the source without its control characters but \b, \t, \n, \f and \r.
pub sanitize_json-reads :
    (n : ℕ) (src : Bytes)
    → 2 * length src + 2 ≤ n
    → n < 2 ^ 64
    → (t : Bytes) × (sanitize_json n (some src) ≡ some t) × (unescape t ≡ some (keep src))
unfolding sanitize_json
sanitize_json-reads zero src low high = absurd (omega arith)
sanitize_json-reads (suc n) src low high = (
  sanitize_from (less_two (suc n)) 0 src,
  refl,
  ap unescape (sanitize_from-escaped (less_two (suc n)) 0 src (omega arith))
      ∙ unescape-escaped_text (keep src) (keep-Sayable src),
)

-- With a destination of 1 byte, dst_size - 2 wraps: whatever is to be written is written past it.
pub sanitize_json-overruns :
    (src : Bytes)
    → 2 * length src < 2 ^ 64 - 1
    → sanitize_json 1 (some src) ≡ some (escaped_text (keep src))
unfolding sanitize_json
sanitize_json-overruns src small = ap some (sanitize_from-escaped (less_two 1) 0 src (omega arith))
