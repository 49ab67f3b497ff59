-- ===== src/JsonEscape/RoundTrip.antt =====
-- `spx_utils_json_escape` (src/spx_utils.c) against JSON's own reading of escapes.
use php_spx.Prelude.{
  ◌||◌, Option, ℕ, suc, ◌+◌, ◌≡◌, ◌≢◌, refl, sym, ap, ◌∙◌, Bool, true, false, [], ◌∷◌, none, some,
  arith, if◌then◌else◌, ◌==◌, ltb, leb, Bool-cases, inl, inr, if_true, if_false, length,
}
use php_spx.Prelude.Bytes.{Bytes}
use php_spx.FuncTable.{Run, ◌>>=◌}
use php_spx.JsonEscape.{escaped_char, escape_from, json_escape}

-- The escaped text, whatever its length.
unfoldable pub escaped_text : Bytes → Bytes
escaped_text [] = []
escaped_text (c ∷ cs) =
    let rest = escaped_text cs in
    if escaped_char c == 0 then c ∷ rest else 92 ∷ escaped_char c ∷ rest

-- The byte that JSON reads after a backslash, but for \u; none where it allows no such escape.
unfoldable pub meant : ℕ → Option ℕ
meant e =
    if e == 34
    then some 34
    else if e == 92
    then some 92
    else if e == 47
    then some 47
    else if e == 98
    then some 8
    else if e == 102
    then some 12
    else if e == 110
    then some 10
    else if e == 114
    then some 13
    else if e == 116
    then some 9
    else none

-- A byte that JSON allows to stand for itself: no control character and no quote.
unfoldable pub plain : ℕ → Option ℕ
plain c = if ltb c 32 then none else (if c == 34 then none else some c)

abbrev pub before : Option ℕ → Option Bytes → Option Bytes
before none o = none
before (some c) none = none
before (some c) (some t) = some (c ∷ t)

-- JSON's reading of a string without the quotes around it, none where it is no JSON.
unfoldable pub unescape : Bytes → Option Bytes
unescape [] = some []
unescape (c ∷ []) = if c == 92 then none else before (plain c) (some [])
unescape (c ∷ d ∷ rest) =
    let after_one = unescape (d ∷ rest) in
    let after_two = unescape rest in
    if c == 92 then before (meant d) after_two else before (plain c) after_one

-- A byte that JSON can say without \u: one from 32 on, or \b, \t, \n, \f and \r.
unfoldable pub is_sayable : ℕ → Bool
is_sayable c = leb 32 c || c == 8 || c == 9 || c == 10 || c == 12 || c == 13

abbrev pub Sayable : Bytes → Type 0
Sayable [] = Unit {0}
Sayable (c ∷ t) = (is_sayable c ≡ true) × Sayable t

-- A text where it fits below the limit.
abbrev pub within : ℕ → ℕ → Bytes → Run Bytes
within limit n r = if ltb n limit then some r else none

none_by : (b : Bool) {o : Run Bytes} → o ≡ none → (if b then none else o) ≡ none
none_by true h = refl
none_by false h = h

one_byte :
    (limit i n c : ℕ) (r : Bytes)
    → (if leb limit i then none else (within limit (i + 1 + n) r >>= λ s. some (c ∷ s)))
      ≡ within limit (i + suc n) (c ∷ r)
one_byte limit i n c r = elim (Bool-cases (ltb (i + 1 + n) limit)) [
  | inl fits ↦
      if_false (leb limit i) _ _ (ground arith)
      ∙ ap (λ o. o >>= λ s. some (c ∷ s)) (if_true (ltb (i + 1 + n) limit) _ _ fits)
      ∙ sym (if_true (ltb (i + suc n) limit) _ _ (ground arith))
  | inr over ↦
      none_by (leb limit i)
        (ap (λ o. o >>= λ s. some (c ∷ s)) (if_false (ltb (i + 1 + n) limit) _ _ over))
      ∙ sym (if_false (ltb (i + suc n) limit) _ _ (ground arith))
]

two_bytes :
    (limit i n c d : ℕ) (r : Bytes)
    → (if leb limit i
        then none
        else if leb limit (i + 1)
        then none
        else (within limit (i + 2 + n) r >>= λ s. some (c ∷ d ∷ s)))
      ≡ within limit (i + suc (suc n)) (c ∷ d ∷ r)
two_bytes limit i n c d r = elim (Bool-cases (ltb (i + 2 + n) limit)) [
  | inl fits ↦
      if_false (leb limit i) _ _ (ground arith)
      ∙ if_false (leb limit (i + 1)) _ _ (ground arith)
      ∙ ap (λ o. o >>= λ s. some (c ∷ d ∷ s)) (if_true (ltb (i + 2 + n) limit) _ _ fits)
      ∙ sym (if_true (ltb (i + suc (suc n)) limit) _ _ (ground arith))
  | inr over ↦
      none_by (leb limit i) (
        none_by (leb limit (i + 1))
          (ap (λ o. o >>= λ s. some (c ∷ d ∷ s)) (if_false (ltb (i + 2 + n) limit) _ _ over)))
      ∙ sym (if_false (ltb (i + suc (suc n)) limit) _ _ (ground arith))
]

one_step :
    (limit i c d : ℕ) (plain : Bool) (rest : Run Bytes) (t : Bytes)
    → rest ≡ within limit ((if plain then i + 1 else i + 2) + length t) t
    → (if leb limit i
        then none
        else if plain
        then (rest >>= λ r. some (c ∷ r))
        else if leb limit (i + 1)
        then none
        else (rest >>= λ r. some (92 ∷ d ∷ r)))
      ≡ within limit
          (i + length (if plain then c ∷ t else 92 ∷ d ∷ t))
          (if plain then c ∷ t else 92 ∷ d ∷ t)
one_step limit i c d true rest t h =
    ap (λ o. if leb limit i then none else (o >>= λ r. some (c ∷ r))) h
    ∙ one_byte limit i (length t) c t
one_step limit i c d false rest t h =
    ap
      (λ o.
        if leb limit i
        then none
        else if leb limit (i + 1)
        then none
        else (o >>= λ r. some (92 ∷ d ∷ r)))
      h
    ∙ two_bytes limit i (length t) 92 d t

nothing_left : (limit i : ℕ) → (if leb limit i then none else some []) ≡ within limit (i + 0) []
nothing_left limit i = elim (Bool-cases (leb limit i)) [
  | inl full ↦
      if_true (leb limit i) _ _ full ∙ sym (if_false (ltb (i + 0) limit) _ _ (ground arith))
  | inr room ↦
      if_false (leb limit i) _ _ room ∙ sym (if_true (ltb (i + 0) limit) _ _ (ground arith))
]

escape_from-within :
    (limit i : ℕ) (src : Bytes)
    → escape_from limit i src ≡ within limit (i + length (escaped_text src)) (escaped_text src)
unfolding escape_from escaped_text
escape_from-within limit i [] = nothing_left limit i
escape_from-within limit i (c ∷ cs) =
    one_step limit i c (escaped_char c) (escaped_char c == 0) _ (escaped_text cs)
      (escape_from-within limit (if escaped_char c == 0 then i + 1 else i + 2) cs)

meant-escaped_char : (c : ℕ) → escaped_char c ≢ 0 → meant (escaped_char c) ≡ some c
unfolding meant escaped_char
meant-escaped_char c h = ground arith

plain-unescaped : (c : ℕ) → (escaped_char c == 0) ≡ true → is_sayable c ≡ true → plain c ≡ some c
unfolding escaped_char plain is_sayable
plain-unescaped c h s = ground arith

plain_not_backslash : (c : ℕ) → (escaped_char c == 0) ≡ true → c ≢ 92
unfolding escaped_char
plain_not_backslash c h = ground arith

unescape-plain : (c : ℕ) (r : Bytes) → c ≢ 92 → unescape (c ∷ r) ≡ before (plain c) (unescape r)
unfolding unescape
unescape-plain c [] h = if_false (c == 92) _ _ (ground arith)
unescape-plain c (d ∷ r) h = if_false (c == 92) _ _ (ground arith)

unescape-pair : (d : ℕ) (r : Bytes) → unescape (92 ∷ d ∷ r) ≡ before (meant d) (unescape r)
unfolding unescape
unescape-pair d r = refl

pub unescape-escaped_text : (src : Bytes) → Sayable src → unescape (escaped_text src) ≡ some src
unfolding unescape escaped_text
unescape-escaped_text [] h = refl
unescape-escaped_text (c ∷ cs) (say, h) = elim (Bool-cases (escaped_char c == 0)) [
  | inl same ↦
      ap unescape (if_true (escaped_char c == 0) _ _ same)
      ∙ unescape-plain c (escaped_text cs) (plain_not_backslash c same)
      ∙ ap (λ o. before o (unescape (escaped_text cs))) (plain-unescaped c same say)
      ∙ ap (before (some c)) (unescape-escaped_text cs h)
  | inr escaped ↦
      ap unescape (if_false (escaped_char c == 0) _ _ escaped)
      ∙ unescape-pair (escaped_char c) (escaped_text cs)
      ∙ ap (λ o. before o (unescape (escaped_text cs))) (meant-escaped_char c (ground arith))
      ∙ ap (before (some c)) (unescape-escaped_text cs h)
]

-- With a buffer of `limit` bytes, `spx_utils_json_escape` writes the escaped text if the text and
-- its NUL fit, and otherwise ends the process.
pub json_escape-within :
    (src : Bytes) (limit : ℕ)
    → json_escape src limit
      ≡ (if ltb (length (escaped_text src)) limit then some (escaped_text src) else none)
unfolding json_escape
json_escape-within src limit =
    escape_from-within limit 0 src
    ∙ ap (λ n. within limit n (escaped_text src)) (from_start (length (escaped_text src)))
  where
    from_start : (n : ℕ) → 0 + n ≡ n
    from_start n = omega arith

-- What `spx_utils_json_escape` writes is the inside of a JSON string that reads as the source text,
-- where that has no control character but \b, \t, \n, \f and \r.
pub unescape-json_escape :
    (src : Bytes) (limit : ℕ) (r : Bytes)
    → Sayable src
    → json_escape src limit ≡ some r
    → unescape r ≡ some src
unescape-json_escape src limit r say h =
    some_of (ltb (length (escaped_text src)) limit) (sym (json_escape-within src limit) ∙ h)
  where
    some_of :
        (b : Bool) → (if b then some (escaped_text src) else none) ≡ some r → unescape r ≡ some src
    some_of true e = let t = unescape-escaped_text src say in cc
    some_of false e = absurd (cc)

-- Another control character is written as it is, which is no JSON.
pub unescape-control :
    (c limit : ℕ) (r : Bytes)
    → is_sayable c ≡ false
    → json_escape (c ∷ []) limit ≡ some r
    → unescape r ≡ none
unfolding unescape is_sayable plain escaped_text escaped_char
unescape-control c limit r say h =
    none_of (ltb (length (escaped_text (c ∷ []))) limit)
      (sym (json_escape-within (c ∷ []) limit) ∙ h)
  where
    none_of :
        (b : Bool) → (if b then some (escaped_text (c ∷ [])) else none) ≡ some r → unescape r ≡ none
    none_of true e = ap unescape (sym (some_inj e)) ∙ ground arith
      where
        some_inj : {s t : Bytes} → some s ≡ some t → s ≡ t
        some_inj q = cc
    none_of false e = absurd (cc)
