-- ===== src/FullReporter/Reading.antt =====
-- The text of the events of src/spx_reporter_full.c, read back: a line is split at its spaces into
-- numbers.
use php_spx.Prelude.{
  ℕ, zero, suc, ◌+◌, ◌-◌, ◌*◌, ◌/◌, ◌%◌, ◌≤◌, ◌≡◌, refl, sym, ap, subst, ◌∙◌, Bool, true, false,
  List, [], ◌∷◌, ◌++◌, map, if◌then◌else◌, ◌==◌, if_true, if_false, ==_iff, append_assoc,
  append_nil, arith,
}
use php_spx.Prelude.Bytes.{Bytes, decimal, decimal_from}
use php_spx.Prelude.Int.{pos_part}
use php_spx.Metric.{Metric, Values, metrics}
use php_spx.StrBuilder.Digits.{read_from}
use php_spx.Tokens.Split.{split, prepend, prepend-prepend, prepend_nil}
use php_spx.FullReporter.{BufferEntry, flag}
use php_spx.FullReporter.Lines.{fields, line}

-- The parts that a delimiter ends.
abbrev pub ended : List Bytes → List Bytes
ended [] = []
ended (p ∷ []) = []
ended (p ∷ (q ∷ ps)) = p ∷ ended (q ∷ ps)

-- The numbers of a line.
abbrev pub numbers : Bytes → List ℕ
numbers t = map (read_from 0) (split 32 t)

-- The numbers of each line of a text.
abbrev pub read_lines : Bytes → List (List ℕ)
read_lines t = map numbers (ended (split 10 t))

-- What is to be read of an entry: the function, 1 for a start, and the enabled values.
abbrev pub bit : Bool → ℕ
bit true = 1
bit false = 0

abbrev pub values_of : (Metric → Bool) → Values → List Metric → List ℕ
values_of enabled values [] = []
values_of enabled values (i ∷ is) =
    let rest = values_of enabled values is in if enabled i then pos_part (values i) ∷ rest else rest

abbrev pub row_of : (Metric → Bool) → BufferEntry → List ℕ
row_of enabled e = e.function_idx ∷ (bit e.start ∷ values_of enabled e.metric_values metrics)

-- A split has a part at least.
abbrev HasPart : List Bytes → Type 0
HasPart ps = (q : Bytes) × (qs : List Bytes) × (ps ≡ q ∷ qs)

prepend-HasPart : (t : Bytes) (ps : List Bytes) → HasPart (prepend t ps)
prepend-HasPart t [] = (t, [], refl)
prepend-HasPart t (p ∷ ps) = (t ++ p, ps, refl)

split-HasPart : (d : ℕ) (s : Bytes) → HasPart (split d s)
split-HasPart d [] = ([], [], refl)
split-HasPart d (c ∷ s) = either (c == d)
  where
    either : (b : Bool) → HasPart (if b then [] ∷ split d s else prepend (c ∷ []) (split d s))
    either true = ([], split d s, refl)
    either false = prepend-HasPart (c ∷ []) (split d s)

-- No byte of a text is the delimiter.
abbrev pub Free : ℕ → Bytes → Type 0
Free d [] = Unit {0}
Free d (c ∷ t) = ((c == d) ≡ false) × Free d t

split-Free : (d : ℕ) (t s : Bytes) → Free d t → split d (t ++ s) ≡ prepend t (split d s)
split-Free d [] s free = sym (prepend_nil d s)
split-Free d (c ∷ t) s (other, free) =
    if_false (c == d) _ _ other
    ∙ ap (prepend (c ∷ [])) (split-Free d t s free)
    ∙ prepend-prepend (c ∷ []) t (split d s)

-- A text without the delimiter is the part before the next one.
pub split-part : (d : ℕ) (t s : Bytes) → Free d t → split d (t ++ (d ∷ s)) ≡ t ∷ split d s
split-part d t s free =
    split-Free d t (d ∷ s) free
    ∙ ap (prepend t) (if_true (d == d) _ _ ((==_iff d d).1 refl))
    ∙ ap (λ p. p ∷ split d s) (append_nil t)

split-last : (d : ℕ) (t : Bytes) → Free d t → split d t ≡ t ∷ []
split-last d t free =
    ap (split d) (sym (append_nil t)) ∙ split-Free d t [] free ∙ ap (λ p. p ∷ []) (append_nil t)

Free-append : (d : ℕ) (t s : Bytes) → Free d t → Free d s → Free d (t ++ s)
Free-append d [] s free rest = rest
Free-append d (c ∷ t) s (other, free) rest = (other, Free-append d t s free rest)

-- A number has no space and no newline, and reads as itself.
Free-decimal_from :
    (d fuel v : ℕ) (text : Bytes) → d ≤ 47 → Free d text → Free d (decimal_from fuel v text)
Free-decimal_from d zero v text low free = free
Free-decimal_from d (suc fuel) v text low free =
    ground (arith, Free-decimal_from d fuel (v / 10) ((v % 10 + 48) ∷ text))

Free-decimal : (d n : ℕ) → d ≤ 47 → Free d (decimal n)
unfolding decimal
Free-decimal d zero low = ground arith
Free-decimal d (suc n) low =
    subst (Free d) (sym (if_false (suc n == 0) _ _ (ground arith)))
      (Free-decimal_from d (suc n) (suc n) [] low _)

read_from-decimal_from :
    (fuel v : ℕ) (text : Bytes)
    → v ≤ fuel
    → read_from 0 (decimal_from fuel v text) ≡ read_from v text
read_from-decimal_from zero v text le = let e : 0 ≡ v = omega arith in ap (λ n. read_from n text) e
read_from-decimal_from (suc fuel) v text le =
    ground (arith, read_from-decimal_from fuel (v / 10) ((v % 10 + 48) ∷ text), whole)
  where
    whole : v / 10 * 10 + (v % 10 + 48 - 48) ≡ v
    whole = omega arith

read_from-decimal : (n : ℕ) → read_from 0 (decimal n) ≡ n
unfolding decimal
read_from-decimal zero = refl
read_from-decimal (suc n) =
    ap (read_from 0) (if_false (suc n == 0) _ _ (ground arith))
    ∙ read_from-decimal_from (suc n) (suc n) [] (omega arith)

-- The fields after the first part of a line are its enabled values.
split-fields :
    (enabled : Metric → Bool) (values : Values) (is : List Metric) (t : Bytes)
    → Free 32 t
    → map (read_from 0) (split 32 (t ++ fields enabled values is))
      ≡ read_from 0 t ∷ values_of enabled values is
split-fields enabled values [] t free =
    ap (λ s. map (read_from 0) (split 32 s)) (append_nil t)
    ∙ ap (map (read_from 0)) (split-last 32 t free)
split-fields enabled values (i ∷ is) t free =
    either (enabled i) (split-fields enabled values is t free) (
      split-fields enabled values is (decimal (pos_part (values i)))
        (Free-decimal 32 (pos_part (values i)) (omega arith)))
  where
    either :
        (b : Bool)
        → map (read_from 0) (split 32 (t ++ fields enabled values is))
          ≡ read_from 0 t ∷ values_of enabled values is
        → map (read_from 0) (split 32 (decimal (pos_part (values i)) ++ fields enabled values is))
          ≡ read_from 0 (decimal (pos_part (values i))) ∷ values_of enabled values is
        → map (read_from 0) (
            split 32 (
              t
              ++ (if b
                  then 32 ∷ (decimal (pos_part (values i)) ++ fields enabled values is)
                  else fields enabled values is)))
          ≡ read_from 0 t
            ∷ (if b
                then pos_part (values i) ∷ values_of enabled values is
                else values_of enabled values is)
    either true skip here =
        ap (map (read_from 0)) (split-part 32 t _ free)
        ∙ ap (◌∷◌ (read_from 0 t)) (
            here
            ∙ ap (λ n. n ∷ values_of enabled values is) (read_from-decimal (pos_part (values i))))
    either false skip here = skip

-- A line without its newline.
abbrev content : (Metric → Bool) → BufferEntry → Bytes
content enabled e =
    decimal e.function_idx ++ (32 ∷ flag e.start ∷ fields enabled e.metric_values metrics)

numbers-content :
    (enabled : Metric → Bool) (e : BufferEntry) → numbers (content enabled e) ≡ row_of enabled e
numbers-content enabled e =
    ap (map (read_from 0))
      (split-part 32 (decimal e.function_idx) _ (Free-decimal 32 e.function_idx (omega arith)))
    ∙ ap
        (λ n.
          n ∷ map (read_from 0) (split 32 (flag e.start ∷ fields enabled e.metric_values metrics)))
        (read_from-decimal e.function_idx)
    ∙ ap (◌∷◌ e.function_idx) (flagged e.start)
  where
    flagged :
        (b : Bool)
        → map (read_from 0) (split 32 (flag b ∷ fields enabled e.metric_values metrics))
          ≡ bit b ∷ values_of enabled e.metric_values metrics
    flagged true = split-fields enabled e.metric_values metrics (49 ∷ []) (refl, _)
    flagged false = split-fields enabled e.metric_values metrics (48 ∷ []) (refl, _)

Free-fields :
    (enabled : Metric → Bool) (values : Values) (is : List Metric)
    → Free 10 (fields enabled values is)
Free-fields enabled values [] = _
Free-fields enabled values (i ∷ is) = either (enabled i) (Free-fields enabled values is)
  where
    either :
        (b : Bool)
        → Free 10 (fields enabled values is)
        → Free 10 (
            if b
            then 32 ∷ (decimal (pos_part (values i)) ++ fields enabled values is)
            else fields enabled values is)
    either true rest = (
      refl,
      Free-append 10 (decimal (pos_part (values i))) (fields enabled values is)
          (Free-decimal 10 (pos_part (values i)) (omega arith)) rest,
    )
    either false rest = rest

Free-content : (enabled : Metric → Bool) (e : BufferEntry) → Free 10 (content enabled e)
Free-content enabled e =
    Free-append 10 (decimal e.function_idx) _ (Free-decimal 10 e.function_idx (omega arith))
      (refl, (flag_free e.start, Free-fields enabled e.metric_values metrics))
  where
    flag_free : (b : Bool) → (flag b == 10) ≡ false
    flag_free true = refl
    flag_free false = refl

-- The lines of entries, one after the other.
abbrev pub text_of : (Metric → Bool) → List BufferEntry → Bytes
text_of enabled [] = []
text_of enabled (e ∷ es) = line enabled e ++ text_of enabled es

-- The lines of entries read back as the entries.
pub read_lines-text_of :
    (enabled : Metric → Bool) (es : List BufferEntry)
    → read_lines (text_of enabled es) ≡ map (row_of enabled) es
read_lines-text_of enabled [] = refl
read_lines-text_of enabled (e ∷ es) =
    ap read_lines cut
    ∙ ap (λ ps. map numbers (ended ps))
        (split-part 10 (content enabled e) (text_of enabled es) (Free-content enabled e))
    ∙ ap (map numbers) (unended (content enabled e) (text_of enabled es))
    ∙ rw (numbers-content enabled e, read_lines-text_of enabled es) refl
  where
    cut : text_of enabled (e ∷ es) ≡ content enabled e ++ (10 ∷ text_of enabled es)
    cut =
        ap (λ l. l ++ text_of enabled es)
          (sym (
            append_assoc (decimal e.function_idx)
              (32 ∷ flag e.start ∷ fields enabled e.metric_values metrics) (10 ∷ [])))
        ∙ append_assoc (content enabled e) (10 ∷ []) (text_of enabled es)

    unended : (p s : Bytes) → ended (p ∷ split 10 s) ≡ p ∷ ended (split 10 s)
    unended p s = let (q, qs, e) = split-HasPart 10 s in rw e refl
