-- ===== src/Tokens/Split.antt =====
-- The tokenizer against a plain split of the string.
use php_spx.Prelude.{
  take_all, append_assoc, append_nil, ℕ, zero, suc, ◌-◌, ◌≤◌, ◌≡◌, refl, ap, sym, ◌∙◌, Bool, true,
  false, List, [], ◌∷◌, ◌++◌, map, if◌then◌else◌, ltb, ◌==◌, length, take, inl, inr, if_true,
  if_false, Bool-cases, arith, length-append, ltb→lt,
}
use php_spx.Prelude.Bytes.{Bytes}
use php_spx.Tokens.{tokens_from, tokenize}

-- Bytes put before the first part.
abbrev pub prepend : Bytes → List Bytes → List Bytes
prepend t [] = t ∷ []
prepend t (p ∷ ps) = (t ++ p) ∷ ps

-- The parts of a string between the delimiters, whole.
abbrev pub split : ℕ → Bytes → List Bytes
split delim [] = [] ∷ []
split delim (c ∷ s) = if c == delim then [] ∷ split delim s else prepend (c ∷ []) (split delim s)

-- The parts with the delimiter between them.
abbrev pub join : ℕ → List Bytes → Bytes
join delim [] = []
join delim (p ∷ []) = p
join delim (p ∷ (q ∷ ps)) = p ++ (delim ∷ join delim (q ∷ ps))

take-append : (n : ℕ) (t s : Bytes) → n ≤ length t → take n (t ++ s) ≡ take n t
take-append zero t s h = refl
take-append (suc n) [] s h = absurd (omega arith)
take-append (suc n) (c ∷ t) s h = ap (◌∷◌ c) (take-append n t s (omega arith))

-- A full buffer hides what is put before the first part after it.
hidden :
    (n : ℕ) (t u : Bytes) (ps : List Bytes)
    → n ≤ length t
    → map (take n) (prepend (t ++ u) ps) ≡ map (take n) (prepend t ps)
hidden n t u [] h = ap (λ v. v ∷ []) (take-append n t u h)
hidden n t u (p ∷ ps) h =
    ap (λ v. v ∷ map (take n) ps)
      (ap (take n) (append_assoc t u p) ∙ take-append n t (u ++ p) h ∙ sym (take-append n t p h))

pub prepend-prepend :
    (t u : Bytes) (ps : List Bytes) → prepend t (prepend u ps) ≡ prepend (t ++ u) ps
prepend-prepend t u [] = refl
prepend-prepend t u (p ∷ ps) = ap (λ v. v ∷ ps) (sym (append_assoc t u p))

pub prepend_nil : (d : ℕ) (s : Bytes) → prepend [] (split d s) ≡ split d s
prepend_nil d [] = refl
prepend_nil d (c ∷ s) = either (c == d)
  where
    either :
        (b : Bool)
        → prepend [] (if b then [] ∷ split d s else prepend (c ∷ []) (split d s))
          ≡ (if b then [] ∷ split d s else prepend (c ∷ []) (split d s))
    either true = refl
    either false = prepend-prepend [] (c ∷ []) (split d s)

module _ (size d c : ℕ) (s : Bytes)
    (rest : (t : Bytes)
      → length t ≤ (size - 1)
      → tokens_from size d t s ≡ map (take (size - 1)) (prepend t (split d s))) where
  whole : (t : Bytes) → length t ≤ (size - 1) → take (size - 1) (t ++ []) ≡ t
  whole t h = ap (take (size - 1)) (append_nil t) ∙ take_all (size - 1) t h

  -- A byte that is not the delimiter is stored where there is room.
  store_step :
      (b : Bool) (t : Bytes)
      → ltb (length t) (size - 1) ≡ b
      → length t ≤ (size - 1)
      → tokens_from size d (if b then t ++ (c ∷ []) else t) s
        ≡ map (take (size - 1)) (prepend (t ++ (c ∷ [])) (split d s))
  store_step true t e h =
      let lt = ltb→lt (length t) (size - 1) e in
      let len = length-append t (c ∷ []) in rest (t ++ (c ∷ [])) (omega arith)
  store_step false t e h = rest t h ∙ sym (hidden (size - 1) t (c ∷ []) (split d s) (ground arith))

  byte_step :
      (b : Bool) (t : Bytes)
      → length t ≤ (size - 1)
      → (let more =
            tokens_from size d
              (if b then [] else (if ltb (length t) (size - 1) then t ++ (c ∷ []) else t))
              s in
          if b then t ∷ more else more)
        ≡ map
            (take (size - 1))
            (prepend t (if b then [] ∷ split d s else prepend (c ∷ []) (split d s)))
  byte_step true t h =
      ap (◌∷◌ t) (rest [] (omega arith) ∙ ap (map (take (size - 1))) (prepend_nil d s))
      ∙ ap (λ v. v ∷ map (take (size - 1)) (split d s)) (sym (whole t h))
  byte_step false t h =
      store_step (ltb (length t) (size - 1)) t refl h
      ∙ ap (map (take (size - 1))) (sym (prepend-prepend t (c ∷ []) (split d s)))

tokens_from-split :
    (size d : ℕ) (s t : Bytes)
    → length t ≤ (size - 1)
    → tokens_from size d t s ≡ map (take (size - 1)) (prepend t (split d s))
tokens_from-split size d [] t h =
    ap (λ v. v ∷ []) (sym (ap (take (size - 1)) (append_nil t) ∙ take_all (size - 1) t h))
tokens_from-split size d (c ∷ s) t h =
    byte_step size d c s (λ u. tokens_from-split size d s u) (c == d) t h

join-prepend : (d : ℕ) (t : Bytes) (ps : List Bytes) → join d (prepend t ps) ≡ t ++ join d ps
join-prepend d t [] = sym (append_nil t)
join-prepend d t (p ∷ []) = refl
join-prepend d t (p ∷ (q ∷ ps)) = append_assoc t p (d ∷ join d (q ∷ ps))

-- Splitting loses nothing: the parts with the delimiters between them are the string.
join-split : (d : ℕ) (s : Bytes) → join d (split d s) ≡ s
join-split d [] = refl
join-split d (c ∷ s) = elim (Bool-cases (c == d)) [
  | inl h ↦
      ap (join d) (if_true (c == d) _ _ h)
      ∙ ap (join d) (ap (◌∷◌ []) (sym (prepend_nil d s)))
      ∙ fresh (split d s)
      ∙ ap (λ v. d ∷ v) (ap (join d) (prepend_nil d s) ∙ join-split d s)
      ∙ ap (λ v. v ∷ s) (same h)
  | inr h ↦
      ap (join d) (if_false (c == d) _ _ h)
      ∙ join-prepend d (c ∷ []) (split d s)
      ∙ ap (◌∷◌ c) (join-split d s)
]
  where
    same : (c == d) ≡ true → d ≡ c
    same h = ground arith

    fresh : (ps : List Bytes) → join d ([] ∷ prepend [] ps) ≡ d ∷ join d (prepend [] ps)
    fresh [] = refl
    fresh (p ∷ ps) = refl

-- The tokens are the parts of the string between the delimiters, each cut to `size - 1` bytes.
pub tokenize-split :
    (size d : ℕ) (s : Bytes) → tokenize size d s ≡ map (take (size - 1)) (split d s)
tokenize-split size d s =
    tokens_from-split size d s [] (omega arith) ∙ ap (map (take (size - 1))) (prepend_nil d s)

abbrev pub AllFit : ℕ → List Bytes → Type 0
AllFit n [] = Unit {0}
AllFit n (p ∷ ps) = (length p ≤ n) × AllFit n ps

map-take_all : (n : ℕ) (ps : List Bytes) → AllFit n ps → map (take n) ps ≡ ps
map-take_all n [] h = refl
map-take_all n (p ∷ ps) (h, hs) =
    ap (λ v. v ∷ map (take n) ps) (take_all n p h) ∙ ap (◌∷◌ p) (map-take_all n ps hs)

-- Where every part between the delimiters fits in the buffer, the tokens with the delimiter between
-- them are the string.
pub join-tokenize :
    (size d : ℕ) (s : Bytes) → AllFit (size - 1) (split d s) → join d (tokenize size d s) ≡ s
join-tokenize size d s fit =
    ap (join d) (tokenize-split size d s ∙ map-take_all (size - 1) (split d s) fit) ∙ join-split d s
