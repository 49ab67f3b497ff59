-- ===== src/Validation/Laws.antt =====
-- What an accepted number or string is known to satisfy.
use php_spx.Prelude.{
  ℕ, ◌≡◌, refl, sym, ap, subst, ◌∙◌, ◌↔◌, inl, inr, Bool, true, false, ◌||◌, ◌&&◌, Bool-cases,
  Option, none, some, [], ◌∷◌, if◌then◌else◌, if_true, if_false, arith,
}
use php_spx.Prelude.Bytes.{Bytes}
use php_spx.Prelude.Int.{ℤ, pos, ltb_ℤ, ◌≤ℤ◌}
use php_spx.Validation.{
  ParseResult, success, overflow, underflow, out_of_range, Number, in_bounds, checked, parse_long,
  is_long_max, is_long_min,
}

-- A number that strtol could not represent.
abbrev pub saturated : Number → Bool
saturated n = n.range_error && is_long_max n.value || n.range_error && is_long_min n.value

abbrev value_of : ParseResult → ℤ
value_of (success v) = v
value_of _ = pos 0

abbrev Succeeds : ParseResult → Type 0
Succeeds (success v) = Unit {0}
Succeeds _ = ⊥

success_inj : {v w : ℤ} → success v ≡ success w → v ≡ w
success_inj e = ap value_of e

-- What makes the parser of numbers accept v.
abbrev pub Accepted : Number → ℤ → ℤ → ℤ → Type 0
Accepted n min_value max_value v =
    (saturated n ≡ false) × (n.rest ≡ []) × (n.value ≡ v) × (min_value ≤ℤ v) × (v ≤ℤ max_value)

in_bounds_iff :
    (min_value max_value value v : ℤ) (rest : Bytes)
    → (in_bounds min_value max_value value rest ≡ success v)
      ↔ ((rest ≡ []) × (value ≡ v) × (min_value ≤ℤ v) × (v ≤ℤ max_value))
in_bounds_iff a b w v (c ∷ rest) = (λ h. cc, λ h. absurd (no h.0))
  where
    no : c ∷ rest ≡ [] → ⊥
    no e = cc
in_bounds_iff a b w v [] = (
  λ h. elim (Bool-cases (ltb_ℤ w a || ltb_ℤ b w)) [
    | inl e ↦ absurd (subst Succeeds (sym (sym (if_true _ _ _ e) ∙ h)) _)
    | inr e ↦
        let same = success_inj (sym (if_false _ out_of_range (success w) e) ∙ h) in
        (
          refl,
          same,
          subst (λ x. a ≤ℤ x) same (inside w e).0,
          subst (λ x. x ≤ℤ b) same (inside w e).1,
        )
  ],
  λ (r, e, p, q).
      if_false _ out_of_range (success w)
        (outside w (subst (λ x. a ≤ℤ x) (sym e) p) (subst (λ x. x ≤ℤ b) (sym e) q))
      ∙ ap success e,
)
  where
    inside : (x : ℤ) → (ltb_ℤ x a || ltb_ℤ b x) ≡ false → (a ≤ℤ x) × (x ≤ℤ b)
    inside x e = ground arith

    outside : (x : ℤ) → a ≤ℤ x → x ≤ℤ b → (ltb_ℤ x a || ltb_ℤ b x) ≡ false
    outside x p q = ground arith

checked_iff :
    (min_value max_value v : ℤ) (n : Number)
    → (checked min_value max_value n ≡ success v) ↔ Accepted n min_value max_value v
checked_iff a b v n =
    either (n.range_error && is_long_max n.value) (n.range_error && is_long_min n.value)
  where
    either :
        (s t : Bool)
        → ((if s then overflow else (if t then underflow else in_bounds a b n.value n.rest))
            ≡ success v)
          ↔ (((s || t) ≡ false) × (n.rest ≡ []) × (n.value ≡ v) × (a ≤ℤ v) × (v ≤ℤ b))
    either true t = (λ h. absurd (subst Succeeds (sym h) _), λ h. absurd (no h.0))
      where
        no : true ≡ false → ⊥
        no e = cc
    either false true = (λ h. absurd (subst Succeeds (sym h) _), λ h. absurd (no h.0))
      where
        no : true ≡ false → ⊥
        no e = cc
    either false false = (
      λ h. let r = (in_bounds_iff a b n.value v n.rest).0 h in (refl, r.0, r.1, r.2, r.3),
      λ (z, r, e, p, q). (in_bounds_iff a b n.value v n.rest).1 (r, e, p, q),
    )

-- A text that is not empty is accepted as v exactly where strtol represents the whole text, by v, and
-- v lies within the bounds.
pub parse_long_iff :
    (strtol : Bytes → Number) (c : ℕ) (str : Bytes) (min_value max_value v : ℤ)
    → (parse_long strtol (some (c ∷ str)) min_value max_value ≡ success v)
      ↔ Accepted (strtol (c ∷ str)) min_value max_value v
parse_long_iff strtol c str a b v = checked_iff a b v (strtol (c ∷ str))

-- An accepted number is within its bounds, whatever the text.
pub parse_long-bounded :
    (strtol : Bytes → Number) (str : Option Bytes) (min_value max_value v : ℤ)
    → parse_long strtol str min_value max_value ≡ success v
    → (min_value ≤ℤ v) × (v ≤ℤ max_value)
parse_long-bounded strtol none a b v h = absurd (subst Succeeds (sym h) _)
parse_long-bounded strtol (some []) a b v h = absurd (subst Succeeds (sym h) _)
parse_long-bounded strtol (some (c ∷ str)) a b v h =
    let r = (parse_long_iff strtol c str a b v).0 h in (r.3, r.4)
