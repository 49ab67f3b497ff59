-- ===== src/ReporterFactory/Registry.antt =====
-- What the factory accepts.
use php_spx.Prelude.{
  subst, sym, ℕ, zero, suc, ◌≤◌, ◌<◌, ◌≡◌, ◌≢◌, refl, ◌⊎◌, inl, inr, Bool, true, false, ◌||◌,
  Option, none, some, List, [], ◌∷◌, ◌++◌, if◌then◌else◌, ltb, leb, ◌==◌, length, length-append,
  arith,
}
use php_spx.ReporterFactory.{
  type_from_string, type_to_string, type_count, Config, full, flat_profile, trace, null, unknown,
  invalid_input, invalid_config, capacity_exceeded, if_valid, Made, full_create, fp_create,
  trace_create, null_create, refused, create, metric_count, Custom, taken, Registering, register,
  max_custom_reporters,
}

-- What a configuration must have for its reporter to be made.
abbrev pub Proper : Config → Type 0
Proper (full none) = ⊥
Proper (full (some dir)) = dir ≢ []
Proper (flat_profile fp) = (fp.focus < metric_count) × (0 < fp.limit)
Proper (trace file_name safe_mode) = Unit {0}
Proper null = Unit {0}
Proper (unknown n) = ⊥

-- The constructor that belongs to a configuration.
abbrev pub constructor_of : Config → Made
constructor_of (full dir) = full_create dir
constructor_of (flat_profile fp) = fp_create fp
constructor_of (trace file_name safe_mode) = trace_create file_name safe_mode
constructor_of null = null_create
constructor_of (unknown n) = refused invalid_config

-- A configuration is answered with its constructor or refused as invalid.
abbrev pub Answered : Config → Made → Type 0
Answered c m = (Proper c × (m ≡ constructor_of c)) ⊎ ((¬ Proper c) × (m ≡ refused invalid_config))

pub create-Answered : (c : Config) → Answered c (create true (some c))
unfolding create
create-Answered (full none) = inr (λ h. h, refl)
create-Answered (full (some [])) = inr (λ h. h refl, refl)
create-Answered (full (some (c ∷ dir))) = inl (cc, refl)
create-Answered (flat_profile fp) = either (leb metric_count fp.focus) refl (fp.limit == 0) refl
  where
    either :
        (wrong : Bool)
        → leb metric_count fp.focus ≡ wrong
        → (empty : Bool) → (fp.limit == 0) ≡ empty
        → Answered (flat_profile fp) (
            if_valid
              (if wrong then some invalid_config else (if empty then some invalid_config else none))
              (fp_create fp))
    either true e empty e' = inr (λ h. ground arith, refl)
    either false e true e' = inr (λ h. ground arith, refl)
    either false e false e' = inl ((ground arith, ground arith), refl)
create-Answered (trace file_name safe_mode) = inl (_, refl)
create-Answered null = inl (_, refl)
create-Answered (unknown n) = inr (λ h. h, refl)

-- The name of a type that there is leads back to it.
pub type_from_string-type_to_string :
    (type : ℕ) → type < type_count → type_from_string (type_to_string type) ≡ type
unfolding type_from_string type_to_string
type_from_string-type_to_string zero h = refl
type_from_string-type_to_string (suc zero) h = refl
type_from_string-type_to_string (suc (suc zero)) h = refl
type_from_string-type_to_string (suc (suc (suc zero))) h = refl
type_from_string-type_to_string (suc (suc (suc (suc n)))) h = absurd (omega arith)

-- The types of the table are none of the factory's own, and each stands once.
abbrev pub Distinct : List Custom → Type 0
Distinct [] = Unit {0}
Distinct (c ∷ cs) = (taken c.info_type cs ≡ false) × (type_count ≤ c.info_type) × Distinct cs

abbrev pub IsSound : List Custom → Type 0
IsSound customs = Distinct customs × (length customs ≤ max_custom_reporters)

taken-append :
    (type : ℕ) (cs : List Custom) (c : Custom)
    → taken type (cs ++ (c ∷ [])) ≡ (taken type cs || c.info_type == type)
taken-append type [] c = ground arith
taken-append type (d ∷ cs) c = ground (arith, taken-append type cs c)

Distinct-append :
    (cs : List Custom) (c : Custom)
    → Distinct cs
    → taken c.info_type cs ≡ false
    → type_count ≤ c.info_type
    → Distinct (cs ++ (c ∷ []))
Distinct-append [] c sound new custom = (refl, custom, _)
Distinct-append (d ∷ cs) c (alone, own, sound) new custom = (
  ground (arith, taken-append d.info_type cs c),
  own,
  Distinct-append cs c sound (ground arith) custom,
)

-- What a registration needs: a row, a type that is not the program's own nor taken, and room.
abbrev pub Free : ℕ → Option Custom → List Custom → Type 0
Free type row customs =
    (row ≢ none)
    × (type_count ≤ type)
    × (length customs < max_custom_reporters)
    × (taken type customs ≡ false)

-- The table with the row at its end where the registration is free, and otherwise as it was, with an
-- error.
abbrev pub Accepts : ℕ → Option Custom → List Custom → Registering → Type 0
Accepts type row customs r =
    (Free type row customs
      × (r.error ≡ none)
      × (c : Custom) × (row ≡ some c)
      × (r.customs ≡ customs ++ (c ∷ [])))
    ⊎ ((¬ Free type row customs) × (r.error ≢ none) × (r.customs ≡ customs))

-- A registration is accepted just where neither the information nor the factory is NULL, the type
-- that it names is neither the program's own nor that of a row, and fewer than 16 are registered;
-- then the information and the factory become the last row. Else it is refused with an error and
-- the table as it was.
pub register-Accepts :
    (type : ℕ) (row : Option Custom) (customs : List Custom)
    → Accepts type row customs (register type row customs)
unfolding register
register-Accepts type none customs = without (ltb type type_count)
  where
    without :
        (own : Bool)
        → Accepts type none customs (
            if own
            then record { error = some invalid_input; customs = customs }
            else record { error = some invalid_input; customs = customs })
    without true = inr (λ h. h.0 refl, cc, refl)
    without false = inr (λ h. h.0 refl, cc, refl)
register-Accepts type (some row) customs =
    either (ltb type type_count) refl (leb max_custom_reporters (length customs)) refl
      (taken type customs) refl
  where
    either :
        (own : Bool)
        → ltb type type_count ≡ own
        → (crowded : Bool) → leb max_custom_reporters (length customs) ≡ crowded
        → (old : Bool) → taken type customs ≡ old
        → Accepts type (some row) customs (
            if own
            then record { error = some invalid_input; customs = customs }
            else if crowded
            then record { error = some capacity_exceeded; customs = customs }
            else if old
            then record { error = some invalid_input; customs = customs }
            else record { error = none; customs = customs ++ (row ∷ []) })
    either true e crowded f old o = inr (λ (given, own, room, new). ground arith, cc, refl)
    either false e true f old o = inr (λ (given, own, room, new). ground arith, cc, refl)
    either false e false f true o = inr (λ (given, own, room, new). cc, cc, refl)
    either false e false f false o =
        inl ((cc, ground arith, below (length customs) f, o), refl, row, refl, refl)
      where
        below : (n : ℕ) → leb max_custom_reporters n ≡ false → n < max_custom_reporters
        below n h = ground arith

-- On a table whose types are distinct and not the program's own, at most 16 of them, a registration
-- whose information has the type that it names keeps it so, whether it is accepted or refused, and
-- it is accepted just where it is free.
pub register-IsSound :
    (type : ℕ) (row : Option Custom) (customs : List Custom)
    → ((c : Custom) → row ≡ some c → c.info_type ≡ type)
    → IsSound customs
    → IsSound (register type row customs).customs
      × Accepts type row customs (register type row customs)
register-IsSound type row customs same (distinct, short) =
    let a = register-Accepts type row customs in (kept a, a)
  where
    kept :
        Accepts type row customs (register type row customs)
        → IsSound (register type row customs).customs
    kept (inr (not_free, e, old)) = subst IsSound (sym old) (distinct, short)
    kept (inl ((given, own, room, new), e, c, it, more)) =
        let named = same c it in
        subst IsSound (sym more) (
          Distinct-append customs c distinct (subst (λ t. taken t customs ≡ false) (sym named) new)
              (subst (λ t. type_count ≤ t) (sym named) own),
          omega (arith, length-append customs (c ∷ [])),
        )

-- Where the information has another type than the one that is named, as 9 and 7 here, a type is
-- registered twice.
pub register-twice :
    (c : Custom) → c.info_type ≡ 7 → (register 9 (some c) (c ∷ [])).customs ≡ c ∷ c ∷ []
unfolding register
register-twice c h = rw h refl
