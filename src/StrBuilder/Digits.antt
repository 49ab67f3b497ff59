-- ===== src/StrBuilder/Digits.antt =====
-- The digits of a number in front of a text.
use php_spx.Prelude.{
  ℕ, zero, suc, ◌+◌, ◌-◌, ◌*◌, ◌/◌, ◌%◌, ◌≤◌, ◌<◌, ◌≡◌, refl, sym, ap, subst, ◌∙◌, Bool, true,
  false, Option, none, some, [], ◌∷◌, if◌then◌else◌, if_true, ltb, ◌==◌, ==_iff, length, arith,
}
use php_spx.Prelude.Bytes.{Bytes}
use php_spx.Prelude.Int.{ℤ, pos, negsuc}
use php_spx.StrBuilder.{put, then_text, digits}

-- The number that a text of digits stands for, after a number that was read before it.
abbrev pub read_from : ℕ → Bytes → ℕ
read_from n [] = n
read_from n (c ∷ text) = read_from (n * 10 + (c - 48)) text

-- The number that a text with a sign stands for, as strtol reads it.
abbrev pub negated : ℕ → ℤ
negated zero = pos 0
negated (suc n) = negsuc n

abbrev pub read_long : Bytes → ℤ
read_long [] = pos 0
read_long (c ∷ text) = if c == 45 then negated (read_from 0 text) else pos (read_from 0 (c ∷ text))

-- The bytes '0' to '9'.
abbrev pub Digits : Bytes → Type 0
Digits [] = Unit {0}
Digits (c ∷ text) = (48 ≤ c) × (c ≤ 57) × Digits text

abbrev pub Outcome : (Bytes → Type 0) → Option Bytes → Type 0
Outcome P none = Unit {0}
Outcome P (some text) = P text

-- What the digits of v put in front of a text that stands for k with its digits.
abbrev pub Holds : ℕ → ℕ → Bytes → Bytes → Type 0
Holds room v text t =
    (read_from 0 t ≡ read_from v text) × Digits t × (length t ≤ room) × (length text ≤ length t)

pub put-Outcome :
    (room c : ℕ) (text : Bytes) (P : Bytes → Type 0)
    → (length text + 1 ≤ room → P (c ∷ text))
    → Outcome P (put room c text)
put-Outcome room c text P h = either (ltb room (length text + 1)) refl
  where
    either :
        (b : Bool)
        → ltb room (length text + 1) ≡ b
        → Outcome P (if b then none else some (c ∷ text))
    either true e = _
    either false e = h (ground arith)

pub then-Outcome :
    (o : Option Bytes) (f : Bytes → Option Bytes) (P Q : Bytes → Type 0)
    → Outcome P o
    → ((t : Bytes) → P t → Outcome Q (f t))
    → Outcome Q (then_text o f)
then-Outcome none f P Q h k = _
then-Outcome (some t) f P Q h k = k t h

pub Outcome-map :
    {P Q : Bytes → Type 0} (o : Option Bytes)
    → ((t : Bytes) → P t → Q t)
    → Outcome P o
    → Outcome Q o
Outcome-map none f h = _
Outcome-map (some t) f h = f t h

pub digits-Holds :
    (fuel room v : ℕ) (text : Bytes)
    → v ≤ fuel
    → Digits text
    → length text ≤ room
    → Outcome (Holds room v text) (digits fuel room v text)
digits-Holds zero room v text le ds fits =
    (ap (λ n. read_from n text) (none_left v le), ds, fits, omega arith)
  where
    none_left : (v : ℕ) → v ≤ 0 → 0 ≡ v
    none_left v le = omega arith
digits-Holds (suc fuel) room v text le ds fits =
    either (λ t. digits-Holds fuel room (v / 10) t (omega arith)) (v == 0) refl
  where
    either :
        ((t : Bytes)
          → Digits t
          → length t ≤ room
          → Outcome (Holds room (v / 10) t) (digits fuel room (v / 10) t))
        → (b : Bool) → (v == 0) ≡ b
        → Outcome (Holds room v text) (
            if b
            then some text
            else then_text (put room (v % 10 + 48) text) (λ t. digits fuel room (v / 10) t))
    either ih true e = (ap (λ n. read_from n text) (sym ((==_iff v 0).0 e)), ds, fits, omega arith)
    either ih false e =
        then-Outcome (put room (v % 10 + 48) text) (λ t. digits fuel room (v / 10) t)
          (λ t. (t ≡ (v % 10 + 48) ∷ text) × (length text + 1 ≤ room)) (Holds room v text)
          (put-Outcome room (v % 10 + 48) text _ (λ h. (refl, h)))
          (λ t (same, h).
            subst (λ t. Outcome (Holds room v text) (digits fuel room (v / 10) t)) (sym same)
              (Outcome-map (digits fuel room (v / 10) ((v % 10 + 48) ∷ text))
                (λ u (value, us, fit, len).
                  (value ∙ ap (λ n. read_from n text) (whole v), us, fit, omega arith))
                (ih ((v % 10 + 48) ∷ text) (omega arith, omega arith, ds) (omega arith))))
      where
        whole : (v : ℕ) → v / 10 * 10 + (v % 10 + 48 - 48) ≡ v
        whole v = omega arith

-- A text of at most n bytes.
abbrev pub Short : ℕ → Option Bytes → Type 0
Short n none = ⊥
Short n (some t) = length t ≤ n

pub put-some :
    (room c : ℕ) (text : Bytes) → length text + 1 ≤ room → put room c text ≡ some (c ∷ text)
put-some room c text h = ground arith

-- 10 ^ k
abbrev pub ten : ℕ → ℕ
ten zero = 1
ten (suc k) = ten k * 10

-- A number of k digits fits where there is room for k bytes.
pub digits-Short :
    (k fuel room v : ℕ) (text : Bytes)
    → v < ten k
    → length text + k ≤ room
    → Short (length text + k) (digits fuel room v text)
digits-Short k zero room v text lt fits = omega arith
digits-Short zero (suc fuel) room v text lt fits =
    subst (Short (length text + 0))
      (sym (if_true (v == 0) (some text) _ ((==_iff v 0).1 (omega arith)))) (omega arith)
digits-Short (suc k) (suc fuel) room v text lt fits =
    either (digits-Short k fuel room (v / 10) ((v % 10 + 48) ∷ text) (omega arith) (omega arith))
      (v == 0)
  where
    either :
        Short (suc (length text) + k) (digits fuel room (v / 10) ((v % 10 + 48) ∷ text))
        → (b : Bool)
        → Short (length text + suc k) (
            if b
            then some text
            else then_text (put room (v % 10 + 48) text) (λ t. digits fuel room (v / 10) t))
    either ih true = omega arith
    either ih false =
        subst (λ o. Short (length text + suc k) (then_text o (λ t. digits fuel room (v / 10) t)))
          (sym (put-some room (v % 10 + 48) text (omega arith)))
          (subst (λ n. Short n (digits fuel room (v / 10) ((v % 10 + 48) ∷ text))) moved ih)
      where
        moved : suc (length text) + k ≡ length text + suc k
        moved = omega arith
