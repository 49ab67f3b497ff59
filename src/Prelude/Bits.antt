-- ===== src/Prelude/Bits.antt =====
-- The binary digits of numbers: when an or or an exclusive or is 0.
use Prim.Native.Nat.{
  ℕ, zero, suc, ◌+◌, ◌*◌, ◌/◌, ◌%◌, ◌^◌, ◌≤◌, ◌<◌, max, bit_and, bit_or, bit_xor, bitwise, digits,
  min, bit_and-bitwise, differ, bit_or-bitwise, bit_xor-bitwise,
}
use mathlib.Core.Path.{◌≡◌, refl, sym, ap, subst, ◌∙◌}
use mathlib.Core.Logic.{◌↔◌}
use native.Mathlib.Omega.{arith}
use native.Mathlib.Nat.{div-add-mod, mul-add-mod_self_left, mod-eq_of_lt, mod-lt}

abbrev or_digits : ℕ → ℕ → ℕ → ℕ
or_digits n a b = digits (λ b. b) max n a b

abbrev xor_digits : ℕ → ℕ → ℕ → ℕ
xor_digits n a b = digits (λ b. b) differ n a b

digit_differ : (a b : ℕ) → a < 2 → b < 2 → differ a b ≡ 0 → a ≡ b
digit_differ zero b p q h = omega arith
digit_differ (suc zero) zero p q h = omega arith
digit_differ (suc zero) (suc zero) p q h = refl
digit_differ (suc zero) (suc (suc b)) p q h = absurd (omega arith)
digit_differ (suc (suc a)) b p q h = absurd (omega arith)

differ_self : (a : ℕ) → differ a a ≡ 0
differ_self zero = refl
differ_self (suc a) = differ_self a

or_digits_zero : (n a b : ℕ) → a ≤ n → or_digits n a b ≡ 0 → (a ≡ 0) × (b ≡ 0)
or_digits_zero zero a b le h = (omega arith, h)
or_digits_zero (suc n) zero b le h = (refl, h)
or_digits_zero (suc n) (suc a) b le h =
    let ih = or_digits_zero n (suc a / 2) (b / 2) (omega arith) (omega arith) in
    (omega (arith, ih.0), omega (arith, ih.1))

pub bit_or-zero : (a b : ℕ) → bit_or a b ≡ 0 → (a ≡ 0) × (b ≡ 0)
bit_or-zero a b h = or_digits_zero a a b (omega arith) (omega (arith, bit_or-bitwise a b, h))

xor_digits_zero : (n a b : ℕ) → a ≤ n → xor_digits n a b ≡ 0 → a ≡ b
xor_digits_zero zero a b le h = omega arith
xor_digits_zero (suc n) zero b le h = omega arith
xor_digits_zero (suc n) (suc a) b le h =
    let high = xor_digits_zero n (suc a / 2) (b / 2) (omega arith) (omega arith) in
    let low = digit_differ (suc a % 2) (b % 2) (omega arith) (omega arith) (omega arith) in
    omega (arith, high, low)

xor_digits_self : (n a : ℕ) → a ≤ n → xor_digits n a a ≡ 0
xor_digits_self zero a le = omega arith
xor_digits_self (suc n) zero le = refl
xor_digits_self (suc n) (suc a) le =
    omega (arith, xor_digits_self n (suc a / 2) (omega arith), differ_self (suc a % 2))

pub bit_xor-zero : (a b : ℕ) → (bit_xor a b ≡ 0) ↔ (a ≡ b)
bit_xor-zero a b = (
  λ h. xor_digits_zero a a b (omega arith) (omega (arith, bit_xor-bitwise a b, h)),
  λ e. subst (λ c. bit_xor a c ≡ 0) e self,
)
  where
    self : bit_xor a a ≡ 0
    self = omega (arith, bit_xor-bitwise a a, xor_digits_self a a (omega arith))

-- The lowest digit of an operation on digits stands apart from the others, whatever the operation.
module _ (z : ℕ → ℕ) (f : ℕ → ℕ → ℕ) where
  digits_enough : (a b n m : ℕ) → a ≤ n → a ≤ m → digits z f n a b ≡ digits z f m a b
  digits_enough zero b zero zero hn hm = refl
  digits_enough zero b zero (suc m) hn hm = refl
  digits_enough zero b (suc n) zero hn hm = refl
  digits_enough zero b (suc n) (suc m) hn hm = refl
  digits_enough (suc a) b zero m hn hm = absurd (omega arith)
  digits_enough (suc a) b (suc n) zero hn hm = absurd (omega arith)
  digits_enough (suc a) b (suc n) (suc m) hn hm =
      let half = digits_enough (suc a / 2) (b / 2) n m (omega arith) (omega arith) in
      ap (λ high. high * 2 + f (suc a % 2) (b % 2)) half

  pub bitwise_lowest :
      (a b : ℕ)
      → z b ≡ z (b / 2) * 2 + f 0 (b % 2)
      → bitwise z f a b ≡ bitwise z f (a / 2) (b / 2) * 2 + f (a % 2) (b % 2)
  bitwise_lowest zero b base = base
  bitwise_lowest (suc a) b base =
      ap (λ high. high * 2 + f (suc a % 2) (b % 2))
        (digits_enough (suc a / 2) (b / 2) a (suc a / 2) (omega arith) (omega arith))

bit_xor_lowest : (a b : ℕ) → bit_xor a b ≡ bit_xor (a / 2) (b / 2) * 2 + differ (a % 2) (b % 2)
bit_xor_lowest a b =
    bit_xor-bitwise a b
    ∙ bitwise_lowest (λ b. b) differ a b (digit b)
    ∙ ap (λ high. high * 2 + differ (a % 2) (b % 2)) (sym (bit_xor-bitwise (a / 2) (b / 2)))
  where
    digit : (b : ℕ) → b ≡ b / 2 * 2 + b % 2
    digit b = omega arith

pub bit_and_lowest : (a b : ℕ) → bit_and a b ≡ bit_and (a / 2) (b / 2) * 2 + min (a % 2) (b % 2)
bit_and_lowest a b =
    bit_and-bitwise a b
    ∙ bitwise_lowest (λ b. 0) min a b (nothing (b % 2))
    ∙ ap (λ high. high * 2 + min (a % 2) (b % 2)) (sym (bit_and-bitwise (a / 2) (b / 2)))
  where
    nothing : (d : ℕ) → 0 ≡ 0 * 2 + min 0 d
    nothing d = omega arith

differ-small : (a b : ℕ) → a < 2 → b < 2 → differ a b < 2
differ-small zero b p q = q
differ-small (suc zero) zero p q = omega arith
differ-small (suc zero) (suc zero) p q = omega arith
differ-small (suc zero) (suc (suc b)) p q = absurd (omega arith)
differ-small (suc (suc a)) b p q = absurd (omega arith)

-- The lowest digit of a remainder stands apart from the others.
mod_double : (m x d : ℕ) → 0 < m → d < 2 → (x * 2 + d) % (m * 2) ≡ x % m * 2 + d
mod_double m x d pos lt =
    ap (λ y. y % (m * 2)) (shape (x / m) (x % m) (div-add-mod x m))
    ∙ mul-add-mod_self_left (m * 2) (x / m) (x % m * 2 + d)
    ∙ mod-eq_of_lt (omega (arith, mod-lt x pos))
  where
    shape : (q r : ℕ) → m * q + r ≡ x → x * 2 + d ≡ m * 2 * q + (r * 2 + d)
    shape q r e = grind arith

-- 2 ^ k
abbrev pub doubled : ℕ → ℕ
doubled zero = 1
doubled (suc k) = doubled k * 2

pub doubled_pos : (k : ℕ) → 0 < doubled k
doubled_pos zero = omega arith
doubled_pos (suc k) = omega (arith, doubled_pos k)

pub doubled-pow : (k : ℕ) → doubled k ≡ 2 ^ k
doubled-pow zero = refl
doubled-pow (suc k) = omega (arith, doubled-pow k)

pub doubled-add : (j k : ℕ) → doubled j * doubled k ≡ doubled (j + k)
doubled-add zero k = one_times (doubled k) ∙ ap doubled (zero_plus k)
  where
    one_times : (d : ℕ) → 1 * d ≡ d
    one_times d = omega arith

    zero_plus : (n : ℕ) → n ≡ 0 + n
    zero_plus n = omega arith
doubled-add (suc j) k =
    twice_first (doubled j) (doubled k)
    ∙ ap (λ d. d * 2) (doubled-add j k)
    ∙ ap doubled (suc_plus j k)
  where
    twice_first : (a b : ℕ) → a * 2 * b ≡ a * b * 2
    twice_first a b = grind arith

    suc_plus : (n m : ℕ) → suc (n + m) ≡ suc n + m
    suc_plus n m = omega arith

-- The lowest digits of an exclusive or are 0 where those of the numbers agree.
pub bit_xor-mod : (k a b : ℕ) → (bit_xor a b % doubled k ≡ 0) ↔ (a % doubled k ≡ b % doubled k)
bit_xor-mod zero a b = (λ h. omega arith, λ h. omega arith)
bit_xor-mod (suc k) a b =
    let x =
      mod_double (doubled k) (bit_xor (a / 2) (b / 2)) (differ (a % 2) (b % 2)) (doubled_pos k)
        (differ-small (a % 2) (b % 2) (omega arith) (omega arith)) in
    let y = mod_double (doubled k) (a / 2) (a % 2) (doubled_pos k) (omega arith) in
    let z = mod_double (doubled k) (b / 2) (b % 2) (doubled_pos k) (omega arith) in
    let high = bit_xor-mod k (a / 2) (b / 2) in
    assemble (ap (λ v. v % doubled (suc k)) (bit_xor_lowest a b) ∙ x)
      (ap (λ v. v % doubled (suc k)) (halves a) ∙ y) (ap (λ v. v % doubled (suc k)) (halves b) ∙ z)
      high
  where
    halves : (n : ℕ) → n ≡ n / 2 * 2 + n % 2
    halves n = omega arith

    assemble :
        {p q r x y z : ℕ}
        → r ≡ x * 2 + differ (a % 2) (b % 2)
        → p ≡ y * 2 + a % 2
        → q ≡ z * 2 + b % 2
        → (x ≡ 0) ↔ (y ≡ z)
        → (r ≡ 0) ↔ (p ≡ q)
    assemble hr hp hq (f, g) = (
      λ e.
          let low = digit_differ (a % 2) (b % 2) (omega arith) (omega arith) (omega arith) in
          let up = f (omega arith) in omega arith,
      λ e.
          let up = g (omega arith) in
          let low : a % 2 ≡ b % 2 = omega arith in
          let same = differ_self (a % 2) in
          let d : differ (a % 2) (b % 2) ≡ 0 = subst (λ c. differ (a % 2) c ≡ 0) low same in
          omega arith,
    )
