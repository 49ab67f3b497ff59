-- ===== src/Network/Mask.antt =====
-- Addresses under the mask of a network.
use php_spx.Prelude.{
  ℕ, zero, suc, ◌+◌, ◌-◌, ◌*◌, ◌/◌, ◌^◌, ◌<◌, ◌≡◌, refl, sym, ap, subst, ◌∙◌, ◌↔◌, arith,
}
use Prim.Native.Nat.{bit_and}
use native.Mathlib.Nat.{div-div-eq-div-mul, mul-div_cancel}
use php_spx.Prelude.Bits.{doubled, doubled_pos, doubled-pow, doubled-add, bit_and_lowest}
use php_spx.Network.{mask_of}

-- A mask of ones keeps a number below the next power of 2.
bit_and-ones : (j x : ℕ) → x < doubled j → bit_and x (doubled j - 1) ≡ x
bit_and-ones zero x h = subst (λ y. bit_and y 0 ≡ y) (zero_is x h) refl
  where
    zero_is : (y : ℕ) → y < 1 → 0 ≡ y
    zero_is y h = omega arith
bit_and-ones (suc j) x h =
    let ih = bit_and-ones j (x / 2) (omega arith) in
    let e : (doubled (suc j) - 1) / 2 ≡ doubled j - 1 = omega arith in
    let ih' = subst (λ m. bit_and (x / 2) m ≡ x / 2) (sym e) ih in
    omega (arith, bit_and_lowest x (doubled (suc j) - 1), ih')

-- A mask with k zeros below cuts the lowest k digits.
bit_and-mask :
    (j k x : ℕ)
    → x < doubled j * doubled k
    → bit_and x ((doubled j - 1) * doubled k) ≡ x / doubled k * doubled k
bit_and-mask j zero x h =
    ap (bit_and x) (one (doubled j - 1)) ∙ bit_and-ones j x (omega arith) ∙ whole x
  where
    one : (m : ℕ) → m * 1 ≡ m
    one m = omega arith

    whole : (y : ℕ) → y ≡ y / 1 * 1
    whole y = omega arith
bit_and-mask j (suc k) x h =
    ap (bit_and x) (assoc (doubled j - 1) (doubled k))
    ∙ shift ((doubled j - 1) * doubled k) (x / 2 / doubled k) (doubled k)
        (bit_and-mask j k (x / 2) (half (doubled j) (doubled k) h))
    ∙ ap (λ q. q * (doubled k * 2)) (quotient (doubled k))
  where
    assoc : (a b : ℕ) → a * (b * 2) ≡ a * b * 2
    assoc a b = grind arith

    half : (a b : ℕ) → x < a * (b * 2) → x / 2 < a * b
    half a b h = below (a * b) (subst (λ m. x < m) (assoc a b) h)
      where
        below : (m : ℕ) → x < m * 2 → x / 2 < m
        below m h = omega arith

    quotient : (m : ℕ) → x / 2 / m ≡ x / (m * 2)
    quotient m = div-div-eq-div-mul x 2 m ∙ ap (λ n. x / n) (swap m)
      where
        swap : (m : ℕ) → 2 * m ≡ m * 2
        swap m = omega arith

    shift : (m q d : ℕ) → bit_and (x / 2) m ≡ q * d → bit_and x (m * 2) ≡ q * (d * 2)
    shift m q d e =
        omega (arith, bit_and_lowest x (m * 2), ap (bit_and (x / 2)) (back m)) ∙ sym (assoc q d)
      where
        back : (m : ℕ) → m * 2 / 2 ≡ m
        back m = omega arith

one_less : (a d : ℕ) → (a - 1) * d ≡ a * d - d
one_less zero d = omega arith
one_less (suc a) d = grind arith

-- Under the mask of some bits, two addresses of 32 bits are the same exactly where they have the
-- same network, which is what is left of them without the last `32 - bits` digits.
pub masked_iff :
    (bits a t : ℕ)
    → bits < 32
    → a < 2 ^ 32
    → t < 2 ^ 32
    → (bit_and a (mask_of bits) ≡ bit_and t (mask_of bits))
      ↔ (a / 2 ^ (32 - bits) ≡ t / 2 ^ (32 - bits))
masked_iff bits a t hb ha ht = (
  λ e.
      cancel (2 ^ (32 - bits)) (subst (λ d. 0 < d) power (doubled_pos (32 - bits)))
        (sym (masked a ha) ∙ e ∙ masked t ht),
  λ e. masked a ha ∙ ap (λ q. q * 2 ^ (32 - bits)) e ∙ sym (masked t ht),
)
  where
    power : doubled (32 - bits) ≡ 2 ^ (32 - bits)
    power = doubled-pow (32 - bits)

    width : doubled bits * doubled (32 - bits) ≡ 2 ^ 32
    width = doubled-add bits (32 - bits) ∙ ap doubled (together bits hb)
      where
        together : (n : ℕ) → n < 32 → n + (32 - n) ≡ 32
        together n h = omega arith

    mask : mask_of bits ≡ (doubled bits - 1) * doubled (32 - bits)
    mask =
        ap (λ d. 2 ^ 32 - d) (sym power)
        ∙ ap (λ w. w - doubled (32 - bits)) (sym width)
        ∙ sym (one_less (doubled bits) (doubled (32 - bits)))

    masked : (x : ℕ) → x < 2 ^ 32 → bit_and x (mask_of bits) ≡ x / 2 ^ (32 - bits) * 2 ^ (32 - bits)
    masked x h =
        ap (bit_and x) mask
        ∙ bit_and-mask bits (32 - bits) x (subst (λ w. x < w) (sym width) h)
        ∙ ap (λ d. x / d * d) power

    cancel : (d : ℕ) → 0 < d → {p q : ℕ} → p * d ≡ q * d → p ≡ q
    cancel d above {p} {q} e =
        sym (mul-div_cancel p above) ∙ ap (λ v. v / d) e ∙ mul-div_cancel q above
