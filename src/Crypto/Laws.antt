-- ===== src/Crypto/Laws.antt =====
-- When the comparison of strings answers that they are equal.
use php_spx.Prelude.{
  ℕ, zero, suc, ◌%◌, ◌≤◌, ◌<◌, ◌≡◌, refl, sym, ap, subst, ◌∙◌, ◌↔◌, [], ◌∷◌, if◌then◌else◌, ltb,
  length, take, arith,
}
use Prim.Native.Nat.{bit_or, bit_xor}
use php_spx.Prelude.Bytes.{Bytes}
use php_spx.Prelude.Bits.{bit_or-zero, bit_xor-zero, bit_xor-mod}
use php_spx.Crypto.{compare_from, compare_bytes}

take-length : (a : Bytes) → take (length a) a ≡ a
take-length [] = refl
take-length (x ∷ a) = ap (◌∷◌ x) (take-length a)

-- A comparison of bytes that are there answers 0 where they agree, and only there.
compare_from-equal :
    (len result : ℕ) (a b : Bytes)
    → len ≤ length a
    → len ≤ length b
    → compare_from result a b len ≡ 0
    → (result ≡ 0) × (take len a ≡ take len b)
compare_from-equal zero result a b p q h = (h, refl)
compare_from-equal (suc len) result [] b p q h = absurd (omega arith)
compare_from-equal (suc len) result (x ∷ a) [] p q h = absurd (omega arith)
compare_from-equal (suc len) result (x ∷ a) (y ∷ b) p q h =
    let ih =
      compare_from-equal len (bit_or result (bit_xor x y)) a b (omega arith) (omega arith) h in
    let both = bit_or-zero result (bit_xor x y) ih.0 in
    (both.0, ap (λ v. v ∷ take len a) ((bit_xor-zero x y).0 both.1) ∙ ap (◌∷◌ y) ih.1)

compare_from-same : (len : ℕ) (a b : Bytes) → take len a ≡ take len b → compare_from 0 a b len ≡ 0
compare_from-same zero a b e = refl
compare_from-same (suc len) [] b e = refl
compare_from-same (suc len) (x ∷ a) [] e = refl
compare_from-same (suc len) (x ∷ a) (y ∷ b) e =
    subst (λ r. compare_from r a b len ≡ 0) (sym (ap (bit_or 0) ((bit_xor-zero x y).1 head)))
      (compare_from-same len a b tail)
  where
    head : x ≡ y
    head = cc

    tail : take len a ≡ take len b
    tail = cc

abbrev pub shorter : Bytes → Bytes → ℕ
shorter a b = if ltb (length a) (length b) then length a else length b

shorter_le : (a b : Bytes) → (shorter a b ≤ length a) × (shorter a b ≤ length b)
shorter_le a b = ground arith

-- Two strings compare as equal exactly where they agree on the length of the shorter one and their
-- lengths agree in the lowest byte.
pub compare_bytes_iff :
    (a b : Bytes)
    → (compare_bytes a b ≡ 0)
      ↔ ((length a % 256 ≡ length b % 256) × (take (shorter a b) a ≡ take (shorter a b) b))
compare_bytes_iff a b = (
  λ h.
      let both = bit_or-zero (compare_from 0 a b (shorter a b)) _ h in
      let le = shorter_le a b in
      (
        (bit_xor-mod 8 (length a) (length b)).0 both.1,
        (compare_from-equal (shorter a b) 0 a b le.0 le.1 both.0).1,
      ),
  λ (lens, same).
      ap (λ r. bit_or r (bit_xor (length a) (length b) % 256))
        (compare_from-same (shorter a b) a b same)
      ∙ ap (bit_or 0) ((bit_xor-mod 8 (length a) (length b)).1 lens),
)

-- Two strings of fewer than 256 bytes compare as equal exactly where they are the same.
pub compare_bytes-exact :
    (a b : Bytes) → length a < 256 → length b < 256 → (compare_bytes a b ≡ 0) ↔ (a ≡ b)
compare_bytes-exact a b p q = (
  λ h.
      let r = (compare_bytes_iff a b).0 h in
      let le = shorter_le a b in
      let lens : length a ≡ length b = omega (arith, r.0) in
      sym (cut a (ground arith)) ∙ r.1 ∙ cut b (ground arith),
  λ e. subst (λ c. compare_bytes a c ≡ 0) e ((compare_bytes_iff a a).1 (refl, refl)),
)
  where
    cut : (c : Bytes) → shorter a b ≡ length c → take (shorter a b) c ≡ c
    cut c e = ap (λ n. take n c) e ∙ take-length c
