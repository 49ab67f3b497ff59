-- ===== src/Network/Subnet.antt =====
-- What a match of an address with a target means.
use php_spx.Prelude.{
  ℕ, suc, ◌-◌, ◌/◌, ◌^◌, ◌≤◌, ◌<◌, ◌≡◌, refl, sym, ap, subst, ◌∙◌, ◌↔◌, ◌⊎◌, inl, inr, Bool, true,
  false, ◌&&◌, ◌||◌, Option, none, some, [], ◌∷◌, leb, length, take, drop, arith, Bool-cases,
  if_true, if_false, ==_iff,
}
use php_spx.Prelude.Bytes.{Bytes, bytes_eq, eq_of_bytes_eq, bytes_eq_refl}
use php_spx.Prelude.Int.{ℤ, pos, negsuc}
use php_spx.Network.{index_of, slash, star, mask_bits, same_subnet, subnet_match, ip_match}
use php_spx.Network.Mask.{masked_iff}

-- What a target stands for: every address, itself, or the addresses of a network of some bits,
-- where the text of the target has the lengths that are accepted.
pub data Covers (inet_addr : Bytes → Option ℕ) (strtol : Bytes → ℤ) (ip target : Bytes)
    : Type 0 where
  every : target ≡ star ∷ [] → Covers inet_addr strtol ip target
  itself : target ≡ ip → Covers inet_addr strtol ip target
  network :
      (slash_pos bits address base : ℕ)
      → index_of slash target ≡ some slash_pos
      → (7 ≤ slash_pos) × (slash_pos ≤ 15)
      → (2 ≤ length target - slash_pos) × (length target - slash_pos ≤ 3)
      → strtol (drop (suc slash_pos) target) ≡ pos bits
      → (1 ≤ bits) × (bits ≤ 31)
      → inet_addr (take slash_pos target) ≡ some base
      → inet_addr ip ≡ some address
      → address / 2 ^ (32 - bits) ≡ base / 2 ^ (32 - bits)
      → Covers inet_addr strtol ip target

or_cases : (a b : Bool) → (a || b) ≡ true → (a ≡ true) ⊎ (b ≡ true)
or_cases true b h = inl refl
or_cases false b h = inr h

or_left : (a b : Bool) → a ≡ true → (a || b) ≡ true
or_left a b h = ground arith

or_right : (a b : Bool) → b ≡ true → (a || b) ≡ true
or_right a b h = ground arith

and_both : (a b : Bool) → (a && b) ≡ true → (a ≡ true) × (b ≡ true)
and_both true b h = (refl, h)
and_both false b h = cc

and_true : (a b : Bool) → a ≡ true → b ≡ true → (a && b) ≡ true
and_true a b p q = ground arith

between : (a n b : ℕ) → (leb a n && leb n b) ≡ true → (a ≤ n) × (n ≤ b)
between a n b h = ground arith

between_true : (a n b : ℕ) → a ≤ n → n ≤ b → (leb a n && leb n b) ≡ true
between_true a n b p q = ground arith

module _ (inet_addr : Bytes → Option ℕ) (strtol : Bytes → ℤ) where
  -- The parser of addresses answers numbers of 32 bits.
  abbrev pub Answers32 : Type 0
  Answers32 = (s : Bytes) (a : ℕ) → inet_addr s ≡ some a → a < 2 ^ 32

  module _ (bounded : Answers32) (ip target : Bytes) where
    abbrev text : ℕ → Bytes
    text slash_pos = drop (suc slash_pos) target

    abbrev spot : ℕ → Bool
    spot slash_pos = leb 7 slash_pos && leb slash_pos 15

    abbrev span : ℕ → Bool
    span slash_pos = leb 2 (length target - slash_pos) && leb (length target - slash_pos) 3

    in_network :
        (slash_pos : ℕ)
        → index_of slash target ≡ some slash_pos
        → (7 ≤ slash_pos) × (slash_pos ≤ 15)
        → (2 ≤ length target - slash_pos) × (length target - slash_pos ≤ 3)
        → (z : ℤ) → strtol (text slash_pos) ≡ z
        → (base address : Option ℕ) → inet_addr (take slash_pos target) ≡ base
        → inet_addr ip ≡ address
        → same_subnet inet_addr strtol (mask_bits z) base address ≡ true
        → Covers inet_addr strtol ip target
    in_network p ep hp hl (negsuc n) ez base address eb ea h = cc
    in_network p ep hp hl (pos n) ez base address eb ea h =
        elim (Bool-cases (leb 1 n && leb n 31)) [
          | inl e ↦ accepted base address eb ea (between 1 n 31 e) (
              subst (λ o. same_subnet inet_addr strtol o base address ≡ true)
                (if_true _ (some n) none e) h)
          | inr e ↦ absurd (
              refused (
                subst (λ o. same_subnet inet_addr strtol o base address ≡ true)
                  (if_false _ (some n) none e) h))
        ]
      where
        refused : false ≡ true → ⊥
        refused e = cc

        accepted :
            (base address : Option ℕ)
            → inet_addr (take p target) ≡ base
            → inet_addr ip ≡ address
            → (1 ≤ n) × (n ≤ 31)
            → same_subnet inet_addr strtol (some n) base address ≡ true
            → Covers inet_addr strtol ip target
        accepted none address eb ea hn h = cc
        accepted (some b) none eb ea hn h = cc
        accepted (some b) (some a) eb ea hn h = network p n a b ep hp hl ez hn eb ea (
            (masked_iff n a b (omega arith) (bounded ip a ea) (bounded (take p target) b eb)).0
              ((==_iff _ _).0 h))

    subnet-Covers :
        (o : Option ℕ)
        → index_of slash target ≡ o
        → subnet_match inet_addr strtol ip target o ≡ true
        → Covers inet_addr strtol ip target
    subnet-Covers none e h = cc
    subnet-Covers (some p) e h =
        let all = and_both (spot p && span p) _ h in
        let sizes = and_both (spot p) (span p) all.0 in
        in_network p e (between 7 p 15 sizes.0) (between 2 (length target - p) 3 sizes.1)
          (strtol (text p)) refl (inet_addr (take p target)) (inet_addr ip) refl refl all.1

    Covers-match :
        Covers inet_addr strtol ip target → ip_match inet_addr strtol (some ip) (some target) ≡ true
    Covers-match (every e) = or_left (bytes_eq target (star ∷ []) || bytes_eq target ip) _ (
        or_left (bytes_eq target (star ∷ [])) _
          (subst (λ t. bytes_eq t (star ∷ []) ≡ true) (sym e) (bytes_eq_refl (star ∷ []))))
    Covers-match (itself e) = or_left (bytes_eq target (star ∷ []) || bytes_eq target ip) _ (
        or_right (bytes_eq target (star ∷ [])) _
          (subst (λ t. bytes_eq t ip ≡ true) (sym e) (bytes_eq_refl ip)))
    Covers-match (network p n a b ep (p1, p2) (l1, l2) ez (n1, n2) eb ea same) =
        or_right (bytes_eq target (star ∷ []) || bytes_eq target ip) _ (
          subst (λ o. subnet_match inet_addr strtol ip target o ≡ true) (sym ep)
            (and_true _ _
              (and_true _ _ (between_true 7 p 15 p1 p2)
                (between_true 2 (length target - p) 3 l1 l2))
              (subst
                (λ o.
                  same_subnet inet_addr strtol o (inet_addr (take p target)) (inet_addr ip) ≡ true)
                (sym (ap mask_bits ez ∙ if_true _ (some n) none (between_true 1 n 31 n1 n2)))
                (subst (λ o. same_subnet inet_addr strtol (some n) o (inet_addr ip) ≡ true) (sym eb)
                  (subst (λ o. same_subnet inet_addr strtol (some n) (some b) o ≡ true) (sym ea)
                    agree)))))
      where
        agree : same_subnet inet_addr strtol (some n) (some b) (some a) ≡ true
        agree = (==_iff _ _).1 (
            (masked_iff n a b (omega arith) (bounded ip a ea) (bounded (take p target) b eb)).1
              same)

    -- An address matches a target exactly where the target covers it.
    pub ip_match_iff :
        (ip_match inet_addr strtol (some ip) (some target) ≡ true)
        ↔ Covers inet_addr strtol ip target
    ip_match_iff = (
      λ h. elim (or_cases (bytes_eq target (star ∷ []) || bytes_eq target ip) _ h) [
        | inl k ↦ elim (or_cases (bytes_eq target (star ∷ [])) (bytes_eq target ip) k) [
          | inl e ↦ every (eq_of_bytes_eq target (star ∷ []) e)
          | inr e ↦ itself (eq_of_bytes_eq target ip e)
        ]
        | inr e ↦ subnet-Covers (index_of slash target) refl e
      ],
      Covers-match,
    )
