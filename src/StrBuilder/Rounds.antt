-- ===== src/StrBuilder/Rounds.antt =====
-- How many rounds the loops over the digits of a number take (`spx_str_builder_append_long` and
-- `spx_str_builder_append_double` of src/spx_str_builder.c).
use php_spx.Prelude.{
  ℕ, zero, suc, ◌+◌, ◌/◌, ◌%◌, ◌<◌, ◌≡◌, refl, sym, ap, ◌&&◌, Option, none, some, ◌∷◌,
  if◌then◌else◌, if_true, ltb, leb, ◌==◌, ==_iff, length, arith,
}
use php_spx.Prelude.Bytes.{Bytes}
use php_spx.StrBuilder.{put, then_text, digits, point, is_nil, decimals}
use php_spx.StrBuilder.Digits.{ten}

then_text-congr :
    (o : Option Bytes) (f g : Bytes → Option Bytes)
    → ((t : Bytes) → f t ≡ g t)
    → then_text o f ≡ then_text o g
then_text-congr none f g h = refl
then_text-congr (some t) f g h = h t

ended : {A : Type 0} (v : ℕ) (x y : A) → v < 1 → x ≡ (if v == 0 then x else y)
ended v x y h = sym (if_true (v == 0) x y ((==_iff v 0).1 (omega arith)))

digits-rounds :
    (f g room v : ℕ) (text : Bytes)
    → v < ten f
    → v < ten g
    → digits f room v text ≡ digits g room v text
digits-rounds zero zero room v text p q = refl
digits-rounds zero (suc g) room v text p q = ended v (some text) _ p
digits-rounds (suc f) zero room v text p q = sym (ended v (some text) _ q)
digits-rounds (suc f) (suc g) room v text p q =
    ap (λ o. if v == 0 then some text else o)
      (then_text-congr (put room (v % 10 + 48) text) _ _
        (λ t. digits-rounds f g room (v / 10) t (omega arith) (omega arith)))

decimals-rounds :
    (f g room nb_dec n v : ℕ) (text : Bytes)
    → v < ten f
    → v < ten g
    → decimals f room nb_dec n v text ≡ decimals g room nb_dec n v text
decimals-rounds zero zero room nb_dec n v text p q = refl
decimals-rounds zero (suc g) room nb_dec n v text p q = ended v (some text) _ p
decimals-rounds (suc f) zero room nb_dec n v text p q = sym (ended v (some text) _ q)
decimals-rounds (suc f) (suc g) room nb_dec n v text p q =
    let drop = v % 10 == 0 && is_nil text && leb (suc n) nb_dec in
    let rest =
      then_text-congr (point room (suc n == nb_dec) ((v % 10 + 48) ∷ text)) _ _
        (λ t. decimals-rounds f g room nb_dec (suc n) (v / 10) t (omega arith) (omega arith)) in
    let skip = decimals-rounds f g room nb_dec (suc n) (v / 10) text (omega arith) (omega arith) in
    λ i.
      if v == 0
      then some text
      else (if ltb room (length text + 1) then none else (if drop then skip i else rest i))

grows : (k more : ℕ) → ten k < ten (k + more) + 1
grows k zero = let e : k ≡ k + 0 = omega arith in omega (arith, ap ten e)
grows k (suc more) =
    let e : suc (k + more) ≡ k + suc more = omega arith in omega (arith, ap ten e, grows k more)

below_ten : (v : ℕ) → v < ten v
below_ten zero = omega arith
below_ten (suc v) = omega (arith, below_ten v)

-- For a number of at most k digits the loops have ended by their test after k rounds: with however
-- many more, and with the rounds that the appends take, which are the number itself, the text is the
-- same.
pub rounds-enough :
    (k more room nb_dec v : ℕ) (text : Bytes)
    → v < ten k
    → (digits (k + more) room v text ≡ digits k room v text)
      × (digits v room v text ≡ digits k room v text)
      × (decimals (k + more) room nb_dec 0 v text ≡ decimals k room nb_dec 0 v text)
      × (decimals v room nb_dec 0 v text ≡ decimals k room nb_dec 0 v text)
rounds-enough k more room nb_dec v text h =
    let longer : v < ten (k + more) = omega (arith, grows k more) in
    (
      digits-rounds (k + more) k room v text longer h,
      digits-rounds v k room v text (below_ten v) h,
      decimals-rounds (k + more) k room nb_dec 0 v text longer h,
      decimals-rounds v k room nb_dec 0 v text (below_ten v) h,
    )
