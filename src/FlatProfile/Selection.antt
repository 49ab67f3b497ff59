-- ===== src/FlatProfile/Selection.antt =====
-- The entries that the flat profile shows.
use php_spx.Prelude.{
  ℕ, suc, ◌<◌, ◌≡◌, refl, sym, ap, subst, ◌∙◌, ◌⊎◌, inl, inr, Bool, true, false, List, [], ◌∷◌,
  ◌++◌, if◌then◌else◌, ltb, take, drop, length, min, arith, length-take, take-append-drop, if_true,
  if_false,
}
use php_spx.Prelude.Int.{ℤ, pos, negsuc, sub_ℕ, ltb_ℤ}
use php_spx.FuncTable.{Entry}
use php_spx.FlatProfile.{Order, high, low, is_after, place, place_all, top_entries}

-- The entry is in the list.
abbrev pub In : Entry → List Entry → Type 0
In e [] = ⊥
In e (x ∷ xs) = (x ≡ e) ⊎ In e xs

after_values : ℤ → ℤ → ℕ → ℤ → ℤ → ℕ → Bool
after_values ha la ia hb lb ib = ltb_ℤ (pos 0) (
    if ltb_ℤ hb ha
    then negsuc 0
    else (if ltb_ℤ ha hb
        then pos 1
        else (if ltb_ℤ lb la then negsuc 0 else (if ltb_ℤ la lb then pos 1 else sub_ℕ ia ib))))

after_asym :
    (ha la hb lb : ℤ) (ia ib : ℕ)
    → after_values ha la ia hb lb ib ≡ true
    → after_values hb lb ib ha la ia ≡ false
unfolding after_values
after_asym ha la hb lb ia ib h = ground arith

after_irrefl : (ha la : ℤ) (ia : ℕ) → after_values ha la ia ha la ia ≡ false
unfolding after_values
after_irrefl ha la ia = ground arith

abbrev shown_of : ℕ → List Entry → ℕ
shown_of limit entries = if ltb (length entries) limit then length entries else limit

least : (limit n : ℕ) → min (if ltb n limit then n else limit) n ≡ min limit n
least limit n = ground arith

module _ (o : Order) where
  is_after_asym : (a b : Entry) → is_after o a b ≡ true → is_after o b a ≡ false
  unfolding after_values
  is_after_asym a b h = after_asym (high o a) (low o a) (high o b) (low o b) a.idx b.idx h

  is_after_irrefl : (a : Entry) → is_after o a a ≡ false
  unfolding after_values
  is_after_irrefl a = after_irrefl (high o a) (low o a) a.idx

  -- Every other entry of a list comes after this one.
  abbrev pub First : Entry → List Entry → Type 0
  First e [] = Unit {0}
  First e (x ∷ xs) = ((x ≡ e) ⊎ (is_after o x e ≡ true)) × First e xs

  stays : (e x : Entry) → (x ≡ e) ⊎ (is_after o x e ≡ true) → is_after o e x ≡ false
  stays e x (inl same) = subst (λ y. is_after o e y ≡ false) (sym same) (is_after_irrefl e)
  stays e x (inr h) = is_after_asym x e h

  length-place : (c : Entry) (top : List Entry) → length (place o c top) ≡ length top
  length-place c [] = refl
  length-place c (x ∷ xs) = either (is_after o x c) (length-place c xs)
    where
      either :
          (b : Bool)
          → length (place o c xs) ≡ length xs
          → length (if b then c ∷ xs else x ∷ place o c xs) ≡ suc (length xs)
      either true ih = refl
      either false ih = ap suc ih

  length-place_all : (cs top : List Entry) → length (place_all o cs top) ≡ length top
  length-place_all [] top = refl
  length-place_all (c ∷ cs) top = length-place_all cs (place o c top) ∙ length-place c top

  module _ (e : Entry) where
    place-In :
        (c : Entry) (top : List Entry) → is_after o e c ≡ false → In e top → In e (place o c top)
    place-In c [] stay h = h
    place-In c (x ∷ xs) stay h = either (place-In c xs stay) (is_after o x c) refl h
      where
        either :
            (In e xs → In e (place o c xs))
            → (b : Bool) → is_after o x c ≡ b
            → (x ≡ e) ⊎ In e xs
            → In e (if b then c ∷ xs else x ∷ place o c xs)
        either ih true eq (inl same) =
            absurd (clash (sym (subst (λ y. is_after o y c ≡ true) same eq) ∙ stay))
          where
            clash : true ≡ false → ⊥
            clash h = cc
        either ih true eq (inr h) = inr h
        either ih false eq (inl same) = inl same
        either ih false eq (inr h) = inr (ih h)

    place-enters : (x : Entry) (xs : List Entry) → First e (x ∷ xs) → In e (place o e (x ∷ xs))
    place-enters x xs (inl same, rest) =
        subst (In e)
          (sym (
            if_false (is_after o x e) (e ∷ xs) (x ∷ place o e xs)
              (subst (λ y. is_after o y e ≡ false) (sym same) (is_after_irrefl e))))
          (inl same)
    place-enters x xs (inr h, rest) =
        subst (In e) (sym (if_true (is_after o x e) (e ∷ xs) (x ∷ place o e xs) h)) (inl refl)

    place-First :
        (c : Entry) (top : List Entry)
        → (c ≡ e) ⊎ (is_after o c e ≡ true)
        → First e top
        → First e (place o c top)
    place-First c [] h f = f
    place-First c (x ∷ xs) h (fx, fs) = either (is_after o x c) (place-First c xs h fs)
      where
        either :
            (b : Bool) → First e (place o c xs) → First e (if b then c ∷ xs else x ∷ place o c xs)
        either true ih = (h, fs)
        either false ih = (fx, ih)

    place_all-In :
        (cs top : List Entry)
        → 0 < length top
        → First e cs
        → First e top
        → In e top ⊎ In e cs
        → In e (place_all o cs top)
    place_all-In [] top above fc ft (inl h) = h
    place_all-In [] top above fc ft (inr h) = absurd h
    place_all-In (c ∷ cs) top above (fc, fcs) ft h =
        place_all-In cs (place o c top) (subst (λ n. 0 < n) (sym (length-place c top)) above) fcs
          (place-First c top fc ft) (next top above ft h)
      where
        next :
            (top : List Entry)
            → 0 < length top
            → First e top
            → In e top ⊎ ((c ≡ e) ⊎ In e cs)
            → In e (place o c top) ⊎ In e cs
        next top above ft (inl h) = inl (place-In c top (stays e c fc) h)
        next top above ft (inr (inr h)) = inr h
        next [] above ft (inr (inl same)) = absurd (omega arith)
        next (x ∷ xs) above ft (inr (inl same)) =
            inl (subst (λ y. In e (place o y (x ∷ xs))) (sym same) (place-enters x xs ft))

    In-split : (xs ys : List Entry) → In e (xs ++ ys) → In e xs ⊎ In e ys
    In-split [] ys h = inr h
    In-split (x ∷ xs) ys (inl same) = inl (inl same)
    In-split (x ∷ xs) ys (inr h) = elim (In-split xs ys h) [ inl p ↦ inl (inr p) | inr q ↦ inr q ]

    First-split : (xs ys : List Entry) → First e (xs ++ ys) → First e xs × First e ys
    First-split [] ys h = (_, h)
    First-split (x ∷ xs) ys (h, hs) = let r = First-split xs ys hs in ((h, r.0), r.1)

    -- The entry that every other comes after is shown, and as many entries as the limit allows.
    pub top_entries-First :
        (limit : ℕ) (entries : List Entry)
        → 0 < limit
        → First e entries
        → In e entries
        → In e (top_entries o limit entries)
          × (length (top_entries o limit entries) ≡ min limit (length entries))
    top_entries-First limit entries above f h =
        let shown = shown_of limit entries in
        let split = take-append-drop shown entries in
        let fs =
          First-split (take shown entries) (drop shown entries) (subst (First e) (sym split) f) in
        let hs = In-split (take shown entries) (drop shown entries) (subst (In e) (sym split) h) in
        (
          place_all-In (drop shown entries) (take shown entries)
              (subst (λ n. 0 < n) (sym taken) (some_shown entries h)) fs.1 fs.0 hs,
          length-place_all (drop shown entries) (take shown entries) ∙ taken,
        )
      where
        taken : length (take (shown_of limit entries) entries) ≡ min limit (length entries)
        taken = length-take (shown_of limit entries) entries ∙ least limit (length entries)

        some_shown : (xs : List Entry) → In e xs → 0 < min limit (length xs)
        some_shown [] h = absurd h
        some_shown (x ∷ xs) h = omega arith
