-- ===== src/Paths/Confined.antt =====
-- A path that is accepted lies under its directory.
use php_spx.Prelude.{
  take_all, append_assoc, append_nil, ℕ, ◌+◌, ◌-◌, ◌<◌, ◌≡◌, refl, sym, ap, subst, ◌∙◌, ◌⊎◌, inl,
  inr, Bool, true, false, Option, none, some, [], ◌∷◌, ◌++◌, if◌then◌else◌, ltb, leb, ==_iff,
  length, length-append, take, drop, get_elem?, take-append-drop, arith,
}
use php_spx.Prelude.Bytes.{Bytes, bytes_eq, eq_of_bytes_eq}
use php_spx.Network.{slash, starts_with}
use php_spx.Paths.{
  path_max, Flags, Opened, symlink, missing, opened, FileSystem, PathResult, resolved, is_directory,
  at_boundary, kind_allowed, under_base, unless_missing, of_opened, of_real, validate_path,
  Resolution, died, not_resolved, confined, printed, confine, confine_real, resolve_confined,
  text_of,
}

-- The directory itself, or what a separator parts from it.
abbrev pub Below : Bytes → Bytes → Type 0
Below base path = (path ≡ base) ⊎ ((rest : Bytes) × (path ≡ base ++ (slash ∷ rest)))

get_elem?-append : (a rest : Bytes) → get_elem? (a ++ rest) (length a) ≡ get_elem? rest 0
get_elem?-append [] [] = refl
get_elem?-append [] (c ∷ rest) = refl
get_elem?-append (x ∷ a) rest = get_elem?-append a rest

boundary-Below :
    (base rest : Bytes) → at_boundary (get_elem? rest 0) ≡ true → Below base (base ++ rest)
boundary-Below base [] h = inl (append_nil base)
boundary-Below base (c ∷ rest) h = inr (rest, ap (λ d. base ++ (d ∷ rest)) ((==_iff c slash).0 h))

prefix-Below :
    (base real : Bytes)
    → bytes_eq (take (length base) real) base ≡ true
    → at_boundary (get_elem? real (length base)) ≡ true
    → Below base real
prefix-Below base real h k =
    let tail = drop (length base) real in
    let whole : base ++ tail ≡ real =
      ap (λ a. a ++ tail) (sym (eq_of_bytes_eq (take (length base) real) base h))
      ∙ take-append-drop (length base) real in
    subst (Below base) whole (
      boundary-Below base tail (
        subst (λ o. at_boundary o ≡ true) (get_elem?-append base tail)
          (subst (λ r. at_boundary (get_elem? r (length base)) ≡ true) (sym whole) k)))

-- What an accepted path satisfies.
abbrev pub Outcome : (Bytes → Type 0) → PathResult → Type 0
Outcome P (resolved p) = P p
Outcome P r = Unit {0}

branches :
    (P : Bytes → Type 0) (b : Bool) (x y : PathResult)
    → (b ≡ true → Outcome P x)
    → (b ≡ false → Outcome P y)
    → Outcome P (if b then x else y)
branches P true x y p q = p refl
branches P false x y p q = q refl

module _ (fs : FileSystem) (flags : Flags) (size : ℕ) where
  -- The path is that of a file below the real path of the base, cut to the buffer.
  abbrev pub Confined : Bytes → Bytes → Type 0
  Confined base p =
      (base_real : Bytes) × (real : Bytes) × (fs.realpath base ≡ some base_real)
      × Below base_real real
      × (p ≡ take (size - 1) real)

  under_base-Confined :
      (base real : Bytes) (o : Option Bytes)
      → fs.realpath base ≡ o
      → Outcome (Confined base) (under_base fs flags size real o)
  under_base-Confined base real none e = _
  under_base-Confined base real (some base_real) e =
      branches (Confined base) (bytes_eq (take (length base_real) real) base_real) _ _
        (λ h.
          branches (Confined base) (at_boundary (get_elem? real (length base_real))) _ _
            (λ k.
              let held : Confined base (take (size - 1) real) =
                (base_real, real, e, prefix-Below base_real real h k, refl) in
              branches (Confined base) flags.must_exist _ _
                (λ m.
                  branches (Confined base) (kind_allowed fs flags size (fs.stat real)) _ _
                    (λ t. held) (λ t. _))
                (λ m. held))
            (λ k. _))
        (λ h. _)

  module _ (needed : flags.must_exist ≡ true) where
    unless_missing-Confined :
        (base full_path : Bytes) → Outcome (Confined base) (unless_missing fs flags size full_path)
    unless_missing-Confined base full_path =
        branches (Confined base) flags.must_exist _ _ (λ h. _)
          (λ h. absurd (clash (sym needed ∙ h)))
      where
        clash : true ≡ false → ⊥
        clash h = cc

    of_opened-Confined :
        (base full_path : Bytes) (o : Opened)
        → Outcome (Confined base) (of_opened fs flags size base full_path o)
    of_opened-Confined base full_path symlink = _
    of_opened-Confined base full_path missing = unless_missing-Confined base full_path
    of_opened-Confined base full_path (opened none) = _
    of_opened-Confined base full_path (opened (some real)) =
        under_base-Confined base real (fs.realpath base) refl

    of_real-Confined :
        (base full_path : Bytes) (o : Option Bytes)
        → Outcome (Confined base) (of_real fs flags size base full_path o)
    of_real-Confined base full_path none = unless_missing-Confined base full_path
    of_real-Confined base full_path (some real) =
        under_base-Confined base real (fs.realpath base) refl

    -- A path that is required to exist and is accepted is, cut to the buffer, that of the base
    -- directory or of something below it, all symbolic links resolved.
    pub validate_path-Confined :
        (path base : Bytes)
        → Outcome (Confined base) (validate_path fs flags size (some path) (some base))
    validate_path-Confined path base =
        branches (Confined base) (ltb size path_max) _ _ (λ h. _)
          (λ h.
            branches (Confined base) (is_directory (fs.stat base)) _ _
              (λ d.
                branches (Confined base) (leb path_max (length (base ++ (slash ∷ path)))) _ _
                  (λ l. _)
                  (λ l.
                    branches (Confined base) flags.allow_symlinks _ _
                      (λ a.
                        of_real-Confined base (base ++ (slash ∷ path))
                          (fs.realpath (base ++ (slash ∷ path))))
                      (λ a.
                        of_opened-Confined base (base ++ (slash ∷ path))
                          (fs.open_path flags.must_be_dir (base ++ (slash ∷ path))))))
              (λ d. _))

-- What the resolution of a confined path answers lies below the real path of the root.
abbrev pub Inside : (Bytes → Option Bytes) → Bytes → Resolution → Type 0
Inside realpath root died = Unit {0}
Inside realpath root not_resolved = Unit {0}
Inside realpath root (confined dst) =
    (root_real : Bytes) × (rest : Bytes) × (realpath root ≡ some root_real)
    × (dst ≡ root_real ++ (slash ∷ rest))

module _ (realpath : Bytes → Option Bytes)
    (bounded : (s p : Bytes) → realpath s ≡ some p → length p < path_max) where
  confine-Inside :
      (root dst : Bytes) (o : Option Bytes)
      → realpath root ≡ o
      → Inside realpath root (confine realpath dst o)
  confine-Inside root dst none e = _
  confine-Inside root dst (some root_real) e =
      either (starts_with dst (printed (path_max + 1) (root_real ++ (slash ∷ [])))) refl
    where
      whole : printed (path_max + 1) (root_real ++ (slash ∷ [])) ≡ root_real ++ (slash ∷ [])
      whole =
          take_all 4096 (root_real ++ (slash ∷ []))
            (omega (arith, bounded root root_real e, length-append root_real (slash ∷ [])))

      below :
          starts_with dst (root_real ++ (slash ∷ [])) ≡ true
          → (rest : Bytes) × (dst ≡ root_real ++ (slash ∷ rest))
      below h =
          let n = length (root_real ++ (slash ∷ [])) in
          (
            drop n dst,
            sym (take-append-drop n dst)
                ∙ ap (λ a. a ++ drop n dst)
                    (eq_of_bytes_eq (take n dst) (root_real ++ (slash ∷ [])) h)
                ∙ append_assoc root_real (slash ∷ []) (drop n dst),
          )

      either :
          (b : Bool)
          → starts_with dst (printed (path_max + 1) (root_real ++ (slash ∷ []))) ≡ b
          → Inside realpath root (if b then confined dst else not_resolved)
      either true h =
          let r = below (subst (λ p. starts_with dst p ≡ true) whole h) in (root_real, r.0, e, r.1)
      either false h = _

  -- With a realpath whose answers fit a path, what the resolution of a confined path answers lies below
  -- the real path of the root, whatever the relative path and the suffix.
  pub resolve_confined-Inside :
      (root relative : Bytes) (suffix : Option Bytes) (size : ℕ)
      → Inside realpath root (resolve_confined realpath root relative suffix size)
  resolve_confined-Inside root relative suffix size =
      on_size (ltb size path_max)
        (realpath (printed path_max (root ++ (relative ++ text_of suffix))))
    where
      on_size :
          (b : Bool) (o : Option Bytes)
          → Inside realpath root (if b then died else confine_real realpath root o)
      on_size true o = _
      on_size false none = _
      on_size false (some dst) = confine-Inside root dst (realpath root) refl
