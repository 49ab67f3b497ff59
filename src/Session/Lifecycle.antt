-- ===== src/Session/Lifecycle.antt =====
-- The life of a session of src/spx_session.c.
use php_spx.Prelude.{
  ℕ, ◌+◌, ◌≡◌, refl, sym, ap, subst, Bool, true, false, List, [], ◌∷◌, Option, none, some, arith,
  ltb, Bool-cases, inl, inr, if_true, if_false,
}
use php_spx.Session.{
  Config, Profiler, tracer, sampler, Session, Answers, Outcome, success, failure, create, profilers,
  reporters, cleanup, wrap, attach, with_reporter, report_or_fail, start, stop, destroy,
}

-- Whether both pointers are set, or neither is.
abbrev pub Owns : Bool → Option Profiler → Option ℕ → Type 0
Owns true (some p) (some r) = Unit {0}
Owns false none none = Unit {0}
Owns _ _ _ = ⊥

-- A session owns a profiler and a reporter while it is active and nothing otherwise, and every
-- object it made is owned or destroyed.
pub record IsValid (s : Session) : Type 0 where
  pub owns : Owns s.is_active s.profiler s.reporter
  pub counted : s.made ≡ s.destroyed + profilers s.profiler + reporters s.reporter

-- The outcome tells whether the session is active.
abbrev Tells : Outcome → Bool → Type 0
Tells success b = b ≡ true
Tells (failure e) b = b ≡ false

abbrev pub Starts : Outcome × Session → Type 0
Starts (o, s) = Tells o s.is_active × IsValid s

-- What the cleanup leaves of a session that is not active.
cleanup-IsValid :
    (s : Session)
    → s.is_active ≡ false
    → s.made ≡ s.destroyed + profilers s.profiler + reporters s.reporter
    → IsValid (cleanup s)
cleanup-IsValid s off made = record {
  owns = subst (λ b. Owns b none none) (sym off) tt;
  counted = omega arith;
}

module _ (a : Answers) (s : Session) (r : ℕ) (reporter : s.reporter ≡ some r) where
  wrap-Starts :
      s.profiler ≡ some tracer
      → s.is_active ≡ false
      → s.made ≡ s.destroyed + 2
      → Starts (wrap a tracer s)
  wrap-Starts profiler off made = elim (Bool-cases (ltb 0 s.config.sampling_period)) [
    | inl sampled ↦
        subst Starts (sym (if_true (ltb 0 s.config.sampling_period) _ _ sampled))
          (elim (Bool-cases a.sampler_made) [
            | inl ok ↦ subst Starts (sym (if_true a.sampler_made _ _ ok)) (
              refl,
              record {
                owns = subst (Owns true (some (sampler tracer))) (sym reporter) tt;
                counted = (let e = one in let e' = two in omega arith);
              },
            )
            | inr failed ↦
                subst Starts (sym (if_false a.sampler_made _ _ failed))
                  (off, cleanup-IsValid s off (let e = one in let e' = two in omega arith))
          ])
    | inr unsampled ↦ subst Starts (sym (if_false (ltb 0 s.config.sampling_period) _ _ unsampled)) (
      refl,
      record {
        owns =
            subst (Owns true s.profiler) (sym reporter)
              (subst (λ p. Owns true p (some r)) (sym profiler) tt);
        counted = (let e = one in let e' = two in omega arith);
      },
    )
  ]
    where
      one : reporters s.reporter ≡ 1
      one = ap reporters reporter

      two : profilers s.profiler ≡ profilers (some tracer)
      two = ap profilers profiler

attach-Starts :
    (a : Answers) (s : Session) (r : ℕ)
    → s.reporter ≡ some r
    → s.profiler ≡ none
    → s.is_active ≡ false
    → s.made ≡ s.destroyed + 1
    → Starts (attach a s)
attach-Starts a s r reporter profiler off made = elim (Bool-cases a.tracer_made) [
  | inl ok ↦ subst Starts (sym (if_true a.tracer_made _ _ ok)) (
      wrap-Starts a (record s { profiler = some tracer; made = s.made + 1 }) r reporter refl off
        (omega arith))
  | inr failed ↦
      subst Starts (sym (if_false a.tracer_made _ _ failed))
        (off, cleanup-IsValid s off (let e = one in let e' = none_yet in omega arith))
]
  where
    one : reporters s.reporter ≡ 1
    one = ap reporters reporter

    none_yet : profilers s.profiler ≡ 0
    none_yet = ap profilers profiler

-- A valid session that is not active owns nothing.
Owns-nothing :
    (b : Bool) (p : Option Profiler) (r : Option ℕ)
    → b ≡ false
    → Owns b p r
    → (p ≡ none) × (r ≡ none)
Owns-nothing b none none h o = (refl, refl)
Owns-nothing true none (some r) h o = absurd o
Owns-nothing false none (some r) h o = absurd o
Owns-nothing true (some p) none h o = absurd o
Owns-nothing false (some p) none h o = absurd o
Owns-nothing true (some p) (some r) h o = absurd (cc)
Owns-nothing false (some p) (some r) h o = absurd o

-- `spx_session_start` on a valid session succeeds with an active session or fails with an inactive
-- one, whichever of the constructors fails, and leaves it valid: what a failed start had made is
-- destroyed.
pub start-Starts : (a : Answers) (s : Session) → IsValid s → Starts (start a s)
unfolding start
start-Starts a s v = elim (Bool-cases s.is_active) [
  | inl on ↦ subst Starts (sym (if_true s.is_active _ _ on)) (on, v)
  | inr off ↦
      subst Starts (sym (if_false s.is_active _ _ off))
        (begun off (Owns-nothing s.is_active s.profiler s.reporter off v.owns) a.reporter refl)
]
  where
    begun :
        s.is_active ≡ false
        → (s.profiler ≡ none) × (s.reporter ≡ none)
        → (o : Option ℕ) → a.reporter ≡ o
        → Starts (report_or_fail o a (with_reporter a s))
    begun off free o e = by_reporter o e
      where
        nothing : s.made ≡ s.destroyed
        nothing =
            let c = v.counted in
            let p = ap profilers free.0 in let r = ap reporters free.1 in omega arith

        by_reporter :
            (o : Option ℕ) → a.reporter ≡ o → Starts (report_or_fail o a (with_reporter a s))
        by_reporter none e = (
          off,
          cleanup-IsValid (with_reporter a s) off
              (let n = nothing in let p = ap profilers free.0 in omega arith),
        )
        by_reporter (some r) e =
            attach-Starts a (with_reporter a s) r e free.0 off
              (let n = nothing in let p = ap reporters e in omega arith)

stopped-IsValid :
    (s : Session) → IsValid s → IsValid (record (cleanup s) { report_key = []; is_active = false })
stopped-IsValid s v = record { owns = tt; counted = let c = v.counted in omega arith }

abbrev Stopped : Session → Type 0
Stopped s = IsValid s × (s.is_active ≡ false) × (s.made ≡ s.destroyed)

-- Stopping leaves a valid session inactive with everything that it made destroyed.
pub stop-IsValid :
    (s : Session)
    → IsValid s
    → IsValid (stop s) × ((stop s).is_active ≡ false) × ((stop s).made ≡ (stop s).destroyed)
unfolding stop
stop-IsValid s v = elim (Bool-cases s.is_active) [
  | inl on ↦
      subst Stopped (sym (if_true s.is_active _ _ on))
        (stopped-IsValid s v, refl, let c = v.counted in omega arith)
  | inr off ↦
      let free = Owns-nothing s.is_active s.profiler s.reporter off v.owns in
      subst Stopped (sym (if_false s.is_active _ _ off)) (
        v,
        off,
        (let c = v.counted in
            let p = ap profilers free.0 in let r = ap reporters free.1 in omega arith),
      )
]

-- What a program does with a session.
pub data Use : Type 0 where
  starts : Answers → Use
  stops : Use

unfoldable pub use_all : List Use → Session → Session
use_all [] s = s
use_all (starts a ∷ rest) s = use_all rest (start a s).1
use_all (stops ∷ rest) s = use_all rest (stop s)

use_all-IsValid : (uses : List Use) (s : Session) → IsValid s → IsValid (use_all uses s)
unfolding use_all
use_all-IsValid [] s v = v
use_all-IsValid (starts a ∷ rest) s v = use_all-IsValid rest (start a s).1 (start-Starts a s v).1
use_all-IsValid (stops ∷ rest) s v = use_all-IsValid rest (stop s) (stop-IsValid s v).0

-- After any starts and stops, whatever the constructors answer, `spx_session_destroy` leaves no
-- object that was made and not destroyed, and no object is destroyed that was not made.
pub destroy-use_all :
    (config : Config) (uses : List Use)
    → (destroy (use_all uses (create config))).made
      ≡ (destroy (use_all uses (create config))).destroyed
unfolding destroy
destroy-use_all config uses =
    destroyed_all (use_all uses (create config))
      (use_all-IsValid uses (create config) (record { owns = tt; counted = refl }))
  where
    destroyed_all : (s : Session) → IsValid s → (destroy s).made ≡ (destroy s).destroyed
    destroyed_all s v = elim (Bool-cases s.is_active) [
      | inl on ↦
          subst {A = Session} (λ t. t.made ≡ t.destroyed) (sym (if_true s.is_active _ _ on))
            (stop-IsValid s v).2
      | inr off ↦
          let free = Owns-nothing s.is_active s.profiler s.reporter off v.owns in
          subst {A = Session} (λ t. t.made ≡ t.destroyed) (sym (if_false s.is_active _ _ off))
            (let c = v.counted in
              let p = ap profilers free.0 in let r = ap reporters free.1 in omega arith)
    ]
