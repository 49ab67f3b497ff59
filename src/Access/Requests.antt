-- ===== src/Access/Requests.antt =====
-- Which handler serves a request.
use php_spx.Prelude.{
  ℕ, ◌≡◌, ◌≢◌, refl, sym, ap, ◌∙◌, ◌⊎◌, inl, inr, Bool, true, false, ◌||◌, not, Option, none, some,
  [], ◌∷◌, if◌then◌else◌,
}
use php_spx.Prelude.Bytes.{Bytes}
use php_spx.Prelude.Int.{ℤ}
use php_spx.Metric.{Metric}
use php_spx.Validation.{Number}
use php_spx.Config.{Config, Source, ini, Parameter, spx_ui_uri, config_get, text}
use php_spx.Access.{
  Globals, Access, granted, refused, check_access, http_ui, profiling, is_granted, is_some,
  handler_for, asked, from_ini, config_of, begin_request,
}

ui_handler : (c : Config) → handler_for c ≡ some http_ui → is_some c.ui_uri ≡ true
ui_handler c h = either (is_some c.ui_uri) h
  where
    either :
        (b : Bool)
        → (if b then some http_ui else (if c.enabled then some profiling else none)) ≡ some http_ui
        → b ≡ true
    either true h = refl
    either false h = absurd (other c.enabled h)
      where
        other : (b : Bool) → (if b then some profiling else none) ≡ some http_ui → ⊥
        other true h = cc
        other false h = cc

granted_or : (a : Access) → (a ≡ granted) ⊎ (a ≢ granted)
granted_or granted = inl refl
granted_or (refused r) = inr (λ e. cc)

module _ (inet_addr : Bytes → Option ℕ) (strtol : Bytes → ℤ) (parse : Bytes → Number)
    (get_by_key : Bytes → Option Metric) (handlers : Source → Parameter → Option Bytes)
    (server : Bytes → Option Bytes) (g : Globals) where
  abbrev access : Access
  access =
      check_access inet_addr strtol server g false
        (asked inet_addr strtol parse get_by_key handlers).key

  abbrev asked_here : Config
  asked_here = asked inet_addr strtol parse get_by_key handlers

  chosen :
      (r : Bool) (a : Access) (c d : Config)
      → a ≢ granted
      → (if r || not (is_granted a) then c else d) ≡ c
  chosen true a c d h = refl
  chosen false granted c d h = absurd (h refl)
  chosen false (refused r) c d h = refl

  -- A request by HTTP that is not granted the access is configured by the settings alone, whatever
  -- the cookie, the header and the query string say.
  pub begin_request-refused :
      access ≢ granted
      → begin_request inet_addr strtol parse get_by_key handlers server g false ≡ record {
        config = config_get parse get_by_key handlers false (ini ∷ []);
        execution_handler = handler_for (config_get parse get_by_key handlers false (ini ∷ []));
      }
  begin_request-refused h =
      ap (λ c. record { config = c; execution_handler = handler_for c })
        (chosen (not (is_some asked_here.ui_uri || asked_here.enabled)) access
          (from_ini inet_addr strtol parse get_by_key handlers) asked_here h)

  -- Where no setting names a page of the web UI, only a request by HTTP that is granted the access is
  -- served by the web UI.
  pub begin_request-ui :
      (cli : Bool)
      → handlers ini spx_ui_uri ≡ none
      → (begin_request inet_addr strtol parse get_by_key handlers server g cli).execution_handler
        ≡ some http_ui
      → (cli ≡ false) × (access ≡ granted)
  begin_request-ui true e h =
      absurd
        (no (ui_handler (config_of inet_addr strtol parse get_by_key handlers server g true) h))
    where
      no : false ≡ true → ⊥
      no e = cc
  begin_request-ui false e h = (
    refl,
    elim (granted_or access) [
      | inl a ↦ a
      | inr a ↦ absurd (
          no (
            ap is_some (sym e ∙ sym (text_none _))
            ∙ ui_handler (config_get parse get_by_key handlers false (ini ∷ []))
                (sym (ap (λ r. r.execution_handler) (begin_request-refused a)) ∙ h)))
    ],
  )
    where
      no : false ≡ true → ⊥
      no e = cc

      text_none : (o : Option Bytes) → text o none ≡ o
      text_none none = refl
      text_none (some a) = refl
