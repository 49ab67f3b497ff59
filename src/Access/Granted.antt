-- ===== src/Access/Granted.antt =====
-- What suffices for a client to be granted the access by HTTP.
use php_spx.Prelude.{
  arith, ℕ, ◌<◌, ◌≡◌, ◌≢◌, refl, sym, ap, subst, ◌∙◌, ◌↔◌, inl, inr, Bool, true, false, ◌||◌, not,
  Option, some, List, [], ◌∷◌, if_true, ==_iff, length,
}
use php_spx.Prelude.Bytes.{Bytes, bytes_eq, bytes_eq_refl}
use php_spx.Prelude.Int.{ℤ}
use php_spx.Tokens.{tokenize, any}
use php_spx.Tokens.Split.{tokenize-split}
use php_spx.Crypto.{compare_bytes, compare_strings}
use php_spx.Crypto.Laws.{compare_bytes-exact}
use php_spx.Network.Subnet.{Covers, Answers32, ip_match_iff}
use php_spx.Access.{
  Globals, Reason, Access, granted, refused, is_empty, chars, remote_addr, require, listed,
  is_direct, check_keys, check_ip, check_access, no_server_key, no_client_key, wrong_key, no_ip,
  no_whitelist, not_in_whitelist, turned_off, no_ip_var, no_trusted_proxies, untrusted_proxy,
}
use php_spx.Access.Authorized.{
  SomeOf, ListedIn, Proxied, KeysAgree, Whitelisted, Authorized, check_access-Authorized,
}

filled_some : (o : Option Bytes) (a : Bytes) → o ≡ some a → a ≢ [] → not (is_empty o) ≡ true
filled_some o a e ne = subst (λ p. not (is_empty p) ≡ true) (sym e) (known a ne)
  where
    known : (a : Bytes) → a ≢ [] → not (is_empty (some a)) ≡ true
    known [] ne = absurd (ne refl)
    known (c ∷ s) ne = refl

require_passed :
    (passed : Bool) (reason : Reason) (more : Access)
    → passed ≡ true
    → more ≡ granted
    → require passed reason more ≡ granted
require_passed passed reason more h e = if_true passed more (refused reason) h ∙ e

SomeOf-any :
    (p : Bytes → Bool) (P : Bytes → Type 0)
    → ((t : Bytes) → P t → p t ≡ true)
    → (ts : List Bytes) → SomeOf P ts
    → any p ts ≡ true
SomeOf-any p P complete [] h = absurd h
SomeOf-any p P complete (t ∷ ts) (inl h) =
    subst (λ b. (b || any p ts) ≡ true) (sym (complete t h)) refl
SomeOf-any p P complete (t ∷ ts) (inr h) = or_last (p t) (SomeOf-any p P complete ts h)
  where
    or_last : (b : Bool) → any p ts ≡ true → (b || any p ts) ≡ true
    or_last true h = refl
    or_last false h = h

module _ (inet_addr : Bytes → Option ℕ) (strtol : Bytes → ℤ) where
  module _ (bounded : Answers32 inet_addr strtol) where
    ListedIn-listed :
        (ip targets : Option Bytes) (a ts : Bytes)
        → ip ≡ some a
        → targets ≡ some ts
        → ListedIn inet_addr strtol a ts
        → listed inet_addr strtol ip targets ≡ true
    ListedIn-listed ip targets a ts ei et h =
        subst (λ o. listed inet_addr strtol o targets ≡ true) (sym ei)
          (subst (λ o. listed inet_addr strtol (some a) o ≡ true) (sym et)
            (SomeOf-any _ (λ t. Covers inet_addr strtol a t)
              (λ t c. (ip_match_iff inet_addr strtol bounded a t).1 c) (tokenize 64 44 ts)
              (subst (SomeOf (λ t. Covers inet_addr strtol a t)) (sym (tokenize-split 64 44 ts))
                h)))

    module _ (server : Bytes → Option Bytes) (g : Globals) (key : Option Bytes) where
      keys_suffice :
          KeysAgree inet_addr strtol g key → check_keys inet_addr strtol server g key ≡ granted
      keys_suffice (k, c, ek, ec, nk, nc, agree) =
          require_passed _ no_server_key _ (filled_some g.http_key k ek nk) (
            require_passed _ no_client_key _ (filled_some key c ec nc) (
              require_passed _ wrong_key _
                ((==_iff _ 0).1 (
                  subst (λ o. compare_strings o key ≡ 0) (sym ek)
                    (subst (λ o. compare_strings (some k) o ≡ 0) (sym ec) agree)))
                refl))

      ip_suffices :
          (ip_var : Bytes)
          → Whitelisted inet_addr strtol server g ip_var
          → KeysAgree inet_addr strtol g key
          → check_ip inet_addr strtol server g (server ip_var) key ≡ granted
      ip_suffices ip_var (ip, targets, ei, et, ni, nt, h) keys =
          require_passed _ no_ip _ (filled_some (server ip_var) ip ei ni) (
            require_passed _ no_whitelist _ (filled_some g.http_ip_whitelist targets et nt) (
              require_passed _ not_in_whitelist _
                (ListedIn-listed (server ip_var) g.http_ip_whitelist ip targets ei et h)
                (keys_suffice keys)))

      direct :
          Proxied inet_addr strtol server g (chars g.http_ip_var)
          → ((is_direct inet_addr strtol server g || not (is_empty g.http_trusted_proxies)) ≡ true)
            × ((is_direct inet_addr strtol server g
                  || listed inet_addr strtol (server remote_addr) g.http_trusted_proxies)
                ≡ true)
      direct (inl e) = (first _ _ same, first _ _ same)
        where
          first : (a b : Bool) → a ≡ true → (a || b) ≡ true
          first a b h = ground arith

          same : bytes_eq (chars g.http_ip_var) remote_addr ≡ true
          same = subst (λ v. bytes_eq v remote_addr ≡ true) (sym e) (bytes_eq_refl remote_addr)
      direct (inr (proxy, proxies, ep, el, ne, h)) = (
        second _ _ (filled_some g.http_trusted_proxies proxies el ne),
        second _ _
            (ListedIn-listed (server remote_addr) g.http_trusted_proxies proxy proxies ep el h),
      )
        where
          second : (a b : Bool) → b ≡ true → (a || b) ≡ true
          second a b h = ground arith

      Authorized-granted :
          Authorized inet_addr strtol server g key
          → check_access inet_addr strtol server g false key ≡ granted
      Authorized-granted a =
          let at = sym (ap chars a.ip_var_set) in
          let passed = direct (subst (Proxied inet_addr strtol server g) at a.proxied) in
          require_passed g.http_enabled turned_off _ a.enabled (
            require_passed _ no_ip_var _
              (filled_some g.http_ip_var a.ip_var a.ip_var_set a.ip_var_filled)
              (require_passed _ no_trusted_proxies _ passed.0 (
                require_passed _ untrusted_proxy _ passed.1 (
                  ip_suffices (chars g.http_ip_var)
                    (subst (Whitelisted inet_addr strtol server g) at a.whitelisted) a.keys))))

      -- A client is granted the access by HTTP exactly where the profiler is enabled for HTTP, the
      -- client comes by its own connection or by a listed proxy, a target of the whitelist covers its
      -- address, and its key compares as equal to that of the server, no setting being empty.
      pub check_access_iff :
          (check_access inet_addr strtol server g false key ≡ granted)
          ↔ Authorized inet_addr strtol server g key
      check_access_iff =
          (check_access-Authorized inet_addr strtol bounded server g key, Authorized-granted)

  -- Where both keys have fewer than 256 bytes, a client that is granted the access by HTTP has the
  -- key of the server.
  pub check_access-key :
      Answers32 inet_addr strtol
      → (server : Bytes → Option Bytes) (g : Globals) (k c : Bytes) → g.http_key ≡ some k
      → length k < 256
      → length c < 256
      → check_access inet_addr strtol server g false (some c) ≡ granted
      → k ≡ c
  check_access-key bounded server g k c e p q h =
      same (check_access-Authorized inet_addr strtol bounded server g (some c) h).keys
    where
      same : KeysAgree inet_addr strtol g (some c) → k ≡ c
      same (k', c', ek, ec, nk, nc, agree) = (compare_bytes-exact k c p q).0 (
          subst (λ z. compare_bytes k z ≡ 0) back_c
            (subst (λ z. compare_bytes z c' ≡ 0) back_k agree))
        where
          back_c : c' ≡ c
          back_c = cc

          back_k : k' ≡ k
          back_k = cc
