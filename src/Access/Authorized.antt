-- ===== src/Access/Authorized.antt =====
-- What a client needs to be granted the access by HTTP.
use php_spx.Prelude.{
  ◌∙◌, ℕ, ◌≡◌, ◌≢◌, refl, ap, subst, ◌⊎◌, inl, inr, Bool, true, false, ◌||◌, not, Option, none,
  some, List, [], ◌∷◌, ◌==◌, ==_iff, map, take,
}
use php_spx.Prelude.Bytes.{Bytes, bytes_eq, eq_of_bytes_eq}
use php_spx.Prelude.Int.{ℤ}
use php_spx.Tokens.{tokenize, any}
use php_spx.Tokens.Split.{split, tokenize-split}
use php_spx.Crypto.{compare_bytes, compare_strings}
use php_spx.Network.Subnet.{Covers, Answers32, ip_match_iff}
use php_spx.Access.{
  Globals, Reason, Access, granted, is_empty, chars, remote_addr, require, listed, is_direct,
  check_keys, check_ip, check_access, no_server_key, no_client_key, wrong_key, no_ip, no_whitelist,
  not_in_whitelist, turned_off, no_ip_var, no_trusted_proxies, untrusted_proxy,
}

-- A property of some element of a list.
abbrev pub SomeOf : (Bytes → Type 0) → List Bytes → Type 0
SomeOf P [] = ⊥
SomeOf P (t ∷ ts) = P t ⊎ SomeOf P ts

any-SomeOf :
    (p : Bytes → Bool) (P : Bytes → Type 0)
    → ((t : Bytes) → p t ≡ true → P t)
    → (ts : List Bytes) → any p ts ≡ true
    → SomeOf P ts
any-SomeOf p P sound [] h = cc
any-SomeOf p P sound (t ∷ ts) h = either (any-SomeOf p P sound ts) (p t) refl h
  where
    either :
        (any p ts ≡ true → SomeOf P ts)
        → (b : Bool) → p t ≡ b
        → (b || any p ts) ≡ true
        → P t ⊎ SomeOf P ts
    either more true e h = inl (sound t e)
    either more false e h = inr (more h)

SomeOf-none : (ts : List Bytes) → SomeOf (λ t. ⊥) ts → ⊥
SomeOf-none [] h = h
SomeOf-none (t ∷ ts) (inl h) = h
SomeOf-none (t ∷ ts) (inr h) = SomeOf-none ts h

require_granted :
    (passed : Bool) (reason : Reason) (more : Access)
    → require passed reason more ≡ granted
    → (passed ≡ true) × (more ≡ granted)
require_granted true reason more h = (refl, h)
require_granted false reason more h = cc

filled : (o : Option Bytes) → not (is_empty o) ≡ true → (a : Bytes) × (o ≡ some a) × (a ≢ [])
filled none h = cc
filled (some []) h = cc
filled (some (c ∷ s)) h = (c ∷ s, refl, λ e. cc)

same_some : {o : Option Bytes} {x y : Bytes} → o ≡ some x → o ≡ some y → x ≡ y
same_some e f = cc

module _ (inet_addr : Bytes → Option ℕ) (strtol : Bytes → ℤ) where
  -- A target of a list with commas, of which 63 bytes are read, covers the address.
  abbrev pub ListedIn : Bytes → Bytes → Type 0
  ListedIn ip targets =
      SomeOf (λ t. Covers inet_addr strtol ip t) (map (take 63) (split 44 targets))

  -- The client comes by a proxy of the list, where the address is not that of the connection.
  abbrev pub Proxied : (Bytes → Option Bytes) → Globals → Bytes → Type 0
  Proxied server g ip_var =
      (ip_var ≡ remote_addr)
      ⊎ ((proxy : Bytes) × (proxies : Bytes) × (server remote_addr ≡ some proxy)
          × (g.http_trusted_proxies ≡ some proxies)
          × (proxies ≢ [])
          × ListedIn proxy proxies)

  -- The keys of the server and of the client, neither of them empty, compare as equal.
  abbrev pub KeysAgree : Globals → Option Bytes → Type 0
  KeysAgree g key =
      (k : Bytes) × (c : Bytes) × (g.http_key ≡ some k)
      × (key ≡ some c)
      × (k ≢ [])
      × (c ≢ [])
      × (compare_bytes k c ≡ 0)

  abbrev pub Whitelisted : (Bytes → Option Bytes) → Globals → Bytes → Type 0
  Whitelisted server g ip_var =
      (ip : Bytes) × (targets : Bytes) × (server ip_var ≡ some ip)
      × (g.http_ip_whitelist ≡ some targets)
      × (ip ≢ [])
      × (targets ≢ [])
      × ListedIn ip targets

  -- All that the check is to establish.
  pub record Authorized (server : Bytes → Option Bytes) (g : Globals) (key : Option Bytes)
      : Type 0 where
    pub enabled : g.http_enabled ≡ true
    pub ip_var : Bytes
    pub ip_var_set : g.http_ip_var ≡ some ip_var
    pub ip_var_filled : ip_var ≢ []
    pub proxied : Proxied server g ip_var
    pub whitelisted : Whitelisted server g ip_var
    pub keys : KeysAgree g key

  module _ (bounded : Answers32 inet_addr strtol) where
    listed-ListedIn :
        (ip targets : Option Bytes)
        → listed inet_addr strtol ip targets ≡ true
        → (a : Bytes) × (ip ≡ some a) × ListedIn a (chars targets)
    listed-ListedIn none targets h =
        absurd
          (SomeOf-none _ (any-SomeOf _ (λ t. ⊥) (λ t e. no e) (tokenize 64 44 (chars targets)) h))
      where
        no : false ≡ true → ⊥
        no e = cc
    listed-ListedIn (some a) targets h = (
      a,
      refl,
      subst (SomeOf (λ t. Covers inet_addr strtol a t)) (tokenize-split 64 44 (chars targets)) (
          any-SomeOf _ (λ t. Covers inet_addr strtol a t)
            (λ t e. (ip_match_iff inet_addr strtol bounded a t).0 e)
            (tokenize 64 44 (chars targets)) h),
    )

    module _ (server : Bytes → Option Bytes) (g : Globals) (key : Option Bytes) where
      abbrev equal_keys : Bool
      equal_keys = compare_strings g.http_key key == 0

      passes_keys : check_keys inet_addr strtol server g key ≡ granted → KeysAgree g key
      passes_keys h =
          let last = require equal_keys wrong_key granted in
          let a =
            require_granted (not (is_empty g.http_key)) no_server_key
              (require (not (is_empty key)) no_client_key last) h in
          let b = require_granted (not (is_empty key)) no_client_key last a.1 in
          let c = require_granted equal_keys wrong_key granted b.1 in
          let k = filled g.http_key a.0 in
          let l = filled key b.0 in
          (
            k.0,
            l.0,
            k.1,
            l.1,
            k.2,
            l.2,
            subst (λ o. compare_strings o (some l.0) ≡ 0) k.1
                (subst (λ o. compare_strings g.http_key o ≡ 0) l.1 ((==_iff _ 0).0 c.0)),
          )

      passes_ip :
          (ip_var : Bytes)
          → check_ip inet_addr strtol server g (server ip_var) key ≡ granted
          → Whitelisted server g ip_var × KeysAgree g key
      passes_ip ip_var h =
          let ip = server ip_var in
          let rest = check_keys inet_addr strtol server g key in
          let listing = listed inet_addr strtol ip g.http_ip_whitelist in
          let full = not (is_empty g.http_ip_whitelist) in
          let a =
            require_granted (not (is_empty ip)) no_ip
              (require full no_whitelist (require listing not_in_whitelist rest)) h in
          let b = require_granted full no_whitelist (require listing not_in_whitelist rest) a.1 in
          let c = require_granted listing not_in_whitelist rest b.1 in
          let w = filled g.http_ip_whitelist b.0 in
          let l = listed-ListedIn ip g.http_ip_whitelist c.0 in
          let n = filled ip a.0 in
          (
            (
              l.0,
              w.0,
              l.1,
              w.1,
              λ e. n.2 (same_some n.1 l.1 ∙ e),
              w.2,
              subst (λ o. ListedIn l.0 (chars o)) w.1 l.2,
            ),
            passes_keys c.1,
          )

      passes_proxy :
          (ip_var : Bytes)
          → (bytes_eq ip_var remote_addr || not (is_empty g.http_trusted_proxies)) ≡ true
          → (bytes_eq ip_var remote_addr
              || listed inet_addr strtol (server remote_addr) g.http_trusted_proxies)
            ≡ true
          → Proxied server g ip_var
      passes_proxy ip_var = either (bytes_eq ip_var remote_addr) refl
        where
          either :
              (b : Bool)
              → bytes_eq ip_var remote_addr ≡ b
              → (b || not (is_empty g.http_trusted_proxies)) ≡ true
              → (b || listed inet_addr strtol (server remote_addr) g.http_trusted_proxies) ≡ true
              → Proxied server g ip_var
          either true e p q = inl (eq_of_bytes_eq ip_var remote_addr e)
          either false e p q =
              let w = filled g.http_trusted_proxies p in
              let l = listed-ListedIn (server remote_addr) g.http_trusted_proxies q in
              inr (l.0, w.0, l.1, w.1, w.2, subst (λ o. ListedIn l.0 (chars o)) w.1 l.2)

      -- What the tests of the check establish.
      pub check_access-Authorized :
          check_access inet_addr strtol server g false key ≡ granted → Authorized server g key
      check_access-Authorized h =
          let direct = is_direct inet_addr strtol server g in
          let ip = check_ip inet_addr strtol server g (server (chars g.http_ip_var)) key in
          let trust =
            direct || listed inet_addr strtol (server remote_addr) g.http_trusted_proxies in
          let some_proxy = direct || not (is_empty g.http_trusted_proxies) in
          let proxy = require some_proxy no_trusted_proxies (require trust untrusted_proxy ip) in
          let a =
            require_granted g.http_enabled turned_off
              (require (not (is_empty g.http_ip_var)) no_ip_var proxy) h in
          let b = require_granted (not (is_empty g.http_ip_var)) no_ip_var proxy a.1 in
          let c =
            require_granted some_proxy no_trusted_proxies (require trust untrusted_proxy ip) b.1 in
          let d = require_granted trust untrusted_proxy ip c.1 in
          let var = filled g.http_ip_var b.0 in
          let rest = passes_ip (chars g.http_ip_var) d.1 in
          let at = ap chars var.1 in
          record {
            enabled = a.0;
            ip_var = var.0;
            ip_var_set = var.1;
            ip_var_filled = var.2;
            proxied = subst (Proxied server g) at (passes_proxy (chars g.http_ip_var) c.0 d.0);
            whitelisted = subst (Whitelisted server g) at rest.0;
            keys = rest.1;
          }
