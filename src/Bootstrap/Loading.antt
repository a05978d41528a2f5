-- ===== src/Bootstrap/Loading.antt =====
-- What the configuration of a run is known to satisfy.
use nano_llm_proxy.Prelude.{
  ℕ, zero, suc, ◌≤◌, ◌≡◌, refl, sym, ap, inl, inr, Bool, Bool-cases, true, false, not, ◌&&◌, Option,
  none, some, [], ◌∷◌, leb, arith, String, codes, subst, if_both, if_true, if_false,
}
use nano_llm_proxy.Bootstrap.{
  EnvText, Config, Outcome, ok, err, bad_domain, ◌>>=◌, unset, atoi, parse_bool, empty_config,
  port_in_range, read_port, secure_flag, read_cookie_secure, domain_ok, read_domain, with_names,
  with_hosts, from_env, or_named, or_port, apply_config_defaults, local_bind, one_of,
  load_env_config, localised, if_local, load_local_config,
}

-- `P` holds of the result, if there is one.
abbrev pub Results : (Config → Type 0) → Outcome Config → Type 0
Results P (ok c) = P c
Results P (err e) = Unit

bind-Results :
    (P Q : Config → Type 0) (m : Outcome Config) (f : Config → Outcome Config)
    → Results P m
    → ((c : Config) → P c → Results Q (f c))
    → Results Q (m >>= f)
bind-Results P Q (ok c) f h k = k c h
bind-Results P Q (err e) f h k = tt

-- The port is in range if it is set, and there is no domain without a client.
record Raw (c : Config) : Type 0 where
  port_bound : c.port ≤ 65535
  domain_needs : unset c.google_client_id ≡ true → c.google_workspace_domain ≡ []

-- The port is in range if it is set, and there is no domain.
record Fresh (c : Config) : Type 0 where
  port_bound : c.port ≤ 65535
  no_domain : c.google_workspace_domain ≡ []

read_port-Fresh : (v : EnvText) → Results Fresh (read_port v empty_config)
unfolding read_port
read_port-Fresh v =
    if_both (Results Fresh) (unset v) _ _ (record { port_bound = omega arith; no_domain = refl })
      (in_range (atoi v))
  where
    in_range : (o : Option ℕ) → Results Fresh (port_in_range o empty_config)
    in_range none = tt
    in_range (some n) = elim (Bool-cases (leb 1 n && leb n 65535)) [
      | inl h ↦ rw h (record { port_bound = ground arith; no_domain = refl })
      | inr h ↦ rw h tt
    ]

read_cookie_secure-Fresh :
    (v : EnvText) (c : Config) → Fresh c → Results Fresh (read_cookie_secure v c)
unfolding read_cookie_secure
read_cookie_secure-Fresh v c h = if_both (Results Fresh) (unset v) _ _ h (flag (parse_bool v))
  where
    flag : (o : Option Bool) → Results Fresh (secure_flag o c)
    flag none = tt
    flag (some b) = record { port_bound = h.port_bound; no_domain = h.no_domain }

module _ (lower : EnvText → EnvText) where
  read_domain-Raw : (v : EnvText) (c : Config) → Fresh c → Results Raw (read_domain lower v c)
  unfolding read_domain
  read_domain-Raw v c h =
      if_both (Results Raw) (unset v) _ _
        (record { port_bound = h.port_bound; domain_needs = λ e. h.no_domain })
        (elim (Bool-cases (unset c.google_client_id)) [
          | inl e ↦ rw e tt
          | inr e ↦
              let set : Results Raw (ok (record c { google_workspace_domain = lower v })) = record {
                port_bound = h.port_bound;
                domain_needs = λ q. absurd (cc);
              } in
              rw e (
                if_both (Results Raw) (not (domain_ok v)) (err bad_domain)
                  (ok (record c { google_workspace_domain = lower v })) tt set)
        ])

  module _ (getenv : String → EnvText) where
    from_env-Raw : Results Raw (from_env lower getenv)
    unfolding from_env
    from_env-Raw =
        bind-Results Fresh Raw _ _
          (bind-Results Fresh Fresh _ _ (read_port-Fresh (getenv "NANO_PORT")) (λ c h.
            read_cookie_secure-Fresh (getenv "NANO_COOKIE_SECURE") (with_names lower getenv c)
              (record { port_bound = h.port_bound; no_domain = h.no_domain })))
          (λ c h.
            read_domain-Raw _ (with_hosts lower getenv c)
              (record { port_bound = h.port_bound; no_domain = h.no_domain }))

-- A port, a name to listen on and a database are set, and there is no domain without a client.
pub record Sound (c : Config) : Type 0 where
  pub port_low : 1 ≤ c.port
  pub port_high : c.port ≤ 65535
  pub bind_set : unset c.bind ≡ false
  pub db_set : unset c.db_path ≡ false
  pub domain_needs : unset c.google_client_id ≡ true → c.google_workspace_domain ≡ []

-- It listens on this computer only.
pub record Local (c : Config) : Type 0 where
  pub sound : Sound c
  pub local_mode : c.mode ≡ codes "local"
  pub loopback : one_of c.bind ("127.0.0.1" ∷ "localhost" ∷ "::1" ∷ []) ≡ true

or_port_bound : (n : ℕ) → n ≤ 65535 → (1 ≤ or_port n) × (or_port n ≤ 65535)
or_port_bound zero h = (omega arith, omega arith)
or_port_bound (suc n) h = (omega arith, h)

or_named_set : (d : String) (s : EnvText) → unset (codes d) ≡ false → unset (or_named d s) ≡ false
or_named_set d [] h = h
or_named_set d (c ∷ s) h = refl

apply_config_defaults-Sound : (c : Config) → Raw c → Sound (apply_config_defaults c)
unfolding apply_config_defaults
apply_config_defaults-Sound c h = record {
  port_low = (or_port_bound c.port h.port_bound).0;
  port_high = (or_port_bound c.port h.port_bound).1;
  bind_set = or_named_set "127.0.0.1" c.bind refl;
  db_set = or_named_set "gateway.db" c.db_path refl;
  domain_needs = h.domain_needs;
}

local_bind-loopback :
    (b : EnvText)
    → local_bind b ≡ true
    → one_of (or_named "127.0.0.1" b) ("127.0.0.1" ∷ "localhost" ∷ "::1" ∷ []) ≡ true
local_bind-loopback [] h = refl
local_bind-loopback (c ∷ s) h = h

mode_named : (c : Config) → c.mode ≡ codes "local" → (apply_config_defaults c).mode ≡ codes "local"
unfolding apply_config_defaults
mode_named c m = ap (or_named "server") m

bind_named :
    (c : Config)
    → local_bind c.bind ≡ true
    → one_of (apply_config_defaults c).bind ("127.0.0.1" ∷ "localhost" ∷ "::1" ∷ []) ≡ true
unfolding apply_config_defaults
bind_named c h = local_bind-loopback c.bind h

if_local-Local : (c : Config) → c.mode ≡ codes "local" → Raw c → Results Local (if_local c)
unfolding if_local
if_local-Local c m h = elim (Bool-cases (local_bind c.bind)) [
  | inl e ↦
      let r : Results Local (ok (apply_config_defaults c)) = record {
        sound = apply_config_defaults-Sound c h;
        local_mode = mode_named c m;
        loopback = bind_named c e;
      } in
      subst (Results Local) (sym (if_true (local_bind c.bind) _ _ e)) r
  | inr e ↦ subst (Results Local) (sym (if_false (local_bind c.bind) _ _ e)) tt
]

-- Whatever the environment holds, a configuration that is loaded has a port from 1 to 65535, a name to
-- listen on and a database, and a Google domain only with a Google client; the one of local mode
-- listens on 127.0.0.1, localhost or ::1 and on nothing else.
pub loaded-Sound :
    (lower : EnvText → EnvText) (getenv : String → EnvText) (data_dir gateway_db : EnvText)
    → Results Sound (load_env_config lower getenv)
      × Results Local (load_local_config lower getenv data_dir gateway_db)
unfolding load_env_config load_local_config
loaded-Sound lower getenv data_dir gateway_db =
    let raw = from_env-Raw lower getenv in
    (
      bind-Results Raw Sound _ _ raw apply_config_defaults-Sound,
      bind-Results Raw Local _ _ raw (λ c h.
          if_local-Local (localised data_dir gateway_db c) refl
            (record { port_bound = h.port_bound; domain_needs = h.domain_needs })),
    )
