-- ===== src/Bootstrap.antt =====
-- internal/config/config.go and internal/config/dotenv.go (fromEnv, LoadEnvConfig, LoadLocalConfig and
-- ParseMode): the configuration from the environment.
--
-- A text is its code points. A pointer to a flag is an Option. strings.ToLower and filepath.Join are
-- arguments, as is the environment: "" for a variable that is not set. An error is a constructor in
-- place of its message.
pub mod Loading
mod Examples
use nano_llm_proxy.Prelude.{
  ℕ, zero, suc, ◌+◌, ◌-◌, ◌*◌, Bool, true, false, not, ◌&&◌, ◌||◌, Option, none, some, List, [],
  ◌∷◌, if◌then◌else◌, ◌==◌, leb, String, codes, is_space, trim_left, trim_right, trim_space,
  split_on, cons_first, same_text,
}

abbrev pub EnvText : Type 0
EnvText = List ℕ

pub record Config : Type 0 where
  pub mode : EnvText
  pub data_dir : EnvText
  pub port : ℕ
  pub bind : EnvText
  pub db_path : EnvText
  pub cookie_secure : Option Bool
  pub trusted_origins : List EnvText
  pub google_client_id : EnvText
  pub google_workspace_domain : EnvText

pub data ConfigError : Type 0 where
  bad_port : ConfigError
  bad_cookie_secure : ConfigError
  domain_without_client : ConfigError
  bad_domain : ConfigError
  bad_bind : ConfigError
  bad_mode : ConfigError

pub data Outcome {ℓ} (A : Type ℓ) : Type ℓ where
  ok : A → Outcome A
  err : ConfigError → Outcome A

infixl 5 ◌>>=◌
abbrev pub ◌>>=◌ {ℓ κ} : {A : Type ℓ} {B : Type κ} → Outcome A → (A → Outcome B) → Outcome B
ok a >>= f = f a
err e >>= f = err e

abbrev pub unset : EnvText → Bool
unset [] = true
unset (c ∷ s) = false

abbrev pub is_text : EnvText → String → Bool
is_text s t = same_text s (codes t)

abbrev is_decimal : ℕ → Bool
is_decimal c = leb b'0' c && leb c b'9'

abbrev pub digits_from : ℕ → EnvText → Option ℕ
digits_from n [] = some n
digits_from n (c ∷ s) =
    let rest = digits_from (n * 10 + (c - b'0')) s in if is_decimal c then rest else none

-- strconv.Atoi where its result is not negative; the program refuses any other. A number past the
-- largest int is refused too, by either.
abbrev pub atoi : EnvText → Option ℕ
atoi [] = none
atoi (c ∷ []) = digits_from 0 (c ∷ [])
atoi (c ∷ d ∷ s) = if c == b'+' then digits_from 0 (d ∷ s) else digits_from 0 (c ∷ d ∷ s)

abbrev pub one_of : EnvText → List String → Bool
one_of s [] = false
one_of s (t ∷ ts) = is_text s t || one_of s ts

-- strconv.ParseBool
abbrev pub parse_bool : EnvText → Option Bool
parse_bool s =
    if one_of s ("1" ∷ "t" ∷ "T" ∷ "TRUE" ∷ "true" ∷ "True" ∷ [])
    then some true
    else if one_of s ("0" ∷ "f" ∷ "F" ∷ "FALSE" ∷ "false" ∷ "False" ∷ [])
    then some false
    else none

abbrev pub empty_config : Config
empty_config = record {
  mode = [];
  data_dir = [];
  port = 0;
  bind = [];
  db_path = [];
  cookie_secure = none;
  trusted_origins = [];
  google_client_id = [];
  google_workspace_domain = [];
}

abbrev port_in_range : Option ℕ → Config → Outcome Config
port_in_range none cfg = err bad_port
port_in_range (some n) cfg =
    if leb 1 n && leb n 65535 then ok (record cfg { port = n }) else err bad_port

unfoldable pub read_port : EnvText → Config → Outcome Config
read_port v cfg = if unset v then ok cfg else port_in_range (atoi v) cfg

abbrev secure_flag : Option Bool → Config → Outcome Config
secure_flag none cfg = err bad_cookie_secure
secure_flag (some b) cfg = ok (record cfg { cookie_secure = some b })

unfoldable pub read_cookie_secure : EnvText → Config → Outcome Config
read_cookie_secure v cfg = if unset v then ok cfg else secure_flag (parse_bool v) cfg

-- the hosts between commas, without blanks around them
unfoldable pub hosts_of : List EnvText → List EnvText
hosts_of [] = []
hosts_of (h ∷ hs) =
    let rest = hosts_of hs in if unset (trim_space h) then rest else trim_space h ∷ rest

abbrev pub has_code : ℕ → EnvText → Bool
has_code x [] = false
has_code x (c ∷ s) = x == c || has_code x s

-- a bare domain
abbrev pub domain_ok : EnvText → Bool
domain_ok v =
    not (has_code b'@' v || has_code b'/' v || has_code b':' v || has_code b' ' v)
    && has_code b'.' v

unfoldable pub read_domain : (EnvText → EnvText) → EnvText → Config → Outcome Config
read_domain lower v cfg =
    if unset v
    then ok cfg
    else if unset cfg.google_client_id
    then err domain_without_client
    else if not (domain_ok v)
    then err bad_domain
    else ok (record cfg { google_workspace_domain = lower v })

module _ (lower : EnvText → EnvText) (getenv : String → EnvText) where
  abbrev pub with_names : Config → Config
  with_names cfg = record cfg { bind = getenv "NANO_BIND"; db_path = getenv "NANO_DB_PATH" }

  abbrev pub with_hosts : Config → Config
  with_hosts cfg = record cfg {
    trusted_origins = hosts_of (
        if unset (getenv "NANO_TRUSTED_ORIGINS")
        then []
        else split_on b',' (getenv "NANO_TRUSTED_ORIGINS"));
    google_client_id = trim_space (getenv "GOOGLE_CLIENT_ID");
  }

  unfoldable pub from_env : Outcome Config
  unfolding read_port read_cookie_secure hosts_of read_domain
  from_env =
      read_port (getenv "NANO_PORT") empty_config
      >>= (λ cfg. read_cookie_secure (getenv "NANO_COOKIE_SECURE") (with_names cfg))
      >>= (λ cfg.
          read_domain lower (trim_space (getenv "GOOGLE_WORKSPACE_DOMAIN")) (with_hosts cfg))

abbrev pub or_named : String → EnvText → EnvText
or_named d s = if unset s then codes d else s

abbrev pub or_port : ℕ → ℕ
or_port zero = 8787
or_port (suc n) = suc n

-- without the URLs of the seeded providers
unfoldable pub apply_config_defaults : Config → Config
apply_config_defaults c = record c {
  mode = or_named "server" c.mode;
  port = or_port c.port;
  bind = or_named "127.0.0.1" c.bind;
  db_path = or_named "gateway.db" c.db_path;
}

-- "" and the names of this computer
abbrev pub local_bind : EnvText → Bool
local_bind b = one_of b ("" ∷ "127.0.0.1" ∷ "localhost" ∷ "::1" ∷ [])

abbrev pub or_insecure : Option Bool → Option Bool
or_insecure none = some false
or_insecure (some b) = some b

unfoldable pub parse_mode : (EnvText → EnvText) → EnvText → Outcome EnvText
parse_mode lower v =
    let m = lower (trim_space v) in
    if is_text m "" || is_text m "server"
    then ok (codes "server")
    else if is_text m "local"
    then ok (codes "local")
    else err bad_mode

-- `gateway_db` is <dataDir>/gateway.db
abbrev pub localised : EnvText → EnvText → Config → Config
localised data_dir gateway_db cfg = record cfg {
  mode = codes "local";
  data_dir = data_dir;
  db_path = if unset cfg.db_path then gateway_db else cfg.db_path;
  cookie_secure = or_insecure cfg.cookie_secure;
}

unfoldable pub if_local : Config → Outcome Config
unfolding apply_config_defaults
if_local cfg = if local_bind cfg.bind then ok (apply_config_defaults cfg) else err bad_bind

module _ (lower : EnvText → EnvText) (getenv : String → EnvText) where
  unfoldable pub load_env_config : Outcome Config
  unfolding from_env apply_config_defaults
  load_env_config = from_env lower getenv >>= λ cfg. ok (apply_config_defaults cfg)

  unfoldable pub load_local_config : EnvText → EnvText → Outcome Config
  unfolding from_env if_local
  load_local_config data_dir gateway_db =
      from_env lower getenv >>= λ cfg. if_local (localised data_dir gateway_db cfg)
