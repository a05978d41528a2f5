-- ===== src/Bootstrap/Examples.antt =====
-- An environment with a port, two origins and a name to listen on.
use nano_llm_proxy.Prelude.{
  ◌≡◌, refl, [], ◌∷◌, String, str_eq, codes, if◌then◌else◌, split_on, trim_left, trim_right,
}
use nano_llm_proxy.Bootstrap.{
  EnvText, ok, err, bad_bind, empty_config, from_env, load_env_config, load_local_config,
  parse_mode,
}
use nano_llm_proxy.Bootstrap.Loading.{Results, Sound, Local, loaded-Sound}

abbrev lower : EnvText → EnvText
lower s = s

abbrev getenv : String → EnvText
getenv k =
    if str_eq k "NANO_PORT"
    then codes "9000"
    else if str_eq k "NANO_TRUSTED_ORIGINS"
    then codes "a.b, ,c"
    else if str_eq k "NANO_BIND"
    then codes "0.0.0.0"
    else []

-- The same, but on the machine's own address.
abbrev at_home : String → EnvText
at_home k = if str_eq k "NANO_BIND" then codes "127.0.0.1" else getenv k

from_env-test :
    from_env lower getenv
    ≡ ok (record empty_config {
      port = 9000;
      bind = codes "0.0.0.0";
      trusted_origins = codes "a.b" ∷ codes "c" ∷ [];
    })
unfolding from_env split_on trim_left trim_right
from_env-test = refl

-- Local mode does not listen on every address.
load_local_config-test :
    load_local_config lower getenv (codes "d") (codes "d/gateway.db") ≡ err bad_bind
unfolding load_local_config from_env split_on trim_left trim_right
load_local_config-test = refl

parse_mode-test :
    (parse_mode lower (codes " local ") ≡ ok (codes "local"))
    × (parse_mode lower [] ≡ ok (codes "server"))
unfolding parse_mode trim_left trim_right
parse_mode-test = (refl, refl)

loaded-Sound_example :
    Results Sound (load_env_config lower at_home)
    × Results Local (load_local_config lower at_home (codes "d") (codes "d/gateway.db"))
loaded-Sound_example = loaded-Sound lower at_home (codes "d") (codes "d/gateway.db")
