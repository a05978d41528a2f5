-- ===== src/Dotenv/Examples.antt =====
-- A file with a comment, an exported assignment of the key and another one.
use nano_llm_proxy.Prelude.{◌≡◌, refl, some, [], ◌∷◌, codes, split_on, trim_left, trim_right}
use nano_llm_proxy.Dotenv.{Chars, load_dot_env, set_dot_env, get_var, parse_line}
use nano_llm_proxy.Dotenv.Settled.{Loads}
use nano_llm_proxy.Dotenv.RoundTrip.{load_dot_env-set_dot_env}

abbrev file : Chars
file = codes "# x\nexport A = 1\nB='2 3'\nA=4\n"

set_dot_env-test : set_dot_env (some file) (codes "A") (codes "5") ≡ codes "# x\nA=5\nB='2 3'\n"
unfolding set_dot_env split_on trim_left trim_right
set_dot_env-test = refl

load_dot_env-test :
    load_dot_env (some file) [] ≡ some ((codes "B", codes "2 3") ∷ (codes "A", codes "1") ∷ [])
unfolding load_dot_env split_on trim_left trim_right
load_dot_env-test = refl

load_dot_env-set_dot_env_example :
    Loads
      (codes "A")
      (codes "5")
      (load_dot_env (some (set_dot_env (some file) (codes "A") (codes "5"))) [])
unfolding split_on trim_left trim_right parse_line get_var
load_dot_env-set_dot_env_example =
    load_dot_env-set_dot_env (some file) (codes "A") (codes "5") [] (refl, (refl, (refl, tt))) refl
      ((λ e. cc), ((λ e. cc), ((λ e. cc), ((λ e. cc), tt)))) refl
