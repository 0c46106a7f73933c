-- ===== src/Config/Precedence.antt =====
-- internal/config/config.go: what stands where a value comes from several places.
use agent_cortex.Prelude.{
  true, false, Bytes, List, [], ◌∷◌, All, ◌≡◌, refl, ◌⊎◌, inl, inr, Bool-cases,
}
use mathlib.Core.Path.{subst}
use agent_cortex.Prelude.Text.{codes}
use agent_cortex.Strings.{is_empty}
use agent_cortex.Errors.{Result, ok, >>=-eq-ok}
use agent_cortex.Config.{
  Config, Environment, Unmarshal, getenv, default_config, from_env_with_base, from_yaml,
  from_yaml_file, load,
}

-- The variable of every field.
abbrev pub variables : List (Bytes × (Config → Bytes))
variables =
    (codes "ADDR", λ c. c.addr)
    ∷ (codes "DATABASE_PATH", λ c. c.database_path)
    ∷ (codes "STORAGE_BACKEND", λ c. c.storage_backend)
    ∷ (codes "EMBEDDING_PROVIDER", λ c. c.embedding_provider)
    ∷ (codes "EMBEDDING_ENDPOINT", λ c. c.embedding_endpoint)
    ∷ (codes "MODEL_PROVIDER", λ c. c.model_provider)
    ∷ (codes "MODEL_ENDPOINT", λ c. c.model_endpoint)
    ∷ (codes "MODEL_API_KEY", λ c. c.model_api_key)
    ∷ (codes "MODEL_NAME", λ c. c.model_name)
    ∷ (codes "MODEL_TIMEOUT", λ c. c.model_timeout)
    ∷ (codes "SERVER_ENDPOINT", λ c. c.server_endpoint)
    ∷ (codes "AGENT_ID", λ c. c.agent_id)
    ∷ (codes "USER_ID", λ c. c.user_id)
    ∷ (codes "SYSTEM_PROMPT", λ c. c.system_prompt)
    ∷ []

-- The value of a variable that is set, and otherwise that of the configuration below.
abbrev pub Follows : Environment → Config → Config → Bytes × (Config → Bytes) → Type 0
Follows env base c (key, field) =
    ((is_empty (env key) ≡ false) × (field c ≡ env key))
    ⊎ ((is_empty (env key) ≡ true) × (field c ≡ field base))

-- The configuration below the environment: the file's, or the default one where no file is named.
abbrev pub Below : Unmarshal → (Bytes → Result Bytes) → Bytes → Config → Type 0
Below unmarshal read path base =
    ((path ≡ []) × (base ≡ default_config))
    ⊎ ((text : Bytes) × (read path ≡ ok text) × (unmarshal text default_config ≡ ok base))

getenv-Follows :
    (env : Environment) (key value : Bytes)
    → ((is_empty (env key) ≡ false) × (getenv env key value ≡ env key))
      ⊎ ((is_empty (env key) ≡ true) × (getenv env key value ≡ value))
getenv-Follows env key value = elim (Bool-cases (is_empty (env key))) [
  | inl e ↦ rw (e) (inr (refl, refl))
  | inr e ↦ rw (e) (inl (refl, refl))
]

from_env_with_base-Follows :
    (env : Environment) (base : Config)
    → All (Follows env base (from_env_with_base env base)) variables
unfolding from_env_with_base
from_env_with_base-Follows env base = (
  getenv-Follows env (codes "ADDR") base.addr,
  (
    getenv-Follows env (codes "DATABASE_PATH") base.database_path,
    (
      getenv-Follows env (codes "STORAGE_BACKEND") base.storage_backend,
      (
        getenv-Follows env (codes "EMBEDDING_PROVIDER") base.embedding_provider,
        (
          getenv-Follows env (codes "EMBEDDING_ENDPOINT") base.embedding_endpoint,
          (
            getenv-Follows env (codes "MODEL_PROVIDER") base.model_provider,
            (
              getenv-Follows env (codes "MODEL_ENDPOINT") base.model_endpoint,
              (
                getenv-Follows env (codes "MODEL_API_KEY") base.model_api_key,
                (
                  getenv-Follows env (codes "MODEL_NAME") base.model_name,
                  (
                    getenv-Follows env (codes "MODEL_TIMEOUT") base.model_timeout,
                    (
                      getenv-Follows env (codes "SERVER_ENDPOINT") base.server_endpoint,
                      (
                        getenv-Follows env (codes "AGENT_ID") base.agent_id,
                        (
                          getenv-Follows env (codes "USER_ID") base.user_id,
                          (getenv-Follows env (codes "SYSTEM_PROMPT") base.system_prompt, tt),
                        ),
                      ),
                    ),
                  ),
                ),
              ),
            ),
          ),
        ),
      ),
    ),
  ),
)

laid_over :
    (env : Environment) (base c : Config)
    → ◌≡◌ {A = Result Config} (ok (from_env_with_base env base)) (ok c)
    → All (Follows env base c) variables
laid_over env base c h =
    let e : from_env_with_base env base ≡ c = cc (h) in
    subst (λ d. All (Follows env base d) variables) e (from_env_with_base-Follows env base)

-- A configuration that is loaded: below the environment stands the file's, laid over the default one, or
-- the default one where no file is named; each of the fourteen fields has the value of its own variable
-- when that is set, and otherwise the one from below.
pub load-Follows :
    (unmarshal : Unmarshal) (read : Bytes → Result Bytes) (env : Environment) (path : Bytes)
    (c : Config)
    → load unmarshal read env path ≡ ok c
    → (base : Config) × Below unmarshal read path base × All (Follows env base c) variables
unfolding load
load-Follows unmarshal read env [] c h =
    (default_config, inl (refl, refl), laid_over env default_config c h)
load-Follows unmarshal read env (b ∷ path) c h =
    let (base, e, h1) = >>=-eq-ok (from_yaml_file unmarshal read (b ∷ path)) _ h in
    let (text, k, h2) = >>=-eq-ok (read (b ∷ path)) (from_yaml unmarshal) e in
    (base, inr (text, k, h2), laid_over env base c h1)
