-- ===== src/Config.antt =====
-- internal/config/config.go: the configuration and where its values come from. The YAML library and the
-- reading of a file are parameters, and so is the environment, a text for each name.
pub mod Precedence
use agent_cortex.Prelude.{Bytes, if◌then◌else◌, [], ◌∷◌, List}
use agent_cortex.Prelude.Text.{codes}
use agent_cortex.Strings.{is_empty}
use agent_cortex.Errors.{Error, Result, ok, err, ◌>>=◌}

pub record Config : Type 0 where
  pub addr : Bytes
  pub database_path : Bytes
  pub storage_backend : Bytes
  pub embedding_provider : Bytes
  pub embedding_endpoint : Bytes
  pub model_provider : Bytes
  pub model_endpoint : Bytes
  pub model_api_key : Bytes
  pub model_name : Bytes
  pub model_timeout : Bytes
  pub server_endpoint : Bytes
  pub agent_id : Bytes
  pub user_id : Bytes
  pub system_prompt : Bytes

-- `Default`
abbrev pub default_config : Config
default_config = record {
  addr = codes ":8080";
  database_path = codes "agent_memory.db";
  storage_backend = codes "sqlitevec";
  embedding_provider = codes "static";
  embedding_endpoint = codes "http://127.0.0.1:8081";
  model_provider = codes "openai-compatible";
  model_endpoint = [];
  model_api_key = [];
  model_name = [];
  model_timeout = codes "30s";
  server_endpoint = codes "http://127.0.0.1:8080";
  agent_id = [];
  user_id = [];
  system_prompt = [];
}

abbrev pub Environment : Type 0
Environment = Bytes → Bytes

-- `getenv`
abbrev pub getenv : Environment → Bytes → Bytes → Bytes
getenv env key fallback = if is_empty (env key) then fallback else env key

-- `FromEnvWithBase`
unfoldable pub from_env_with_base : Environment → Config → Config
from_env_with_base env base = record {
  addr = getenv env (codes "ADDR") base.addr;
  database_path = getenv env (codes "DATABASE_PATH") base.database_path;
  storage_backend = getenv env (codes "STORAGE_BACKEND") base.storage_backend;
  embedding_provider = getenv env (codes "EMBEDDING_PROVIDER") base.embedding_provider;
  embedding_endpoint = getenv env (codes "EMBEDDING_ENDPOINT") base.embedding_endpoint;
  model_provider = getenv env (codes "MODEL_PROVIDER") base.model_provider;
  model_endpoint = getenv env (codes "MODEL_ENDPOINT") base.model_endpoint;
  model_api_key = getenv env (codes "MODEL_API_KEY") base.model_api_key;
  model_name = getenv env (codes "MODEL_NAME") base.model_name;
  model_timeout = getenv env (codes "MODEL_TIMEOUT") base.model_timeout;
  server_endpoint = getenv env (codes "SERVER_ENDPOINT") base.server_endpoint;
  agent_id = getenv env (codes "AGENT_ID") base.agent_id;
  user_id = getenv env (codes "USER_ID") base.user_id;
  system_prompt = getenv env (codes "SYSTEM_PROMPT") base.system_prompt;
}

-- `FromEnv`
abbrev pub from_env : Environment → Config
from_env env = from_env_with_base env default_config

-- The YAML library changes the fields that a text names, or fails.
abbrev pub Unmarshal : Type 0
Unmarshal = Bytes → Config → Result Config

-- `FromYAML`
abbrev pub from_yaml : Unmarshal → Bytes → Result Config
from_yaml unmarshal text = unmarshal text default_config

-- `FromYAMLFile`, with `FromYAMLReader`; the file is opened and read as a whole, or fails.
abbrev pub from_yaml_file : Unmarshal → (Bytes → Result Bytes) → Bytes → Result Config
from_yaml_file unmarshal read path = read path >>= from_yaml unmarshal

-- `Load`
unfoldable pub load : Unmarshal → (Bytes → Result Bytes) → Environment → Bytes → Result Config
unfolding from_env_with_base
load unmarshal read env path =
    if is_empty path
    then ok (from_env env)
    else from_yaml_file unmarshal read path >>= (λ c. ok (from_env_with_base env c))
