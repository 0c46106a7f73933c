-- ===== src/Embedding/Examples.antt =====
-- Runs of the embedders on samples.
use agent_cortex.Prelude.{◌≡◌, refl, true, false, List, [], ◌∷◌, none}
use agent_cortex.Prelude.Text.{codes}
use agent_cortex.Prelude.Int.{pos}
use agent_cortex.Strings.{
  trim_space, trim_right, trim_from, trim_left, space_width, space_width_back, is_empty,
}
use agent_cortex.Errors.{ok, foreign}
use agent_cortex.Memory.{Float32, validate_embedding, all_finite}
use agent_cortex.Embedding.{EmbeddingConfig, validate_vector}
use agent_cortex.Embedding.Llama.{Llama, EmbeddingPost, Answer, answered, embed}
use agent_cortex.Embedding.System.{System, absent, answered, expired, ticked}
use agent_cortex.Embedding.Checked.{embed-validate_embedding}

abbrev llama : Llama
llama = record {
  endpoint = codes "http://l";
  model = codes "m";
  dimensions = pos 4;
  api_key = [];
  timeout = pos 1;
}

abbrev zeros : List Float32
zeros = 0 ∷ 0 ∷ 0 ∷ 0 ∷ []

abbrev answering : EmbeddingPost → Answer
answering p = answered 200 (ok (zeros ∷ []))

embed-validate_embedding_example :
    (validate_embedding zeros ≡ ok tt) × (is_empty (trim_space (codes "Hi")) ≡ false)
unfolding embed validate_vector all_finite trim_space trim_right trim_from trim_left space_width
    space_width_back
embed-validate_embedding_example =
    embed-validate_embedding llama answering none none (codes "Hi") zeros refl refl

abbrev system : System
system = record {
  stat = λ path. absent;
  user_cache_dir = ok (codes "/cache");
  join_path = λ ps. codes "/cache/models";
  join_host_port = λ host port. host;
  parse_request_uri = λ s. none;
  make_dir = λ path. none;
  new_request = λ url. none;
  fetch = λ url. answered 200;
  create_temp = λ path. none;
  copy = λ path. none;
  close_temp = λ path. none;
  rename = λ path. none;
  stat_behind = λ path. absent;
  execute = λ l. none;
  wait = λ l. ticked (ticked (expired (foreign (codes "deadline exceeded"))));
}

abbrev config : EmbeddingConfig
config = record {
  provider = codes "llama.cpp";
  dimensions = pos 4;
  model = [];
  endpoint = [];
  api_key = [];
  timeout = pos 0;
  auto_start = true;
  executable_path = codes "llama-server";
  model_path = [];
  model_url = [];
  model_cache_dir = [];
  host = [];
  port = pos 0;
  startup_timeout = pos 0;
  extra_args = [];
}
