-- ===== src/Model/Providers.antt =====
-- internal/model/provider.go, and `NewOpenAICompatibleClient` of openai_compatible.go: the choice of a
-- provider.
use agent_cortex.Prelude.{◌*◌, ◌^◌, not, Bytes, bytes_eq, Option, none, some, if◌then◌else◌}
use agent_cortex.Prelude.Int.{ℤ, pos, leb_ℤ}
use agent_cortex.Prelude.Text.{codes}
use agent_cortex.Strings.{trim_space, is_empty, trim_right_byte, drop_byte}
use agent_cortex.Errors.{
  Error, Result, ok, err, guard, sentinel, invalid_model_config, unknown_model_provider, ◌>>◌,
}
use agent_cortex.Model.OpenAi.{ModelClient}

pub record ModelConfig : Type 0 where
  pub provider : Bytes
  pub endpoint : Bytes
  pub api_key : Bytes
  pub model : Bytes
  pub timeout : ℤ

abbrev pub openai_compatible : Bytes
openai_compatible = codes "openai-compatible"

-- 30 seconds
abbrev pub default_timeout : ℤ
default_timeout = pos (30 * 10 ^ 9)

abbrev pub or_default : ℤ → ℤ
or_default t = if leb_ℤ t (pos 0) then default_timeout else t

-- `NewOpenAICompatibleClient`
unfoldable pub new_model_client : ModelConfig → Result ModelClient
unfolding drop_byte
new_model_client g =
    let endpoint = trim_right_byte b'/' (trim_space g.endpoint) in
    let model = trim_space g.model in
    guard (not (is_empty endpoint)) invalid_model_config
    >> (guard (not (is_empty model)) invalid_model_config
        >> ok (record {
          endpoint = endpoint;
          model = model;
          api_key = trim_space g.api_key;
          timeout = or_default g.timeout;
        }))

-- `NewProviderWithContext`, with the context's error. Its client streams, so that
-- `NewStreamingProviderWithContext` returns the same.
unfoldable pub new_provider : Option Error → ModelConfig → Result ModelClient
unfolding new_model_client
new_provider (some e) g = err e
new_provider none g =
    let provider = if is_empty g.provider then openai_compatible else g.provider in
    if bytes_eq provider openai_compatible
    then new_model_client (record g { timeout = or_default g.timeout })
    else err (sentinel unknown_model_provider)
