-- ===== src/Embedding.antt =====
-- internal/embedding/embedder.go and provider.go: vectors of texts, and the configuration of what makes
-- them.
mod Examples
pub mod Llama
pub mod System
pub mod Managed
pub mod Providers
pub mod Checked
use agent_cortex.Prelude.{ℕ, Bool, not, Bytes, List, length, if◌then◌else◌}
use agent_cortex.Prelude.Int.{ℤ, pos, leb_ℤ, eqb_ℤ}
use agent_cortex.Prelude.Text.{codes}
use agent_cortex.Strings.{is_empty}
use agent_cortex.Errors.{
  Result, guard, invalid_embedding_config, invalid_vector, invalid_vector_value, ◌>>◌,
}
use agent_cortex.Memory.{Float32, all_finite}

pub record EmbeddingConfig : Type 0 where
  pub provider : Bytes
  pub dimensions : ℤ
  pub model : Bytes
  pub endpoint : Bytes
  pub api_key : Bytes
  pub timeout : ℤ
  pub auto_start : Bool
  pub executable_path : Bytes
  pub model_path : Bytes
  pub model_url : Bytes
  pub model_cache_dir : Bytes
  pub host : Bytes
  pub port : ℤ
  pub startup_timeout : ℤ
  pub extra_args : List Bytes

abbrev pub provider_static : Bytes
provider_static = codes "static"

abbrev pub provider_llama : Bytes
provider_llama = codes "llama.cpp"

abbrev pub default_model : Bytes
default_model = codes "ggml-org/embeddinggemma-300m-qat-q8_0-GGUF"

abbrev pub default_model_file : Bytes
default_model_file = codes "embeddinggemma-300m-qat-Q8_0.gguf"

abbrev pub or_text : Bytes → Bytes → Bytes
or_text said fallback = if is_empty said then fallback else said

-- `Vector.Validate`
unfoldable pub validate_vector : ℤ → List Float32 → Result (Unit {0})
unfolding all_finite
validate_vector dimensions v =
    guard (not (leb_ℤ dimensions (pos 0))) invalid_embedding_config
    >> (guard (eqb_ℤ (pos (length v)) dimensions) invalid_vector
        >> guard (all_finite v) invalid_vector_value)
