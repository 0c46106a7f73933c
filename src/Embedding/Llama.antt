-- ===== src/Embedding/Llama.antt =====
-- internal/embedding/llamacpp.go: vectors from a llama.cpp server. The sending of a request and
-- `encoding/json` are parameters.
use agent_cortex.Prelude.{
  ℕ, ◌*◌, ◌^◌, not, ◌&&◌, Bytes, List, [], ◌∷◌, ◌++◌, Option, none, some, leb, ltb, if◌then◌else◌,
}
use agent_cortex.Prelude.Int.{ℤ, pos, leb_ℤ}
use agent_cortex.Prelude.Text.{codes}
use agent_cortex.Strings.{trim_space, is_empty, trim_right_byte, drop_byte}
use agent_cortex.Errors.{
  Error, Result, ok, err, guard, sentinel, join, invalid_embedding_config, empty_input,
  embedding_unavailable, ◌>>=◌, ◌>>◌,
}
use agent_cortex.Memory.{Float32}
use agent_cortex.Embedding.{EmbeddingConfig, default_model, or_text, validate_vector}

-- `LlamaCPPEmbedder`, its timeout in nanoseconds.
pub record Llama : Type 0 where
  pub endpoint : Bytes
  pub model : Bytes
  pub dimensions : ℤ
  pub api_key : Bytes
  pub timeout : ℤ

-- 10 seconds
abbrev pub default_llama_timeout : ℤ
default_llama_timeout = pos (10 * 10 ^ 9)

-- `NewLlamaCPPEmbedder`
unfoldable pub new_llama : EmbeddingConfig → Result Llama
unfolding drop_byte
new_llama g =
    let endpoint = trim_right_byte b'/' (trim_space g.endpoint) in
    guard (not (leb_ℤ g.dimensions (pos 0))) invalid_embedding_config
    >> (guard (not (is_empty endpoint)) invalid_embedding_config
        >> ok (record {
          endpoint = endpoint;
          model = or_text (trim_space g.model) default_model;
          dimensions = g.dimensions;
          api_key = trim_space g.api_key;
          timeout = if leb_ℤ g.timeout (pos 0) then default_llama_timeout else g.timeout;
        }))

-- The request for a text, by its model and input.
pub record EmbeddingPost : Type 0 where
  pub url : Bytes
  pub authorization : Option Bytes
  pub model : Bytes
  pub input : Bytes

-- What becomes of a request: it cannot be made, gets no reply, or is answered with a status and the vectors
-- that the body holds, or the error of a body that holds none.
pub data Answer : Type 0 where
  unmade : Error → Answer
  unanswered : Error → Answer
  answered : ℕ → Result (List (List Float32)) → Answer

abbrev pub unavailable : Error → Error
unavailable e = join (sentinel embedding_unavailable) e

abbrev pub first_vector : Result (List (List Float32)) → Result (List Float32)
first_vector (err e) = err (unavailable e)
first_vector (ok []) = err (sentinel embedding_unavailable)
first_vector (ok ([] ∷ vs)) = err (sentinel embedding_unavailable)
first_vector (ok ((x ∷ v) ∷ vs)) = ok (x ∷ v)

-- The vector of an answer, with the error of the context behind a request that got none.
abbrev pub answer_vector : Option Error → Answer → Result (List Float32)
answer_vector late (unmade e) = err (unavailable e)
answer_vector none (unanswered e) = err (unavailable e)
answer_vector (some c) (unanswered e) = err c
answer_vector late (answered status vectors) =
    if leb 200 status && ltb status 300
    then first_vector vectors
    else err (sentinel embedding_unavailable)

module _ (l : Llama) (send : EmbeddingPost → Answer) where
  abbrev pub embedding_post : Bytes → EmbeddingPost
  embedding_post input = record {
    url = l.endpoint ++ codes "/v1/embeddings";
    authorization = if is_empty l.api_key then none else some (codes "Bearer " ++ l.api_key);
    model = l.model;
    input = input;
  }

  abbrev pub checked : List Float32 → Result (List Float32)
  checked v = validate_vector l.dimensions v >> ok v

  -- `Embed`, with the context's error at its start and behind a request that got no reply.
  unfoldable pub embed : Option Error → Option Error → Bytes → Result (List Float32)
  unfolding validate_vector
  embed (some e) late text = err e
  embed none late text =
      guard (not (is_empty (trim_space text))) empty_input
      >> (answer_vector late (send (embedding_post (trim_space text))) >>= checked)
