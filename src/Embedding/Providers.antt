-- ===== src/Embedding/Providers.antt =====
-- internal/embedding/provider.go: the choice of what makes the vectors. The static embedder, which hashes
-- texts, is known by its dimensions only.
use agent_cortex.Prelude.{Bool, true, false, bytes_eq, List, [], if◌then◌else◌}
use agent_cortex.Prelude.Int.{ℤ, pos, leb_ℤ}
use agent_cortex.Errors.{
  Result, ok, err, sentinel, invalid_embedding_config, unknown_embedding_provider, ◌>>=◌,
}
use agent_cortex.Embedding.{EmbeddingConfig, provider_static, provider_llama, or_text}
use agent_cortex.Embedding.Llama.{Llama, new_llama}
use agent_cortex.Embedding.System.{System, Happening}
use agent_cortex.Embedding.Managed.{new_managed}

pub data Embedder : Type 0 where
  by_hash : ℤ → Embedder
  by_llama : Llama → Embedder
  by_process : Llama → Embedder

-- `NewStaticEmbedder`
abbrev pub new_static : ℤ → Result Embedder
new_static dimensions =
    if leb_ℤ dimensions (pos 0)
    then err (sentinel invalid_embedding_config)
    else ok (by_hash dimensions)

-- A llama.cpp server that the program starts, or one that runs already.
abbrev pub llama_provider :
    Bool → List Happening × Result Llama → Result Llama → List Happening × Result Embedder
llama_provider true (hs, r) other = (hs, r >>= (λ l. ok (by_process l)))
llama_provider false managed r = ([], r >>= (λ l. ok (by_llama l)))

-- `NewProviderWithContext`, with what it does to a process.
unfoldable pub new_provider : System → EmbeddingConfig → List Happening × Result Embedder
new_provider s g =
    let provider = or_text g.provider provider_static in
    if leb_ℤ g.dimensions (pos 0)
    then ([], err (sentinel invalid_embedding_config))
    else if bytes_eq provider provider_static
    then ([], new_static g.dimensions)
    else if bytes_eq provider provider_llama
    then llama_provider g.auto_start (new_managed s g) (new_llama g)
    else ([], err (sentinel unknown_embedding_provider))
