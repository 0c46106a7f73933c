-- ===== src/Embedding/Managed.antt =====
-- internal/embedding/llamacpp_managed.go: a llama.cpp server that the program starts itself.
use agent_cortex.Prelude.{
  ◌*◌, ◌^◌, Bool, true, false, not, ◌||◌, Bytes, bytes_eq, List, [], ◌∷◌, ◌++◌, none, some,
  if◌then◌else◌,
}
use agent_cortex.Prelude.Int.{ℤ, pos, pos_part, leb_ℤ, ltb_ℤ, eqb_ℤ}
use agent_cortex.Prelude.Text.{codes}
use agent_cortex.Strings.{trim_space, is_empty, trim_right_byte, drop_byte}
use agent_cortex.Decimal.{itoa}
use agent_cortex.Errors.{
  Result, ok, err, guard, sentinel, join, invalid_embedding_config, ◌>>=◌, ◌>>◌,
}
use agent_cortex.Embedding.System.{
  System, Launch, Happening, closed, model_file_ready, download, start_process,
}
use agent_cortex.Embedding.{EmbeddingConfig, default_model_file, default_model, or_text}
use agent_cortex.Embedding.Llama.{Llama, new_llama}

abbrev pub default_model_url : Bytes
default_model_url =
    codes "https://huggingface.co/"
    ++ (default_model ++ (codes "/resolve/main/" ++ default_model_file))

abbrev pub default_host : Bytes
default_host = codes "127.0.0.1"

-- 30 seconds
abbrev pub default_startup_timeout : ℤ
default_startup_timeout = pos (30 * 10 ^ 9)

-- `connectHost`
abbrev pub connect_host : Bytes → Bytes
connect_host host =
    if is_empty host || bytes_eq host (codes "0.0.0.0") || bytes_eq host (codes "::")
    then default_host
    else host

abbrev pub as_config_error {ℓ} : {A : Type ℓ} → Result A → Result A
as_config_error (ok a) = ok a
as_config_error (err e) = err (join (sentinel invalid_embedding_config) e)

module _ (s : System) where
  abbrev pub cache_dir : Bytes → Result Bytes
  cache_dir said =
      if is_empty said
      then as_config_error s.user_cache_dir
        >>= (λ d. ok (s.join_path (d ∷ codes "agent-cortex" ∷ codes "models" ∷ [])))
      else ok said

  -- `defaultLlamaCPPModelPath`
  abbrev pub default_model_path : EmbeddingConfig → Result Bytes
  default_model_path g =
      cache_dir (trim_space g.model_cache_dir)
      >>= (λ d. ok (s.join_path (d ∷ default_model_file ∷ [])))

  abbrev pub wanted_path : EmbeddingConfig → Result Bytes
  wanted_path g =
      if is_empty (trim_space g.model_path)
      then default_model_path g
      else ok (trim_space g.model_path)

  abbrev pub fetched : EmbeddingConfig → Bytes → Bool → Result Bytes
  fetched g path true = ok path
  fetched g path false =
      download s (record { url = or_text (trim_space g.model_url) default_model_url; path = path })

  -- `ensureLlamaCPPModel`
  unfoldable pub ensure_model : EmbeddingConfig → Result EmbeddingConfig
  ensure_model g = do
    path ← wanted_path g
    ready ← model_file_ready (s.stat path)
    found ← fetched g path ready
    ok (record g { model_path = found })

  abbrev pub or_port : ℤ → ℤ
  or_port port = if eqb_ℤ port (pos 0) then pos 8081 else port

  -- `endpointForLlamaCPP`; the port is not negative.
  abbrev pub endpoint_for : Bytes → ℤ → Bytes
  endpoint_for host port =
      codes "http://" ++ s.join_host_port (connect_host host) (itoa (pos_part port))

  abbrev pub launch_endpoint : Bytes → Bytes → ℤ → Result Bytes
  launch_endpoint said host port =
      if is_empty said then ok (endpoint_for host port) else elim (s.parse_request_uri said) [
        | none ↦ ok said
        | some e ↦ err (join (sentinel invalid_embedding_config) e)
      ]

  -- `newLlamaCPPLaunchConfig`
  unfoldable pub new_launch : EmbeddingConfig → Result Launch
  unfolding drop_byte
  new_launch g =
      let executable = trim_space g.executable_path in
      let path = trim_space g.model_path in
      let host = or_text (trim_space g.host) default_host in
      let port = or_port g.port in
      guard (not (is_empty executable)) invalid_embedding_config
      >> (guard (not (is_empty path)) invalid_embedding_config
          >> (guard (not (ltb_ℤ port (pos 0) || ltb_ℤ (pos 65535) port)) invalid_embedding_config
              >> (launch_endpoint (trim_right_byte b'/' (trim_space g.endpoint)) host port
                  >>= (λ endpoint. ok (record {
                    executable = executable;
                    args =
                        (codes "-m"
                          ∷ path
                          ∷ codes "--embedding"
                          ∷ codes "--host"
                          ∷ host
                          ∷ codes "--port"
                          ∷ itoa (pos_part port)
                          ∷ [])
                        ++ g.extra_args;
                    endpoint = endpoint;
                    address = s.join_host_port (connect_host host) (itoa (pos_part port));
                    startup_timeout =
                        if leb_ℤ g.startup_timeout (pos 0)
                        then default_startup_timeout
                        else g.startup_timeout;
                  })))))

  abbrev pub with_process : List Happening → Result Llama → List Happening × Result Llama
  with_process hs (err e) = (hs ++ closed ∷ [], err e)
  with_process hs (ok l) = (hs, ok l)

  abbrev pub started_at :
      EmbeddingConfig → List Happening × Result Bytes → List Happening × Result Llama
  started_at g (hs, err e) = (hs, err e)
  started_at g (hs, ok endpoint) = with_process hs (new_llama (record g { endpoint = endpoint }))

  abbrev pub launched : EmbeddingConfig → Result Launch → List Happening × Result Llama
  launched g (err e) = ([], err e)
  launched g (ok launch) = started_at g (start_process s launch)

  abbrev pub with_model : Result EmbeddingConfig → List Happening × Result Llama
  with_model (err e) = ([], err e)
  with_model (ok g) = launched g (new_launch g)

  -- `newManagedLlamaCPPEmbedder`, with what it does to the process.
  unfoldable pub new_managed : EmbeddingConfig → List Happening × Result Llama
  unfolding ensure_model new_launch new_llama start_process
  new_managed g =
      if is_empty (trim_space g.executable_path)
      then ([], err (sentinel invalid_embedding_config))
      else with_model (ensure_model g)
