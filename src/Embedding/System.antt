-- ===== src/Embedding/System.antt =====
-- internal/embedding/llamacpp_managed.go: the system around the program, and what the program does to it: the
-- download of a model's file, and the start of a process.
use agent_cortex.Prelude.{
  ℕ, Bool, true, false, not, ◌&&◌, Bytes, List, [], ◌∷◌, Option, none, some, ◌==◌, leb, ltb,
}
use agent_cortex.Prelude.Int.{ℤ}
use agent_cortex.Strings.{trim_space, is_empty}
use agent_cortex.Errors.{
  Error, Result, Sentinel, ok, err, guard, sentinel, join, invalid_embedding_config,
  embedding_unavailable, ◌>>◌,
}

-- What `os.Stat` says of a path.
pub data Stat : Type 0 where
  directory : Stat
  regular : ℕ → Stat
  absent : Stat
  stat_error : Error → Stat

pub record Download : Type 0 where
  pub url : Bytes
  pub path : Bytes

pub record Launch : Type 0 where
  pub executable : Bytes
  pub args : List Bytes
  pub endpoint : Bytes
  pub address : Bytes
  pub startup_timeout : ℤ

-- What `http.DefaultClient.Do` gives: a status, or an error, with the error of the context at that moment.
pub data Fetched : Type 0 where
  answered : ℕ → Fetched
  unreachable : Error → Option Error → Fetched

-- What the loop of `waitForLlamaCPP` gets to see. A dial connects; or it fails and the startup context is
-- over, or the ticker comes first and the loop goes on. The context has a timeout, so that the wait ends.
pub data Wait : Type 0 where
  connected : Wait
  expired : Error → Wait
  ticked : Wait → Wait

-- The calls of os, path/filepath, net, net/url, net/http and os/exec. The temporary file of a download is known
-- by the path that it is for; its removal at the end is left out.
pub record System : Type 0 where
  pub stat : Bytes → Stat
  pub user_cache_dir : Result Bytes
  pub join_path : List Bytes → Bytes
  pub join_host_port : Bytes → Bytes → Bytes
  pub parse_request_uri : Bytes → Option Error
  pub make_dir : Bytes → Option Error
  pub new_request : Bytes → Option Error
  pub fetch : Bytes → Fetched
  pub create_temp : Bytes → Option Error
  pub copy : Bytes → Option Error
  pub close_temp : Bytes → Option Error
  pub rename : Bytes → Option Error
  pub stat_behind : Bytes → Stat
  pub execute : Launch → Option Error
  pub wait : Launch → Wait

-- `llamaCPPModelFileReady`
abbrev pub model_file_ready : Stat → Result Bool
model_file_ready directory = err (sentinel invalid_embedding_config)
model_file_ready (regular size) = guard (not (size == 0)) invalid_embedding_config >> ok true
model_file_ready absent = ok false
model_file_ready (stat_error e) = err (join (sentinel invalid_embedding_config) e)

-- What happens to a process: it runs, or `Close` has cancelled it and waited for its end.
pub data Happening : Type 0 where
  begun : Launch → Happening
  closed : Happening

-- An error of the system under one of the program's.
abbrev pub or_fail : Sentinel → Option Error → Result (Unit {0})
or_fail cause none = ok tt
or_fail cause (some e) = err (join (sentinel cause) e)

abbrev pub is_success : ℕ → Bool
is_success status = leb 200 status && ltb status 300

abbrev pub fetch_result : Fetched → Result (Unit {0})
fetch_result (answered status) = guard (is_success status) embedding_unavailable
fetch_result (unreachable e none) = err (join (sentinel embedding_unavailable) e)
fetch_result (unreachable e (some ended)) = err ended

-- A `Rename` that fails is no error where a model's file stands by then.
abbrev pub renamed : Bytes → Option Error → Result Bool → Result Bytes
renamed path none there = ok path
renamed path (some e) (ok true) = ok path
renamed path (some e) (ok false) = err (join (sentinel embedding_unavailable) e)
renamed path (some e) (err f) = err (join (sentinel embedding_unavailable) e)

-- `waitForLlamaCPP`
unfoldable pub wait_for : Wait → Option Error
wait_for connected = none
wait_for (expired e) = some (join (sentinel embedding_unavailable) e)
wait_for (ticked w) = wait_for w

module _ (s : System) where
  -- `downloadLlamaCPPModel`
  unfoldable pub download : Download → Result Bytes
  download d =
      let url = trim_space d.url in
      let path = trim_space d.path in
      guard (not (is_empty url)) invalid_embedding_config
      >> (guard (not (is_empty path)) invalid_embedding_config
          >> (or_fail embedding_unavailable (s.make_dir path)
              >> (or_fail invalid_embedding_config (s.new_request url)
                  >> (fetch_result (s.fetch url)
                      >> (or_fail embedding_unavailable (s.create_temp path)
                          >> (or_fail embedding_unavailable (s.copy path)
                              >> (or_fail embedding_unavailable (s.close_temp path)
                                  >> renamed path (s.rename path)
                                      (model_file_ready (s.stat_behind path)))))))))

  -- The process runs; it is closed when nobody answers at its address in time.
  abbrev pub waited : Launch → Option Error → List Happening × Result Bytes
  waited launch (some e) = (begun launch ∷ closed ∷ [], err e)
  waited launch none = (begun launch ∷ [], ok launch.endpoint)

  abbrev pub executed : Launch → Option Error → List Happening × Result Bytes
  executed launch (some e) = ([], err (join (sentinel embedding_unavailable) e))
  executed launch none = waited launch (wait_for (s.wait launch))

  -- `startLlamaCPPProcess`
  unfoldable pub start_process : Launch → List Happening × Result Bytes
  unfolding wait_for
  start_process launch = executed launch (s.execute launch)
