-- ===== src/FetchHooks/Cache/Legacy.antt =====
-- The log server, and the files that packages/fetch-hooks/src/cache-manager.ts uses without a storage.
use effect_native.Prelude.{Bool, false, Option, none, some, List, [], ◌∷◌, Text, if◌then◌else◌}
use effect_native.FetchHooks.Io.{Action, continue, ◌>>=◌, ◌>>◌, return, ensure_dir}
use effect_native.FetchHooks.Sse.{TimedChunk}
use effect_native.FetchHooks.FlatFiles.{JsonAt, or_throw}
use effect_native.FetchHooks.Host.{Host, Response, LogEntry, log_write, log_read, is_ok, catch}
use effect_native.FetchHooks.Types.{CachedResponseMeta, StorableResponse}

module _ {W : Type 0} (host : Host W) where
  unfoldable pub try_dev_fs_logs_write : Text → LogEntry host.lines.Value → Action W Bool
  try_dev_fs_logs_write cache_id entry w = catch false (
      continue (host.internal_fetch (log_write cache_id entry) w)
        (λ response. return (is_ok response)))

  -- `tryDevFsLogsRead`, with the type that the answer is cast to.
  abbrev pub ask : {A : Type 0} → (Response → Action W (Option A)) → Text → Action W (Option A)
  ask json cache_id w = catch none (
      continue (host.internal_fetch (log_read cache_id) w)
        (λ response. if is_ok response then json response else return none))

  unfoldable pub read_logged_meta : Text → Action W (Option CachedResponseMeta)
  read_logged_meta = ask host.meta_in

  unfoldable pub read_logged_chunks : Text → Action W (Option (List TimedChunk))
  read_logged_chunks = ask host.chunks_in

  unfoldable pub read_logged_response : Text → Action W (Option StorableResponse)
  read_logged_response = ask host.response_in

  abbrev pub cache_path : Text → Text → Text
  cache_path cache_key filename = host.fs.join (host.cache_dir ∷ cache_key ∷ filename ∷ [])

  -- The answer is the path of the directory.
  unfoldable pub ensure_cache_dir : Text → Action W Text
  unfolding ensure_dir
  ensure_cache_dir cache_key = do
    ensure_dir host.fs (host.fs.join (host.cache_dir ∷ cache_key ∷ []))
    return (host.fs.join (host.cache_dir ∷ cache_key ∷ []))

  unfoldable pub write_json_file : {V : Type 0} → JsonAt V → Text → V → Action W (Unit {0})
  write_json_file json file_path value = host.fs.write_text file_path (json.stringify value)

  unfoldable pub read_text_file : Text → Action W (Option Text)
  read_text_file file_path w =
      if host.fs.exists file_path w
      then continue (host.fs.read_text file_path w) (λ content. return (some content))
      else (some none, w)

  unfoldable pub read_json_file : {V : Type 0} → JsonAt V → Text → Action W (Option V)
  read_json_file json file_path w =
      if host.fs.exists file_path w
      then continue (host.fs.read_text file_path w)
          (λ content. or_throw (json.parse content) >>= λ value. return (some value))
      else (some none, w)
