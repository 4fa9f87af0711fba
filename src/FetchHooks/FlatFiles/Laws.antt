-- ===== src/FetchHooks/FlatFiles/Laws.antt =====
-- The storage of packages/fetch-hooks/src/flat-file-storage.ts implements the abstract cache.
use effect_native.Prelude.{◌≡◌, ap, ◌∙◌, true, false, not, ◌==◌, some, List, Text, is_blank, all}
use effect_native.Prelude.Int.{pos}
use effect_native.FetchHooks.Io.{FileSystem}
use effect_native.FetchHooks.Sse.{TimedChunk}
use effect_native.FetchHooks.Jsonl.{JsonlRecord, fields_of, timed_chunks_to_jsonl}
use effect_native.FetchHooks.Jsonl.Laws.{reread, jsonl_to_timed_chunks-timed_chunks_to_jsonl}
use effect_native.FetchHooks.Types.{CacheKey, CachedRequest, CachedResponseMeta}
use effect_native.FetchHooks.Implements.{update, Writes, Implements}
use effect_native.FetchHooks.FlatFiles.{set_json, set_jsonl, create_flat_file_storage}
use effect_native.FetchHooks.FlatFiles.Disk.{request, meta, body, binary, chunks, IsDisk, saved}
use effect_native.FetchHooks.FlatFiles.View.{or_none, Formats}
use effect_native.FetchHooks.FlatFiles.Reads.{
  get_json_lem, get_text_lem, get_binary_lem, get_jsonl_lem,
}
use effect_native.FetchHooks.FlatFiles.Writes.{
  is_some_of, view, IsValid, storage, after_write, view_after, set_body_writes, set_binary_writes,
}

module _ {W : Type 0} (fs : FileSystem W) (base_dir : Text) (disk : IsDisk fs base_dir)
    (formats : Formats)
    (h_request : (v : CachedRequest formats.lines.Value)
      → formats.json_request.parse (formats.json_request.stringify v) ≡ some v)
    (h_meta : (v : CachedResponseMeta)
      → formats.json_meta.parse (formats.json_meta.stringify v) ≡ some v)
    (h_parse : (r : JsonlRecord formats.lines.Value)
      → formats.lines.parse_line (formats.lines.stringify_record r) ≡ some (fields_of r))
    (h_line : (r : JsonlRecord formats.lines.Value)
      → all (λ c. not (c == 10)) (formats.lines.stringify_record r) ≡ true)
    (h_blank : (r : JsonlRecord formats.lines.Value)
      → is_blank (formats.lines.stringify_record r) ≡ false) where
  set_meta_writes :
      (k : CacheKey) (v : CachedResponseMeta) (w : W)
      → disk.plain k.0 ≡ true
      → IsValid fs base_dir disk formats w
      → Writes
          (IsValid fs base_dir disk formats)
          (view fs base_dir disk formats)
          ((storage fs base_dir disk formats).response_meta.set k v)
          w
          (record (view fs base_dir disk formats w) {
            meta = update (view fs base_dir disk formats w).meta k.0 (some v);
          })
  unfolding storage set_json
  set_meta_writes (k, r) v w h e =
      let t : Text = formats.json_meta.stringify v in
      let (w', done, written, encoded) = saved fs base_dir disk k meta t w h in
      (
        w',
        done,
        after_write fs base_dir disk formats k meta t w w' h e written (λ p. cc)
            (λ p. is_some_of (h_meta v)) (λ p. cc),
        view_after fs base_dir disk formats k meta t (disk.encode t) w w' h written encoded
            ∙ ap
                (λ o. record (view fs base_dir disk formats w) {
                  meta = update (view fs base_dir disk formats w).meta k o;
                })
                (h_meta v),
      )

  set_request_writes :
      (k : CacheKey) (v : CachedRequest formats.lines.Value) (w : W)
      → disk.plain k.0 ≡ true
      → IsValid fs base_dir disk formats w
      → Writes
          (IsValid fs base_dir disk formats)
          (view fs base_dir disk formats)
          ((storage fs base_dir disk formats).requests.set k v)
          w
          (record (view fs base_dir disk formats w) {
            request = update (view fs base_dir disk formats w).request k.0 (some v);
          })
  unfolding storage set_json
  set_request_writes (k, r) v w h e =
      let t : Text = formats.json_request.stringify v in
      let (w', done, written, encoded) = saved fs base_dir disk k request t w h in
      (
        w',
        done,
        after_write fs base_dir disk formats k request t w w' h e written
            (λ p. is_some_of (h_request v)) (λ p. cc) (λ p. cc),
        view_after fs base_dir disk formats k request t (disk.encode t) w w' h written encoded
            ∙ ap
                (λ o. record (view fs base_dir disk formats w) {
                  request = update (view fs base_dir disk formats w).request k o;
                })
                (h_request v),
      )

  set_chunks_writes :
      (k : CacheKey) (v : List TimedChunk) (w : W)
      → disk.plain k.0 ≡ true
      → IsValid fs base_dir disk formats w
      → Writes
          (IsValid fs base_dir disk formats)
          (view fs base_dir disk formats)
          ((storage fs base_dir disk formats).sse_chunks.set k v)
          w
          (record (view fs base_dir disk formats w) {
            chunks =
                update
                  (view fs base_dir disk formats w).chunks
                  k.0
                  (reread formats.lines (pos 0) v);
          })
  unfolding storage set_jsonl
  set_chunks_writes (k, r) v w h e =
      let t : Text = timed_chunks_to_jsonl formats.lines v in
      let back =
        jsonl_to_timed_chunks-timed_chunks_to_jsonl formats.lines h_parse h_line h_blank v in
      let (w', done, written, encoded) = saved fs base_dir disk k chunks t w h in
      (
        w',
        done,
        after_write fs base_dir disk formats k chunks t w w' h e written (λ p. cc) (λ p. cc)
            (λ p. is_some_of back),
        view_after fs base_dir disk formats k chunks t (disk.encode t) w w' h written encoded
            ∙ ap
                (λ o. record (view fs base_dir disk formats w) {
                  chunks = update (view fs base_dir disk formats w).chunks k (or_none o);
                })
                back,
      )

  -- On a disk where directories can be made and files written, and with a JSON that reads what it
  -- writes, the storage of flat files implements the abstract cache: from a disk whose files of JSON can
  -- be parsed, each store gives back what was last set at a key, no `set` fails or changes another entry,
  -- and a list of chunks comes back as its JSON lines are read.
  pub flat_files_implement :
      Implements
        (create_flat_file_storage fs formats.lines formats.json_request formats.json_meta base_dir)
        disk.plain
        (IsValid fs base_dir disk formats)
        (view fs base_dir disk formats)
        (reread formats.lines (pos 0))
  unfolding storage
  flat_files_implement = record {
    get_request = λ k w h e.
        get_json_lem fs base_dir disk formats.json_request request k w h (e.requests k.0);
    get_meta = λ k w h e. get_json_lem fs base_dir disk formats.json_meta meta k w h (e.metas k.0);
    get_body = λ k w h e. get_text_lem fs base_dir disk body k w h;
    get_binary = λ k w h e. get_binary_lem fs base_dir disk binary k w h;
    get_chunks =
        λ k w h e. get_jsonl_lem fs base_dir disk formats.lines chunks k w h (e.jsonls k.0);
    set_request = set_request_writes;
    set_meta = set_meta_writes;
    set_body = set_body_writes fs base_dir disk formats;
    set_binary = set_binary_writes fs base_dir disk formats;
    set_chunks = set_chunks_writes;
  }
