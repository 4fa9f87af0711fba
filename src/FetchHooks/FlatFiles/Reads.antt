-- ===== src/FetchHooks/FlatFiles/Reads.antt =====
-- What the stores of packages/fetch-hooks/src/flat-file-storage.ts read.
use effect_native.Prelude.{
  ◌≡◌, refl, inl, inr, true, Option, none, some, Option-cases, List, [], Text,
}
use effect_native.FetchHooks.Io.{FileSystem, is_some, continue, ◌>>=◌, return}
use effect_native.FetchHooks.Sse.{TimedChunk}
use effect_native.FetchHooks.Jsonl.{Json, jsonl_to_timed_chunks}
use effect_native.FetchHooks.Types.{CacheKey}
use effect_native.FetchHooks.FlatFiles.{
  JsonAt, or_throw, get_file, get_json, get_text, get_binary, get_jsonl,
}
use effect_native.FetchHooks.FlatFiles.Disk.{Slot, file_name, path, IsDisk, entry}
use effect_native.FetchHooks.FlatFiles.View.{parsed, or_none, chunks_in, is_json, is_jsonl}

module _ {W : Type 0} (fs : FileSystem W) (base_dir : Text) (disk : IsDisk fs base_dir) where
  pub get_json_lem :
      {V : Type 0} (json : JsonAt V) (s : Slot) (k : CacheKey) (w : W)
      → disk.plain k.0 ≡ true
      → is_json json (entry fs base_dir disk (disk.text_at w) s k.0) ≡ true
      → get_json fs json base_dir (file_name s) k w
        ≡ (some (parsed json (entry fs base_dir disk (disk.text_at w) s k.0)), w)
  unfolding get_json
  get_json_lem json s (k, r) w h = rw h (read (disk.text_at w (path fs base_dir k s)) refl)
    where
      parse_cases :
          {V : Type 0} (o : Option V)
          → is_some o ≡ true
          → continue (or_throw o w) (λ v. return (some v)) ≡ (some o, w)
      parse_cases (some v) e = refl
      parse_cases none e = cc

      read :
          (o : Option Text)
          → disk.text_at w (path fs base_dir k s) ≡ o
          → is_json json o ≡ true
          → get_file fs base_dir
              (file_name s)
              (k, r)
              none
              (fs.read_text (path fs base_dir k s) >>= λ content.
                or_throw (json.parse content) >>= λ value. return (some value))
              w
            ≡ (some (parsed json o), w)
      read none e p = rw (disk.exists_text k s w h, e)
      read (some t) e p =
          rw (disk.exists_text k s w h, e, disk.read_text (path fs base_dir k s) t w e)
            (parse_cases (json.parse t) p)

  pub get_text_lem :
      (s : Slot) (k : CacheKey) (w : W)
      → disk.plain k.0 ≡ true
      → get_text fs base_dir (file_name s) k w
        ≡ (some (entry fs base_dir disk (disk.text_at w) s k.0), w)
  unfolding get_text
  get_text_lem s (k, r) w h = elim (Option-cases (disk.text_at w (path fs base_dir k s))) [
    | inl e ↦ rw (h, disk.exists_text k s w h, e)
    | inr (t, e) ↦ rw (h, disk.exists_text k s w h, e, disk.read_text (path fs base_dir k s) t w e)
  ]

  pub get_binary_lem :
      (s : Slot) (k : CacheKey) (w : W)
      → disk.plain k.0 ≡ true
      → get_binary fs base_dir (file_name s) k w
        ≡ (some (entry fs base_dir disk (disk.bytes_at w) s k.0), w)
  unfolding get_binary
  get_binary_lem s (k, r) w h = elim (Option-cases (disk.bytes_at w (path fs base_dir k s))) [
    | inl e ↦ rw (h, disk.exists_bytes k s w h, e)
    | inr (b, e) ↦
        rw (h, disk.exists_bytes k s w h, e, disk.read_bytes (path fs base_dir k s) b w e)
  ]

  pub get_jsonl_lem :
      (lines : Json) (s : Slot) (k : CacheKey) (w : W)
      → disk.plain k.0 ≡ true
      → is_jsonl lines (entry fs base_dir disk (disk.text_at w) s k.0) ≡ true
      → get_jsonl fs lines base_dir (file_name s) k w
        ≡ (some (chunks_in lines (entry fs base_dir disk (disk.text_at w) s k.0)), w)
  unfolding get_jsonl
  get_jsonl_lem lines s (k, r) w h = rw h (read (disk.text_at w (path fs base_dir k s)) refl)
    where
      parse_cases :
          (o : Option (List TimedChunk)) → is_some o ≡ true → or_throw o w ≡ (some (or_none o), w)
      parse_cases (some v) e = refl
      parse_cases none e = cc

      read :
          (o : Option Text)
          → disk.text_at w (path fs base_dir k s) ≡ o
          → is_jsonl lines o ≡ true
          → get_file fs base_dir
              (file_name s)
              (k, r)
              []
              (fs.read_text (path fs base_dir k s) >>= λ content.
                or_throw (jsonl_to_timed_chunks lines content))
              w
            ≡ (some (chunks_in lines o), w)
      read none e p = rw (disk.exists_text k s w h, e)
      read (some t) e p =
          rw (disk.exists_text k s w h, e, disk.read_text (path fs base_dir k s) t w e)
            (parse_cases (jsonl_to_timed_chunks lines t) p)
