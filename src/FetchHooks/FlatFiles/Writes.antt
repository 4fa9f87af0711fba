-- ===== src/FetchHooks/FlatFiles/Writes.antt =====
-- What the stores of packages/fetch-hooks/src/flat-file-storage.ts write.
use mathlib.Core.Path.{fun_ext}
use effect_native.Prelude.{
  ℕ, ◌≡◌, refl, ap, ◌∙◌, Bool, true, false, ◌&&◌, Option, some, List, Text, text_eq, if◌then◌else◌,
  arith,
}
use effect_native.FetchHooks.Io.{FileSystem, is_some}
use effect_native.FetchHooks.Jsonl.{jsonl_to_timed_chunks}
use effect_native.FetchHooks.Types.{CacheKey, CacheStorage}
use effect_native.FetchHooks.Implements.{Contents, update, Writes}
use effect_native.FetchHooks.FlatFiles.{set_text, set_binary, create_flat_file_storage}
use effect_native.FetchHooks.FlatFiles.Disk.{
  Slot, request, meta, body, binary, chunks, slot_eq, path, IsDisk, entry, entry-update, saved,
  saved_bytes,
}
use effect_native.FetchHooks.FlatFiles.View.{
  parsed, or_none, chunks_in, is_json, is_jsonl, Formats, contents, IsReadable,
}

pub is_some_of : {A : Type 0} {o : Option A} {a : A} → o ≡ some a → is_some o ≡ true
is_some_of h = ap is_some h

apply_if :
    {A B : Type 0} (b : Bool) (g : A → B) (x y : A)
    → g (if b then x else y) ≡ (if b then g x else g y)
apply_if true g x y = refl
apply_if false g x y = refl

-- A function of the entries of a slot, after a write to a slot.
module _ {W : Type 0} (fs : FileSystem W) (base_dir : Text) (disk : IsDisk fs base_dir) where
  viewed :
      {A B : Type 0} (g : Option A → B) (f : Text → Option A) (k : Text) (s u : Slot) (v : A)
      → disk.plain k ≡ true
      → (l : Text)
      → g (entry fs base_dir disk (update f (path fs base_dir k s) (some v)) u l)
        ≡ (if slot_eq s u && text_eq k l then g (some v) else g (entry fs base_dir disk f u l))
  viewed g f k s u v h l =
      (λ i. g (entry-update fs base_dir disk f k s u v h i l))
      ∙ apply_if (slot_eq s u && text_eq k l) g (some v) (entry fs base_dir disk f u l)

  still :
      {A : Type 0} (q : Option A → Bool) (f : Text → Option A) (k : Text) (s u : Slot) (v : A)
      → disk.plain k ≡ true
      → (slot_eq s u ≡ true → q (some v) ≡ true)
      → ((l : Text) → q (entry fs base_dir disk f u l) ≡ true)
      → (l : Text)
      → q (entry fs base_dir disk (update f (path fs base_dir k s) (some v)) u l) ≡ true
  still q f k s u v h p r l = viewed q f k s u v h l ∙ ground (arith, p, r l)

contents_path :
    {V : Type 0} {c d : Contents V}
    → c.request ≡ d.request
    → c.meta ≡ d.meta
    → c.body ≡ d.body
    → c.binary ≡ d.binary
    → c.chunks ≡ d.chunks
    → c ≡ d
contents_path a b e f g i = record {
  request = a i;
  meta = b i;
  body = e i;
  binary = f i;
  chunks = g i;
}

module _ {W : Type 0} (fs : FileSystem W) (base_dir : Text) (disk : IsDisk fs base_dir)
    (formats : Formats) where
  abbrev pub texts : W → Slot → Text → Option Text
  texts w = entry fs base_dir disk (disk.text_at w)

  abbrev pub view : W → Contents formats.lines.Value
  view w = contents formats (texts w) (entry fs base_dir disk (disk.bytes_at w))

  abbrev pub IsValid : W → Type 0
  IsValid w = IsReadable formats (texts w)

  pub after_write :
      (k : Text) (s : Slot) (t : Text) (w w' : W)
      → disk.plain k ≡ true
      → IsValid w
      → disk.text_at w' ≡ update (disk.text_at w) (path fs base_dir k s) (some t)
      → (slot_eq s request ≡ true → is_json formats.json_request (some t) ≡ true)
      → (slot_eq s meta ≡ true → is_json formats.json_meta (some t) ≡ true)
      → (slot_eq s chunks ≡ true → is_jsonl formats.lines (some t) ≡ true)
      → IsValid w'
  after_write k s t w w' h e written a b c = record {
    requests = λ l.
        (λ i. is_json formats.json_request (entry fs base_dir disk (written i) request l))
        ∙ still fs base_dir disk (is_json formats.json_request) (disk.text_at w) k s request t h a
            e.requests l;
    metas = λ l.
        (λ i. is_json formats.json_meta (entry fs base_dir disk (written i) meta l))
        ∙ still fs base_dir disk (is_json formats.json_meta) (disk.text_at w) k s meta t h b e.metas
            l;
    jsonls = λ l.
        (λ i. is_jsonl formats.lines (entry fs base_dir disk (written i) chunks l))
        ∙ still fs base_dir disk (is_jsonl formats.lines) (disk.text_at w) k s chunks t h c e.jsonls
            l;
  }

  abbrev pub changed : {B : Type 0} → Slot → Slot → Text → B → (Text → B) → Text → B
  changed s u k x f l = if slot_eq s u && text_eq k l then x else f l

  pub view_after :
      (k : Text) (s : Slot) (t : Text) (b : List ℕ) (w w' : W)
      → disk.plain k ≡ true
      → disk.text_at w' ≡ update (disk.text_at w) (path fs base_dir k s) (some t)
      → disk.bytes_at w' ≡ update (disk.bytes_at w) (path fs base_dir k s) (some b)
      → view w' ≡ record {
        request = changed s request k (formats.json_request.parse t) (view w).request;
        meta = changed s meta k (formats.json_meta.parse t) (view w).meta;
        body = changed s body k (some t) (view w).body;
        binary = changed s binary k (some b) (view w).binary;
        chunks =
            changed s chunks k (or_none (jsonl_to_timed_chunks formats.lines t)) (view w).chunks;
      }
  view_after k s t b w w' h written encoded =
      contents_path (fun_ext λ l. text_slot request l (parsed formats.json_request))
        (fun_ext λ l. text_slot meta l (parsed formats.json_meta))
        (fun_ext λ l. text_slot body l (λ o. o))
        (fun_ext λ l.
          (λ i. entry fs base_dir disk (encoded i) binary l)
          ∙ viewed fs base_dir disk (λ o. o) (disk.bytes_at w) k s binary b h l)
        (fun_ext λ l. text_slot chunks l (chunks_in formats.lines))
    where
      text_slot :
          {B : Type 0} (u : Slot) (l : Text) (g : Option Text → B)
          → g (texts w' u l) ≡ changed s u k (g (some t)) (λ m. g (texts w u m)) l
      text_slot u l g =
          (λ i. g (entry fs base_dir disk (written i) u l))
          ∙ viewed fs base_dir disk g (disk.text_at w) k s u t h l

  unfoldable pub storage : CacheStorage W formats.lines.Value
  unfolding create_flat_file_storage
  storage =
      create_flat_file_storage fs formats.lines formats.json_request formats.json_meta base_dir

  pub set_body_writes :
      (k : CacheKey) (t : Text) (w : W)
      → disk.plain k.0 ≡ true
      → IsValid w
      → Writes IsValid view
          (storage.response_body.set k t)
          w
          (record (view w) { body = update (view w).body k.0 (some t) })
  unfolding storage set_text
  set_body_writes (k, r) t w h e =
      let (w', done, written, encoded) = saved fs base_dir disk k body t w h in
      (
        w',
        done,
        after_write k body t w w' h e written (λ p. cc) (λ p. cc) (λ p. cc),
        view_after k body t (disk.encode t) w w' h written encoded,
      )

  pub set_binary_writes :
      (k : CacheKey) (b : List ℕ) (w : W)
      → disk.plain k.0 ≡ true
      → IsValid w
      → Writes IsValid view
          (storage.binary_body.set k b)
          w
          (record (view w) { binary = update (view w).binary k.0 (some b) })
  unfolding storage set_binary
  set_binary_writes (k, r) b w h e =
      let (w', done, decoded, written) = saved_bytes fs base_dir disk k binary b w h in
      (
        w',
        done,
        after_write k binary (disk.decode b) w w' h e decoded (λ p. cc) (λ p. cc) (λ p. cc),
        view_after k binary (disk.decode b) b w w' h decoded written,
      )
