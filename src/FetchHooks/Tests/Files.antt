-- ===== src/FetchHooks/Tests/Files.antt =====
-- A disk in memory with one directory of the cache, and the storage of flat files on it.
use effect_native.Prelude.{
  ◌≡◌, refl, ap, sym, ◌∙◌, Bool, true, false, Option, none, some, List, [], ◌∷◌, ◌++◌, Text, codes,
  text_eq, text_eq_sound, text_eq_refl, if◌then◌else◌,
}
use effect_native.Prelude.Int.{pos}
use effect_native.FetchHooks.Io.{FileSystem, made, is_some}
use effect_native.FetchHooks.Implements.{Implements, update}
use effect_native.FetchHooks.Jsonl.Laws.{reread}
use effect_native.FetchHooks.FlatFiles.{JsonAt, create_flat_file_storage}
use effect_native.FetchHooks.FlatFiles.Disk.{
  Slot, request, meta, body, binary, chunks, slot_eq, path, IsDisk,
}
use effect_native.FetchHooks.FlatFiles.View.{Formats}
use effect_native.FetchHooks.FlatFiles.Writes.{IsValid, view}
use effect_native.FetchHooks.FlatFiles.Laws.{flat_files_implement}
use effect_native.FetchHooks.Types.{
  CachedRequestBody, json, text, CachedRequest, CachedResponseMeta, BinaryPart,
}
use effect_native.FetchHooks.Tests.{braces, braces_parse, braces_line, braces_blank}
use effect_native.FetchHooks.Tests.Codec.{Codec, number, pair, renamed, list, bool, int, option}

-- A text is its own bytes.
record World : Type 0 where
  pub there : Bool
  pub files : Text → Option Text

abbrev directory : Text
directory = codes "/a"

abbrev joined : List Text → Text
joined [] = []
joined (p ∷ []) = p
joined (p ∷ q ∷ ps) = p ++ (codes "/" ++ joined (q ∷ ps))

abbrev fs : FileSystem World
fs = record {
  join = joined;
  exists = λ p w. if text_eq p directory then w.there else is_some (w.files p);
  make_directory = λ p w. (made, record w { there = true });
  read_text = λ p w. (w.files p, w);
  write_text = λ p t w. (some tt, record w { files = update w.files p (some t) });
  read_bytes = λ p w. (w.files p, w);
  write_bytes = λ p b w. (some tt, record w { files = update w.files p (some b) });
}

abbrev place : Slot → Text
place s = path fs [] (codes "a") s

same_place : (s u : Slot) → text_eq (place s) (place u) ≡ slot_eq s u
unfolding text_eq
same_place request request = refl
same_place request meta = refl
same_place request body = refl
same_place request binary = refl
same_place request chunks = refl
same_place meta request = refl
same_place meta meta = refl
same_place meta body = refl
same_place meta binary = refl
same_place meta chunks = refl
same_place body request = refl
same_place body meta = refl
same_place body body = refl
same_place body binary = refl
same_place body chunks = refl
same_place binary request = refl
same_place binary meta = refl
same_place binary body = refl
same_place binary binary = refl
same_place binary chunks = refl
same_place chunks request = refl
same_place chunks meta = refl
same_place chunks body = refl
same_place chunks binary = refl
same_place chunks chunks = refl

no_directory : (s : Slot) → text_eq (place s) directory ≡ false
unfolding text_eq
no_directory request = refl
no_directory meta = refl
no_directory body = refl
no_directory binary = refl
no_directory chunks = refl

abbrev is_a : Text → Bool
is_a k = text_eq (codes "a") k

a_key : (k : Text) → is_a k ≡ true → codes "a" ≡ k
a_key k h = text_eq_sound (codes "a") k h

apart :
    (k l : Text) (s u : Slot)
    → is_a k ≡ true
    → is_a l ≡ true
    → path fs [] k s ≡ path fs [] l u
    → (k ≡ l) × (slot_eq s u ≡ true)
apart k l s u h e p = (
  sym (a_key k h) ∙ a_key l e,
  sym (same_place s u) ∙ ap (text_eq (place s)) (sym same) ∙ text_eq_refl (place s),
)
  where
    same : place s ≡ place u
    same = ap (λ x. path fs [] x s) (a_key k h) ∙ p ∙ ap (λ x. path fs [] x u) (sym (a_key l e))

is_file :
    (k : Text) (s : Slot) (w : World)
    → is_a k ≡ true
    → fs.exists (path fs [] k s) w ≡ is_some (w.files (path fs [] k s))
is_file k s w h = rw (sym (a_key k h), no_directory s)

made_a : (k : Text) → is_a k ≡ true → text_eq (joined ([] ∷ k ∷ [])) directory ≡ true
unfolding text_eq
made_a k h = rw (sym (a_key k h))

made_there :
    (k : Text) (w : World)
    → is_a k ≡ true
    → fs.exists (joined ([] ∷ k ∷ [])) (record w { there = true }) ≡ true
made_there k w h = rw (made_a k h)

abbrev disk : IsDisk fs []
disk = record {
  plain = is_a;
  text_at = λ w. w.files;
  bytes_at = λ w. w.files;
  encode = λ t. t;
  decode = λ b. b;
  join_nested = λ k f. refl;
  path_injective = apart;
  exists_text = is_file;
  exists_bytes = is_file;
  read_text = λ p t w h. rw h;
  read_bytes = λ p b w h. rw h;
  make_directory = λ k w h. (record w { there = true }, refl, made_there k w h, refl, refl);
  write_text = λ d f t w h.
      (record w { files = update w.files (joined (d ∷ f ∷ [])) (some t) }, refl, refl, refl);
  write_bytes = λ d f b w h.
      (record w { files = update w.files (joined (d ∷ f ∷ [])) (some b) }, refl, refl, refl);
}

abbrev words : Codec Text
words = list number

abbrev headers : Codec (List (Text × Text))
headers = list (pair words words)

abbrev to_body : Bool × Text → CachedRequestBody Text
to_body (true, v) = json v
to_body (false, t) = text t

abbrev from_body : CachedRequestBody Text → Bool × Text
from_body (json v) = (true, v)
from_body (text t) = (false, t)

body_back : (b : CachedRequestBody Text) → to_body (from_body b) ≡ b
body_back (json v) = refl
body_back (text t) = refl

abbrev request_codec : Codec (CachedRequest Text)
request_codec =
    renamed
      (pair (pair words words)
        (pair headers (option (renamed (pair bool words) to_body from_body body_back))))
      (λ p. record { url = p.0.0; method = p.0.1; headers = p.1.0; body = p.1.1 })
      (λ r. ((r.url, r.method), (r.headers, r.body))) (λ r. refl)

abbrev part_codec : Codec BinaryPart
part_codec =
    renamed (pair words number) (λ p. record { content_type = p.0; size = p.1 })
      (λ b. (b.content_type, b.size)) (λ b. refl)

abbrev meta_codec : Codec CachedResponseMeta
meta_codec =
    renamed
      (pair (pair number (pair words headers))
        (pair (pair int int) (pair (pair bool bool) (pair words (option part_codec)))))
      (λ p. record {
        status = p.0.0;
        status_text = p.0.1.0;
        headers = p.0.1.1;
        ttfb_ms = p.1.0.0;
        total_ms = p.1.0.1;
        is_sse = p.1.1.0.0;
        is_binary = p.1.1.0.1;
        cached_at = p.1.1.1.0;
        binary_part = p.1.1.1.1;
      })
      (λ m. (
        (m.status, (m.status_text, m.headers)),
        ((m.ttfb_ms, m.total_ms), ((m.is_sse, m.is_binary), (m.cached_at, m.binary_part))),
      ))
      (λ m. refl)

abbrev first {ℓ} : {A : Type ℓ} → Option (A × Text) → Option A
first none = none
first (some (a, rest)) = some a

abbrev json_of : {A : Type 0} → Codec A → JsonAt A
json_of a = record { stringify = λ v. a.write v ++ []; parse = λ t. first (a.read t) }

json_back :
    {A : Type 0} (a : Codec A) (v : A) → (json_of a).parse ((json_of a).stringify v) ≡ some v
json_back a v = ap first (a.back v [])

abbrev formats : Formats
formats = record {
  lines = braces;
  json_request = json_of request_codec;
  json_meta = json_of meta_codec;
}

flat_files_implement_example :
    Implements
      (create_flat_file_storage fs braces (json_of request_codec) (json_of meta_codec) [])
      is_a
      (IsValid fs [] disk formats)
      (view fs [] disk formats)
      (reread braces (pos 0))
flat_files_implement_example =
    flat_files_implement fs [] disk formats (json_back request_codec) (json_back meta_codec)
      braces_parse braces_line braces_blank
