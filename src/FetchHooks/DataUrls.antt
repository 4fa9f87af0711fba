-- ===== src/FetchHooks/DataUrls.antt =====
-- packages/fetch-hooks/src/binary-extractor.ts: data URLs in a text, and the files they are moved to.
use effect_native.Prelude.{
  ℕ, zero, suc, ◌+◌, ◌-◌, ◌/◌, ◌%◌, ◌==◌, Bool, true, false, ◌&&◌, ◌||◌, Option, none, some, List,
  [], ◌∷◌, ◌++◌, Text, codes, text_eq, starts_with, leb, ltb, any, length, take, drop,
  if◌then◌else◌,
}
use effect_native.FetchHooks.Io.{
  Action, continue, ◌>>=◌, ◌>>◌, return, FileSystem, Made, made, existed, refused,
}

unfoldable pub is_binary_content_type : Text → Bool
unfolding starts_with
is_binary_content_type content_type =
    any (λ type. starts_with type content_type)
      (codes "application/octet-stream"
        ∷ codes "image/"
        ∷ codes "audio/"
        ∷ codes "video/"
        ∷ codes "application/pdf"
        ∷ codes "application/zip"
        ∷ codes "application/gzip"
        ∷ [])

-- MIME_TO_EXTENSION
abbrev pub mime_to_extension : List (Text × Text)
mime_to_extension =
    (codes "image/png", codes ".png")
    ∷ (codes "image/jpeg", codes ".jpeg")
    ∷ (codes "image/jpg", codes ".jpg")
    ∷ (codes "image/gif", codes ".gif")
    ∷ (codes "image/webp", codes ".webp")
    ∷ (codes "image/svg+xml", codes ".svg")
    ∷ (codes "audio/wav", codes ".wav")
    ∷ (codes "audio/mp3", codes ".mp3")
    ∷ (codes "audio/mpeg", codes ".mp3")
    ∷ (codes "audio/ogg", codes ".ogg")
    ∷ (codes "video/mp4", codes ".mp4")
    ∷ (codes "video/webm", codes ".webm")
    ∷ (codes "application/pdf", codes ".pdf")
    ∷ []

abbrev pub extension_in : List (Text × Text) → Text → Text
extension_in [] mime_type = codes ".bin"
extension_in ((m, e) ∷ table) mime_type =
    if text_eq m mime_type then e else extension_in table mime_type

unfoldable pub get_extension_for_mime : Text → Text
get_extension_for_mime mime_type = extension_in mime_to_extension mime_type

-- The longest front of a text whose characters pass a test, and what follows it.
unfoldable pub span : (ℕ → Bool) → Text → Text × Text
span p [] = ([], [])
span p (c ∷ s) = let (run, rest) = span p s in if p c then (c ∷ run, rest) else ([], c ∷ s)

unfoldable pub is_base64 : ℕ → Bool
is_base64 c =
    (leb b'A' c && leb c b'Z')
    || (leb b'a' c && leb c b'z')
    || (leb b'0' c && leb c b'9')
    || (c == b'+')
    || (c == b'/')
    || (c == b'=')

-- `\w` or a full stop.
unfoldable pub is_name_part : ℕ → Bool
is_name_part c =
    (leb b'A' c && leb c b'Z')
    || (leb b'a' c && leb c b'z')
    || (leb b'0' c && leb c b'9')
    || (c == b'_')
    || (c == b'.')

-- `data:([^;]+);base64,` at the front of a text: the first group and what follows.
unfoldable pub match_mime : Text → Option (Text × Text)
unfolding starts_with span
match_mime s =
    let (mime_type, rest) = span (λ c. if c == b';' then false else true) (drop 5 s) in
    if starts_with (codes "data:") s
      && ltb 0 (length mime_type)
      && starts_with (codes ";base64,") rest
    then some (mime_type, drop 8 rest)
    else none

abbrev pub nonempty_group : Text → Text × Text → Option (Text × Text × ℕ)
nonempty_group mime_type ([], rest) = none
nonempty_group mime_type (c ∷ run, rest) =
    some (mime_type, c ∷ run, 13 + length mime_type + length (c ∷ run))

-- DATA_URL_REGEX at the front of a text: the two groups, and the length of the match.
unfoldable pub match_data_url : Text → Option (Text × Text × ℕ)
unfolding match_mime span is_base64
match_data_url s = elim (match_mime s) [
  | none ↦ none
  | some (mime_type, rest) ↦ nonempty_group mime_type (span is_base64 rest)
]

-- The longest front of a run that two underscores follow.
unfoldable pub before_underscores : Text → Option Text
unfolding starts_with
before_underscores [] = none
before_underscores (c ∷ s) = elim (before_underscores s) [
  | some front ↦ some (c ∷ front)
  | none ↦ if starts_with (codes "__") (c ∷ s) then some [] else none
]

abbrev pub nonempty_name : Text → Option Text → Option (Text × Text × ℕ)
nonempty_name mime_type none = none
nonempty_name mime_type (some []) = none
nonempty_name mime_type (some (c ∷ name)) =
    some (mime_type, c ∷ name, 25 + length mime_type + length (c ∷ name))

-- The expression for a reference to a file, likewise.
unfoldable pub match_sidecar : Text → Option (Text × Text × ℕ)
unfolding match_mime span is_name_part before_underscores starts_with
match_sidecar s = elim (match_mime s) [
  | none ↦ none
  | some (mime_type, rest) ↦
      if starts_with (codes "__sidecar:") rest
      then nonempty_name mime_type (before_underscores (span is_name_part (drop 10 rest)).0)
      else none
]

-- `String(n)`; `n` is fuel enough for the digits before the last.
unfoldable pub decimal_loop : ℕ → ℕ → Text → Text
decimal_loop zero n digits = digits
decimal_loop (suc fuel) n digits =
    let rest = decimal_loop fuel (n / 10) ((48 + n % 10) ∷ digits) in
    if n == 0 then digits else rest

unfoldable pub decimal : ℕ → Text
unfolding decimal_loop
decimal n = if n == 0 then codes "0" else decimal_loop n n []

-- `padStart(4, "0")`
unfoldable pub pad_start : Text → Text
pad_start digits = take (4 - length digits) (codes "0000") ++ digits

-- `mkdirSync` on its own: each of its errors is an exception.
abbrev pub unless_error : {W : Type 0} → Made × W → Option (Unit {0}) × W
unless_error (made, w) = (some tt, w)
unless_error (existed, w) = (none, w)
unless_error (refused, w) = (none, w)

module _ {W : Type 0} (fs : FileSystem W) (from_base64 : Text → List ℕ)
    (to_base64 : List ℕ → Text) where
  unfoldable pub make_missing_dir : Text → Action W (Unit {0})
  make_missing_dir dir w =
      if fs.exists dir w then (some tt, w) else unless_error (fs.make_directory dir w)

  abbrev pub sidecar : Text → Text → Text
  sidecar mime_type filename =
      codes "data:" ++ (mime_type ++ (codes ";base64,__sidecar:" ++ (filename ++ codes "__")))

  abbrev pub asset_name : ℕ → Text → Text
  unfolding pad_start decimal get_extension_for_mime
  asset_name file_index mime_type =
      pad_start (decimal file_index) ++ get_extension_for_mime mime_type

  -- The replacement for a match, the number of its file being `file_index`.
  unfoldable pub write_asset : Text → ℕ → Text → Text → Action W Text
  unfolding make_missing_dir asset_name
  write_asset assets_dir file_index mime_type base64_data = do
    make_missing_dir assets_dir
    fs.write_bytes (fs.join (assets_dir ∷ asset_name file_index mime_type ∷ []))
        (from_base64 base64_data)
    return (sidecar mime_type (asset_name file_index mime_type))

  -- The replacement of all matches, `skip` being what is left of the last match; the answer is the new
  -- text and the names of the files.
  unfoldable pub extract_from : Text → ℕ → ℕ → Text → Action W (Text × List Text)
  unfolding match_data_url write_asset
  extract_from assets_dir skip file_index [] = return ([], [])
  extract_from assets_dir (suc skip) file_index (c ∷ s) = extract_from assets_dir skip file_index s
  extract_from assets_dir zero file_index (c ∷ s) = elim (match_data_url (c ∷ s)) [
    | none ↦ do (rest, files) ← extract_from assets_dir zero file_index s; return (c ∷ rest, files)
    | some (mime_type, base64_data, size) ↦ do
      replacement ← write_asset assets_dir (suc file_index) mime_type base64_data
      (rest, files) ← extract_from assets_dir (size - 1) (suc file_index) s
      return (replacement ++ rest, asset_name (suc file_index) mime_type ∷ files)
  ]

  unfoldable pub extract_data_urls : Text → Text → Action W (Text × List Text)
  unfolding extract_from
  extract_data_urls content assets_dir = extract_from assets_dir zero zero content

  -- The replacement for a reference to a file: the match itself if there is no such file.
  unfoldable pub read_asset : Text → Text → Text → Action W Text
  read_asset assets_dir mime_type filename w =
      if fs.exists (fs.join (assets_dir ∷ filename ∷ [])) w
      then continue (fs.read_bytes (fs.join (assets_dir ∷ filename ∷ [])) w) (λ buffer.
        return (codes "data:" ++ (mime_type ++ (codes ";base64," ++ to_base64 buffer))))
      else (some (sidecar mime_type filename), w)

  unfoldable pub restore_from : Text → ℕ → Text → Action W Text
  unfolding match_sidecar read_asset
  restore_from assets_dir skip [] = return []
  restore_from assets_dir (suc skip) (c ∷ s) = restore_from assets_dir skip s
  restore_from assets_dir zero (c ∷ s) = elim (match_sidecar (c ∷ s)) [
    | none ↦ do rest ← restore_from assets_dir zero s; return (c ∷ rest)
    | some (mime_type, filename, size) ↦ do
      replacement ← read_asset assets_dir mime_type filename
      rest ← restore_from assets_dir (size - 1) s
      return (replacement ++ rest)
  ]

  unfoldable pub restore_data_urls : Text → Text → Action W Text
  unfolding restore_from
  restore_data_urls content assets_dir = restore_from assets_dir zero content

  -- `dir` is `dirname(filePath)`.
  unfoldable pub write_binary_file : Text → Text → List ℕ → Action W (Unit {0})
  unfolding make_missing_dir
  write_binary_file dir file_path data_ = do make_missing_dir dir; fs.write_bytes file_path data_

  unfoldable pub read_binary_file : Text → Action W (Option (List ℕ))
  read_binary_file file_path w =
      if fs.exists file_path w
      then continue (fs.read_bytes file_path w) (λ buffer. return (some buffer))
      else (some none, w)
