-- ===== src/FetchHooks/Headers.antt =====
-- packages/fetch-hooks/src/request-hasher.ts, the filter of the headers, and environment.ts.
pub mod Laws
use effect_native.Prelude.{
  ℕ, zero, suc, ◌/◌, ◌%◌, ◌==◌, ◌++◌, ltb, take, drop, Bool, true, false, ◌||◌, Option, none, some,
  List, [], ◌∷◌, Text, codes, text_eq, if◌then◌else◌,
}

-- SENSITIVE_HEADERS
abbrev pub sensitive_headers : List Text
sensitive_headers =
    codes "authorization"
    ∷ codes "x-api-key"
    ∷ codes "api-key"
    ∷ codes "x-openrouter-api-key"
    ∷ codes "cookie"
    ∷ codes "set-cookie"
    ∷ codes "x-auth-token"
    ∷ codes "x-access-token"
    ∷ codes "bearer"
    ∷ []

-- `Set.prototype.has` and `Array.prototype.includes`
abbrev pub has_text : List Text → Text → Bool
has_text [] key = false
has_text (t ∷ ts) key = text_eq t key || has_text ts key

-- `result[key] = value`: an object is the list of its entries, none of them `__proto__`.
unfoldable pub put : Text → Text → List (Text × Text) → List (Text × Text)
put key value [] = (key, value) ∷ []
put key value ((k, v) ∷ rest) =
    let later = put key value rest in if text_eq k key then (k, value) ∷ rest else (k, v) ∷ later

unfoldable pub get : List (Text × Text) → Text → Option Text
get [] key = none
get ((k, v) ∷ rest) key = let later = get rest key in if text_eq k key then some v else later

-- `String.prototype.toLowerCase` is a parameter, since it follows the tables of Unicode.
module _ (to_lower_case : Text → Text) where
  -- The test of the loop of `filterHeaders`.
  unfoldable pub is_sensitive : Text → Bool
  is_sensitive key = has_text sensitive_headers (to_lower_case key)

  -- The loop of `filterHeaders`, from the result so far.
  unfoldable pub filter_from :
      (Text → Text → Text) → List (Text × Text) → List (Text × Text) → List (Text × Text)
  unfolding put is_sensitive
  filter_from get_output_key result [] = result
  filter_from get_output_key result ((key, value) ∷ rest) =
      filter_from get_output_key
        (if is_sensitive key
          then result
          else put (get_output_key key (to_lower_case key)) value result)
        rest

  unfoldable pub filter_headers : List (Text × Text) → (Text → Text → Text) → List (Text × Text)
  unfolding filter_from
  filter_headers headers get_output_key = filter_from get_output_key [] headers

  unfoldable pub normalize_headers : List (Text × Text) → List (Text × Text)
  unfolding filter_headers
  normalize_headers headers = filter_headers headers (λ original_key lower_key. lower_key)

  unfoldable pub get_storable_headers : List (Text × Text) → List (Text × Text)
  unfolding filter_headers
  get_storable_headers headers = filter_headers headers (λ original_key lower_key. original_key)

-- A variable of the environment has a value.
abbrev pub is_set_to : Option Text → Text → Bool
is_set_to none t = false
is_set_to (some s) t = text_eq s t

-- `process.env` is a function, and `process.argv` a list.
unfoldable pub is_production : (Text → Option Text) → Bool
is_production env =
    if is_set_to (env (codes "NEXT_PUBLIC_VERCEL_ENV")) (codes "production")
    then true
    else is_set_to (env (codes "OR_ENV")) (codes "production")

unfoldable pub is_cache_enabled : (Text → Option Text) → List Text → Bool
unfolding is_production
is_cache_enabled env argv =
    if is_production env
    then false
    else if is_set_to (env (codes "DEV_FETCH_CACHE")) (codes "0")
    then false
    else if has_text argv (codes "--no-fetch-cache")
    then false
    else is_set_to (env (codes "DEV_FETCH_CACHE")) (codes "1")

unfoldable pub is_replay_only : (Text → Option Text) → Bool
is_replay_only env = is_set_to (env (codes "DEV_FETCH_CACHE_RECORD")) (codes "0")

unfoldable pub get_cache_dir : (Text → Option Text) → Text
get_cache_dir env = elim (env (codes "DEV_FETCH_CACHE_DIR")) [
  | some d ↦ d
  | none ↦ codes ".cache/fetch"
]

-- The loop of `headersToRecord`, over the entries that `forEach` gives.
unfoldable pub headers_to_record : List (Text × Text) → List (Text × Text) → List (Text × Text)
unfolding put
headers_to_record result [] = result
headers_to_record result ((key, value) ∷ rest) = headers_to_record (put key value result) rest

-- BASE62
abbrev pub digits : Text
digits = codes "0123456789ABCDEFGHIJKLMNOPQRSTUVWXYZabcdefghijklmnopqrstuvwxyz"

-- The loop of `toBase62`; `n` is fuel enough, since `n / 62` is less than `n`.
unfoldable pub base62_loop : ℕ → ℕ → Text → Text
base62_loop zero n result = result
base62_loop (suc fuel) n result =
    let rest = base62_loop fuel (n / 62) (take 1 (drop (n % 62) digits) ++ result) in
    if ltb 0 n then rest else result

unfoldable pub to_base62 : ℕ → Text
unfolding base62_loop
to_base62 n = if n == 0 then codes "0" else base62_loop n n []
