-- ===== src/FetchHooks/Headers/Laws.antt =====
-- What the filter of packages/fetch-hooks/src/request-hasher.ts lets through.
use effect_native.Prelude.{
  ◌≡◌, refl, ap, ◌∙◌, Bool, Bool-cases, inl, inr, true, false, Option, none, some, List, [], ◌∷◌,
  Text, text_eq, text_eq_sound, if◌then◌else◌, arith, codes, ◌↔◌,
}
use effect_native.FetchHooks.Headers.{
  has_text, sensitive_headers, put, is_sensitive, is_cache_enabled, is_production, is_set_to, get,
  filter_from, filter_headers, get_storable_headers,
}

abbrev pub entry_if : Bool → Text → Option Text → Option Text
entry_if true v o = some v
entry_if false v o = o

same_key : (k l key : Text) → text_eq l k ≡ true → text_eq l key ≡ text_eq k key
same_key k l key h = ap (λ t. text_eq t key) (text_eq_sound l k h)

joined : (k l key : Text) → text_eq l key ≡ true → text_eq k key ≡ true → text_eq l k ≡ true
joined k l key h e = ap (text_eq l) (text_eq_sound k key e) ∙ h

get-put :
    (k v : Text) (h : List (Text × Text)) (key : Text)
    → get (put k v h) key ≡ entry_if (text_eq k key) v (get h key)
unfolding put get
get-put k v [] key = ground arith
get-put k v ((l, w) ∷ h) key = elim (Bool-cases (text_eq l k)) [
  | inl e ↦ rw e (ground (arith, same_key k l key e))
  | inr e ↦ rw e (ground (arith, e, joined k l key, get-put k v h key))
]

-- The last value under a key, or the one before the list.
abbrev pub last_value : List (Text × Text) → Text → Option Text → Option Text
last_value [] key o = o
last_value ((k, v) ∷ rest) key o = last_value rest key (entry_if (text_eq k key) v o)

absorb :
    (b : Bool) (o p : Option Text) (f : Option Text → Option Text)
    → (if b then (if b then o else p) else f (if b then o else p)) ≡ (if b then o else f p)
absorb true o p f = refl
absorb false o p f = refl

module _ (to_lower_case : Text → Text) where
  put_if_kept :
      (r : List (Text × Text)) (k v key : Text)
      → get (if is_sensitive to_lower_case k then r else put k v r) key ≡ (
          if is_sensitive to_lower_case key
          then get r key
          else entry_if (text_eq k key) v (get r key))
  put_if_kept r k v key = ground (arith, get-put k v r key, agree)
    where
      agree : text_eq k key ≡ true → is_sensitive to_lower_case k ≡ is_sensitive to_lower_case key
      agree h = ap (is_sensitive to_lower_case) (text_eq_sound k key h)

  filtered :
      (r h : List (Text × Text)) (key : Text)
      → get (filter_from to_lower_case (λ k l. k) r h) key
        ≡ (if is_sensitive to_lower_case key then get r key else last_value h key (get r key))
  unfolding filter_from
  filtered r [] key = ground arith
  filtered r ((k, v) ∷ h) key =
      filtered (if is_sensitive to_lower_case k then r else put k v r) h key
      ∙ ap (λ o. if is_sensitive to_lower_case key then o else last_value h key o)
          (put_if_kept r k v key)
      ∙ absorb (is_sensitive to_lower_case key) (get r key) (entry_if (text_eq k key) v (get r key))
          (last_value h key)

  -- A header whose name in lower case is one of the sensitive ones is never among the headers that are
  -- stored, and every other one is there with the last value that it has.
  pub get-get_storable_headers :
      (h : List (Text × Text)) (key : Text)
      → get (get_storable_headers to_lower_case h) key
        ≡ (if has_text sensitive_headers (to_lower_case key) then none else last_value h key none)
  unfolding get_storable_headers filter_headers get is_sensitive
  get-get_storable_headers h key = filtered [] h key

three_tests :
    (p z n c : Bool)
    → (if p then false else if z then false else if n then false else c) ≡ true
    → (p ≡ false) × (n ≡ false) × (c ≡ true)
three_tests true z n c h = cc
three_tests false true n c h = cc
three_tests false false true c h = cc
three_tests false false false c h = (refl, refl, h)

set_value : (o : Option Text) (t : Text) → is_set_to o t ≡ true → o ≡ some t
set_value none t h = cc
set_value (some s) t h = ap some (text_eq_sound s t h)

-- The cache is used exactly outside of production, without `--no-fetch-cache`, and with
-- DEV_FETCH_CACHE set to 1.
pub is_cache_enabled_lem :
    (env : Text → Option Text) (argv : List Text)
    → (is_cache_enabled env argv ≡ true) ↔ (
        (is_production env ≡ false)
        × (has_text argv (codes "--no-fetch-cache") ≡ false)
        × (env (codes "DEV_FETCH_CACHE") ≡ some (codes "1")))
unfolding is_cache_enabled text_eq
is_cache_enabled_lem env argv = (
  λ h.
      let (p, n, c) =
        three_tests (is_production env) (is_set_to (env (codes "DEV_FETCH_CACHE")) (codes "0"))
          (has_text argv (codes "--no-fetch-cache"))
          (is_set_to (env (codes "DEV_FETCH_CACHE")) (codes "1")) h in
      (p, n, set_value (env (codes "DEV_FETCH_CACHE")) (codes "1") c),
  λ h. rw (h.0, h.1, h.2),
)
