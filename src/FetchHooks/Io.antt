-- ===== src/FetchHooks/Io.antt =====
-- What the files of packages/fetch-hooks/src do to the world outside, and the file system (node:fs and
-- node:path) as a parameter.
use effect_native.Prelude.{ℕ, Bool, true, false, Option, none, some, List, Text, if◌then◌else◌}

-- An asynchronous function: `none` is a rejected promise. What was done before it stays done.
abbrev pub Action : Type 0 → Type 0 → Type 0
Action W A = W → Option A × W

abbrev pub continue : {W A B : Type 0} → Option A × W → (A → Action W B) → Option B × W
continue (none, w) f = (none, w)
continue (some a, w) f = f a w

infixl 5 ◌>>=◌ ◌>>◌
abbrev pub ◌>>=◌ : {W A B : Type 0} → Action W A → (A → Action W B) → Action W B
m >>= f = λ w. continue (m w) f

abbrev pub ◌>>◌ : {W A B : Type 0} → Action W A → Action W B → Action W B
m >> n = m >>= λ _. n

abbrev pub return : {W A : Type 0} → A → Action W A
return a w = (some a, w)

abbrev pub throw : {W A : Type 0} → Action W A
throw w = (none, w)

-- What `mkdirSync` comes to: a directory, the error EEXIST, or another error.
pub data Made : Type 0 where
  made existed refused : Made

pub record FileSystem (W : Type 0) : Type 0 where
  pub join : List Text → Text
  pub exists : Text → W → Bool
  pub make_directory : Text → W → Made × W
  pub read_text : Text → Action W Text
  pub write_text : Text → Text → Action W (Unit {0})
  pub read_bytes : Text → Action W (List ℕ)
  pub write_bytes : Text → List ℕ → Action W (Unit {0})

abbrev pub is_some {ℓ} : {A : Type ℓ} → Option A → Bool
is_some none = false
is_some (some a) = true

module _ {W : Type 0} (fs : FileSystem W) where
  -- `mkdirSync` in a `try` whose handler lets EEXIST pass.
  abbrev pub unless_refused : Made × W → Option (Unit {0}) × W
  unless_refused (made, w) = (some tt, w)
  unless_refused (existed, w) = (some tt, w)
  unless_refused (refused, w) = (none, w)

  unfoldable pub ensure_dir : Text → Action W (Unit {0})
  ensure_dir dir w =
      if fs.exists dir w then (some tt, w) else unless_refused (fs.make_directory dir w)
