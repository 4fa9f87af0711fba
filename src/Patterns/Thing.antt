-- ===== src/Patterns/Thing.antt =====
-- packages/patterns/src/internal/thing.ts: things with an identity and a sorted set of tags.
pub mod Laws
use effect_native.Prelude.{
  ℕ, Bool, true, false, ◌&&◌, ◌||◌, List, [], ◌∷◌, ◌++◌, Text, text_eq, ltb, ◌==◌, length,
  if◌then◌else◌,
}

pub record Thing {ℓ} (A : Type ℓ) : Type ℓ where
  pub id : Text
  pub label : Text
  pub value : A
  pub tags : List Text

-- The order of strings by their code units, as `sort` has it.
unfoldable pub text_lt : Text → Text → Bool
text_lt s [] = false
text_lt [] (d ∷ t) = true
text_lt (c ∷ s) (d ∷ t) = let rest = text_lt s t in ltb c d || ((c == d) && rest)

-- `Set.prototype.has` and `Array.prototype.includes`
unfoldable pub has_tag : List Text → Text → Bool
has_tag [] tag = false
has_tag (t ∷ ts) tag = text_eq t tag || has_tag ts tag

-- The loop that adds the tags to the set, which keeps the order of insertion.
unfoldable pub add_all : List Text → List Text → List Text
unfolding has_tag
add_all unique [] = unique
add_all unique (tag ∷ tags) =
    add_all (if has_tag unique tag then unique else unique ++ (tag ∷ [])) tags

unfoldable pub insert_tag : Text → List Text → List Text
unfolding text_lt
insert_tag tag [] = tag ∷ []
insert_tag tag (t ∷ ts) =
    let rest = insert_tag tag ts in if text_lt tag t then tag ∷ t ∷ ts else t ∷ rest

unfoldable pub sort_tags : List Text → List Text
unfolding insert_tag
sort_tags [] = []
sort_tags (t ∷ ts) = insert_tag t (sort_tags ts)

unfoldable pub normalize_tags : List Text → List Text
unfolding add_all sort_tags
normalize_tags tags = sort_tags (add_all [] tags)

-- The loop of `every`, on arrays of one length.
unfoldable pub same_tags : List Text → List Text → Bool
same_tags [] ts = true
same_tags (s ∷ ss) [] = false
same_tags (s ∷ ss) (t ∷ ts) = text_eq s t && same_tags ss ts

module _ {ℓ} {A : Type ℓ} where
  unfoldable pub equals_thing : (A → A → Bool) → Thing A → Thing A → Bool
  unfolding same_tags
  equals_thing equals self that =
      text_eq self.id that.id
      && text_eq self.label that.label
      && equals self.value that.value
      && (length self.tags == length that.tags)
      && same_tags self.tags that.tags

  unfoldable pub make : Text → Text → A → List Text → Thing A
  unfolding normalize_tags
  make i l v ts = record { id = i; label = l; value = v; tags = normalize_tags ts }

  unfoldable pub add_tag : Thing A → Text → Thing A
  unfolding make
  add_tag self tag =
      if has_tag self.tags tag
      then self
      else make self.id self.label self.value (self.tags ++ (tag ∷ []))

module _ {ℓ κ} {A : Type ℓ} {B : Type κ} where
  unfoldable pub map_value : Thing A → (A → B) → Thing B
  unfolding make
  map_value self f = make self.id self.label (f self.value) self.tags

module _ {ℓ} {A : Type ℓ} where
  -- `hashThing`, over the hashes of strings, values and arrays and the combination of hashes.
  unfoldable pub hash_thing : (Text → ℕ) → (A → ℕ) → (List Text → ℕ) → (ℕ → ℕ → ℕ) → Thing A → ℕ
  hash_thing hash_text hash hash_array combine self =
      combine (hash_array self.tags)
        (combine (hash self.value) (combine (hash_text self.label) (hash_text self.id)))
