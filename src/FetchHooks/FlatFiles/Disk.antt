-- ===== src/FetchHooks/FlatFiles/Disk.antt =====
-- What packages/fetch-hooks/src/flat-file-storage.ts relies on of node:fs and node:path, and the file
-- of an entry as a place of its own.
use mathlib.Core.Path.{fun_ext}
use effect_native.Prelude.{
  ℕ, ◌≡◌, refl, ap, sym, ◌∙◌, Bool, Bool-cases, inl, inr, true, false, ◌&&◌, Option, none, some,
  List, [], ◌∷◌, Text, codes, text_eq, text_eq_sound, text_eq_refl, if◌then◌else◌, arith,
}
use effect_native.FetchHooks.Io.{FileSystem, is_some, unless_refused, ensure_dir, ◌>>◌}
use effect_native.FetchHooks.Implements.{update}

pub data Slot : Type 0 where
  request meta body binary chunks : Slot

abbrev pub file_name : Slot → Text
file_name request = codes "request.json"
file_name meta = codes "response.meta.json"
file_name body = codes "response.json"
file_name binary = codes "response.bin"
file_name chunks = codes "response.jsonl"

abbrev pub slot_eq : Slot → Slot → Bool
slot_eq request request = true
slot_eq meta meta = true
slot_eq body body = true
slot_eq binary binary = true
slot_eq chunks chunks = true
slot_eq _ _ = false

slot_eq_sound : (s u : Slot) → slot_eq s u ≡ true → s ≡ u
slot_eq_sound request request h = refl
slot_eq_sound meta meta h = refl
slot_eq_sound body body h = refl
slot_eq_sound binary binary h = refl
slot_eq_sound chunks chunks h = refl
slot_eq_sound _ _ h = cc

slot_eq_refl : (s : Slot) → slot_eq s s ≡ true
slot_eq_refl request = refl
slot_eq_refl meta = refl
slot_eq_refl body = refl
slot_eq_refl binary = refl
slot_eq_refl chunks = refl

module _ {W : Type 0} (fs : FileSystem W) (base_dir : Text) where
  abbrev pub path : Text → Slot → Text
  path k s = fs.join (base_dir ∷ k ∷ file_name s ∷ [])

  -- A directory can be made where there is none, a file can be written where its directory is, and what
  -- was written is read, as text or as bytes. No two keys that `plain` admits share a file.
  pub record IsDisk : Type 0 where
    pub plain : Text → Bool
    pub text_at : W → Text → Option Text
    pub bytes_at : W → Text → Option (List ℕ)
    pub encode : Text → List ℕ
    pub decode : List ℕ → Text
    pub join_nested :
        (k f : Text)
        → fs.join (fs.join (base_dir ∷ k ∷ []) ∷ f ∷ []) ≡ fs.join (base_dir ∷ k ∷ f ∷ [])
    pub path_injective :
        (k l : Text) (s u : Slot)
        → plain k ≡ true
        → plain l ≡ true
        → path k s ≡ path l u
        → (k ≡ l) × (slot_eq s u ≡ true)
    pub exists_text :
        (k : Text) (s : Slot) (w : W)
        → plain k ≡ true
        → fs.exists (path k s) w ≡ is_some (text_at w (path k s))
    pub exists_bytes :
        (k : Text) (s : Slot) (w : W)
        → plain k ≡ true
        → fs.exists (path k s) w ≡ is_some (bytes_at w (path k s))
    pub read_text : (p t : Text) (w : W) → text_at w p ≡ some t → fs.read_text p w ≡ (some t, w)
    pub read_bytes :
        (p : Text) (b : List ℕ) (w : W) → bytes_at w p ≡ some b → fs.read_bytes p w ≡ (some b, w)
    pub make_directory :
        (k : Text) (w : W)
        → plain k ≡ true
        → (w' : W) × (unless_refused fs (fs.make_directory (fs.join (base_dir ∷ k ∷ [])) w)
            ≡ (some tt, w'))
          × (fs.exists (fs.join (base_dir ∷ k ∷ [])) w' ≡ true)
          × (text_at w' ≡ text_at w)
          × (bytes_at w' ≡ bytes_at w)
    pub write_text :
        (d f t : Text) (w : W)
        → fs.exists d w ≡ true
        → (w' : W) × (fs.write_text (fs.join (d ∷ f ∷ [])) t w ≡ (some tt, w'))
          × (text_at w' ≡ update (text_at w) (fs.join (d ∷ f ∷ [])) (some t))
          × (bytes_at w' ≡ update (bytes_at w) (fs.join (d ∷ f ∷ [])) (some (encode t)))
    pub write_bytes :
        (d f : Text) (b : List ℕ) (w : W)
        → fs.exists d w ≡ true
        → (w' : W) × (fs.write_bytes (fs.join (d ∷ f ∷ [])) b w ≡ (some tt, w'))
          × (text_at w' ≡ update (text_at w) (fs.join (d ∷ f ∷ [])) (some (decode b)))
          × (bytes_at w' ≡ update (bytes_at w) (fs.join (d ∷ f ∷ [])) (some b))

  module _ (disk : IsDisk) where
    ensured :
        (k : Text) (w : W)
        → disk.plain k ≡ true
        → (w' : W) × (ensure_dir fs (fs.join (base_dir ∷ k ∷ [])) w ≡ (some tt, w'))
          × (fs.exists (fs.join (base_dir ∷ k ∷ [])) w' ≡ true)
          × (disk.text_at w' ≡ disk.text_at w)
          × (disk.bytes_at w' ≡ disk.bytes_at w)
    unfolding ensure_dir
    ensured k w h = elim (Bool-cases (fs.exists (fs.join (base_dir ∷ k ∷ [])) w)) [
      | inl e ↦ (w, rw e, e, refl, refl)
      | inr e ↦ rw e (disk.make_directory k w h)
    ]

    -- The entry of a key in a slot.
    abbrev pub entry : {A : Type 0} → (Text → Option A) → Slot → Text → Option A
    entry f s l = if disk.plain l then f (path l s) else none

    path_eq :
        (k l : Text) (s u : Slot)
        → disk.plain k ≡ true
        → disk.plain l ≡ true
        → text_eq (path k s) (path l u) ≡ (slot_eq s u && text_eq k l)
    path_eq k l s u h e = elim (Bool-cases (text_eq (path k s) (path l u))) [
      | inl p ↦
          let (kl, su) = disk.path_injective k l s u h e (text_eq_sound (path k s) (path l u) p) in
          ground (arith, p, su, kl, text_eq_refl k, ap (text_eq k) kl)
      | inr p ↦ ground (arith, p, same_path)
    ]
      where
        same_path : slot_eq s u ≡ true → text_eq k l ≡ true → text_eq (path k s) (path l u) ≡ true
        same_path su kl =
            sym (
              ap (λ q. text_eq (path k s) q)
                (ap (λ x. path x s) (text_eq_sound k l kl) ∙ ap (path l) (slot_eq_sound s u su)))
            ∙ text_eq_refl (path k s)

    pub entry-update :
        {A : Type 0} (f : Text → Option A) (k : Text) (s u : Slot) (v : A)
        → disk.plain k ≡ true
        → entry (update f (path k s) (some v)) u
          ≡ (λ l. if slot_eq s u && text_eq k l then some v else entry f u l)
    entry-update f k s u v h = fun_ext (λ l. at_key l)
      where
        same_key : (l : Text) → text_eq k l ≡ true → disk.plain k ≡ disk.plain l
        same_key l q = ap disk.plain (text_eq_sound k l q)

        at_key :
            (l : Text)
            → entry (update f (path k s) (some v)) u l
              ≡ (if slot_eq s u && text_eq k l then some v else entry f u l)
        at_key l = elim (Bool-cases (disk.plain l)) [
          | inl e ↦ rw (e, path_eq k l s u h e)
          | inr e ↦ rw e (ground (arith, e, h, same_key l))
        ]

    -- What a `set` does to the disk.
    pub saved :
        (k : Text) (s : Slot) (t : Text) (w : W)
        → disk.plain k ≡ true
        → (w' : W) × ((ensure_dir fs (fs.join (base_dir ∷ k ∷ []))
                >> fs.write_text (fs.join (fs.join (base_dir ∷ k ∷ []) ∷ file_name s ∷ [])) t)
              w
            ≡ (some tt, w'))
          × (disk.text_at w' ≡ update (disk.text_at w) (path k s) (some t))
          × (disk.bytes_at w' ≡ update (disk.bytes_at w) (path k s) (some (disk.encode t)))
    saved k s t w h =
        let (v, ok, there, texts, bytes) = ensured k w h in
        let (w', done, written, encoded) =
          disk.write_text (fs.join (base_dir ∷ k ∷ [])) (file_name s) t v there in
        (
          w',
          rw ok done,
          written ∙ (λ i. update (texts i) (disk.join_nested k (file_name s) i) (some t)),
          encoded
              ∙ (λ i. update (bytes i) (disk.join_nested k (file_name s) i) (some (disk.encode t))),
        )

    pub saved_bytes :
        (k : Text) (s : Slot) (b : List ℕ) (w : W)
        → disk.plain k ≡ true
        → (w' : W) × ((ensure_dir fs (fs.join (base_dir ∷ k ∷ []))
                >> fs.write_bytes (fs.join (fs.join (base_dir ∷ k ∷ []) ∷ file_name s ∷ [])) b)
              w
            ≡ (some tt, w'))
          × (disk.text_at w' ≡ update (disk.text_at w) (path k s) (some (disk.decode b)))
          × (disk.bytes_at w' ≡ update (disk.bytes_at w) (path k s) (some b))
    saved_bytes k s b w h =
        let (v, ok, there, texts, bytes) = ensured k w h in
        let (w', done, decoded, written) =
          disk.write_bytes (fs.join (base_dir ∷ k ∷ [])) (file_name s) b v there in
        (
          w',
          rw ok done,
          decoded
              ∙ (λ i. update (texts i) (disk.join_nested k (file_name s) i) (some (disk.decode b))),
          written ∙ (λ i. update (bytes i) (disk.join_nested k (file_name s) i) (some b)),
        )
