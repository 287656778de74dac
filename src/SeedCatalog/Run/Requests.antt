-- ===== src/SeedCatalog/Run/Requests.antt =====
-- How many requests a run sends the gateway.
use Prim.Native.String
use go_folio.Prelude.{
  ◌≡◌, refl, ap, ◌∙◌, ℕ, ◌+◌, ◌*◌, ◌≤◌, ℤ, Bool, true, false, Option, none, some, List, [], ◌∷◌,
  length, String, ◌==◌, Bool-cases, inl, inr, arith, if◌then◌else◌,
}
use go_folio.Strconv.{format_int}
use go_folio.SeedCatalog.Client.{
  World, Config, Client, Request, Entry, do_json, CreateVariantPayload, post, patch, concat,
  product_payload, variant_payload, primary_image,
}
use go_folio.SeedCatalog.Client.Laws.{logged, log_of, Sends-length, do_json-Sends}
use go_folio.SeedCatalog.Run.{
  SilverProduct, Verdict, Tally, Options, create_payload, count, id_or_verdict, upload_image,
  object_name, first_image, upload_entries, upload_listed, upload_images, add_variants, save_image,
  after_create, seed_product, seed_file, seed_files,
}

-- The requests of a product: two for each variant, for its create and for its image.
abbrev pub request_bound : List (Option SilverProduct) → ℕ
request_bound [] = 0
request_bound (none ∷ fs) = request_bound fs
request_bound (some sp ∷ fs) = 2 * (length sp.variants + 2) + request_bound fs

bound-cons :
    (f : Option SilverProduct) (fs : List (Option SilverProduct))
    → request_bound (f ∷ fs) ≡ request_bound (f ∷ []) + request_bound fs
bound-cons none fs = omega arith
bound-cons (some sp) fs = omega arith

module _ {W : Type 0} (env : World W) (config : Config) (options : Options) where
  abbrev size : Client (List Request × W) → ℕ
  size c = length (log_of c)

  add_variants-size :
      (id : ℤ) (vs : List CreateVariantPayload) (c : Client (List Request × W))
      → size (add_variants (logged env) config options id vs c) ≤ 2 * length vs + size c
  unfolding add_variants
  add_variants-size id [] c = omega arith
  add_variants-size id (v ∷ vs) c =
      let path = concat ("/admin/products/" ∷ format_int id ∷ "/variants" ∷ []) in
      let sent = do_json (logged env) config post path (variant_payload v) false c in
      omega (
        arith,
        add_variants-size id vs sent.1,
        Sends-length _ 2 (log_of c) (log_of sent.1)
            (do_json-Sends env config post path (variant_payload v) false c),
      )

  if-log :
      (b : Bool) (x y : String × (List Request × W)) (l : List Request)
      → x.1.0 ≡ l
      → y.1.0 ≡ l
      → (if b then x else y).1.0 ≡ l
  if-log true x y l e f = e
  if-log false x y l e f = f

  if-size :
      (b : Bool) (x y : Verdict × Client (List Request × W)) (n : ℕ)
      → size x.1 ≤ n
      → size y.1 ≤ n
      → size (if b then x else y).1 ≤ n
  if-size true x y n h k = h
  if-size false x y n h k = k

  upload_image-log :
      (slug dir name : String) (w : List Request × W)
      → (upload_image (logged env) config options slug dir name w).1.0 ≡ w.0
  unfolding upload_image
  upload_image-log slug dir name w =
      elim (Bool-cases (env.put_object (object_name slug name) (options.join dir name) w.1).0) [
        | inl stored ↦ rw stored refl
        | inr lost ↦ rw lost refl
      ]

  upload_entries-log :
      (slug dir : String) (es : List Entry) (first : String) (w : List Request × W)
      → (upload_entries (logged env) config options slug dir es first w).1.0 ≡ w.0
  unfolding upload_entries
  upload_entries-log slug dir [] first w = refl
  upload_entries-log slug dir (e ∷ es) first w =
      let object = upload_image (logged env) config options slug dir e.name w in
      if-log e.is_dir (upload_entries (logged env) config options slug dir es first w) _ w.0
        (upload_entries-log slug dir es first w)
        (upload_entries-log slug dir es (first_image env config options first object.0) object.1
          ∙ upload_image-log slug dir e.name w)

  upload_listed-log :
      (slug dir : String) (x : Option (List Entry) × (List Request × W))
      → (upload_listed (logged env) config options slug dir x).1.0 ≡ x.1.0
  unfolding upload_listed
  upload_listed-log slug dir (none, w) = refl
  upload_listed-log slug dir (some es, w) = upload_entries-log slug dir es "" w

  upload_images-size :
      (slug : String) (c : Client (List Request × W))
      → size (upload_images (logged env) config options slug c).1 ≡ size c
  unfolding upload_images
  upload_images-size slug c =
      let dir = options.join options.images_dir slug in
      ap length (upload_listed-log slug dir ((logged env).read_dir dir c.world))

  save_image-size :
      (id : ℤ) (x : String × Client (List Request × W))
      → size (save_image (logged env) config options id x) ≤ 2 + size x.1
  unfolding save_image
  save_image-size id (first, c) =
      let path = String.◌++◌ "/admin/products/" (format_int id) in
      let sent =
        Sends-length _ 2 (log_of c) _
          (do_json-Sends env config patch path (primary_image first) false c) in
      elim (Bool-cases (first == "")) [
        | inl no_image ↦ rw no_image (omega arith)
        | inr image ↦ rw image sent
      ]

  after_create-size :
      (sp : SilverProduct) (x : Option ℤ × Verdict) (c : Client (List Request × W))
      → size (after_create (logged env) config options sp x c).1
        ≤ 2 * length sp.variants + 2 + size c
  unfolding after_create
  after_create-size sp (none, v) c = omega arith
  after_create-size sp (some id, v) c =
      let added = add_variants (logged env) config options id sp.variants c in
      omega (
        arith,
        add_variants-size id sp.variants c,
        upload_images-size sp.slug added,
        save_image-size id (upload_images (logged env) config options sp.slug added),
      )

  seed_product-size :
      (sp : SilverProduct) (c : Client (List Request × W))
      → size (seed_product (logged env) config options sp c).1
        ≤ 2 * (length sp.variants + 2) + size c
  unfolding seed_product
  seed_product-size sp c =
      let payload = product_payload (create_payload sp) in
      let made = do_json (logged env) config post "/admin/products" payload true c in
      omega (
        arith,
        Sends-length _ 2 (log_of c) (log_of made.1)
            (do_json-Sends env config post "/admin/products" payload true c),
        after_create-size sp (id_or_verdict made.0) made.1,
      )

  seed_file-size :
      (f : Option SilverProduct) (c : Client (List Request × W))
      → size (seed_file (logged env) config options f c).1 ≤ request_bound (f ∷ []) + size c
  unfolding seed_file
  seed_file-size none c = omega arith
  seed_file-size (some sp) c =
      if-size options.dry_run _ _ _ (omega arith) (omega (arith, seed_product-size sp c))

  -- Whatever Keycloak, the clock and the gateway do, the loop sends the gateway at most two requests for
  -- each product's create, for each of its variants and for its image.
  pub seed_files-bounded :
      (fs : List (Option SilverProduct)) (t : Tally) (c : Client (List Request × W))
      → length (log_of (seed_files (logged env) config options fs (t, c)).1)
        ≤ request_bound fs + length (log_of c)
  unfolding seed_files
  seed_files-bounded [] t c = omega arith
  seed_files-bounded (f ∷ fs) t c =
      let x = seed_file (logged env) config options f c in
      omega (arith, seed_files-bounded fs (count x.0 t) x.1, seed_file-size f c, bound-cons f fs)
