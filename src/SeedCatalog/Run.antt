-- ===== src/SeedCatalog/Run.antt =====
-- scripts/seed-catalog/main.go: `uploadImage`, `initMinio` and `main`. The files are what `ReadFile` and
-- `Unmarshal` made of those that `Glob` found; `none` is one that cannot be read or parsed. What is
-- logged is left out.
pub mod Laws
pub mod Requests
use Prim.Native.String
use go_folio.Prelude.{
  ℕ, suc, ◌+◌, ℤ, pos, eqb, Bool, true, false, not, ◌&&◌, Option, none, some, List, [], ◌∷◌, String,
  ◌==◌, if◌then◌else◌,
}
use go_folio.Strconv.{format_int}
use go_folio.SeedCatalog.Client.{
  World, Config, Client, Entry, Outcome, failed, answered, CreateProductPayload,
  CreateVariantPayload, product_payload, variant_payload, primary_image, post, patch, concat,
  do_json,
}

pub record SilverImage : Type 0 where
  pub file : String
  pub alt_text : String

pub record SilverProduct : Type 0 where
  pub sku : String
  pub title : String
  pub slug : String
  pub short_description : String
  pub department : String
  pub category : String
  pub active : Bool
  pub variants : List CreateVariantPayload
  pub images : List SilverImage

-- How the loop counts a file.
pub data Verdict : Type 0 where
  seeded skipped not_seeded : Verdict

pub record Tally : Type 0 where
  pub seeded_count : ℕ
  pub skipped_count : ℕ
  pub failed_count : ℕ

pub record Options : Type 0 where
  pub images_dir : String
  pub dry_run : Bool
  -- filepath.Join
  pub join : String → String → String

-- The object store before the loop: minio.New, BucketExists and MakeBucket.
pub record Minio (W : Type 0) : Type 0 where
  pub new_client : W → Bool × W
  pub bucket_exists : W → Option Bool × W
  pub make_bucket : W → Bool × W

unfoldable pub product_code : SilverProduct → String
product_code sp = if sp.sku == "" then sp.slug else sp.sku

unfoldable pub create_payload : SilverProduct → CreateProductPayload
unfolding product_code
create_payload sp = record {
  product_code = product_code sp;
  title = sp.title;
  slug = sp.slug;
  short_description = sp.short_description;
  department = sp.department;
  category = sp.category;
  active = sp.active;
}

unfoldable pub count : Verdict → Tally → Tally
count seeded t = record t { seeded_count = suc t.seeded_count }
count skipped t = record t { skipped_count = suc t.skipped_count }
count not_seeded t = record t { failed_count = suc t.failed_count }

unfoldable pub object_name : String → String → String
object_name slug name = concat ("products/" ∷ slug ∷ "/" ∷ name ∷ [])

-- What the answer to the create makes of a product: its id, or how it counts.
unfoldable pub id_or_verdict : Outcome → Option ℤ × Verdict
id_or_verdict (failed status) = (none, not_seeded)
id_or_verdict (answered status id) =
    if eqb status 409
    then (none, skipped)
    else if not (eqb status 201)
    then (none, not_seeded)
    else (some id, seeded)

module _ {W : Type 0} (env : World W) (config : Config) (options : Options) where
  unfoldable pub upload_image : (slug dir name : String) → W → Option String × W
  unfolding object_name
  upload_image slug dir name w =
      let (stored, w1) = env.put_object (object_name slug name) (options.join dir name) w in
      if stored then (some (object_name slug name), w1) else (none, w1)

  -- The first object that was stored.
  unfoldable pub first_image : String → Option String → String
  first_image first none = first
  first_image first (some object) = if first == "" then object else first

  unfoldable pub upload_entries : (slug dir : String) → List Entry → String → W → String × W
  unfolding upload_image first_image
  upload_entries slug dir [] first w = (first, w)
  upload_entries slug dir (e ∷ es) first w =
      let (object, w1) = upload_image slug dir e.name w in
      let skip = upload_entries slug dir es first w in
      let go = upload_entries slug dir es (first_image first object) w1 in
      if e.is_dir then skip else go

  unfoldable pub upload_listed : (slug dir : String) → Option (List Entry) × W → String × W
  unfolding upload_entries
  upload_listed slug dir (none, w) = ("", w)
  upload_listed slug dir (some es, w) = upload_entries slug dir es "" w

  unfoldable pub upload_images : String → Client W → String × Client W
  unfolding upload_listed
  upload_images slug c =
      let dir = options.join options.images_dir slug in
      let (first, w) = upload_listed slug dir (env.read_dir dir c.world) in
      (first, record c { world = w })

  -- An answer to a variant is logged, whatever it is.
  unfoldable pub add_variants : ℤ → List CreateVariantPayload → Client W → Client W
  unfolding do_json
  add_variants id [] c = c
  add_variants id (v ∷ vs) c =
      let path = concat ("/admin/products/" ∷ format_int id ∷ "/variants" ∷ []) in
      add_variants id vs (do_json env config post path (variant_payload v) false c).1

  unfoldable pub save_image : ℤ → String × Client W → Client W
  unfolding do_json
  save_image id (first, c) =
      let path = String.◌++◌ "/admin/products/" (format_int id) in
      let saved = do_json env config patch path (primary_image first) false c in
      if first == "" then c else saved.1

  unfoldable pub after_create : SilverProduct → Option ℤ × Verdict → Client W → Verdict × Client W
  unfolding add_variants upload_images save_image
  after_create sp (none, verdict) c = (verdict, c)
  after_create sp (some id, verdict) c =
      (verdict, save_image id (upload_images sp.slug (add_variants id sp.variants c)))

  unfoldable pub seed_product : SilverProduct → Client W → Verdict × Client W
  unfolding after_create do_json create_payload id_or_verdict
  seed_product sp c =
      let (outcome, c1) =
        do_json env config post "/admin/products" (product_payload (create_payload sp)) true c in
      after_create sp (id_or_verdict outcome) c1

  unfoldable pub seed_file : Option SilverProduct → Client W → Verdict × Client W
  unfolding seed_product
  seed_file none c = (not_seeded, c)
  seed_file (some sp) c = if options.dry_run then (seeded, c) else seed_product sp c

  unfoldable pub seed_files : List (Option SilverProduct) → Tally × Client W → Tally × Client W
  unfolding seed_file count
  seed_files [] (t, c) = (t, c)
  seed_files (f ∷ fs) (t, c) =
      let (verdict, c1) = seed_file f c in seed_files fs (count verdict t, c1)

  unfoldable pub bucket_made : Minio W → Option Bool × W → Bool × W
  bucket_made minio (none, w) = (false, w)
  bucket_made minio (some true, w) = (true, w)
  bucket_made minio (some false, w) = minio.make_bucket w

  unfoldable pub bucket_checked : Minio W → Bool × W → Bool × W
  unfolding bucket_made
  bucket_checked minio (false, w) = (false, w)
  bucket_checked minio (true, w) = bucket_made minio (minio.bucket_exists w)

  unfoldable pub init_minio : Minio W → W → Bool × W
  unfolding bucket_checked
  init_minio minio w = bucket_checked minio (minio.new_client w)

  abbrev pub no_tally : Tally
  no_tally = record { seeded_count = 0; skipped_count = 0; failed_count = 0 }

  abbrev pub no_token : W → Client W
  no_token w = record { access_token = ""; token_expires = pos 0; world = w }

  -- The exit code, and the counts where the loop ran.
  unfoldable pub finished : Tally × Client W → ℕ × Tally × W
  finished (t, c) = (if eqb t.failed_count 0 then 0 else 1, t, c.world)

  unfoldable pub started : List (Option SilverProduct) → Bool × W → ℕ × Tally × W
  unfolding finished seed_files
  started files (false, w) = (1, no_tally, w)
  started files (true, w) = finished (seed_files files (no_tally, no_token w))

  unfoldable pub run : List (Option SilverProduct) → Minio W → W → ℕ × Tally × W
  unfolding started init_minio
  run [] minio w = (1, no_tally, w)
  run (f ∷ fs) minio w =
      started (f ∷ fs) (if options.dry_run then (true, w) else init_minio minio w)
