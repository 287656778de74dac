-- ===== src/SeedCatalog/Tests.antt =====
-- A small run of the seeding program, and witnesses.
use go_folio.Prelude.{
  ◌+ℤ◌, ◌-ℤ◌, ◌≡◌, refl, ℕ, ◌+◌, ◌≤◌, pos, Bool, true, false, Option, none, some, List, [], ◌∷◌,
  length, ◌↔◌,
}
use go_folio.SeedCatalog.Client.{World, Config, Client, Reply, TokenReply, created}
use go_folio.SeedCatalog.Client.Laws.{logged, log_of}
use go_folio.SeedCatalog.Run.{SilverProduct, Options, Minio, Tally, init_minio, run, seed_files}
use go_folio.SeedCatalog.Run.Laws.{total, run_counts}
use go_folio.SeedCatalog.Run.Requests.{request_bound, seed_files-bounded}

abbrev good_token : TokenReply
good_token = record {
  status = 200;
  token = some (record { access_token = "t"; expires_in = pos 300 });
}

abbrev replied : List ℕ → Option Reply × List ℕ
replied [] = (none, [])
replied (n ∷ ns) = (some (record { status = n; content = some (created (pos 7)) }), ns)

-- A world that answers the requests with these statuses.
abbrev script : World (List ℕ)
script = record {
  now = λ w. (pos 0, w);
  post_form = λ endpoint form w. (some good_token, w);
  send = λ r w. replied w;
  read_dir = λ dir w. (some (record { name = "front.jpg"; is_dir = false } ∷ []), w);
  put_object = λ object path w. (true, w);
}

abbrev config : Config
config = record {
  gateway = "http://localhost:8090";
  keycloak_url = "http://localhost:8080";
  realm = "folio";
  username = "admin@folio.dev";
  password = "admin123";
}

abbrev options : Bool → Options
options dry = record { images_dir = "images"; dry_run = dry; join = λ a b. a }

abbrev minio : {W : Type 0} → Minio W
minio = record {
  new_client = λ w. (true, w);
  bucket_exists = λ w. (some true, w);
  make_bucket = λ w. (true, w);
}

abbrev wallet : SilverProduct
wallet = record {
  sku = "W-1";
  title = "Wallet";
  slug = "wallet";
  short_description = "";
  department = "";
  category = "";
  active = true;
  variants =
      record {
        sku = "W-1-BLK";
        color_name = "Black";
        color_slug = "black";
        primary_color_hex = "";
        retail_price = pos 1000;
        currency = "USD";
        active = true;
      }
      ∷ [];
  images = [];
}

abbrev files : List (Option SilverProduct)
files = some wallet ∷ none ∷ some wallet ∷ []

abbrev statuses : List ℕ
statuses = 401 ∷ 201 ∷ 500 ∷ 200 ∷ 409 ∷ []

abbrev tally : Tally
tally = record { seeded_count = 0; skipped_count = 0; failed_count = 0 }

ready : (init_minio script config (options false) minio statuses).0 ≡ true
unfolding init_minio
ready = refl

-- The first create is sent twice, its variant fails, its image is stored; the third file is there already.
runs :
    run script config (options false) files minio statuses
    ≡ (1, record { seeded_count = 1; skipped_count = 1; failed_count = 1 }, [])
unfolding run ◌+ℤ◌ ◌-ℤ◌
runs = refl

run_counts_example :
    let (code, t, after) = run script config (options false) files minio statuses in
    (total t ≡ 3) × ((code ≡ 0) ↔ (t.failed_count ≡ 0))
run_counts_example =
    run_counts script config (options false) (some wallet) (none ∷ some wallet ∷ []) minio statuses
      ready

abbrev start : {W : Type 0} → W → Client W
start w = record { access_token = ""; token_expires = pos 0; world = w }

seed_files-bounded_example :
    length (
      log_of
        (seed_files (logged script) config (options false) files (tally, start ([], statuses))).1)
    ≤ request_bound files + 0
seed_files-bounded_example =
    seed_files-bounded script config (options false) files tally (start ([], statuses))
