-- ===== src/Gateway/Config.antt =====
-- server/gateway-service/internal/config/config.go, and the part of internal/runtime/runtime.go that
-- turns it into what the handlers use. `env` is os.Getenv.
use Prim.Native.Char.{Char, code}
use go_folio.Prelude.{
  ℤ, pos, leb_ℤ, eqb, Option, none, some, List, [], ◌∷◌, String, ◌==◌, ◌≡◌, refl, if◌then◌else◌,
}
use go_folio.Strconv.{parse_int64}

pub record Config : Type 0 where
  pub port : String
  pub catalog_url : String
  pub inventory_addr : String
  pub low_stock_threshold : ℤ
  pub keycloak_url : String
  pub keycloak_realm : String
  pub cors_allowed_origins : String

unfoldable pub or_default : String → String → String
or_default value default = if value == "" then default else value

-- A number that is not negative; anything else leaves the default.
unfoldable pub threshold_from : Option ℤ → ℤ
threshold_from none = pos 5
threshold_from (some n) = if leb_ℤ (pos 0) n then n else pos 5

unfoldable pub load : (String → String) → Config
unfolding or_default threshold_from parse_int64
load env = record {
  port = or_default (env "PORT") ":8090";
  catalog_url = or_default (env "CATALOG_URL") "http://localhost:8080";
  inventory_addr = or_default (env "INVENTORY_ADDR") "localhost:9090";
  low_stock_threshold =
      if env "LOW_STOCK_THRESHOLD" == ""
      then pos 5
      else threshold_from (parse_int64 (env "LOW_STOCK_THRESHOLD"));
  keycloak_url = env "KEYCLOAK_URL";
  keycloak_realm = or_default (env "KEYCLOAK_REALM") "folio";
  cors_allowed_origins =
      or_default (env "CORS_ALLOWED_ORIGINS") "http://localhost:3000,http://localhost:3001";
}

-- A character put before the first part.
abbrev first_grown : Char → List String → List String
first_grown c [] = String.◌∷◌ c String.[] ∷ []
first_grown c (t ∷ ts) = String.◌∷◌ c t ∷ ts

-- `strings.Split(s, ",")`
unfoldable pub split_commas : String → List String
split_commas String.[] = "" ∷ []
split_commas (String.◌∷◌ c s) =
    let rest = split_commas s in if eqb (code c) b',' then "" ∷ rest else first_grown c rest

unfoldable pub cors_origins : Config → List String
unfolding split_commas
cors_origins c = split_commas c.cors_allowed_origins

abbrev unset : String → String
unset name = ""

defaults :
    (cors_origins (load unset) ≡ "http://localhost:3000" ∷ "http://localhost:3001" ∷ [])
    × ((load unset).keycloak_url ≡ "")
    × ((load (λ name. "-3")).low_stock_threshold ≡ pos 5)
    × ((load (λ name. "12")).low_stock_threshold ≡ pos 12)
unfolding cors_origins load
defaults = (refl, refl, refl, refl)
