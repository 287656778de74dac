-- ===== src/Catalog/Seed.antt =====
-- server/catalog-service/internal/seed/seed.go, over PostgreSQL. What is logged is left out.
pub mod Laws
mod Tests
use go_folio.Prelude.{ℤ, pos, true, none, List, [], ◌∷◌, String, Result, ok, err}
use go_folio.Catalog.Domain.{Product, ProductVariant}
use go_folio.Catalog.Service.{RepoErr, ServiceErr}
use go_folio.Catalog.Service
use go_folio.Catalog.Store.{Session, postgres, list_products}

pub record VariantSeed : Type 0 where
  pub sku : String
  pub slug : String
  pub name : String
  pub hex : String
  pub price : ℤ
  pub stock : ℤ

unfoldable pub billetera : Product
billetera = record {
  id = pos 0;
  product_code = "BM-02";
  external_product_id = "1984";
  title = "Billetera de Colores";
  slug = "billetera-de-colores";
  short_description = "Billetera de cuero en múltiples colores.";
  description = "";
  additional_info = "";
  department = "ELLAS";
  category = "Accesorios";
  subcategory = "Billeteras";
  tags = [];
  base_sku = "BM-02-Colores";
  primary_image_url = "";
  active = true;
  created_at = 0;
  updated_at = 0;
  last_synced_at = none;
}

abbrev variant_seed : (sku slug name hex : String) (price stock : ℤ) → VariantSeed
variant_seed sku slug name hex price stock = record {
  sku = sku;
  slug = slug;
  name = name;
  hex = hex;
  price = price;
  stock = stock;
}

abbrev pub variants : List VariantSeed
variants =
    variant_seed "BM-02-COL-CO-NUE" "nuez" "Nuez" "#7b3500" (pos 2439000) (pos 13)
    ∷ variant_seed "BM-02-COL-CO-NE" "negro" "Negro" "#000000" (pos 2439000) (pos 8)
    ∷ variant_seed "BM-02-COL-CO-MI" "miel" "Miel" "#f5a52c" (pos 2439000) (pos 5)
    ∷ variant_seed "BM-02-COL-CO-CA" "cafe" "Café" "#26110a" (pos 2439000) (pos 12)
    ∷ []

unfoldable pub variant_of : ℤ → VariantSeed → ProductVariant
variant_of product_id v = record {
  id = pos 0;
  product_id = product_id;
  sku = v.sku;
  external_variant_id = "";
  color_slug = v.slug;
  color_name = v.name;
  primary_color_name = v.name;
  secondary_color_name = "";
  primary_color_hex = v.hex;
  secondary_color_hex = "";
  retail_price = v.price;
  sale_price = none;
  currency = "CRC";
  stock_quantity = v.stock;
  stock_status = "IN_STOCK";
  warehouse_code = "WH-001";
  variant_image_url = "";
  active = true;
  created_at = 0;
  updated_at = 0;
  last_synced_at = none;
}

-- A variant that is refused is passed over.
unfoldable pub add_variants : ℤ → List VariantSeed → Session → Session
unfolding variant_of
add_variants id [] s = s
add_variants id (v ∷ vs) s =
    add_variants id vs (Service.add_variant_to_product postgres (variant_of id v) s).1

unfoldable pub after_create : Result ServiceErr Product × Session → Session
unfolding add_variants
after_create (err e, s) = s
after_create (ok p, s) = add_variants p.id variants s

unfoldable pub seed_catalog : Result RepoErr (List Product) × Session → Session
unfolding after_create billetera
seed_catalog (err e, s) = s
seed_catalog (ok (p ∷ ps), s) = s
seed_catalog (ok [], s) = after_create (Service.create_product postgres billetera s)

unfoldable pub run : Session → Session
unfolding seed_catalog list_products
run s = seed_catalog (list_products s)
