-- ===== src/Catalog/Domain.antt =====
-- server/catalog-service/internal/domain: catalog.go, types.go and sync.go. Times are nanoseconds since
-- Go's zero time, and `none` is a nil pointer.
use Prim.Native.Char.{code}
use go_folio.Prelude.{
  ℕ, ℤ, pos, leb, leb_ℤ, ltb_ℤ, eqb, Bool, true, false, not, ◌&&◌, ◌||◌, Option, none, some, List,
  String, ◌==◌, if◌then◌else◌,
}

pub record Product : Type 0 where
  pub id : ℤ
  pub product_code : String
  pub external_product_id : String
  pub title : String
  pub slug : String
  pub short_description : String
  pub description : String
  pub additional_info : String
  pub department : String
  pub category : String
  pub subcategory : String
  pub tags : List String
  pub base_sku : String
  pub primary_image_url : String
  pub active : Bool
  pub created_at : ℕ
  pub updated_at : ℕ
  pub last_synced_at : Option ℕ

pub record ProductVariant : Type 0 where
  pub id : ℤ
  pub product_id : ℤ
  pub sku : String
  pub external_variant_id : String
  pub color_slug : String
  pub color_name : String
  pub primary_color_name : String
  pub secondary_color_name : String
  pub primary_color_hex : String
  pub secondary_color_hex : String
  pub retail_price : ℤ
  pub sale_price : Option ℤ
  pub currency : String
  pub stock_quantity : ℤ
  pub stock_status : String
  pub warehouse_code : String
  pub variant_image_url : String
  pub active : Bool
  pub created_at : ℕ
  pub updated_at : ℕ
  pub last_synced_at : Option ℕ

pub record ProductImage : Type 0 where
  pub id : ℤ
  pub product_id : ℤ
  pub variant_id : Option ℤ
  pub url : String
  pub alt_text : String
  pub sort_order : ℤ
  pub is_main : Bool
  pub width : Option ℤ
  pub height : Option ℤ
  pub created_at : ℕ
  pub updated_at : ℕ

pub record ProductProjection : Type 0 where
  pub product : Product
  pub variants : List ProductVariant
  pub images : List ProductImage

pub record VariantInventoryRecord : Type 0 where
  pub product_code : String
  pub product_id : ℤ
  pub variant_id : ℤ
  pub sku : String
  pub retail_price : ℤ
  pub sale_price : Option ℤ
  pub currency : String
  pub stock_quantity : ℤ
  pub stock_status : String
  pub active : Bool
  pub updated_at : ℕ
  pub last_synced_at : Option ℕ

-- White space as Go's unicode.IsSpace has it.
unfoldable pub is_space : ℕ → Bool
is_space c =
    (leb 9 c && leb c 13)
    || eqb c 32
    || eqb c 0x85
    || eqb c 0xA0
    || eqb c 0x1680
    || (leb 0x2000 c && leb c 0x200A)
    || eqb c 0x2028
    || eqb c 0x2029
    || eqb c 0x202F
    || eqb c 0x205F
    || eqb c 0x3000

-- `strings.TrimSpace(s) == ""`
unfoldable pub is_blank : String → Bool
unfolding is_space
is_blank String.[] = true
is_blank (String.◌∷◌ c s) = is_space (code c) && is_blank s

-- `IsValid` of StockStatus
unfoldable pub is_valid : String → Bool
is_valid s = s == "IN_STOCK" || s == "LOW_STOCK" || s == "OUT_OF_STOCK"

-- The first rule that fails, with its text; `none` is a nil error.
abbrev pub check : Bool → String → Option String → Option String
check bad text rest = if bad then some text else rest

abbrev pub is_below_zero : Option ℤ → Bool
is_below_zero none = false
is_below_zero (some a) = ltb_ℤ a (pos 0)

-- `Validate` of Product, of ProductVariant and of ProductImage
unfoldable pub validate_product : Product → Option String
unfolding is_blank
validate_product p =
    check (is_blank p.product_code) "product code is required" (
      check (is_blank p.title) "title is required"
        (check (is_blank p.slug) "slug is required" none))

unfoldable pub validate_variant : ProductVariant → Option String
unfolding is_blank is_valid
validate_variant v = check (is_blank v.sku) "SKU is required" (
    check (leb_ℤ v.product_id (pos 0)) "product ID is required" (
      check (is_blank v.currency) "currency is required" (
        check (ltb_ℤ v.retail_price (pos 0)) "retail price must not be negative" (
          check (is_below_zero v.sale_price) "sale price must not be negative" (
            check (ltb_ℤ v.stock_quantity (pos 0)) "stock quantity must not be negative"
              (check (not (is_valid v.stock_status)) "invalid stock status" none))))))

unfoldable pub validate_image : ProductImage → Option String
unfolding is_blank
validate_image i =
    check (leb_ℤ i.product_id (pos 0)) "product ID is required"
      (check (is_blank i.url) "URL is required" none)
