-- ===== src/Inventory/Domain.antt =====
-- server/inventory-service/internal/domain/domain.go, with the errors of
-- internal/repository/repository.go. An `int32` is the integer that it stands for.
use go_folio.Prelude.{ℤ, String}
use Prim.Native.String

pub record Stock : Type 0 where
  pub sku : String
  pub available : ℤ
  pub reserved : ℤ

pub record Reservation : Type 0 where
  pub id : String
  pub sku : String
  pub quantity : ℤ
  pub order_id : String

-- `not_found` and `insufficient_stock` wrap ErrNotFound and ErrInsufficientStock, with the detail
-- that follows the sentinel's text; `failure` is any other error, with its prefix. The driver's own
-- text behind the prefix is not kept.
pub data Error : Type 0 where
  not_found insufficient_stock failure : String → Error

-- `err.Error()` of a wrapped sentinel.
unfoldable pub message : Error → String
message (not_found detail) = String.◌++◌ "not found: " detail
message (insufficient_stock detail) = String.◌++◌ "insufficient stock: " detail
message (failure op) = op
