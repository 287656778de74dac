-- ===== src/Catalog/Handler/Sync.antt =====
-- The list of products and the two sync routes of server/catalog-service/internal/handler/
-- catalog_handler.go, over the pages of PostgreSQL. A query parameter that is absent is the empty text.
use go_folio.Prelude.{
  ℕ, ℤ, pos, leb_ℤ, Option, none, some, List, String, ◌==◌, Result, ok, err, if◌then◌else◌,
}
use go_folio.Strconv.{parse_int64}
use go_folio.Gateway.Http.{Response, write_json, write_error}
use go_folio.Catalog.Domain.{ProductProjection, VariantInventoryRecord}
use go_folio.Catalog.Paging.{SyncQuery, SyncErr, invalid_cursor, failed, Codec, Page}
use go_folio.Catalog.Store.{Session}
use go_folio.Catalog.Store.Pages.{list_product_projections, list_variant_inventory}
use go_folio.Catalog.Handler.{bad_request, internal_error}

-- The page size, 0 where it is absent, or the answer 400.
unfoldable pub positive : Option ℤ → Option ℤ
positive none = none
positive (some n) = if leb_ℤ n (pos 0) then none else some n

unfoldable pub parse_page_size : String → Option ℤ
unfolding positive parse_int64
parse_page_size raw = if raw == "" then some (pos 0) else positive (parse_int64 raw)

module _ (parse_time : String → Option ℕ) where
  -- time.Parse(time.RFC3339, raw): the time, if any is asked for, or the answer 400
  unfoldable pub time_given : Option ℕ → Option (Option ℕ)
  time_given none = none
  time_given (some t) = some (some t)

  unfoldable pub parse_updated_since : String → Option (Option ℕ)
  unfolding time_given
  parse_updated_since raw = if raw == "" then some none else time_given (parse_time raw)

  unfoldable pub handle_sync_error {ℓ} : {P : Type ℓ} → SyncErr → Response P
  handle_sync_error invalid_cursor = write_error 400 "INVALID_CURSOR" "invalid cursor"
  handle_sync_error failed = internal_error

  unfoldable pub page_answer :
      {A : Type 0} → Result SyncErr (Page A) × Session → Response (Page A) × Session
  unfolding handle_sync_error
  page_answer (ok page, s) = (write_json 200 page, s)
  page_answer (err e, s) = (handle_sync_error e, s)

  unfoldable pub sync_with :
      {A : Type 0}
      → (SyncQuery → Session → Result SyncErr (Page A) × Session)
      → Option ℤ
      → Option (Option ℕ)
      → String
      → Session
      → Response (Page A) × Session
  unfolding page_answer
  sync_with list none since cursor s = (bad_request "pageSize must be a positive integer", s)
  sync_with list (some size) none cursor s =
      (bad_request "updatedSince must be an ISO-8601 timestamp", s)
  sync_with list (some size) (some since) cursor s =
      page_answer
        (list (record { page_size = size; cursor = cursor; updated_since = since; after = none }) s)

  module _ (codec : Codec) where
    unfoldable pub list_projections_route :
        (page_size updated_since cursor : String)
        → Session
        → Response (Page ProductProjection) × Session
    unfolding sync_with parse_page_size parse_updated_since list_product_projections
    list_projections_route page_size updated_since cursor s =
        sync_with (list_product_projections codec) (parse_page_size page_size)
          (parse_updated_since updated_since) cursor s

    unfoldable pub list_inventory_route :
        (page_size updated_since cursor : String)
        → Session
        → Response (Page VariantInventoryRecord) × Session
    unfolding sync_with parse_page_size parse_updated_since list_variant_inventory
    list_inventory_route page_size updated_since cursor s =
        sync_with (list_variant_inventory codec) (parse_page_size page_size)
          (parse_updated_since updated_since) cursor s

    unfoldable pub items_answer :
        Result SyncErr (Page ProductProjection) × Session
        → Response (List ProductProjection) × Session
    items_answer (ok page, s) = (write_json 200 page.items, s)
    items_answer (err e, s) = (internal_error, s)

    -- `listProducts`: one page of 500
    unfoldable pub list_products_route : Session → Response (List ProductProjection) × Session
    unfolding items_answer list_product_projections
    list_products_route s = items_answer (
        list_product_projections codec
          (record { page_size = pos 500; cursor = ""; updated_since = none; after = none }) s)
