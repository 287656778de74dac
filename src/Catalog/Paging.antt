-- ===== src/Catalog/Paging.antt =====
-- The cursor pages of server/catalog-service: internal/service/cursor.go, the two list functions of
-- internal/service/default_catalog_service.go, and the page queries of
-- internal/repository/postgres_catalog_repository.go. The two differ in their records and limits. A
-- table is the rows in the order of `ORDER BY updated_at ASC, id ASC`; `none` is a query that fails.
pub mod Filter
pub mod Laws
use go_folio.Catalog.Rows.{filter}
use go_folio.Prelude.{
  ℕ, ◌+◌, ◌≤◌, ℤ, pos, pos_part, leb_ℤ, ltb_ℤ, eqb_ℤ, ltb, eqb, Bool, true, false, ◌&&◌, ◌||◌,
  Option, none, some, List, [], ◌∷◌, ◌++◌, length, take, String, ◌==◌, Result, ok, err,
  if◌then◌else◌, zero, suc,
}

pub record SyncCursor : Type 0 where
  pub updated_at : ℕ
  pub id : ℤ

pub record SyncQuery : Type 0 where
  pub page_size : ℤ
  pub cursor : String
  pub updated_since : Option ℕ
  -- AfterAt and AfterID, which are set together
  pub after : Option SyncCursor

pub data SyncErr : Type 0 where
  invalid_cursor failed : SyncErr

-- Base64 over JSON, of encoding/base64 and encoding/json.
pub record Codec : Type 0 where
  pub encode : SyncCursor → String
  pub decode : String → Option SyncCursor

unfoldable pub decode_cursor : Codec → String → Result SyncErr SyncCursor
decode_cursor codec raw = elim (codec.decode raw) [
  | none ↦ err invalid_cursor
  | some c ↦ if eqb c.updated_at 0 then err invalid_cursor else ok c
]

pub record Page {ℓ} (A : Type ℓ) : Type ℓ where
  pub items : List A
  pub page_size : ℤ
  pub next_cursor : String
  pub has_next : Bool
  pub sync_token : ℕ

-- The WHERE clause, condition by condition.
unfoldable pub is_since : Option ℕ → SyncCursor → Bool
is_since none k = true
is_since (some t) k = ltb t k.updated_at

unfoldable pub is_after : Option SyncCursor → SyncCursor → Bool
is_after none k = true
is_after (some c) k =
    ltb c.updated_at k.updated_at || (eqb k.updated_at c.updated_at && ltb_ℤ c.id k.id)

-- The page size that a query is given: the default where it is not positive, and at most the limit.
unfoldable pub clamp : ℤ → ℤ → ℤ → ℤ
clamp default limit n =
    let m = if leb_ℤ n (pos 0) then default else n in if ltb_ℤ limit m then limit else m

module _ {ℓ} {A : Type ℓ} where
  unfoldable pub last_or : Option A → List A → Option A
  last_or d [] = d
  last_or d (x ∷ xs) = last_or (some x) xs

  -- What is made of the rows behind `LIMIT page_size + 1`.
  unfoldable pub cut : ℕ → List A → List A × Bool
  cut n rows = if ltb n (length rows) then (take n rows, true) else (rows, false)

module _ {ℓ} {A : Type ℓ} (key : A → SyncCursor) where
  unfoldable pub list_page : Option (List A) → SyncQuery → Option (List A × Bool)
  unfolding filter cut is_since is_after
  list_page none q = none
  list_page (some table) q =
      let chosen =
        filter (λ x. is_since q.updated_since (key x) && is_after q.after (key x)) table in
      let n = pos_part q.page_size in some (cut n (take (n + 1) chosen))

  unfoldable pub next_cursor : Codec → Bool → Option A → String
  next_cursor codec true (some x) = codec.encode (key x)
  next_cursor codec _ _ = ""

  -- Behind the decoding of the cursor.
  unfoldable pub page_of : Codec → SyncQuery → ℕ → Option (List A × Bool) → Result SyncErr (Page A)
  unfolding next_cursor last_or
  page_of codec q now none = err failed
  page_of codec q now (some (items, has_next)) = ok (record {
    items = items;
    page_size = q.page_size;
    next_cursor = next_cursor codec has_next (last_or none items);
    has_next = has_next;
    sync_token = now;
  })

  -- The query with the position of its cursor.
  unfoldable pub position : Codec → SyncQuery → Result SyncErr SyncQuery
  unfolding decode_cursor
  position codec q = if q.cursor == "" then ok q else elim (decode_cursor codec q.cursor) [
    | err e ↦ err e
    | ok c ↦ ok (record q { after = some c })
  ]

  unfoldable pub answer :
      Codec → Option (List A) → ℕ → Result SyncErr SyncQuery → Result SyncErr (Page A)
  unfolding page_of list_page
  answer codec table now (err e) = err e
  answer codec table now (ok q) = page_of codec q now (list_page table q)

  unfoldable pub list_with :
      ℤ → ℤ → Codec → Option (List A) → SyncQuery → ℕ → Result SyncErr (Page A)
  unfolding position answer clamp
  list_with default limit codec table q now =
      answer codec table now
        (position codec (record q { page_size = clamp default limit q.page_size }))

  -- `ListProductProjections` and `ListVariantInventory`
  unfoldable pub list_product_projections :
      Codec → Option (List A) → SyncQuery → ℕ → Result SyncErr (Page A)
  unfolding list_with
  list_product_projections codec table q now = list_with (pos 100) (pos 500) codec table q now

  unfoldable pub list_variant_inventory :
      Codec → Option (List A) → SyncQuery → ℕ → Result SyncErr (Page A)
  unfolding list_with
  list_variant_inventory codec table q now = list_with (pos 500) (pos 1000) codec table q now

-- A client that follows the cursors: the items of a page, then those behind its cursor.
unfoldable pub joined {ℓ} :
    {A : Type ℓ} → Page A → Result SyncErr (List A) → Result SyncErr (List A)
joined p (err e) = err e
joined p (ok rest) = ok (p.items ++ rest)

unfoldable pub continued {ℓ} :
    {A : Type ℓ}
    → (String → Result SyncErr (List A))
    → Result SyncErr (Page A)
    → Result SyncErr (List A)
unfolding joined
continued go (err e) = err e
continued go (ok p) = elim p.has_next [ true ↦ joined p (go p.next_cursor) | false ↦ ok p.items ]

unfoldable pub follow {ℓ} :
    {A : Type ℓ} → (SyncQuery → Result SyncErr (Page A)) → ℕ → SyncQuery → Result SyncErr (List A)
unfolding continued
follow ask zero q = err failed
follow ask (suc fuel) q = continued (λ c. follow ask fuel (record q { cursor = c })) (ask q)
