-- ===== src/Repository.antt =====
-- internal/repository/product_repository.go. The generic repository that it embeds, and gorm's
-- queries, are not part of the repository: `BaseRepository` is what the code calls of them.
pub mod Laws
pub mod Lawful
use platform_idp_demo.Base.{ℕ, String, Option, none, some, List, [], ◌∷◌}
use platform_idp_demo.Base.Int.{ℤ}
use platform_idp_demo.Base.Text.{◌<>◌}
use platform_idp_demo.Go.{M, pure}
use platform_idp_demo.Platform.{Platform, Err}
use platform_idp_demo.Types.Entity.{Product}
use platform_idp_demo.Types.Dto.{ProductFilter}

-- A value of a column that an update sets.
pub data Value (P : Platform) : Type 0 where
  text : String → Value P
  status : ℤ → Value P
  price : P.Float → Value P

-- `model.Cursor`
pub record Cursor : Type 0 where
  pub prev : String
  pub next : String

-- `baseRepo.QueryOpt`: a change of a gorm query, where `none` is a panic.
abbrev pub QueryOpt : Type 0 → Type 0
QueryOpt Query = Query → Option Query

abbrev pub Page : Platform → Type 0
Page P = List (Option (Product P)) × P.PageInfo × Err P

abbrev pub CursorPage : Platform → Type 0
CursorPage P = List (Option (Product P)) × Option Cursor × Err P

pub record BaseRepository (P : Platform) : Type 1 where
  pub Db : Type 0
  pub Query : Type 0
  -- `g.Where(condition, argument)`
  pub where_text : String → String → Query → Query
  pub with_order : String → String → QueryOpt Query
  pub find_by_uid : String → M Db (Option (Product P) × Err P)
  pub create : Product P → M Db (Err P)
  pub update_by_id : List (String × Value P) → ℤ → M Db (Err P)
  pub delete_by_id : ℤ → M Db (Err P)
  pub count : QueryOpt Query → M Db (ℕ × Err P)
  pub query_with_pagination : ℤ → ℤ → List (QueryOpt Query) → M Db (Page P)
  pub query_with_cursor :
      ℤ → String → String → String → String → List (QueryOpt Query) → M Db (CursorPage P)

-- The interface `ProductRepository`.
pub record ProductRepository (P : Platform) : Type 1 where
  pub Db : Type 0
  pub find_by_uid : String → M Db (Option (Product P) × Err P)
  pub create : Product P → M Db (Err P)
  pub update_by_id : List (String × Value P) → ℤ → M Db (Err P)
  pub delete_by_id : ℤ → M Db (Err P)
  pub count_by_sku : String → M Db (ℕ × Err P)
  pub find_with_pagination : ℤ → ℤ → String → String → Option ProductFilter → M Db (Page P)
  pub find_with_cursor :
      ℤ → String → String → String → String → Option ProductFilter → M Db (CursorPage P)

module _ {P : Platform} (B : BaseRepository P) where
  open B use {Db, Query, where_text}

  abbrev name_filter : Option String → Query → Query
  name_filter none g = g
  name_filter (some name) g = where_text "names LIKE ?" ("%" <> name <> "%") g

  abbrev sku_filter : Option String → Query → Query
  sku_filter none g = g
  sku_filter (some sku) g = where_text "sku=?" sku g

  unfoldable pub with_filter : Option ProductFilter → QueryOpt Query
  with_filter none g = none
  with_filter (some filters) g = some (sku_filter filters.sku (name_filter filters.name g))

  unfoldable pub count_by_sku : String → M Db (ℕ × Err P)
  count_by_sku code = B.count (λ g. some (where_text "sku=?" code g))

  unfoldable pub find_with_pagination :
      ℤ → ℤ → String → String → Option ProductFilter → M Db (Page P)
  unfolding with_filter
  find_with_pagination limit page sort_order sort_by filters =
      B.query_with_pagination limit page
        (B.with_order sort_order sort_by ∷ with_filter filters ∷ [])

  unfoldable pub find_with_cursor :
      ℤ → String → String → String → String → Option ProductFilter → M Db (CursorPage P)
  unfolding with_filter
  find_with_cursor limit prev next sort_by sort_order filters =
      B.query_with_cursor limit prev next sort_by sort_order (with_filter filters ∷ [])

  abbrev pub new_product_repository : ProductRepository P
  new_product_repository = record {
    Db = Db;
    find_by_uid = B.find_by_uid;
    create = B.create;
    update_by_id = B.update_by_id;
    delete_by_id = B.delete_by_id;
    count_by_sku = count_by_sku;
    find_with_pagination = find_with_pagination;
    find_with_cursor = find_with_cursor;
  }
