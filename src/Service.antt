-- ===== src/Service.antt =====
-- internal/service/product_service.go. The service keeps nothing itself: its state is the database
-- behind the repository and the entries of the cache.
mod Interface
pub mod Reading
pub mod Writing
pub mod Editing
pub mod Unique
pub mod Lookup
pub mod Exporting
pub mod RoundTrip
pub mod Interleaving
pub mod Staleness
pub mod Factory
pub mod Catalog
use platform_idp_demo.Base.{
  ℕ, ltb, String, Bool, true, false, Option, none, some, List, [], ◌∷◌, if◌then◌else◌,
}
use platform_idp_demo.Base.Int.{ℤ, pos, ◌==ℤ◌}
use platform_idp_demo.Base.Text.{str_eq}
use platform_idp_demo.Go.{M, Exec, pure, deref, zoom, restore, returned, ◌>>=◌, ◌>>◌}
use platform_idp_demo.Platform.{Platform, Err}
use platform_idp_demo.Pmcpb.{FileInfo, empty_file}
pub use Interface.*
pub use platform_idp_demo.Api.Server.{Answer, Empty, empty}
use platform_idp_demo.Api.Errors.{text_error}
use platform_idp_demo.Api.Enums.{export_type_url}
use platform_idp_demo.Api.ListProductsRequest
use platform_idp_demo.Api.ListProductsRequest.{ListProductsRequest}
use platform_idp_demo.Api.ListProductsResponse.{ListProductsResponse}
use platform_idp_demo.Api.GetProductRequest
use platform_idp_demo.Api.GetProductRequest.{GetProductRequest}
use platform_idp_demo.Api.GetProductResponse.{GetProductResponse}
use platform_idp_demo.Api.CreateProductRequest
use platform_idp_demo.Api.CreateProductRequest.{CreateProductRequest}
use platform_idp_demo.Api.UpdateProductRequest
use platform_idp_demo.Api.UpdateProductRequest.{UpdateProductRequest}
use platform_idp_demo.Api.DeleteProductRequest
use platform_idp_demo.Api.DeleteProductRequest.{DeleteProductRequest}
use platform_idp_demo.Api.ExportProductsRequest
use platform_idp_demo.Api.ExportProductsRequest.{ExportProductsRequest}
use platform_idp_demo.Api.GetProductFromCacheRequest
use platform_idp_demo.Api.GetProductFromCacheRequest.{GetProductFromCacheRequest}
use platform_idp_demo.Api.GetProductFromCacheResponse.{GetProductFromCacheResponse}
use platform_idp_demo.Types.Entity.{Product}
use platform_idp_demo.Types.Dto.{map_product_filter, map_product_export_filter}
use platform_idp_demo.Types.Mapper.{product_map_to_response, product_map_to_responses}
use platform_idp_demo.Repository.{ProductRepository, Value, text, status, price}
use platform_idp_demo.Cache.{Cache}
use platform_idp_demo.Export.{
  Excel, Session, FilePointer, FilterMap, ExportM, Exporter, factory, build, product_model,
}
use platform_idp_demo.Types.Dto.{ProductFilter}

-- `err == nil && total > 0`
abbrev pub is_duplicate : {E : Type 0} → Option E → ℕ → Bool
is_duplicate none total = ltb 0 total
is_duplicate (some e) total = false

module _ {P : Platform} where
  -- The entity that a request describes.
  abbrev pub product_of : CreateProductRequest P → Product P
  product_of req = record {
    id_model = P.new_id_model;
    name = req.name;
    sku = req.sku;
    status = P.status_of_pb req.status;
    price = req.price;
  }

  abbrev pub update_columns : UpdateProductRequest P → List (String × Value P)
  update_columns req =
      ("name", text req.name) ∷ ("status", status req.status) ∷ ("price", price req.price) ∷ []

-- 10*time.Minute, in seconds
abbrev pub cache_ttl : ℕ
cache_ttl = 600

module _ {P : Platform} (R : ProductRepository P) (C : Cache P) (X : Excel P)
    (H : Helpers P R X) where
  abbrev pub ServiceM : Type 0 → Type 0
  ServiceM A = M (World R.Db C.Entries) A

  abbrev pub on_db : {A : Type 0} → M R.Db A → ServiceM A
  on_db = zoom (λ w. w.db) (λ db w. record w { db = db })

  abbrev pub on_cache : {A : Type 0} → M C.Entries A → ServiceM A
  on_cache = zoom (λ w. w.entries) (λ entries w. record w { entries = entries })

  -- The entry of `GetProduct`, kept when the product has a SKU.
  unfoldable pub cache_response : Product P → Option (GetProductResponse P) → ServiceM (Unit {0})
  cache_response result resp = if str_eq result.sku "" then pure tt else (do
    let record_text = (H.marshal resp).0
    _ ← on_cache (C.set_with_expire result.sku record_text cache_ttl)
    pure tt)

  unfoldable pub get_product : Option GetProductRequest → ServiceM (Answer P (GetProductResponse P))
  unfolding cache_response
  get_product req = do
    (result, err) ← on_db (R.find_by_uid (GetProductRequest.get_uid req))
    elim err [
      | some e ↦ pure (none, some e)
      | none ↦ do
        resp ← deref (product_map_to_response result)
        item ← deref result
        _ ← cache_response item (some resp)
        pure (some resp, none)
    ]

  unfoldable pub list_products :
      Option ListProductsRequest → ServiceM (Answer P (ListProductsResponse P))
  list_products req = do
    filters ← deref (map_product_filter req)
    (results, pagination, err) ← on_db (
        R.find_with_pagination (ListProductsRequest.get_limit req)
          (ListProductsRequest.get_page req) (ListProductsRequest.get_sort_order req)
          (ListProductsRequest.get_sort_by req) (some filters))
    elim err [
      | some e ↦ pure (none, some e)
      | none ↦ do
        resp ← deref (product_map_to_responses P results pagination)
        pure (some resp, none)
    ]

  -- The second half of `CreateProduct`.
  unfoldable pub insert_product : CreateProductRequest P → ServiceM (Answer P Empty)
  insert_product fields = do
    err ← on_db (R.create (product_of fields))
    elim err [ some e ↦ pure (none, some e) | none ↦ pure (some empty, none) ]

  unfoldable pub create_product : Option (CreateProductRequest P) → ServiceM (Answer P Empty)
  unfolding insert_product
  create_product req = do
    (total, err) ← on_db (R.count_by_sku (CreateProductRequest.get_sku req))
    elim (is_duplicate err total) [
      | true ↦ pure (none, some P.duplicate_data)
      | false ↦ do fields ← deref req; insert_product fields
    ]

  -- On a failed update the code returns `nil, err` with the `err` of the lookup, which is nil.
  unfoldable pub update_product : Option (UpdateProductRequest P) → ServiceM (Answer P Empty)
  update_product req = do
    (item, lookup_err) ← on_db (R.find_by_uid (UpdateProductRequest.get_uid req))
    let err = lookup_err
    elim lookup_err [
      | some e ↦ pure (none, some e)
      | none ↦ do
        fields ← deref req
        found ← deref item
        e ← on_db (R.update_by_id (update_columns fields) (P.id found.id_model))
        elim e [ some _ ↦ pure (none, err) | none ↦ pure (some empty, none) ]
    ]

  unfoldable pub delete_product : Option DeleteProductRequest → ServiceM (Answer P Empty)
  delete_product req = do
    (item, err) ← on_db (R.find_by_uid (DeleteProductRequest.get_uid req))
    elim err [
      | some e ↦ pure (none, some e)
      | none ↦ do
        found ← deref item
        e ← on_db (R.delete_by_id (P.id found.id_model))
        pure (some empty, e)
    ]

  -- An export runs on a new excel writer, which is dropped when its bytes are taken.
  abbrev pub run_export : {A : Type 0} → ExportM R X A → ServiceM A
  run_export m w =
      restore (λ (s : Session R.Db X.Book) w'. record w' { db = s.db })
        (m (record { db = w.db; book = X.new_book })) w

  unfoldable pub export_products :
      ℕ → H.Context → Option ExportProductsRequest → ServiceM (Answer P FileInfo)
  unfolding factory build
  export_products fuel ctx req =
      if ExportProductsRequest.get_export_type req ==ℤ export_type_url
      then elim (H.user_claims ctx) [
        | some e ↦ pure (none, some e)
        | none ↦ pure (some empty_file, none)
      ]
      else (do
        let (writer, err) =
            factory H.map_to_struct H.today product_model
              (("filters", map_product_export_filter req) ∷ [])
        elim err [
          | some e ↦ pure (none, some e)
          | none ↦ do
            exporter ← deref writer
            (f, err') ←
                run_export (H.excel_export exporter.file_name (build R X exporter.filters fuel))
            elim err' [
              | some e ↦ pure (none, some e)
              | none ↦ do
                bytes ← deref f
                pure (some (record { file_name = ""; file_data = bytes }), none)
            ]
        ])

  unfoldable pub get_product_from_cache :
      Option GetProductFromCacheRequest → ServiceM (Answer P GetProductFromCacheResponse)
  get_product_from_cache req =
      let sku = GetProductFromCacheRequest.get_sku req in
      if str_eq sku ""
      then pure (none, some (P.bad_request (text_error "sku is required")))
      else (do
        (val, err) ← on_cache (C.get sku)
        elim err [
          | none ↦ pure (some (record { sku = sku; payload = val; from_cache = true }), none)
          | some e ↦
              if C.is_not_found e
              then pure (some (record { sku = sku; payload = ""; from_cache = false }), none)
              else pure (none, some e)
        ])

  -- The service over these dependencies; `fuel` bounds the pages of an export.
  abbrev pub new_product_service : ℕ → ProductService P (World R.Db C.Entries) H.Context
  new_product_service fuel = record {
    get_product = get_product;
    list_products = list_products;
    create_product = create_product;
    update_product = update_product;
    delete_product = delete_product;
    export_products = export_products fuel;
    get_product_from_cache = get_product_from_cache;
  }
