-- ===== src/Tests/Borders.antt =====
-- The errors' types and texts, the pages that a list request can ask for, and writes over HTTP, at
-- concrete inputs.
use platform_idp_demo.Base.{◌≡◌, refl, String, false, Option, none, some, List, [], ◌∷◌}
use platform_idp_demo.Base.Int.{pos}
use platform_idp_demo.Go.{returned}
use platform_idp_demo.Pmcpb.{Pagination}
use platform_idp_demo.Api.Errors.{
  foreign, caused_by, list_products_request, list_products_response, error_name, error_text,
  validation_error, multi_error, errors_of,
}
use platform_idp_demo.Api.Errors.Texts.{own_name, own_text, own_multi_text, error_text-own_text}
use platform_idp_demo.Api.Rules.{Validators}
use platform_idp_demo.Api.ListProductsRequest
use platform_idp_demo.Api.ListProductsRequest.{ListProductsRequest}
use platform_idp_demo.Api.ListProductsResponse
use platform_idp_demo.Api.ListProductsResponse.{ListProductsResponse}
use platform_idp_demo.Api.CreateProductRequest
use platform_idp_demo.Api.DeleteProductRequest
use platform_idp_demo.Api.Http.{create_product_http_handler, delete_product_http_handler}
use platform_idp_demo.Api.Validation.Own.{IsOwn, IsOwnMulti, validate-IsOwn}
use platform_idp_demo.Types.Entity.{Product}
use platform_idp_demo.Repository.Lawful.{find_row, delete_rows}
use platform_idp_demo.Service.{World, new_product_service}
use platform_idp_demo.Service.Writing.{row_for}
use platform_idp_demo.Handler.Product.{list_products}
use platform_idp_demo.Handler.Product.Bounds.{replaced, same_helpers, list_products_bounds}
use platform_idp_demo.Handler.Rest.{new_product_handler}
use platform_idp_demo.Handler.Rest.Laws.{on_world}
use platform_idp_demo.Handler.Rest.Stored.{
  HttpEnd, create_product_http_handler-HttpEnd, delete_product_http_handler-HttpEnd,
}
use platform_idp_demo.Tests.Memory.{plat, memory, memory-IsLawful, lamp, table, Table, Ident}
use platform_idp_demo.Tests.Redis.{redis, Entry}
use platform_idp_demo.Tests.Sheet.{helpers, sheets}
use platform_idp_demo.Tests.Servers.{front, no_queue, Shop, shop, put_world, unnamed}

abbrev page_0 : ListProductsRequest
page_0 = record ListProductsRequest.zero { limit = pos 101 }

error_text-own_text_example :
    (own_name list_products_request ≡ "ListProductsRequestValidationError")
    × (error_name list_products_request ≡ own_name list_products_request)
    × (own_text (λ s. s) list_products_request "Page" "too small" (caused_by (foreign "x")) false
        ≡ "invalid ListProductsRequest.Page: too small | caused by: x")
    × (error_text
          (λ s. s)
          (validation_error list_products_request "Page" "too small"
            (caused_by (foreign "x"))
            false)
        ≡ own_text
            (λ s. s)
            list_products_request
            "Page"
            "too small"
            (caused_by (foreign "x"))
            false)
    × (own_multi_text (λ s. s) list_products_request (foreign "a" ∷ foreign "b" ∷ []) ≡ "a; b")
    × (error_text
          (λ s. s)
          (multi_error list_products_request (errors_of (foreign "a" ∷ foreign "b" ∷ [])))
        ≡ own_multi_text (λ s. s) list_products_request (foreign "a" ∷ foreign "b" ∷ []))
unfolding error_text platform_idp_demo.Base.Text.join
error_text-own_text_example =
    error_text-own_text (λ s. s) list_products_request "Page" "too small" (caused_by (foreign "x"))
      false (foreign "a" ∷ foreign "b" ∷ [])

-- A pagination whose validation always fails.
abbrev strict : Validators String (Option Pagination)
strict = record { validate_all_method = none; validate_method = some λ p. some (foreign "page") }

abbrev response : ListProductsResponse plat
response = record { products = none ∷ []; pagination = none }

validate-IsOwn_example :
    (IsOwn {F = String} list_products_request (ListProductsRequest.validate (some page_0))
      × IsOwnMulti {F = String} list_products_request
          (ListProductsRequest.validate_all (some page_0)))
    × IsOwn list_products_response (ListProductsResponse.validate {P = plat} strict (some response))
    × IsOwnMulti list_products_response
        (ListProductsResponse.validate_all {P = plat} strict (some response))
validate-IsOwn_example = validate-IsOwn {P = plat} (some page_0) strict (some response)

abbrev shelf : World Table (List Entry)
shelf = record { db = table; entries = [] }

list_products_bounds_example :
    list_products (new_product_service memory redis sheets helpers 1) (some page_0) shelf
    ≡ list_products
        (new_product_service
          (replaced memory sheets helpers
            λ limit page order by filters t. returned ([], 0, some (foreign "too many")) t)
          redis
          sheets
          (same_helpers memory sheets helpers
            λ limit page order by filters t. returned ([], 0, some (foreign "too many")) t)
          1)
        (some page_0)
        shelf
list_products_bounds_example =
    list_products_bounds memory sheets helpers
      (λ limit page order by filters t. returned ([], 0, some (foreign "too many")) t) redis 1
      (some page_0) shelf

create_product_http_handler-HttpEnd_example :
    HttpEnd memory redis sheets helpers memory-IsLawful front no_queue ""
      (λ (w : Shop). w.1)
      put_world
      (create_product_http_handler front (
        new_product_handler no_queue "" (
          on_world
            (λ (w : Shop). w.1)
            put_world
            (new_product_service memory redis sheets helpers 1))))
      tt
      shop
      shop
      (λ rows.
        (given : Ident) × (rows
          ≡ unnamed ∷ row_for {P = plat} CreateProductRequest.zero given ∷ []))
create_product_http_handler-HttpEnd_example =
    create_product_http_handler-HttpEnd memory redis sheets helpers memory-IsLawful front no_queue
      "" (λ (w : Shop). w.1) put_world 1 tt CreateProductRequest.zero shop shop refl

abbrev full_shop : Shop
full_shop = (
  0,
  record { db = record { rows = unnamed ∷ lamp ∷ []; fresh = 8; broken = false }; entries = [] },
)

delete_product_http_handler-HttpEnd_example :
    HttpEnd memory redis sheets helpers memory-IsLawful front no_queue ""
      (λ (w : Shop). w.1)
      put_world
      (delete_product_http_handler front (
        new_product_handler no_queue "" (
          on_world
            (λ (w : Shop). w.1)
            put_world
            (new_product_service memory redis sheets helpers 1))))
      tt
      full_shop
      full_shop
      (λ rows.
        (p : Product plat) × (find_row "" (unnamed ∷ lamp ∷ []) ≡ some p)
        × (rows ≡ delete_rows (plat.id p.id_model) (unnamed ∷ lamp ∷ [])))
delete_product_http_handler-HttpEnd_example =
    delete_product_http_handler-HttpEnd memory redis sheets helpers memory-IsLawful front no_queue
      "" (λ (w : Shop). w.1) put_world 1 tt DeleteProductRequest.zero full_shop full_shop refl
