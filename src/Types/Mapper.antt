-- ===== src/Types/Mapper.antt =====
-- internal/types/mapper: entities to response messages. A nil item makes `product_map_to_response`
-- panic, and with it the list mapper; that is `none` here.
pub mod Laws
use platform_idp_demo.Base.{Option, none, some, List, [], ◌∷◌, ◌++◌, map}
use platform_idp_demo.Platform.{Platform}
use platform_idp_demo.Pmcpb.{Pagination, AuditMetadata}
use platform_idp_demo.Types.Entity.{Product}
use platform_idp_demo.Api.GetProductResponse.{GetProductResponse}
use platform_idp_demo.Api.ListProductsResponse.{ListProductsResponse}

module _ {P : Platform} where
  unfoldable pub map_audit_meta_data : Option P.IdModel → Option (AuditMetadata P)
  map_audit_meta_data none = none
  map_audit_meta_data (some item) = some (record {
    created_by = P.created_by item;
    created_by_uid = P.created_by_uid item;
    updated_by = P.updated_by item;
    updated_by_uid = P.updated_by_uid item;
    created_at = P.time_to_proto (P.created_at item);
    updated_at = P.time_to_proto (P.updated_at item);
  })

  unfoldable pub response_of : Product P → GetProductResponse P
  response_of item = record {
    id = P.id item.id_model;
    uid = P.uid item.id_model;
    name = item.name;
    sku = item.sku;
    status = P.pb_of_status item.status;
    price = item.price;
  }

  unfoldable pub product_map_to_response : Option (Product P) → Option (GetProductResponse P)
  unfolding response_of
  product_map_to_response none = none
  product_map_to_response (some item) = some (response_of item)

  -- The loop that appends to `results`.
  unfoldable pub append_responses :
      List (Option (GetProductResponse P))
      → List (Option (Product P))
      → Option (List (Option (GetProductResponse P)))
  unfolding product_map_to_response
  append_responses results [] = some results
  append_responses results (item ∷ items) = elim (product_map_to_response item) [
    | none ↦ none
    | some r ↦ append_responses (results ++ some r ∷ []) items
  ]

module _ (P : Platform) where
  unfoldable pub map_pagination_data : P.PageInfo → Pagination
  map_pagination_data pagination = record {
    limit = P.page_limit pagination;
    page = P.page_number pagination;
    total_page = P.page_total pagination;
    total_records = P.page_records pagination;
  }

  unfoldable pub product_map_to_responses :
      List (Option (Product P)) → P.PageInfo → Option (ListProductsResponse P)
  unfolding append_responses map_pagination_data
  product_map_to_responses items pagination = elim (append_responses [] items) [
    | none ↦ none
    | some results ↦
        some (record { products = results; pagination = some (map_pagination_data pagination) })
  ]
