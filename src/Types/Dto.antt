-- ===== src/Types/Dto.antt =====
-- internal/types/dto: the filters of a product query. A nil request makes `map_product_filter`
-- panic, which is `none` here.
use platform_idp_demo.Base.{String, Option, none, some}
use platform_idp_demo.Api.ListProductsRequest.{ListProductsRequest}
use platform_idp_demo.Api.ExportProductsRequest.{ExportProductsRequest}

pub record ProductFilter : Type 0 where
  pub name : Option String
  pub sku : Option String

abbrev pub map_product_filter : Option ListProductsRequest → Option ProductFilter
map_product_filter none = none
map_product_filter (some m) = some (record { name = m.name; sku = m.sku })

abbrev pub map_product_export_filter : Option ExportProductsRequest → ProductFilter
map_product_export_filter m = record { name = none; sku = none }
