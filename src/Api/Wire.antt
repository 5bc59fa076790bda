-- ===== src/Api/Wire.antt =====
-- The messages that a connection carries: those of api/product/product.pb.go, and the two of other packages
-- that the service answers with.
use platform_idp_demo.Platform.{Platform}
use platform_idp_demo.Pmcpb.{FileInfo}
use platform_idp_demo.Api.Server.{Empty}
use platform_idp_demo.Api.Errors.{
  MessageType, list_products_request, list_products_response, get_product_request,
  get_product_response, create_product_request, update_product_request, delete_product_request,
  export_products_request, get_product_from_cache_request, get_product_from_cache_response,
  check_kafka_request, check_kafka_response,
}
use platform_idp_demo.Api.ListProductsRequest.{ListProductsRequest}
use platform_idp_demo.Api.ListProductsResponse.{ListProductsResponse}
use platform_idp_demo.Api.GetProductRequest.{GetProductRequest}
use platform_idp_demo.Api.GetProductResponse.{GetProductResponse}
use platform_idp_demo.Api.CreateProductRequest.{CreateProductRequest}
use platform_idp_demo.Api.UpdateProductRequest.{UpdateProductRequest}
use platform_idp_demo.Api.DeleteProductRequest.{DeleteProductRequest}
use platform_idp_demo.Api.ExportProductsRequest.{ExportProductsRequest}
use platform_idp_demo.Api.GetProductFromCacheRequest.{GetProductFromCacheRequest}
use platform_idp_demo.Api.GetProductFromCacheResponse.{GetProductFromCacheResponse}
use platform_idp_demo.Api.CheckKafkaRequest.{CheckKafkaRequest}
use platform_idp_demo.Api.CheckKafkaResponse.{CheckKafkaResponse}

pub data WireType : Type 0 where
  product_message : MessageType → WireType
  empty_message file_info_message : WireType

-- The messages of a type.
abbrev pub Message : Platform → WireType → Type 0
Message P empty_message = Empty
Message P file_info_message = FileInfo
Message P (product_message list_products_request) = ListProductsRequest
Message P (product_message list_products_response) = ListProductsResponse P
Message P (product_message get_product_request) = GetProductRequest
Message P (product_message get_product_response) = GetProductResponse P
Message P (product_message create_product_request) = CreateProductRequest P
Message P (product_message update_product_request) = UpdateProductRequest P
Message P (product_message delete_product_request) = DeleteProductRequest
Message P (product_message export_products_request) = ExportProductsRequest
Message P (product_message get_product_from_cache_request) = GetProductFromCacheRequest
Message P (product_message get_product_from_cache_response) = GetProductFromCacheResponse
Message P (product_message check_kafka_request) = CheckKafkaRequest
Message P (product_message check_kafka_response) = CheckKafkaResponse
