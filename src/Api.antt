-- ===== src/Api.antt =====
-- api/product: the generated API of the product service.
pub mod Errors
pub mod Rules
pub mod ListProductsRequest
pub mod GetProductRequest
pub mod GetProductResponse
pub mod CreateProductRequest
pub mod UpdateProductRequest
pub mod DeleteProductRequest
pub mod ExportProductsRequest
pub mod GetProductFromCacheRequest
pub mod GetProductFromCacheResponse
pub mod CheckKafkaRequest
pub mod CheckKafkaResponse
pub mod ListProductsResponse
pub mod Validation
pub mod Server
pub mod Http
pub mod Grpc
pub mod Transports
pub mod Wire
pub mod Enums
