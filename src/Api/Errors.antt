-- ===== src/Api/Errors.antt =====
-- The error values of api/product/product.pb.validate.go. For each message the file declares a
-- `<Message>ValidationError` and a `<Message>MultiError`; `MessageType` names the message, and an
-- error that code outside the repository makes is a value of an unknown type `F`.
pub mod ListProductsRequest
pub mod ListProductsResponse
pub mod GetProductRequest
pub mod GetProductResponse
pub mod CreateProductRequest
pub mod UpdateProductRequest
pub mod DeleteProductRequest
pub mod ExportProductsRequest
pub mod GetProductFromCacheRequest
pub mod GetProductFromCacheResponse
pub mod CheckKafkaRequest
pub mod CheckKafkaResponse
pub mod Texts
use platform_idp_demo.Base.{String, Bool, List, [], ◌∷◌, if◌then◌else◌}
use platform_idp_demo.Base.Text.{◌<>◌, join}

pub data MessageType : Type 0 where
  list_products_request list_products_response get_product_request get_product_response :
      MessageType
  create_product_request update_product_request delete_product_request export_products_request :
      MessageType
  get_product_from_cache_request get_product_from_cache_response check_kafka_request : MessageType
  check_kafka_response : MessageType

abbrev pub message_name : MessageType → String
message_name list_products_request = "ListProductsRequest"
message_name list_products_response = "ListProductsResponse"
message_name get_product_request = "GetProductRequest"
message_name get_product_response = "GetProductResponse"
message_name create_product_request = "CreateProductRequest"
message_name update_product_request = "UpdateProductRequest"
message_name delete_product_request = "DeleteProductRequest"
message_name export_products_request = "ExportProductsRequest"
message_name get_product_from_cache_request = "GetProductFromCacheRequest"
message_name get_product_from_cache_response = "GetProductFromCacheResponse"
message_name check_kafka_request = "CheckKafkaRequest"
message_name check_kafka_response = "CheckKafkaResponse"

mutual
  pub data Error (F : Type 0) : Type 0 where
    -- `<Message>ValidationError{field, reason, cause, key}`
    validation_error : MessageType → String → String → Cause F → Bool → Error F
    -- `<Message>MultiError`
    multi_error : MessageType → Errors F → Error F
    -- `fmt.Errorf`
    text_error : String → Error F
    foreign : F → Error F

  -- A `cause error` that may be nil.
  pub data Cause (F : Type 0) : Type 0 where
    no_cause : Cause F
    caused_by : Error F → Cause F

  -- `[]error`
  pub data Errors (F : Type 0) : Type 0 where
    nil : Errors F
    cons : Error F → Errors F → Errors F

abbrev pub errors_of : {F : Type 0} → List (Error F) → Errors F
errors_of [] = nil
errors_of (e ∷ es) = cons e (errors_of es)

abbrev pub list_of : {F : Type 0} → Errors F → List (Error F)
list_of nil = []
list_of (cons e es) = e ∷ list_of es

-- `ErrorName` of a validation error.
unfoldable pub error_name : MessageType → String
error_name m = message_name m <> "ValidationError"

module _ {F : Type 0} (foreign_text : F → String) where
  unfoldable mutual
    -- `Error`, the text of an error.
    pub error_text : Error F → String
    error_text (validation_error m field reason cause key) =
        "invalid "
        <> (if key then "key for " else "")
        <> message_name m
        <> "."
        <> field
        <> ": "
        <> reason
        <> cause_text cause
    error_text (multi_error m es) = join (error_texts es) "; "
    error_text (text_error s) = s
    error_text (foreign e) = foreign_text e

    pub cause_text : Cause F → String
    cause_text no_cause = ""
    cause_text (caused_by e) = " | caused by: " <> error_text e

    -- The `msgs` that a multi-error's `Error` joins.
    pub error_texts : Errors F → List String
    error_texts nil = []
    error_texts (cons e es) = error_text e ∷ error_texts es
