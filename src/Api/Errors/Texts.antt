-- ===== src/Api/Errors/Texts.antt =====
-- The error values that all messages share against the types and methods of each message.
use text.Mathlib.TextLemmas.{append_assoc}
use platform_idp_demo.Base.{
  ◌≡◌, refl, sym, ap, ◌∙◌, if◌then◌else◌, String, Bool, List, [], ◌∷◌, map,
}
use platform_idp_demo.Base.Text.{◌<>◌, join}
use platform_idp_demo.Api.Errors.{
  MessageType, message_name, Error, Cause, no_cause, caused_by, error_name, error_text, cause_text,
  error_texts, errors_of, validation_error, multi_error, list_products_request,
  list_products_response, get_product_request, get_product_response, create_product_request,
  update_product_request, delete_product_request, export_products_request,
  get_product_from_cache_request, get_product_from_cache_response, check_kafka_request,
  check_kafka_response,
}
use platform_idp_demo.Api.Errors.ListProductsRequest
use platform_idp_demo.Api.Errors.ListProductsResponse
use platform_idp_demo.Api.Errors.GetProductRequest
use platform_idp_demo.Api.Errors.GetProductResponse
use platform_idp_demo.Api.Errors.CreateProductRequest
use platform_idp_demo.Api.Errors.UpdateProductRequest
use platform_idp_demo.Api.Errors.DeleteProductRequest
use platform_idp_demo.Api.Errors.ExportProductsRequest
use platform_idp_demo.Api.Errors.GetProductFromCacheRequest
use platform_idp_demo.Api.Errors.GetProductFromCacheResponse
use platform_idp_demo.Api.Errors.CheckKafkaRequest
use platform_idp_demo.Api.Errors.CheckKafkaResponse

-- `ErrorName` of the message's validation error.
abbrev pub own_name : MessageType → String
own_name list_products_request = ListProductsRequest.validation_error_name
own_name list_products_response = ListProductsResponse.validation_error_name
own_name get_product_request = GetProductRequest.validation_error_name
own_name get_product_response = GetProductResponse.validation_error_name
own_name create_product_request = CreateProductRequest.validation_error_name
own_name update_product_request = UpdateProductRequest.validation_error_name
own_name delete_product_request = DeleteProductRequest.validation_error_name
own_name export_products_request = ExportProductsRequest.validation_error_name
own_name get_product_from_cache_request = GetProductFromCacheRequest.validation_error_name
own_name get_product_from_cache_response = GetProductFromCacheResponse.validation_error_name
own_name check_kafka_request = CheckKafkaRequest.validation_error_name
own_name check_kafka_response = CheckKafkaResponse.validation_error_name

error_name_lem : (m : MessageType) → error_name m ≡ own_name m
unfolding error_name
error_name_lem list_products_request = refl
error_name_lem list_products_response = refl
error_name_lem get_product_request = refl
error_name_lem get_product_response = refl
error_name_lem create_product_request = refl
error_name_lem update_product_request = refl
error_name_lem delete_product_request = refl
error_name_lem export_products_request = refl
error_name_lem get_product_from_cache_request = refl
error_name_lem get_product_from_cache_response = refl
error_name_lem check_kafka_request = refl
error_name_lem check_kafka_response = refl

module _ {F : Type 0} (foreign_text : F → String) where
  -- `Error` of the message's validation error with these fields.
  abbrev pub own_text : MessageType → String → String → Cause F → Bool → String
  own_text list_products_request field reason cause key =
      ListProductsRequest.validation_error_text foreign_text
        (record { field = field; reason = reason; cause = cause; key = key })
  own_text list_products_response field reason cause key =
      ListProductsResponse.validation_error_text foreign_text
        (record { field = field; reason = reason; cause = cause; key = key })
  own_text get_product_request field reason cause key =
      GetProductRequest.validation_error_text foreign_text
        (record { field = field; reason = reason; cause = cause; key = key })
  own_text get_product_response field reason cause key =
      GetProductResponse.validation_error_text foreign_text
        (record { field = field; reason = reason; cause = cause; key = key })
  own_text create_product_request field reason cause key =
      CreateProductRequest.validation_error_text foreign_text
        (record { field = field; reason = reason; cause = cause; key = key })
  own_text update_product_request field reason cause key =
      UpdateProductRequest.validation_error_text foreign_text
        (record { field = field; reason = reason; cause = cause; key = key })
  own_text delete_product_request field reason cause key =
      DeleteProductRequest.validation_error_text foreign_text
        (record { field = field; reason = reason; cause = cause; key = key })
  own_text export_products_request field reason cause key =
      ExportProductsRequest.validation_error_text foreign_text
        (record { field = field; reason = reason; cause = cause; key = key })
  own_text get_product_from_cache_request field reason cause key =
      GetProductFromCacheRequest.validation_error_text foreign_text
        (record { field = field; reason = reason; cause = cause; key = key })
  own_text get_product_from_cache_response field reason cause key =
      GetProductFromCacheResponse.validation_error_text foreign_text
        (record { field = field; reason = reason; cause = cause; key = key })
  own_text check_kafka_request field reason cause key =
      CheckKafkaRequest.validation_error_text foreign_text
        (record { field = field; reason = reason; cause = cause; key = key })
  own_text check_kafka_response field reason cause key =
      CheckKafkaResponse.validation_error_text foreign_text
        (record { field = field; reason = reason; cause = cause; key = key })

  -- `Error` of the message's multi-error.
  abbrev pub own_multi_text : MessageType → List (Error F) → String
  own_multi_text list_products_request es = ListProductsRequest.multi_error_text foreign_text es
  own_multi_text list_products_response es = ListProductsResponse.multi_error_text foreign_text es
  own_multi_text get_product_request es = GetProductRequest.multi_error_text foreign_text es
  own_multi_text get_product_response es = GetProductResponse.multi_error_text foreign_text es
  own_multi_text create_product_request es = CreateProductRequest.multi_error_text foreign_text es
  own_multi_text update_product_request es = UpdateProductRequest.multi_error_text foreign_text es
  own_multi_text delete_product_request es = DeleteProductRequest.multi_error_text foreign_text es
  own_multi_text export_products_request es = ExportProductsRequest.multi_error_text foreign_text es
  own_multi_text get_product_from_cache_request es =
      GetProductFromCacheRequest.multi_error_text foreign_text es
  own_multi_text get_product_from_cache_response es =
      GetProductFromCacheResponse.multi_error_text foreign_text es
  own_multi_text check_kafka_request es = CheckKafkaRequest.multi_error_text foreign_text es
  own_multi_text check_kafka_response es = CheckKafkaResponse.multi_error_text foreign_text es

  error_texts-errors_of :
      (es : List (Error F))
      → error_texts foreign_text (errors_of es) ≡ map (error_text foreign_text) es
  unfolding error_texts
  error_texts-errors_of [] = refl
  error_texts-errors_of (e ∷ es) =
      ap (λ rest. error_text foreign_text e ∷ rest) (error_texts-errors_of es)

  -- The name of the message and the dot that follows it, as one text.
  dotted :
      (m : MessageType) (field reason : String) (cause : Cause F) (key : Bool)
      → error_text foreign_text (validation_error m field reason cause key)
        ≡ "invalid "
          <> (if key then "key for " else "")
          <> (message_name m <> ".")
          <> field
          <> ": "
          <> reason
          <> cause_text foreign_text cause
  unfolding error_text
  dotted m field reason cause key =
      ap (λ t. "invalid " <> (if key then "key for " else "") <> t)
        (sym (
          append_assoc (message_name m) "."
            (field <> ": " <> reason <> cause_text foreign_text cause)))

  validation_text :
      (m : MessageType) (field reason : String) (cause : Cause F) (key : Bool)
      → error_text foreign_text (validation_error m field reason cause key)
        ≡ own_text m field reason cause key
  unfolding error_text ListProductsRequest.validation_error_text
      ListProductsResponse.validation_error_text GetProductRequest.validation_error_text
      GetProductResponse.validation_error_text CreateProductRequest.validation_error_text
      UpdateProductRequest.validation_error_text DeleteProductRequest.validation_error_text
      ExportProductsRequest.validation_error_text GetProductFromCacheRequest.validation_error_text
      GetProductFromCacheResponse.validation_error_text CheckKafkaRequest.validation_error_text
      CheckKafkaResponse.validation_error_text
  validation_text list_products_request field reason cause key =
      dotted list_products_request field reason cause key
  validation_text list_products_response field reason cause key =
      dotted list_products_response field reason cause key
  validation_text get_product_request field reason cause key =
      dotted get_product_request field reason cause key
  validation_text get_product_response field reason cause key =
      dotted get_product_response field reason cause key
  validation_text create_product_request field reason cause key =
      dotted create_product_request field reason cause key
  validation_text update_product_request field reason cause key =
      dotted update_product_request field reason cause key
  validation_text delete_product_request field reason cause key =
      dotted delete_product_request field reason cause key
  validation_text export_products_request field reason cause key =
      dotted export_products_request field reason cause key
  validation_text get_product_from_cache_request field reason cause key =
      dotted get_product_from_cache_request field reason cause key
  validation_text get_product_from_cache_response field reason cause key =
      dotted get_product_from_cache_response field reason cause key
  validation_text check_kafka_request field reason cause key =
      dotted check_kafka_request field reason cause key
  validation_text check_kafka_response field reason cause key =
      dotted check_kafka_response field reason cause key

  multi_text :
      (m : MessageType) (es : List (Error F))
      → error_text foreign_text (multi_error m (errors_of es)) ≡ own_multi_text m es
  unfolding error_text ListProductsRequest.multi_error_text ListProductsResponse.multi_error_text
      GetProductRequest.multi_error_text GetProductResponse.multi_error_text
      CreateProductRequest.multi_error_text UpdateProductRequest.multi_error_text
      DeleteProductRequest.multi_error_text ExportProductsRequest.multi_error_text
      GetProductFromCacheRequest.multi_error_text GetProductFromCacheResponse.multi_error_text
      CheckKafkaRequest.multi_error_text CheckKafkaResponse.multi_error_text
  multi_text list_products_request es = ap (λ texts. join texts "; ") (error_texts-errors_of es)
  multi_text list_products_response es = ap (λ texts. join texts "; ") (error_texts-errors_of es)
  multi_text get_product_request es = ap (λ texts. join texts "; ") (error_texts-errors_of es)
  multi_text get_product_response es = ap (λ texts. join texts "; ") (error_texts-errors_of es)
  multi_text create_product_request es = ap (λ texts. join texts "; ") (error_texts-errors_of es)
  multi_text update_product_request es = ap (λ texts. join texts "; ") (error_texts-errors_of es)
  multi_text delete_product_request es = ap (λ texts. join texts "; ") (error_texts-errors_of es)
  multi_text export_products_request es = ap (λ texts. join texts "; ") (error_texts-errors_of es)
  multi_text get_product_from_cache_request es =
      ap (λ texts. join texts "; ") (error_texts-errors_of es)
  multi_text get_product_from_cache_response es =
      ap (λ texts. join texts "; ") (error_texts-errors_of es)
  multi_text check_kafka_request es = ap (λ texts. join texts "; ") (error_texts-errors_of es)
  multi_text check_kafka_response es = ap (λ texts. join texts "; ") (error_texts-errors_of es)

  -- How a text goes on after its reason.
  abbrev pub cause_part : Cause F → String
  cause_part no_cause = ""
  cause_part (caused_by e) = " | caused by: " <> error_text foreign_text e

  cause_text-cause_part : (cause : Cause F) → cause_text foreign_text cause ≡ cause_part cause
  unfolding error_text
  cause_text-cause_part no_cause = refl
  cause_text-cause_part (caused_by e) = refl

  -- For each of the twelve messages, the name and the texts of its errors are these, and the error values
  -- that all messages share have the same. `ErrorName` is the name of the message and `ValidationError`. The
  -- text of a validation error is `invalid `, `key for ` if it is about a map's key, the name of the message,
  -- a dot, the field, a colon and a blank, the reason and, if it has a cause, ` | caused by: ` and the text of
  -- the cause. The text of a multi-error is those of its errors, in order, with `; ` between them.
  pub error_text-own_text :
      (m : MessageType) (field reason : String) (cause : Cause F) (key : Bool) (es : List (Error F))
      → (own_name m ≡ message_name m <> "ValidationError")
        × (error_name m ≡ own_name m)
        × (own_text m field reason cause key
            ≡ "invalid "
              <> (if key then "key for " else "")
              <> (message_name m <> ".")
              <> field
              <> ": "
              <> reason
              <> cause_part cause)
        × (error_text foreign_text (validation_error m field reason cause key)
            ≡ own_text m field reason cause key)
        × (own_multi_text m es ≡ join (map (error_text foreign_text) es) "; ")
        × (error_text foreign_text (multi_error m (errors_of es)) ≡ own_multi_text m es)
  unfolding error_name error_text
  error_text-own_text m field reason cause key es =
      let shared = validation_text m field reason cause key in
      let multi = multi_text m es in
      (
        sym (error_name_lem m),
        error_name_lem m,
        sym shared ∙ (rw (← cause_text-cause_part cause) (dotted m field reason cause key)),
        shared,
        sym multi ∙ ap (λ texts. join texts "; ") (error_texts-errors_of es),
        multi,
      )
