-- ===== src/Api/Validation.antt =====
-- What the generated validation accepts and what it reports.
pub mod Own
use platform_idp_demo.Base.{
  ◌≡◌, refl, ◌↔◌, String, Bool, true, false, Option, none, some, List, [], ◌∷◌, map, arith, ℕ, ◌+◌,
  ◌∙◌, ap,
}
use platform_idp_demo.Base.Int.{pos, ◌≤ℤ◌}
use platform_idp_demo.Platform.{Platform}
use platform_idp_demo.Pmcpb.{Pagination}
use platform_idp_demo.Api.Errors.{
  MessageType, Error, multi_error, errors_of, error_text, error_texts, list_products_request,
  list_products_response,
}
use platform_idp_demo.Api.Rules.{check, Validators, embedded, finish}
use platform_idp_demo.Api.ListProductsRequest
use platform_idp_demo.Api.ListProductsRequest.{ListProductsRequest, page_rule, limit_rule}
use platform_idp_demo.Api.ListProductsResponse
use platform_idp_demo.Api.ListProductsResponse.{
  ListProductsResponse, check_products, product_validators,
}
use platform_idp_demo.Api.GetProductResponse
use platform_idp_demo.Api.GetProductResponse.{GetProductResponse}

-- What `ListProductsRequest`'s rules ask for.
abbrev pub IsInRange : ListProductsRequest → Type 0
IsInRange m = (pos 1 ≤ℤ m.page) × (pos 1 ≤ℤ m.limit) × (m.limit ≤ℤ pos 100)

module _ {F : Type 0} where
  -- `Validate` accepts a list request exactly when its page is at least 1 and its limit lies
  -- between 1 and 100.
  pub validate-eq-none_iff :
      (m : ListProductsRequest)
      → (ListProductsRequest.validate {F = F} (some m) ≡ none) ↔ IsInRange m
  unfolding ListProductsRequest.validate
  validate-eq-none_iff m = ground arith

  -- `ValidateAll` accepts a list request, nil included, exactly when `Validate` does.
  pub validate_all-eq-none_iff :
      (m : Option ListProductsRequest)
      → (ListProductsRequest.validate_all {F = F} m ≡ none)
        ↔ (ListProductsRequest.validate {F = F} m ≡ none)
  unfolding ListProductsRequest.validate ListProductsRequest.validate_all
  validate_all-eq-none_iff m = ground arith

  check-finish :
      (e : Option (Error F)) → check false e [] (λ errors. finish list_products_response errors) ≡ e
  check-finish none = refl
  check-finish (some e) = refl

  checks-head :
      (m : MessageType) (p q : Option (Error F)) (e : Error F)
      → check false p [] (λ es. check false q es (finish m)) ≡ some e
      → (es : List (Error F)) × (check true p [] (λ ds. check true q ds (finish m))
          ≡ some (multi_error m (errors_of (e ∷ es))))
  checks-head m none none e h = cc
  checks-head m none (some b) e h = ([], ground arith)
  checks-head m (some a) none e h = ([], ground arith)
  checks-head m (some a) (some b) e h = (b ∷ [], ground arith)

  -- What `Validate` reports of a list request is the first of the errors that `ValidateAll`
  -- reports.
  pub validate-head :
      (m : Option ListProductsRequest) (e : Error F)
      → ListProductsRequest.validate m ≡ some e
      → (es : List (Error F)) × (ListProductsRequest.validate_all m
          ≡ some (multi_error list_products_request (errors_of (e ∷ es))))
  unfolding ListProductsRequest.validate ListProductsRequest.validate_all
  validate-head none e h = cc
  validate-head (some m) e h =
      checks-head list_products_request (page_rule (some m)) (limit_rule (some m)) e h

module _ {P : Platform} where
  pub check_products-eq_rest :
      (all : Bool) (idx : ℕ) (items : List (Option (GetProductResponse P)))
      (errors : List (Error P.Failure)) (rest : List (Error P.Failure) → Option (Error P.Failure))
      → check_products all idx items errors rest ≡ rest errors
  unfolding check_products GetProductResponse.validate GetProductResponse.validate_all
  check_products-eq_rest all idx [] errors rest = refl
  check_products-eq_rest true idx (none ∷ items) errors rest =
      check_products-eq_rest true (idx + 1) items errors rest
  check_products-eq_rest true idx (some p ∷ items) errors rest =
      check_products-eq_rest true (idx + 1) items errors rest
  check_products-eq_rest false idx (none ∷ items) errors rest =
      check_products-eq_rest false (idx + 1) items errors rest
  check_products-eq_rest false idx (some p ∷ items) errors rest =
      check_products-eq_rest false (idx + 1) items errors rest

  -- A list response is judged by its pagination alone: `Validate` returns the violation of the
  -- pagination if there is one, whatever the products are.
  pub validate-eq-pagination :
      (vs : Validators P.Failure (Option Pagination)) (m : ListProductsResponse P)
      → ListProductsResponse.validate vs (some m)
        ≡ embedded list_products_response "Pagination" false vs m.pagination
  unfolding ListProductsResponse.validate
  validate-eq-pagination vs m = check_products-eq_rest false 0 m.products [] _ ∙ check-finish _
