-- ===== src/Api/Validation/Own.antt =====
-- The types of the errors that the generated validation returns.
use platform_idp_demo.Base.{
  ◌≡◌, refl, String, Bool, true, false, Option, none, some, List, [], ◌∷◌, ◌++◌, Each, ◌||◌,
  Option-cases, Bool-cases, inl, inr,
}
use platform_idp_demo.Base.Int.{pos, ltb_ℤ}
use platform_idp_demo.Platform.{Platform}
use platform_idp_demo.Pmcpb.{Pagination}
use platform_idp_demo.Api.Errors.{
  MessageType, Error, Cause, no_cause, caused_by, validation_error, multi_error, errors_of,
  list_products_request, list_products_response,
}
use platform_idp_demo.Api.Rules.{check, Validators, embedded, run_embedded, finish, violation}
use platform_idp_demo.Api.ListProductsRequest
use platform_idp_demo.Api.ListProductsRequest.{
  ListProductsRequest, get_page, get_limit, page_rule, limit_rule,
}
use platform_idp_demo.Api.ListProductsResponse
use platform_idp_demo.Api.ListProductsResponse.{ListProductsResponse, check_products}
use platform_idp_demo.Api.Validation.{check_products-eq_rest}

module _ {F : Type 0} (m : MessageType) where
  -- A validation error of the message `m`.
  pub data IsViolation (e : Error F) : Type 0 where
    is_violation :
        (field reason : String) (cause : Cause F) (key : Bool)
        → e ≡ validation_error m field reason cause key
        → IsViolation e

  -- What `Validate` may return: nil, or a validation error of the message.
  pub data IsOwn (result : Option (Error F)) : Type 0 where
    own_nil : result ≡ none → IsOwn result
    own_violation : (e : Error F) → IsViolation e → result ≡ some e → IsOwn result

  -- What `ValidateAll` may return: nil, or the multi-error of the message over one or more of its
  -- validation errors.
  pub data IsOwnMulti (result : Option (Error F)) : Type 0 where
    multi_nil : result ≡ none → IsOwnMulti result
    multi_violations :
        (e : Error F) (es : List (Error F))
        → Each IsViolation (e ∷ es)
        → result ≡ some (multi_error m (errors_of (e ∷ es)))
        → IsOwnMulti result

  Each-append :
      (es : List (Error F)) (e : Error F)
      → Each IsViolation es
      → IsViolation e
      → Each IsViolation (es ++ e ∷ [])
  Each-append [] e h v = (v, tt)
  Each-append (d ∷ es) e h v = (h.0, Each-append es e h.1 v)

  violation-IsOwn : (field reason : String) → IsOwn (some (violation m field reason))
  violation-IsOwn field reason =
      own_violation _ (is_violation field reason no_cause false refl) refl

  finish-IsOwnMulti : (es : List (Error F)) → Each IsViolation es → IsOwnMulti (finish m es)
  finish-IsOwnMulti [] h = multi_nil refl
  finish-IsOwnMulti (e ∷ es) h = multi_violations e es h refl

  check-IsOwn :
      (p : Option (Error F)) (rest : List (Error F) → Option (Error F))
      → IsOwn p
      → IsOwn (rest [])
      → IsOwn (check false p [] rest)
  check-IsOwn p rest (own_nil is) h = rw is h
  check-IsOwn p rest (own_violation e v is) h = rw is (own_violation e v refl)

  check-IsOwnMulti :
      (p : Option (Error F)) (errors : List (Error F)) (rest : List (Error F) → Option (Error F))
      → IsOwn p
      → Each IsViolation errors
      → ((es : List (Error F)) → Each IsViolation es → IsOwnMulti (rest es))
      → IsOwnMulti (check true p errors rest)
  check-IsOwnMulti p errors rest (own_nil is) h k = rw is (k errors h)
  check-IsOwnMulti p errors rest (own_violation e v is) h k = rw is (k _ (Each-append errors e h v))

  embedded-IsOwn :
      {A : Type 0} (field : String) (all : Bool) (vs : Validators F A) (v : A)
      → IsOwn (embedded m field all vs v)
  embedded-IsOwn field all vs v = elim (Option-cases (run_embedded all vs v)) [
    | inl is ↦ own_nil (rw (is, embedded) refl)
    | inr (e, is) ↦
        own_violation _
          (is_violation field "embedded message failed validation" (caused_by e) false refl)
          (rw (is, embedded) refl)
  ]

module _ {F : Type 0} where
  page_rule-IsOwn :
      (r : Option ListProductsRequest) → IsOwn {F = F} list_products_request (page_rule r)
  unfolding page_rule
  page_rule-IsOwn r = elim (Bool-cases (ltb_ℤ (get_page r) (pos 1))) [
    | inl is ↦
        rw is
          (violation-IsOwn list_products_request "Page" "value must be greater than or equal to 1")
    | inr is ↦ rw is (own_nil refl)
  ]

  limit_rule-IsOwn :
      (r : Option ListProductsRequest) → IsOwn {F = F} list_products_request (limit_rule r)
  unfolding limit_rule
  limit_rule-IsOwn r =
      elim (Bool-cases (ltb_ℤ (get_limit r) (pos 1) || ltb_ℤ (pos 100) (get_limit r))) [
        | inl is ↦
            rw is
              (violation-IsOwn list_products_request "Limit" "value must be inside range [1, 100]")
        | inr is ↦ rw is (own_nil refl)
      ]

  request-IsOwn :
      (r : Option ListProductsRequest)
      → IsOwn {F = F} list_products_request (ListProductsRequest.validate r)
        × IsOwnMulti {F = F} list_products_request (ListProductsRequest.validate_all r)
  unfolding ListProductsRequest.validate ListProductsRequest.validate_all
  request-IsOwn none = (own_nil refl, multi_nil refl)
  request-IsOwn (some r) = (
    check-IsOwn list_products_request (page_rule (some r)) _ (page_rule-IsOwn (some r)) (
        check-IsOwn list_products_request (limit_rule (some r)) _ (limit_rule-IsOwn (some r))
          (own_nil refl)),
    check-IsOwnMulti list_products_request (page_rule (some r)) [] _ (page_rule-IsOwn (some r)) tt
        λ es h.
          check-IsOwnMulti list_products_request (limit_rule (some r)) es _
            (limit_rule-IsOwn (some r)) h (finish-IsOwnMulti list_products_request),
  )

module _ {P : Platform} where
  response-IsOwn :
      (vs : Validators P.Failure (Option Pagination)) (r : Option (ListProductsResponse P))
      → IsOwn list_products_response (ListProductsResponse.validate vs r)
        × IsOwnMulti list_products_response (ListProductsResponse.validate_all vs r)
  unfolding ListProductsResponse.validate ListProductsResponse.validate_all
  response-IsOwn vs none = (own_nil refl, multi_nil refl)
  response-IsOwn vs (some r) = (
    rw (check_products-eq_rest false 0 r.products [] (judged false))
        (check-IsOwn list_products_response _ _ (pagination-IsOwn false) (own_nil refl)),
    rw (check_products-eq_rest true 0 r.products [] (judged true)) (
        check-IsOwnMulti list_products_response _ [] _ (pagination-IsOwn true) tt
          (finish-IsOwnMulti list_products_response)),
  )
    where
      judged : Bool → List (Error P.Failure) → Option (Error P.Failure)
      judged all errors =
          check all (embedded list_products_response "Pagination" all vs r.pagination) errors
            λ es. finish list_products_response es

      pagination-IsOwn :
          (all : Bool)
          → IsOwn list_products_response
              (embedded list_products_response "Pagination" all vs r.pagination)
      pagination-IsOwn all = embedded-IsOwn list_products_response "Pagination" all vs r.pagination

  -- What the validation of a list request and of a list response returns has the type of the message, nil
  -- messages included: `Validate` returns nil or a validation error of that message, and `ValidateAll` nil or
  -- the multi-error of that message over one or more of its validation errors.
  pub validate-IsOwn :
      (q : Option ListProductsRequest) (vs : Validators P.Failure (Option Pagination))
      (r : Option (ListProductsResponse P))
      → (IsOwn {F = P.Failure} list_products_request (ListProductsRequest.validate q)
          × IsOwnMulti {F = P.Failure} list_products_request (ListProductsRequest.validate_all q))
        × IsOwn list_products_response (ListProductsResponse.validate vs r)
        × IsOwnMulti list_products_response (ListProductsResponse.validate_all vs r)
  validate-IsOwn q vs r = (request-IsOwn q, (response-IsOwn vs r).0, (response-IsOwn vs r).1)
