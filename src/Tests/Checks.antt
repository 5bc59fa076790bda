-- ===== src/Tests/Checks.antt =====
-- Validation and handlers at concrete requests.
use platform_idp_demo.Base.{
  ◌≡◌, ◌≢◌, ◌↔◌, refl, ℕ, suc, ◌-◌, String, Bool, true, false, Option, none, some, List, [], ◌∷◌,
  arith,
}
use platform_idp_demo.Base.Int.{pos}
use platform_idp_demo.Go.{M, returned}
use platform_idp_demo.Api.Errors.{
  Error, foreign, multi_error, errors_of, list_products_request, error_text, list_products_request,
}
use platform_idp_demo.Api.Rules.{violation}
use platform_idp_demo.Api.ListProductsRequest
use platform_idp_demo.Api.ListProductsRequest.{ListProductsRequest}
use platform_idp_demo.Api.Validation.{IsInRange, validate-eq-none_iff, validate-head}
use platform_idp_demo.Service.{ProductService, Answer}
use platform_idp_demo.Handler.Kafka.{Queue, check_kafka}
use platform_idp_demo.Handler.Kafka.Ends.{CountsProducers, opened, KafkaEnd, check_kafka-KafkaEnd}
use platform_idp_demo.Api.CheckKafkaResponse.{CheckKafkaResponse}
use platform_idp_demo.Tests.Memory.{plat}

abbrev request : ListProductsRequest
request = record {
  page = pos 1;
  limit = pos 10;
  sort_order = "DESC";
  sort_by = "id";
  name = none;
  sku = none;
}

abbrev page_0 : ListProductsRequest
page_0 = record request { page = pos 0; limit = pos 101 }

abbrev page_violation : Error String
page_violation = violation list_products_request "Page" "value must be greater than or equal to 1"

abbrev limit_violation : Error String
limit_violation = violation list_products_request "Limit" "value must be inside range [1, 100]"

both_reported :
    ListProductsRequest.validate_all (some page_0)
    ≡ some (multi_error list_products_request (errors_of (page_violation ∷ limit_violation ∷ [])))
unfolding ListProductsRequest.validate_all
both_reported = refl

both_texts :
    error_text
      (λ s. s)
      (multi_error list_products_request (errors_of (page_violation ∷ limit_violation ∷ [])))
    ≡ "invalid ListProductsRequest.Page: value must be greater than or equal to 1; invalid ListProductsRequest.Limit: value must be inside range [1, 100]"
unfolding error_text platform_idp_demo.Base.Text.join
both_texts = refl

validate-eq-none_iff_example :
    (ListProductsRequest.validate {F = String} (some request) ≡ none) ↔ IsInRange request
validate-eq-none_iff_example = validate-eq-none_iff request

validate-head_example :
    (es : List (Error String)) × (ListProductsRequest.validate_all (some page_0)
      ≡ some (multi_error list_products_request (errors_of (page_violation ∷ es))))
unfolding ListProductsRequest.validate
validate-head_example = validate-head (some page_0) page_violation refl

-- A service that counts its calls.
abbrev counting : {A : Type 0} → M ℕ (Answer plat A)
counting n = returned (none, none) (suc n)

abbrev service : ProductService plat ℕ (Unit {0})
service = record {
  get_product = λ req. counting;
  list_products = λ req. counting;
  create_product = λ req. counting;
  update_product = λ req. counting;
  delete_product = λ req. counting;
  export_products = λ ctx req. counting;
  get_product_from_cache = λ req. counting;
}

page_0_out_of_range : ¬ IsInRange page_0
page_0_out_of_range h = omega arith

-- A queue over the number of open producers, whose sends fail.
abbrev queue : Queue plat ℕ
queue = record {
  Producer = Unit {0};
  kafka_driver = "kafka";
  new = λ config n. returned (some tt, none) (suc n);
  send = λ p limit payload n. returned (some (foreign "timeout")) n;
  close = λ p n. returned tt (n - 1);
}

abbrev queue_counts : CountsProducers queue
queue_counts = record {
  count = λ n. n;
  new_lem = λ c n. (some tt, none, suc n, refl, opened tt refl refl refl);
  send_lem = λ p seconds payload n. (some (foreign "timeout"), n, refl, refl);
  close_lem = λ p n. (n - 1, refl, refl);
}

check_kafka-KafkaEnd_example :
    (answer : Answer plat CheckKafkaResponse) × (n : ℕ) × (check_kafka queue "" none 5
      ≡ returned answer n)
    × KafkaEnd queue "" 5 n answer
    × (n ≡ 5)
check_kafka-KafkaEnd_example = check_kafka-KafkaEnd queue queue_counts "" none 5
