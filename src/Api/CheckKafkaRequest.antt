-- ===== src/Api/CheckKafkaRequest.antt =====
-- `CheckKafkaRequest` of api/product: the message, its getters (a nil receiver gives zero values), and its
-- generated validation.
use platform_idp_demo.Base.{Bool, true, false, Option, none, some, []}
use platform_idp_demo.Api.Errors.{Error, check_kafka_request}
use platform_idp_demo.Api.Rules.{finish}

-- The message has no field.
pub data CheckKafkaRequest : Type 0 where
  empty : CheckKafkaRequest

module _ {F : Type 0} where
  unfoldable pub validate_with : Bool → Option CheckKafkaRequest → Option (Error F)
  validate_with all none = none
  validate_with all (some m) = finish check_kafka_request []

  unfoldable pub validate : Option CheckKafkaRequest → Option (Error F)
  unfolding validate_with
  validate = validate_with false

  unfoldable pub validate_all : Option CheckKafkaRequest → Option (Error F)
  unfolding validate_with
  validate_all = validate_with true

-- `&CheckKafkaRequest{}`
abbrev pub zero : CheckKafkaRequest
zero = empty
