-- ===== src/Api/CheckKafkaResponse.antt =====
-- `CheckKafkaResponse` of api/product: the message, its getters (a nil receiver gives zero values), and its
-- generated validation.
use platform_idp_demo.Base.{String, Bool, true, false, Option, none, some, []}
use platform_idp_demo.Api.Errors.{Error, check_kafka_response}
use platform_idp_demo.Api.Rules.{finish}

pub record CheckKafkaResponse : Type 0 where
  pub status : Bool
  pub message : String

abbrev pub get_status : Option CheckKafkaResponse → Bool
get_status none = false
get_status (some x) = x.status

abbrev pub get_message : Option CheckKafkaResponse → String
get_message none = ""
get_message (some x) = x.message

module _ {F : Type 0} where
  unfoldable pub validate_with : Bool → Option CheckKafkaResponse → Option (Error F)
  validate_with all none = none
  validate_with all (some m) = finish check_kafka_response []

  unfoldable pub validate : Option CheckKafkaResponse → Option (Error F)
  unfolding validate_with
  validate = validate_with false

  unfoldable pub validate_all : Option CheckKafkaResponse → Option (Error F)
  unfolding validate_with
  validate_all = validate_with true

-- `new(CheckKafkaResponse)`
abbrev pub zero : CheckKafkaResponse
zero = record { status = false; message = "" }
