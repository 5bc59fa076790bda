-- ===== src/Pmcpb/Status.antt =====
-- `Status` of protos/pmcpb/protobuf/errors.pb.go. Its metadata, a map of texts, is a list of pairs with
-- distinct keys, the empty one for nil.
use platform_idp_demo.Base.{String, Option, none, some, List, []}
use platform_idp_demo.Base.Int.{ℤ, pos}

pub record Status : Type 0 where
  pub code : ℤ
  pub reason : String
  pub message : String
  pub metadata : List (String × String)

abbrev pub get_code : Option Status → ℤ
get_code none = pos 0
get_code (some x) = x.code

abbrev pub get_reason : Option Status → String
get_reason none = ""
get_reason (some x) = x.reason

abbrev pub get_message : Option Status → String
get_message none = ""
get_message (some x) = x.message

abbrev pub get_metadata : Option Status → List (String × String)
get_metadata none = []
get_metadata (some x) = x.metadata
