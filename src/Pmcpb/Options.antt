-- ===== src/Pmcpb/Options.antt =====
-- `ListOptionsResponse` of protos/pmcpb/protobuf/common.pb.go and its options, which are pointers.
use platform_idp_demo.Base.{String, Option, none, some, List, []}

pub record OptionMessage : Type 0 where
  pub uid : String
  pub name : String

pub record ListOptionsResponse : Type 0 where
  pub options : List (Option OptionMessage)

abbrev pub get_options : Option ListOptionsResponse → List (Option OptionMessage)
get_options none = []
get_options (some x) = x.options

abbrev pub get_uid : Option OptionMessage → String
get_uid none = ""
get_uid (some x) = x.uid

abbrev pub get_name : Option OptionMessage → String
get_name none = ""
get_name (some x) = x.name
