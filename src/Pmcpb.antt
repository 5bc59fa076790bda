-- ===== src/Pmcpb.antt =====
-- protos/pmcpb/protobuf/common.pb.go: the shared messages and their getters, where a nil receiver
-- gives zero values.
pub mod Options
pub mod ExportResponse
pub mod Status
use platform_idp_demo.Base.{ℕ, String, Option, none, some, List, []}
use platform_idp_demo.Base.Int.{ℤ, pos}
use platform_idp_demo.Platform.{Platform}

pub record Pagination : Type 0 where
  pub limit : ℤ
  pub page : ℤ
  pub total_page : ℤ
  pub total_records : ℤ

pub record AuditMetadata (P : Platform) : Type 0 where
  pub created_by : String
  pub created_by_uid : String
  pub updated_by : String
  pub updated_by_uid : String
  pub created_at : Option P.Timestamp
  pub updated_at : Option P.Timestamp

-- `file_data` is a list of bytes, nil being the empty one.
pub record FileInfo : Type 0 where
  pub file_name : String
  pub file_data : List ℕ

-- `&FileInfo{}`
abbrev pub empty_file : FileInfo
empty_file = record { file_name = ""; file_data = [] }

abbrev pub get_limit : Option Pagination → ℤ
get_limit none = pos 0
get_limit (some x) = x.limit

abbrev pub get_page : Option Pagination → ℤ
get_page none = pos 0
get_page (some x) = x.page

abbrev pub get_total_page : Option Pagination → ℤ
get_total_page none = pos 0
get_total_page (some x) = x.total_page

abbrev pub get_total_records : Option Pagination → ℤ
get_total_records none = pos 0
get_total_records (some x) = x.total_records

abbrev pub get_created_by : {P : Platform} → Option (AuditMetadata P) → String
get_created_by none = ""
get_created_by (some x) = x.created_by

abbrev pub get_created_by_uid : {P : Platform} → Option (AuditMetadata P) → String
get_created_by_uid none = ""
get_created_by_uid (some x) = x.created_by_uid

abbrev pub get_updated_by : {P : Platform} → Option (AuditMetadata P) → String
get_updated_by none = ""
get_updated_by (some x) = x.updated_by

abbrev pub get_updated_by_uid : {P : Platform} → Option (AuditMetadata P) → String
get_updated_by_uid none = ""
get_updated_by_uid (some x) = x.updated_by_uid

abbrev pub get_created_at : {P : Platform} → Option (AuditMetadata P) → Option P.Timestamp
get_created_at none = none
get_created_at (some x) = x.created_at

abbrev pub get_updated_at : {P : Platform} → Option (AuditMetadata P) → Option P.Timestamp
get_updated_at none = none
get_updated_at (some x) = x.updated_at

abbrev pub get_file_name : Option FileInfo → String
get_file_name none = ""
get_file_name (some x) = x.file_name

abbrev pub get_file_data : Option FileInfo → List ℕ
get_file_data none = []
get_file_data (some x) = x.file_data
