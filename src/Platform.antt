-- ===== src/Platform.antt =====
-- What the service takes from packages that are not part of the repository (the helper packages,
-- gorm, protobuf's runtime): types it only hands on, and functions on them.
use platform_idp_demo.Base.{String, Option}
use platform_idp_demo.Base.Int.{ℤ}
use platform_idp_demo.Api.Errors.{Error}

pub record Platform : Type 1 where
  -- Errors made outside the repository, with their text.
  pub Failure : Type 0
  pub failure_text : Failure → String
  -- `errors.BadRequest` and `errors.DuplicateData` of helper/errors
  pub bad_request : Error Failure → Error Failure
  pub duplicate_data : Error Failure
  -- float64
  pub Float : Type 0
  pub zero_float : Float
  -- `model.Status` of helper/model, and its conversions from and to the int32 `productpb.Status`
  pub ModelStatus : Type 0
  pub status_of_pb : ℤ → ModelStatus
  pub pb_of_status : ModelStatus → ℤ
  -- `entity.IdModel` of helper/sql, which `entity.Product` embeds
  pub IdModel : Type 0
  pub new_id_model : IdModel
  pub id : IdModel → ℤ
  pub uid : IdModel → String
  pub created_by : IdModel → String
  pub created_by_uid : IdModel → String
  pub updated_by : IdModel → String
  pub updated_by_uid : IdModel → String
  -- `time.Time`, `timestamppb.Timestamp` and `timex.TimeToProto`
  pub Time : Type 0
  pub Timestamp : Type 0
  pub created_at : IdModel → Time
  pub updated_at : IdModel → Time
  pub time_to_proto : Time → Option Timestamp
  -- `model.Pagination` of helper/model
  pub PageInfo : Type 0
  pub page_limit : PageInfo → ℤ
  pub page_number : PageInfo → ℤ
  pub page_total : PageInfo → ℤ
  pub page_records : PageInfo → ℤ
  -- `model.DefaultLimit` and `model.SortOrderDefault`
  pub default_limit : ℤ
  pub sort_order_default : String

-- A Go `error` that may be nil.
abbrev pub Err : Platform → Type 0
Err P = Option (Error P.Failure)
