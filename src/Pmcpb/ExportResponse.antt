-- ===== src/Pmcpb/ExportResponse.antt =====
-- `ExportResponse` of protos/pmcpb/protobuf/common.pb.go: its result is the bytes of a file, an error message,
-- or nil. A pointer to either in the result is not nil itself.
use platform_idp_demo.Base.{ℕ, ◌≡◌, ◌⊎◌, inl, inr, refl, String, Option, none, some, List, []}

-- `isExportResponse_Result` with its two implementations
pub data Result : Type 0 where
  file_data : List ℕ → Result
  error_message : String → Result

pub record ExportResponse : Type 0 where
  pub result : Option Result
  pub file_name : String

abbrev pub get_result : Option ExportResponse → Option Result
get_result none = none
get_result (some x) = x.result

abbrev pub get_file_data : Option ExportResponse → List ℕ
get_file_data none = []
get_file_data (some x) = elim x.result [
  | none ↦ []
  | some (file_data bytes) ↦ bytes
  | some (error_message s) ↦ []
]

abbrev pub get_error_message : Option ExportResponse → String
get_error_message none = ""
get_error_message (some x) = elim x.result [
  | none ↦ ""
  | some (file_data bytes) ↦ ""
  | some (error_message s) ↦ s
]

abbrev pub get_file_name : Option ExportResponse → String
get_file_name none = ""
get_file_name (some x) = x.file_name

-- A response never has both bytes and an error message.
pub get_file_data-get_error_message :
    (x : Option ExportResponse) → (get_file_data x ≡ []) ⊎ (get_error_message x ≡ "")
get_file_data-get_error_message none = inl refl
get_file_data-get_error_message (some x) = go x.result refl
  where
    go :
        (r : Option Result)
        → x.result ≡ r
        → (get_file_data (some x) ≡ []) ⊎ (get_error_message (some x) ≡ "")
    go none e = inl (rw e refl)
    go (some (file_data bytes)) e = inr (rw e refl)
    go (some (error_message s)) e = inl (rw e refl)
