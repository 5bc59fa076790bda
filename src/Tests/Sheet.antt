-- ===== src/Tests/Sheet.antt =====
-- An excel writer in memory, which refuses rows below a last one, and the helpers of the service.
use platform_idp_demo.Base.{
  ℕ, ◌+◌, String, none, some, List, [], ◌∷◌, ◌++◌, if◌then◌else◌, ltb, Option,
}
use platform_idp_demo.Go.{M, returned, ◌>>=◌, pure}
use platform_idp_demo.Platform.{Err}
use platform_idp_demo.Api.Errors.{foreign}
use platform_idp_demo.Export.{Excel, Cell, FilePointer, ExportM}
use platform_idp_demo.Service.{Helpers}
use platform_idp_demo.Tests.Memory.{plat, memory}

pub record Sheet : Type 0 where
  pub rows : List (ℕ × List Cell)
  pub last : ℕ
  pub flushed : ℕ

abbrev pub set_row : ℕ → List Cell → M Sheet (Err plat)
set_row row cells b =
    if ltb b.last row
    then returned (some (foreign "row out of range")) b
    else returned none (record b { rows = b.rows ++ (row, cells) ∷ [] })

abbrev pub sheet_of : ℕ → Sheet
sheet_of last = record { rows = []; last = last; flushed = 0 }

abbrev pub sheets : Excel plat
sheets = record {
  Book = Sheet;
  new_book = sheet_of 1000;
  new_stream_writer = λ b. returned none b;
  set_header = λ headers b. returned none b;
  set_row = set_row;
  flush = λ b. returned tt (record b { flushed = b.flushed + 1 });
}

-- The context is the error of the claims, and the bytes of a file are one byte for each row.
abbrev pub byte_for : ℕ × List Cell → ℕ
byte_for (row, cells) = row

abbrev pub bytes_of : List (ℕ × List Cell) → List ℕ
bytes_of [] = []
bytes_of (r ∷ rs) = byte_for r ∷ bytes_of rs

abbrev pub export_sheet :
    String
    → ExportM memory sheets (Option FilePointer × Err plat)
    → ExportM memory sheets (Option (List ℕ) × Err plat)
export_sheet name build = do
  (f, err) ← build
  elim err [
    | some e ↦ pure (none, some e)
    | none ↦ λ s. returned (some (bytes_of s.book.rows), none) s
  ]

abbrev pub helpers : Helpers plat memory sheets
helpers = record {
  marshal = λ resp. elim resp [ none ↦ ("null", none) | some r ↦ (r.name, none) ];
  Context = Err plat;
  user_claims = λ ctx. ctx;
  map_to_struct = λ m. (some (record { name = none; sku = none }), none);
  today = "2025-01-31";
  excel_export = export_sheet;
}
