-- ===== src/Export.antt =====
-- internal/export: the excel export of products. The excel packages and the generic exporter are
-- not part of the repository: `Excel` is what the code calls of them.
pub mod Laws
use platform_idp_demo.Base.{
  ℕ, zero, suc, ◌+◌, String, true, false, Option, none, some, List, [], ◌∷◌, if◌then◌else◌,
}
use platform_idp_demo.Base.Int.{ℤ}
use platform_idp_demo.Base.Text.{◌<>◌, str_eq}
use platform_idp_demo.Go.{M, pure, deref, out_of_fuel, deferred, zoom, ◌>>=◌, ◌>>◌}
use platform_idp_demo.Platform.{Platform, Err}
use platform_idp_demo.Api.Errors.{Error, text_error}
use platform_idp_demo.Types.Entity.{Product}
use platform_idp_demo.Types.Dto.{ProductFilter}
use platform_idp_demo.Repository.{ProductRepository, Cursor}

-- `excel.Header`
pub record Header : Type 0 where
  pub name : String
  pub width : ℕ

pub data Cell : Type 0 where
  number : ℤ → Cell
  text : String → Cell

-- `writer.File()`: a pointer to the one file that the writer fills.
pub data FilePointer : Type 0 where
  file : FilePointer

pub record Excel (P : Platform) : Type 1 where
  -- An `excel.ExcelWriter` with its file and stream writer.
  pub Book : Type 0
  -- `excel.NewExcelWriter()`
  pub new_book : Book
  pub new_stream_writer : M Book (Err P)
  pub set_header : List Header → M Book (Err P)
  pub set_row : ℕ → List Cell → M Book (Err P)
  pub flush : M Book (Unit {0})

-- The database and the writer that an export works on.
pub record Session (Db Book : Type 0) : Type 0 where
  pub db : Db
  pub book : Book

abbrev pub headers : List Header
headers =
    record { name = "ID"; width = 20 }
    ∷ record { name = "SKU"; width = 25 }
    ∷ record { name = "Name"; width = 20 }
    ∷ []

abbrev pub product_model : String
product_model = "export-product"

-- What `exporter.NewExcelExporter` makes of a file name and the product handler, whose fields are
-- the repository and these filters.
pub record Exporter : Type 0 where
  pub file_name : String
  pub filters : Option ProductFilter

-- A `map[string]any` whose values are product filters.
abbrev pub FilterMap : Type 0
FilterMap = List (String × ProductFilter)

-- `map_to_struct` is `jsonx.MapToStruct`, and `today` what `timex.Now().Format(time.DateOnly)` gives.
module _ {F : Type 0} (map_to_struct : FilterMap → Option ProductFilter × Option (Error F)) where
  unfoldable pub factory : String → String → FilterMap → Option Exporter × Option (Error F)
  factory today model filters =
      if str_eq model product_model
      then (let (params, err) = map_to_struct filters in
          elim err [
            | some e ↦ (none, some e)
            | none ↦ (
              some (record { file_name = "product-" <> today <> ".xlsx"; filters = params }),
              none,
            )
          ])
      else (none, some (text_error ("unsupported export model: " <> model)))

module _ {P : Platform} where
  abbrev pub row_of : Product P → List Cell
  row_of val = number (P.id val.id_model) ∷ text val.sku ∷ text val.name ∷ []

module _ {P : Platform} (R : ProductRepository P) (X : Excel P) where
  abbrev pub ExportM : Type 0 → Type 0
  ExportM A = M (Session R.Db X.Book) A

  abbrev pub on_db : {A : Type 0} → M R.Db A → ExportM A
  on_db = zoom (λ s. s.db) (λ db s. record s { db = db })

  abbrev pub on_book : {A : Type 0} → M X.Book A → ExportM A
  on_book = zoom (λ s. s.book) (λ book s. record s { book = book })

  -- The loop over `results`: the error, if any, and the next `currentRow`.
  unfoldable pub write_rows : List (Option (Product P)) → ℕ → ExportM (Err P × ℕ)
  write_rows [] row = pure (none, row)
  write_rows (item ∷ items) row = do
    val ← deref item
    err ← on_book (X.set_row row (row_of val))
    elim err [ some e ↦ pure (some e, row) | none ↦ write_rows items (row + 1) ]

  module _ (filters : Option ProductFilter) where
    -- The outer loop, on fuel.
    unfoldable pub write_pages : ℕ → String → String → ℕ → ExportM (Option FilePointer × Err P)
    unfolding write_rows
    write_pages zero prev_link next_link row = λ s. out_of_fuel s
    write_pages (suc fuel) prev_link next_link row = do
      (results, cursor, err) ←
          on_db (
            R.find_with_cursor P.default_limit prev_link next_link "Id" P.sort_order_default
              filters)
      elim err [
        | some e ↦ pure (none, some e)
        | none ↦ elim results [
          | [] ↦ pure (some file, none)
          | item ∷ items ↦ do
            (err', row') ← write_rows (item ∷ items) row
            elim err' [
              | some e ↦ pure (none, some e)
              | none ↦ do
                c ← deref cursor
                elim (str_eq c.next "") [
                  | true ↦ pure (some file, none)
                  | false ↦ write_pages fuel c.prev c.next row'
                ]
            ]
        ]
      ]

    unfoldable pub build : ℕ → ExportM (Option FilePointer × Err P)
    unfolding write_pages
    build fuel = do
      err ← on_book X.new_stream_writer
      elim err [
        | some e ↦ pure (none, some e)
        | none ↦ deferred (on_book X.flush) (do
          err' ← on_book (X.set_header headers)
          elim err' [ some e ↦ pure (none, some e) | none ↦ write_pages fuel "" "" 2 ])
      ]
