-- ===== src/Service/Exporting.antt =====
-- `ExportProducts` from the request to the bytes of the file.
use platform_idp_demo.Base.{
  ℕ, ◌<◌, ◌≡◌, ◌≢◌, refl, String, Option, none, some, List, [], ◌∷◌, concat, length, false, ap,
  arith,
}
use platform_idp_demo.Base.Int.{pos, ◌==ℤ◌, ==ℤ_iff}
use platform_idp_demo.Base.Text.{◌<>◌}
use platform_idp_demo.Go.{returned}
use platform_idp_demo.Platform.{Platform, Err}
use platform_idp_demo.Api.ExportProductsRequest.{ExportProductsRequest}
use platform_idp_demo.Api.Errors.{Error}
use platform_idp_demo.Types.Entity.{Product}
use platform_idp_demo.Types.Dto.{ProductFilter, map_product_export_filter}
use platform_idp_demo.Repository.{ProductRepository}
use platform_idp_demo.Cache.{Cache}
use platform_idp_demo.Export.{
  Excel, ExportM, FilterMap, FilePointer, Session, file, headers, factory, product_model, build,
}
use platform_idp_demo.Export.Laws.{Serves, Filled, build-Serves}
use platform_idp_demo.Service.{World, Helpers, export_products}

factory_made :
    {F : Type 0} (map_to_struct : FilterMap → Option ProductFilter × Option (Error F))
    (today : String) (given : FilterMap) (filters : Option ProductFilter)
    → map_to_struct given ≡ (filters, none)
    → factory map_to_struct today product_model given
      ≡ (some (record { file_name = "product-" <> today <> ".xlsx"; filters = filters }), none)
unfolding factory
factory_made map_to_struct today given filters converted = ground arith

module _ {P : Platform} (R : ProductRepository P) (C : Cache P) (X : Excel P)
    (H : Helpers P R X) where
  -- The excel exporter returns the bytes of the book that a handler has built a file in.
  abbrev pub GivesBytes : (X.Book → List ℕ) → Type 0
  GivesBytes bytes_of =
      (name : String) (run : ExportM R X (Option FilePointer × Err P)) (s s' : Session R.Db X.Book)
      → run s ≡ returned (some file, none) s'
      → H.excel_export name run s ≡ returned (some (bytes_of s'.book), none) s'

  -- For a request whose type is not URL, when the exporter returns the bytes of the built book, the
  -- filters of the request are converted without an error, the repository serves the products of these
  -- filters in pages and reads leave the database, the book takes the writer, the header, one row for
  -- each product from row 2 on and the flush, and the fuel exceeds the number of pages, then
  -- `ExportProducts` returns a file without a name that has the bytes of the flushed book, with no error,
  -- and leaves the database and the cache as they are.
  pub export_products-Serves :
      (bytes_of : X.Book → List ℕ) (fuel : ℕ) (ctx : H.Context) (m : ExportProductsRequest)
      (w : World R.Db C.Entries) (filters : Option ProductFilter) (pages : List (List (Product P)))
      (b₁ b₂ b₃ b₄ : X.Book)
      → GivesBytes bytes_of
      → m.export_type ≢ pos 1
      → H.map_to_struct (("filters", map_product_export_filter (some m)) ∷ []) ≡ (filters, none)
      → length pages < fuel
      → Serves R filters w.db "" "" pages
      → X.new_stream_writer X.new_book ≡ returned none b₁
      → X.set_header headers b₁ ≡ returned none b₂
      → Filled X 2 (concat pages) b₂ b₃
      → X.flush b₃ ≡ returned tt b₄
      → export_products R C X H fuel ctx (some m) w
        ≡ returned (some (record { file_name = ""; file_data = bytes_of b₄ }), none) w
  unfolding export_products
  export_products-Serves bytes_of fuel ctx m w filters pages b₁ b₂ b₃ b₄ gives by_file converted
        enough s opened headed f flushed =
      let not_url : m.export_type ==ℤ pos 1 ≡ false =
        ground (arith, ==ℤ_iff m.export_type (pos 1)) in
      let built =
        build-Serves R X filters fuel pages w.db X.new_book b₁ b₂ b₃ b₄ enough s opened headed f
          flushed in
      let got =
        gives ("product-" <> H.today <> ".xlsx") (build R X filters fuel)
          (record { db = w.db; book = X.new_book }) (record { db = w.db; book = b₄ }) built in
      let made =
        factory_made H.map_to_struct H.today (("filters", map_product_export_filter (some m)) ∷ [])
          filters converted in
      let writer = ap (λ p. p.0) made in rw (not_url, made, writer, got) refl
