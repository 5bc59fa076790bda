-- ===== src/Tests/Writes.antt =====
-- Creates, updates, deletes and exports over the memory repository.
use platform_idp_demo.Base.{◌≡◌, refl, ℕ, false, none, some, List, [], ◌∷◌, arith}
use platform_idp_demo.Base.Int.{pos}
use platform_idp_demo.Go.{returned}
use platform_idp_demo.Api.Errors.{foreign}
use platform_idp_demo.Api.CreateProductRequest.{CreateProductRequest}
use platform_idp_demo.Api.UpdateProductRequest.{UpdateProductRequest}
use platform_idp_demo.Api.DeleteProductRequest.{DeleteProductRequest}
use platform_idp_demo.Repository.Lawful.{count_sku, update_rows, delete_rows, find_row}
use platform_idp_demo.Export.{file, row_of, build}
use platform_idp_demo.Export.Laws.{last_page, add, done, build-Serves, build-row_refused}
use platform_idp_demo.Service.{
  Answer, Empty, empty, World, create_product, update_product, delete_product, export_products,
}
use platform_idp_demo.Service.Writing.{CreateEnd, create_product-CreateEnd}
use platform_idp_demo.Service.Editing.{
  UpdateEnd, DeleteEnd, EndsIn, update_product-UpdateEnd, delete_product-DeleteEnd,
}
use platform_idp_demo.Service.Exporting.{GivesBytes, export_products-Serves}
use platform_idp_demo.Service.RoundTrip.{ReadBack, get_product-create_product}
use platform_idp_demo.Service.Unique.{
  IsUnique, create, update, delete, serve_all, serve_all-IsUnique,
}
use platform_idp_demo.Tests.Memory.{plat, memory, memory-IsLawful, lamp, table, Table}
use platform_idp_demo.Tests.Redis.{redis, Entry}
use platform_idp_demo.Tests.Sheet.{helpers, sheets, sheet_of, Sheet, bytes_of}

abbrev shelf : World Table (List Entry)
shelf = record { db = table; entries = [] }

abbrev chair : CreateProductRequest plat
chair = record { name = "Chair"; sku = "C-1"; status = pos 1; price = 8900 }

abbrev second_lamp : CreateProductRequest plat
second_lamp = record { name = "Lamp 2"; sku = "L-1"; status = pos 1; price = 1300 }

abbrev dearer : UpdateProductRequest plat
dearer = record { uid = "u7"; name = "Lamp"; sku = "L-9"; status = pos 1; price = 1400 }

abbrev gone : DeleteProductRequest
gone = record { uid = "u7" }

-- A new SKU gives a row, a known one is refused, and an update ignores the SKU of its request.
runs :
    (serve_all memory redis sheets helpers
        (create second_lamp ∷ update dearer ∷ create chair ∷ delete gone ∷ [])
        shelf
      ≡ returned
          ((none, some (foreign "duplicate data"))
            ∷ (some empty, none)
            ∷ (some empty, none)
            ∷ (some empty, none)
            ∷ [])
          (record {
            db = record {
              rows =
                  record {
                    id_model = record { number = pos 8; uid = "8" };
                    name = "Chair";
                    sku = "C-1";
                    status = pos 1;
                    price = 8900;
                  }
                  ∷ [];
              fresh = 9;
              broken = false;
            };
            entries = [];
          }))
unfolding serve_all create_product update_product delete_product count_sku update_rows delete_rows
    find_row platform_idp_demo.Base.Decimal.decimal
runs = refl

create_product-CreateEnd_example :
    (answer : Answer plat Empty) × (w' : World Table (List Entry)) × (create_product memory redis
        sheets helpers
        (some chair)
        shelf
      ≡ returned answer w')
    × (w'.entries ≡ [])
    × CreateEnd chair none (lamp ∷ []) w'.db.rows answer
create_product-CreateEnd_example =
    create_product-CreateEnd memory redis sheets helpers memory-IsLawful chair shelf

update_product-UpdateEnd_example :
    EndsIn memory redis sheets helpers memory-IsLawful
      (update_product memory redis sheets helpers (some dearer))
      (UpdateEnd dearer (lamp ∷ []))
      shelf
update_product-UpdateEnd_example =
    update_product-UpdateEnd memory redis sheets helpers memory-IsLawful dearer shelf

delete_product-DeleteEnd_example :
    EndsIn memory redis sheets helpers memory-IsLawful
      (delete_product memory redis sheets helpers (some gone))
      (DeleteEnd gone (lamp ∷ []))
      shelf
delete_product-DeleteEnd_example =
    delete_product-DeleteEnd memory redis sheets helpers memory-IsLawful gone shelf

lamp-IsUnique : IsUnique (lamp ∷ [])
unfolding count_sku
lamp-IsUnique s = ground arith

serve_all-IsUnique_example :
    (answers : List (Answer plat Empty)) × (w' : World Table (List Entry)) × (serve_all memory redis
        sheets helpers
        (create chair ∷ delete gone ∷ [])
        shelf
      ≡ returned answers w')
    × IsUnique w'.db.rows
serve_all-IsUnique_example =
    serve_all-IsUnique memory redis sheets helpers memory-IsLawful (λ s db. refl)
      (create chair ∷ delete gone ∷ []) shelf lamp-IsUnique

abbrev one_row : Sheet
one_row = record { rows = (2, row_of lamp) ∷ []; last = 1000; flushed = 0 }

build-Serves_example :
    build memory sheets none 2 (record { db = table; book = sheet_of 1000 })
    ≡ returned (some file, none) (record { db = table; book = record one_row { flushed = 1 } })
build-Serves_example =
    build-Serves memory sheets none 2 ((lamp ∷ []) ∷ []) table (sheet_of 1000) (sheet_of 1000)
      (sheet_of 1000) one_row (record one_row { flushed = 1 }) (omega arith)
      (last_page lamp [] (record { prev = ""; next = "" }) refl refl) refl refl
      (add lamp [] one_row refl done) refl

build-row_refused_example :
    build memory sheets none 1 (record { db = table; book = sheet_of 1 })
    ≡ returned
        (none, some (foreign "row out of range"))
        (record { db = table; book = record (sheet_of 1) { flushed = 1 } })
build-row_refused_example =
    build-row_refused memory sheets none 0 [] [] lamp (some (record { prev = ""; next = "" })) table
      (sheet_of 1) (sheet_of 1) (sheet_of 1) (sheet_of 1) (sheet_of 1)
      (record (sheet_of 1) { flushed = 1 }) (foreign "row out of range") refl refl refl done refl
      refl

abbrev book_bytes : Sheet → List ℕ
book_bytes b = bytes_of b.rows

sheets_give_bytes : GivesBytes memory redis sheets helpers book_bytes
sheets_give_bytes name run s s' h = ground arith

export_products-Serves_example :
    export_products memory redis sheets helpers 2 none (some (record { export_type = pos 0 })) shelf
    ≡ returned (some (record { file_name = ""; file_data = 2 ∷ [] }), none) shelf
export_products-Serves_example =
    export_products-Serves memory redis sheets helpers book_bytes 2 none
      (record { export_type = pos 0 }) shelf (some (record { name = none; sku = none }))
      ((lamp ∷ []) ∷ []) (sheet_of 1000) (sheet_of 1000) one_row (record one_row { flushed = 1 })
      sheets_give_bytes (ground arith) refl (omega arith)
      (last_page lamp [] (record { prev = ""; next = "" }) refl refl) refl refl
      (add lamp [] one_row refl done) refl

-- The shelf with the chair, which the database numbers 8.
abbrev with_chair : World Table (List Entry)
with_chair = record {
  db = record {
    rows =
        lamp
        ∷ record {
          id_model = record { number = pos 8; uid = "8" };
          name = "Chair";
          sku = "C-1";
          status = pos 1;
          price = 8900;
        }
        ∷ [];
    fresh = 9;
    broken = false;
  };
  entries = [];
}

get_product-create_product_example :
    ReadBack memory redis sheets helpers memory-IsLawful chair
      (record { number = pos 8; uid = "8" })
      with_chair
unfolding find_row count_sku create_product platform_idp_demo.Service.insert_product
    platform_idp_demo.Base.Decimal.decimal
get_product-create_product_example =
    get_product-create_product memory redis sheets helpers memory-IsLawful
      (λ k v ttl c. (none, _, refl)) chair shelf with_chair refl refl
