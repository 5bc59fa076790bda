-- ===== src/Export/Laws.antt =====
-- The rows that an export writes.
use platform_idp_demo.Base.{
  ℕ, zero, suc, ◌+◌, ◌<◌, ◌≡◌, ◌≢◌, String, Option, none, some, List, [], ◌∷◌, ◌++◌, map, length,
  concat, arith, append-nil,
}
use platform_idp_demo.Base.Text.{eq_iff}
use platform_idp_demo.Go.{returned}
use platform_idp_demo.Platform.{Platform}
use platform_idp_demo.Api.Errors.{Error}
use platform_idp_demo.Types.Entity.{Product}
use platform_idp_demo.Types.Dto.{ProductFilter}
use platform_idp_demo.Repository.{ProductRepository, Cursor}
use platform_idp_demo.Export.{Excel, file, row_of, write_rows, write_pages, build, headers}

module _ {P : Platform} (R : ProductRepository P) (filters : Option ProductFilter) where
  -- What the repository serves from a database and a pair of links on: the products page by page, up
  -- to an empty page or to a page without a next link.
  pub data Serves (db : R.Db) : String → String → List (List (Product P)) → Type 0 where
    none_left :
        {prev next : String} (cursor : Option Cursor)
        → R.find_with_cursor P.default_limit prev next "Id" P.sort_order_default filters db
          ≡ returned ([], cursor, none) db
        → Serves db prev next []
    last_page :
        {prev next : String} (p : Product P) (ps : List (Product P)) (c : Cursor)
        → R.find_with_cursor P.default_limit prev next "Id" P.sort_order_default filters db
          ≡ returned (map some (p ∷ ps), some c, none) db
        → c.next ≡ ""
        → Serves db prev next ((p ∷ ps) ∷ [])
    more_pages :
        {prev next : String} (p : Product P) (ps : List (Product P)) (c : Cursor)
        {pages : List (List (Product P))}
        → R.find_with_cursor P.default_limit prev next "Id" P.sort_order_default filters db
          ≡ returned (map some (p ∷ ps), some c, none) db
        → c.next ≢ ""
        → Serves db c.prev c.next pages
        → Serves db prev next ((p ∷ ps) ∷ pages)

module _ {P : Platform} (X : Excel P) where
  -- One row for each product, in order, from the row number on, into a book that takes every row.
  pub data Filled : ℕ → List (Product P) → X.Book → X.Book → Type 0 where
    done : {row : ℕ} {b : X.Book} → Filled row [] b b
    add :
        {row : ℕ} {b : X.Book} (p : Product P) (ps : List (Product P)) (b' : X.Book) {end : X.Book}
        → X.set_row row (row_of p) b ≡ returned none b'
        → Filled (row + 1) ps b' end
        → Filled row (p ∷ ps) b end

  Filled-split :
      (ps qs : List (Product P)) (row : ℕ) (b end : X.Book)
      → Filled row (ps ++ qs) b end
      → (mid : X.Book) × Filled row ps b mid × Filled (row + length ps) qs mid end
  Filled-split [] qs row b end f = (b, done, rw row_zero f)
    where
      row_zero : row + 0 ≡ row
      row_zero = omega arith
  Filled-split (p ∷ ps) qs row b end (add _ _ b' set rest) =
      let (mid, f, g) = Filled-split ps qs (row + 1) b' end rest in
      (mid, add p ps b' set f, rw row_suc g)
    where
      row_suc : row + suc (length ps) ≡ row + 1 + length ps
      row_suc = omega arith

module _ {P : Platform} (R : ProductRepository P) (X : Excel P) where
  write_rows-Filled :
      (ps : List (Product P)) (row : ℕ) (db : R.Db) (b end : X.Book)
      → Filled X row ps b end
      → write_rows R X (map some ps) row (record { db = db; book = b })
        ≡ returned (none, row + length ps) (record { db = db; book = end })
  unfolding write_rows
  write_rows-Filled [] row db b _ done = ground arith
  write_rows-Filled (p ∷ ps) row db b end (add _ _ b' set rest) =
      ground (arith, write_rows-Filled ps (row + 1) db b' end rest)

  write_pages-Serves :
      (filters : Option ProductFilter) (fuel : ℕ) (pages : List (List (Product P)))
      (prev next : String) (row : ℕ) (db : R.Db) (b end : X.Book)
      → length pages < fuel
      → Serves R filters db prev next pages
      → Filled X row (concat pages) b end
      → write_pages R X filters fuel prev next row (record { db = db; book = b })
        ≡ returned (some file, none) (record { db = db; book = end })
  unfolding write_pages
  write_pages-Serves filters zero pages prev next row db b end enough s f = absurd (omega arith)
  write_pages-Serves filters (suc fuel) _ prev next row db b _ enough (none_left cursor got) done =
      ground arith
  write_pages-Serves filters (suc fuel) _ prev next row db b end enough (last_page p ps c got over)
        f =
      ground (arith, write_rows-Filled (p ∷ ps) row db b end (rw append-nil at f), eq_iff c.next "")
  write_pages-Serves filters (suc fuel) _ prev next row db b end enough
        (more_pages p ps c {pages} got more s) f =
      let (mid, here, later) = Filled-split X (p ∷ ps) (concat pages) row b end f in
      ground (
        arith,
        write_rows-Filled (p ∷ ps) row db b mid here,
        eq_iff c.next "",
        write_pages-Serves filters fuel pages c.prev c.next (row + length (p ∷ ps)) db mid end
            (omega arith) s later,
      )

  -- If the repository serves the products in pages, the book accepts the writer, the header and one
  -- row for each product from row 2 on, and the fuel exceeds the number of pages, then the export ends
  -- with the file and no error, and the flushed book holds exactly these rows, page after page.
  pub build-Serves :
      (filters : Option ProductFilter) (fuel : ℕ) (pages : List (List (Product P))) (db : R.Db)
      (b b₁ b₂ b₃ b₄ : X.Book)
      → length pages < fuel
      → Serves R filters db "" "" pages
      → X.new_stream_writer b ≡ returned none b₁
      → X.set_header headers b₁ ≡ returned none b₂
      → Filled X 2 (concat pages) b₂ b₃
      → X.flush b₃ ≡ returned tt b₄
      → build R X filters fuel (record { db = db; book = b })
        ≡ returned (some file, none) (record { db = db; book = b₄ })
  unfolding build
  build-Serves filters fuel pages db b b₁ b₂ b₃ b₄ enough s opened headed f flushed =
      ground (arith, write_pages-Serves filters fuel pages "" "" 2 db b₂ b₃ enough s f)

  write_rows-refused :
      (before after : List (Product P)) (p : Product P) (row : ℕ) (db : R.Db) (b b' b'' : X.Book)
      (e : Error P.Failure)
      → Filled X row before b b'
      → X.set_row (row + length before) (row_of p) b' ≡ returned (some e) b''
      → write_rows R X (map some (before ++ p ∷ after)) row (record { db = db; book = b })
        ≡ returned (some e, row + length before) (record { db = db; book = b'' })
  unfolding write_rows
  write_rows-refused [] after p row db b b' b'' e done refused =
      let same : row + 0 ≡ row = omega arith in rw same (ground (arith, rw same at refused))
  write_rows-refused (q ∷ before) after p row db b b' b'' e (add _ _ b₁ set rest) refused =
      let shift : row + suc (length before) ≡ row + 1 + length before = omega arith in
      rw shift (
        ground (
          arith,
          write_rows-refused before after p (row + 1) db b₁ b' b'' e rest (rw shift at refused),
        ))

  write_pages-refused :
      (filters : Option ProductFilter) (fuel : ℕ) (before after : List (Product P)) (p : Product P)
      (cursor : Option Cursor) (db : R.Db) (row : ℕ) (b b' b'' : X.Book) (e : Error P.Failure)
      → R.find_with_cursor P.default_limit "" "" "Id" P.sort_order_default filters db
        ≡ returned (map some (before ++ p ∷ after), cursor, none) db
      → Filled X row before b b'
      → X.set_row (row + length before) (row_of p) b' ≡ returned (some e) b''
      → write_pages R X filters (suc fuel) "" "" row (record { db = db; book = b })
        ≡ returned (none, some e) (record { db = db; book = b'' })
  unfolding write_pages
  write_pages-refused filters fuel [] after p cursor db row b b' b'' e got f refused =
      ground (arith, write_rows-refused [] after p row db b b' b'' e f refused)
  write_pages-refused filters fuel (q ∷ before) after p cursor db row b b' b'' e got f refused =
      ground (arith, write_rows-refused (q ∷ before) after p row db b b' b'' e f refused)

  -- When a row cannot be written, the export stops there: it ends with that error and no file, after
  -- flushing what stands above the row.
  pub build-row_refused :
      (filters : Option ProductFilter) (fuel : ℕ) (before after : List (Product P)) (p : Product P)
      (cursor : Option Cursor) (db : R.Db) (b b₁ b₂ b₃ b₄ b₅ : X.Book) (e : Error P.Failure)
      → R.find_with_cursor P.default_limit "" "" "Id" P.sort_order_default filters db
        ≡ returned (map some (before ++ p ∷ after), cursor, none) db
      → X.new_stream_writer b ≡ returned none b₁
      → X.set_header headers b₁ ≡ returned none b₂
      → Filled X 2 before b₂ b₃
      → X.set_row (2 + length before) (row_of p) b₃ ≡ returned (some e) b₄
      → X.flush b₄ ≡ returned tt b₅
      → build R X filters (suc fuel) (record { db = db; book = b })
        ≡ returned (none, some e) (record { db = db; book = b₅ })
  unfolding build
  build-row_refused filters fuel before after p cursor db b b₁ b₂ b₃ b₄ b₅ e got opened headed f
        refused flushed =
      ground (
        arith,
        write_pages-refused filters fuel before after p cursor db 2 b₂ b₃ b₄ e got f refused,
      )
