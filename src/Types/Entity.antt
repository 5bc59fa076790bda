-- ===== src/Types/Entity.antt =====
-- internal/types/entity: the row type of the products table and its migration.
use platform_idp_demo.Base.{String, Option, none, some, List, [], ◌∷◌}
use platform_idp_demo.Platform.{Platform}

-- `id_model` is the embedded `baseModel.IdModel`.
pub record Product (P : Platform) : Type 0 where
  pub id_model : P.IdModel
  pub name : String
  pub sku : String
  pub status : P.ModelStatus
  pub price : P.Float

abbrev pub table_name : String
table_name = "products"

-- The columns of the fields that `Product` itself declares, by gorm's naming or by its tags.
abbrev pub product_columns : List String
product_columns = "name" ∷ "sku" ∷ "status" ∷ "price" ∷ []

-- `auto_migrate` is gorm's `AutoMigrate(&Product{})`.
module _ {E DB : Type 0} (auto_migrate : DB → Option E × DB) where
  unfoldable pub migrate_tables : DB → Option E × DB
  migrate_tables db = auto_migrate db

  unfoldable pub migrate_indexes : DB → Option E × DB
  migrate_indexes db = (none, db)

  unfoldable pub register_migrator : DB → Option E × DB
  unfolding migrate_tables migrate_indexes
  register_migrator db =
      let (err, db') = migrate_tables db in
      elim err [ some e ↦ (some e, db') | none ↦ migrate_indexes db' ]
