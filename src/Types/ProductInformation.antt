-- ===== src/Types/ProductInformation.antt =====
-- internal/types/mapper/product_information.go: a row of a sheet as a product's information.
pub mod Laws
use platform_idp_demo.Base.{String, Bool, false, Option, none, List}
use platform_idp_demo.Base.Int.{ℤ, pos}
use platform_idp_demo.Go.{M, pure, index, ◌>>=◌}
use platform_idp_demo.Platform.{Platform}

pub record ProductInformation (P : Platform) : Type 0 where
  pub big_category : String
  pub category_one : String
  pub category_two : String
  pub category_three : String
  pub item_id : String
  pub item_name : String
  pub core_range : String
  pub star_group : String
  pub number_of_stars : ℤ
  pub purch_multiple : ℤ
  pub own_brand : Bool
  pub brand_id : String
  pub brand : String
  pub vendor_id : String
  pub vendor_name : String
  pub manufacturer_id : String
  pub manufacturer_name : String
  pub procurement_type : String
  pub distribution_type : String
  pub abc_transaction : String
  pub medicine_type : String
  pub invent_unit : String
  pub purch_unit : String
  pub purch_convert : P.Float
  pub is_stopped : Bool
  pub stop_date : Option P.Time
  pub brand_item : String
  pub description : String
  pub launching_npd : String
  pub origin : String
  pub pog_unit : String
  pub pog_width : P.Float
  pub pog_depth : P.Float
  pub pog_height : P.Float
  pub storage_condition : String
  pub special_group : String
  pub dosage : String
  pub hotline_sku : Bool
  pub atc_1 : String
  pub atc_vn_1 : String
  pub atc_2 : String
  pub atc_vn_2 : String
  pub atc_3 : String
  pub atc_vn_3 : String
  pub atc_4 : String
  pub atc_vn_4 : String
  pub atc_5 : String
  pub atc_vn_5 : String

-- `&ProductInformation{}`
abbrev pub zero_information : {P : Platform} → ProductInformation P
zero_information {P} = record {
  big_category = "";
  category_one = "";
  category_two = "";
  category_three = "";
  item_id = "";
  item_name = "";
  core_range = "";
  star_group = "";
  number_of_stars = pos 0;
  purch_multiple = pos 0;
  own_brand = false;
  brand_id = "";
  brand = "";
  vendor_id = "";
  vendor_name = "";
  manufacturer_id = "";
  manufacturer_name = "";
  procurement_type = "";
  distribution_type = "";
  abc_transaction = "";
  medicine_type = "";
  invent_unit = "";
  purch_unit = "";
  purch_convert = P.zero_float;
  is_stopped = false;
  stop_date = none;
  brand_item = "";
  description = "";
  launching_npd = "";
  origin = "";
  pog_unit = "";
  pog_width = P.zero_float;
  pog_depth = P.zero_float;
  pog_height = P.zero_float;
  storage_condition = "";
  special_group = "";
  dosage = "";
  hotline_sku = false;
  atc_1 = "";
  atc_vn_1 = "";
  atc_2 = "";
  atc_vn_2 = "";
  atc_3 = "";
  atc_vn_3 = "";
  atc_4 = "";
  atc_vn_4 = "";
  atc_5 = "";
  atc_vn_5 = "";
}

-- `parse_float` is `strconv.ParseFloat` without its error, which the code drops.
module _ {P : Platform} {W : Type 0} (parse_float : String → P.Float) where
  unfoldable pub map_row_to_product_information : List String → M W (ProductInformation P)
  map_row_to_product_information row = do
    big_category ← index row 0
    category_one ← index row 1
    category_two ← index row 2
    category_three ← index row 3
    item_id ← index row 4
    item_name ← index row 5
    core_range ← index row 6
    star_group ← index row 7
    brand_id ← index row 11
    brand ← index row 12
    vendor_id ← index row 13
    vendor_name ← index row 14
    manufacturer_id ← index row 15
    manufacturer_name ← index row 16
    procurement_type ← index row 17
    distribution_type ← index row 18
    abc_transaction ← index row 19
    medicine_type ← index row 20
    invent_unit ← index row 21
    purch_unit ← index row 22
    purch_convert ← index row 23
    brand_item ← index row 25
    description ← index row 26
    launching_npd ← index row 27
    origin ← index row 28
    pog_unit ← index row 30
    storage_condition ← index row 34
    special_group ← index row 35
    dosage ← index row 36
    pure (record zero_information {
      big_category = big_category;
      category_one = category_one;
      category_two = category_two;
      category_three = category_three;
      item_id = item_id;
      item_name = item_name;
      core_range = core_range;
      star_group = star_group;
      brand_id = brand_id;
      brand = brand;
      vendor_id = vendor_id;
      vendor_name = vendor_name;
      manufacturer_id = manufacturer_id;
      manufacturer_name = manufacturer_name;
      procurement_type = procurement_type;
      distribution_type = distribution_type;
      abc_transaction = abc_transaction;
      medicine_type = medicine_type;
      invent_unit = invent_unit;
      purch_unit = purch_unit;
      purch_convert = parse_float purch_convert;
      brand_item = brand_item;
      description = description;
      launching_npd = launching_npd;
      origin = origin;
      pog_unit = pog_unit;
      storage_condition = storage_condition;
      special_group = special_group;
      dosage = dosage;
    })
