-- ===== src/Types/ProductInformation/Laws.antt =====
-- How long a row has to be, and where its cells go.
use platform_idp_demo.Base.{
  ◌≡◌, refl, ℕ, zero, suc, ◌≤◌, ◌<◌, String, Option, none, some, List, [], ◌∷◌, length, get_elem?,
  arith,
}
use platform_idp_demo.Go.{M, index, panicked, returned, ◌>>=◌}
use platform_idp_demo.Platform.{Platform}
use platform_idp_demo.Types.ProductInformation.{zero_information, map_row_to_product_information}

get_elem?-none : {A : Type 0} (xs : List A) (i : ℕ) → length xs ≤ i → get_elem? xs i ≡ none
get_elem?-none [] i h = refl
get_elem?-none (x ∷ xs) zero h = absurd (omega arith)
get_elem?-none (x ∷ xs) (suc i) h = get_elem?-none xs i (omega arith)

module _ {W A B : Type 0} (xs : List A) (w : W) where
  index_panics : (i : ℕ) (f : A → M W B) → get_elem? xs i ≡ none → (index xs i >>= f) w ≡ panicked w
  index_panics i f h = ground arith

  -- A read before one that panics panics too, or goes on to it.
  index_then :
      (i : ℕ) (f : A → M W B) → ((a : A) → f a w ≡ panicked w) → (index xs i >>= f) w ≡ panicked w
  index_then i f h = go (get_elem? xs i) refl
    where
      go : (o : Option A) → get_elem? xs i ≡ o → (index xs i >>= f) w ≡ panicked w
      go none e = ground arith
      go (some a) e = ground (arith, h a)

module _ {P : Platform} {W : Type 0} (parse_float : String → P.Float) where
  -- A row of fewer than 37 cells panics.
  pub map_row_to_product_information_short :
      (row : List String) (w : W)
      → length row < 37
      → map_row_to_product_information {P = P} parse_float row w ≡ panicked w
  unfolding map_row_to_product_information
  map_row_to_product_information_short row w h = index_then row w 0 _ λ c0.
      index_then row w 1 _ λ c1. index_then row w 2 _ λ c2. index_then row w 3 _ λ c3.
        index_then row w 4 _ λ c4. index_then row w 5 _ λ c5. index_then row w 6 _ λ c6.
          index_then row w 7 _ λ c7. index_then row w 11 _ λ c11. index_then row w 12 _ λ c12.
            index_then row w 13 _ λ c13. index_then row w 14 _ λ c14. index_then row w 15 _ λ c15.
              index_then row w 16 _ λ c16. index_then row w 17 _ λ c17. index_then row w 18 _ λ c18.
                index_then row w 19 _ λ c19. index_then row w 20 _ λ c20.
                  index_then row w 21 _ λ c21. index_then row w 22 _ λ c22.
                    index_then row w 23 _ λ c23. index_then row w 25 _ λ c25.
                      index_then row w 26 _ λ c26. index_then row w 27 _ λ c27.
                        index_then row w 28 _ λ c28. index_then row w 30 _ λ c30.
                          index_then row w 34 _ λ c34.
                            index_then row w 35 _
                              λ c35. index_panics row w 36 _ (get_elem?-none row 36 (omega arith))

  -- A row of 37 cells or more is mapped: the cells that the code reads stand in the fields, and every
  -- other field is zero.
  pub map_row_to_product_information_lem :
      (c0 c1 c2 c3 c4 c5 c6 c7 c8 c9 c10 c11 c12 c13 c14 c15 c16 c17 c18 c19 c20 c21 c22 c23 c24 c25
        c26 c27 c28 c29 c30 c31 c32 c33 c34 c35 c36 : String)
      (rest : List String) (w : W)
      → map_row_to_product_information {P = P} parse_float
          (c0 ∷ c1 ∷ c2 ∷ c3 ∷ c4 ∷ c5 ∷ c6 ∷ c7 ∷ c8 ∷ c9 ∷ c10 ∷ c11 ∷ c12 ∷ c13 ∷ c14 ∷ c15 ∷ c16
            ∷ c17 ∷ c18 ∷ c19 ∷ c20 ∷ c21 ∷ c22 ∷ c23 ∷ c24 ∷ c25 ∷ c26 ∷ c27 ∷ c28 ∷ c29 ∷ c30
            ∷ c31 ∷ c32 ∷ c33 ∷ c34 ∷ c35 ∷ c36 ∷ rest)
          w
        ≡ returned
            (record zero_information {
              big_category = c0;
              category_one = c1;
              category_two = c2;
              category_three = c3;
              item_id = c4;
              item_name = c5;
              core_range = c6;
              star_group = c7;
              brand_id = c11;
              brand = c12;
              vendor_id = c13;
              vendor_name = c14;
              manufacturer_id = c15;
              manufacturer_name = c16;
              procurement_type = c17;
              distribution_type = c18;
              abc_transaction = c19;
              medicine_type = c20;
              invent_unit = c21;
              purch_unit = c22;
              purch_convert = parse_float c23;
              brand_item = c25;
              description = c26;
              launching_npd = c27;
              origin = c28;
              pog_unit = c30;
              storage_condition = c34;
              special_group = c35;
              dosage = c36;
            })
            w
  unfolding map_row_to_product_information
  map_row_to_product_information_lem c0 c1 c2 c3 c4 c5 c6 c7 c8 c9 c10 c11 c12 c13 c14 c15 c16 c17
        c18 c19 c20 c21 c22 c23 c24 c25 c26 c27 c28 c29 c30 c31 c32 c33 c34 c35 c36 rest w =
      refl
