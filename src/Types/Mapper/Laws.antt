-- ===== src/Types/Mapper/Laws.antt =====
-- Mapping a page of products.
use platform_idp_demo.Base.{
  ◌≡◌, ◌∙◌, ap, Option, some, List, [], ◌∷◌, ◌++◌, map, append-nil, append_assoc,
}
use platform_idp_demo.Platform.{Platform}
use platform_idp_demo.Types.Entity.{Product}
use platform_idp_demo.Api.GetProductResponse.{GetProductResponse}
use platform_idp_demo.Types.Mapper.{
  response_of, append_responses, product_map_to_responses, map_pagination_data,
}

module _ {P : Platform} where
  append_responses-map :
      (done : List (Option (GetProductResponse P))) (items : List (Product P))
      → append_responses done (map some items)
        ≡ some (done ++ map (λ p. some (response_of p)) items)
  unfolding append_responses
  append_responses-map done [] = ap some (sym_nil done)
    where
      sym_nil : (xs : List (Option (GetProductResponse P))) → xs ≡ xs ++ []
      sym_nil xs = rw append-nil
  append_responses-map done (p ∷ items) =
      append_responses-map (done ++ some (response_of p) ∷ []) items ∙ rw append_assoc

module _ (P : Platform) where
  -- A page without nil pointers is mapped product by product, in order, and keeps its page data.
  pub product_map_to_responses-map :
      (items : List (Product P)) (pagination : P.PageInfo)
      → product_map_to_responses P (map some items) pagination
        ≡ some (record {
          products = map (λ p. some (response_of p)) items;
          pagination = some (map_pagination_data P pagination);
        })
  unfolding product_map_to_responses
  product_map_to_responses-map items pagination =
      rw (append_responses-map [] items, product_map_to_responses)
