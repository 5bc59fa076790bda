-- ===== src/Service/Catalog/Reads.antt =====
-- What reads and writes of a product answer after it was updated or deleted.
use platform_idp_demo.Base.{◌≡◌, ◌∙◌, ◌⊎◌, refl, sym, ap, inl, inr, String, none, some, List}
use platform_idp_demo.Base.Text.{eq_refl}
use platform_idp_demo.Go.{returned}
use platform_idp_demo.Platform.{Platform}
use platform_idp_demo.Api.Errors.{Error}
use platform_idp_demo.Api.GetProductResponse.{GetProductResponse}
use platform_idp_demo.Api.UpdateProductRequest.{UpdateProductRequest}
use platform_idp_demo.Api.DeleteProductRequest.{DeleteProductRequest}
use platform_idp_demo.Types.Entity.{Product}
use platform_idp_demo.Types.Mapper.{response_of}
use platform_idp_demo.Repository.{ProductRepository}
use platform_idp_demo.Repository.Lawful.{IsLawful, find_row}
use platform_idp_demo.Cache.{Cache}
use platform_idp_demo.Export.{Excel}
use platform_idp_demo.Service.{
  Answer, Empty, empty, World, Helpers, get_product, update_product, delete_product,
}
use platform_idp_demo.Service.Editing.{
  UpdateEnd, DeleteEnd, revised, update_product-UpdateEnd, delete_product-DeleteEnd, EndsIn,
}
use platform_idp_demo.Service.Lookup.{SetReturns, GetEnd, get_product-GetEnd}
use platform_idp_demo.Service.Catalog.Keys.{IsKeyed}
use platform_idp_demo.Service.Catalog.Lookups.{find_row-revise_rows, find_row-delete_rows}

-- The fields of the product, or an error and no product.
abbrev pub Shows : {P : Platform} → Product P → Answer P (GetProductResponse P) → Type 0
Shows {P} p answer =
    (answer ≡ (some (response_of p), none)) ⊎ ((e : Error P.Failure) × (answer ≡ (none, some e)))

module _ {P : Platform} where
  get_end-Shows :
      (u : String) (p : Product P) (before after : List (Product P))
      (answer : Answer P (GetProductResponse P))
      → GetEnd u before after answer
      → find_row u before ≡ some p
      → Shows p answer
  unfolding response_of
  get_end-Shows u p before after answer (GetEnd.not_found e same failing) row = inr (e, failing)
  get_end-Shows u p before after answer (GetEnd.found q in_table same ok) row =
      let both : some q ≡ some p = sym in_table ∙ row in
      let q_is : q ≡ p = cc in inl (ok ∙ ap (λ (x : Product P). (some (response_of x), none)) q_is)

  found_after_update :
      (m : UpdateProductRequest P) (before after : List (Product P)) (answer : Answer P Empty)
      → UpdateEnd m before after answer
      → answer ≡ (some empty, none)
      → IsKeyed before
      → (p : Product P) × (find_row m.uid before ≡ some p)
        × (find_row m.uid after ≡ some (revised m p))
  found_after_update m before after answer (UpdateEnd.not_found e same failing) ok keyed = absurd cc
  found_after_update m before after answer (UpdateEnd.lost p row same lost) ok keyed = absurd cc
  found_after_update m before after answer (UpdateEnd.updated p row changed done) ok keyed = (
    p,
    row,
    rw (changed, find_row-revise_rows m.uid m.uid m before p keyed row, eq_refl m.uid) refl,
  )

  -- A write of a product that is not there: an error and no message, and the rows as they were.
  abbrev pub Missing : List (Product P) → List (Product P) → Answer P Empty → Type 0
  Missing before after answer = (e : Error P.Failure) × (answer ≡ (none, some e)) × (after ≡ before)

  get_end-error :
      (u : String) (before after : List (Product P)) (answer : Answer P (GetProductResponse P))
      → GetEnd u before after answer
      → find_row u before ≡ none
      → (e : Error P.Failure) × (answer ≡ (none, some e))
  get_end-error u before after answer (GetEnd.not_found e same failing) gone = (e, failing)
  get_end-error u before after answer (GetEnd.found p row same ok) gone = absurd cc

  update_end-Missing :
      (m : UpdateProductRequest P) (before after : List (Product P)) (answer : Answer P Empty)
      → UpdateEnd m before after answer
      → find_row m.uid before ≡ none
      → Missing before after answer
  update_end-Missing m before after answer (UpdateEnd.not_found e same failing) gone =
      (e, failing, same)
  update_end-Missing m before after answer (UpdateEnd.updated p row changed done) gone = absurd cc
  update_end-Missing m before after answer (UpdateEnd.lost p row same lost) gone = absurd cc

  delete_end-Missing :
      (m : DeleteProductRequest) (before after : List (Product P)) (answer : Answer P Empty)
      → DeleteEnd m before after answer
      → find_row m.uid before ≡ none
      → Missing before after answer
  delete_end-Missing m before after answer (DeleteEnd.not_found e same failing) gone =
      (e, failing, same)
  delete_end-Missing m before after answer (DeleteEnd.deleted p row changed done) gone = absurd cc
  delete_end-Missing m before after answer (DeleteEnd.refused p e row same failing) gone = absurd cc

  gone_after_delete :
      (m : DeleteProductRequest) (before after : List (Product P)) (answer : Answer P Empty)
      → DeleteEnd m before after answer
      → answer ≡ (some empty, none)
      → IsKeyed before
      → find_row m.uid after ≡ none
  gone_after_delete m before after answer (DeleteEnd.not_found e same failing) ok keyed = absurd cc
  gone_after_delete m before after answer (DeleteEnd.refused p e row same failing) ok keyed =
      absurd cc
  gone_after_delete m before after answer (DeleteEnd.deleted p row changed done) ok keyed =
      rw (changed, find_row-delete_rows m.uid m.uid before p keyed row, eq_refl m.uid) refl

module _ {P : Platform} (R : ProductRepository P) (C : Cache P) (X : Excel P) (H : Helpers P R X)
    (L : IsLawful R) where
  -- Over a lawful repository and a cache whose sets return: when `UpdateProduct` has returned an empty
  -- message and no error on a table with distinct ids and uids, then the uid had found a row, and
  -- `GetProduct` of the uid returns: it answers with the request's name, status and price beside the id,
  -- the uid and the SKU that the row had, or with an error and no product.
  pub get_product-update_product :
      SetReturns R C X H L
      → (m : UpdateProductRequest P) (w w₁ : World R.Db C.Entries) → IsKeyed (L.rows w.db)
      → update_product R C X H (some m) w ≡ returned (some empty, none) w₁
      → (p : Product P) × (answer : Answer P (GetProductResponse P)) × (w₂ : World R.Db C.Entries)
        × (find_row m.uid (L.rows w.db) ≡ some p)
        × (get_product R C X H (some (record { uid = m.uid })) w₁ ≡ returned answer w₂)
        × Shows (revised m p) answer
  get_product-update_product sets m w w₁ keyed updated =
      let (done, w', ran, kept, ended) = update_product-UpdateEnd R C X H L m w in
      let both : returned done w' ≡ returned (some empty, none) w₁ = sym ran ∙ updated in
      let is_ok : done ≡ (some empty, none) = cc in
      let moved : w' ≡ w₁ = cc in
      let (p, row, row') =
        found_after_update m (L.rows w.db) (L.rows w'.db) done ended is_ok keyed in
      let (answer, w₂, read, shown) = get_product-GetEnd R C X H L sets m.uid w₁ in
      (
        p,
        answer,
        w₂,
        row,
        read,
        get_end-Shows m.uid (revised m p) _ _ answer shown
            (ap (λ (v : World R.Db C.Entries). find_row m.uid (L.rows v.db)) (sym moved) ∙ row'),
      )

  -- A read of the uid returns an error and no product; the update and a delete of the uid return an error and
  -- no message, and leave the rows as they are.
  abbrev pub IsGone : String → UpdateProductRequest P → World R.Db C.Entries → Type 0
  IsGone u m w =
      ((e : Error P.Failure) × (w' : World R.Db C.Entries) × (get_product R C X H
            (some (record { uid = u })) w
          ≡ returned (none, some e) w'))
      × EndsIn R C X H L (update_product R C X H (some m)) (Missing (L.rows w.db)) w
      × EndsIn R C X H L (delete_product R C X H (some (record { uid = u })))
          (Missing (L.rows w.db)) w

  absent-IsGone :
      SetReturns R C X H L
      → (u : String) (m : UpdateProductRequest P) (w : World R.Db C.Entries) → m.uid ≡ u
      → find_row u (L.rows w.db) ≡ none
      → IsGone u m w
  absent-IsGone sets u m w same absent =
      let (answer, w', read, shown) = get_product-GetEnd R C X H L sets u w in
      let (e, failing) = get_end-error u (L.rows w.db) (L.rows w'.db) answer shown absent in
      let (answer_u, w_u, ran_u, kept_u, ended_u) = update_product-UpdateEnd R C X H L m w in
      let (answer_d, w_d, ran_d, kept_d, ended_d) =
        delete_product-DeleteEnd R C X H L (record { uid = u }) w in
      (
        (e, w', rw (← failing) read),
        (answer_u, w_u, ran_u, kept_u, update_end-Missing m _ _ answer_u ended_u (rw same absent)),
        (answer_d, w_d, ran_d, kept_d, delete_end-Missing _ _ _ answer_d ended_d absent),
      )

  -- Over a lawful repository and a cache whose sets return: when `DeleteProduct` has returned an empty
  -- message and no error on a table with distinct ids and uids, then `GetProduct` of the uid returns an
  -- error and no product, and an update or another delete of the uid returns an error and no message and
  -- changes nothing.
  pub delete_product-IsGone :
      SetReturns R C X H L
      → (d : DeleteProductRequest) (m : UpdateProductRequest P) (w w₁ : World R.Db C.Entries)
      → IsKeyed (L.rows w.db)
      → m.uid ≡ d.uid
      → delete_product R C X H (some d) w ≡ returned (some empty, none) w₁
      → IsGone d.uid m w₁
  delete_product-IsGone sets d m w w₁ keyed same removed =
      let (done, w', ran, kept, ended) = delete_product-DeleteEnd R C X H L d w in
      let both : returned done w' ≡ returned (some empty, none) w₁ = sym ran ∙ removed in
      let is_ok : done ≡ (some empty, none) = cc in
      let moved : w' ≡ w₁ = cc in
      absent-IsGone sets d.uid m w₁ same (
        ap (λ (v : World R.Db C.Entries). find_row d.uid (L.rows v.db)) (sym moved)
        ∙ gone_after_delete d (L.rows w.db) (L.rows w'.db) done ended is_ok keyed)
