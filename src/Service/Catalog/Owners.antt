-- ===== src/Service/Catalog/Owners.antt =====
-- Rows that only a product with a given uid may have: the id that a lookup of the uid found.
use platform_idp_demo.Base.{
  ◌≡◌, ◌≢◌, ◌⊎◌, ◌∙◌, sym, ap, inl, inr, String, none, some, List, [], ◌∷◌, Bool-cases, arith,
}
use platform_idp_demo.Base.Int.{ℤ, ◌==ℤ◌, ==ℤ_iff}
use platform_idp_demo.Base.Text.{str_eq, eq_iff}
use platform_idp_demo.Platform.{Platform}
use platform_idp_demo.Types.Entity.{Product}
use platform_idp_demo.Api.UpdateProductRequest.{UpdateProductRequest}
use platform_idp_demo.Repository.Lawful.{find_row, delete_rows}
use platform_idp_demo.Service.Editing.{revise_rows, revised}
use platform_idp_demo.Service.Catalog.{catalog_of, put}
use platform_idp_demo.Service.Catalog.Keys.{OtherId, EachId, EachId-map, IsKeyed}
use platform_idp_demo.Service.Catalog.Lookups.{
  find_row_uid, find_row-Differs, revise_absent, delete_absent, catalog_of-revise_rows,
  catalog_of-delete_rows,
}

module _ {P : Platform} where
  -- No row with the id has another uid.
  abbrev pub Owns : ℤ → String → List (Product P) → Type 0
  Owns id u ps = EachId (λ i. P.id i ≡ id → P.uid i ≡ u) ps

  pub find_row-Owns :
      (u : String) (ps : List (Product P)) (p : Product P)
      → IsKeyed ps
      → find_row u ps ≡ some p
      → Owns (P.id p.id_model) u ps
  unfolding find_row
  find_row-Owns u [] p keyed found = tt
  find_row-Owns u (q ∷ ps) p keyed found = elim (Bool-cases (str_eq (P.uid q.id_model) u)) [
    | inl here ↦
        let same : q ≡ p = ground arith in
        let is_u : P.uid q.id_model ≡ u = ground (arith, eq_iff (P.uid q.id_model) u) in
        (
          (λ e. is_u),
          EachId-map (OtherId P q.id_model) (λ i. P.id i ≡ P.id p.id_model → P.uid i ≡ u)
              (λ i d e. absurd (d.0 (e ∙ ap (λ (x : Product P). P.id x.id_model) (sym same)))) ps
              keyed.0,
        )
    | inr there ↦
        let found_there = rw there at found in
        let other = find_row-Differs q.id_model u ps p keyed.0 found_there in
        ((λ e. absurd (other.0 (sym e))), find_row-Owns u ps p keyed.1 found_there)
  ]

  -- The row with the id is the one that the uid finds, or there is none.
  owner_cases :
      (id : ℤ) (u : String) (ps : List (Product P))
      → IsKeyed ps
      → Owns id u ps
      → ((p : Product P) × (find_row u ps ≡ some p) × (P.id p.id_model ≡ id))
        ⊎ EachId (λ i. P.id i ≢ id) ps
  unfolding find_row
  owner_cases id u [] keyed owns = inr tt
  owner_cases id u (q ∷ ps) keyed owns = elim (Bool-cases (P.id q.id_model ==ℤ id)) [
    | inl hit ↦
        let is_id : P.id q.id_model ≡ id = ground (arith, ==ℤ_iff (P.id q.id_model) id) in
        inl (q, ground (arith, owns.0 is_id, eq_iff (P.uid q.id_model) u), is_id)
    | inr miss ↦
        let other : P.id q.id_model ≢ id = ground (arith, ==ℤ_iff (P.id q.id_model) id) in
        elim (owner_cases id u ps keyed.1 owns.1) [
          | inl (p, found, is_id) ↦
              let apart = find_row-Differs q.id_model u ps p keyed.0 found in
              let is_u = find_row_uid u ps p found in
              inl (p, ground (arith, found, apart.1, is_u, eq_iff (P.uid q.id_model) u), is_id)
          | inr absent ↦ inr (other, absent)
        ]
  ]

  pub revise_rows-Owns :
      (id : ℤ) (m : UpdateProductRequest P) (ps : List (Product P))
      → IsKeyed ps
      → Owns id m.uid ps
      → (catalog_of (revise_rows id m ps) ≡ catalog_of ps)
        ⊎ ((p : Product P) × (catalog_of ps m.uid ≡ some p)
            × (catalog_of (revise_rows id m ps) ≡ put m.uid (some (revised m p)) (catalog_of ps)))
  revise_rows-Owns id m ps keyed owns = elim (owner_cases id m.uid ps keyed owns) [
    | inl (p, found, is_id) ↦
        inr (p, found, rw (← is_id) (catalog_of-revise_rows m.uid m ps p keyed found))
    | inr absent ↦ inl (ap catalog_of (revise_absent id m ps absent))
  ]

  pub delete_rows-Owns :
      (id : ℤ) (u : String) (ps : List (Product P))
      → IsKeyed ps
      → Owns id u ps
      → (catalog_of (delete_rows id ps) ≡ catalog_of ps)
        ⊎ ((p : Product P) × (catalog_of ps u ≡ some p)
            × (catalog_of (delete_rows id ps) ≡ put u none (catalog_of ps)))
  delete_rows-Owns id u ps keyed owns = elim (owner_cases id u ps keyed owns) [
    | inl (p, found, is_id) ↦
        inr (p, found, rw (← is_id) (catalog_of-delete_rows u ps p keyed found))
    | inr absent ↦ inl (ap catalog_of (delete_absent id ps absent))
  ]
