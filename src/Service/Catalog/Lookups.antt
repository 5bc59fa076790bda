-- ===== src/Service/Catalog/Lookups.antt =====
-- What a lookup by uid finds after a change of the rows.
use platform_idp_demo.Base.{
  ◌≡◌, ◌≢◌, refl, String, none, some, List, [], ◌∷◌, ◌++◌, Each, arith, Bool-cases, inl, inr,
  if◌then◌else◌, true, fun_ext, ap, subst,
}
use platform_idp_demo.Base.Int.{ℤ, ◌==ℤ◌, ==ℤ_iff, ==ℤ_refl}
use platform_idp_demo.Base.Text.{str_eq, eq_iff}
use platform_idp_demo.Platform.{Platform}
use platform_idp_demo.Types.Entity.{Product}
use platform_idp_demo.Api.UpdateProductRequest.{UpdateProductRequest}
use platform_idp_demo.Repository.Lawful.{find_row, delete_rows}
use platform_idp_demo.Service.Editing.{revise_rows, revised}
use platform_idp_demo.Service.Catalog.{catalog_of, put}
use platform_idp_demo.Service.Catalog.Keys.{Differs, OtherId, EachId, EachId-map, IsKeyed}

module _ {P : Platform} where
  pub find_row_absent :
      (k : P.IdModel) (ps : List (Product P)) → Each (Differs k) ps → find_row (P.uid k) ps ≡ none
  unfolding find_row
  find_row_absent k [] h = refl
  find_row_absent k (p ∷ ps) h =
      ground (arith, find_row_absent k ps h.1, h.0.1, eq_iff (P.uid p.id_model) (P.uid k))

  pub find_row_uid :
      (u : String) (ps : List (Product P)) (p : Product P)
      → find_row u ps ≡ some p
      → P.uid p.id_model ≡ u
  unfolding find_row
  find_row_uid u [] p found = ground arith
  find_row_uid u (q ∷ ps) p found =
      ground (arith, find_row_uid u ps p, found, eq_iff (P.uid q.id_model) u)

  pub find_row-EachId :
      (Q : P.IdModel → Type 0) (u : String) (ps : List (Product P)) (p : Product P)
      → EachId Q ps
      → find_row u ps ≡ some p
      → Q p.id_model
  unfolding find_row
  find_row-EachId Q u [] p h found = absurd (ground arith)
  find_row-EachId Q u (q ∷ ps) p h found = elim (Bool-cases (str_eq (P.uid q.id_model) u)) [
    | inl here ↦ let same : q ≡ p = ground arith in rw (← same) h.0
    | inr there ↦ find_row-EachId Q u ps p h.1 (rw there at found)
  ]

  pub find_row-Differs :
      (k : P.IdModel) (u : String) (ps : List (Product P)) (p : Product P)
      → Each (Differs k) ps
      → find_row u ps ≡ some p
      → Differs k p
  find_row-Differs k u ps p h found = find_row-EachId (OtherId P k) u ps p h found

  pub revise_absent :
      (id : ℤ) (m : UpdateProductRequest P) (ps : List (Product P))
      → EachId (λ i. P.id i ≢ id) ps
      → revise_rows id m ps ≡ ps
  unfolding revise_rows
  revise_absent id m [] h = refl
  revise_absent id m (p ∷ ps) h =
      ground (arith, revise_absent id m ps h.1, h.0, ==ℤ_iff (P.id p.id_model) id)

  pub delete_absent :
      (id : ℤ) (ps : List (Product P)) → EachId (λ i. P.id i ≢ id) ps → delete_rows id ps ≡ ps
  unfolding delete_rows
  delete_absent id [] h = refl
  delete_absent id (p ∷ ps) h =
      ground (arith, delete_absent id ps h.1, h.0, ==ℤ_iff (P.id p.id_model) id)

  -- Rows that differ from an identity have other ids.
  other_ids :
      (k : P.IdModel) (ps : List (Product P))
      → Each (Differs k) ps
      → EachId (λ i. P.id i ≢ P.id k) ps
  other_ids k ps h = EachId-map (OtherId P k) (λ i. P.id i ≢ P.id k) (λ i d. d.0) ps h

  find_row-append :
      (v : String) (ps : List (Product P)) (p : Product P)
      → Each (Differs p.id_model) ps
      → find_row v (ps ++ p ∷ []) ≡ (if str_eq (P.uid p.id_model) v then some p else find_row v ps)
  unfolding find_row
  find_row-append v [] p fresh = refl
  find_row-append v (q ∷ ps) p fresh = ground (
    arith,
    find_row-append v ps p fresh.1,
    fresh.0.1,
    eq_iff (P.uid q.id_model) v,
    eq_iff (P.uid p.id_model) v,
  )

  pub find_row-revise_rows :
      (v u : String) (m : UpdateProductRequest P) (ps : List (Product P)) (p : Product P)
      → IsKeyed ps
      → find_row u ps ≡ some p
      → find_row v (revise_rows (P.id p.id_model) m ps)
        ≡ (if str_eq u v then some (revised m p) else find_row v ps)
  unfolding find_row revise_rows
  find_row-revise_rows v u m [] p keyed found = absurd (ground arith)
  find_row-revise_rows v u m (q ∷ ps) p keyed found =
      elim (Bool-cases (str_eq (P.uid q.id_model) u)) [
        | inl here ↦
            let same : q ≡ p = ground arith in
            let is_u : P.uid q.id_model ≡ u = ground (arith, eq_iff (P.uid q.id_model) u) in
            let hit : (P.id q.id_model ==ℤ P.id p.id_model) ≡ true =
              subst (λ (x : Product P). (P.id q.id_model ==ℤ P.id x.id_model) ≡ true) same
                (==ℤ_refl (P.id q.id_model)) in
            let rest : revise_rows (P.id p.id_model) m ps ≡ ps =
              subst (λ (x : Product P). revise_rows (P.id x.id_model) m ps ≡ ps) same
                (revise_absent (P.id q.id_model) m ps (other_ids q.id_model ps keyed.0)) in
            let it : revised m q ≡ revised m p = ap (revised m) same in
            rw (hit, rest, is_u, it) (ground arith)
        | inr there ↦
            let found_there = rw there at found in
            let other = find_row-Differs q.id_model u ps p keyed.0 found_there in
            let rest = find_row-revise_rows v u m ps p keyed.1 found_there in
            let is_u = find_row_uid u ps p found_there in
            ground (
              arith,
              rest,
              other.0,
              other.1,
              is_u,
              ==ℤ_iff (P.id q.id_model) (P.id p.id_model),
              eq_iff (P.uid q.id_model) v,
              eq_iff u v,
            )
      ]

  pub find_row-delete_rows :
      (v u : String) (ps : List (Product P)) (p : Product P)
      → IsKeyed ps
      → find_row u ps ≡ some p
      → find_row v (delete_rows (P.id p.id_model) ps) ≡ (if str_eq u v then none else find_row v ps)
  unfolding find_row delete_rows
  find_row-delete_rows v u [] p keyed found = absurd (ground arith)
  find_row-delete_rows v u (q ∷ ps) p keyed found =
      elim (Bool-cases (str_eq (P.uid q.id_model) u)) [
        | inl here ↦
            let same : q ≡ p = ground arith in
            let is_u : P.uid q.id_model ≡ u = ground (arith, eq_iff (P.uid q.id_model) u) in
            let absent : find_row (P.uid q.id_model) ps ≡ none =
              find_row_absent q.id_model ps keyed.0 in
            let hit : (P.id q.id_model ==ℤ P.id p.id_model) ≡ true =
              subst (λ (x : Product P). (P.id q.id_model ==ℤ P.id x.id_model) ≡ true) same
                (==ℤ_refl (P.id q.id_model)) in
            let rest : delete_rows (P.id p.id_model) ps ≡ ps =
              subst (λ (x : Product P). delete_rows (P.id x.id_model) ps ≡ ps) same
                (delete_absent (P.id q.id_model) ps (other_ids q.id_model ps keyed.0)) in
            rw (hit, rest) (ground (arith, absent, is_u, eq_iff u v, eq_iff (P.uid q.id_model) v))
        | inr there ↦
            let found_there = rw there at found in
            let other = find_row-Differs q.id_model u ps p keyed.0 found_there in
            let rest = find_row-delete_rows v u ps p keyed.1 found_there in
            let is_u = find_row_uid u ps p found_there in
            ground (
              arith,
              rest,
              other.0,
              other.1,
              is_u,
              ==ℤ_iff (P.id q.id_model) (P.id p.id_model),
              eq_iff (P.uid q.id_model) v,
              eq_iff u v,
            )
      ]

  pub catalog_of-append :
      (ps : List (Product P)) (p : Product P)
      → Each (Differs p.id_model) ps
      → (catalog_of ps (P.uid p.id_model) ≡ none)
        × (catalog_of (ps ++ p ∷ []) ≡ put (P.uid p.id_model) (some p) (catalog_of ps))
  catalog_of-append ps p fresh =
      (find_row_absent p.id_model ps fresh, fun_ext λ v. find_row-append v ps p fresh)

  pub catalog_of-revise_rows :
      (u : String) (m : UpdateProductRequest P) (ps : List (Product P)) (p : Product P)
      → IsKeyed ps
      → catalog_of ps u ≡ some p
      → catalog_of (revise_rows (P.id p.id_model) m ps) ≡ put u (some (revised m p)) (catalog_of ps)
  catalog_of-revise_rows u m ps p keyed found =
      fun_ext λ v. find_row-revise_rows v u m ps p keyed found

  pub catalog_of-delete_rows :
      (u : String) (ps : List (Product P)) (p : Product P)
      → IsKeyed ps
      → catalog_of ps u ≡ some p
      → catalog_of (delete_rows (P.id p.id_model) ps) ≡ put u none (catalog_of ps)
  catalog_of-delete_rows u ps p keyed found = fun_ext λ v. find_row-delete_rows v u ps p keyed found
