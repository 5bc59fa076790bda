-- ===== src/Service/Catalog/Keys.antt =====
-- Tables whose rows have distinct ids and distinct uids.
use platform_idp_demo.Base.{◌≢◌, sym, List, [], ◌∷◌, ◌++◌, Each, Bool-cases, inl, inr}
use platform_idp_demo.Base.Int.{ℤ, ◌==ℤ◌}
use platform_idp_demo.Platform.{Platform}
use platform_idp_demo.Types.Entity.{Product}
use platform_idp_demo.Api.UpdateProductRequest.{UpdateProductRequest}
use platform_idp_demo.Repository.Lawful.{delete_rows}
use platform_idp_demo.Service.Editing.{revise_rows}

-- Neither the id nor the uid is the other's.
abbrev pub OtherId : (P : Platform) → P.IdModel → P.IdModel → Type 0
OtherId P k i = (P.id i ≢ P.id k) × (P.uid i ≢ P.uid k)

module _ {P : Platform} where
  -- The row has neither the id nor the uid.
  abbrev pub Differs : P.IdModel → Product P → Type 0
  Differs k p = OtherId P k p.id_model

  abbrev pub IsKeyed : List (Product P) → Type 0
  IsKeyed [] = Unit {0}
  IsKeyed (p ∷ ps) = Each (Differs p.id_model) ps × IsKeyed ps

  -- A property of the identities of all rows.
  abbrev pub EachId : (P.IdModel → Type 0) → List (Product P) → Type 0
  EachId Q ps = Each (λ (p : Product P). Q p.id_model) ps

  pub EachId-map :
      (Q Q' : P.IdModel → Type 0) (f : (i : P.IdModel) → Q i → Q' i) (ps : List (Product P))
      → EachId Q ps
      → EachId Q' ps
  EachId-map Q Q' f [] h = tt
  EachId-map Q Q' f (p ∷ ps) h = (f p.id_model h.0, EachId-map Q Q' f ps h.1)

  pub EachId-append :
      (Q : P.IdModel → Type 0) (ps : List (Product P)) (q : Product P)
      → EachId Q ps
      → Q q.id_model
      → EachId Q (ps ++ q ∷ [])
  EachId-append Q [] q h d = (d, tt)
  EachId-append Q (p ∷ ps) q h d = (h.0, EachId-append Q ps q h.1 d)

  pub EachId-revise_rows :
      (Q : P.IdModel → Type 0) (id : ℤ) (m : UpdateProductRequest P) (ps : List (Product P))
      → EachId Q ps
      → EachId Q (revise_rows id m ps)
  unfolding revise_rows
  EachId-revise_rows Q id m [] h = tt
  EachId-revise_rows Q id m (p ∷ ps) h = elim (Bool-cases (P.id p.id_model ==ℤ id)) [
    | inl hit ↦ rw hit (h.0, EachId-revise_rows Q id m ps h.1)
    | inr miss ↦ rw miss (h.0, EachId-revise_rows Q id m ps h.1)
  ]

  pub EachId-delete_rows :
      (Q : P.IdModel → Type 0) (id : ℤ) (ps : List (Product P))
      → EachId Q ps
      → EachId Q (delete_rows id ps)
  unfolding delete_rows
  EachId-delete_rows Q id [] h = tt
  EachId-delete_rows Q id (p ∷ ps) h = elim (Bool-cases (P.id p.id_model ==ℤ id)) [
    | inl hit ↦ rw hit (EachId-delete_rows Q id ps h.1)
    | inr miss ↦ rw miss (h.0, EachId-delete_rows Q id ps h.1)
  ]

  pub append-IsKeyed :
      (ps : List (Product P)) (q : Product P)
      → IsKeyed ps
      → Each (Differs q.id_model) ps
      → IsKeyed (ps ++ q ∷ [])
  append-IsKeyed [] q keyed fresh = (tt, tt)
  append-IsKeyed (p ∷ ps) q keyed fresh = (
    EachId-append (OtherId P p.id_model) ps q keyed.0
        ((λ e. fresh.0.0 (sym e)), λ e. fresh.0.1 (sym e)),
    append-IsKeyed ps q keyed.1 fresh.1,
  )

  pub revise_rows-IsKeyed :
      (id : ℤ) (m : UpdateProductRequest P) (ps : List (Product P))
      → IsKeyed ps
      → IsKeyed (revise_rows id m ps)
  unfolding revise_rows
  revise_rows-IsKeyed id m [] keyed = tt
  revise_rows-IsKeyed id m (p ∷ ps) keyed = elim (Bool-cases (P.id p.id_model ==ℤ id)) [
    | inl hit ↦ rw hit (
      EachId-revise_rows (OtherId P p.id_model) id m ps keyed.0,
      revise_rows-IsKeyed id m ps keyed.1,
    )
    | inr miss ↦ rw miss (
      EachId-revise_rows (OtherId P p.id_model) id m ps keyed.0,
      revise_rows-IsKeyed id m ps keyed.1,
    )
  ]

  pub delete_rows-IsKeyed :
      (id : ℤ) (ps : List (Product P)) → IsKeyed ps → IsKeyed (delete_rows id ps)
  unfolding delete_rows
  delete_rows-IsKeyed id [] keyed = tt
  delete_rows-IsKeyed id (p ∷ ps) keyed = elim (Bool-cases (P.id p.id_model ==ℤ id)) [
    | inl hit ↦ rw hit (delete_rows-IsKeyed id ps keyed.1)
    | inr miss ↦
        rw miss (
          EachId-delete_rows (OtherId P p.id_model) id ps keyed.0,
          delete_rows-IsKeyed id ps keyed.1,
        )
  ]
