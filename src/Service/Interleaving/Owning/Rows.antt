-- ===== src/Service/Interleaving/Owning/Rows.antt =====
-- What a change of the rows keeps.
use platform_idp_demo.Base.{◌≡◌, ◌≢◌, String, List, [], ◌∷◌}
use platform_idp_demo.Base.Int.{ℤ}
use platform_idp_demo.Platform.{Platform}
use platform_idp_demo.Types.Entity.{Product}
use platform_idp_demo.Repository.{ProductRepository}
use platform_idp_demo.Repository.Lawful.{IsLawful}
use platform_idp_demo.Service.Catalog.Keys.{
  OtherId, EachId, EachId-map, EachId-append, EachId-revise_rows, EachId-delete_rows, IsKeyed,
  append-IsKeyed, revise_rows-IsKeyed, delete_rows-IsKeyed,
}
use platform_idp_demo.Service.Catalog.Owners.{Owns}
use platform_idp_demo.Service.Interleaving.{
  Stage, counting, inserting, updating, writing, deleting, removing, finished,
}
use platform_idp_demo.Service.Interleaving.Owning.{
  Serials, IsLinked, AllGiven, Moves, same, grown, revising, removing_rows, Keeps,
}

module _ {P : Platform} {R : ProductRepository P} (L : IsLawful R) (S : Serials R L) where
  -- Rows with given ids differ from a row whose id was not given.
  pub unspent_differs :
      (db : R.Db) (k : P.IdModel) (ps : List (Product P))
      → (¬ S.Given db (P.id k))
      → EachId (λ i. S.Given db (P.id i)) ps
      → EachId (λ i. P.uid i ≢ P.uid k) ps
      → EachId (OtherId P k) ps
  unspent_differs db k [] new given other = tt
  unspent_differs db k (p ∷ ps) new given other =
      (((λ e. new (subst_given e given.0)), other.0), unspent_differs db k ps new given.1 other.1)
    where
      subst_given : {a b : ℤ} → a ≡ b → S.Given db a → S.Given db b
      subst_given e g = rw (← e) g

  pub Moves-IsKeyed :
      (db db' : R.Db)
      → Moves L S db db'
      → AllGiven L S db
      → IsKeyed (L.rows db)
      → IsKeyed (L.rows db')
  Moves-IsKeyed db db' (same e) given keyed = rw e keyed
  Moves-IsKeyed db db' (grown q new spent other e) given keyed = rw e (
      append-IsKeyed (L.rows db) q keyed
        (unspent_differs db q.id_model (L.rows db) new given other))
  Moves-IsKeyed db db' (revising id m e) given keyed =
      rw e (revise_rows-IsKeyed id m (L.rows db) keyed)
  Moves-IsKeyed db db' (removing_rows id e) given keyed =
      rw e (delete_rows-IsKeyed id (L.rows db) keyed)

  pub Moves-AllGiven :
      (db db' : R.Db) → Moves L S db db' → Keeps L S db db' → AllGiven L S db → AllGiven L S db'
  Moves-AllGiven db db' move keeps given =
      let now : EachId (λ i. S.Given db' (P.id i)) (L.rows db) =
        EachId-map (λ i. S.Given db (P.id i)) (λ i. S.Given db' (P.id i)) (λ i. keeps (P.id i))
          (L.rows db) given in
      go move now
    where
      go : Moves L S db db' → EachId (λ i. S.Given db' (P.id i)) (L.rows db) → AllGiven L S db'
      go (same e) now = rw e now
      go (grown q new spent other e) now =
          rw e (EachId-append (λ i. S.Given db' (P.id i)) (L.rows db) q now spent)
      go (revising id m e) now =
          rw e (EachId-revise_rows (λ i. S.Given db' (P.id i)) id m (L.rows db) now)
      go (removing_rows id e) now =
          rw e (EachId-delete_rows (λ i. S.Given db' (P.id i)) id (L.rows db) now)

  Moves-Owns :
      (db db' : R.Db) (id : ℤ) (u : String)
      → Moves L S db db'
      → S.Given db id
      → Owns id u (L.rows db)
      → Owns id u (L.rows db')
  Moves-Owns db db' id u (same e) given owns = rw e owns
  Moves-Owns db db' id u (grown q new spent other e) given owns =
      let not_q : P.id q.id_model ≢ id = λ is_id. new (rw is_id given) in
      rw e (
        EachId-append (λ i. P.id i ≡ id → P.uid i ≡ u) (L.rows db) q owns
          (λ is_id. absurd (not_q is_id)))
  Moves-Owns db db' id u (revising k m e) given owns =
      rw e (EachId-revise_rows (λ i. P.id i ≡ id → P.uid i ≡ u) k m (L.rows db) owns)
  Moves-Owns db db' id u (removing_rows k e) given owns =
      rw e (EachId-delete_rows (λ i. P.id i ≡ id → P.uid i ≡ u) k (L.rows db) owns)

  -- What another request has looked up stays its own.
  pub Moves-IsLinked :
      (db db' : R.Db)
      → Moves L S db db'
      → Keeps L S db db'
      → (stage : Stage P) → IsLinked L S db stage
      → IsLinked L S db' stage
  Moves-IsLinked db db' move keeps (writing m id) linked =
      (keeps id linked.0, Moves-Owns db db' id m.uid move linked.0 linked.1)
  Moves-IsLinked db db' move keeps (removing m id) linked =
      (keeps id linked.0, Moves-Owns db db' id m.uid move linked.0 linked.1)
  Moves-IsLinked db db' move keeps (counting m) linked = tt
  Moves-IsLinked db db' move keeps (inserting m) linked = tt
  Moves-IsLinked db db' move keeps (updating m) linked = tt
  Moves-IsLinked db db' move keeps (deleting m) linked = tt
  Moves-IsLinked db db' move keeps (finished answer) linked = tt
