-- ===== src/Service/Interleaving/Owning/Runs.antt =====
-- What every call of every interleaving does to the catalog.
use platform_idp_demo.Base.{◌≡◌, List, [], ◌∷◌, ◌++◌, Each}
use platform_idp_demo.Go.{returned}
use platform_idp_demo.Platform.{Platform}
use platform_idp_demo.Repository.{ProductRepository}
use platform_idp_demo.Repository.Lawful.{IsLawful}
use platform_idp_demo.Cache.{Cache}
use platform_idp_demo.Export.{Excel}
use platform_idp_demo.Service.{World, Helpers}
use platform_idp_demo.Service.Unique.{Request, create, update, delete}
use platform_idp_demo.Service.Catalog.{catalog_of}
use platform_idp_demo.Service.Catalog.Keys.{IsKeyed}
use platform_idp_demo.Service.Interleaving.{
  Stage, first_stage, advance, System, Step, arrive, call, Reach, here, next,
}
use platform_idp_demo.Service.Interleaving.Owning.{Serials, OwnChange, IsLinked, AllGiven}
use platform_idp_demo.Service.Interleaving.Owning.Rows.{
  Moves-IsKeyed, Moves-AllGiven, Moves-IsLinked,
}
use platform_idp_demo.Service.Interleaving.Owning.Lookups.{stage-Owning}

module _ {A : Type 0} (Q : A → Type 0) where
  Each-append : (xs ys : List A) → Each Q xs → Each Q ys → Each Q (xs ++ ys)
  Each-append [] ys h k = k
  Each-append (x ∷ xs) ys h k = (h.0, Each-append xs ys h.1 k)

  Each-at : (xs : List A) (x : A) (ys : List A) → Each Q (xs ++ x ∷ ys) → Q x
  Each-at [] x ys h = h.0
  Each-at (z ∷ xs) x ys h = Each-at xs x ys h.1

  Each-replace :
      (Q' : A → Type 0) (f : (a : A) → Q a → Q' a) (xs : List A) (x x' : A) (ys : List A)
      → Q' x'
      → Each Q (xs ++ x ∷ ys)
      → Each Q' (xs ++ x' ∷ ys)
  Each-replace Q' f [] x x' ys new h = (new, map_each ys h.1)
    where
      map_each : (ys : List A) → Each Q ys → Each Q' ys
      map_each [] h = tt
      map_each (y ∷ ys) h = (f y h.0, map_each ys h.1)
  Each-replace Q' f (z ∷ xs) x x' ys new h = (f z h.0, Each-replace Q' f xs x x' ys new h.1)

module _ {P : Platform} (R : ProductRepository P) (C : Cache P) (X : Excel P) (H : Helpers P R X)
    (L : IsLawful R) (S : Serials R L) where
  -- The ids and uids are distinct, the ids were given, and what the requests have looked up is their own.
  abbrev pub IsOwned : System R C X H → Type 0
  IsOwned s =
      IsKeyed (L.rows s.world.db)
      × AllGiven L S s.world.db
      × Each (IsLinked L S s.world.db) s.stages

  first_stage-IsLinked : (db : R.Db) (r : Request P) → IsLinked L S db (first_stage r)
  first_stage-IsLinked db (create m) = tt
  first_stage-IsLinked db (update m) = tt
  first_stage-IsLinked db (delete m) = tt

  Step-IsOwned : {s t : System R C X H} → Step R C X H s t → IsOwned s → IsOwned t
  Step-IsOwned {s} (arrive r t_is) (keyed, given, linked) = rw t_is (
    keyed,
    given,
    Each-append (IsLinked L S s.world.db) s.stages (first_stage r ∷ []) linked
        (first_stage-IsLinked s.world.db r, tt),
  )
  Step-IsOwned {s} (call before after stage stage' w' at_stage ran t_is) (keyed, given, linked) =
      let linked' : Each (IsLinked L S s.world.db) (before ++ stage ∷ after) =
        rw at_stage at linked in
      let mine = Each-at (IsLinked L S s.world.db) before stage after linked' in
      let c = stage-Owning R C X H L S stage s.world keyed given mine in
      let same_world : c.world ≡ w' = cc (c.runs, ran) in
      let same_stage : c.next_stage ≡ stage' = cc (c.runs, ran) in
      let all_linked : Each (IsLinked L S c.world.db) (before ++ c.next_stage ∷ after) =
        Each-replace (IsLinked L S s.world.db) (IsLinked L S c.world.db)
          (Moves-IsLinked L S s.world.db c.world.db c.move c.keeps) before stage c.next_stage after
          c.linked linked' in
      rw (t_is, ← same_world, ← same_stage)
        (
          Moves-IsKeyed L S s.world.db c.world.db c.move given keyed,
          Moves-AllGiven L S s.world.db c.world.db c.move c.keeps given,
          all_linked,
        )

  Reach-IsOwned : {s t : System R C X H} → IsOwned s → Reach R C X H s t → IsOwned t
  Reach-IsOwned owned here = owned
  Reach-IsOwned owned (next reached step) = Step-IsOwned step (Reach-IsOwned owned reached)

  -- Over a lawful repository with a serial key, from a table with distinct ids and uids, whose ids were given,
  -- and no request being served: however the calls of any number of creates, updates and deletes interleave,
  -- each call leaves the catalog as it is, or it is the write of a create, which puts the request's product at
  -- a uid that no product has, or of an update or a delete, which revises or removes the product of the
  -- request's own uid, as it is then. No other product changes, and the ids and uids stay distinct.
  pub Reach-OwnChange :
      {s t : System R C X H}
      → s.stages ≡ []
      → IsKeyed (L.rows s.world.db)
      → AllGiven L S s.world.db
      → Reach R C X H s t
      → (before after : List (Stage P)) (stage stage' : Stage P) (w' : World R.Db C.Entries)
      → t.stages ≡ before ++ stage ∷ after
      → advance R C X H stage t.world ≡ returned stage' w'
      → OwnChange stage (catalog_of (L.rows t.world.db)) (catalog_of (L.rows w'.db))
        × IsKeyed (L.rows w'.db)
  Reach-OwnChange {s} {t} idle keyed given reached before after stage stage' w' at_stage ran =
      let none_linked : Each (IsLinked L S s.world.db) s.stages = rw idle tt in
      let (keyed', given', linked) = Reach-IsOwned (keyed, given, none_linked) reached in
      let linked' : Each (IsLinked L S t.world.db) (before ++ stage ∷ after) =
        rw at_stage at linked in
      let mine = Each-at (IsLinked L S t.world.db) before stage after linked' in
      let c = stage-Owning R C X H L S stage t.world keyed' given' mine in
      let same_world : c.world ≡ w' = cc (c.runs, ran) in
      rw (← same_world) (c.own, Moves-IsKeyed L S t.world.db c.world.db c.move given' keyed')
