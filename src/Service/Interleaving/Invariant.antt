-- ===== src/Service/Interleaving/Invariant.antt =====
-- What holds however the calls of several requests interleave.
use platform_idp_demo.Base.{ℕ, ◌-◌, ◌≤◌, ◌≡◌, refl, arith}
use platform_idp_demo.Go.{returned}
use platform_idp_demo.Platform.{Platform}
use platform_idp_demo.Repository.{ProductRepository}
use platform_idp_demo.Repository.Lawful.{IsLawful}
use platform_idp_demo.Cache.{Cache}
use platform_idp_demo.Export.{Excel}
use platform_idp_demo.Service.{Answer, Empty, World, Helpers}
use platform_idp_demo.Service.Interleaving.{
  Stage, counting, inserting, updating, writing, deleting, removing, finished, calls_left, advance,
}
use platform_idp_demo.Service.Interleaving.Advancing.{stage-Advances, CallEnd}

module _ {P : Platform} (R : ProductRepository P) (C : Cache P) (X : Excel P) (H : Helpers P R X)
    (L : IsLawful R) where
  -- Over a lawful repository, each call that a request makes of the database, whatever other requests have
  -- done before it, ends in one of these ways, with the rows as they are then. The count of a create leaves
  -- the rows: the create ends as a duplicate only when a row has its SKU, and goes on to its insert only when
  -- no row has it or the count returned an error. The insert appends the row of the request and answers with
  -- an empty message and no error, or leaves the rows and answers with the error. The lookup of an update or
  -- a delete leaves the rows and goes on with the id of the first row with the uid, or answers with an error.
  -- The update revises the rows with that id and answers with an empty message and no error, or leaves the
  -- rows and answers with neither. The delete removes the rows with the id and answers with an empty message
  -- and no error, or leaves the rows and answers with an empty message beside the error. An answer stays.
  pub advance-CallEnd :
      (stage stage' : Stage P) (w w' : World R.Db C.Entries)
      → advance R C X H stage w ≡ returned stage' w'
      → CallEnd (λ s. (L.count_lem s w.db).1) stage stage' (L.rows w.db) (L.rows w'.db)
  advance-CallEnd stage stage' w w' ran =
      let a = stage-Advances R C X H L stage w in
      let same_world : a.world ≡ w' = cc (a.runs, ran) in
      let same_stage : a.next_stage ≡ stage' = cc (a.runs, ran) in
      rw (same_world, same_stage) at a.ends

  -- Over a lawful repository a call of a request always returns, and its next call, in whatever world the
  -- other requests have left by then, finishes it: every request is answered after at most two calls.
  pub advance-finished :
      (stage : Stage P) (w : World R.Db C.Entries)
      → (stage' : Stage P) × (w₁ : World R.Db C.Entries) × (advance R C X H stage w
          ≡ returned stage' w₁)
        × ((w₂ : World R.Db C.Entries)
            → (answer : Answer P Empty) × (w₃ : World R.Db C.Entries) × (advance R C X H stage' w₂
                ≡ returned (finished answer) w₃))
  advance-finished stage w =
      let a = stage-Advances R C X H L stage w in
      (a.next_stage, a.world, a.runs, last a.next_stage (at_most_two stage a.fewer))
    where
      at_most_two : (stage : Stage P) {n : ℕ} → n ≤ calls_left stage - 1 → n ≤ 1
      at_most_two (counting m) h = omega arith
      at_most_two (inserting m) h = omega arith
      at_most_two (updating m) h = omega arith
      at_most_two (writing m id) h = omega arith
      at_most_two (deleting m) h = omega arith
      at_most_two (removing m id) h = omega arith
      at_most_two (finished answer) h = omega arith

      answered : (stage : Stage P) → calls_left stage ≤ 0 → (answer : _) × (stage ≡ finished answer)
      answered (counting m) h = absurd (omega arith)
      answered (inserting m) h = absurd (omega arith)
      answered (updating m) h = absurd (omega arith)
      answered (writing m id) h = absurd (omega arith)
      answered (deleting m) h = absurd (omega arith)
      answered (removing m id) h = absurd (omega arith)
      answered (finished answer) h = (answer, refl)

      last :
          (stage' : Stage P)
          → calls_left stage' ≤ 1
          → (w₂ : World R.Db C.Entries)
          → (answer : Answer P Empty) × (w₃ : World R.Db C.Entries) × (advance R C X H stage' w₂
              ≡ returned (finished answer) w₃)
      last stage' few w₂ =
          let b = stage-Advances R C X H L stage' w₂ in
          let (answer, done) = answered b.next_stage (omega (arith, b.fewer)) in
          (answer, b.world, rw (← done) b.runs)
