-- ===== src/Service/Interleaving/Advancing.antt =====
-- What one call of a request does to the table and to what is left of the request.
use platform_idp_demo.Base.{
  ◌-◌, ◌≤◌, ◌≡◌, refl, sym, ap, ◌∙◌, ◌++◌, String, List, [], ◌∷◌, ltb, Bool-cases, inl, inr, none,
  some, arith,
}
use platform_idp_demo.Base.Int.{ℤ}
use platform_idp_demo.Go.{returned}
use platform_idp_demo.Platform.{Platform, Err}
use platform_idp_demo.Api.Errors.{Error}
use platform_idp_demo.Api.DeleteProductRequest.{DeleteProductRequest}
use platform_idp_demo.Types.Entity.{Product}
use platform_idp_demo.Repository.{ProductRepository}
use platform_idp_demo.Repository.Lawful.{
  IsLawful, LooksUp, CountsSku, succeeded, failed, count_sku, find_row, delete_rows,
}
use platform_idp_demo.Cache.{Cache}
use platform_idp_demo.Export.{Excel}
use platform_idp_demo.Service.{Answer, Empty, World, Helpers, empty, product_of, update_columns}
use platform_idp_demo.Service.Editing.{revise_rows, update_rows-update_columns}
use platform_idp_demo.Service.Writing.{row_for}
use platform_idp_demo.Api.CreateProductRequest.{CreateProductRequest}
use platform_idp_demo.Api.UpdateProductRequest.{UpdateProductRequest}
use platform_idp_demo.Service.Interleaving.{
  Stage, counting, inserting, updating, writing, deleting, removing, finished, calls_left,
  update_answer, advance,
}

-- How a call of the database ends that takes a request from one stage to the next: the next stage, and the
-- rows before and after. `count_error` is the error that a count of a SKU returns in the database as it is.
pub data CallEnd {P : Platform} (count_error : String → Err P) (stage next_stage : Stage P)
    (before after : List (Product P)) : Type 0 where
  found_duplicate :
      (m : CreateProductRequest P)
      → stage ≡ counting m
      → next_stage ≡ finished (none, some P.duplicate_data)
      → 1 ≤ count_sku m.sku before
      → after ≡ before
      → CallEnd count_error stage next_stage before after
  found_free :
      (m : CreateProductRequest P)
      → stage ≡ counting m
      → next_stage ≡ inserting m
      → (count_error m.sku ≡ none → count_sku m.sku before ≡ 0)
      → after ≡ before
      → CallEnd count_error stage next_stage before after
  inserted :
      (m : CreateProductRequest P) (given : P.IdModel)
      → stage ≡ inserting m
      → next_stage ≡ finished (some empty, none)
      → after ≡ before ++ row_for m given ∷ []
      → CallEnd count_error stage next_stage before after
  insert_refused :
      (m : CreateProductRequest P) (e : Error P.Failure)
      → stage ≡ inserting m
      → next_stage ≡ finished (none, some e)
      → after ≡ before
      → CallEnd count_error stage next_stage before after
  update_found :
      (m : UpdateProductRequest P) (p : Product P)
      → stage ≡ updating m
      → find_row m.uid before ≡ some p
      → next_stage ≡ writing m (P.id p.id_model)
      → after ≡ before
      → CallEnd count_error stage next_stage before after
  update_not_found :
      (m : UpdateProductRequest P) (e : Error P.Failure)
      → stage ≡ updating m
      → next_stage ≡ finished (none, some e)
      → after ≡ before
      → CallEnd count_error stage next_stage before after
  revised :
      (m : UpdateProductRequest P) (id : ℤ)
      → stage ≡ writing m id
      → next_stage ≡ finished (some empty, none)
      → after ≡ revise_rows id m before
      → CallEnd count_error stage next_stage before after
  update_lost :
      (m : UpdateProductRequest P) (id : ℤ)
      → stage ≡ writing m id
      → next_stage ≡ finished (none, none)
      → after ≡ before
      → CallEnd count_error stage next_stage before after
  delete_found :
      (m : DeleteProductRequest) (p : Product P)
      → stage ≡ deleting m
      → find_row m.uid before ≡ some p
      → next_stage ≡ removing m (P.id p.id_model)
      → after ≡ before
      → CallEnd count_error stage next_stage before after
  delete_not_found :
      (m : DeleteProductRequest) (e : Error P.Failure)
      → stage ≡ deleting m
      → next_stage ≡ finished (none, some e)
      → after ≡ before
      → CallEnd count_error stage next_stage before after
  removed :
      (m : DeleteProductRequest) (id : ℤ)
      → stage ≡ removing m id
      → next_stage ≡ finished (some empty, none)
      → after ≡ delete_rows id before
      → CallEnd count_error stage next_stage before after
  delete_refused :
      (m : DeleteProductRequest) (id : ℤ) (e : Error P.Failure)
      → stage ≡ removing m id
      → next_stage ≡ finished (some empty, some e)
      → after ≡ before
      → CallEnd count_error stage next_stage before after
  ended :
      (answer : Answer P Empty)
      → stage ≡ finished answer
      → next_stage ≡ finished answer
      → after ≡ before
      → CallEnd count_error stage next_stage before after

module _ {P : Platform} (R : ProductRepository P) (C : Cache P) (X : Excel P) (H : Helpers P R X)
    (L : IsLawful R) where
  -- A call that returns makes one call fewer to go, and ends in one of these ways.
  pub record Advances (stage : Stage P) (w : World R.Db C.Entries) : Type 0 where
    pub next_stage : Stage P
    pub world : World R.Db C.Entries
    pub runs : advance R C X H stage w ≡ returned next_stage world
    pub fewer : calls_left next_stage ≤ calls_left stage - 1
    pub ends :
        CallEnd (λ s. (L.count_lem s w.db).1) stage next_stage (L.rows w.db) (L.rows world.db)

  counting-Advances : (m : _) (w : World R.Db C.Entries) → Advances (counting m) w
  unfolding advance
  counting-Advances m w = go (L.count_lem m.sku w.db) refl
    where
      go :
          (c : CountsSku L.rows (R.count_by_sku m.sku) m.sku w.db)
          → c ≡ L.count_lem m.sku w.db
          → Advances (counting m) w
      go (n, some e, db', run, same, exact) is_c = record {
        next_stage = inserting m;
        world = record w { db = db' };
        runs = rw run refl;
        fewer = omega arith;
        ends =
            found_free m refl refl
              (λ no_error.
                let failed : (L.count_lem m.sku w.db).1 ≡ some e = sym (ap (λ c. c.1) is_c) in
                absurd (cc (no_error, failed)))
              same;
      }
      go (n, none, db', run, same, exact) is_c = elim (Bool-cases (ltb 0 n)) [
        | inl known ↦ record {
          next_stage = finished (none, some P.duplicate_data);
          world = record w { db = db' };
          runs = rw (run, known) refl;
          fewer = omega arith;
          ends = found_duplicate m refl refl (ground (arith, exact refl, known)) same;
        }
        | inr free ↦ record {
          next_stage = inserting m;
          world = record w { db = db' };
          runs = rw (run, free) refl;
          fewer = omega arith;
          ends = found_free m refl refl (λ no_error. ground (arith, exact refl, free)) same;
        }
      ]

  inserting-Advances : (m : _) (w : World R.Db C.Entries) → Advances (inserting m) w
  unfolding advance
  inserting-Advances m w =
      let (given, (err, db', run, change)) = L.create_lem (product_of m) w.db in
      elim change [
        | succeeded none_err grown ↦ record {
          next_stage = finished (some empty, none);
          world = record w { db = db' };
          runs = rw (run, none_err) refl;
          fewer = omega arith;
          ends = inserted m given refl refl grown;
        }
        | failed e some_err kept ↦ record {
          next_stage = finished (none, some e);
          world = record w { db = db' };
          runs = rw (run, some_err) refl;
          fewer = omega arith;
          ends = insert_refused m e refl refl kept;
        }
      ]

  updating-Advances : (m : _) (w : World R.Db C.Entries) → Advances (updating m) w
  unfolding advance
  updating-Advances m w = go (L.find_lem m.uid w.db)
    where
      go : LooksUp L.rows (R.find_by_uid m.uid) m.uid w.db → Advances (updating m) w
      go (o, some e, db', run, same, row) = record {
        next_stage = finished (none, some e);
        world = record w { db = db' };
        runs = rw run refl;
        fewer = omega arith;
        ends = update_not_found m e refl refl same;
      }
      go (o, none, db', run, same, row) =
          let (p, is_p, in_table) = row refl in
          record {
            next_stage = writing m (P.id p.id_model);
            world = record w { db = db' };
            runs = rw (run, is_p) refl;
            fewer = omega arith;
            ends = update_found m p refl in_table refl same;
          }

  writing-Advances : (m : _) (id : ℤ) (w : World R.Db C.Entries) → Advances (writing m id) w
  unfolding advance
  writing-Advances m id w =
      let (err, db', run, change) = L.update_lem (update_columns m) id w.db in
      elim change [
        | succeeded none_err changed ↦ record {
          next_stage = finished (update_answer err);
          world = record w { db = db' };
          runs = rw run refl;
          fewer = omega arith;
          ends =
              revised m id refl (rw none_err refl)
                (changed ∙ update_rows-update_columns id m (L.rows w.db));
        }
        | failed e some_err kept ↦ record {
          next_stage = finished (update_answer err);
          world = record w { db = db' };
          runs = rw run refl;
          fewer = omega arith;
          ends = update_lost m id refl (rw some_err refl) kept;
        }
      ]

  deleting-Advances : (m : _) (w : World R.Db C.Entries) → Advances (deleting m) w
  unfolding advance
  deleting-Advances m w = go (L.find_lem m.uid w.db)
    where
      go : LooksUp L.rows (R.find_by_uid m.uid) m.uid w.db → Advances (deleting m) w
      go (o, some e, db', run, same, row) = record {
        next_stage = finished (none, some e);
        world = record w { db = db' };
        runs = rw run refl;
        fewer = omega arith;
        ends = delete_not_found m e refl refl same;
      }
      go (o, none, db', run, same, row) =
          let (p, is_p, in_table) = row refl in
          record {
            next_stage = removing m (P.id p.id_model);
            world = record w { db = db' };
            runs = rw (run, is_p) refl;
            fewer = omega arith;
            ends = delete_found m p refl in_table refl same;
          }

  removing-Advances : (m : _) (id : ℤ) (w : World R.Db C.Entries) → Advances (removing m id) w
  unfolding advance
  removing-Advances m id w =
      let (err, db', run, change) = L.delete_lem id w.db in
      record {
        next_stage = finished (some empty, err);
        world = record w { db = db' };
        runs = rw run refl;
        fewer = omega arith;
        ends = elim change [
          | succeeded none_err changed ↦ removed m id refl (rw none_err refl) changed
          | failed e some_err kept ↦ delete_refused m id e refl (rw some_err refl) kept
        ];
      }

  pub stage-Advances : (stage : Stage P) (w : World R.Db C.Entries) → Advances stage w
  unfolding advance
  stage-Advances (counting m) w = counting-Advances m w
  stage-Advances (inserting m) w = inserting-Advances m w
  stage-Advances (updating m) w = updating-Advances m w
  stage-Advances (writing m id) w = writing-Advances m id w
  stage-Advances (deleting m) w = deleting-Advances m w
  stage-Advances (removing m id) w = removing-Advances m id w
  stage-Advances (finished answer) w = record {
    next_stage = finished answer;
    world = w;
    runs = refl;
    fewer = omega arith;
    ends = ended answer refl refl refl;
  }
