-- ===== src/Service/Interleaving/Owning/Calls.antt =====
-- What a count and the writes do to the catalog, from a stage whose lookup is still its own.
use platform_idp_demo.Base.{
  ◌≡◌, ◌≢◌, ◌⊎◌, ◌∙◌, refl, ap, inl, inr, String, Option, none, some, List, [], ◌∷◌, ◌++◌,
  Bool-cases,
}
use platform_idp_demo.Base.Int.{ℤ}
use platform_idp_demo.Go.{returned}
use platform_idp_demo.Platform.{Platform}
use platform_idp_demo.Repository.{ProductRepository}
use platform_idp_demo.Repository.Lawful.{IsLawful, succeeded, failed}
use platform_idp_demo.Cache.{Cache}
use platform_idp_demo.Export.{Excel}
use platform_idp_demo.Service.{World, Helpers, empty, is_duplicate, product_of, update_columns}
use platform_idp_demo.Service.Writing.{row_for}
use platform_idp_demo.Service.Editing.{update_rows-update_columns}
use platform_idp_demo.Service.Catalog.{catalog_of}
use platform_idp_demo.Service.Catalog.Keys.{IsKeyed}
use platform_idp_demo.Service.Catalog.Lookups.{catalog_of-append}
use platform_idp_demo.Service.Catalog.Owners.{revise_rows-Owns, delete_rows-Owns}
use platform_idp_demo.Service.Interleaving.{
  Stage, counting, inserting, writing, removing, finished, after_count, update_answer, advance,
}
use platform_idp_demo.Service.Interleaving.Owning.{
  Serials, OwnChange, IsLinked, AllGiven, Moves, same, grown, revising, removing_rows, Keeps,
}
use platform_idp_demo.Service.Interleaving.Owning.Rows.{unspent_differs}

module _ {P : Platform} (R : ProductRepository P) (C : Cache P) (X : Excel P) (H : Helpers P R X)
    (L : IsLawful R) (S : Serials R L) where
  pub record Owning (stage : Stage P) (w : World R.Db C.Entries) : Type 0 where
    pub next_stage : Stage P
    pub world : World R.Db C.Entries
    pub runs : advance R C X H stage w ≡ returned next_stage world
    pub keeps : Keeps L S w.db world.db
    pub move : Moves L S w.db world.db
    pub own : OwnChange stage (catalog_of (L.rows w.db)) (catalog_of (L.rows world.db))
    pub linked : IsLinked L S world.db next_stage

  after_count-IsLinked : (m : _) (b : _) (db : R.Db) → IsLinked L S db (after_count {P = P} m b)
  after_count-IsLinked m platform_idp_demo.Base.true db = tt
  after_count-IsLinked m platform_idp_demo.Base.false db = tt

  pub counting-Owning : (m : _) (w : World R.Db C.Entries) → Owning (counting m) w
  unfolding advance
  counting-Owning m w =
      let (n, err, db', run, kept, exact) = L.count_lem m.sku w.db in
      record {
        next_stage = after_count m (is_duplicate err n);
        world = record w { db = db' };
        runs = rw run refl;
        keeps = S.count_keeps m.sku w.db db' n err run;
        move = same kept;
        own = OwnChange.kept (ap catalog_of kept);
        linked = after_count-IsLinked m (is_duplicate err n) db';
      }

  pub inserting-Owning :
      (m : _) (w : World R.Db C.Entries) → AllGiven L S w.db → Owning (inserting m) w
  unfolding advance
  inserting-Owning m w given =
      let (k, (err, db', run, change)) = L.create_lem (product_of m) w.db in
      elim change [
        | succeeded none_err rows' ↦
            let (new, spent, other) = S.create_gives (product_of m) w.db db' (rw none_err at run) in
            let (unused, put) =
              catalog_of-append (L.rows w.db) (row_for m k)
                (unspent_differs L S w.db k (L.rows w.db) new given other) in
            record {
              next_stage = finished (some empty, none);
              world = record w { db = db' };
              runs = rw (run, none_err) refl;
              keeps = S.create_keeps (product_of m) w.db db' err run;
              move = grown (row_for m k) new spent other rows';
              own = OwnChange.created m k refl unused (ap catalog_of rows' ∙ put);
              linked = tt;
            }
        | failed e some_err rows' ↦ record {
          next_stage = finished (none, some e);
          world = record w { db = db' };
          runs = rw (run, some_err) refl;
          keeps = S.create_keeps (product_of m) w.db db' err run;
          move = same rows';
          own = OwnChange.kept (ap catalog_of rows');
          linked = tt;
        }
      ]

  pub writing-Owning :
      (m : _) (id : ℤ) (w : World R.Db C.Entries)
      → IsKeyed (L.rows w.db)
      → IsLinked L S w.db (writing m id)
      → Owning (writing m id) w
  unfolding advance
  writing-Owning m id w keyed linked =
      let (err, db', run, change) = L.update_lem (update_columns m) id w.db in
      elim change [
        | succeeded none_err rows' ↦
            let revised' = rows' ∙ update_rows-update_columns id m (L.rows w.db) in
            record {
              next_stage = finished (update_answer err);
              world = record w { db = db' };
              runs = rw run refl;
              keeps = S.update_keeps (update_columns m) id w.db db' err run;
              move = revising id m revised';
              own = elim (revise_rows-Owns id m (L.rows w.db) keyed linked.1) [
                | inl still ↦ OwnChange.kept (ap catalog_of revised' ∙ still)
                | inr (p, found, put) ↦
                    OwnChange.updated m id p refl found (ap catalog_of revised' ∙ put)
              ];
              linked = tt;
            }
        | failed e some_err rows' ↦ record {
          next_stage = finished (update_answer err);
          world = record w { db = db' };
          runs = rw run refl;
          keeps = S.update_keeps (update_columns m) id w.db db' err run;
          move = same rows';
          own = OwnChange.kept (ap catalog_of rows');
          linked = tt;
        }
      ]

  pub removing-Owning :
      (m : _) (id : ℤ) (w : World R.Db C.Entries)
      → IsKeyed (L.rows w.db)
      → IsLinked L S w.db (removing m id)
      → Owning (removing m id) w
  unfolding advance
  removing-Owning m id w keyed linked =
      let (err, db', run, change) = L.delete_lem id w.db in
      let keeps' = S.delete_keeps id w.db db' err run in
      elim change [
        | succeeded none_err rows' ↦ record {
          next_stage = finished (some empty, err);
          world = record w { db = db' };
          runs = rw run refl;
          keeps = keeps';
          move = removing_rows id rows';
          own = elim (delete_rows-Owns id m.uid (L.rows w.db) keyed linked.1) [
            | inl still ↦ OwnChange.kept (ap catalog_of rows' ∙ still)
            | inr (p, found, put) ↦ OwnChange.deleted m id p refl found (ap catalog_of rows' ∙ put)
          ];
          linked = tt;
        }
        | failed e some_err rows' ↦ record {
          next_stage = finished (some empty, err);
          world = record w { db = db' };
          runs = rw run refl;
          keeps = keeps';
          move = same rows';
          own = OwnChange.kept (ap catalog_of rows');
          linked = tt;
        }
      ]
