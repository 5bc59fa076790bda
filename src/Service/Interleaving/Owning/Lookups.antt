-- ===== src/Service/Interleaving/Owning/Lookups.antt =====
-- What a lookup leaves to the next call of its request, and the calls of all stages.
use platform_idp_demo.Base.{◌≡◌, refl, ap, String, none, some}
use platform_idp_demo.Platform.{Platform}
use platform_idp_demo.Types.Entity.{Product}
use platform_idp_demo.Repository.{ProductRepository}
use platform_idp_demo.Repository.Lawful.{IsLawful, LooksUp, find_row}
use platform_idp_demo.Cache.{Cache}
use platform_idp_demo.Export.{Excel}
use platform_idp_demo.Service.{World, Helpers}
use platform_idp_demo.Service.Catalog.{catalog_of}
use platform_idp_demo.Service.Catalog.Keys.{IsKeyed}
use platform_idp_demo.Service.Catalog.Lookups.{find_row-EachId}
use platform_idp_demo.Service.Catalog.Owners.{Owns, find_row-Owns}
use platform_idp_demo.Service.Interleaving.{
  Stage, counting, inserting, updating, writing, deleting, removing, finished, advance,
}
use platform_idp_demo.Service.Interleaving.Owning.{
  Serials, OwnChange, IsLinked, AllGiven, same, Keeps,
}
use platform_idp_demo.Service.Interleaving.Owning.Calls.{
  Owning, counting-Owning, inserting-Owning, writing-Owning, removing-Owning,
}

module _ {P : Platform} (R : ProductRepository P) (C : Cache P) (X : Excel P) (H : Helpers P R X)
    (L : IsLawful R) (S : Serials R L) where
  -- The lookup that updates and deletes share, and the stage that goes on with the id that it found.
  lookup_linked :
      (u : String) (db db' : R.Db) (p : Product P)
      → IsKeyed (L.rows db)
      → AllGiven L S db
      → Keeps L S db db'
      → L.rows db' ≡ L.rows db
      → find_row u (L.rows db) ≡ some p
      → S.Given db' (P.id p.id_model) × Owns (P.id p.id_model) u (L.rows db')
  lookup_linked u db db' p keyed given keeps' kept found = (
    keeps' (P.id p.id_model)
        (find_row-EachId (λ i. S.Given db (P.id i)) u (L.rows db) p given found),
    rw kept (find_row-Owns u (L.rows db) p keyed found),
  )

  updating-Owning :
      (m : _) (w : World R.Db C.Entries)
      → IsKeyed (L.rows w.db)
      → AllGiven L S w.db
      → Owning R C X H L S (updating m) w
  unfolding advance
  updating-Owning m w keyed given = go (L.find_lem m.uid w.db)
    where
      go : LooksUp L.rows (R.find_by_uid m.uid) m.uid w.db → Owning R C X H L S (updating m) w
      go (o, some e, db', run, kept, row) = record {
        next_stage = finished (none, some e);
        world = record w { db = db' };
        runs = rw run refl;
        keeps = S.find_keeps m.uid w.db db' o (some e) run;
        move = same kept;
        own = OwnChange.kept (ap catalog_of kept);
        linked = tt;
      }
      go (o, none, db', run, kept, row) =
          let (p, is_p, found) = row refl in
          let keeps' = S.find_keeps m.uid w.db db' o none run in
          record {
            next_stage = writing m (P.id p.id_model);
            world = record w { db = db' };
            runs = rw (run, is_p) refl;
            keeps = keeps';
            move = same kept;
            own = OwnChange.kept (ap catalog_of kept);
            linked = lookup_linked m.uid w.db db' p keyed given keeps' kept found;
          }

  deleting-Owning :
      (m : _) (w : World R.Db C.Entries)
      → IsKeyed (L.rows w.db)
      → AllGiven L S w.db
      → Owning R C X H L S (deleting m) w
  unfolding advance
  deleting-Owning m w keyed given = go (L.find_lem m.uid w.db)
    where
      go : LooksUp L.rows (R.find_by_uid m.uid) m.uid w.db → Owning R C X H L S (deleting m) w
      go (o, some e, db', run, kept, row) = record {
        next_stage = finished (none, some e);
        world = record w { db = db' };
        runs = rw run refl;
        keeps = S.find_keeps m.uid w.db db' o (some e) run;
        move = same kept;
        own = OwnChange.kept (ap catalog_of kept);
        linked = tt;
      }
      go (o, none, db', run, kept, row) =
          let (p, is_p, found) = row refl in
          let keeps' = S.find_keeps m.uid w.db db' o none run in
          record {
            next_stage = removing m (P.id p.id_model);
            world = record w { db = db' };
            runs = rw (run, is_p) refl;
            keeps = keeps';
            move = same kept;
            own = OwnChange.kept (ap catalog_of kept);
            linked = lookup_linked m.uid w.db db' p keyed given keeps' kept found;
          }

  pub stage-Owning :
      (stage : Stage P) (w : World R.Db C.Entries)
      → IsKeyed (L.rows w.db)
      → AllGiven L S w.db
      → IsLinked L S w.db stage
      → Owning R C X H L S stage w
  unfolding advance
  stage-Owning (counting m) w keyed given linked = counting-Owning R C X H L S m w
  stage-Owning (inserting m) w keyed given linked = inserting-Owning R C X H L S m w given
  stage-Owning (updating m) w keyed given linked = updating-Owning m w keyed given
  stage-Owning (writing m id) w keyed given linked = writing-Owning R C X H L S m id w keyed linked
  stage-Owning (deleting m) w keyed given linked = deleting-Owning m w keyed given
  stage-Owning (removing m id) w keyed given linked =
      removing-Owning R C X H L S m id w keyed linked
  stage-Owning (finished answer) w keyed given linked = record {
    next_stage = finished answer;
    world = w;
    runs = refl;
    keeps = λ id spent. spent;
    move = same refl;
    own = OwnChange.kept refl;
    linked = tt;
  }
