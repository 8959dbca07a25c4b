-- ===== src/Alembic/Rollback.antt =====
-- A run of migrations is all or nothing; and the revision a5cb24869a7c cannot be left downwards.
use hotspot_payment_gateway.Base.{◌≡◌, refl, ap, some, List, [], ◌∷◌, ◌++◌}
use hotspot_payment_gateway.Schema.Ddl.{
  Failure, unnamed_constraint, Database, Outcome, done, failed, Migration,
}
use hotspot_payment_gateway.Alembic.{run_migrations, committed, do_run_migrations}
use hotspot_payment_gateway.Migrations.Tenants

then-fails :
    (o : Outcome (Unit {0})) (k : Migration (Unit {0}))
    → ((db : Database) → (e : Failure) × (k db ≡ failed e))
    → (e : Failure) × (◌≡◌ {A = Outcome (Unit {0})}
        (elim o [ done a db ↦ k db | failed f ↦ failed f ])
        (failed e))
then-fails (done a db) k h = h db
then-fails (failed f) k h = (f, refl)

module _ (step : Migration (Unit {0}))
    (refuses : (db : Database) → (e : Failure) × (step db ≡ failed e)) where
  run-fails :
      (before after : List (Migration (Unit {0}))) (db : Database)
      → (e : Failure) × (run_migrations (before ++ step ∷ after) db ≡ failed e)
  unfolding run_migrations
  run-fails [] after db =
      let (e, h) = refuses db in
      (
        e,
        ap
            (λ (o : Outcome (Unit {0})). elim o [
              | done a d ↦ run_migrations after d
              | failed f ↦ failed f
            ])
            h,
      )
  run-fails (first ∷ before) after db =
      then-fails (first db) (run_migrations (before ++ step ∷ after))
        (λ d. run-fails before after d)

downgrade-fails : (db : Database) → (e : Failure) × (Tenants.downgrade db ≡ failed e)
unfolding Tenants.downgrade
downgrade-fails db = (unnamed_constraint "users", refl)

-- Every run of migrations that has the downgrade of a5cb24869a7c among its steps fails, whatever
-- the other steps are, and leaves the database as it was.
pub do_run_migrations-downgrade :
    (before after : List (Migration (Unit {0}))) (db : Database)
    → (e : Failure) × (do_run_migrations (before ++ Tenants.downgrade ∷ after) db ≡ (db, some e))
unfolding do_run_migrations
do_run_migrations-downgrade before after db =
    let (e, h) = run-fails Tenants.downgrade downgrade-fails before after db in
    (e, ap (committed db) h)
