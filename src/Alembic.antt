-- ===== src/Alembic.antt =====
-- alembic/env.py: how Alembic's steps run against a database.
pub mod Rollback
use hotspot_payment_gateway.Base.{Option, none, some, List, [], ◌∷◌}
use hotspot_payment_gateway.Schema.Ddl.{
  Failure, Database, Outcome, done, failed, Migration, ◌>>=◌, ◌>>◌, return,
}

-- `context.run_migrations()`: the steps that Alembic chose, in order.
unfoldable pub run_migrations : List (Migration (Unit {0})) → Migration (Unit {0})
run_migrations [] = return tt
run_migrations (step ∷ steps) = do step; run_migrations steps

-- What a transaction leaves: the committed tables, or those from before and the exception.
abbrev pub committed : Database → Outcome (Unit {0}) → Database × Option Failure
committed db (done a db') = (db', none)
committed db (failed e) = (db, some e)

-- `do_run_migrations`: all steps run in one transaction.
unfoldable pub do_run_migrations :
    List (Migration (Unit {0})) → Database → Database × Option Failure
unfolding run_migrations
do_run_migrations steps db = committed db (run_migrations steps db)
