-- ===== src/Migrations.antt =====
-- alembic/versions: the four revisions, each as a pair of migrations.
pub mod Users
pub mod VerificationTokens
pub mod Tenants
pub mod States
pub mod Backfill
pub mod Batches
pub mod Encryption
pub mod Head
