-- ===== src/Integrations.antt =====
-- src/integrations: what talks to other services.
pub mod Email
