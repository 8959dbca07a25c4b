-- ===== src/Tenant.antt =====
-- src/tenant: the tenant that owns every row in the single-tenant phase.
use hotspot_payment_gateway.Base.{ℕ}

-- `DEFAULT_TENANT_ID`; a UUID is its 128-bit integer.
abbrev pub default_tenant_id : ℕ
default_tenant_id = 1
