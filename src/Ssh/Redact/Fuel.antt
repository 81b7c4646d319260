-- ===== src/Ssh/Redact/Fuel.antt =====
-- The fuel of the redaction is enough.
