-- ===== src/Registration/Laws.antt =====
-- The gated setups against those without a gate.
