-- ===== src/CriticalAnnotation/Laws.antt =====
-- The time that the update has.
