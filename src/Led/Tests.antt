-- ===== src/Led/Tests.antt =====
-- The LED thread from its start.
