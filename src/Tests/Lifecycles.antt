-- ===== src/Tests/Lifecycles.antt =====
-- The order lifecycle at concrete states.
