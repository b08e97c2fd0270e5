-- ===== src/Proto/Batch/Runs.antt =====
-- r
